-- ===== src/Dict/Laws.antt =====
-- A lookup after a write or a deletion.
use agent_memory_mcp.Base.{
  String, ◌≡◌, refl, none, some, [], ◌∷◌, arith, ◌==◌, eq_iff, if◌then◌else◌,
}
use agent_memory_mcp.Dict.{Dict, lookup, insert, erase, text_at}

module _ {ℓ} {V : Type ℓ} where
  pub lookup-insert :
      (written asked : String) (value : V) (before : Dict V)
      → lookup asked (insert written value before)
        ≡ (if written == asked then some value else lookup asked before)
  unfolding lookup insert
  lookup-insert written asked value [] = refl
  lookup-insert written asked value ((first, held) ∷ rest) = ground (
    arith,
    lookup-insert written asked value rest,
    eq_iff first asked,
    eq_iff first written,
    eq_iff written asked,
  )

  pub lookup-erase :
      (k j : String) (m : Dict V) → lookup j (erase k m) ≡ (if k == j then none else lookup j m)
  unfolding lookup erase
  lookup-erase k j [] = ground arith
  lookup-erase k j ((i, w) ∷ m) =
      ground (arith, lookup-erase k j m, eq_iff i k, eq_iff i j, eq_iff k j)

pub text_at-insert :
    (k j v : String) (m : Dict String)
    → text_at j (insert k v m) ≡ (if k == j then v else text_at j m)
unfolding text_at
text_at-insert k j v m = ground (arith, lookup-insert k j v m)

pub text_at-erase :
    (k j : String) (m : Dict String) → text_at j (erase k m) ≡ (if k == j then "" else text_at j m)
unfolding text_at
text_at-erase k j m = ground (arith, lookup-erase k j m)

pub ruleset dict_laws = (lookup-insert, lookup-erase, text_at-insert, text_at-erase)
