-- ===== src/Memory/World/Prepares.antt =====
-- Operations that read and compute before anything is written: they leave rows and cache as they
-- are, and their result satisfies a predicate of the rows.
use agent_memory_mcp.Base.{
  ℕ, String, ◌≡◌, refl, sym, subst, ◌∙◌, Bool, true, false, Option, none, some, List, [], ◌∷◌,
}
use agent_memory_mcp.Dict.{Dict, lookup}
use agent_memory_mcp.Memory.Types.{is_zero, Memory, Result, ok, err}
use agent_memory_mcp.Memory.World.{Env, Embedded, World}
use agent_memory_mcp.Memory.World.Rows.{scan_row}
use agent_memory_mcp.Memory.World.Op.{
  Op, lift, continue, ◌>>=◌, sql, tick, embed_detailed, found_row, read_row, get,
}

pub record PreparesAt {ℓ} {A : Type ℓ} (P : Dict Memory → A → Type 0) (m : Op A) (w : World)
    : Type ℓ where
  pub rows : (m w).1.rows ≡ w.rows
  pub cache : (m w).1.cache ≡ w.cache
  pub result : (a : A) → (m w).0 ≡ ok a → P w.rows a

-- nothing is known of the result
abbrev pub Anything {ℓ} : {A : Type ℓ} → Dict Memory → A → Type 0
Anything rows a = Unit

-- the result of `Get`
abbrev pub IsRead : String → Dict Memory → Memory → Type 0
IsRead id rows m = (old : Memory) × (lookup id rows ≡ some old) × (m ≡ scan_row old)

module _ {ℓ} {A : Type ℓ} where
  pub lift-Prepares :
      (r : Result A) (w : World) → PreparesAt (λ _ a. Anything {A = A} w.rows a) (lift r) w
  unfolding lift
  lift-Prepares r w = record { rows = refl; cache = refl; result = λ a e. tt }

  pub lift-Prepares_eq :
      (P : Dict Memory → A → Type 0) (r : Result A) (w : World)
      → ((a : A) → r ≡ ok a → P w.rows a)
      → PreparesAt P (lift r) w
  unfolding lift
  lift-Prepares_eq P r w p = record { rows = refl; cache = refl; result = p }

pub sql-Prepares : (w : World) → PreparesAt (λ _ a. Unit) sql w
unfolding sql
sql-Prepares w = split w.faults refl
  where
    split : (l : List Bool) → w.faults ≡ l → PreparesAt (λ _ a. Unit) sql w
    split [] e = record { rows = rw (e, sql); cache = rw (e, sql); result = λ a _. tt }
    split (true ∷ l) e = record { rows = rw (e, sql); cache = rw (e, sql); result = λ a _. tt }
    split (false ∷ l) e = record { rows = rw (e, sql); cache = rw (e, sql); result = λ a _. tt }

pub tick-Prepares :
    (env : Env) (w : World)
    → ((n : ℕ) → is_zero (env.now n) ≡ false)
    → PreparesAt (λ _ t. is_zero t ≡ false) (tick env) w
unfolding tick
tick-Prepares env w h = record {
  rows = refl;
  cache = refl;
  result = λ t e. subst (λ t. is_zero t ≡ false) (cc) (h w.calls);
}

pub embed_detailed-Prepares :
    (provider : ℕ → String → Option Embedded) (text : String) (w : World)
    → PreparesAt (λ _ a. Unit) (embed_detailed provider text) w
unfolding embed_detailed
embed_detailed-Prepares provider text w = record { rows = refl; cache = refl; result = λ a _. tt }

read_row-Prepares : (id : String) (w : World) → PreparesAt (IsRead id) (read_row id) w
unfolding read_row
read_row-Prepares id w = record { rows = refl; cache = refl; result = read (lookup id w.rows) refl }
  where
    read :
        (o : Option Memory)
        → lookup id w.rows ≡ o
        → (a : Memory) → found_row id o ≡ ok a
        → IsRead id w.rows a
    read none e a h = cc
    read (some old) e a h = (old, e, cc)

module _ {ℓ κ} {A : Type ℓ} {B : Type κ} {Q : Dict Memory → B → Type 0} where
  continue-Prepares :
      (r : Result A) (f : A → Op B) (w' w : World)
      → w'.rows ≡ w.rows
      → w'.cache ≡ w.cache
      → ((a : A) → r ≡ ok a → PreparesAt Q (f a) w')
      → ((continue r f w').1.rows ≡ w.rows)
        × ((continue r f w').1.cache ≡ w.cache)
        × ((b : B) → (continue r f w').0 ≡ ok b → Q w.rows b)
  continue-Prepares (ok a) f w' w e c p =
      let h = p a refl in
      (h.rows ∙ e, h.cache ∙ c, λ b k. subst (λ rows. Q rows b) e (h.result b k))
  continue-Prepares (err x) f w' w e c p = (e, c, λ b k. cc)

  -- one preparation after another
  pub bind-Prepares :
      (P : Dict Memory → A → Type 0) (m : Op A) (f : A → Op B) (w : World)
      → PreparesAt P m w
      → ((a : A) (w' : World) → P w'.rows a → PreparesAt Q (f a) w')
      → PreparesAt Q (m >>= f) w
  bind-Prepares P m f w p q =
      let w' = (m w).1 in
      let h =
        continue-Prepares (m w).0 f w' w p.rows p.cache
          (λ a e. q a w' (subst (λ rows. P rows a) (sym p.rows) (p.result a e))) in
      record { rows = h.0; cache = h.1; result = h.2 }

pub get-Prepares : (id : String) (w : World) → PreparesAt (IsRead id) (get id) w
unfolding get
get-Prepares id w =
    bind-Prepares (λ _ a. Unit) sql (λ _. read_row id) w (sql-Prepares w)
      (λ a w' _. read_row-Prepares id w')

-- a fact about the rows is carried along
pub with_fact {ℓ} :
    {A : Type ℓ} (Q : Dict Memory → Type 0) (P : Dict Memory → A → Type 0) (m : Op A) (w : World)
    → Q w.rows
    → PreparesAt P m w
    → PreparesAt (λ rows a. Q rows × P rows a) m w
with_fact Q P m w q p = record { rows = p.rows; cache = p.cache; result = λ a e. (q, p.result a e) }
