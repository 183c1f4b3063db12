-- ===== src/Memory/Store/Supersede/Failing.antt =====
-- A retirement that fails changes nothing: neither row of the pair is written without the other.
use agent_memory_mcp.Base.{
  String, ◌≡◌, refl, Bool, true, false, Option, none, some, [], ◌∷◌, if◌then◌else◌,
}
use agent_memory_mcp.Text.{trim_space, is_empty}
use agent_memory_mcp.Memory.Types.{Time, Memory, Error, ok, err}
use agent_memory_mcp.Memory.Validate.{validate}
use agent_memory_mcp.Memory.World.{Env, World}
use agent_memory_mcp.Memory.World.Op.{lift, get, tick, ◌>>=◌, save_all}
use agent_memory_mcp.Memory.World.Prepares.{
  PreparesAt, IsRead, lift-Prepares, bind-Prepares, get-Prepares,
}
use agent_memory_mcp.Memory.World.Failing.{IsUnchanged, prepare-FailsClean, save_all-FailsClean}
use agent_memory_mcp.Memory.Store.Supersede.{
  retire, link_back, try_get, linked_pair, prepare_outdated, mark_outdated,
}
use agent_memory_mcp.Memory.Store.Supersede.Outdated.{IsReadOrNone, try_get-Prepares}

linked_pair-Quiet :
    (id : String) (now : Time) (retired : Memory) (o : Option Memory) (w : World)
    → PreparesAt (λ _ _. Unit) (linked_pair id now retired o) w
linked_pair-Quiet id now retired none w = lift-Prepares (ok (retired ∷ [])) w
linked_pair-Quiet id now retired (some m) w =
    bind-Prepares (λ _ _. Unit) (lift (validate (link_back id m now)))
      (λ v. lift (ok (retired ∷ v ∷ []))) w (lift-Prepares (validate (link_back id m now)) w)
      (λ v w' _. lift-Prepares (ok (retired ∷ v ∷ [])) w')

tick-Quiet : (env : Env) (w : World) → PreparesAt (λ _ _. Unit) (tick env) w
unfolding tick
tick-Quiet env w = record { rows = refl; cache = refl; result = λ t _. tt }

prepare_outdated-Quiet :
    (env : Env) (id reason superseded_by : String) (w : World)
    → PreparesAt (λ _ _. Unit) (prepare_outdated env id reason superseded_by) w
unfolding prepare_outdated
prepare_outdated-Quiet env id reason superseded_by w =
    bind-Prepares (IsRead id) (get id) _ w (get-Prepares id w) (λ m w1 _.
      bind-Prepares (λ _ _. Unit) (tick env) _ w1 (tick-Quiet env w1)
        (λ now w2 _.
          let retired = validate (retire env reason superseded_by m now) in
          bind-Prepares (λ _ _. Unit) (lift retired) _ w2 (lift-Prepares retired w2)
            (λ v w3 _. finish now v w3 (is_empty superseded_by))))
  where
    finish :
        (now : Time) (v : Memory) (w' : World) (alone : Bool)
        → PreparesAt
            (λ _ _. Unit)
            (if alone
              then lift (ok (v ∷ []))
              else (try_get superseded_by >>= λ successor. linked_pair id now v successor))
            w'
    finish now v w' true = lift-Prepares (ok (v ∷ [])) w'
    finish now v w' false =
        bind-Prepares (IsReadOrNone superseded_by) (try_get superseded_by)
          (λ successor. linked_pair id now v successor) w' (try_get-Prepares superseded_by w')
          (λ o w'' _. linked_pair-Quiet id now v o w'')

-- `MarkOutdated` that ends in an error, also between its two rows or at the commit, leaves rows and
-- cache as they were.
pub mark_outdated-FailsClean :
    (env : Env) (id reason superseded_by : String) (w : World) (e : Error)
    → (mark_outdated env id reason superseded_by w).0 ≡ err e
    → IsUnchanged w (mark_outdated env id reason superseded_by w).1
unfolding mark_outdated
mark_outdated-FailsClean env id reason superseded_by w =
    prepare-FailsClean (λ _ _. Unit) (prepare_outdated env id reason (trim_space superseded_by))
      save_all w (prepare_outdated-Quiet env id reason (trim_space superseded_by) w)
      save_all-FailsClean
