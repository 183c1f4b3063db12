-- ===== src/Memory/Store/Writes/Failing.antt =====
-- An update that fails changes nothing.
use agent_memory_mcp.Base.{String, ◌≡◌, [], ◌∷◌}
use agent_memory_mcp.Memory.Types.{Error, err}
use agent_memory_mcp.Memory.World.{Env, World}
use agent_memory_mcp.Memory.World.Op.{save, lift}
use agent_memory_mcp.Memory.World.Prepares.{lift-Prepares}
use agent_memory_mcp.Memory.World.Failing.{IsUnchanged, prepare-FailsClean, save-FailsClean}
use agent_memory_mcp.Memory.Store.Embedding.{check_secrets}
use agent_memory_mcp.Memory.Store.Writes.{
  Update, prepare_update, update_locked, embed_update, update,
}
use agent_memory_mcp.Memory.Store.Writes.Agreement.{prepare_update-Quiet}
use agent_memory_mcp.Memory.Store.Writes.Updating.{embed_update-Prepares}

-- `Update` that ends in an error, whichever of its steps fails, leaves rows and cache as they were.
pub update-FailsClean :
    (env : Env) (id : String) (u : Update) (w : World) (e : Error)
    → (update env id u w).0 ≡ err e
    → IsUnchanged w (update env id u w).1
unfolding update update_locked
update-FailsClean env id u w =
    let checked = check_secrets env u.content (u.title ∷ u.context ∷ []) in
    prepare-FailsClean (λ _ _. Unit) (lift checked) _ w (lift-Prepares checked w)
      (λ content w1.
        prepare-FailsClean (λ _ _. Unit) (embed_update env content) _ w1
          (embed_update-Prepares env content w1)
          (λ embedded w2.
            prepare-FailsClean (λ _ _. Unit)
              (prepare_update env id (record u { content = content }) embedded) save w2
              (prepare_update-Quiet env id (record u { content = content }) embedded w2)
              save-FailsClean))
