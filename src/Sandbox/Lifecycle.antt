-- ===== src/Sandbox/Lifecycle.antt =====
-- `Get`, `Drain` and `CompleteDeletion` of internal/sandbox/service.go.
use kubebox.Common.{Text, lookup, insert, Option, none, some}
use kubebox.Governance.{Time}
use kubebox.Sandbox.Types.{
  Phase, provisioning, ready, draining, deleted, Sandbox, Store, Error, not_found,
  invalid_transition, Result, ok, err, Deps, clone_sandbox,
}
use kubebox.Sandbox.Quotas.{release_allocation}

get_phase : Phase → Sandbox → Result Sandbox
get_phase deleted sb = err not_found
get_phase _ sb = ok (clone_sandbox sb)

get_found : Option Sandbox → Result Sandbox
unfolding get_phase
get_found none = err not_found
get_found (some sb) = get_phase sb.phase sb

module _ {G : Type 0} where
  unfoldable pub get : Store G → Text → Result Sandbox
  unfolding get_found
  get s id = get_found (lookup id s.sandboxes)

  unfoldable pub write_phase : Store G → Text → Sandbox → Phase → Time → Store G × Result Sandbox
  write_phase s id sb phase now =
      let sb' = record sb { phase = phase; updated_at = now } in
      (record s { sandboxes = insert id sb' s.sandboxes }, ok (clone_sandbox sb'))

  unfoldable pub after_drain :
      Store G × Option Error → Text → Sandbox → Time → Store G × Result Sandbox
  unfolding write_phase
  after_drain (s, some e) id sb now = (s, err e)
  after_drain (s, none) id sb now = write_phase s id sb draining now

  unfoldable pub complete_phase : Phase → Store G → Text → Sandbox → Time → Store G × Result Sandbox
  unfolding write_phase
  complete_phase draining s id sb now = write_phase s id sb deleted now
  complete_phase Phase.failed s id sb now = write_phase s id sb deleted now
  complete_phase _ s id sb now = (s, err invalid_transition)

  unfoldable pub complete_found : Option Sandbox → Store G → Text → Time → Store G × Result Sandbox
  unfolding complete_phase
  complete_found none s id now = (s, err not_found)
  complete_found (some sb) s id now = complete_phase sb.phase s id sb now

  unfoldable pub complete_deletion : Store G → Text → Time → Store G × Result Sandbox
  unfolding complete_found
  complete_deletion s id now = complete_found (lookup id s.sandboxes) s id now

module _ {G : Type 0} (deps : Deps G) where
  unfoldable pub drain_live : Store G → Text → Sandbox → Time → Store G × Result Sandbox
  unfolding after_drain
  drain_live s id sb now = after_drain (release_allocation deps s sb.allocation_id now) id sb now

  unfoldable pub drain_phase : Phase → Store G → Text → Sandbox → Time → Store G × Result Sandbox
  unfolding drain_live
  drain_phase draining s id sb now = (s, ok (clone_sandbox sb))
  drain_phase ready s id sb now = drain_live s id sb now
  drain_phase provisioning s id sb now = drain_live s id sb now
  drain_phase _ s id sb now = (s, err invalid_transition)

  unfoldable pub drain_found : Option Sandbox → Store G → Text → Time → Store G × Result Sandbox
  unfolding drain_phase
  drain_found none s id now = (s, err not_found)
  drain_found (some sb) s id now = drain_phase sb.phase s id sb now

  -- `now` is the reading of the clock for the release and for the time stamp.
  unfoldable pub drain : Store G → Text → Time → Store G × Result Sandbox
  unfolding drain_found
  drain s id now = drain_found (lookup id s.sandboxes) s id now
