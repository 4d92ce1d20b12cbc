-- ===== src/Sandbox/Ledger/Endings.antt =====
-- The end of a sandbox: `Drain`, then `CompleteDeletion`, with any calls before, between and after.
use kubebox.Common.{◌+◌, ◌≡◌, refl, ap, ◌⊎◌, inl, inr, Text, lookup, lookup-insert_self, some}
use kubebox.Governance.{Time}
use kubebox.Sandbox.Types.{
  Store, Deps, Sandbox, draining, deleted, Result, ok, err, not_found, invalid_transition,
  clone_sandbox, quota_key,
}
use kubebox.Sandbox.Lifecycle.{
  get, write_phase, drain, drain_found, drain_phase, complete_deletion, complete_found,
  complete_phase,
}
use kubebox.Sandbox.Ledger.{used}
use kubebox.Sandbox.Ledger.Slots.{Slot}
use kubebox.Sandbox.Ledger.Histories.{
  Reach, Reach-IsConsistent, Step-IsConsistent, drains, completes,
}
use kubebox.Sandbox.Ledger.Lifespan.{IsLive, moved, drain-moved, drain-frees}
use kubebox.Sandbox.Ledger.Lineage.{
  Becomes, Advances-draining, Advances-deleted, Calls-Becomes, Calls-IsConsistent,
}
use kubebox.Sandbox.Mirror.Histories.{Calls}

module _ {G : Type 0} (deps : Deps G) where
  get_deleted :
      (v : Store G) (id : Text) (z : Sandbox)
      → lookup id v.sandboxes ≡ some z
      → z.phase ≡ deleted
      → get v id ≡ err not_found
  unfolding get
  get_deleted v id z found h = rw (found, h) refl

  complete_draining :
      (u : Store G) (id : Text) (y : Sandbox) (later : Time)
      → lookup id u.sandboxes ≡ some y
      → y.phase ≡ draining
      → complete_deletion u id later ≡ write_phase u id y deleted later
  unfolding complete_deletion complete_found complete_phase
  complete_draining u id y later found h = rw (found, h) refl

  complete_deleted :
      (u : Store G) (id : Text) (y : Sandbox) (later : Time)
      → lookup id u.sandboxes ≡ some y
      → y.phase ≡ deleted
      → complete_deletion u id later ≡ (u, err invalid_transition)
  unfolding complete_deletion complete_found complete_phase
  complete_deleted u id y later found h = rw (found, h) refl

  pub drain-draining :
      (u : Store G) (id : Text) (y : Sandbox) (later : Time)
      → lookup id u.sandboxes ≡ some y
      → y.phase ≡ draining
      → drain deps u id later ≡ (u, ok (clone_sandbox y))
  unfolding drain drain_found drain_phase
  drain-draining u id y later found h = rw (found, h) refl

  pub drain-deleted :
      (u : Store G) (id : Text) (y : Sandbox) (later : Time)
      → lookup id u.sandboxes ≡ some y
      → y.phase ≡ deleted
      → drain deps u id later ≡ (u, err invalid_transition)
  unfolding drain drain_found drain_phase
  drain-deleted u id y later found h = rw (found, h) refl

  -- What there is of a drained sandbox after further calls: it is draining or deleted.
  pub drained-Becomes :
      (s u : Store G) (id : Text) (sb : Sandbox) (now : Time)
      → Reach deps s
      → lookup id s.sandboxes ≡ some sb
      → IsLive sb
      → Calls deps (drain deps s id now).0 u
      → (y : Sandbox) × (lookup id u.sandboxes ≡ some y)
        × Becomes (moved sb draining now) y
        × ((y.phase ≡ draining) ⊎ (y.phase ≡ deleted))
  drained-Becomes s u id sb now r at live calls =
      let (y, found, became) =
        Calls-Becomes deps id (moved sb draining now)
          (Step-IsConsistent deps (drains s id now) (Reach-IsConsistent deps r)) calls
          (drain-moved deps s id sb now r at live) in
      (y, found, became, Advances-draining became.moves refl)

  -- How the completion of a deletion ends: it returns the sandbox in the phase deleted; or it had
  -- been deleted before, and then it is refused.
  pub record IsCompleted (u : Store G) (id : Text) (sb : Sandbox) (later : Time)
      (e : Store G × Result Sandbox) : Type 0 where
    pub left : Sandbox
    pub stored : lookup id e.0.sandboxes ≡ some left
    pub gone : left.phase ≡ deleted
    pub answer :
        (e.1 ≡ ok (clone_sandbox (moved sb deleted later)))
        ⊎ ((get u id ≡ err not_found) × (e ≡ (u, err invalid_transition)))

  complete-IsCompleted :
      (u : Store G) (id : Text) (sb y : Sandbox) (now later : Time)
      → lookup id u.sandboxes ≡ some y
      → Becomes (moved sb draining now) y
      → (y.phase ≡ draining) ⊎ (y.phase ≡ deleted)
      → IsCompleted u id sb later (complete_deletion u id later)
  unfolding write_phase
  complete-IsCompleted u id sb y now later found b (inl h) =
      rw (complete_draining u id y later found h) (record {
        left = moved y deleted later;
        stored = lookup-insert_self id _ _;
        gone = refl;
        answer = inl (ap (λ z. ok (clone_sandbox (moved z deleted later))) b.rest);
      })
  complete-IsCompleted u id sb y now later found b (inr h) =
      rw (complete_deleted u id y later found h) (record {
        left = y;
        stored = found;
        gone = h;
        answer = inr (get_deleted u id y found h, refl);
      })

  -- After any history of calls on the store without a durable boundary (limits and numbers in
  -- range), a sandbox that is provisioning or ready can be drained: the call returns the sandbox in
  -- the phase draining, and one allocation less is reserved for the owner of its slot. After any
  -- further calls the deletion can be completed, which returns the sandbox in the phase deleted,
  -- unless one of those calls has done so; and after that, and any calls more, `Get` does not find
  -- it.
  pub drain_complete :
      (s u v : Store G) (id : Text) (sb : Sandbox) (now later : Time)
      → Reach deps s
      → lookup id s.sandboxes ≡ some sb
      → IsLive sb
      → Calls deps (drain deps s id now).0 u
      → Calls deps (complete_deletion u id later).0 v
      → let d = drain deps s id now in
        (d.1 ≡ ok (clone_sandbox (moved sb draining now)))
        × ((owner : Slot s id sb) × (used d.0
                  (quota_key owner.allocation.tenant_id owner.allocation.owner_id)
                + 1
              ≡ used s (quota_key owner.allocation.tenant_id owner.allocation.owner_id)))
        × IsCompleted u id sb later (complete_deletion u id later)
        × (get v id ≡ err not_found)
  drain_complete s u v id sb now later r at live before after =
      let (y, found, became, ending) = drained-Becomes s u id sb now r at live before in
      let done = complete-IsCompleted u id sb y now later found became ending in
      let (drained, freed) = drain-frees deps s id sb now r at live in
      let c =
        Calls-IsConsistent deps
          (Step-IsConsistent deps (drains s id now) (Reach-IsConsistent deps r)) before in
      let (z, last, became') =
        Calls-Becomes deps id done.left (Step-IsConsistent deps (completes u id later) c) after
          done.stored in
      (drained, freed, done, get_deleted v id z last (Advances-deleted became'.moves done.gone))
