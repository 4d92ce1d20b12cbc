-- ===== src/Sandbox/Ledger/Lifespan.antt =====
-- What `Drain` does to a sandbox that holds a slot, after any history of calls.
use kubebox.Common.{
  ◌+◌, ◌≡◌, refl, Text, text_eq_refl, lookup, lookup-insert_self, count_where-insert, some, arith,
}
use kubebox.Governance.{Time}
use kubebox.Sandbox.Types.{
  Store, Deps, Sandbox, Phase, provisioning, ready, draining, reserved, released, ok, clone_sandbox,
  quota_key,
}
use kubebox.Sandbox.Quotas.{write_count, write_released}
use kubebox.Sandbox.Lifecycle.{write_phase, drain, drain_phase, drain_live, drain_found}
use kubebox.Sandbox.Ledger.{slot_of, used, holds}
use kubebox.Sandbox.Ledger.Drain.{drain_live_lem}
use kubebox.Sandbox.Ledger.Slots.{Slot, live-Slot}
use kubebox.Sandbox.Ledger.Histories.{Reach, Reach-IsConsistent}

-- A sandbox that holds a slot.
abbrev pub IsLive : Sandbox → Type 0
IsLive sb = slot_of sb.phase ≡ reserved

abbrev pub moved : Sandbox → Phase → Time → Sandbox
moved sb p now = record sb { phase = p; updated_at = now }

module _ {G : Type 0} (deps : Deps G) where
  phase_live :
      (p : Phase) (s : Store G) (id : Text) (sb : Sandbox) (now : Time)
      → slot_of p ≡ reserved
      → drain_phase deps p s id sb now ≡ drain_live deps s id sb now
  unfolding drain_phase
  phase_live provisioning s id sb now h = refl
  phase_live ready s id sb now h = refl
  phase_live _ s id sb now h = cc

  pub drain-IsLive :
      (s : Store G) (id : Text) (sb : Sandbox) (now : Time)
      → lookup id s.sandboxes ≡ some sb
      → IsLive sb
      → drain deps s id now ≡ drain_live deps s id sb now
  unfolding drain drain_found
  drain-IsLive s id sb now at live = rw at (phase_live sb.phase s id sb now live)

  -- The slot that a drain gives back is one that its owner held.
  Slot-freed :
      (s : Store G) (id : Text) (sb : Sandbox) (t : Slot s id sb)
      → let key = quota_key t.allocation.tenant_id t.allocation.owner_id in
        used (write_released s sb.allocation_id t.allocation) key + 1 ≡ used s key
  unfolding write_released
  Slot-freed s id sb t =
      let key = quota_key t.allocation.tenant_id t.allocation.owner_id in
      ground (
        arith,
        count_where-insert (holds key) sb.allocation_id (record t.allocation { status = released })
            s.allocations,
        t.allocated,
        t.held,
        text_eq_refl key,
      )

  -- What a drain leaves of the sandbox.
  pub drain-moved :
      (s : Store G) (id : Text) (sb : Sandbox) (now : Time)
      → Reach deps s
      → lookup id s.sandboxes ≡ some sb
      → IsLive sb
      → lookup id (drain deps s id now).0.sandboxes ≡ some (moved sb draining now)
  unfolding write_phase write_count
  drain-moved s id sb now r at live =
      let c = Reach-IsConsistent deps r in
      let t = live-Slot s id sb c at live in
      rw (drain-IsLive s id sb now at live, drain_live_lem deps s id sb now c t)
        (lookup-insert_self id _ _)

  -- After any history of calls on the store without a durable boundary (limits and numbers in
  -- range), a sandbox that is provisioning or ready can be drained: the call
  -- returns the sandbox in the phase draining, and one allocation less is reserved for the owner of
  -- its slot.
  pub drain-frees :
      (s : Store G) (id : Text) (sb : Sandbox) (now : Time)
      → Reach deps s
      → lookup id s.sandboxes ≡ some sb
      → IsLive sb
      → let d = drain deps s id now in
        (d.1 ≡ ok (clone_sandbox (moved sb draining now)))
        × ((owner : Slot s id sb) × (used d.0
                  (quota_key owner.allocation.tenant_id owner.allocation.owner_id)
                + 1
              ≡ used s (quota_key owner.allocation.tenant_id owner.allocation.owner_id)))
  unfolding write_phase write_count
  drain-frees s id sb now r at live =
      let c = Reach-IsConsistent deps r in
      let t = live-Slot s id sb c at live in
      rw (drain-IsLive s id sb now at live, drain_live_lem deps s id sb now c t)
        (refl, (t, Slot-freed s id sb t))
