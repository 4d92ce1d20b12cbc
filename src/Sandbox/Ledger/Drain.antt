-- ===== src/Sandbox/Ledger/Drain.antt =====
-- `Drain` and `CompleteDeletion` keep the store consistent, and a live sandbox can be drained.
use kubebox.Common.{
  ℕ, ◌+◌, ◌<◌, ◌≡◌, refl, sym, ◌∙◌, inl, inr, Text, text_eq, text_eq_iff, lookup, insert,
  lookup-insert, lookup-insert_self, count_where, count_where-insert, bit, dec64, dec64-pos, Option,
  none, some, false, Bool-cases, arith, subst, Map,
}
use kubebox.Governance.{Time}
use kubebox.Sandbox.Types.{
  Store, Deps, Sandbox, Allocation, Phase, provisioning, ready, draining, reserved, released,
  quota_key, allocation_id_of, sandbox_id_of,
}
use kubebox.Sandbox.Quotas.{write_released, write_count}
use kubebox.Sandbox.Lifecycle.{
  write_phase, drain, drain_live, after_drain, drain_phase, drain_found,
}
use kubebox.Sandbox.Ledger.{IsConsistent, IsRow, Row, HasSlot, Link, slot_of, used, holds}
use kubebox.Sandbox.Ledger.Slots.{Slot, live-Slot, release_allocation-Slot}

-- The store after the drain of a live sandbox.
module _ {G : Type 0} (s : Store G) (c : IsConsistent s) (id : Text) (sb : Sandbox)
    (at : lookup id s.sandboxes ≡ some sb) (t : Slot s id sb) (now : Time) where
  abbrev a : Allocation
  a = t.allocation

  abbrev owner : Text
  owner = quota_key a.tenant_id a.owner_id

  abbrev allocations' : Map Allocation
  allocations' = insert sb.allocation_id (record a { status = released }) s.allocations

  abbrev sb' : Sandbox
  sb' = record sb { phase = draining; updated_at = now }

  used-drain : (k : Text) → count_where (holds k) allocations' + bit (text_eq owner k) ≡ used s k
  used-drain k = ground (
    arith,
    count_where-insert (holds k) sb.allocation_id (record a { status = released }) s.allocations,
    t.allocated,
    t.held,
  )

  q-IsRow : IsRow (used s owner) t.row
  q-IsRow = rw t.counted at (c.rows owner)

  counted-IsRow :
      (n : ℕ)
      → n + 1 ≡ used s owner
      → IsRow n (record t.row { current_count = dec64 t.row.current_count })
  counted-IsRow n e =
      let r = q-IsRow in
      record {
        counted = rw (r.counted, ← e) (dec64-pos n (ground (arith, r.counted, r.within, r.int)));
        within = ground (arith, r.counted, r.within, r.int);
        int = r.int;
      }

  rows-drain :
      (k : Text)
      → Row (count_where (holds k) allocations') (
          lookup k
            (insert owner (record t.row { current_count = dec64 t.row.current_count }) s.quotas))
  rows-drain k = rw lookup-insert (elim (Bool-cases (text_eq owner k)) [
    | inl e ↦ rw e (counted-IsRow _ (ground (arith, used-drain k, e, (text_eq_iff owner k).0 e)))
    | inr e ↦
        rw e (subst (λ n. Row n (lookup k s.quotas)) (ground (arith, used-drain k, e)) (c.rows k))
  ])

  HasSlot-drain :
      (j : Text) (x : Sandbox)
      → text_eq id j ≡ false
      → HasSlot j x (lookup x.allocation_id s.allocations)
      → HasSlot j x (lookup x.allocation_id allocations')
  HasSlot-drain j x other h =
      rw lookup-insert (elim (Bool-cases (text_eq sb.allocation_id x.allocation_id)) [
        | inl e ↦
            (let h' : HasSlot j x (some a) = rw (← (text_eq_iff _ _).0 e, t.allocated) at h in
              absurd (ground (arith, text_eq_iff id j, t.same, h'.0)))
        | inr e ↦ rw e h
      ])

  Link-drain :
      (j : Text) (o : Option Sandbox)
      → text_eq id j ≡ false
      → Link s j o
      → Link (record s { allocations = allocations' }) j o
  Link-drain j none other h = tt
  Link-drain j (some x) other h = HasSlot-drain j x other h

  links-drain :
      (j : Text)
      → Link (record s { allocations = allocations' }) j (lookup j (insert id sb' s.sandboxes))
  links-drain j = rw lookup-insert (elim (Bool-cases (text_eq id j)) [
    | inl e ↦ rw (e, lookup-insert_self) (t.same ∙ (text_eq_iff _ _).0 e, refl)
    | inr e ↦ rw e (Link-drain j (lookup j s.sandboxes) e (c.links j))
  ])

  free_allocation-drain : (m : ℕ) → s.sequence < m → lookup (allocation_id_of m) allocations' ≡ none
  free_allocation-drain m h = ground (
    arith,
    lookup-insert sb.allocation_id (allocation_id_of m) (record a { status = released })
        s.allocations,
    text_eq_iff sb.allocation_id (allocation_id_of m),
    t.allocated,
    c.free_allocation m,
  )

  free_sandbox-drain :
      (m : ℕ) → s.sequence < m → lookup (sandbox_id_of m) (insert id sb' s.sandboxes) ≡ none
  free_sandbox-drain m h = ground (
    arith,
    lookup-insert id (sandbox_id_of m) sb' s.sandboxes,
    text_eq_iff id (sandbox_id_of m),
    at,
    c.free_sandbox m,
  )

  drained-IsConsistent :
      IsConsistent
        (write_phase
          (write_count
            (write_released s sb.allocation_id a)
            owner
            t.row
            (dec64 t.row.current_count))
          id
          sb
          draining
          now).0
  unfolding write_count write_released write_phase
  drained-IsConsistent = record {
    in_memory = c.in_memory;
    rows = rows-drain;
    links = links-drain;
    free_allocation = free_allocation-drain;
    free_sandbox = free_sandbox-drain;
  }

module _ {G : Type 0} (deps : Deps G) where
  -- A live sandbox of a consistent store is drained: its slot is given back, and nothing else
  -- moves.
  pub drain_live_lem :
      (s : Store G) (id : Text) (sb : Sandbox) (now : Time) (c : IsConsistent s) (t : Slot s id sb)
      → drain_live deps s id sb now
        ≡ write_phase
            (write_count
              (write_released s sb.allocation_id t.allocation)
              (quota_key t.allocation.tenant_id t.allocation.owner_id)
              t.row
              (dec64 t.row.current_count))
            id
            sb
            draining
            now
  unfolding drain_live after_drain
  drain_live_lem s id sb now c t = rw (release_allocation-Slot deps s id sb now c t)

  drain_live-IsConsistent :
      (s : Store G) (id : Text) (sb : Sandbox) (now : Time)
      → lookup id s.sandboxes ≡ some sb
      → slot_of sb.phase ≡ reserved
      → IsConsistent s
      → IsConsistent (drain_live deps s id sb now).0
  drain_live-IsConsistent s id sb now at live c =
      let t = live-Slot s id sb c at live in
      rw (drain_live_lem s id sb now c t) (drained-IsConsistent s c id sb at t now)

  drain_phase-IsConsistent :
      (s : Store G) (id : Text) (p : Phase) (sb : Sandbox) (now : Time)
      → p ≡ sb.phase
      → lookup id s.sandboxes ≡ some sb
      → IsConsistent s
      → IsConsistent (drain_phase deps p s id sb now).0
  unfolding drain_phase
  drain_phase-IsConsistent s id draining sb now e at c = c
  drain_phase-IsConsistent s id ready sb now e at c =
      drain_live-IsConsistent s id sb now at (rw (← e)) c
  drain_phase-IsConsistent s id provisioning sb now e at c =
      drain_live-IsConsistent s id sb now at (rw (← e)) c
  drain_phase-IsConsistent s id _ sb now e at c = c

  drain_found-IsConsistent :
      (s : Store G) (id : Text) (o : Option Sandbox) (now : Time)
      → o ≡ lookup id s.sandboxes
      → IsConsistent s
      → IsConsistent (drain_found deps o s id now).0
  unfolding drain_found
  drain_found-IsConsistent s id none now e c = c
  drain_found-IsConsistent s id (some sb) now e c =
      drain_phase-IsConsistent s id sb.phase sb now refl (sym e) c

  -- Whatever `Drain` answers, the store stays consistent.
  pub drain-IsConsistent :
      (s : Store G) (id : Text) (now : Time) → IsConsistent s → IsConsistent (drain deps s id now).0
  unfolding drain
  drain-IsConsistent s id now = drain_found-IsConsistent s id _ now refl
