-- ===== src/Sandbox/Ledger/Slots.antt =====
-- The slot behind a live sandbox, and its release.
use kubebox.Common.{
  ◌<◌, ◌≡◌, refl, sym, ◌∙◌, Text, text_eq_refl, lookup, count_where-insert, pos, leb_ℤ, dec64,
  Option, none, some, false, arith,
}
use kubebox.Governance.{Time}
use kubebox.Sandbox.Types.{
  Quota, Store, Deps, Sandbox, Allocation, AllocationStatus, reserved, released, quota_key,
}
use kubebox.Sandbox.Quotas.{
  write_released, write_count, release_allocation, release_known, release_reserved,
}
use kubebox.Sandbox.Ledger.{IsConsistent, IsRow, Row, HasSlot, slot_of, used, holds}

-- The allocation and the quota row behind a sandbox that holds a slot.
pub record Slot {G : Type 0} (s : Store G) (id : Text) (sb : Sandbox) : Type 0 where
  pub allocation : Allocation
  pub row : Quota
  pub allocated : lookup sb.allocation_id s.allocations ≡ some allocation
  pub same : allocation.sandbox_id ≡ id
  pub held : allocation.status ≡ reserved
  pub counted : lookup (quota_key allocation.tenant_id allocation.owner_id) s.quotas ≡ some row
  pub used_pos : 0 < used s (quota_key allocation.tenant_id allocation.owner_id)

module _ {G : Type 0} where
  used_of_held :
      (s : Store G) (id : Text) (a : Allocation)
      → lookup id s.allocations ≡ some a
      → a.status ≡ reserved
      → 0 < used s (quota_key a.tenant_id a.owner_id)
  used_of_held s id a e h = ground (
    arith,
    count_where-insert (holds (quota_key a.tenant_id a.owner_id)) id
        (record a { status = released }) s.allocations,
    text_eq_refl (quota_key a.tenant_id a.owner_id),
  )

  Row-of_used :
      (s : Store G) (key : Text) (o : Option Quota)
      → Row (used s key) o
      → 0 < used s key
      → (q : Quota) × (o ≡ some q)
  Row-of_used s key none r h = absurd (omega arith)
  Row-of_used s key (some q) r h = (q, refl)

  slot_of_link :
      (s : Store G) (id : Text) (sb : Sandbox) (o : Option Allocation)
      → IsConsistent s
      → o ≡ lookup sb.allocation_id s.allocations
      → HasSlot id sb o
      → slot_of sb.phase ≡ reserved
      → Slot s id sb
  slot_of_link s id sb none c e h live = absurd h
  slot_of_link s id sb (some a) c e h live =
      let held = h.1 ∙ live in
      let pos_used = used_of_held s sb.allocation_id a (sym e) held in
      let (q, found) = Row-of_used s _ _ (c.rows (quota_key a.tenant_id a.owner_id)) pos_used in
      record {
        allocation = a;
        row = q;
        allocated = sym e;
        same = h.0;
        held = held;
        counted = found;
        used_pos = pos_used;
      }

  pub live-Slot :
      (s : Store G) (id : Text) (sb : Sandbox)
      → IsConsistent s
      → lookup id s.sandboxes ≡ some sb
      → slot_of sb.phase ≡ reserved
      → Slot s id sb
  live-Slot s id sb c e live = slot_of_link s id sb _ c refl (rw e at (c.links id)) live

module _ {G : Type 0} (deps : Deps G) where
  row_pos :
      (s : Store G) (key : Text) (q : Quota)
      → IsRow (used s key) q
      → 0 < used s key
      → leb_ℤ q.current_count (pos 0) ≡ false
  row_pos s key q r h = rw r.counted (ground arith)

  release_reserved_lem :
      (s : Store G) (g : Option G) (id : Text) (a : Allocation) (q : Quota) (now : Time)
      → g ≡ none
      → lookup (quota_key a.tenant_id a.owner_id) s.quotas ≡ some q
      → leb_ℤ q.current_count (pos 0) ≡ false
      → release_reserved deps g id a s now ≡ (
        write_count
            (write_released s id a)
            (quota_key a.tenant_id a.owner_id)
            q
            (dec64 q.current_count),
        none,
      )
  unfolding release_reserved
  release_reserved_lem s (some g) id a q now e row h = cc
  release_reserved_lem s none id a q now e row h = rw (row, h)

  release_known_lem :
      (s : Store G) (st : AllocationStatus) (id : Text) (a : Allocation) (now : Time)
      → st ≡ reserved
      → release_known deps st id a s now ≡ release_reserved deps s.gov id a s now
  unfolding release_known
  release_known_lem s reserved id a now e = refl
  release_known_lem s released id a now e = cc

  -- The release of a live sandbox's slot takes effect.
  pub release_allocation-Slot :
      (s : Store G) (id : Text) (sb : Sandbox) (now : Time) (c : IsConsistent s) (t : Slot s id sb)
      → release_allocation deps s sb.allocation_id now ≡ (
        write_count
            (write_released s sb.allocation_id t.allocation)
            (quota_key t.allocation.tenant_id t.allocation.owner_id)
            t.row
            (dec64 t.row.current_count),
        none,
      )
  unfolding release_allocation
  release_allocation-Slot s id sb now c t = rw t.allocated (
      release_known_lem s t.allocation.status sb.allocation_id t.allocation now t.held
      ∙ release_reserved_lem s s.gov sb.allocation_id t.allocation t.row now c.in_memory t.counted (
          row_pos s _ t.row
            (rw t.counted at (c.rows (quota_key t.allocation.tenant_id t.allocation.owner_id)))
            t.used_pos))
