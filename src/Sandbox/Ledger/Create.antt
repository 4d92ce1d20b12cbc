-- ===== src/Sandbox/Ledger/Create.antt =====
-- `Create` keeps the store consistent.
use kubebox.Common.{
  ℕ, ◌+◌, ◌^◌, ◌<◌, ◌≤◌, ◌≡◌, refl, inl, inr, Text, text_eq, text_eq_iff, is_empty, lookup, insert,
  lookup-insert, lookup-insert_self, count_where, count_where-insert, bit, leb_ℤ, inc64, inc64-pos,
  Option, none, some, false, ◌||◌, Bool-cases, Option-cases, arith, Map,
}
use native.Mathlib.Nat.{add-zero}
use kubebox.Governance.{Time}
use kubebox.Sandbox.Types.{
  Quota, Store, Deps, Sandbox, Allocation, IdempotencyRecord, CreateRequest, quota_key,
  allocation_id_of, sandbox_id_of, allocation_id_of_inj, sandbox_id_of_inj,
}
use kubebox.Sandbox.Quotas.{write_count}
use kubebox.Sandbox.Create.{
  new_allocation, new_sandbox, commit, create, create_known, create_valid, create_new, finish,
  reserve,
}
use kubebox.Sandbox.Ledger.{IsConsistent, IsRow, Row, HasSlot, Link, used, holds}

module _ {G : Type 0} where
  -- The number of a request may be spent without a sandbox.
  with_sequence :
      (s : Store G) (n : ℕ) (m : Map IdempotencyRecord)
      → s.sequence ≤ n
      → IsConsistent s
      → IsConsistent (record s { sequence = n; idempotency = m })
  with_sequence s n m h c = record {
    in_memory = c.in_memory;
    rows = c.rows;
    links = c.links;
    free_allocation = λ k above. c.free_allocation k (omega arith);
    free_sandbox = λ k above. c.free_sandbox k (omega arith);
  }

-- The store after a creation with number `n`, from the facts before it.
module _ {G : Type 0} (s : Store G) (c : IsConsistent s) (n : ℕ) (above : s.sequence < n)
    (now : Time) (actor key : Text) (req : CreateRequest) (q : Quota)
    (row : lookup (quota_key req.tenant_id actor) s.quotas ≡ some q)
    (room : leb_ℤ q.concurrent_limit q.current_count ≡ false) where
  abbrev a : Allocation
  a = new_allocation n actor req

  abbrev sb : Sandbox
  sb = new_sandbox n now actor key req

  abbrev allocations' : Map Allocation
  allocations' = insert (allocation_id_of n) a s.allocations

  abbrev owner : Text
  owner = quota_key req.tenant_id actor

  used-commit : (k : Text) → count_where (holds k) allocations' ≡ used s k + bit (text_eq owner k)
  unfolding new_allocation
  used-commit k = ground (
    arith,
    count_where-insert (holds k) (allocation_id_of n) a s.allocations,
    c.free_allocation n above,
  )

  q-IsRow : IsRow (used s owner) q
  q-IsRow = rw row at (c.rows owner)

  has_room : used s owner + 1 < 2 ^ 63
  has_room = let r = q-IsRow in ground (arith, r.counted, r.within, r.int)

  counted-IsRow : IsRow (used s owner + 1) (record q { current_count = inc64 q.current_count })
  counted-IsRow =
      let r = q-IsRow in
      record {
        counted = rw r.counted (inc64-pos (used s owner) has_room);
        within = ground (arith, r.counted, r.within, r.int);
        int = r.int;
      }

  rows-commit :
      (k : Text)
      → Row
          (count_where (holds k) allocations')
          (lookup k (insert owner (record q { current_count = inc64 q.current_count }) s.quotas))
  rows-commit k =
      rw (lookup-insert, used-commit k)
        (elim (Bool-cases (text_eq owner k)) [
          | inl e ↦ rw (e, ← (text_eq_iff owner k).0 e) counted-IsRow
          | inr e ↦ rw (e, add-zero) (c.rows k)
        ])

  HasSlot-commit :
      (id : Text) (x : Sandbox)
      → HasSlot id x (lookup x.allocation_id s.allocations)
      → HasSlot id x (lookup x.allocation_id allocations')
  HasSlot-commit id x h =
      rw lookup-insert (elim (Bool-cases (text_eq (allocation_id_of n) x.allocation_id)) [
        | inl e ↦ absurd (rw (← (text_eq_iff _ _).0 e, c.free_allocation n above) at h)
        | inr e ↦ rw e h
      ])

  Link-commit :
      (id : Text) (o : Option Sandbox)
      → Link s id o
      → Link (record s { allocations = allocations' }) id o
  Link-commit id none h = tt
  Link-commit id (some x) h = HasSlot-commit id x h

  links-commit :
      (id : Text)
      → Link
          (record s { allocations = allocations' })
          id
          (lookup id (insert (sandbox_id_of n) sb s.sandboxes))
  unfolding new_sandbox new_allocation
  links-commit id = rw lookup-insert (elim (Bool-cases (text_eq (sandbox_id_of n) id)) [
    | inl e ↦ rw (e, lookup-insert_self) ((text_eq_iff _ _).0 e, refl)
    | inr e ↦ rw e (Link-commit id (lookup id s.sandboxes) (c.links id))
  ])

  free_allocation-commit : (m : ℕ) → n < m → lookup (allocation_id_of m) allocations' ≡ none
  free_allocation-commit m h = ground (
    arith,
    lookup-insert (allocation_id_of n) (allocation_id_of m) a s.allocations,
    text_eq_iff (allocation_id_of n) (allocation_id_of m),
    allocation_id_of_inj n m,
    c.free_allocation m,
  )

  free_sandbox-commit :
      (m : ℕ) → n < m → lookup (sandbox_id_of m) (insert (sandbox_id_of n) sb s.sandboxes) ≡ none
  free_sandbox-commit m h = ground (
    arith,
    lookup-insert (sandbox_id_of n) (sandbox_id_of m) sb s.sandboxes,
    text_eq_iff (sandbox_id_of n) (sandbox_id_of m),
    sandbox_id_of_inj n m,
    c.free_sandbox m,
  )

  commit-IsConsistent :
      (idem_key : Text) (m : Map IdempotencyRecord) (prior : IdempotencyRecord)
      → IsConsistent (
          commit
            (write_count
              (record s { sequence = n; idempotency = m })
              owner
              q
              (inc64 q.current_count))
            n
            idem_key
            prior
            now
            actor
            key
            req)
  unfolding commit write_count
  commit-IsConsistent idem_key m prior = record {
    in_memory = c.in_memory;
    rows = rows-commit;
    links = links-commit;
    free_allocation = free_allocation-commit;
    free_sandbox = free_sandbox-commit;
  }

module _ {G : Type 0} (deps : Deps G) where
  finish-reserve-IsConsistent :
      (s : Store G) (g : Option G) (n : ℕ) (m : Map IdempotencyRecord) (idem_key : Text)
      (prior : IdempotencyRecord) (now : Time) (actor key : Text) (req : CreateRequest)
      → g ≡ none
      → s.sequence < n
      → IsConsistent s
      → IsConsistent
          (finish
            (reserve deps g n idem_key now actor req (record s { sequence = n; idempotency = m }))
            n
            idem_key
            prior
            now
            actor
            key
            req).0
  unfolding finish reserve
  finish-reserve-IsConsistent s (some g) n m idem_key prior now actor key req e above c = cc
  finish-reserve-IsConsistent s none n m idem_key prior now actor key req e above c =
      elim (Option-cases (lookup (quota_key req.tenant_id actor) s.quotas)) [
        | inl missing ↦ rw missing (with_sequence s n m (omega arith) c)
        | inr (q, row) ↦ elim (Bool-cases (leb_ℤ q.concurrent_limit q.current_count)) [
          | inl full ↦ rw (row, full) (with_sequence s n m (omega arith) c)
          | inr free ↦
              rw (row, free)
                (commit-IsConsistent s c n above now actor key req q row free idem_key m prior)
        ]
      ]

  create_valid-IsConsistent :
      (s : Store G) (o : Option IdempotencyRecord) (now : Time) (actor key : Text)
      (req : CreateRequest) (hash : Text)
      → s.sequence + 1 < 2 ^ 64
      → IsConsistent s
      → IsConsistent (create_known deps o s now actor key req hash).0
  unfolding create_known create_new
  create_valid-IsConsistent s (some prior) now actor key req hash h c = c
  create_valid-IsConsistent s none now actor key req hash h c =
      finish-reserve-IsConsistent s s.gov _ _ _ _ now actor key req c.in_memory (omega arith) c

  -- Whatever `Create` answers, the store stays consistent.
  pub create-IsConsistent :
      (s : Store G) (now : Time) (actor key : Text) (req : CreateRequest)
      → s.sequence + 1 < 2 ^ 64
      → IsConsistent s
      → IsConsistent (create deps s now actor key req).0
  unfolding create create_valid
  create-IsConsistent s now actor key req h c =
      elim (Bool-cases
        (is_empty actor || is_empty key || is_empty req.tenant_id || is_empty req.template)) [
          | inl bad ↦ rw bad c
          | inr good ↦ rw good (create_valid-IsConsistent s _ now actor key _ _ h c)
        ]
