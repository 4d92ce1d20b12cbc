-- ===== src/Sql/Ledger.antt =====
-- The ledger in the tables: what every method of `SQLStore` keeps true.
use kubebox.Common.{
  ℕ, ◌≤◌, [], ◌∷◌, Text, codes, text_eq_refl, text_eq_iff, ◌==◌, ℤ, pos, negsuc, none, some, ◌≡◌,
  ◌≢◌, refl, ◌∙◌, Bool-cases, ◌⊎◌, inl, inr, arith,
}
use kubebox.Governance.{Time}
use kubebox.Sql.Database.{Database}
use kubebox.Sql.Store.{
  SqlStore, set_quota, reserve_allocation, release_allocation, insert_idempotency_pending,
}
use kubebox.Sql.Tables.{
  Tables, OwnerQuota, QuotaAllocation, count_rows, first_row, limited, raised, lowered, marked,
  of_owner, has_room, in_use, to_release, ensure_row, is_key, insert_key, write_limit, take_slot,
  give_slot, add_allocation, mark_released, IsSql,
}
use kubebox.Sql.Rows.{
  count_rows-append, count_rows-update, count_rows_mono, taken, taken-append, taken-limit,
  taken-take, taken-give, holds, holds-release, AllWithin, AllWithin-take, AllWithin-give,
  AllWithin-append, AllWithin-limit,
}
use kubebox.Sql.Atomic.{IsAtomic-whole}
use kubebox.Sql.Refinement.{
  has_id, Sets, Reserves, Releases, Repeats, set_quota-IsAtomic, reserve_allocation-IsAtomic,
  release_allocation-IsAtomic,
}
use kubebox.Sql.Claims.{claim_whole}

-- The counts of an owner's rows add up to the allocations that it holds, each row is within its
-- limit, and the primary keys are unique.
pub record IsLedger (m : Tables) : Type 0 where
  pub balance : (t w : Text) → taken t w m.quotas ≡ count_rows (holds t w) m.allocations
  pub within : AllWithin m.quotas
  pub unique_owner : (t w : Text) → count_rows (of_owner t w) m.quotas ≤ 1
  pub unique_id : (id : Text) → count_rows (has_id id) m.allocations ≤ 1

ensure_row-IsLedger :
    (t w : Text) (limit : ℕ) (m : Tables) → IsLedger m → IsLedger (ensure_row t w limit m)
unfolding ensure_row taken count_rows
ensure_row-IsLedger t w limit m l = elim (Bool-cases (count_rows (of_owner t w) m.quotas == 0)) [
  | inr there ↦ rw there l
  | inl missing ↦
      let new : OwnerQuota = record {
        tenant_id = t;
        owner_id = w;
        concurrent_limit = limit;
        current_count = 0;
      } in
      rw missing (record {
        balance = λ a b. ground (arith, taken-append a b m.quotas (new ∷ []), l.balance a b);
        within = AllWithin-append m.quotas (new ∷ []) l.within (omega arith, tt);
        unique_owner = λ a b. ground (
          arith,
          count_rows-append (of_owner a b) m.quotas (new ∷ []),
          l.unique_owner a b,
          missing,
          text_eq_iff t a,
          text_eq_iff w b,
        );
        unique_id = l.unique_id;
      })
]

write_limit-IsLedger :
    (t w : Text) (limit : ℕ) (first : OwnerQuota) (m : Tables)
    → first_row (of_owner t w) m.quotas ≡ some first
    → first.current_count ≤ limit
    → IsLedger m
    → IsLedger (write_limit t w limit m)
unfolding write_limit
write_limit-IsLedger t w limit first m found covers l = record {
  balance = λ a b. taken-limit a b t w limit m.quotas ∙ l.balance a b;
  within = AllWithin-limit t w limit first m.quotas (l.unique_owner t w) found covers l.within;
  unique_owner = λ a b. omega (
    arith,
    count_rows-update (of_owner a b) (of_owner t w) (limited limit) (λ r. refl) m.quotas,
    l.unique_owner a b,
  );
  unique_id = l.unique_id;
}

abbrev new_allocation : Text → Text → Text → Text → Time → QuotaAllocation
new_allocation t w id sandbox_id now = record {
  allocation_id = id;
  tenant_id = t;
  owner_id = w;
  sandbox_id = sandbox_id;
  status = codes "RESERVED";
  created_time = now;
  released_time = none;
}

reserve-IsLedger :
    (t w id sandbox_id : Text) (now : Time) (m n : Tables)
    → Reserves t w id sandbox_id now m n
    → IsLedger m
    → IsLedger n
unfolding take_slot add_allocation count_rows
reserve-IsLedger t w id sandbox_id now m n r l = rw r.effect (record {
  balance = λ a b. ground (
    arith,
    taken-take a b t w m.quotas,
    count_rows-append (holds a b) m.allocations (new_allocation t w id sandbox_id now ∷ []),
    l.balance a b,
    r.room,
    text_eq_refl (codes "RESERVED"),
  );
  within = AllWithin-take t w m.quotas l.within;
  unique_owner = λ a b. omega (
    arith,
    count_rows-update (of_owner a b) (has_room t w) raised (λ r. refl) m.quotas,
    l.unique_owner a b,
  );
  unique_id = λ i. ground (
    arith,
    count_rows-append (has_id i) m.allocations (new_allocation t w id sandbox_id now ∷ []),
    l.unique_id i,
    r.fresh,
    text_eq_iff id i,
  );
})

-- A release finds one row, since the primary key is unique.
released_one :
    (t w id : Text) (m : Tables)
    → IsLedger m
    → count_rows (to_release id t w) m.allocations ≢ 0
    → count_rows (to_release id t w) m.allocations ≡ 1
released_one t w id m l some_held = ground (
  arith,
  some_held,
  l.unique_id id,
  count_rows_mono (to_release id t w) (has_id id) (λ x h. ground arith) m.allocations,
)

release-IsLedger :
    (t w id : Text) (now : Time) (m n : Tables) → Releases t w id now m n → IsLedger m → IsLedger n
unfolding give_slot mark_released
release-IsLedger t w id now m n r l = rw r.effect (record {
  balance = λ a b. ground (
    arith,
    taken-give a b t w m.quotas,
    holds-release a b t w id now m.allocations,
    l.balance a b,
    r.counted,
    released_one t w id m l r.held,
  );
  within = AllWithin-give t w m.quotas l.within;
  unique_owner = λ a b. omega (
    arith,
    count_rows-update (of_owner a b) (in_use t w) lowered (λ r. refl) m.quotas,
    l.unique_owner a b,
  );
  unique_id = λ i. omega (
    arith,
    count_rows-update (has_id i) (to_release id t w) (marked now) (λ r. refl) m.allocations,
    l.unique_id i,
  );
})

insert_key-IsLedger :
    (t k w hash : Text) (e : Time) (m : Tables) → IsLedger m → IsLedger (insert_key t k w hash e m)
unfolding insert_key
insert_key-IsLedger t k w hash e m l = elim (Bool-cases (count_rows (is_key t k) m.keys == 0)) [
  | inl new ↦ rw new (record {
    balance = l.balance;
    within = l.within;
    unique_owner = l.unique_owner;
    unique_id = l.unique_id;
  })
  | inr there ↦ rw there l
]

set-IsLedger :
    (t w : Text) (limit : ℕ) (m n : Tables) → Sets t w limit m n → IsLedger m → IsLedger n
set-IsLedger t w limit m n s l = rw s.effect (
    write_limit-IsLedger t w limit s.first (ensure_row t w limit m) s.found s.covers
      (ensure_row-IsLedger t w limit m l))

-- A change that keeps the ledger, made as a whole or not at all, keeps it in every case.
whole-IsLedger :
    (Q : Tables → Tables → Type 0) (m n : Tables)
    → ((x y : Tables) → Q x y → IsLedger x → IsLedger y)
    → (n ≡ m) ⊎ Q m n
    → IsLedger m
    → IsLedger n
whole-IsLedger Q m n keep (inl same) l = rw same l
whole-IsLedger Q m n keep (inr changed) l = keep m n changed l

released-IsLedger :
    (t w id : Text) (now : Time) (m n : Tables)
    → Releases t w id now m n ⊎ Repeats t w id m n
    → IsLedger m
    → IsLedger n
released-IsLedger t w id now m n (inl r) l = release-IsLedger t w id now m n r l
released-IsLedger t w id now m n (inr r) l = rw r.effect l

set_quota_negative :
    {D T : Type 0} (api : Database D T) (s : SqlStore D) (t w : Text) (k : ℕ)
    → (set_quota api s t w (negsuc k)).0 ≡ s
unfolding set_quota
set_quota_negative api s t w k = ground arith

-- A call on the store, with any arguments, failed ones included.
pub data Step {D T : Type 0} (api : Database D T) : SqlStore D → SqlStore D → Type 0 where
  sets_quota : (s : SqlStore D) (t w : Text) (limit : ℤ) → Step api s (set_quota api s t w limit).0
  reserves :
      (s : SqlStore D) (t w id sandbox_id : Text) (now : Time)
      → Step api s (reserve_allocation api s t w id sandbox_id now).0
  releases :
      (s : SqlStore D) (t w id : Text) (now : Time)
      → Step api s (release_allocation api s t w id now).0
  claims :
      (s : SqlStore D) (t w key hash : Text) (e : Time)
      → Step api s (insert_idempotency_pending api s t w key hash e).0

-- The stores that calls lead to from a given one.
pub data Reach {D T : Type 0} (api : Database D T) (start : SqlStore D) : SqlStore D → Type 0 where
  begin : Reach api start start
  next : {s u : SqlStore D} → Reach api start s → Step api s u → Reach api start u

module _ {D T : Type 0} (api : Database D T) (tables : D → Tables) (view : T → Tables)
    (sql : IsSql api tables view) where
  pub Step-IsLedger :
      {s u : SqlStore D} → Step api s u → IsLedger (tables s.db) → IsLedger (tables u.db)
  Step-IsLedger (sets_quota s t w (pos limit)) l =
      whole-IsLedger (Sets t w limit) _ _ (set-IsLedger t w limit)
        (IsAtomic-whole api tables _ _ _ _ _ (set_quota-IsAtomic api tables view sql s t w limit)) l
  Step-IsLedger (sets_quota s t w (negsuc k)) l = rw (set_quota_negative api s t w k) l
  Step-IsLedger (reserves s t w id sandbox_id now) l =
      whole-IsLedger (Reserves t w id sandbox_id now) _ _ (reserve-IsLedger t w id sandbox_id now)
        (IsAtomic-whole api tables _ _ _ _ _
          (reserve_allocation-IsAtomic api tables view sql s t w id sandbox_id now))
        l
  Step-IsLedger (releases s t w id now) l =
      whole-IsLedger (λ m n. Releases t w id now m n ⊎ Repeats t w id m n) _ _
        (released-IsLedger t w id now)
        (IsAtomic-whole api tables _ _ _ _ _
          (release_allocation-IsAtomic api tables view sql s t w id now))
        l
  Step-IsLedger (claims s t w key hash e) l =
      whole-IsLedger (λ m n. n ≡ insert_key t w key hash e m) _ _
        (λ x y same k. rw same (insert_key-IsLedger t w key hash e x k))
        (claim_whole api tables view sql s t w key hash e) l

  -- After any history of calls, failed ones and lost commits included, on a database whose tables
  -- hold a ledger at the start: the counts of every owner's rows add up to its reserved allocations,
  -- every row is within its limit, and the primary keys of quotas and allocations are unique.
  pub Reach-IsLedger :
      (start s : SqlStore D)
      → IsLedger (tables start.db)
      → Reach api start s
      → IsLedger (tables s.db)
  Reach-IsLedger start s l begin = l
  Reach-IsLedger start s l (next r st) = Step-IsLedger st (Reach-IsLedger start _ l r)
