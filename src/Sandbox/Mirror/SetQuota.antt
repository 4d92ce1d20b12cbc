-- ===== src/Sandbox/Mirror/SetQuota.antt =====
-- `SetQuota` keeps the projection in step with the durable rows.
use kubebox.Common.{
  Text, text_eq, text_eq_iff, is_empty, lookup, insert, lookup-insert, ℤ, pos, ltb_ℤ, Option, none,
  some, ◌≡◌, refl, ◌∙◌, false, ◌||◌, Bool-cases, inl, inr, ◌⊎◌, if◌then◌else◌, arith,
}
use kubebox.Governance.{GovError, quota_below_usage}
use kubebox.Memory.{MemoryGovernanceStore}
use kubebox.Memory.Cases.{Wrote, row_or_zero, with_limit, set_quota-cases}
use kubebox.Sandbox.Types.{Quota, CreateRequest, Store, quota_key}
use kubebox.Sandbox.Quotas.{materialize, write_limit, after_set, set_quota_row, set_quota}
use kubebox.Sandbox.Mirror.{
  row_of, mirror_row, SameQuotas, SameAllocations, IsMirrored, written-SameQuotas, memory_deps,
}

abbrev pub quota_or_zero : Option Quota → Text → Text → Quota
quota_or_zero (some q) t w = q
quota_or_zero none t w = record {
  tenant_id = t;
  owner_id = w;
  concurrent_limit = pos 0;
  current_count = pos 0;
}

row_quota_zero :
    (o : Option Quota) (t w : Text) → row_or_zero (mirror_row o) ≡ row_of (quota_or_zero o t w)
row_quota_zero none t w = refl
row_quota_zero (some q) t w = refl

-- The projection after the row of an owner has been found or added.
pub record IsMaterialized (s s' : Store MemoryGovernanceStore) (key : Text) (q : Quota)
    : Type 0 where
  pub quotas :
      (k : Text) → lookup k s'.quotas ≡ (if text_eq key k then some q else lookup k s.quotas)
  pub allocations : s'.allocations ≡ s.allocations
  pub gov : s'.gov ≡ s.gov

pub materialize_lem :
    (s : Store MemoryGovernanceStore) (o : Option Quota) (key t w : Text)
    → lookup key s.quotas ≡ o
    → let (s', q) = materialize o key t w s in
      (q ≡ quota_or_zero o t w) × IsMaterialized s s' key (quota_or_zero o t w)
unfolding materialize
materialize_lem s (some q) key t w h = (
  refl,
  record { quotas = λ k. ground (arith, text_eq_iff key k, h); allocations = refl; gov = refl },
)
materialize_lem s none key t w h =
    (refl, record { quotas = λ k. lookup-insert key k _ s.quotas; allocations = refl; gov = refl })

after_set-IsMirrored :
    (s s1 : Store MemoryGovernanceStore) (g g' : MemoryGovernanceStore) (e : Option GovError)
    (key : Text) (q : Quota) (limit : ℤ)
    → SameQuotas g.quotas s.quotas
    → SameAllocations g.allocations s.allocations
    → IsMaterialized s s1 key q
    → ((e ≡ some quota_below_usage) × Wrote g g' key (row_of q) g.allocations)
      ⊎ ((e ≡ none) × Wrote g g' key (with_limit (row_of q) limit) g.allocations)
    → IsMirrored (after_set e (record s1 { gov = some g' }) key q limit).0
unfolding after_set write_limit
after_set-IsMirrored s s1 g g' e key q limit same held m (inl (below, w)) = rw below (record {
  durable = g';
  boundary = refl;
  quotas = written-SameQuotas g.quotas g'.quotas s.quotas s1.quotas key q w.quotas m.quotas same;
  allocations = λ id. rw (w.kept, m.allocations) (held id);
})
after_set-IsMirrored s s1 g g' e key q limit same held m (inr (done, w)) =
    let q' = record q { concurrent_limit = limit } in
    rw done (record {
      durable = g';
      boundary = refl;
      quotas =
          written-SameQuotas g.quotas g'.quotas s.quotas (insert key q' s1.quotas) key q' w.quotas
            (λ k. ground (arith, lookup-insert key k q' s1.quotas, m.quotas k)) same;
      allocations = λ id. rw (w.kept, m.allocations) (held id);
    })

row-IsMirrored :
    (s s1 : Store MemoryGovernanceStore) (g : MemoryGovernanceStore) (o : Option Quota) (q : Quota)
    (t w : Text) (limit : ℤ) (marshal : CreateRequest → Text) (sha256_hex : Text → Text)
    → let key = quota_key t w in
      lookup key s.quotas ≡ o
      → is_empty t || is_empty w || ltb_ℤ limit (pos 0) ≡ false
      → SameQuotas g.quotas s.quotas
      → SameAllocations g.allocations s.allocations
      → q ≡ quota_or_zero o t w
      → IsMaterialized s s1 key (quota_or_zero o t w)
      → IsMirrored (set_quota_row (memory_deps marshal sha256_hex) (some g) s1 key q t w limit).0
unfolding set_quota_row quota_key
row-IsMirrored s s1 g o q t w limit marshal sha256_hex there valid same held found m = rw found (
    after_set-IsMirrored s s1 g _ _ (quota_key t w) (quota_or_zero o t w) limit same held m (
      rw (same (quota_key t w), there, row_quota_zero o t w) at
        (set_quota-cases g t w limit valid)))

module _ (marshal : CreateRequest → Text) (sha256_hex : Text → Text) where
  -- A quota that is set keeps the projection equal to what the boundary holds, errors included.
  pub set_quota-IsMirrored :
      (s : Store MemoryGovernanceStore) (t w : Text) (limit : ℤ)
      → IsMirrored s
      → IsMirrored (set_quota (memory_deps marshal sha256_hex) s t w limit).0
  unfolding set_quota
  set_quota-IsMirrored s t w limit m =
      elim (Bool-cases (is_empty t || is_empty w || ltb_ℤ limit (pos 0))) [
        | inl bad ↦ rw bad m
        | inr valid ↦
            let key = quota_key t w in
            let (found, mz) = materialize_lem s (lookup key s.quotas) key t w refl in
            rw (valid, mz.gov ∙ m.boundary)
              (row-IsMirrored s _ m.durable _ _ t w limit marshal sha256_hex refl valid m.quotas
                m.allocations found mz)
      ]
