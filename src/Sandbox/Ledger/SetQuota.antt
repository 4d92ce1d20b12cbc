-- ===== src/Sandbox/Ledger/SetQuota.antt =====
-- `SetQuota` keeps the store consistent.
use kubebox.Common.{
  ◌-◌, ◌^◌, ◌≡◌, refl, inl, inr, Text, is_empty, lookup, ℤ, pos, ◌≤ℤ◌, ltb_ℤ, Option, none, some,
  false, ◌||◌, Bool-cases, arith,
}
use kubebox.Sandbox.Types.{Quota, Store, Deps, quota_key}
use kubebox.Sandbox.Quotas.{materialize, write_limit, set_quota_row, set_quota}
use kubebox.Sandbox.Ledger.{IsConsistent, IsRow, used, Row-insert, with_quotas}

module _ {G : Type 0} where
  -- The row that `materialize` returns is in the map that it returns, and counts.
  pub materialize-IsConsistent :
      (s : Store G) (key tenant_id owner_id : Text) (o : Option Quota)
      → o ≡ lookup key s.quotas
      → IsConsistent s
      → let r = materialize o key tenant_id owner_id s in
        IsConsistent r.0 × IsRow (used r.0 key) r.1
  unfolding materialize
  materialize-IsConsistent s key tenant_id owner_id (some q) e c = (c, rw (← e) at (c.rows key))
  materialize-IsConsistent s key tenant_id owner_id none e c =
      (with_quotas s _ c (λ k. Row-insert s key k _ fresh_row (c.rows k)), fresh_row)
    where
      none_held : used s key ≡ 0
      none_held = rw (← e) at (c.rows key)

      fresh_row : IsRow (used s key) (record {
        tenant_id = tenant_id;
        owner_id = owner_id;
        concurrent_limit = pos 0;
        current_count = pos 0;
      })
      fresh_row = rw none_held (record { counted = refl; within = omega arith; int = omega arith })

  write_limit-IsConsistent :
      (s : Store G) (key : Text) (q : Quota) (limit : ℤ)
      → IsConsistent s
      → IsRow (used s key) q
      → ltb_ℤ limit q.current_count ≡ false
      → limit ≤ℤ pos (2 ^ 63 - 1)
      → IsConsistent (write_limit s key q limit)
  unfolding write_limit
  write_limit-IsConsistent s key q limit c r covers int =
      with_quotas s _ c (λ k. Row-insert s key k _ row (c.rows k))
    where
      row : IsRow (used s key) (record q { concurrent_limit = limit })
      row = record { counted = r.counted; within = rw r.counted at covers_count; int = int }
        where
          covers_count : q.current_count ≤ℤ limit
          covers_count = ground arith

module _ {G : Type 0} (deps : Deps G) where
  set_quota_row-IsConsistent :
      (s : Store G) (g : Option G) (key : Text) (q : Quota) (tenant_id owner_id : Text) (limit : ℤ)
      → g ≡ none
      → limit ≤ℤ pos (2 ^ 63 - 1)
      → IsConsistent s
      → IsRow (used s key) q
      → IsConsistent (set_quota_row deps g s key q tenant_id owner_id limit).0
  unfolding set_quota_row
  set_quota_row-IsConsistent s (some g) key q tenant_id owner_id limit e int c r = cc
  set_quota_row-IsConsistent s none key q tenant_id owner_id limit e int c r =
      elim (Bool-cases (ltb_ℤ limit q.current_count)) [
        | inl below ↦ rw below c
        | inr covers ↦ rw covers (write_limit-IsConsistent s key q limit c r covers int)
      ]

  -- Whatever `SetQuota` answers, the store stays consistent.
  pub set_quota-IsConsistent :
      (s : Store G) (tenant_id owner_id : Text) (limit : ℤ)
      → limit ≤ℤ pos (2 ^ 63 - 1)
      → IsConsistent s
      → IsConsistent (set_quota deps s tenant_id owner_id limit).0
  unfolding set_quota
  set_quota-IsConsistent s tenant_id owner_id limit int c =
      let key = quota_key tenant_id owner_id in
      let m = materialize-IsConsistent s key tenant_id owner_id (lookup key s.quotas) refl c in
      elim (Bool-cases (is_empty tenant_id || is_empty owner_id || ltb_ℤ limit (pos 0))) [
        | inl bad ↦ rw bad c
        | inr good ↦ rw good (
            set_quota_row-IsConsistent _ _ key _ tenant_id owner_id limit m.0.in_memory int m.0 m.1)
      ]
