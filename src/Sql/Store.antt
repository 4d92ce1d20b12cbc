-- ===== src/Sql/Store.antt =====
-- `SQLStore` of internal/persistence/sql.go: its statements and its transactions.
use kubebox.Common.{
  ℕ, ◌+◌, [], ◌∷◌, ◌++◌, List, Text, codes, text_eq, is_empty, split, decimal, ltb, ◌==◌, ltb_ℤ,
  leb_ℤ, ℤ, pos, Option, none, some, Bool, false, ◌||◌, if◌then◌else◌,
}
use kubebox.Governance.{
  Time, GovError, GovernanceStore, invalid_argument, quota_exceeded, quota_below_usage,
  quota_corrupt, allocation_not_found, allocation_state, other,
}
use kubebox.Sql.Database.{
  Value, text_value, int_value, time_value, Scanned, row, no_rows, scan_failing, Database, Body,
  ◌>>=◌, ◌>>◌, pure, fail, guard, exec, rows_affected, query_int, transact, of_driver,
}

pub data Dialect : Type 0 where
  postgres mysql : Dialect

pub record SqlStore (D : Type 0) : Type 0 where
  pub db : D
  pub dialect : Dialect

-- A nil database and an unknown dialect are errors, which build no store.
unfoldable pub dialect_of : Text → Option Dialect
dialect_of name =
    if text_eq name (codes "postgres")
    then some postgres
    else if text_eq name (codes "mysql")
    then some mysql
    else none

with_dialect : {D : Type 0} → D → Option Dialect → Option (SqlStore D)
with_dialect db none = none
with_dialect db (some dialect) = some (record { db = db; dialect = dialect })

unfoldable pub new_sql_store : {D : Type 0} → Option D → Text → Option (SqlStore D)
unfolding with_dialect
new_sql_store none name = none
new_sql_store (some db) name = with_dialect db (dialect_of name)

-- The loop of `bind` over the parts between the question marks.
unfoldable pub bind_parts : ℕ → List Text → Text
bind_parts index [] = []
bind_parts index (part ∷ parts) =
    (if ltb 0 index then b'$' ∷ decimal index else []) ++ (part ++ bind_parts (index + 1) parts)

unfoldable pub bind : Dialect → Text → Text
unfolding bind_parts
bind mysql query = query
bind postgres query = bind_parts 0 (split b'?' query)

-- The statements, before `bind`.
abbrev pub ensure_text : Dialect → Text
ensure_text postgres =
    codes
      "INSERT INTO t_owner_quota (tenant_id, owner_id, concurrent_limit, current_count) VALUES (?, ?, ?, 0) ON CONFLICT (tenant_id, owner_id) DO NOTHING"
ensure_text mysql =
    codes
      "INSERT INTO t_owner_quota (tenant_id, owner_id, concurrent_limit, current_count) VALUES (?, ?, ?, 0) ON DUPLICATE KEY UPDATE tenant_id = tenant_id"

abbrev pub select_count_text : Text
select_count_text =
    codes "SELECT current_count FROM t_owner_quota WHERE tenant_id = ? AND owner_id = ? FOR UPDATE"

abbrev pub update_limit_text : Text
update_limit_text =
    codes "UPDATE t_owner_quota SET concurrent_limit = ? WHERE tenant_id = ? AND owner_id = ?"

abbrev pub take_slot_text : Text
take_slot_text =
    codes
      "UPDATE t_owner_quota SET current_count = current_count + 1 WHERE tenant_id = ? AND owner_id = ? AND current_count < concurrent_limit"

abbrev pub insert_allocation_text : Text
insert_allocation_text =
    codes
      "INSERT INTO t_quota_allocation (allocation_id, tenant_id, owner_id, sandbox_id, status, created_time) VALUES (?, ?, ?, ?, 'RESERVED', ?)"

abbrev pub release_text : Text
release_text =
    codes
      "UPDATE t_quota_allocation SET status = 'RELEASED', released_time = ? WHERE allocation_id = ? AND tenant_id = ? AND owner_id = ? AND status = 'RESERVED'"

abbrev pub select_status_text : Text
select_status_text =
    codes
      "SELECT status FROM t_quota_allocation WHERE allocation_id = ? AND tenant_id = ? AND owner_id = ?"

abbrev pub give_slot_text : Text
give_slot_text =
    codes
      "UPDATE t_owner_quota SET current_count = current_count - 1 WHERE tenant_id = ? AND owner_id = ? AND current_count > 0"

abbrev pub claim_text : Dialect → Text
claim_text postgres =
    codes
      "INSERT INTO t_idempotency_key (tenant_id, idem_key, owner_id, request_hash, status, lease_version, expires_at) VALUES (?, ?, ?, ?, 'PENDING', 1, ?) ON CONFLICT (tenant_id, idem_key) DO NOTHING"
claim_text mysql =
    codes
      "INSERT INTO t_idempotency_key (tenant_id, idem_key, owner_id, request_hash, status, lease_version, expires_at) VALUES (?, ?, ?, ?, 'PENDING', 1, ?) ON DUPLICATE KEY UPDATE idem_key = idem_key"

abbrev pub is_one : ℤ → Bool
is_one (pos n) = n == 1
is_one _ = false

abbrev pub is_none : ℤ → Bool
is_none (pos n) = n == 0
is_none _ = false

-- The store after a transaction on its database.
abbrev pub with_db : {D : Type 0} → SqlStore D → D × Option GovError → SqlStore D × Option GovError
with_db s (db, e) = (record s { db = db }, e)

-- A release that has changed no row: it is repeated, or there is nothing to release.
unfoldable pub released_before : {T : Type 0} → Scanned Text → Body T (Unit {0})
released_before (row status) = guard (text_eq status (codes "RELEASED")) allocation_state
released_before no_rows = fail allocation_not_found
released_before (scan_failing e) = fail (other e)

module _ {D T : Type 0} (api : Database D T) where
  unfoldable pub set_quota_body : Dialect → Text → Text → ℤ → Body T (Unit {0})
  set_quota_body dialect tenant_id owner_id limit =
      let owner = text_value tenant_id ∷ text_value owner_id ∷ [] in
      do
        _ ←
            exec api (bind dialect (ensure_text dialect))
              (text_value tenant_id ∷ text_value owner_id ∷ int_value limit ∷ [])
        current ← query_int api (bind dialect select_count_text) owner
        guard (leb_ℤ current limit) quota_below_usage
        _ ← exec api (bind dialect update_limit_text) (int_value limit ∷ owner)
        pure tt

  unfoldable pub set_quota : SqlStore D → Text → Text → ℤ → SqlStore D × Option GovError
  unfolding set_quota_body
  set_quota s tenant_id owner_id limit =
      if is_empty tenant_id || is_empty owner_id || ltb_ℤ limit (pos 0)
      then (s, some invalid_argument)
      else with_db s (transact api s.db (set_quota_body s.dialect tenant_id owner_id limit))

  unfoldable pub reserve_body : Dialect → Text → Text → Text → Text → Time → Body T (Unit {0})
  reserve_body dialect tenant_id owner_id allocation_id sandbox_id now = do
    result ←
        exec api (bind dialect take_slot_text) (text_value tenant_id ∷ text_value owner_id ∷ [])
    rows ← rows_affected api result
    guard (is_one rows) quota_exceeded
    _ ← exec api (bind dialect insert_allocation_text) (
        text_value allocation_id
        ∷ text_value tenant_id
        ∷ text_value owner_id
        ∷ text_value sandbox_id
        ∷ time_value now
        ∷ [])
    pure tt

  unfoldable pub reserve_allocation :
      SqlStore D → Text → Text → Text → Text → Time → SqlStore D × Option GovError
  unfolding reserve_body
  reserve_allocation s tenant_id owner_id allocation_id sandbox_id now =
      if is_empty tenant_id || is_empty owner_id || is_empty allocation_id || is_empty sandbox_id
      then (s, some invalid_argument)
      else with_db s (
          transact api s.db
            (reserve_body s.dialect tenant_id owner_id allocation_id sandbox_id now))

  abbrev pub free_slot : Dialect → List Value → Body T (Unit {0})
  free_slot dialect owner = do
    result ← exec api (bind dialect give_slot_text) owner
    rows ← rows_affected api result
    guard (is_one rows) quota_corrupt

  abbrev pub look_again : Dialect → List Value → Body T (Unit {0})
  look_again dialect args t =
      let (t', status) = api.query_text t (bind dialect select_status_text) args in
      released_before status t'

  unfoldable pub release_body : Dialect → Text → Text → Text → Time → Body T (Unit {0})
  unfolding released_before
  release_body dialect tenant_id owner_id allocation_id now =
      let owner = text_value tenant_id ∷ text_value owner_id ∷ [] in
      do
        result ←
            exec api (bind dialect release_text) (time_value now ∷ text_value allocation_id ∷ owner)
        rows ← rows_affected api result
        if is_none rows
            then look_again dialect (text_value allocation_id ∷ owner)
            else free_slot dialect owner

  unfoldable pub release_allocation :
      SqlStore D → Text → Text → Text → Time → SqlStore D × Option GovError
  unfolding release_body
  release_allocation s tenant_id owner_id allocation_id now =
      if is_empty tenant_id || is_empty owner_id || is_empty allocation_id
      then (s, some invalid_argument)
      else with_db s
          (transact api s.db (release_body s.dialect tenant_id owner_id allocation_id now))

  unfoldable pub insert_idempotency_pending :
      SqlStore D → Text → Text → Text → Text → Time → SqlStore D × Option GovError
  insert_idempotency_pending s tenant_id owner_id key request_hash expires_at =
      if is_empty tenant_id || is_empty owner_id || is_empty key || is_empty request_hash
      then (s, some invalid_argument)
      else with_db s (
          of_driver (
            api.exec_db s.db (bind s.dialect (claim_text s.dialect)) (
              text_value tenant_id
              ∷ text_value owner_id
              ∷ text_value key
              ∷ text_value request_hash
              ∷ time_value expires_at
              ∷ [])))

  -- The store as the durable boundary of the control plane.
  abbrev pub sql_api : GovernanceStore (SqlStore D)
  sql_api = record {
    set_quota = set_quota;
    reserve_allocation = reserve_allocation;
    release_allocation = release_allocation;
    insert_idempotency_pending = insert_idempotency_pending;
  }
