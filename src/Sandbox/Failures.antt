-- ===== src/Sandbox/Failures.antt =====
-- What a `Create` that finds no free slot leaves behind, without and with a durable boundary.
use kubebox.Common.{
  ℕ, ◌+◌, ◌%◌, ◌^◌, ◌≡◌, refl, Text, Map, text_eq_iff, text_eq_refl, lookup, insert, delete,
  lookup-insert, lookup-insert_self, lookup-delete, Option, none, some, true, false, arith, leb_ℤ,
}
use kubebox.Governance.{Time, GovError}
use kubebox.Sandbox.Types.{
  Store, Error, Deps, Quota, err, IdempotencyRecord, CreateRequest, quota_key, allocation_id_of,
  sandbox_id_of, map_gov_error, idempotency_pending, quota_not_configured, quota_exceeded,
}
use kubebox.Sandbox.Create.{
  is_invalid, with_defaults, idempotency_key_of, pending_record, replay, request_hash, create,
  create_known, create_new, finish, reserve, reserve_in_memory, after_reserve,
}
use kubebox.Sandbox.Idempotency.{create_is_known}

-- No free slot: no row, or a row whose count has come up to its limit.
abbrev pub IsFull : Option Quota → Type 0
IsFull none = Unit {0}
IsFull (some q) = leb_ℤ q.concurrent_limit q.current_count ≡ true

abbrev pub full_error : Option Quota → Error
full_error none = quota_not_configured
full_error (some q) = quota_exceeded

key_unused :
    (m : Map IdempotencyRecord) (key : Text) (r : IdempotencyRecord)
    → lookup key m ≡ none
    → (k : Text) → lookup k (delete key (insert key r m)) ≡ lookup k m
key_unused m key r unused k = ground (
  arith,
  lookup-delete key k (insert key r m),
  lookup-insert key k r m,
  text_eq_iff key k,
  unused,
)

module _ {G : Type 0} (deps : Deps G) where
  reserve_full :
      (o : Option Quota) (key : Text) (s : Store G)
      → IsFull o
      → reserve_in_memory o key s ≡ (s, some (full_error o))
  unfolding reserve_in_memory
  reserve_full none key s h = refl
  reserve_full (some q) key s h = rw h

  new_full :
      (g : Option G) (n : ℕ) (idem : Text) (prior : IdempotencyRecord) (now : Time)
      (actor key : Text) (req : CreateRequest) (s : Store G)
      → g ≡ none
      → IsFull (lookup (quota_key req.tenant_id actor) s.quotas)
      → finish (reserve deps g n idem now actor req s) n idem prior now actor key req
        ≡ (s, err (full_error (lookup (quota_key req.tenant_id actor) s.quotas)))
  unfolding reserve finish
  new_full (some g) n idem prior now actor key req s e h = cc
  new_full none n idem prior now actor key req s e h = rw (
      reserve_full (lookup (quota_key req.tenant_id actor) s.quotas) (quota_key req.tenant_id actor)
        s h)

  -- Without a durable boundary, a creation under an unused key that finds no free slot fails, takes
  -- no slot, and leaves a pending record under the key.
  pub create_full :
      (s : Store G) (now : Time) (actor key : Text) (req : CreateRequest)
      → s.gov ≡ none
      → is_invalid actor key req ≡ false
      → lookup (idempotency_key_of (with_defaults req) key) s.idempotency ≡ none
      → IsFull (lookup (quota_key req.tenant_id actor) s.quotas)
      → create deps s now actor key req ≡ (
        record s {
          sequence = (s.sequence + 1) % 2 ^ 64;
          idempotency =
              insert
                (idempotency_key_of (with_defaults req) key)
                (pending_record now
                  (request_hash deps (with_defaults req))
                  actor
                  key
                  (with_defaults req))
                s.idempotency;
        },
        err (full_error (lookup (quota_key req.tenant_id actor) s.quotas)),
      )
  unfolding create_known create_new with_defaults
  create_full s now actor key req m v unused full =
      rw (create_is_known deps s now actor key req v, unused)
        (new_full s.gov _ _ _ now actor key _ _ m full)

  full_record :
      (s : Store G) (now : Time) (actor key : Text) (req : CreateRequest)
      → s.gov ≡ none
      → is_invalid actor key req ≡ false
      → lookup (idempotency_key_of (with_defaults req) key) s.idempotency ≡ none
      → IsFull (lookup (quota_key req.tenant_id actor) s.quotas)
      → lookup
          (idempotency_key_of (with_defaults req) key)
          (create deps s now actor key req).0.idempotency
        ≡ some (
            pending_record now
              (request_hash deps (with_defaults req))
              actor
              key
              (with_defaults req))
  full_record s now actor key req m v unused full =
      rw (create_full s now actor key req m v unused full, lookup-insert_self) refl

  replay_pending :
      (u : Store G) (now : Time) (hash actor key : Text) (req : CreateRequest)
      → replay u (pending_record now hash actor key req) hash actor ≡ err idempotency_pending
  unfolding replay pending_record
  replay_pending u now hash actor key req = rw (text_eq_refl, text_eq_refl)

  -- Without a durable boundary, a creation that failed for want of a slot cannot be sent again: in
  -- every later store that has the same record under its key, whatever the quota is by then, the
  -- same request is told that it is still being processed.
  pub create_full_sticks :
      (s u : Store G) (now later : Time) (actor key : Text) (req : CreateRequest)
      → s.gov ≡ none
      → is_invalid actor key req ≡ false
      → lookup (idempotency_key_of (with_defaults req) key) s.idempotency ≡ none
      → IsFull (lookup (quota_key req.tenant_id actor) s.quotas)
      → lookup (idempotency_key_of (with_defaults req) key) u.idempotency
        ≡ lookup
            (idempotency_key_of (with_defaults req) key)
            (create deps s now actor key req).0.idempotency
      → create deps u later actor key req ≡ (u, err idempotency_pending)
  unfolding create_known
  create_full_sticks s u now later actor key req m v unused full same =
      rw
        (
          create_is_known deps u later actor key req v,
          same,
          full_record s now actor key req m v unused full,
          replay_pending u now (request_hash deps (with_defaults req)) actor key
              (with_defaults req),
        )
        refl

  -- The number, the identifiers and the map that a creation under an unused key works with.
  abbrev next_number : Store G → ℕ
  next_number s = (s.sequence + 1) % 2 ^ 64

  new_refused :
      (o : Option G) (g g' : G) (e : GovError) (n : ℕ) (idem : Text) (prior : IdempotencyRecord)
      (now : Time) (actor key : Text) (req : CreateRequest) (s : Store G)
      → o ≡ some g
      → deps.api.reserve_allocation g req.tenant_id actor (allocation_id_of n) (sandbox_id_of n) now
        ≡ (g', some e)
      → finish (reserve deps o n idem now actor req s) n idem prior now actor key req ≡ (
        record s { idempotency = delete idem s.idempotency; gov = some g' },
        err (map_gov_error e),
      )
  unfolding reserve finish after_reserve
  new_refused none g g' e n idem prior now actor key req s h r = cc
  new_refused (some x) g g' e n idem prior now actor key req s h r =
      let same : g ≡ x = cc in let r' = rw same at r in rw r' refl

  -- When the durable boundary refuses a creation under an unused key, the answer is its error as the
  -- control plane spells it, no sandbox, allocation or quota row has changed, the other keys keep
  -- their records, and the key is unused again, so the request may be sent again.
  pub create_refused :
      (s : Store G) (g g' : G) (e : GovError) (now : Time) (actor key : Text) (req : CreateRequest)
      → s.gov ≡ some g
      → is_invalid actor key req ≡ false
      → lookup (idempotency_key_of (with_defaults req) key) s.idempotency ≡ none
      → deps.api.reserve_allocation g req.tenant_id actor
          (allocation_id_of (next_number s))
          (sandbox_id_of (next_number s))
          now
        ≡ (g', some e)
      → let r = create deps s now actor key req in
        (r.1 ≡ err (map_gov_error e))
        × (r.0.sandboxes ≡ s.sandboxes)
        × (r.0.allocations ≡ s.allocations)
        × (r.0.quotas ≡ s.quotas)
        × (r.0.gov ≡ some g')
        × ((k : Text) → lookup k r.0.idempotency ≡ lookup k s.idempotency)
  unfolding create_known create_new with_defaults
  create_refused s g g' e now actor key req m v unused refused =
      let hash = request_hash deps (with_defaults req) in
      let idem_key = idempotency_key_of (with_defaults req) key in
      let prior = pending_record now hash actor key (with_defaults req) in
      rw
        (
          create_is_known deps s now actor key req v,
          unused,
          new_refused s.gov g g' e (next_number s) idem_key prior now actor key (with_defaults req)
              (record s {
                sequence = next_number s;
                idempotency = insert idem_key prior s.idempotency;
              })
              m refused,
        )
        (refl, refl, refl, refl, refl, key_unused s.idempotency idem_key prior unused)
