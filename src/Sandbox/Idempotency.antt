-- ===== src/Sandbox/Idempotency.antt =====
-- What `Create` promises to a client that sends a request again under the same Idempotency-Key.
use kubebox.Common.{
  ℕ, ◌≡◌, ◌≢◌, refl, sym, ◌∙◌, ◌⊎◌, inl, inr, Text, text_eq_iff, is_empty, lookup,
  lookup-insert_self, Option, none, some, true, false, Bool-cases, arith, ap,
}
use kubebox.Governance.{Time}
use kubebox.Sandbox.Types.{
  Store, Error, Deps, Sandbox, ok, err, IdempotencyRecord, CreateRequest, pending, succeeded,
  failed, IdempotencyStatus, sandbox_id_of, clone_sandbox, idempotency_conflict, join_key,
  invalid_request,
}
use kubebox.Sandbox.Create.{
  is_invalid, with_defaults, idempotency_key_of, pending_record, new_sandbox, replay, request_hash,
  create, create_valid, create_known, create_new, finish, commit,
}

module _ {G : Type 0} (deps : Deps G) where
  -- A request that its key's record answers.
  pub replay_own :
      (s : Store G) (prior : IdempotencyRecord) (hash actor : Text) (sb : Sandbox)
      → prior.request_hash ≡ hash
      → prior.owner_id ≡ actor
      → prior.status ≡ succeeded
      → lookup prior.resource_id s.sandboxes ≡ some sb
      → replay s prior hash actor ≡ ok (clone_sandbox sb)
  unfolding replay
  replay_own s prior hash actor sb h a st l =
      ground (arith, text_eq_iff prior.request_hash hash, text_eq_iff prior.owner_id actor)

  pub replay_other :
      (s : Store G) (prior : IdempotencyRecord) (hash actor : Text)
      → (prior.request_hash ≢ hash) ⊎ (prior.owner_id ≢ actor)
      → replay s prior hash actor ≡ err idempotency_conflict
  unfolding replay
  replay_other s prior hash actor d =
      ground (arith, text_eq_iff prior.request_hash hash, text_eq_iff prior.owner_id actor)

  -- What a creation that succeeds leaves under its key.
  pub record Done (s : Store G) (idem_key hash actor : Text) (sb : Sandbox) : Type 0 where
    pub prior : IdempotencyRecord
    pub at : lookup idem_key s.idempotency ≡ some prior
    pub same_hash : prior.request_hash ≡ hash
    pub same_owner : prior.owner_id ≡ actor
    pub answers : replay s prior hash actor ≡ ok sb

  finish-Done :
      (r : Store G × Option Error) (n : ℕ) (idem_key hash : Text) (now : Time) (actor key : Text)
      (req : CreateRequest) (sb : Sandbox)
      → (finish r n idem_key (pending_record now hash actor key req) now actor key req).1 ≡ ok sb
      → Done
          (finish r n idem_key (pending_record now hash actor key req) now actor key req).0
          idem_key
          hash
          actor
          sb
  unfolding finish commit pending_record
  finish-Done (u, some e) n idem_key hash now actor key req sb h = cc
  finish-Done (u, none) n idem_key hash now actor key req sb h = record {
    prior = record (pending_record now hash actor key req) {
      status = succeeded;
      resource_id = sandbox_id_of n;
    };
    at = lookup-insert_self idem_key _ _;
    same_hash = refl;
    same_owner = refl;
    answers =
        replay_own _ _ hash actor (new_sandbox n now actor key req) refl refl refl
          (lookup-insert_self (sandbox_id_of n) _ _)
        ∙ h;
  }

  status_cases : (st : IdempotencyStatus) → (st ≡ succeeded) ⊎ ((st ≡ pending) ⊎ (st ≡ failed))
  status_cases pending = inr (inl refl)
  status_cases succeeded = inl refl
  status_cases failed = inr (inr refl)

  lookup_cases : (o : Option Sandbox) → (o ≡ none) ⊎ ((x : Sandbox) × (o ≡ some x))
  lookup_cases none = inl refl
  lookup_cases (some x) = inr (x, refl)

  -- The sandbox that a replay answers with.
  pub replay_found :
      (s : Store G) (prior : IdempotencyRecord) (hash actor : Text) (sb : Sandbox)
      → replay s prior hash actor ≡ ok sb
      → (prior.status ≡ succeeded)
        × ((x : Sandbox) × (lookup prior.resource_id s.sandboxes ≡ some x) × (sb ≡ clone_sandbox x))
  unfolding replay
  replay_found s prior hash actor sb h = elim (status_cases prior.status) [
    | inr (inl st) ↦ absurd (ground (arith, h, st))
    | inr (inr st) ↦ absurd (ground (arith, h, st))
    | inl st ↦ elim (lookup_cases (lookup prior.resource_id s.sandboxes)) [
      | inl missing ↦ absurd (ground (arith, h, st, missing))
      | inr (x, found) ↦ (st, (x, found, ground (arith, h, st, found)))
    ]
  ]

  replay-eq-ok :
      (s : Store G) (prior : IdempotencyRecord) (hash actor : Text) (sb : Sandbox)
      → replay s prior hash actor ≡ ok sb
      → (prior.request_hash ≡ hash) × (prior.owner_id ≡ actor)
  unfolding replay
  replay-eq-ok s prior hash actor sb h =
      ground (arith, text_eq_iff prior.request_hash hash, text_eq_iff prior.owner_id actor)

  known-Done :
      (s : Store G) (o : Option IdempotencyRecord) (now : Time) (actor key : Text)
      (req : CreateRequest) (hash : Text) (sb : Sandbox)
      → o ≡ lookup (idempotency_key_of req key) s.idempotency
      → (create_known deps o s now actor key req hash).1 ≡ ok sb
      → Done
          (create_known deps o s now actor key req hash).0
          (idempotency_key_of req key)
          hash
          actor
          sb
  unfolding create_known create_new
  known-Done s (some prior) now actor key req hash sb e h =
      let own = replay-eq-ok s prior hash actor sb h in
      record { prior = prior; at = sym e; same_hash = own.0; same_owner = own.1; answers = h }
  known-Done s none now actor key req hash sb e h = finish-Done _ _ _ hash now actor key req sb h

  create_invalid :
      (s : Store G) (now : Time) (actor key : Text) (req : CreateRequest)
      → is_invalid actor key req ≡ true
      → create deps s now actor key req ≡ (s, err invalid_request)
  unfolding create
  create_invalid s now actor key req h = rw h

  pub create_is_known :
      (s : Store G) (now : Time) (actor key : Text) (req : CreateRequest)
      → is_invalid actor key req ≡ false
      → create deps s now actor key req
        ≡ create_known deps
            (lookup (idempotency_key_of (with_defaults req) key) s.idempotency)
            s
            now
            actor
            key
            (with_defaults req)
            (request_hash deps (with_defaults req))
  unfolding create create_valid
  create_is_known s now actor key req h = rw h

  pub valid_of_ok :
      (s : Store G) (now : Time) (actor key : Text) (req : CreateRequest) (sb : Sandbox)
      → (create deps s now actor key req).1 ≡ ok sb
      → is_invalid actor key req ≡ false
  valid_of_ok s now actor key req sb h = elim (Bool-cases (is_invalid actor key req)) [
    | inl bad ↦ cc (create_invalid s now actor key req bad)
    | inr good ↦ good
  ]

  pub create-Done :
      (s : Store G) (now : Time) (actor key : Text) (req : CreateRequest) (sb : Sandbox)
      → (create deps s now actor key req).1 ≡ ok sb
      → Done
          (create deps s now actor key req).0
          (idempotency_key_of (with_defaults req) key)
          (request_hash deps (with_defaults req))
          actor
          sb
  create-Done s now actor key req sb h =
      let known = create_is_known s now actor key req (valid_of_ok s now actor key req sb h) in
      rw known (known-Done s _ now actor key _ _ sb refl (rw known at h))

  pub key_of_tenant :
      (req req' : CreateRequest) (key : Text)
      → req'.tenant_id ≡ req.tenant_id
      → idempotency_key_of (with_defaults req') key ≡ idempotency_key_of (with_defaults req) key
  unfolding idempotency_key_of with_defaults
  key_of_tenant req req' key t = ap (λ t. join_key t key) t

  pub still_valid :
      (actor other key : Text) (req req' : CreateRequest)
      → req'.tenant_id ≡ req.tenant_id
      → is_empty other ≡ false
      → is_empty req'.template ≡ false
      → is_invalid actor key req ≡ false
      → is_invalid other key req' ≡ false
  still_valid actor other key req req' t o p h = ground (arith, ap is_empty t)
