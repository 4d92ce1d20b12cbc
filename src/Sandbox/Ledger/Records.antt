-- ===== src/Sandbox/Ledger/Records.antt =====
-- What calls of the store do to the record of an Idempotency-Key: once it is there, it stays.
use kubebox.Common.{
  ℕ, ℤ, ◌≡◌, refl, ◌∙◌, Text, text_eq, text_eq_iff, is_empty, ltb_ℤ, pos, lookup, lookup-insert,
  lookup-delete, Option, none, some, false, ◌||◌, Bool-cases, inl, inr, arith,
}
use kubebox.Governance.{Time}
use kubebox.Sandbox.Types.{
  Store, Error, Deps, Sandbox, Phase, provisioning, ready, draining, Quota, IdempotencyRecord,
  CreateRequest,
}
use kubebox.Sandbox.Quotas.{
  write_count, write_released, materialize, write_limit, set_quota, set_quota_row,
  release_allocation,
}
use kubebox.Sandbox.Create.{
  create, create_valid, create_known, create_new, finish, reserve, commit, idempotency_key_of,
}
use kubebox.Sandbox.Lifecycle.{
  write_phase, drain, drain_found, drain_phase, drain_live, after_drain, complete_deletion,
  complete_found, complete_phase,
}
use kubebox.Sandbox.Ledger.Histories.{Step, sets_quota, creates, drains, completes}
use kubebox.Sandbox.Mirror.Histories.{Calls, none_yet, call}

module _ {G : Type 0} (deps : Deps G) where
  idempotency-materialize :
      (s : Store G) (o : Option Quota) (key t w : Text)
      → (materialize o key t w s).0.idempotency ≡ s.idempotency
  unfolding materialize
  idempotency-materialize s o key t w = ground arith

  idempotency-set_quota_row :
      (g : Option G) (s : Store G) (key : Text) (q : Quota) (t w : Text) (limit : ℤ)
      → (set_quota_row deps g s key q t w limit).0.idempotency ≡ s.idempotency
  unfolding set_quota_row write_limit
  idempotency-set_quota_row g s key q t w limit = ground arith

  idempotency-set_quota :
      (s : Store G) (t w : Text) (limit : ℤ)
      → (set_quota deps s t w limit).0.idempotency ≡ s.idempotency
  unfolding set_quota
  idempotency-set_quota s t w limit =
      elim (Bool-cases (is_empty t || is_empty w || ltb_ℤ limit (pos 0))) [
        | inl bad ↦ rw bad refl
        | inr good ↦
            rw good
              (idempotency-set_quota_row _ _ _ _ t w limit ∙ idempotency-materialize s _ _ t w)
      ]

  idempotency-release :
      (s : Store G) (id : Text) (now : Time)
      → (release_allocation deps s id now).0.idempotency ≡ s.idempotency
  unfolding release_allocation write_count write_released
  idempotency-release s id now = ground arith

  idempotency-after_drain :
      (r : Store G × Option Error) (id : Text) (sb : Sandbox) (now : Time)
      → (after_drain r id sb now).0.idempotency ≡ r.0.idempotency
  unfolding after_drain write_phase
  idempotency-after_drain (u, some e) id sb now = refl
  idempotency-after_drain (u, none) id sb now = refl

  idempotency-drain_phase :
      (s : Store G) (p : Phase) (id : Text) (sb : Sandbox) (now : Time)
      → (drain_phase deps p s id sb now).0.idempotency ≡ s.idempotency
  unfolding drain_phase drain_live
  idempotency-drain_phase s ready id sb now =
      idempotency-after_drain _ id sb now ∙ idempotency-release s sb.allocation_id now
  idempotency-drain_phase s provisioning id sb now =
      idempotency-after_drain _ id sb now ∙ idempotency-release s sb.allocation_id now
  idempotency-drain_phase s draining id sb now = refl
  idempotency-drain_phase s _ id sb now = refl

  idempotency-drain :
      (s : Store G) (o : Option Sandbox) (id : Text) (now : Time)
      → (drain_found deps o s id now).0.idempotency ≡ s.idempotency
  unfolding drain_found
  idempotency-drain s none id now = refl
  idempotency-drain s (some sb) id now = idempotency-drain_phase s sb.phase id sb now

  idempotency_complete :
      (s : Store G) (o : Option Sandbox) (id : Text) (now : Time)
      → (complete_found o s id now).0.idempotency ≡ s.idempotency
  unfolding complete_found complete_phase write_phase
  idempotency_complete s none id now = refl
  idempotency_complete s (some sb) id now = ground arith

  -- A reservation removes at most the record of its own key.
  lookup-reserve :
      (g : Option G) (n : ℕ) (idem : Text) (now : Time) (actor : Text) (req : CreateRequest)
      (s : Store G) (k : Text)
      → text_eq idem k ≡ false
      → lookup k (reserve deps g n idem now actor req s).0.idempotency ≡ lookup k s.idempotency
  unfolding reserve write_count materialize
  lookup-reserve g n idem now actor req s k other =
      ground (arith, lookup-delete idem k s.idempotency, other)

  lookup-finish :
      (r : Store G × Option Error) (n : ℕ) (idem : Text) (prior : IdempotencyRecord) (now : Time)
      (actor key : Text) (req : CreateRequest) (k : Text)
      → text_eq idem k ≡ false
      → lookup k (finish r n idem prior now actor key req).0.idempotency ≡ lookup k r.0.idempotency
  unfolding finish commit
  lookup-finish (u, some e) n idem prior now actor key req k other = refl
  lookup-finish (u, none) n idem prior now actor key req k other =
      rw (lookup-insert idem k _ u.idempotency, other) refl

  known-keeps :
      (s : Store G) (o : Option IdempotencyRecord) (now : Time) (actor key : Text)
      (req : CreateRequest) (hash k : Text) (prior : IdempotencyRecord)
      → o ≡ lookup (idempotency_key_of req key) s.idempotency
      → lookup k s.idempotency ≡ some prior
      → lookup k (create_known deps o s now actor key req hash).0.idempotency ≡ some prior
  unfolding create_known create_new
  known-keeps s (some p) now actor key req hash k prior e at = at
  known-keeps s none now actor key req hash k prior e at =
      elim (Bool-cases (text_eq (idempotency_key_of req key) k)) [
        | inl same ↦ cc (e, at, (text_eq_iff (idempotency_key_of req key) k).0 same)
        | inr other ↦
            lookup-finish _ _ (idempotency_key_of req key) _ now actor key req k other
            ∙ lookup-reserve s.gov _ (idempotency_key_of req key) now actor req _ k other
            ∙ rw (lookup-insert (idempotency_key_of req key) k _ s.idempotency, other) at
      ]

  create-keeps :
      (s : Store G) (now : Time) (actor key : Text) (req : CreateRequest) (k : Text)
      (prior : IdempotencyRecord)
      → lookup k s.idempotency ≡ some prior
      → lookup k (create deps s now actor key req).0.idempotency ≡ some prior
  unfolding create create_valid
  create-keeps s now actor key req k prior at =
      elim (Bool-cases
        (is_empty actor || is_empty key || is_empty req.tenant_id || is_empty req.template)) [
          | inl bad ↦ rw bad at
          | inr good ↦ rw good (known-keeps s _ now actor key _ _ k prior refl at)
        ]

  Step-keeps :
      {s u : Store G} (k : Text) (prior : IdempotencyRecord)
      → Step deps s u
      → lookup k s.idempotency ≡ some prior
      → lookup k u.idempotency ≡ some prior
  unfolding drain complete_deletion
  Step-keeps k prior (sets_quota s t w limit h) at = rw (idempotency-set_quota s t w limit) at
  Step-keeps k prior (creates s now actor key req h) at =
      create-keeps s now actor key req k prior at
  Step-keeps k prior (drains s id now) at = rw (idempotency-drain s _ id now) at
  Step-keeps k prior (completes s id now) at = rw (idempotency_complete s _ id now) at

  -- A record of an Idempotency-Key stays as it is through every further call.
  pub Calls-keeps :
      {s u : Store G} (k : Text) (prior : IdempotencyRecord)
      → Calls deps s u
      → lookup k s.idempotency ≡ some prior
      → lookup k u.idempotency ≡ some prior
  Calls-keeps k prior none_yet at = at
  Calls-keeps k prior (call calls step) at = Step-keeps k prior step (Calls-keeps k prior calls at)
