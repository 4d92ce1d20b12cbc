-- ===== src/Sandbox/Ledger/Phases.antt =====
-- How a call may change the sandboxes that there are: the state machine of their phases.
use kubebox.Common.{
  ℕ, ℤ, ◌+◌, ◌^◌, ◌<◌, ◌≡◌, refl, sym, inl, inr, Text, text_eq, text_eq_iff, lookup, insert,
  lookup-insert, Option, none, some, Bool-cases, arith, Map, ◌||◌, is_empty, ltb_ℤ, pos, subst, ◌∙◌,
}
use kubebox.Governance.{Time}
use kubebox.Sandbox.Types.{
  Store, Error, Deps, Sandbox, Phase, provisioning, ready, draining, deleted, Quota,
  IdempotencyRecord, CreateRequest, sandbox_id_of,
}
use kubebox.Sandbox.Quotas.{
  write_count, write_released, materialize, write_limit, set_quota, set_quota_row,
  release_allocation,
}
use kubebox.Sandbox.Create.{create, create_valid, create_known, create_new, finish, reserve, commit}
use kubebox.Sandbox.Lifecycle.{
  write_phase, drain, drain_found, drain_phase, drain_live, after_drain, complete_deletion,
  complete_found, complete_phase,
}
use kubebox.Sandbox.Ledger.{IsConsistent}
use kubebox.Sandbox.Ledger.Histories.{Step, sets_quota, creates, drains, completes}

-- The moves of the state machine. `deleted` has none but to stay.
pub data Advance : Phase → Phase → Type 0 where
  stay : (p : Phase) → Advance p p
  drain_provisioning : Advance provisioning draining
  drain_ready : Advance ready draining
  finish_draining : Advance draining deleted
  finish_failed : Advance Phase.failed deleted

-- A sandbox and what it has become: only the phase and the time of the last change may move.
pub record Succeeds (sb sb' : Sandbox) : Type 0 where
  pub advance : Advance sb.phase sb'.phase
  pub rest : sb' ≡ record sb { phase = sb'.phase; updated_at = sb'.updated_at }

abbrev pub Follows : Sandbox → Option Sandbox → Type 0
Follows sb none = ⊥
Follows sb (some sb') = Succeeds sb sb'

Succeeds-refl : (sb : Sandbox) → Succeeds sb sb
Succeeds-refl sb = record { advance = stay sb.phase; rest = refl }

-- A map in which every sandbox has a successor.
Keeps : Map Sandbox → Map Sandbox → Type 0
Keeps m m' = (id : Text) (sb : Sandbox) → lookup id m ≡ some sb → Follows sb (lookup id m')

Keeps-same : (m m' : Map Sandbox) → m' ≡ m → Keeps m m'
unfolding Keeps
Keeps-same m m' e id sb at = rw (e, at) (Succeeds-refl sb)

Keeps-insert :
    (m : Map Sandbox) (id : Text) (sb sb' : Sandbox)
    → lookup id m ≡ some sb
    → Succeeds sb sb'
    → Keeps m (insert id sb' m)
unfolding Keeps
Keeps-insert m id sb sb' at h j x atj = rw lookup-insert (elim (Bool-cases (text_eq id j)) [
  | inl e ↦ rw e (subst (λ y. Succeeds y sb') (cc (at, atj, (text_eq_iff id j).0 e)) h)
  | inr e ↦ rw (e, atj) (Succeeds-refl x)
])

Keeps-new :
    (m : Map Sandbox) (id : Text) (sb' : Sandbox) → lookup id m ≡ none → Keeps m (insert id sb' m)
unfolding Keeps
Keeps-new m id sb' free j x atj = rw lookup-insert (elim (Bool-cases (text_eq id j)) [
  | inl e ↦ absurd (ground (arith, (text_eq_iff id j).0 e, free, atj))
  | inr e ↦ rw (e, atj) (Succeeds-refl x)
])

module _ {G : Type 0} (deps : Deps G) where
  sandboxes-materialize :
      (s : Store G) (o : Option Quota) (key t w : Text)
      → (materialize o key t w s).0.sandboxes ≡ s.sandboxes
  unfolding materialize
  sandboxes-materialize s o key t w = ground arith

  sandboxes-set_quota_row :
      (g : Option G) (s : Store G) (key : Text) (q : Quota) (t w : Text) (limit : ℤ)
      → (set_quota_row deps g s key q t w limit).0.sandboxes ≡ s.sandboxes
  unfolding set_quota_row write_limit
  sandboxes-set_quota_row g s key q t w limit = ground arith

  sandboxes-set_quota :
      (s : Store G) (t w : Text) (limit : ℤ)
      → (set_quota deps s t w limit).0.sandboxes ≡ s.sandboxes
  unfolding set_quota
  sandboxes-set_quota s t w limit =
      elim (Bool-cases (is_empty t || is_empty w || ltb_ℤ limit (pos 0))) [
        | inl bad ↦ rw bad
        | inr good ↦
            rw good (sandboxes-set_quota_row _ _ _ _ t w limit ∙ sandboxes-materialize s _ _ t w)
      ]

  sandboxes-release :
      (s : Store G) (id : Text) (now : Time)
      → (release_allocation deps s id now).0.sandboxes ≡ s.sandboxes
  unfolding release_allocation write_count write_released
  sandboxes-release s id now = ground arith

  sandboxes-reserve :
      (g : Option G) (n : ℕ) (idem : Text) (now : Time) (actor : Text) (req : CreateRequest)
      (s : Store G)
      → (reserve deps g n idem now actor req s).0.sandboxes ≡ s.sandboxes
  unfolding reserve write_count materialize
  sandboxes-reserve g n idem now actor req s = ground arith

  Keeps-finish :
      (g : Option G) (n : ℕ) (idem : Text) (now : Time) (actor key : Text) (req : CreateRequest)
      (s : Store G) (prior : IdempotencyRecord)
      → lookup (sandbox_id_of n) s.sandboxes ≡ none
      → Keeps s.sandboxes
          (finish
            (reserve deps g n idem now actor req s)
            n
            idem
            prior
            now
            actor
            key
            req).0.sandboxes
  unfolding finish commit
  Keeps-finish g n idem now actor key req s prior free =
      go (reserve deps g n idem now actor req s) (sandboxes-reserve g n idem now actor req s)
    where
      go :
          (r : Store G × Option Error)
          → r.0.sandboxes ≡ s.sandboxes
          → Keeps s.sandboxes (finish r n idem prior now actor key req).0.sandboxes
      go (u, some e) h = Keeps-same _ _ h
      go (u, none) h = rw h (Keeps-new s.sandboxes (sandbox_id_of n) _ free)

  Keeps-known :
      (s : Store G) (o : Option IdempotencyRecord) (now : Time) (actor key : Text)
      (req : CreateRequest) (hash : Text)
      → s.sequence + 1 < 2 ^ 64
      → IsConsistent s
      → Keeps s.sandboxes (create_known deps o s now actor key req hash).0.sandboxes
  unfolding create_known create_new
  Keeps-known s (some prior) now actor key req hash h c = Keeps-same _ _ refl
  Keeps-known s none now actor key req hash h c =
      Keeps-finish s.gov _ _ now actor key req _ _ (c.free_sandbox _ (omega arith))

  Keeps-create :
      (s : Store G) (now : Time) (actor key : Text) (req : CreateRequest)
      → s.sequence + 1 < 2 ^ 64
      → IsConsistent s
      → Keeps s.sandboxes (create deps s now actor key req).0.sandboxes
  unfolding create create_valid
  Keeps-create s now actor key req h c =
      elim (Bool-cases
        (is_empty actor || is_empty key || is_empty req.tenant_id || is_empty req.template)) [
          | inl bad ↦ rw bad (Keeps-same _ _ refl)
          | inr good ↦ rw good (Keeps-known s _ now actor key _ _ h c)
        ]

  Keeps-after_drain :
      (s : Store G) (r : Store G × Option Error) (id : Text) (sb : Sandbox) (now : Time)
      → r.0.sandboxes ≡ s.sandboxes
      → lookup id s.sandboxes ≡ some sb
      → Advance sb.phase draining
      → Keeps s.sandboxes (after_drain r id sb now).0.sandboxes
  unfolding after_drain write_phase
  Keeps-after_drain s (u, some e) id sb now h at adv = Keeps-same _ _ h
  Keeps-after_drain s (u, none) id sb now h at adv =
      rw h (Keeps-insert s.sandboxes id sb _ at (record { advance = adv; rest = refl }))

  Keeps-drain_phase :
      (s : Store G) (p : Phase) (id : Text) (sb : Sandbox) (now : Time)
      → p ≡ sb.phase
      → lookup id s.sandboxes ≡ some sb
      → Keeps s.sandboxes (drain_phase deps p s id sb now).0.sandboxes
  unfolding drain_phase drain_live
  Keeps-drain_phase s ready id sb now e at =
      Keeps-after_drain s _ id sb now (sandboxes-release s sb.allocation_id now) at
        (subst (λ p. Advance p draining) e drain_ready)
  Keeps-drain_phase s provisioning id sb now e at =
      Keeps-after_drain s _ id sb now (sandboxes-release s sb.allocation_id now) at
        (subst (λ p. Advance p draining) e drain_provisioning)
  Keeps-drain_phase s draining id sb now e at = Keeps-same _ _ refl
  Keeps-drain_phase s _ id sb now e at = Keeps-same _ _ refl

  Keeps-drain :
      (s : Store G) (o : Option Sandbox) (id : Text) (now : Time)
      → o ≡ lookup id s.sandboxes
      → Keeps s.sandboxes (drain_found deps o s id now).0.sandboxes
  unfolding drain_found
  Keeps-drain s none id now e = Keeps-same _ _ refl
  Keeps-drain s (some sb) id now e = Keeps-drain_phase s sb.phase id sb now refl (sym e)

  Keeps-complete_phase :
      (s : Store G) (p : Phase) (id : Text) (sb : Sandbox) (now : Time)
      → p ≡ sb.phase
      → lookup id s.sandboxes ≡ some sb
      → Keeps s.sandboxes (complete_phase p s id sb now).0.sandboxes
  unfolding complete_phase write_phase
  Keeps-complete_phase s draining id sb now e at =
      Keeps-insert s.sandboxes id sb _ at
        (record { advance = subst (λ p. Advance p deleted) e finish_draining; rest = refl })
  Keeps-complete_phase s Phase.failed id sb now e at =
      Keeps-insert s.sandboxes id sb _ at
        (record { advance = subst (λ p. Advance p deleted) e finish_failed; rest = refl })
  Keeps-complete_phase s _ id sb now e at = Keeps-same _ _ refl

  Keeps-complete :
      (s : Store G) (o : Option Sandbox) (id : Text) (now : Time)
      → o ≡ lookup id s.sandboxes
      → Keeps s.sandboxes (complete_found o s id now).0.sandboxes
  unfolding complete_found
  Keeps-complete s none id now e = Keeps-same _ _ refl
  Keeps-complete s (some sb) id now e = Keeps-complete_phase s sb.phase id sb now refl (sym e)

  -- A call from a consistent store removes no sandbox: each is still there under its id, has made at
  -- most one move of the state machine, and differs in nothing else but the time of the last change.
  pub Step-Follows :
      {s u : Store G} (id : Text) (sb : Sandbox)
      → Step deps s u
      → IsConsistent s
      → lookup id s.sandboxes ≡ some sb
      → Follows sb (lookup id u.sandboxes)
  unfolding Keeps drain complete_deletion
  Step-Follows id sb (sets_quota s t w limit h) c =
      Keeps-same _ _ (sandboxes-set_quota s t w limit) id sb
  Step-Follows id sb (creates s now actor key req h) c = Keeps-create s now actor key req h c id sb
  Step-Follows id sb (drains s j now) c = Keeps-drain s _ j now refl id sb
  Step-Follows id sb (completes s j now) c = Keeps-complete s _ j now refl id sb
