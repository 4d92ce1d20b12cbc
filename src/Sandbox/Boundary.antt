-- ===== src/Sandbox/Boundary.antt =====
-- What the store of internal/sandbox/service.go keeps of its durable boundary: an invariant that the
-- calls of the boundary keep is kept by the calls of the store.
pub mod Calls
pub mod Durable
use kubebox.Common.{
  ℕ, ◌+◌, ◌-◌, ◌%◌, ◌^◌, ◌<◌, Text, is_empty, lookup, ltb_ℤ, ℤ, pos, ◌≤ℤ◌, Option, none, some, ◌≡◌,
  ◌≢◌, refl, sym, ◌∙◌, ap, ◌||◌, Bool-cases, Option-cases, inl, inr, arith, subst,
}
use kubebox.Governance.{Time, GovError, GovernanceStore}
use kubebox.Sandbox.Types.{
  AllocationStatus, reserved, released, Phase, provisioning, ready, draining, deleted, failed,
  Quota, Allocation, CreateRequest, IdempotencyRecord, Sandbox, Store, Error, Deps, quota_key,
  allocation_id_of, allocation_id_of_inj, sandbox_id_of,
}
use kubebox.Sandbox.Quotas.{
  materialize, write_limit, write_count, write_released, after_set, set_quota_row, set_quota,
  sync_projection, after_release, release_reserved, release_known, release_found,
  release_allocation,
}
use kubebox.Sandbox.Create.{
  after_reserve, commit, finish, reserve, create_new, create_known, create_valid, create,
  is_invalid, idempotency_key_of, with_defaults,
}
use kubebox.Sandbox.Lifecycle.{
  write_phase, after_drain, drain_live, drain_phase, drain_found, drain, complete_phase,
  complete_found, complete_deletion,
}

-- An invariant of a boundary, where a reservation brings an id that is not in use.
pub record IsKept {G : Type 0} (api : GovernanceStore G) (P : G → Type 0)
    (Fresh : G → Text → Type 0) : Type 0 where
  pub sets :
      (g : G) (t w : Text) (limit : ℤ)
      → limit ≤ℤ pos (2 ^ 63 - 1)
      → P g
      → P (api.set_quota g t w limit).0
  pub reserves :
      (g : G) (t w id sandbox_id : Text) (now : Time)
      → Fresh g id
      → P g
      → P (api.reserve_allocation g t w id sandbox_id now).0
  pub releases :
      (g : G) (t w id : Text) (now : Time) → P g → P (api.release_allocation g t w id now).0
  pub sets_fresh :
      (g : G) (t w id : Text) (limit : ℤ) → Fresh g id → Fresh (api.set_quota g t w limit).0 id
  pub reserves_fresh :
      (g : G) (t w j id sandbox_id : Text) (now : Time)
      → j ≢ id
      → Fresh g id
      → Fresh (api.reserve_allocation g t w j sandbox_id now).0 id
  pub releases_fresh :
      (g : G) (t w j id : Text) (now : Time)
      → Fresh g id
      → Fresh (api.release_allocation g t w j now).0 id

-- The boundary of a store satisfies an invariant, and has not seen the ids of the allocations to come.
pub record IsGoverned {G : Type 0} (P : G → Type 0) (Fresh : G → Text → Type 0) (s : Store G)
    : Type 0 where
  pub durable : G
  pub boundary : s.gov ≡ some durable
  pub holds : P durable
  pub fresh : (n : ℕ) → s.sequence < n → Fresh durable (allocation_id_of n)

module _ {G : Type 0} {P : G → Type 0} {Fresh : G → Text → Type 0} where
  -- Only the boundary and the sequence count.
  pub same-IsGoverned :
      (s u : Store G)
      → u.gov ≡ s.gov
      → u.sequence ≡ s.sequence
      → IsGoverned P Fresh s
      → IsGoverned P Fresh u
  same-IsGoverned s u gov sequence i = record {
    durable = i.durable;
    boundary = gov ∙ i.boundary;
    holds = i.holds;
    fresh = λ n later. i.fresh n (rw sequence at later);
  }

materialize_kept :
    {G : Type 0} (s : Store G) (o : Option Quota) (key t w : Text)
    → ((materialize o key t w s).0.gov ≡ s.gov)
      × ((materialize o key t w s).0.sequence ≡ s.sequence)
unfolding materialize
materialize_kept s none key t w = (refl, refl)
materialize_kept s (some q) key t w = (refl, refl)

set_kept :
    {G : Type 0} (e : Option GovError) (s : Store G) (key : Text) (q : Quota) (limit : ℤ)
    → ((after_set e s key q limit).0.gov ≡ s.gov)
      × ((after_set e s key q limit).0.sequence ≡ s.sequence)
unfolding after_set write_limit
set_kept none s key q limit = (refl, refl)
set_kept (some e) s key q limit = (refl, refl)

reserve_kept :
    {G : Type 0} (e : Option GovError) (idem_key actor : Text) (req : CreateRequest) (s : Store G)
    → ((after_reserve e idem_key actor req s).0.gov ≡ s.gov)
      × ((after_reserve e idem_key actor req s).0.sequence ≡ s.sequence)
unfolding after_reserve write_count
reserve_kept (some e) idem_key actor req s = (refl, refl)
reserve_kept none idem_key actor req s =
    materialize_kept s _ (quota_key req.tenant_id actor) req.tenant_id actor

finish_kept :
    {G : Type 0} (out : Store G × Option Error) (n : ℕ) (idem_key : Text)
    (prior : IdempotencyRecord) (now : Time) (actor key : Text) (req : CreateRequest)
    → ((finish out n idem_key prior now actor key req).0.gov ≡ out.0.gov)
      × ((finish out n idem_key prior now actor key req).0.sequence ≡ out.0.sequence)
unfolding finish commit
finish_kept (s, none) n idem_key prior now actor key req = (refl, refl)
finish_kept (s, some e) n idem_key prior now actor key req = (refl, refl)

release_kept :
    {G : Type 0} (e : Option GovError) (o : Option Quota) (key id : Text) (a : Allocation)
    (s : Store G)
    → ((after_release e o key id a s).0.gov ≡ s.gov)
      × ((after_release e o key id a s).0.sequence ≡ s.sequence)
unfolding after_release sync_projection write_released write_count
release_kept (some e) o key id a s = (refl, refl)
release_kept none none key id a s = (refl, refl)
release_kept none (some q) key id a s = (ground arith, ground arith)

drain_kept :
    {G : Type 0} (out : Store G × Option Error) (id : Text) (sb : Sandbox) (now : Time)
    → ((after_drain out id sb now).0.gov ≡ out.0.gov)
      × ((after_drain out id sb now).0.sequence ≡ out.0.sequence)
unfolding after_drain write_phase
drain_kept (s, none) id sb now = (refl, refl)
drain_kept (s, some e) id sb now = (refl, refl)

complete_kept :
    {G : Type 0} (phase : Phase) (s : Store G) (id : Text) (sb : Sandbox) (now : Time)
    → ((complete_phase phase s id sb now).0.gov ≡ s.gov)
      × ((complete_phase phase s id sb now).0.sequence ≡ s.sequence)
unfolding complete_phase write_phase
complete_kept provisioning s id sb now = (refl, refl)
complete_kept ready s id sb now = (refl, refl)
complete_kept draining s id sb now = (refl, refl)
complete_kept deleted s id sb now = (refl, refl)
complete_kept failed s id sb now = (refl, refl)
