-- ===== src/Sandbox/Boundary/Calls.antt =====
-- Every call of internal/sandbox/service.go keeps what its boundary keeps.
use kubebox.Common.{
  ℕ, ◌+◌, ◌-◌, ◌%◌, ◌^◌, ◌<◌, Text, is_empty, lookup, insert, ltb_ℤ, ℤ, pos, ◌≤ℤ◌, Option, none,
  some, ◌≡◌, refl, ◌||◌, Bool-cases, Option-cases, inl, inr, arith,
}
use kubebox.Governance.{Time}
use kubebox.Sandbox.Types.{
  AllocationStatus, reserved, released, Phase, provisioning, ready, draining, deleted, failed,
  Quota, Allocation, CreateRequest, IdempotencyRecord, Sandbox, Store, Deps, quota_key,
  allocation_id_of, allocation_id_of_inj, sandbox_id_of,
}
use kubebox.Sandbox.Quotas.{
  set_quota_row, set_quota, release_reserved, release_known, release_found, release_allocation,
}
use kubebox.Sandbox.Create.{
  reserve, create_new, create_known, create_valid, create, is_invalid, idempotency_key_of,
  with_defaults, pending_record,
}
use kubebox.Sandbox.Lifecycle.{
  drain_live, drain_phase, drain_found, drain, complete_found, complete_deletion,
}
use kubebox.Sandbox.Ledger.Histories.{Step, sets_quota, creates, drains, completes}
use kubebox.Sandbox.Mirror.Histories.{Calls, none_yet, call}
use kubebox.Sandbox.Boundary.{
  IsKept, IsGoverned, same-IsGoverned, materialize_kept, set_kept, reserve_kept, finish_kept,
  release_kept, drain_kept, complete_kept,
}

module _ {G : Type 0} (deps : Deps G) {P : G → Type 0} {Fresh : G → Text → Type 0}
    (law : IsKept deps.api P Fresh) where
  abbrev Governed : Store G → Type 0
  Governed s = IsGoverned P Fresh s

  -- A store with the boundary after a call.
  set_row-IsGoverned :
      (s : Store G) (o : Option G) (key : Text) (q : Quota) (t w : Text) (limit : ℤ)
      → limit ≤ℤ pos (2 ^ 63 - 1)
      → s.gov ≡ o
      → Governed s
      → Governed (set_quota_row deps o s key q t w limit).0
  unfolding set_quota_row
  set_row-IsGoverned s none key q t w limit int e i = absurd (ground (arith, i.boundary, e))
  set_row-IsGoverned s (some g) key q t w limit int e i =
      let g' = (deps.api.set_quota g t w limit).0 in
      let known : i.durable ≡ g = cc (i.boundary, e) in
      let (gov, sequence) =
        set_kept (deps.api.set_quota g t w limit).1 (record s { gov = some g' }) key q limit in
      same-IsGoverned (record s { gov = some g' }) _ gov sequence
        (record {
          durable = g';
          boundary = refl;
          holds = law.sets g t w limit int (rw known at i.holds);
          fresh = λ n later. law.sets_fresh g t w _ limit (rw known at (i.fresh n later));
        })

  set_quota-IsGoverned :
      (s : Store G) (t w : Text) (limit : ℤ)
      → limit ≤ℤ pos (2 ^ 63 - 1)
      → Governed s
      → Governed (set_quota deps s t w limit).0
  unfolding set_quota
  set_quota-IsGoverned s t w limit int i =
      elim (Bool-cases (is_empty t || is_empty w || ltb_ℤ limit (pos 0))) [
        | inl bad ↦ rw bad i
        | inr valid ↦
            let (gov, sequence) =
              materialize_kept s (lookup (quota_key t w) s.quotas) (quota_key t w) t w in
            rw valid (
              set_row-IsGoverned _ _ (quota_key t w) _ t w limit int refl
                (same-IsGoverned s _ gov sequence i))
      ]

  -- `u` is the store `s` once the number of the next sandbox is taken.
  reserve-IsGoverned :
      (s u : Store G) (o : Option G) (n : ℕ) (idem_key : Text) (now : Time) (actor : Text)
      (req : CreateRequest)
      → s.gov ≡ o
      → u.sequence ≡ n
      → s.sequence < n
      → Governed s
      → Governed (reserve deps o n idem_key now actor req u).0
  unfolding reserve
  reserve-IsGoverned s u none n idem_key now actor req e number next i =
      absurd (ground (arith, i.boundary, e))
  reserve-IsGoverned s u (some g) n idem_key now actor req e number next i =
      let known : i.durable ≡ g = cc (i.boundary, e) in
      let id = allocation_id_of n in
      let out = deps.api.reserve_allocation g req.tenant_id actor id (sandbox_id_of n) now in
      let (gov, sequence) = reserve_kept out.1 idem_key actor req (record u { gov = some out.0 }) in
      same-IsGoverned (record u { gov = some out.0 }) _ gov sequence
        (record {
          durable = out.0;
          boundary = refl;
          holds =
              law.reserves g req.tenant_id actor id (sandbox_id_of n) now
                (rw known at (i.fresh n next)) (rw known at i.holds);
          fresh = λ k later.
              law.reserves_fresh g req.tenant_id actor id (allocation_id_of k) (sandbox_id_of n) now
                (λ same. omega (arith, allocation_id_of_inj n k same, number, later))
                (rw known at (i.fresh k (omega (arith, number, next, later))));
        })

  new-IsGoverned :
      (s : Store G) (now : Time) (actor key : Text) (req : CreateRequest) (hash : Text)
      → s.sequence + 1 < 2 ^ 64
      → Governed s
      → Governed (create_new deps s now actor key req hash).0
  unfolding create_new
  new-IsGoverned s now actor key req hash int i =
      let n = (s.sequence + 1) % 2 ^ 64 in
      let idem_key = idempotency_key_of req key in
      let prior = pending_record now hash actor key req in
      let u = record s { sequence = n; idempotency = insert idem_key prior s.idempotency } in
      let out = reserve deps s.gov n idem_key now actor req u in
      let (gov, sequence) = finish_kept out n idem_key prior now actor key req in
      same-IsGoverned out.0 _ gov sequence
        (reserve-IsGoverned s u s.gov n idem_key now actor req refl refl (omega (arith, int)) i)

  known-IsGoverned :
      (s : Store G) (o : Option IdempotencyRecord) (now : Time) (actor key : Text)
      (req : CreateRequest) (hash : Text)
      → s.sequence + 1 < 2 ^ 64
      → Governed s
      → Governed (create_known deps o s now actor key req hash).0
  unfolding create_known
  known-IsGoverned s none now actor key req hash int i =
      new-IsGoverned s now actor key req hash int i
  known-IsGoverned s (some prior) now actor key req hash int i = i

  create-IsGoverned :
      (s : Store G) (now : Time) (actor key : Text) (req : CreateRequest)
      → s.sequence + 1 < 2 ^ 64
      → Governed s
      → Governed (create deps s now actor key req).0
  unfolding create create_valid
  create-IsGoverned s now actor key req int i = elim (Bool-cases (is_invalid actor key req)) [
    | inl bad ↦ rw bad i
    | inr valid ↦ rw valid (known-IsGoverned s _ now actor key (with_defaults req) _ int i)
  ]

  reserved-IsGoverned :
      (s : Store G) (o : Option G) (id : Text) (a : Allocation) (now : Time)
      → s.gov ≡ o
      → Governed s
      → Governed (release_reserved deps o id a s now).0
  unfolding release_reserved
  reserved-IsGoverned s none id a now e i = absurd (ground (arith, i.boundary, e))
  reserved-IsGoverned s (some g) id a now e i =
      let known : i.durable ≡ g = cc (i.boundary, e) in
      let out = deps.api.release_allocation g a.tenant_id a.owner_id id now in
      let key = quota_key a.tenant_id a.owner_id in
      let (gov, sequence) =
        release_kept out.1 (lookup key s.quotas) key id a (record s { gov = some out.0 }) in
      same-IsGoverned (record s { gov = some out.0 }) _ gov sequence
        (record {
          durable = out.0;
          boundary = refl;
          holds = law.releases g a.tenant_id a.owner_id id now (rw known at i.holds);
          fresh = λ k later.
              law.releases_fresh g a.tenant_id a.owner_id id (allocation_id_of k) now
                (rw known at (i.fresh k later));
        })

  released-IsGoverned :
      (s : Store G) (status : AllocationStatus) (id : Text) (a : Allocation) (now : Time)
      → Governed s
      → Governed (release_known deps status id a s now).0
  unfolding release_known
  released-IsGoverned s released id a now i = i
  released-IsGoverned s reserved id a now i = reserved-IsGoverned s s.gov id a now refl i

  release-IsGoverned :
      (s : Store G) (id : Text) (now : Time)
      → Governed s
      → Governed (release_allocation deps s id now).0
  unfolding release_allocation release_found
  release-IsGoverned s id now i = elim (Option-cases (lookup id s.allocations)) [
    | inl missing ↦ rw missing i
    | inr (a, there) ↦ rw there (released-IsGoverned s a.status id a now i)
  ]

  live-IsGoverned :
      (s : Store G) (id : Text) (sb : Sandbox) (now : Time)
      → Governed s
      → Governed (drain_live deps s id sb now).0
  unfolding drain_live
  live-IsGoverned s id sb now i =
      let out = release_allocation deps s sb.allocation_id now in
      let (gov, sequence) = drain_kept out id sb now in
      same-IsGoverned out.0 _ gov sequence (release-IsGoverned s sb.allocation_id now i)

  phase-IsGoverned :
      (phase : Phase) (s : Store G) (id : Text) (sb : Sandbox) (now : Time)
      → Governed s
      → Governed (drain_phase deps phase s id sb now).0
  unfolding drain_phase
  phase-IsGoverned provisioning s id sb now i = live-IsGoverned s id sb now i
  phase-IsGoverned ready s id sb now i = live-IsGoverned s id sb now i
  phase-IsGoverned draining s id sb now i = i
  phase-IsGoverned deleted s id sb now i = i
  phase-IsGoverned failed s id sb now i = i

  drain-IsGoverned :
      (s : Store G) (id : Text) (now : Time) → Governed s → Governed (drain deps s id now).0
  unfolding drain drain_found
  drain-IsGoverned s id now i = elim (Option-cases (lookup id s.sandboxes)) [
    | inl missing ↦ rw missing i
    | inr (sb, there) ↦ rw there (phase-IsGoverned sb.phase s id sb now i)
  ]

  complete-IsGoverned :
      (s : Store G) (id : Text) (now : Time) → Governed s → Governed (complete_deletion s id now).0
  unfolding complete_deletion complete_found
  complete-IsGoverned s id now i = elim (Option-cases (lookup id s.sandboxes)) [
    | inl missing ↦ rw missing i
    | inr (sb, there) ↦
        let (gov, sequence) = complete_kept sb.phase s id sb now in
        rw there (same-IsGoverned s _ gov sequence i)
  ]

  Step-IsGoverned : {s u : Store G} → Step deps s u → Governed s → Governed u
  Step-IsGoverned (sets_quota s t w limit int) i = set_quota-IsGoverned s t w limit int i
  Step-IsGoverned (creates s now actor key req int) i = create-IsGoverned s now actor key req int i
  Step-IsGoverned (drains s id now) i = drain-IsGoverned s id now i
  Step-IsGoverned (completes s id now) i = complete-IsGoverned s id now i

  -- What the calls of a boundary keep, the calls of the store keep.
  pub Calls-IsGoverned :
      {s u : Store G} → Calls deps s u → IsGoverned P Fresh s → IsGoverned P Fresh u
  Calls-IsGoverned none_yet i = i
  Calls-IsGoverned (call calls step) i = Step-IsGoverned step (Calls-IsGoverned calls i)
