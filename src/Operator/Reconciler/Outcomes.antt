-- ===== src/Operator/Reconciler/Outcomes.antt =====
-- What a pass over a claim can end in.
use kubebox.Common.{
  Text, text_eq, text_eq_iff, Option, none, some, true, false, not, ◌||◌, ◌≡◌, refl, inl, inr,
  arith, Bool-cases,
}
use kubebox.Governance.{Time}
use kubebox.Operator.Reconciler.{
  Claim, Pod, PodClient, PodResult, found, failing, PodError, not_found, already_exists, other,
  Result, ok, provisioning, ready, draining, deleted, failed, with_defaults, expire, serve, settle,
  after_delete, reconcile_delete, settle_found, after_create, after_get, ensure, reconcile_claim,
}

phases_differ :
    (text_eq provisioning ready ≡ false)
    × (text_eq draining ready ≡ false)
    × (text_eq deleted ready ≡ false)
    × (text_eq failed ready ≡ false)
unfolding text_eq
phases_differ = (refl, refl, refl, refl)

-- A claim that is served: its pod is in the cluster, ready, healthy and not being deleted, and the
-- claim shows the pod's address, its own name as the sandbox, and needs no further pass.
pub record IsServed {P : Type 0} (api : PodClient P) (cluster : P) (c : Claim) (r : Result)
    : Type 0 where
  pub pod : Pod
  pub there : api.get cluster c.namespace c.pod_name ≡ found pod
  pub is_ready : pod.is_ready ≡ true
  pub is_healthy : pod.is_healthy ≡ true
  pub kept : pod.is_deleted ≡ false
  pub address : c.pod_ip ≡ pod.ip
  pub sandbox : c.sandbox_id ≡ c.name
  pub done : r ≡ ok false

module _ {P : Type 0} (api : PodClient P) (sha256_hex : Text → Text) where
  settle-IsServed :
      (pod : Pod) (cluster : P) (c : Claim) (now : Time)
      → api.get cluster c.namespace c.pod_name ≡ found pod
      → text_eq c.phase ready ≡ false
      → text_eq (settle c pod now).0.phase ready ≡ true
      → IsServed api cluster (settle c pod now).0 (settle c pod now).1
  unfolding settle serve
  settle-IsServed pod cluster c now g p h = elim (Bool-cases pod.is_deleted) [
    | inl gone ↦ absurd (ground (arith, phases_differ.3))
    | inr kept ↦ elim (Bool-cases (not pod.is_ready || not pod.is_healthy)) [
      | inl waits ↦ absurd (ground arith)
      | inr works ↦
          rw (kept, works)
            (record {
              pod = pod;
              there = g;
              is_ready = ground arith;
              is_healthy = ground arith;
              kept = kept;
              address = refl;
              sandbox = refl;
              done = refl;
            })
    ]
  ]

  abbrev Served : P × Claim × Result → Type 0
  Served out = text_eq out.1.phase ready ≡ true → IsServed api out.0 out.1 out.2

  found-Served :
      (o : PodResult) (cluster : P) (c : Claim) (now : Time)
      → api.get cluster c.namespace c.pod_name ≡ o
      → text_eq c.phase ready ≡ false
      → Served (settle_found api sha256_hex o cluster c now)
  unfolding settle_found
  found-Served (failing e) cluster c now g p h = absurd (ground arith)
  found-Served (found pod) cluster c now g p h = settle-IsServed pod cluster c now g p h

  create-Served :
      (made : P × Option PodError) (c : Claim) (now : Time)
      → text_eq c.phase ready ≡ false
      → Served (after_create api sha256_hex made c now)
  unfolding after_create
  create-Served (cluster, some not_found) c now p h = absurd (ground (arith, phases_differ.3))
  create-Served (cluster, some (other e)) c now p h = absurd (ground (arith, phases_differ.3))
  create-Served (cluster, some already_exists) c now p h = found-Served _ cluster c now refl p h
  create-Served (cluster, none) c now p h = found-Served _ cluster c now refl p h

  get-Served :
      (o : PodResult) (cluster : P) (c : Claim) (now : Time)
      → api.get cluster c.namespace c.pod_name ≡ o
      → text_eq c.phase ready ≡ false
      → Served (after_get api sha256_hex o cluster c now)
  unfolding after_get
  get-Served (failing not_found) cluster c now g p h = create-Served _ c now p h
  get-Served (failing already_exists) cluster c now g p h = found-Served _ cluster c now g p h
  get-Served (failing (other e)) cluster c now g p h = found-Served _ cluster c now g p h
  get-Served (found pod) cluster c now g p h = found-Served _ cluster c now g p h

  ensure-Served :
      (cluster : P) (c : Claim) (now : Time) → Served (ensure api sha256_hex cluster c now)
  unfolding ensure
  ensure-Served cluster c now h = get-Served _ cluster _ now refl phases_differ.0 h

  delete_unserved :
      (done : P × Option PodError) (c : Claim)
      → text_eq c.phase ready ≡ false
      → text_eq (after_delete api sha256_hex done c).1.phase ready ≡ false
  unfolding after_delete
  delete_unserved (cluster, some (other e)) c p = p
  delete_unserved (cluster, some already_exists) c p = p
  delete_unserved (cluster, some not_found) c p = phases_differ.2
  delete_unserved (cluster, none) c p = phases_differ.2

  reconcile_delete-unserved :
      (cluster : P) (c : Claim)
      → text_eq (reconcile_delete api sha256_hex cluster c).1.phase ready ≡ false
  unfolding reconcile_delete
  reconcile_delete-unserved cluster c = delete_unserved _ _ phases_differ.1

  deleted_unserved : (p : Text) → text_eq p deleted ≡ true → text_eq p ready ≡ false
  deleted_unserved p e = rw ((text_eq_iff p deleted).0 e) phases_differ.2

  -- After a pass that leaves a claim in the phase Ready, whatever phase it was in before: the
  -- cluster of that moment has a pod under the claim's namespace and pod name which is ready,
  -- healthy and not being deleted, the claim shows that pod's address and its own name as the
  -- sandbox, and the pass asks for no further one.
  pub reconcile_claim-IsServed :
      (cluster : P) (claim : Claim) (now : Time)
      → text_eq (reconcile_claim api sha256_hex cluster claim now).1.phase ready ≡ true
      → let out = reconcile_claim api sha256_hex cluster claim now in IsServed api out.0 out.1 out.2
  unfolding reconcile_claim
  reconcile_claim-IsServed cluster claim now h =
      let c = expire (with_defaults claim) now in
      elim (Bool-cases (text_eq c.desired_state deleted)) [
        | inl unwanted ↦
            let bad = rw unwanted at h in
            absurd (ground (arith, reconcile_delete-unserved cluster c))
        | inr wanted ↦ elim (Bool-cases (text_eq c.phase deleted)) [
          | inl gone ↦
              let bad = rw (wanted, gone) at h in
              absurd (ground (arith, deleted_unserved c.phase gone))
          | inr live ↦ rw (wanted, live) (ensure-Served cluster c now (rw (wanted, live) at h))
        ]
      ]
