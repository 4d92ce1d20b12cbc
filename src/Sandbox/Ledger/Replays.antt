-- ===== src/Sandbox/Ledger/Replays.antt =====
-- What a client gets that sends a creation again after other calls.
use kubebox.Common.{◌≡◌, ◌≢◌, ap, ◌⊎◌, Text, is_empty, false, lookup, some, arith}
use kubebox.Governance.{Time}
use kubebox.Sandbox.Types.{
  Store, Deps, Sandbox, CreateRequest, ok, err, idempotency_conflict, clone_sandbox,
}
use kubebox.Sandbox.Create.{with_defaults, request_hash, create, create_known}
use kubebox.Sandbox.Idempotency.{
  create-Done, valid_of_ok, create_is_known, replay_other, key_of_tenant, still_valid,
}
use kubebox.Sandbox.Ledger.Lineage.{Becomes}
use kubebox.Sandbox.Ledger.Records.{Calls-keeps}
use kubebox.Sandbox.Mirror.Histories.{Calls}

module _ {G : Type 0} (deps : Deps G) where
  -- The answer to a creation that is sent again: the sandbox as the store has it now, under some
  -- id, which is the one that the creation made, in a phase that moves of the state machine lead
  -- to.
  pub record IsReplayed (u : Store G) (later : Time) (actor key : Text) (req : CreateRequest)
      (sb : Sandbox) : Type 0 where
    pub id : Text
    pub present : Sandbox
    pub stored : lookup id u.sandboxes ≡ some present
    pub becomes : Becomes sb (clone_sandbox present)
    pub answer : create deps u later actor key req ≡ (u, ok (clone_sandbox present))

  -- After a creation that succeeds and any further calls, another owner, or the same owner with a
  -- request of another fingerprint, is refused under that tenant's key, and changes nothing in the
  -- store; with a durable boundary as without.
  pub create_conflict :
      (s u : Store G) (now later : Time) (actor other key : Text) (req req' : CreateRequest)
      (sb : Sandbox)
      → (create deps s now actor key req).1 ≡ ok sb
      → Calls deps (create deps s now actor key req).0 u
      → req'.tenant_id ≡ req.tenant_id
      → is_empty other ≡ false
      → is_empty req'.template ≡ false
      → (request_hash deps (with_defaults req) ≢ request_hash deps (with_defaults req'))
        ⊎ (actor ≢ other)
      → create deps u later other key req' ≡ (u, err idempotency_conflict)
  unfolding create_known
  create_conflict s u now later actor other key req req' sb made calls t o p d =
      let done = create-Done deps s now actor key req sb made in
      let found =
        rw (← key_of_tenant deps req req' key t) at (Calls-keeps deps _ done.prior calls done.at) in
      let differs =
        replay_other deps u done.prior (request_hash deps (with_defaults req')) other
          (ground (arith, done.same_hash, done.same_owner, d)) in
      let valid =
        still_valid deps actor other key req req' t o p
          (valid_of_ok deps s now actor key req sb made) in
      rw (create_is_known deps u later other key req' valid, found) (ap (λ r. (u, r)) differs)
