-- ===== src/Sandbox/Http/Retries.antt =====
-- What a client may send again.
use kubebox.Common.{◌≡◌, Text, lookup, Option, some}
use kubebox.Governance.{Time}
use kubebox.Sandbox.Types.{CreateRequest, Sandbox, Store, Deps, clone_sandbox}
use kubebox.Sandbox.Ledger.Lineage.{Becomes}
use kubebox.Sandbox.Http.{HttpRequest, Response, sandbox, create_http}

module _ {G : Type 0} (deps : Deps G) (parse : Text → Option CreateRequest) where
  -- The answers to a creation and to the same request after further calls.
  pub record IsAnswered (u : Store G) (later : Time) (r : HttpRequest) (first : Response)
      : Type 0 where
    pub made : Sandbox
    pub answered : first ≡ record { status = 201; body = sandbox made }
    pub id : Text
    pub present : Sandbox
    pub stored : lookup id u.sandboxes ≡ some present
    pub becomes : Becomes made (clone_sandbox present)
    pub again :
        create_http deps parse u later r
        ≡ (u, record { status = 201; body = sandbox (clone_sandbox present) })
