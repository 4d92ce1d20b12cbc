-- ===== src/Sandbox/Http.antt =====
-- internal/sandbox/http.go: the store behind HTTP. Writing JSON is left to the encoder: an answer is
-- a status and the value that is written.
pub mod Retries
use kubebox.Common.{
  ℕ, [], ◌∷◌, List, Text, codes, text_eq, is_empty, Map, lookup, trim_prefix, has_byte, Option,
  none, some, Bool, ◌||◌, if◌then◌else◌,
}
use kubebox.Governance.{Time, GovError}
use kubebox.Sandbox.Types.{
  CreateRequest, Sandbox, Store, Error, invalid_request, quota_not_configured, quota_exceeded,
  quota_below_usage, quota_corrupt, allocation_not_found, not_found, resource_gone,
  invalid_transition, idempotency_conflict, idempotency_pending, idempotency_failed, unmapped,
  Result, ok, err, Deps,
}
use kubebox.Sandbox.Create.{create}
use kubebox.Sandbox.Lifecycle.{get, drain}

pub record HttpRequest : Type 0 where
  pub method : Text
  pub path : Text
  pub owner_id : Text
  pub idempotency_key : Text
  pub body : Text

-- What is written as JSON.
pub data Body : Type 0 where
  health_ok : Body
  sandbox : Sandbox → Body
  error_text : Text → Body
  -- The text of a store's error.
  store_error : Error → Body

pub record Response : Type 0 where
  pub status : ℕ
  pub body : Body

pub data Endpoint : Type 0 where
  health_endpoint create_endpoint instance_endpoint : Endpoint

-- The patterns that `NewHandler` registers, for the library's multiplexer.
abbrev pub endpoints : Map Endpoint
endpoints =
    (codes "/healthz", health_endpoint)
    ∷ (codes "/api/v1/sandboxes", create_endpoint)
    ∷ (codes "/api/v1/sandboxes/", instance_endpoint)
    ∷ []

abbrev pub write_error : ℕ → Text → Response
write_error status message = record { status = status; body = error_text message }

unfoldable pub error_status : Error → ℕ
error_status invalid_request = 400
error_status quota_exceeded = 429
error_status idempotency_conflict = 409
error_status idempotency_pending = 409
error_status not_found = 404
error_status _ = 500

unfoldable pub write_store_error : Error → Response
unfolding error_status
write_store_error e = record { status = error_status e; body = store_error e }

-- The answer for a result of the store, with the status of a success.
unfoldable pub write_result : ℕ → Result Sandbox → Response
unfolding write_store_error
write_result status (ok sb) = record { status = status; body = sandbox sb }
write_result status (err e) = write_store_error e

abbrev pub health : Response
health = record { status = 200; body = health_ok }

abbrev method_not_allowed : Response
method_not_allowed = write_error 405 (codes "method not allowed")

-- `parse` decodes the body of a creation.
module _ {G : Type 0} (deps : Deps G) (parse : Text → Option CreateRequest) where
  create_parsed : Option CreateRequest → Store G → Time → HttpRequest → Store G × Response
  unfolding write_result
  create_parsed none s now r = (s, write_error 400 (codes "invalid JSON"))
  create_parsed (some req) s now r =
      let (s', result) = create deps s now r.owner_id r.idempotency_key req in
      (s', write_result 201 result)

  unfoldable pub create_http : Store G → Time → HttpRequest → Store G × Response
  unfolding create_parsed
  create_http s now r =
      if text_eq r.method (codes "POST")
      then create_parsed (parse r.body) s now r
      else (s, method_not_allowed)

  unfoldable pub instance_method : Store G → Time → HttpRequest → Text → Store G × Response
  unfolding write_result
  instance_method s now r id =
      if text_eq r.method (codes "GET")
      then (s, write_result 200 (get s id))
      else if text_eq r.method (codes "DELETE")
      then (let (s', result) = drain deps s id now in (s', write_result 202 result))
      else (s, method_not_allowed)

  unfoldable pub instance_http : Store G → Time → HttpRequest → Store G × Response
  unfolding instance_method
  instance_http s now r =
      let id = trim_prefix r.path (codes "/api/v1/sandboxes/") in
      if is_empty id || has_byte b'/' id
      then (s, write_error 404 (codes "sandbox not found"))
      else instance_method s now r id
