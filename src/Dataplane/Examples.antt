-- ===== src/Dataplane/Examples.antt =====
-- Runs of the edge, and of the gateway behind it, on small inputs, with a codec that is simple
-- enough to compute.
use kubebox.Common.{
  ℕ, zero, suc, ◌+◌, ◌-◌, [], ◌∷◌, ◌++◌, List, Text, codes, text_eq, text_eq_iff, ◌≢◌, length,
  lookup, split, cut, trim_prefix, trim_space, has_byte, starts_with, contains_text, ltb, ltb_ℤ, ℤ,
  pos, negsuc, ◌+ℤ◌, Option, none, some, true, false, ◌&&◌, if◌then◌else◌, ◌≡◌, refl, inr, ap,
  arith,
}
use kubebox.Dataplane.Token.{
  Codec, CredentialEnvelope, TokenPayload, TokenIssuer, ok, err, rejected, payload_of, sign, issue,
  validate,
}
use kubebox.Dataplane.Token.Laws.{IsCodec, IsGenuine, validate-issue, validate-IsGenuine}
use kubebox.Dataplane.Routes.{Url, RouteRegistry, get, set}
use kubebox.Dataplane.Proxy.Outgoing.{is_dropped, value_names}
use kubebox.Dataplane.Proxy.Examples.{plain_proxy, plain_proxy-IsReverseProxy}
use kubebox.Dataplane.Proxy.{
  sandbox_id_header, scope_header, Request, forward, authorization, handle, parse_path, direct,
  scope_for, header_get, bearer,
}
use kubebox.Dataplane.Proxy.Identity.{IsForwarded, handle-IsForwarded}
use kubebox.Dataplane.Admin.{
  Admin, AdminRequest, RouteRequest, new_admin, is_authorized, handle_register, serve_http,
}
use kubebox.Dataplane.Admin.Registration.{IsRegistered, handle_register-IsRegistered}
use kubebox.Dataplane.Admin.Access.{IsSilent, serve_http-denied}
use kubebox.Envd.Authorize.{gateway_authorize}
use kubebox.Envd.Authorize.Chain.{forwarded_authorized}
use kubebox.Dataplane.Health.{
  HealthMonitor, HttpClient, tick, start, new_health_monitor, probe, check_once,
}
use kubebox.Dataplane.Health.Pass.{Distinct}
use kubebox.Dataplane.Health.Ticks.{ticks, AllDown, start-evicts}
use kubebox.Dataplane.Health.Eviction.{check_once-keeps_healthy}

put_text : Text → Text → Text
put_text [] rest = 0 ∷ rest
put_text (c ∷ s) rest = suc c ∷ put_text s rest

read_text : Text → Text × Text
read_text [] = ([], [])
read_text (zero ∷ rest) = ([], rest)
read_text (suc c ∷ rest) = let (s, rest') = read_text rest in (c ∷ s, rest')

read-put : (s rest : Text) → read_text (put_text s rest) ≡ (s, rest)
unfolding put_text read_text
read-put [] rest = refl
read-put (c ∷ s) rest = rw (read-put s rest) refl

put_texts : List Text → Text
unfolding put_text
put_texts [] = []
put_texts (s ∷ ss) = put_text s (put_texts ss)

read_texts : ℕ → Text → List Text
unfolding read_text
read_texts zero i = []
read_texts (suc n) i = let (s, rest) = read_text i in s ∷ read_texts n rest

read_texts-put : (ss : List Text) → read_texts (length ss) (put_texts ss) ≡ ss
unfolding read_texts put_texts
read_texts-put [] = refl
read_texts-put (s ∷ ss) = rw (read-put s (put_texts ss), read_texts-put ss) refl

put_int : ℤ → Text → Text
put_int (pos n) rest = 0 ∷ n ∷ rest
put_int (negsuc n) rest = 1 ∷ n ∷ rest

read_int : ℕ → ℕ → ℤ
read_int zero n = pos n
read_int (suc sign) n = negsuc n

put_payload : TokenPayload → Text
unfolding put_int put_text put_texts
put_payload p = put_int p.issued_at (
    put_int p.envelope.expires_at
      (length p.envelope.scopes ∷ put_text p.envelope.sandbox_id (put_texts p.envelope.scopes)))

read_payload : Text → Option TokenPayload
unfolding read_int read_text read_texts
read_payload (s ∷ i ∷ t ∷ e ∷ n ∷ rest) =
    let (id, scopes) = read_text rest in
    some (record {
      envelope = record {
        sandbox_id = id;
        scopes = read_texts n scopes;
        expires_at = read_int t e;
      };
      issued_at = read_int s i;
    })
read_payload _ = none

read-put_payload :
    (id : Text) (scopes : List Text) (e i : ℤ)
    → let p : TokenPayload = record {
      envelope = record { sandbox_id = id; scopes = scopes; expires_at = e };
      issued_at = i;
    } in
      read_payload (put_payload p) ≡ some p
unfolding put_payload read_payload
read-put_payload id scopes (pos e) (pos i) =
    rw (read-put id (put_texts scopes), read_texts-put scopes) refl
read-put_payload id scopes (pos e) (negsuc i) =
    rw (read-put id (put_texts scopes), read_texts-put scopes) refl
read-put_payload id scopes (negsuc e) (pos i) =
    rw (read-put id (put_texts scopes), read_texts-put scopes) refl
read-put_payload id scopes (negsuc e) (negsuc i) =
    rw (read-put id (put_texts scopes), read_texts-put scopes) refl

-- Every byte moves past the dot.
shift_up : Text → Text
shift_up [] = []
shift_up (c ∷ s) = (c + 47) ∷ shift_up s

shift_down : Text → Text
shift_down [] = []
shift_down (c ∷ s) = (c - 47) ∷ shift_down s

shift-shift : (s : Text) → shift_down (shift_up s) ≡ s
unfolding shift_up shift_down
shift-shift [] = refl
shift-shift (c ∷ s) = let back : c + 47 - 47 ≡ c = omega arith in rw (back, shift-shift s) refl

no_dot_shift : (s : Text) → has_byte 46 (shift_up s) ≡ false
unfolding shift_up has_byte
no_dot_shift [] = refl
no_dot_shift (c ∷ s) = ground (arith, no_dot_shift s)

abbrev plain_codec : Codec
plain_codec = record {
  hmac = λ secret message. secret ++ message;
  encode = shift_up;
  decode = λ s. some (shift_down s);
  marshal = put_payload;
  unmarshal = read_payload;
  unix = λ t. t;
}

plain_codec-IsCodec : IsCodec plain_codec
plain_codec-IsCodec = record { decode-encode = λ s. ap some (shift-shift s); no_dot = no_dot_shift }

brought_back : (p : TokenPayload) → plain_codec.unmarshal (plain_codec.marshal p) ≡ some p
brought_back p =
    read-put_payload p.envelope.sandbox_id p.envelope.scopes p.envelope.expires_at p.issued_at

abbrev issuer : TokenIssuer
issuer = record { secret = codes "0123456789abcdef0123456789abcdef" }

abbrev sandbox_one : Text
sandbox_one = codes "s1"

abbrev envelope_one : CredentialEnvelope
envelope_one = record {
  sandbox_id = sandbox_one;
  scopes = codes "files" ∷ codes "pty" ∷ [];
  expires_at = pos 60;
}

abbrev issued_token : Text
issued_token =
    sign plain_codec issuer
      (shift_up (put_payload (record { envelope = envelope_one; issued_at = pos 0 })))

issued :
    issue plain_codec issuer (pos 0) sandbox_one (codes "files" ∷ codes "pty" ∷ []) (pos 60)
    ≡ ok issued_token
unfolding issue payload_of ◌+ℤ◌
issued = refl

validate-issue_example :
    validate plain_codec issuer (pos 30) issued_token sandbox_one (codes "files") ≡ (
      if text_eq sandbox_one sandbox_one
        && ltb_ℤ (pos 30) (pos 0 +ℤ pos 60)
        && contains_text (codes "files" ∷ codes "pty" ∷ []) (codes "files")
      then ok (record {
        sandbox_id = sandbox_one;
        scopes = codes "files" ∷ codes "pty" ∷ [];
        expires_at = pos 0 +ℤ pos 60;
      })
      else err rejected)
validate-issue_example =
    validate-issue plain_codec issuer (pos 0) (pos 30) sandbox_one sandbox_one (codes "files")
      issued_token (codes "files" ∷ codes "pty" ∷ []) (pos 60) plain_codec-IsCodec
      (brought_back
        (payload_of plain_codec (pos 0) sandbox_one (codes "files" ∷ codes "pty" ∷ []) (pos 60)))
      issued

accepted :
    validate plain_codec issuer (pos 30) issued_token sandbox_one (codes "files") ≡ ok envelope_one
unfolding validate sign split text_eq contains_text shift_up shift_down put_payload read_payload
accepted = refl

validate-IsGenuine_example :
    IsGenuine plain_codec issuer (pos 30) issued_token sandbox_one (codes "files") envelope_one
validate-IsGenuine_example =
    validate-IsGenuine plain_codec issuer (pos 30) issued_token sandbox_one (codes "files")
      envelope_one accepted

abbrev backend : Url
backend = record {
  scheme = codes "http";
  user = none;
  host = codes "h";
  path = codes "/e";
  raw_query = [];
  fragment = [];
}

abbrev routes_one : RouteRegistry
routes_one = (sandbox_one, backend) ∷ []

-- The client claims another sandbox.
abbrev request_one : Request
request_one = record {
  method = codes "GET";
  url = record {
    scheme = [];
    user = none;
    host = [];
    path = codes "/v1/sandboxes/s1/files/a";
    raw_query = [];
    fragment = [];
  };
  headers =
      (authorization, (codes "Bearer " ++ issued_token) ∷ [])
      ∷ (codes "X-Kubebox-Sandbox-Id", codes "s2" ∷ [])
      ∷ [];
}

abbrev sent_one : Request
sent_one =
    plain_proxy.send
      (direct plain_proxy.director backend sandbox_one (codes "/files/a") envelope_one request_one)

sent : handle plain_codec plain_proxy issuer routes_one (pos 30) request_one ≡ forward sent_one
unfolding handle validate sign split text_eq contains_text shift_up shift_down put_payload
    read_payload parse_path starts_with cut trim_prefix get lookup bearer trim_space header_get
    scope_for
sent = refl

handle-IsForwarded_example :
    IsForwarded plain_codec plain_proxy issuer routes_one (pos 30) request_one sent_one
handle-IsForwarded_example =
    handle-IsForwarded plain_codec plain_proxy issuer routes_one (pos 30) request_one sent_one
      plain_proxy-IsReverseProxy sent

abbrev monitor : HealthMonitor
monitor = new_health_monitor routes_one

-- No backend answers.
abbrev dead : HttpClient
dead = record { url_text = λ u. u.host; get_status = λ u. none }

abbrev three_ticks : List HttpClient
three_ticks = dead ∷ dead ∷ dead ∷ []

distinct : Distinct monitor.routes
unfolding new_health_monitor lookup
distinct = (refl, tt)

all_down : AllDown backend three_ticks
unfolding probe
all_down = (refl, (refl, (refl, tt)))

start-evicts_example :
    get (start (ticks three_ticks (tick dead ∷ [])) monitor).routes sandbox_one
    ≡ (if ltb (length three_ticks) 3 then some backend else none)
unfolding new_health_monitor get lookup text_eq
start-evicts_example =
    start-evicts three_ticks (tick dead ∷ []) monitor sandbox_one backend 3 distinct refl refl refl
      (omega arith) (omega arith) all_down

-- Every backend answers 200.
abbrev well : HttpClient
well = record { url_text = λ u. u.host; get_status = λ u. some 200 }

check_once-keeps_healthy_example :
    get (check_once well monitor).0.routes sandbox_one ≡ get monitor.routes sandbox_one
unfolding new_health_monitor probe
check_once-keeps_healthy_example = check_once-keeps_healthy well monitor sandbox_one (inr refl, tt)

forwarded : IsForwarded plain_codec plain_proxy issuer routes_one (pos 30) request_one sent_one
forwarded =
    handle-IsForwarded plain_codec plain_proxy issuer routes_one (pos 30) request_one sent_one
      plain_proxy-IsReverseProxy sent

forwarded_id : forwarded.sandbox_id ≡ sandbox_one
unfolding parse_path starts_with trim_prefix cut
forwarded_id = let p = forwarded.parsed in cc

trimmed_id : trim_space forwarded.sandbox_id ≡ forwarded.sandbox_id
unfolding trim_space
trimmed_id = rw forwarded_id refl

not_dropped :
    (is_dropped plain_proxy.canonical request_one.headers sandbox_id_header ≡ false)
    × (is_dropped plain_proxy.canonical request_one.headers scope_header ≡ false)
unfolding lookup text_eq value_names
not_dropped = (refl, refl)

forwarded_authorized_example :
    gateway_authorize forwarded.sandbox_id sent_one.headers
      (scope_for request_one.method forwarded.backend_path)
    ≡ none
forwarded_authorized_example =
    forwarded_authorized plain_codec plain_proxy issuer routes_one (pos 30) request_one sent_one
      forwarded trimmed_id (rw forwarded_id refl) not_dropped.0 not_dropped.1

abbrev admin : Admin
admin = new_admin routes_one (codes "secret")

abbrev no_token : AdminRequest
no_token = record {
  method = codes "DELETE";
  path = codes "/internal/v1/routes/s1";
  token = codes "guess";
  body = none;
}

wrong_token : no_token.token ≢ admin.admin_secret
unfolding text_eq new_admin
wrong_token h = let same : false ≡ true = (text_eq_iff _ _).1 h in cc

serve_http-denied_example :
    ((serve_http (λ t. none) (λ t. none) admin no_token).0 ≡ admin)
    × IsSilent (serve_http (λ t. none) (λ t. none) admin no_token).1.answer
serve_http-denied_example =
    serve_http-denied (λ t. none) (λ t. none) admin no_token (inr wrong_token)

abbrev registration : AdminRequest
registration = record {
  method = codes "POST";
  path = codes "/internal/v1/routes";
  token = codes "secret";
  body = some (codes "body");
}

abbrev decode_one : Text → Option RouteRequest
decode_one body = some (record { sandbox_id = codes "s2"; target = codes "u" })

registered : (handle_register decode_one (λ t. some backend) admin registration).1.status ≡ 201
unfolding handle_register is_authorized new_admin text_eq set
registered = refl

handle_register-IsRegistered_example :
    (is_authorized admin registration ≡ true)
    × IsRegistered decode_one
        (λ t. some backend)
        registration
        admin
        (handle_register decode_one (λ t. some backend) admin registration).0
handle_register-IsRegistered_example =
    handle_register-IsRegistered decode_one (λ t. some backend) admin registration registered
