-- ===== src/Dataplane/RouteClient.antt =====
-- internal/dataplane/route_client.go: the control plane's client of the route interface.
pub mod Delivery
use kubebox.Common.{
  ℕ, [], ◌++◌, Text, codes, is_empty, take, trim_right, trim_space, leb, ltb, ◌==◌, Option, none,
  some, Bool, ◌&&◌, ◌||◌, if◌then◌else◌,
}

-- The interface `RouteRegistrar` over a state `W` and errors `Er`.
pub record RouteRegistrar (W Er : Type 0) : Type 0 where
  pub register : W → Text → Text → W × Option Er
  pub unregister : W → Text → W × Option Er

pub record RouteClient : Type 0 where
  pub base_url : Text
  pub admin_secret : Text

-- A request as it is sent: headers that are not set are empty.
pub record Outgoing : Type 0 where
  pub method : Text
  pub url : Text
  pub content_type : Text
  pub token : Text
  pub body : Option Text

pub record Incoming : Type 0 where
  pub status_code : ℕ
  pub status : Text
  pub body : Text

pub data Sent : Type 0 where
  received : Incoming → Sent
  not_sent : Text → Sent

pub data ClientError : Type 0 where
  not_encoded : ClientError
  no_request : Text → ClientError
  no_answer : Text → ClientError
  -- The status of an answer, and its text or nothing.
  rejected : Text → Text → ClientError

-- `parse_error` is the error of `url.Parse`; `none` stands for an error.
unfoldable pub new_route_client : (Text → Option Text) → Text → Text → Option RouteClient
new_route_client parse_error base_url admin_secret =
    if is_empty base_url || is_empty admin_secret then none else checked (parse_error base_url)
  where
    checked : Option Text → Option RouteClient
    checked (some e) = none
    checked none =
        some (record { base_url = trim_right b'/' base_url; admin_secret = admin_secret })

-- At most 4 KiB of an answer are read.
unfoldable pub decode_error : Incoming → ClientError
decode_error resp = rejected resp.status (trim_space (take 4096 resp.body))

abbrev pub is_success : ℕ → Bool
is_success code = leb 200 code && ltb code 300

unfoldable pub do_answer : {W : Type 0} → W × Sent → W × Option ClientError
unfolding decode_error
do_answer (w, not_sent e) = (w, some (no_answer e))
do_answer (w, received resp) =
    (w, if is_success resp.status_code then none else some (decode_error resp))

-- A route that is missing is removed already.
unfoldable pub unregister_answer : {W : Type 0} → W × Sent → W × Option ClientError
unfolding decode_error
unregister_answer (w, not_sent e) = (w, some (no_answer e))
unregister_answer (w, received resp) = (
  w,
  if resp.status_code == 404
      then none
      else if is_success resp.status_code
      then none
      else some (decode_error resp),
)

abbrev pub routes_path : Text
routes_path = codes "/internal/v1/routes"

abbrev pub instance_path : Text
instance_path = codes "/internal/v1/routes/"

-- `send` is `http.Client.Do` with the reading of the answer, `request_error` the error of
-- `http.NewRequestWithContext` on a URL, `marshal` the JSON of a registration and `path_escape`
-- `url.PathEscape`.
module _ {W : Type 0} (send : W → Outgoing → W × Sent) (request_error : Text → Option Text)
    (marshal : Text → Text → Option Text) (path_escape : Text → Text) where
  unfoldable pub register_request : RouteClient → Text → Outgoing
  register_request c body = record {
    method = codes "POST";
    url = c.base_url ++ routes_path;
    content_type = codes "application/json";
    token = c.admin_secret;
    body = some body;
  }

  unfoldable pub register_checked : RouteClient → W → Text → Option Text → W × Option ClientError
  unfolding do_answer register_request
  register_checked c w body (some e) = (w, some (no_request e))
  register_checked c w body none = do_answer (send w (register_request c body))

  unfoldable pub register_body : RouteClient → W → Option Text → W × Option ClientError
  unfolding register_checked
  register_body c w none = (w, some not_encoded)
  register_body c w (some body) =
      register_checked c w body (request_error (c.base_url ++ routes_path))

  unfoldable pub register : RouteClient → W → Text → Text → W × Option ClientError
  unfolding register_body
  register c w sandbox_id target = register_body c w (marshal sandbox_id target)

  unfoldable pub unregister_request : RouteClient → Text → Outgoing
  unregister_request c sandbox_id = record {
    method = codes "DELETE";
    url = c.base_url ++ (instance_path ++ path_escape sandbox_id);
    content_type = [];
    token = c.admin_secret;
    body = none;
  }

  unfoldable pub unregister_checked : RouteClient → W → Text → Option Text → W × Option ClientError
  unfolding unregister_answer unregister_request
  unregister_checked c w sandbox_id (some e) = (w, some (no_request e))
  unregister_checked c w sandbox_id none =
      unregister_answer (send w (unregister_request c sandbox_id))

  unfoldable pub unregister : RouteClient → W → Text → W × Option ClientError
  unfolding unregister_checked
  unregister c w sandbox_id =
      unregister_checked c w sandbox_id
        (request_error (c.base_url ++ (instance_path ++ path_escape sandbox_id)))

  -- The client as a registrar.
  abbrev pub registrar_of : RouteClient → RouteRegistrar W ClientError
  registrar_of c = record { register = register c; unregister = unregister c }
