-- ===== src/Dataplane/Proxy/Outgoing.antt =====
-- What the reverse proxy of net/http/httputil does with a request after its director, as that package
-- documents it: it drops the headers that hold for one hop only.
use kubebox.Common.{
  [], ◌∷◌, List, Text, codes, text_eq, contains_text, lookup, split, trim_space, Option, none, some,
  Bool, false, ◌||◌, if◌then◌else◌, ◌≡◌,
}
use kubebox.Dataplane.Routes.{Url}
use kubebox.Dataplane.Proxy.{Header, Request, ReverseProxy}

abbrev pub connection : Text
connection = codes "Connection"

abbrev pub user_agent : Text
user_agent = codes "User-Agent"

-- The headers that the proxy always drops or writes itself.
abbrev pub managed : List Text
managed =
    connection
    ∷ codes "Proxy-Connection"
    ∷ codes "Keep-Alive"
    ∷ codes "Proxy-Authenticate"
    ∷ codes "Proxy-Authorization"
    ∷ codes "Te"
    ∷ codes "Trailer"
    ∷ codes "Transfer-Encoding"
    ∷ codes "Upgrade"
    ∷ codes "X-Forwarded-For"
    ∷ user_agent
    ∷ []

abbrev values_of : Option (List Text) → List Text
values_of none = []
values_of (some vs) = vs

-- Whether one of some tokens, or of some values that hold tokens between commas, names a header.
unfoldable pub token_names : (Text → Text) → List Text → Text → Bool
token_names canonical [] name = false
token_names canonical (token ∷ tokens) name =
    text_eq (canonical (trim_space token)) name || token_names canonical tokens name

unfoldable pub value_names : (Text → Text) → List Text → Text → Bool
value_names canonical [] name = false
value_names canonical (v ∷ vs) name =
    token_names canonical (split b',' v) name || value_names canonical vs name

-- Whether the Connection header names a header.
abbrev pub is_dropped : (Text → Text) → Header → Text → Bool
is_dropped canonical h name = value_names canonical (values_of (lookup connection h)) name

-- The documented behaviour of a reverse proxy. The director of the library sends a request to the
-- target and leaves its headers alone but for the user agent; after the director, a header that the
-- proxy does not manage itself is dropped if the Connection header names it, and kept otherwise.
pub record IsReverseProxy (proxy : ReverseProxy) : Type 0 where
  pub scheme : (t : Url) (r : Request) → (proxy.director t r).url.scheme ≡ t.scheme
  pub host : (t : Url) (r : Request) → (proxy.director t r).url.host ≡ t.host
  pub headers :
      (t : Url) (r : Request) (name : Text)
      → text_eq name user_agent ≡ false
      → lookup name (proxy.director t r).headers ≡ lookup name r.headers
  pub sent_scheme : (r : Request) → (proxy.send r).url.scheme ≡ r.url.scheme
  pub sent_host : (r : Request) → (proxy.send r).url.host ≡ r.url.host
  pub sent_path : (r : Request) → (proxy.send r).url.path ≡ r.url.path
  pub sent_headers :
      (r : Request) (name : Text)
      → contains_text managed name ≡ false
      → lookup name (proxy.send r).headers
        ≡ (if is_dropped proxy.canonical r.headers name then none else lookup name r.headers)
