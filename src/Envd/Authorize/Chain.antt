-- ===== src/Envd/Authorize/Chain.antt =====
-- The edge and the gateway behind it: what the edge forwards with a granted scope, the gateway of
-- that sandbox lets through.
use kubebox.Common.{
  [], ◌∷◌, ◌++◌, List, Text, text_eq, text_eq_iff, text_eq_refl, is_empty, contains_text, split,
  split-append, split_no_sep, has_byte, join, trim_space, none, Bool, true, false, ◌||◌, ◌&&◌,
  starts_with, ◌≡◌, refl, arith, if◌then◌else◌, codes,
}
use kubebox.Governance.{Time}
use kubebox.Dataplane.Token.{Codec, TokenIssuer}
use kubebox.Dataplane.Routes.{RouteRegistry}
use kubebox.Dataplane.Proxy.{Request, ReverseProxy, sandbox_id_header, scope_header, scope_for}
use kubebox.Dataplane.Proxy.Outgoing.{is_dropped}
use kubebox.Dataplane.Proxy.Identity.{IsForwarded}
use kubebox.Envd.Authorize.{grants, any_grants, gateway_authorize, gateway_identity}

-- A scope that survives the trip through the header: no comma in it, no space around it.
pub record IsPlain (s : Text) : Type 0 where
  pub no_comma : has_byte b',' s ≡ false
  pub trimmed : trim_space s ≡ s

grants-append : (xs ys : List Text) (s : Text) → grants (xs ++ ys) s ≡ (grants xs s || grants ys s)
unfolding grants
grants-append [] ys s = refl
grants-append (x ∷ xs) ys s = ground (arith, grants-append xs ys s)

grants_self : (x s : Text) → IsPlain s → x ≡ s → grants (split b',' x) s ≡ true
unfolding grants
grants_self x s p e = rw (e, split_no_sep b',' s p.no_comma, p.trimmed, text_eq_refl s)

-- A scope of the list is found again in the joined header.
grants-join :
    (scopes : List Text) (s : Text)
    → IsPlain s
    → contains_text scopes s ≡ true
    → grants (split b',' (join (b',' ∷ []) scopes)) s ≡ true
unfolding join contains_text
grants-join [] s p h = cc
grants-join (x ∷ []) s p h = grants_self x s p (ground (arith, text_eq_iff x s))
grants-join (x ∷ y ∷ rest) s p h =
    rw (split-append b',' x (join (b',' ∷ []) (y ∷ rest)), grants-append)
      (ground (arith, text_eq_iff x s, grants_self x s p, grants-join (y ∷ rest) s p))

if_IsPlain : (b : Bool) (x y : Text) → IsPlain x → IsPlain y → IsPlain (if b then x else y)
if_IsPlain true x y p q = p
if_IsPlain false x y p q = q

scope_for-IsPlain : (method path : Text) → IsPlain (scope_for method path)
unfolding scope_for trim_space has_byte
scope_for-IsPlain method path =
    if_IsPlain
      (starts_with path (codes "/commands")
        || starts_with path (codes "/process")
        || starts_with path (codes "/pty"))
      (codes "commands") _ (record { no_comma = refl; trimmed = refl })
      (if_IsPlain (starts_with path (codes "/files")) (codes "files") _
        (record { no_comma = refl; trimmed = refl })
        (if_IsPlain (starts_with path (codes "/network")) (codes "network") _
          (record { no_comma = refl; trimmed = refl })
          (if_IsPlain (text_eq method (codes "GET") && text_eq path (codes "/healthz"))
            (codes "health") (codes "sandbox") (record { no_comma = refl; trimmed = refl })
            (record { no_comma = refl; trimmed = refl }))))

gateway_accepts :
    (id scope joined : Text)
    → trim_space id ≡ id
    → is_empty id ≡ false
    → grants (split b',' joined) scope ≡ true
    → gateway_identity (id ∷ []) id (joined ∷ []) scope ≡ none
unfolding gateway_identity any_grants
gateway_accepts id scope joined t e g = rw (t, e, text_eq_refl id, g) refl

-- The gateway of the sandbox that a forwarded request names lets it through for the scope of its
-- path, if the sandbox id is not empty and has no space around it and the client's Connection header
-- names neither of the two identity headers.
pub forwarded_authorized :
    (codec : Codec) (proxy : ReverseProxy) (i : TokenIssuer) (routes : RouteRegistry) (now : Time)
    (r out : Request) (f : IsForwarded codec proxy i routes now r out)
    → trim_space f.sandbox_id ≡ f.sandbox_id
    → is_empty f.sandbox_id ≡ false
    → is_dropped proxy.canonical r.headers sandbox_id_header ≡ false
    → is_dropped proxy.canonical r.headers scope_header ≡ false
    → gateway_authorize f.sandbox_id out.headers (scope_for r.method f.backend_path) ≡ none
unfolding gateway_authorize
forwarded_authorized codec proxy i routes now r out f t e named scoped =
    rw (f.identity, named, f.granted, scoped)
      (gateway_accepts f.sandbox_id (scope_for r.method f.backend_path) _ t e (
        grants-join f.envelope.scopes (scope_for r.method f.backend_path)
          (scope_for-IsPlain r.method f.backend_path) f.genuine.granted))
