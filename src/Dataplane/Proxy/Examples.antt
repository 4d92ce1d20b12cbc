-- ===== src/Dataplane/Proxy/Examples.antt =====
-- A small reverse proxy, which behaves as the library's does.
use kubebox.Common.{
  [], ◌∷◌, Text, text_eq, text_eq_iff, lookup, none, Bool, Bool-cases, if◌then◌else◌, ◌≡◌, refl,
  inl, inr, arith,
}
use kubebox.Dataplane.Proxy.{Header, ReverseProxy}
use kubebox.Dataplane.Proxy.Outgoing.{is_dropped, IsReverseProxy}

-- The headers without those that a test finds.
unfoldable pub without : (Text → Bool) → Header → Header
without f [] = []
without f ((name, vs) ∷ rest) =
    let kept = without f rest in if f name then kept else (name, vs) ∷ kept

lookup-without :
    (f : Text → Bool) (name : Text) (h : Header)
    → lookup name (without f h) ≡ (if f name then none else lookup name h)
unfolding without lookup
lookup-without f name [] = ground arith
lookup-without f name ((k, vs) ∷ rest) = elim (Bool-cases (text_eq k name)) [
  | inl same ↦
      rw ((text_eq_iff k name).0 same)
        (ground (arith, lookup-without f name rest, text_eq_iff name name))
  | inr other ↦ ground (arith, lookup-without f name rest, other)
]

abbrev pub plain_proxy : ReverseProxy
plain_proxy = record {
  director =
      λ target r. record r { url = record r.url { scheme = target.scheme; host = target.host } };
  send = λ r. record r { headers = without (is_dropped (λ name. name) r.headers) r.headers };
  canonical = λ name. name;
}

pub plain_proxy-IsReverseProxy : IsReverseProxy plain_proxy
plain_proxy-IsReverseProxy = record {
  scheme = λ t r. refl;
  host = λ t r. refl;
  headers = λ t r name h. refl;
  sent_scheme = λ r. refl;
  sent_host = λ r. refl;
  sent_path = λ r. refl;
  sent_headers = λ r name h. lookup-without (is_dropped (λ n. n) r.headers) name r.headers;
}
