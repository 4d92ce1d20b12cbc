-- ===== src/Commands/EnvdProxy/Probes.antt =====
-- Why a route of the edge goes away.
use kubebox.Common.{
  ℕ, ◌≤◌, [], ◌∷◌, List, Text, text_eq, Map, lookup, Option, none, some, ◌≡◌, true, Bool-cases, ◌⊎◌,
  inl, inr, arith,
}
use kubebox.Governance.{Time}
use kubebox.Dataplane.Token.{Codec, TokenIssuer}
use kubebox.Dataplane.Routes.{Url, get, new_route_registry}
use kubebox.Dataplane.Proxy.{Request, ReverseProxy}
use kubebox.Dataplane.Admin.{RouteRequest, new_admin}
use kubebox.Dataplane.Admin.Removal.{IsRemoval, serve_http-IsRemoval}
use kubebox.Dataplane.Health.{HttpClient, probe}
use kubebox.Dataplane.Health.Counting.{
  streak, IsCounted, new-IsCounted, check_route-IsCounted, check_route-third,
}
use kubebox.Commands.EnvdProxy.{
  Edge, Event, request, ticked, probed, admin_of, monitor_of, admin_request, is_internal,
  administer, start_pass, probe_pending, dispatch, edge_step, edge_run, edge_of,
}

-- The number of failed probes of an id in a row, after a probe of the snapshot's entry for `j`.
abbrev pub streak_at : Option Url → HttpClient → Text → Text → ℕ → ℕ
streak_at none client j id n = n
streak_at (some target) client j id n = streak n (text_eq j id) (probe client target)

abbrev pub streak_after : Edge → Event → Text → ℕ → ℕ
streak_after e (probed client j) id n = streak_at (lookup j e.pending) client j id n
streak_after e _ id n = n

pending-IsCounted :
    (e : Edge) (o : Option Url) (client : HttpClient) (j id : Text) (n : ℕ)
    → IsCounted (monitor_of e) id n
    → IsCounted (monitor_of (probe_pending o client j e)) id (streak_at o client j id n)
unfolding probe_pending
pending-IsCounted e none client j id n c = c
pending-IsCounted e (some t) client j id n c =
    let m = check_route-IsCounted (monitor_of e) j id (probe client t) n c in
    record {
      threshold = c.threshold;
      count = m.count;
      counted = m.counted;
      below = m.below;
      probed = m.probed;
    }

pending-third :
    (e : Edge) (o : Option Url) (client : HttpClient) (j id : Text) (n : ℕ) (u : Url)
    → IsCounted (monitor_of e) id n
    → get e.routes id ≡ some u
    → get (probe_pending o client j e).routes id ≡ none
    → 3 ≤ streak_at o client j id n
unfolding probe_pending
pending-third e none client j id n u c there gone = absurd cc
pending-third e (some t) client j id n u c there gone =
    check_route-third (monitor_of e) j id (probe client t) n u c there gone

start_pass-IsCounted :
    (e : Edge) (p : Map Url) (id : Text) (n : ℕ)
    → IsCounted (monitor_of e) id n
    → IsCounted (monitor_of (start_pass p e)) id n
unfolding start_pass
start_pass-IsCounted e [] id n c = c
start_pass-IsCounted e (x ∷ rest) id n c = c

module _ (codec : Codec) (proxy : ReverseProxy) (unmarshal : Text → Option RouteRequest)
    (parse_url : Text → Option Url) where
  abbrev step_of : Edge → Event → Edge
  step_of e x = (edge_step codec proxy unmarshal parse_url e x).0

  abbrev run_of : Edge → List Event → Edge
  run_of = edge_run codec proxy unmarshal parse_url

  -- The failed probes of an id in a row, at the end of a run.
  pub run_streak : Edge → List Event → Text → ℕ → ℕ
  run_streak e [] id n = n
  run_streak e (x ∷ rest) id n = run_streak (step_of e x) rest id (streak_after e x id n)

  -- An event that is a removal of the route of an id through the admin interface.
  abbrev pub Removing : Edge → Event → Text → Type 0
  Removing e (request now r body) id =
      (is_internal r.url.path ≡ true) × IsRemoval (admin_of e) (admin_request r body) id
  Removing e _ id = ⊥

  dispatch-IsCounted :
      (e : Edge) (now : Time) (r : Request) (body : Option Text) (id : Text) (n : ℕ)
      → IsCounted (monitor_of e) id n
      → IsCounted (monitor_of (dispatch codec proxy unmarshal parse_url e now r body).0) id n
  unfolding dispatch administer
  dispatch-IsCounted e now r body id n c = record {
    threshold = ground (arith, c.threshold);
    count = c.count;
    counted = ground (arith, c.counted);
    below = c.below;
    probed = c.probed;
  }

  step-IsCounted :
      (e : Edge) (x : Event) (id : Text) (n : ℕ)
      → IsCounted (monitor_of e) id n
      → IsCounted (monitor_of (step_of e x)) id (streak_after e x id n)
  unfolding edge_step
  step-IsCounted e (request now r body) id n c = dispatch-IsCounted e now r body id n c
  step-IsCounted e ticked id n c = start_pass-IsCounted e e.pending id n c
  step-IsCounted e (probed client j) id n c =
      pending-IsCounted e (lookup j e.pending) client j id n c

  run-IsCounted :
      (e : Edge) (events : List Event) (id : Text) (n : ℕ)
      → IsCounted (monitor_of e) id n
      → IsCounted (monitor_of (run_of e events)) id (run_streak e events id n)
  unfolding edge_run run_streak
  run-IsCounted e [] id n c = c
  run-IsCounted e (x ∷ rest) id n c =
      run-IsCounted (step_of e x) rest id (streak_after e x id n) (step-IsCounted e x id n c)

  dispatch-lost :
      (e : Edge) (now : Time) (r : Request) (body : Option Text) (id : Text) (u : Url)
      → get e.routes id ≡ some u
      → get (dispatch codec proxy unmarshal parse_url e now r body).0.routes id ≡ none
      → Removing e (request now r body) id
  unfolding dispatch administer new_admin
  dispatch-lost e now r body id u there gone = elim (Bool-cases (is_internal r.url.path)) [
    | inl inside ↦ (
      inside,
      serve_http-IsRemoval unmarshal parse_url (admin_of e) (admin_request r body) id u there
          (rw inside at gone),
    )
    | inr outside ↦ absurd (ground (arith, outside, there, gone))
  ]

  step-lost :
      (e : Edge) (x : Event) (id : Text) (n : ℕ) (u : Url)
      → IsCounted (monitor_of e) id n
      → get e.routes id ≡ some u
      → get (step_of e x).routes id ≡ none
      → Removing e x id ⊎ (3 ≤ streak_after e x id n)
  unfolding edge_step start_pass
  step-lost e (request now r body) id n u c there gone =
      inl (dispatch-lost e now r body id u there gone)
  step-lost e ticked id n u c there gone = absurd (ground (arith, there, gone))
  step-lost e (probed client j) id n u c there gone =
      inr (pending-third e (lookup j e.pending) client j id n u c there gone)

  -- After any events of a new edge, in any order, the next event takes a route away only where it is
  -- a request that removes that route with the admin secret, or a probe with which three probes of
  -- that id in a row have failed.
  pub route_lost :
      (issuer : TokenIssuer) (secret : Text) (events : List Event) (x : Event) (id : Text) (u : Url)
      → let e0 = edge_of issuer secret in
        let e = edge_run codec proxy unmarshal parse_url e0 events in
        get e.routes id ≡ some u
        → get (edge_step codec proxy unmarshal parse_url e x).0.routes id ≡ none
        → Removing e x id ⊎ (3 ≤ streak_after e x id (run_streak e0 events id 0))
  unfolding edge_of
  route_lost issuer secret events x id u there gone =
      let e0 = edge_of issuer secret in
      step-lost (run_of e0 events) x id (run_streak e0 events id 0) u
        (run-IsCounted e0 events id 0 (new-IsCounted new_route_registry id)) there gone
