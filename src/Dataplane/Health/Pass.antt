-- ===== src/Dataplane/Health/Pass.antt =====
-- A pass of the monitor, and what it does to one route whose backend does not answer.
use kubebox.Common.{
  ℕ, [], ◌∷◌, Text, text_eq, text_eq_iff, Map, lookup, delete, lookup-delete, ltb, pos, ◌+◌, ◌^◌,
  ◌<◌, ◌≡◌, refl, sym, subst, ◌∙◌, ◌⊎◌, Option, none, some, Bool, true, false, if◌then◌else◌, arith,
  Bool-cases, Option-cases, inl, inr,
}
use kubebox.Dataplane.Routes.{Url, RouteRegistry, get, list, unregister}
use kubebox.Dataplane.Health.{
  HttpClient, HealthMonitor, probe, failures_of, check_route, check_routes, check_once,
}
use kubebox.Dataplane.Health.Eviction.{
  count_of, check_route-other, check_route_below, check_route_at,
}
use kubebox.Dataplane.Health.Counting.{other_failed}

-- A map that holds every key once, as Go's do.
abbrev pub Distinct : Map Url → Type 0
Distinct [] = Unit {0}
Distinct ((k, u) ∷ m) = (lookup k m ≡ none) × Distinct m

delete-Distinct : (m : Map Url) (j : Text) → Distinct m → Distinct (delete j m)
unfolding delete
delete-Distinct [] j d = tt
delete-Distinct ((k, u) ∷ m) j d = elim (Bool-cases (text_eq k j)) [
  | inl same ↦ rw same (delete-Distinct m j d.1)
  | inr other ↦
      rw other (ground (arith, lookup-delete j k m, text_eq_iff j k, d.0), delete-Distinct m j d.1)
]

unregister-Distinct : (r : RouteRegistry) (j : Text) → Distinct r → Distinct (unregister r j).0
unfolding unregister
unregister-Distinct r j d = elim (Option-cases (lookup j r)) [
  | inl missing ↦ rw missing d
  | inr (u, there) ↦ rw there (delete-Distinct r j d)
]

failed_routes :
    (m : HealthMonitor) (j : Text)
    → let routes' = (check_route m j false).0.routes in
      (routes' ≡ m.routes) ⊎ (routes' ≡ (unregister m.routes j).0)
unfolding check_route
failed_routes m j = ground arith

check_route-Distinct :
    (m : HealthMonitor) (j : Text) (healthy : Bool)
    → Distinct m.routes
    → Distinct (check_route m j healthy).0.routes
unfolding check_route
check_route-Distinct m j true d = d
check_route-Distinct m j false d = elim (failed_routes m j) [
  | inl same ↦ subst Distinct (sym same) d
  | inr gone ↦ subst Distinct (sym gone) (unregister-Distinct m.routes j d)
]

-- What a monitor holds of an id: its route, and the count of its failures, under a threshold.
pub record IsAt (m : HealthMonitor) (id : Text) (o : Option Url) (t n : ℕ) : Type 0 where
  pub route : get m.routes id ≡ o
  pub threshold : m.fail_threshold ≡ pos t
  pub count : count_of m id ≡ pos n

other-IsAt :
    (m : HealthMonitor) (j id : Text) (healthy : Bool) (o : Option Url) (t n : ℕ)
    → text_eq j id ≡ false
    → IsAt m id o t n
    → IsAt (check_route m j healthy).0 id o t n
unfolding check_route failures_of
other-IsAt m j id true o t n h a = record {
  route = a.route;
  threshold = a.threshold;
  count = rw (lookup-delete j id m.failures, h) a.count;
}
other-IsAt m j id false o t n h a = record {
  route = check_route-other m j id false h ∙ a.route;
  threshold = (other_failed m j id h).0 ∙ a.threshold;
  count = rw (other_failed m j id h).1 a.count;
}

-- The route and the count after one more failure.
abbrev pub route_then : Option Url → ℕ → ℕ → Option Url
route_then o t n = if ltb (n + 1) t then o else none

abbrev pub count_then : ℕ → ℕ → ℕ
count_then t n = if ltb (n + 1) t then n + 1 else 0

failed-IsAt :
    (m : HealthMonitor) (id : Text) (o : Option Url) (t n : ℕ)
    → n < t
    → t < 2 ^ 63
    → IsAt m id o t n
    → IsAt (check_route m id false).0 id (route_then o t n) t (count_then t n)
unfolding failures_of
failed-IsAt m id o t n room int a = elim (Bool-cases (ltb (n + 1) t)) [
  | inl below ↦
      let b = check_route_below m id n t a.threshold a.count (ground arith) int in
      rw below (record { route = ground (arith, b.0, a.route); threshold = b.1; count = b.2 })
  | inr at ↦
      let b = check_route_at m id n t a.threshold a.count (ground arith) (omega arith) in
      rw at (record { route = b.0; threshold = b.2; count = rw b.1 refl })
]

-- The first `k` entries of the snapshot are not the id's.
apart-IsAt :
    (client : HttpClient) (s : Map Url) (m : HealthMonitor) (k : ℕ) (id : Text) (o : Option Url)
    (t n : ℕ)
    → lookup id s ≡ none
    → IsAt m id o t n
    → IsAt (check_routes client s m k).0 id o t n
unfolding check_routes lookup
apart-IsAt client [] m k id o t n h a = a
apart-IsAt client ((j, u) ∷ rest) m k id o t n h a =
    apart-IsAt client rest (check_route m j (probe client u)).0 _ id o t n (ground (arith, h))
      (other-IsAt m j id (probe client u) o t n (ground (arith, h)) a)

pass-IsAt :
    (client : HttpClient) (s : Map Url) (m : HealthMonitor) (k : ℕ) (id : Text) (u : Url)
    (o : Option Url) (t n : ℕ)
    → Distinct s
    → lookup id s ≡ some u
    → probe client u ≡ false
    → n < t
    → t < 2 ^ 63
    → IsAt m id o t n
    → IsAt (check_routes client s m k).0 id (route_then o t n) t (count_then t n)
unfolding check_routes lookup
pass-IsAt client [] m k id u o t n d h down room int a = absurd cc
pass-IsAt client ((j, v) ∷ rest) m k id u o t n d h down room int a =
    elim (Bool-cases (text_eq j id)) [
      | inl same ↦
          let e = (text_eq_iff j id).0 same in
          let v_down : probe client v ≡ false = ground (arith, same, h, down) in
          apart-IsAt client rest (check_route m j (probe client v)).0 _ id (route_then o t n) t
            (count_then t n) (rw e at d.0) (hit j e (probe client v) v_down)
      | inr other ↦
          pass-IsAt client rest (check_route m j (probe client v)).0 _ id u o t n d.1
            (rw other at h) down room int (other-IsAt m j id (probe client v) o t n other a)
    ]
  where
    hit :
        (i : Text)
        → i ≡ id
        → (healthy : Bool) → healthy ≡ false
        → IsAt (check_route m i healthy).0 id (route_then o t n) t (count_then t n)
    hit i same true down = absurd cc
    hit i same false down = rw same (failed-IsAt m id o t n room int a)

routes-Distinct :
    (client : HttpClient) (s : Map Url) (m : HealthMonitor) (k : ℕ)
    → Distinct m.routes
    → Distinct (check_routes client s m k).0.routes
unfolding check_routes
routes-Distinct client [] m k d = d
routes-Distinct client ((j, v) ∷ rest) m k d =
    routes-Distinct client rest (check_route m j (probe client v)).0 _
      (check_route-Distinct m j (probe client v) d)

pub once-IsAt :
    (client : HttpClient) (m : HealthMonitor) (id : Text) (u : Url) (t n : ℕ)
    → Distinct m.routes
    → probe client u ≡ false
    → n < t
    → t < 2 ^ 63
    → IsAt m id (some u) t n
    → IsAt (check_once client m).0 id (route_then (some u) t n) t (count_then t n)
unfolding check_once list get
once-IsAt client m id u t n d down room int a =
    pass-IsAt client m.routes m 0 id u (some u) t n d a.route down room int a

pub once-gone :
    (client : HttpClient) (m : HealthMonitor) (id : Text) (t n : ℕ)
    → IsAt m id none t n
    → IsAt (check_once client m).0 id none t n
unfolding check_once list get
once-gone client m id t n a = apart-IsAt client m.routes m 0 id none t n a.route a

pub once-Distinct :
    (client : HttpClient) (m : HealthMonitor)
    → Distinct m.routes
    → Distinct (check_once client m).0.routes
unfolding check_once
once-Distinct client m d = routes-Distinct client (list m.routes) m 0 d
