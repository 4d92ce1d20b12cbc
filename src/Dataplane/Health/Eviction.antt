-- ===== src/Dataplane/Health/Eviction.antt =====
-- When a route is evicted.
use kubebox.Common.{
  ℕ, [], ◌∷◌, Text, text_eq, text_eq_refl, Map, lookup, insert, lookup-insert_self, lookup-delete,
  ℤ, pos, inc64, inc64-pos, ◌+◌, ◌^◌, ◌<◌, ◌≤◌, ◌≡◌, refl, ◌∙◌, ◌⊎◌, none, Bool, true, false, arith,
  inl, inr,
}
use kubebox.Dataplane.Routes.{Url, get, list, unregister}
use kubebox.Dataplane.Health.{
  HttpClient, HealthMonitor, probe, failures_of, check_route, check_routes, check_once,
}

abbrev pub count_of : HealthMonitor → Text → ℤ
count_of m id = failures_of (lookup id m.failures)

-- A failure below the threshold is counted, and the route stays.
pub check_route_below :
    (m : HealthMonitor) (id : Text) (n t : ℕ)
    → m.fail_threshold ≡ pos t
    → count_of m id ≡ pos n
    → n + 1 < t
    → t < 2 ^ 63
    → let m' = (check_route m id false).0 in
      (m'.routes ≡ m.routes) × (m'.fail_threshold ≡ pos t) × (count_of m' id ≡ pos (n + 1))
unfolding check_route failures_of
check_route_below m id n t h c below int =
    ground (arith, inc64-pos n, lookup-insert_self id (inc64 (count_of m id)) m.failures, h, c)

pub check_route_at :
    (m : HealthMonitor) (id : Text) (n t : ℕ)
    → m.fail_threshold ≡ pos t
    → count_of m id ≡ pos n
    → t ≤ n + 1
    → n + 1 < 2 ^ 63
    → let m' = (check_route m id false).0 in
      (get m'.routes id ≡ none) × (lookup id m'.failures ≡ none) × (m'.fail_threshold ≡ pos t)
unfolding check_route failures_of unregister get
check_route_at m id n t h c below int = ground (
  arith,
  inc64-pos n,
  lookup-insert_self id (inc64 (count_of m id)) m.failures,
  h,
  c,
  lookup-delete id id m.routes,
  lookup-delete id id (insert id (inc64 (count_of m id)) m.failures),
  text_eq_refl id,
)

-- A probe that succeeds keeps the routes and strikes the failures of its route off the record, so
-- that the count begins again.
pub healthy_probe :
    (m : HealthMonitor) (id : Text)
    → ((check_route m id true).0.routes ≡ m.routes)
      × (lookup id (check_route m id true).0.failures ≡ none)
      × ((check_route m id true).1 ≡ false)
unfolding check_route
healthy_probe m id = (refl, ground (arith, lookup-delete id id m.failures, text_eq_refl id), refl)

-- The routes of other sandboxes.
pub check_route-other :
    (m : HealthMonitor) (id j : Text) (healthy : Bool)
    → text_eq id j ≡ false
    → get (check_route m id healthy).0.routes j ≡ get m.routes j
unfolding check_route unregister get
check_route-other m id j true h = refl
check_route-other m id j false h = ground (arith, lookup-delete id j m.routes, h)

-- Every entry of the snapshot under an id answers its probe.
abbrev pub AllHealthy : HttpClient → Text → Map Url → Type 0
AllHealthy client id [] = Unit {0}
AllHealthy client id ((j, u) ∷ rest) =
    ((text_eq j id ≡ false) ⊎ (probe client u ≡ true)) × AllHealthy client id rest

check_routes-healthy :
    (client : HttpClient) (snapshot : Map Url) (m : HealthMonitor) (n : ℕ) (id : Text)
    → AllHealthy client id snapshot
    → get (check_routes client snapshot m n).0.routes id ≡ get m.routes id
unfolding check_routes
check_routes-healthy client [] m n id h = refl
check_routes-healthy client ((j, u) ∷ rest) m n id h =
    check_routes-healthy client rest (check_route m j (probe client u)).0 _ id h.1 ∙ step h.0
  where
    step :
        (text_eq j id ≡ false) ⊎ (probe client u ≡ true)
        → get (check_route m j (probe client u)).0.routes id ≡ get m.routes id
    step (inl other) = check_route-other m j id (probe client u) other
    step (inr healthy) = rw (healthy, (healthy_probe m j).0)

-- A pass evicts no route whose backend answers its probe.
pub check_once-keeps_healthy :
    (client : HttpClient) (m : HealthMonitor) (id : Text)
    → AllHealthy client id m.routes
    → get (check_once client m).0.routes id ≡ get m.routes id
unfolding check_once list
check_once-keeps_healthy client m id h = check_routes-healthy client m.routes m 0 id h
