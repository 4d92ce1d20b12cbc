-- ===== src/Dataplane/Health.antt =====
-- `HealthMonitor` of internal/dataplane/health.go: probes, and the eviction of dead routes. In
-- `check_once` nothing else writes the registry between the probes; the edge lets requests come there.
pub mod Eviction
pub mod Counting
pub mod Pass
pub mod Ticks
use kubebox.Common.{
  ℕ, suc, [], ◌∷◌, ◌++◌, List, Text, codes, Map, lookup, insert, delete, trim_right, ltb, leb,
  leb_ℤ, ℤ, pos, inc64, ◌+◌, Option, none, some, Bool, true, false, ◌&&◌, if◌then◌else◌,
}
use kubebox.Dataplane.Routes.{Url, RouteRegistry, list, unregister}

-- The registry is the one that the proxy and the admin interface share.
pub record HealthMonitor : Type 0 where
  pub routes : RouteRegistry
  pub fail_threshold : ℤ
  pub failures : Map ℤ

unfoldable pub new_health_monitor : RouteRegistry → HealthMonitor
new_health_monitor routes = record { routes = routes; fail_threshold = pos 3; failures = [] }

unfoldable pub join_health_url : Text → Text
join_health_url target = trim_right b'/' target ++ codes "/healthz"

abbrev is_success : Option ℕ → Bool
is_success none = false
is_success (some status) = leb 200 status && ltb status 300

-- The text of a URL, and the status of a GET at a URL, or nothing where the request fails.
pub record HttpClient : Type 0 where
  pub url_text : Url → Text
  pub get_status : Text → Option ℕ

unfoldable pub probe : HttpClient → Url → Bool
probe client target = is_success (client.get_status (join_health_url (client.url_text target)))

unfoldable pub failures_of : Option ℤ → ℤ
failures_of none = pos 0
failures_of (some n) = n

unfoldable pub record_failure : HealthMonitor → Text → HealthMonitor × ℤ
unfolding failures_of
record_failure m id =
    let n = inc64 (failures_of (lookup id m.failures)) in
    (record m { failures = insert id n m.failures }, n)

unfoldable pub reset_failures : HealthMonitor → Text → HealthMonitor
reset_failures m id = record m { failures = delete id m.failures }

evict : HealthMonitor → Text → HealthMonitor × Bool
unfolding reset_failures
evict m id =
    let (routes', gone) = unregister m.routes id in
    (reset_failures (record m { routes = routes' }) id, gone)

after_failure : HealthMonitor × ℤ → Text → HealthMonitor × Bool
unfolding evict
after_failure (m, n) id = if leb_ℤ m.fail_threshold n then evict m id else (m, false)

-- The body of the loop of `CheckOnce`, for the outcome of one probe.
unfoldable pub check_route : HealthMonitor → Text → Bool → HealthMonitor × Bool
unfolding reset_failures record_failure after_failure
check_route m id true = (reset_failures m id, false)
check_route m id false = after_failure (record_failure m id) id

unfoldable pub check_routes : HttpClient → Map Url → HealthMonitor → ℕ → HealthMonitor × ℕ
check_routes client [] m unregistered = (m, unregistered)
check_routes client ((id, target) ∷ rest) m unregistered =
    let (m', gone) = check_route m id (probe client target) in
    check_routes client rest m' (if gone then suc unregistered else unregistered)

unfoldable pub check_once : HttpClient → HealthMonitor → HealthMonitor × ℕ
unfolding check_routes
check_once client m = check_routes client (list m.routes) m 0

-- What the loop of `Start` is woken by: the end of its context, or a tick, with the network as it is
-- then.
pub data Ready : Type 0 where
  cancelled : Ready
  tick : HttpClient → Ready

unfoldable pub start : List Ready → HealthMonitor → HealthMonitor
start [] m = m
start (cancelled ∷ rest) m = m
start (tick client ∷ rest) m = start rest (check_once client m).0
