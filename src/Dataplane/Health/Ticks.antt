-- ===== src/Dataplane/Health/Ticks.antt =====
-- The loop of the monitor against a backend that never answers.
use kubebox.Common.{
  ℕ, [], ◌∷◌, List, Text, lookup, ltb, pos, ◌+◌, ◌^◌, ◌<◌, ◌≡◌, refl, length, none, some, false,
  if◌then◌else◌, arith, Bool-cases, inl, inr,
}
use kubebox.Dataplane.Routes.{Url, get}
use kubebox.Dataplane.Health.{
  HttpClient, HealthMonitor, Ready, cancelled, tick, probe, failures_of, check_once, start,
}
use kubebox.Dataplane.Health.Pass.{Distinct, IsAt, once-IsAt, once-gone, once-Distinct}

-- Ticks, and then the end of the context.
abbrev pub ticks : List HttpClient → List Ready → List Ready
ticks [] after = cancelled ∷ after
ticks (client ∷ rest) after = tick client ∷ ticks rest after

-- No probe of a URL succeeds.
abbrev pub AllDown : Url → List HttpClient → Type 0
AllDown u [] = Unit {0}
AllDown u (client ∷ rest) = (probe client u ≡ false) × AllDown u rest

start-gone :
    (clients : List HttpClient) (after : List Ready) (m : HealthMonitor) (id : Text) (t n : ℕ)
    → IsAt m id none t n
    → get (start (ticks clients after) m).routes id ≡ none
unfolding start
start-gone [] after m id t n a = a.route
start-gone (client ∷ rest) after m id t n a =
    start-gone rest after (check_once client m).0 id t n (once-gone client m id t n a)

start-counted :
    (clients : List HttpClient) (after : List Ready) (m : HealthMonitor) (id : Text) (u : Url)
    (t n : ℕ)
    → Distinct m.routes
    → AllDown u clients
    → n < t
    → t < 2 ^ 63
    → IsAt m id (some u) t n
    → get (start (ticks clients after) m).routes id
      ≡ (if ltb (n + length clients) t then some u else none)
unfolding start
start-counted [] after m id u t n d down room int a = ground (arith, a.route)
start-counted (client ∷ rest) after m id u t n d down room int a =
    let a' = once-IsAt client m id u t n d down.0 room int a in
    let d' = once-Distinct client m d in
    elim (Bool-cases (ltb (n + 1) t)) [
      | inl below ↦ ground (
        arith,
        start-counted rest after (check_once client m).0 id u t (n + 1) d' down.1 (ground arith) int
            (rw below at a'),
      )
      | inr at ↦
          ground (arith, start-gone rest after (check_once client m).0 id t 0 (rw at at a'), at)
    ]

-- The loop of the monitor, until its context ends, evicts the route of a backend that answers no
-- probe at the tick whose number is the threshold, and not before, whatever the other backends
-- answer, and what follows the end of the context changes nothing. The registry holds every id once,
-- no failure is on record for this one, and the threshold is a positive `int`.
pub start-evicts :
    (clients : List HttpClient) (after : List Ready) (m : HealthMonitor) (id : Text) (u : Url)
    (t : ℕ)
    → Distinct m.routes
    → get m.routes id ≡ some u
    → lookup id m.failures ≡ none
    → m.fail_threshold ≡ pos t
    → 0 < t
    → t < 2 ^ 63
    → AllDown u clients
    → get (start (ticks clients after) m).routes id
      ≡ (if ltb (length clients) t then some u else none)
unfolding failures_of
start-evicts clients after m id u t d there clean threshold some_room int down = ground (
  arith,
  start-counted clients after m id u t 0 d down some_room int
      (record { route = there; threshold = threshold; count = rw clean refl }),
)
