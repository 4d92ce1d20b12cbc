-- ===== src/Dataplane/Health/Counting.antt =====
-- What the monitor's counts say of the probes that have failed.
use kubebox.Common.{
  ℕ, suc, Text, text_eq, text_eq_iff, text_eq_refl, lookup, insert, lookup-insert, lookup-delete,
  ltb, pos, inc64, ◌+◌, ◌<◌, ◌≤◌, ◌≡◌, refl, sym, subst, ◌∙◌, none, some, Bool, true, false, arith,
  Bool-cases, inl, inr,
}
use kubebox.Dataplane.Routes.{Url, RouteRegistry, get}
use kubebox.Dataplane.Health.Eviction.{check_route-other, check_route_below, check_route_at}
use kubebox.Dataplane.Health.{HealthMonitor, failures_of, check_route, new_health_monitor}

-- The number of failed probes of an id in a row, after one more probe, which is of this id or not.
unfoldable pub streak : ℕ → Bool → Bool → ℕ
streak n false healthy = n
streak n true true = 0
streak n true false = suc n

-- The count of an id is below the threshold of a new monitor, and no more than its failed probes in
-- a row.
pub record IsCounted (m : HealthMonitor) (id : Text) (n : ℕ) : Type 0 where
  pub threshold : m.fail_threshold ≡ pos 3
  pub count : ℕ
  pub counted : failures_of (lookup id m.failures) ≡ pos count
  pub below : count < 3
  pub probed : count ≤ n

pub new-IsCounted :
    (routes : RouteRegistry) (id : Text) → IsCounted (new_health_monitor routes) id 0
unfolding new_health_monitor failures_of lookup
new-IsCounted routes id = record {
  threshold = refl;
  count = 0;
  counted = refl;
  below = omega arith;
  probed = omega arith;
}

same_failed :
    (m : HealthMonitor) (id : Text) (n : ℕ)
    → IsCounted m id n
    → IsCounted (check_route m id false).0 id (suc n)
unfolding failures_of
same_failed m id n c = elim (Bool-cases (ltb (c.count + 1) 3)) [
  | inl room ↦
      let b = check_route_below m id c.count 3 c.threshold c.counted (ground arith) (omega arith) in
      record {
        threshold = b.1;
        count = c.count + 1;
        counted = b.2;
        below = ground arith;
        probed = omega (arith, c.probed);
      }
  | inr full ↦
      let b =
        check_route_at m id c.count 3 c.threshold c.counted (ground arith)
          (omega (arith, c.below)) in
      record {
        threshold = b.2;
        count = 0;
        counted = rw (b.1) refl;
        below = omega arith;
        probed = omega arith;
      }
]

pub other_failed :
    (m : HealthMonitor) (j id : Text)
    → text_eq j id ≡ false
    → let m' = (check_route m j false).0 in
      (m'.fail_threshold ≡ m.fail_threshold) × (lookup id m'.failures ≡ lookup id m.failures)
unfolding check_route
other_failed m j id h = ground (
  arith,
  h,
  lookup-insert j id (inc64 (failures_of (lookup j m.failures))) m.failures,
  lookup-delete j id (insert j (inc64 (failures_of (lookup j m.failures))) m.failures),
)

same_probed :
    (m : HealthMonitor) (id : Text) (healthy : Bool) (n : ℕ)
    → IsCounted m id n
    → IsCounted (check_route m id healthy).0 id (streak n true healthy)
unfolding check_route failures_of streak
same_probed m id true n c = record {
  threshold = c.threshold;
  count = 0;
  counted = rw (lookup-delete id id m.failures, text_eq_refl id) refl;
  below = omega arith;
  probed = omega arith;
}
same_probed m id false n c = same_failed m id n c

other_probed :
    (m : HealthMonitor) (j id : Text) (healthy : Bool) (n : ℕ)
    → text_eq j id ≡ false
    → IsCounted m id n
    → IsCounted (check_route m j healthy).0 id (streak n false healthy)
unfolding check_route streak
other_probed m j id true n h c = record {
  threshold = c.threshold;
  count = c.count;
  counted = rw (lookup-delete j id m.failures, h) c.counted;
  below = c.below;
  probed = c.probed;
}
other_probed m j id false n h c =
    let (t, f) = other_failed m j id h in
    record {
      threshold = t ∙ c.threshold;
      count = c.count;
      counted = rw f c.counted;
      below = c.below;
      probed = c.probed;
    }

same_third :
    (m : HealthMonitor) (id : Text) (healthy : Bool) (n : ℕ) (u : Url)
    → IsCounted m id n
    → get m.routes id ≡ some u
    → get (check_route m id healthy).0.routes id ≡ none
    → 3 ≤ streak n true healthy
unfolding check_route streak failures_of
same_third m id true n u c there gone = absurd cc
same_third m id false n u c there gone = elim (Bool-cases (ltb (c.count + 1) 3)) [
  | inl room ↦
      let kept =
        (check_route_below m id c.count 3 c.threshold c.counted (ground arith) (omega arith)).0 in
      absurd (ground (arith, kept, there, gone))
  | inr full ↦ ground (arith, c.probed)
]

-- A probe of any route keeps the counts right.
pub check_route-IsCounted :
    (m : HealthMonitor) (j id : Text) (healthy : Bool) (n : ℕ)
    → IsCounted m id n
    → IsCounted (check_route m j healthy).0 id (streak n (text_eq j id) healthy)
unfolding streak
check_route-IsCounted m j id healthy n c = elim (Bool-cases (text_eq j id)) [
  | inl same ↦ rw same (
      subst (λ k. IsCounted (check_route m k healthy).0 id (streak n true healthy))
        (sym ((text_eq_iff j id).0 same)) (same_probed m id healthy n c))
  | inr other ↦ rw other (other_probed m j id healthy n other c)
]

-- A probe that takes away the route of an id is a failed probe of that id, and the third in a row.
pub check_route-third :
    (m : HealthMonitor) (j id : Text) (healthy : Bool) (n : ℕ) (u : Url)
    → IsCounted m id n
    → get m.routes id ≡ some u
    → get (check_route m j healthy).0.routes id ≡ none
    → 3 ≤ streak n (text_eq j id) healthy
check_route-third m j id healthy n u c there gone = elim (Bool-cases (text_eq j id)) [
  | inl same ↦
      rw same (same_third m id healthy n u c there (rw ((text_eq_iff j id).0 same) at gone))
  | inr other ↦ absurd (ground (arith, check_route-other m j id healthy other, there, gone))
]
