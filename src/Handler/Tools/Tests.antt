-- ===== src/Handler/Tools/Tests.antt =====
-- A token bucket, and a first visitor.
use target_service.Prelude.{
  ℕ, suc, ◌-◌, ◌/◌, leb, ◌⊎◌, ◌*◌, ◌+◌, ◌≤◌, ◌≡◌, refl, none, if◌then◌else◌,
}
use target_service.Text.{Str, codes, str_eq}
use target_service.Model.{Time, hour}
use target_service.Handler.Tools.{
  tools_global_concurrency, Limiter, Reservation, delayed, ToolsState, admitted, limiter_of, allow,
  guard, put_entry, Steps, start, arrives, empty_state,
}
use target_service.Handler.Tools.Laws.{in_flight_bound, guard_live}

-- A bucket: tokens are counted in nanoseconds of an hour, so that the rate fills so many of them in a
-- nanosecond.
record Bucket : Type 0 where
  pub rate : ℕ
  pub burst : ℕ
  pub level : ℕ
  pub last : Time

abbrev filled : Bucket → Time → ℕ
filled l now =
    let level = l.level + l.rate * (now - l.last) in
    if leb (l.burst * hour) level then l.burst * hour else level

abbrev spend : Time → Bucket → Reservation × Bucket
spend now l =
    let level = filled l now in
    if leb hour level
    then (delayed 0, record l { level = level - hour; last = now })
    else (delayed (suc ((hour - level) / l.rate)), record l { level = level; last = now })

abbrev bucket : Limiter Bucket
bucket = record {
  new_limiter = λ rate burst. record { rate = rate; burst = burst; level = burst * hour; last = 0 };
  reserve = spend;
  cancel = λ now l. l;
}

-- Last used at this time, or full.
record LastUse (rate burst : ℕ) (l : Bucket) (t : Time) : Type 0 where
  pub same_rate : l.rate ≡ rate
  pub same_burst : l.burst ≡ burst
  pub use_or_full : (l.last ≡ t) ⊎ (l.level ≡ burst * hour)

abbrev visitor : Str
visitor = codes "192.0.2.1"

first_visit : Steps bucket (empty_state bucket) (guard bucket visitor 5 (empty_state bucket)).1
first_visit = arrives visitor 5 start

in_flight_bound_example :
    (guard bucket visitor 5 (empty_state bucket)).1.in_flight ≤ tools_global_concurrency
in_flight_bound_example =
    in_flight_bound bucket (guard bucket visitor 5 (empty_state bucket)).1 first_visit

new_visitor :
    (allow bucket (codes "192.0.2.2") 6 (guard bucket visitor 5 (empty_state bucket)).1.limiters).0
    ≡ none
unfolding guard allow limiter_of put_entry str_eq
new_visitor = refl

guard_live_example :
    (t : ToolsState (Bucket)) × Steps bucket (guard bucket visitor 5 (empty_state bucket)).1 t
    × (t.limiters ≡ (guard bucket visitor 5 (empty_state bucket)).1.limiters)
    × ((guard bucket (codes "192.0.2.2") 6 t).0 ≡ admitted)
guard_live_example =
    guard_live bucket (guard bucket visitor 5 (empty_state bucket)).1 (codes "192.0.2.2") 6
      new_visitor
