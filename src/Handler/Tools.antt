-- ===== src/Handler/Tools.antt =====
-- internal/handler/tools_handler.go: the budget of each visitor, the cap on checks in flight, and
-- the routes of the free tools.
pub mod Laws
pub mod Janitor
mod Tests
use target_service.Prelude.{
  ℕ, suc, zero, ◌+◌, ◌-◌, ◌*◌, ◌/◌, Bool, true, false, not, Option, none, some, List, [], ◌∷◌,
  String, ◌≤◌, ltb, if◌then◌else◌, filter,
}
use target_service.Text.{Str, str_eq, trim_space, split}
use target_service.Model.{Time, second, hour}
use target_service.Tools.Hostname.{Hostname, valid, rejected, normalize_and_validate_hostname}
use target_service.Handler.Http.{Body, no_body, unreadable, invalid, given}

-- The checks of one address in an hour, and the size of its bucket.
abbrev pub tools_rate_per_hour : ℕ
tools_rate_per_hour = 10

abbrev pub tools_global_concurrency : ℕ
tools_global_concurrency = 16

abbrev pub tools_limiter_idle_ttl : Time
tools_limiter_idle_ttl = 2 * hour

-- What golang.org/x/time/rate answers to Reserve: not within the burst, or after a delay.
pub data Reservation : Type 0 where
  not_ok : Reservation
  delayed : Time → Reservation

-- A token bucket of that library: NewLimiter, with so many tokens in an hour and so many at most,
-- Reserve, and the Cancel of a reservation.
pub record Limiter (L : Type 0) : Type 0 where
  pub new_limiter : ℕ → ℕ → L
  pub reserve : Time → L → Reservation × L
  pub cancel : Time → L → L

pub record IpLimiterEntry (L : Type 0) : Type 0 where
  pub ip : Str
  pub limiter : L
  pub last_seen : Time

-- The buckets by address, and the number of slots of the semaphore that are taken.
pub record ToolsState (L : Type 0) : Type 0 where
  pub limiters : List (IpLimiterEntry L)
  pub in_flight : ℕ

pub data Decision : Type 0 where
  rate_limited : ℕ → Decision
  busy admitted : Decision

-- The first hop of X-Forwarded-For, X-Real-Ip, or the address of the connection.
abbrev or_real_ip : Str → Str → Str
or_real_ip [] real_ip = real_ip
or_real_ip (c ∷ s) real_ip = c ∷ s

abbrev first_hop : List Str → Str
first_hop [] = []
first_hop (s ∷ ss) = trim_space s

unfoldable pub client_ip : Str → Str → Str → Str
client_ip forwarded_for x_real_ip real_ip =
    or_real_ip (first_hop (split b',' forwarded_for)) (or_real_ip (trim_space x_real_ip) real_ip)

module _ {L : Type 0} (lim : Limiter L) where
  -- The bucket of an address, or a new one.
  unfoldable pub limiter_of : Str → List (IpLimiterEntry L) → L
  limiter_of ip [] = lim.new_limiter tools_rate_per_hour tools_rate_per_hour
  limiter_of ip (e ∷ es) = let rest = limiter_of ip es in if str_eq e.ip ip then e.limiter else rest

  -- The map with the entry of an address replaced, or added.
  unfoldable pub put_entry : Str → L → Time → List (IpLimiterEntry L) → List (IpLimiterEntry L)
  put_entry ip l now [] = record { ip = ip; limiter = l; last_seen = now } ∷ []
  put_entry ip l now (e ∷ es) =
      let rest = put_entry ip l now es in
      if str_eq e.ip ip then record { ip = ip; limiter = l; last_seen = now } ∷ es else e ∷ rest

  -- A reservation that would have to wait is cancelled.
  abbrev pub settled : Time → Reservation × L → Option ℕ × L
  settled now (not_ok, l) = (some 3600, l)
  settled now (delayed zero, l) = (none, l)
  settled now (delayed (suc d), l) = (some (suc d / second + 1), lim.cancel now l)

  -- `none`: allowed; otherwise the seconds after which to try again. The source lets go of the lock
  -- of the map before Reserve, which has its own; here one request is a single step.
  unfoldable pub allow : Str → Time → List (IpLimiterEntry L) → Option ℕ × List (IpLimiterEntry L)
  allow ip now es =
      let (retry, l) = settled now (lim.reserve now (limiter_of ip es)) in
      (retry, put_entry ip l now es)

  abbrev pub take_slot : Option ℕ → List (IpLimiterEntry L) → ℕ → Decision × ToolsState L
  take_slot (some seconds) es n = (rate_limited seconds, record { limiters = es; in_flight = n })
  take_slot none es n =
      if ltb n tools_global_concurrency
      then (admitted, record { limiters = es; in_flight = suc n })
      else (busy, record { limiters = es; in_flight = n })

  -- The budget first, then a slot of the semaphore without waiting.
  unfoldable pub guard : Str → Time → ToolsState L → Decision × ToolsState L
  guard ip now s = let (retry, es) = allow ip now s.limiters in take_slot retry es s.in_flight

  -- The deferred release of an admitted request.
  unfoldable pub release : ToolsState L → ToolsState L
  release s = record s { in_flight = s.in_flight - 1 }

  -- A round of the janitor at this time.
  unfoldable pub sweep : Time → ToolsState L → ToolsState L
  sweep now s = record s {
    limiters = filter (λ e. not (ltb (e.last_seen + tools_limiter_idle_ttl) now)) s.limiters;
  }

  -- What happens to the state: requests come, admitted ones end, the janitor runs.
  pub data Steps : ToolsState L → ToolsState L → Type 0 where
    start : {s : ToolsState L} → Steps s s
    arrives : {s t : ToolsState L} (ip : Str) (now : Time) → Steps s t → Steps s (guard ip now t).1
    ends : {s t : ToolsState L} → 1 ≤ t.in_flight → Steps s t → Steps s (release t)
    sweeps : {s t : ToolsState L} (now : Time) → Steps s t → Steps s (sweep now t)

  abbrev pub empty_state : ToolsState L
  empty_state = record { limiters = []; in_flight = 0 }

-- An answer of a tool: 429, 503, 400, 502 or 200.
pub data ToolAnswer (A : Type 0) : Type 0 where
  too_many_requests : ℕ → ToolAnswer A
  service_unavailable bad_request bad_gateway : ToolAnswer A
  checked : A → ToolAnswer A

module _ {A : Type 0} (check : Str → Option A) where
  abbrev check_name : Hostname → ToolAnswer A
  check_name (rejected e) = bad_request
  check_name (valid domain) = elim (check domain) [ none ↦ bad_gateway | some a ↦ checked a ]

  -- bindDomain, and the check of the domain.
  unfoldable pub bind_domain : Body Str → ToolAnswer A
  bind_domain no_body = bad_request
  bind_domain unreadable = bad_request
  bind_domain invalid = bad_request
  bind_domain (given raw) = check_name (normalize_and_validate_hostname raw)

  -- A route: what the guard decides, and the answer.
  unfoldable pub tool_answer : Decision → Body Str → ToolAnswer A
  tool_answer (rate_limited seconds) body = too_many_requests seconds
  tool_answer busy body = service_unavailable
  tool_answer admitted body = bind_domain body
