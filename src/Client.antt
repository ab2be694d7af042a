-- ===== src/Client.antt =====
-- internal/client: the clients of scan-service and service-service, which keep what they were told
-- for a while. Both have the same cache around their request.
pub mod Laws
mod Tests
use target_service.Prelude.{
  ℕ, ◌+◌, ◌*◌, ◌≤◌, ℤ, Bool, Option, none, some, List, [], ◌∷◌, ◌==◌, ltb, if◌then◌else◌,
}
use target_service.Text.{Str, codes, str_eq, to_lower, trim_space}
use target_service.Model.{Time, second}

-- The timeout of the HTTP clients.
abbrev pub client_timeout : Time
client_timeout = 3 * second

module _ (K : Type 0) (V : Type 0) where
  pub record Entry : Type 0 where
    pub key : K
    pub value : V
    pub expires : Time

module _ {K : Type 0} {V : Type 0} (eq : K → K → Bool) where
  -- The value of a key that has not expired.
  unfoldable pub cached : K → Time → List (Entry K V) → Option V
  cached k now [] = none
  cached k now (e ∷ es) =
      let rest = cached k now es in
      if eq e.key k then (if ltb now e.expires then some e.value else none) else rest

  unfoldable pub store : K → V → Time → List (Entry K V) → List (Entry K V)
  store k v expires [] = record { key = k; value = v; expires = expires } ∷ []
  store k v expires (e ∷ es) =
      let rest = store k v expires es in
      if eq e.key k then record { key = k; value = v; expires = expires } ∷ es else e ∷ rest

  -- An answer is kept from the time at which it is stored; an error is not kept.
  abbrev pub keep : Time → K → Time → Option V → List (Entry K V) → Option V × List (Entry K V)
  keep ttl k done none es = (none, es)
  keep ttl k done (some v) es = (some v, store k v (done + ttl) es)

  abbrev pub or_ask :
      Time
      → (Time → K → Option V)
      → K
      → Time
      → Time
      → Option V
      → List (Entry K V)
      → Option V × List (Entry K V)
  or_ask ttl ask k asked done (some v) es = (some v, es)
  or_ask ttl ask k asked done none es = keep ttl k done (ask asked k) es

  -- A call at `now`; where it must ask, the other service answers at `asked` and the call ends at `done`.
  unfoldable pub cached_call :
      Time
      → (Time → K → Option V)
      → K
      → Time
      → Time
      → Time
      → List (Entry K V)
      → Option V × List (Entry K V)
  cached_call ttl ask k now asked done es = or_ask ttl ask k asked done (cached k now es) es

-- entitlements.go
abbrev pub entitlements_ttl : Time
entitlements_ttl = 60 * second

-- The body of an answer of scan-service; the library decodes it.
pub data EntitlementBody : Type 0 where
  undecodable no_max_targets : EntitlementBody
  has_max_targets : ℤ → EntitlementBody

-- What scan-service answers at a time, about a plan: a status and a body, or nothing.
abbrev pub ScanService : Type 0
ScanService = Time → Str → Option (ℕ × EntitlementBody)

abbrev max_targets_in : EntitlementBody → Option ℤ
max_targets_in undecodable = none
max_targets_in no_max_targets = none
max_targets_in (has_max_targets n) = some n

abbrev read_entitlement : Option (ℕ × EntitlementBody) → Option ℤ
read_entitlement none = none
read_entitlement (some (status, body)) = if status == 200 then max_targets_in body else none

unfoldable pub ask_entitlements : ScanService → Time → Str → Option ℤ
ask_entitlements scan_service t plan = read_entitlement (scan_service t plan)

unfoldable pub max_targets :
    ScanService → Str → Time → Time → Time → List (Entry Str ℤ) → Option ℤ × List (Entry Str ℤ)
max_targets scan_service = cached_call str_eq entitlements_ttl (ask_entitlements scan_service)

-- plan_resolver.go
abbrev pub plan_ttl : Time
plan_ttl = 30 * second

abbrev pub default_plan : Str
default_plan = codes "free"

-- What service-service answers at a time, about a user: a status and the name of a plan in a body
-- that can be decoded, or nothing.
abbrev pub ServiceService : Type 0
ServiceService = Time → ℕ → Option (ℕ × Option Str)

abbrev plan_or_default : Str → Str
plan_or_default [] = default_plan
plan_or_default (c ∷ s) = c ∷ s

abbrev plan_in : Option Str → Option Str
plan_in none = none
plan_in (some name) = some (plan_or_default (to_lower (trim_space name)))

abbrev read_plan : Option (ℕ × Option Str) → Option Str
read_plan none = none
read_plan (some (status, body)) = if status == 200 then plan_in body else none

unfoldable pub fetch : ServiceService → Time → ℕ → Option Str
fetch service_service t user_id = read_plan (service_service t user_id)

abbrev or_default_plan : Option Str × List (Entry ℕ Str) → Str × List (Entry ℕ Str)
or_default_plan (none, es) = (default_plan, es)
or_default_plan (some plan, es) = (plan, es)

-- The flag says whether there is a base URL.
unfoldable pub resolve :
    ServiceService → Bool → ℕ → Time → Time → Time → List (Entry ℕ Str) → Str × List (Entry ℕ Str)
resolve service_service has_url user_id now asked done es =
    if has_url
    then (if user_id == 0
        then (default_plan, es)
        else or_default_plan (
            cached_call (λ a b. a == b) plan_ttl (fetch service_service) user_id now asked done es))
    else (default_plan, es)

-- The caches that a client reaches: its calls, each of which ends in time.
module _ {K : Type 0} {V : Type 0} (eq : K → K → Bool) (ttl : Time)
    (ask : Time → K → Option V) where
  pub data Calls : List (Entry K V) → Type 0 where
    none_yet : Calls []
    called :
        {es : List (Entry K V)} (k : K) (now asked done : Time)
        → done ≤ asked + client_timeout
        → Calls es
        → Calls (cached_call eq ttl ask k now asked done es).1
