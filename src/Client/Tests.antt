-- ===== src/Client/Tests.antt =====
-- One call of each client, and a second one from the cache.
use target_service.Prelude.{ℤ, ◌≡◌, ◌*◌, ◌⊎◌, refl, true, some, List, [], ◌∷◌, pos, arith}
use target_service.Text.{Str, codes, str_eq}
use target_service.Model.{second}
use target_service.Client.{
  Entry, cached, store, cached_call, has_max_targets, ScanService, ask_entitlements,
  entitlements_ttl, max_targets, ServiceService, default_plan, fetch, resolve, Calls, none_yet,
  called,
}
use target_service.Client.Laws.{IsRecent, max_targets-IsRecent, resolve-IsRecent}

abbrev scan_service : ScanService
scan_service t plan = some (200, has_max_targets (pos 3))

abbrev kept : List (Entry Str ℤ)
kept = record { key = codes "pro"; value = pos 3; expires = 61 * second } ∷ []

asked_once : (max_targets scan_service (codes "pro") 0 0 second []) ≡ (some (pos 3), kept)
unfolding max_targets cached_call cached ask_entitlements store
asked_once = refl

read_again :
    (max_targets scan_service
      (codes "pro")
      (2 * second)
      (2 * second)
      (2 * second)
      (max_targets scan_service (codes "pro") 0 0 second []).1).0
    ≡ some (pos 3)
unfolding max_targets cached_call cached ask_entitlements store str_eq
read_again = refl

calls :
    Calls str_eq entitlements_ttl
      (ask_entitlements scan_service)
      (max_targets scan_service (codes "pro") 0 0 second []).1
unfolding max_targets
calls = called (codes "pro") 0 0 second (omega arith) none_yet

max_targets-IsRecent_example :
    IsRecent (ask_entitlements scan_service) (63 * second) (codes "pro") (2 * second) (pos 3)
max_targets-IsRecent_example =
    max_targets-IsRecent scan_service (codes "pro") (2 * second) (2 * second) (2 * second) (pos 3)
      (max_targets scan_service (codes "pro") 0 0 second []).1 calls (omega arith) read_again

abbrev service_service : ServiceService
service_service t user_id = some (200, some (codes " Pro "))

resolve-IsRecent_example :
    ((resolve service_service true 7 0 0 second []).0 ≡ default_plan)
    ⊎ IsRecent
        (fetch service_service)
        (33 * second)
        7
        0
        (resolve service_service true 7 0 0 second []).0
resolve-IsRecent_example =
    resolve-IsRecent service_service true 7 0 0 second [] none_yet (omega arith)
