-- ===== src/Service/Cap/Tests.antt =====
-- A user with one target, on a plan that allows one.
use target_service.Prelude.{◌≡◌, ◌↔◌, none, some, pos, true}
use target_service.Text.{codes}
use target_service.Store.{ok}
use target_service.Samples.{world}
use target_service.Service.Cap.{MaxTargets, TargetCapError, check}
use target_service.Service.Cap.Laws.{IsOver, check-refuses_iff}

abbrev one_target : MaxTargets
one_target plan = some (pos 1)

check-refuses_iff_example :
    ((e : TargetCapError)
      → ((check (λ p v. true) (some one_target) 7 (codes "free") world).0 ≡ ok (some e))
        ↔ IsOver (λ p v. true) one_target 7 (codes "free") world e)
    × (((e : TargetCapError) → IsOver (λ p v. true) one_target 7 (codes "free") world e → ⊥)
        → (check (λ p v. true) (some one_target) 7 (codes "free") world).0 ≡ ok none)
check-refuses_iff_example = check-refuses_iff (λ p v. true) one_target 7 (codes "free") world
