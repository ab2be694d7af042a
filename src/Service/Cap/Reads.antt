-- ===== src/Service/Cap/Reads.antt =====
-- What the check of the cap does to the database.
use target_service.Prelude.{ℕ, ℤ, pos, negsuc, Option, none, some, leb, inl, inr, Bool-cases}
use target_service.Text.{Str}
use target_service.Store.{Result, ok, err, World}
use target_service.Store.Reads.{Same, Same-refl}
use target_service.Store.Search.{Ilike, count}
use target_service.Store.Listing.Reads.{count-Same}
use target_service.Service.Cap.{of_user, MaxTargets, check, check_limit, compare}

compare-Same :
    (plan : Str) (max : ℕ) (r : Result ℕ) (v : World) {w : World}
    → Same w v
    → Same w (compare plan max r v).1
unfolding compare
compare-Same plan max (err e) v s = s
compare-Same plan max (ok n) v s = elim (Bool-cases (leb max n)) [ inl y ↦ rw y s | inr n ↦ rw n s ]

-- Apart from the statement that counts, the check changes nothing.
pub check-Same :
    (ilike : Ilike) (limits : Option MaxTargets) (user_id : ℕ) (plan : Str) (w : World)
    → Same w (check ilike limits user_id plan w).1
unfolding check
check-Same ilike none user_id plan w = Same-refl w
check-Same ilike (some limits) user_id plan w = by_limit (limits plan)
  where
    by_limit : (limit : Option ℤ) → Same w (check_limit ilike user_id plan limit w).1
    by_limit none = Same-refl w
    by_limit (some (negsuc n)) = Same-refl w
    by_limit (some (pos max)) =
        compare-Same plan max (count ilike (of_user user_id) w).0
          (count ilike (of_user user_id) w).1 (count-Same ilike (of_user user_id) w)
