-- ===== src/Service/Cap.antt =====
-- internal/service/target_cap.go: the limit that a plan sets on the targets of a user.
mod Tests
pub mod Laws
pub mod Reads
use target_service.Prelude.{ℕ, ℤ, pos, negsuc, Option, none, some, [], ◌∷◌, if◌then◌else◌, leb}
use target_service.Text.{Str, codes, to_lower, trim_space}
use target_service.Model.{SearchParameters}
use target_service.Store.{Result, ok, err, M, pure, attempt, ◌>>=◌}
use target_service.Store.Search.{Ilike, count}

pub record TargetCapError : Type 0 where
  pub plan : Str
  pub max_targets : ℤ
  pub count : ℕ

-- MaxTargets of a MaxTargetsSource: `none` is an error, a negative number means no limit.
abbrev pub MaxTargets : Type 0
MaxTargets = Str → Option ℤ

abbrev resolve_by : Option (ℕ → Str) → ℕ → Str
resolve_by none user_id = codes "free"
resolve_by (some resolve) user_id = resolve user_id

abbrev header_or : Str → Str → Str
header_or [] plan = plan
header_or (c ∷ s) plan = c ∷ s

-- The header of the gateway first, then the source of plans, then "free".
unfoldable pub resolve_plan : Option (ℕ → Str) → Str → ℕ → Str
resolve_plan plans header_plan user_id =
    header_or (to_lower (trim_space header_plan)) (resolve_by plans user_id)

abbrev pub of_user : ℕ → SearchParameters
of_user user_id = record {
  user_id = some user_id;
  status = none;
  source = none;
  query = none;
  sort_by = [];
  sort_order = [];
  page_number = 0;
  page_size = 0;
}

-- A count that fails lets the target pass.
compare : Str → ℕ → Result ℕ → M (Option TargetCapError)
compare plan max (err e) = pure none
compare plan max (ok n) =
    if leb max n
    then pure (some (record { plan = plan; max_targets = pos max; count = n }))
    else pure none

-- No limit, an unknown limit and an unlimited plan let the target pass without a count.
check_limit : Ilike → ℕ → Str → Option ℤ → M (Option TargetCapError)
unfolding compare
check_limit ilike user_id plan none = pure none
check_limit ilike user_id plan (some (negsuc n)) = pure none
check_limit ilike user_id plan (some (pos max)) = do
  counted ← attempt (count ilike (of_user user_id))
  compare plan max counted

unfoldable pub check : Ilike → Option MaxTargets → ℕ → Str → M (Option TargetCapError)
unfolding check_limit
check ilike none user_id plan = pure none
check ilike (some limits) user_id plan = check_limit ilike user_id plan (limits plan)
