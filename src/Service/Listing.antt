-- ===== src/Service/Listing.antt =====
-- The listings of internal/service/target_service.go and target_admin_service.go.
pub mod Keeps
pub mod Own
use target_service.Prelude.{ℕ, ◌+◌, Option, none, some, List, [], ◌∷◌, map}
use target_service.Model.{
  Target, TargetStatus, unverified, verifying, verified, revoked, TargetSource, customer, program,
  Asset, SearchParameters,
}
use target_service.Store.{Result, ok, err, M, pure, attempt, continue, ◌>>=◌}
use target_service.Store.Search.{Ilike, count}
use target_service.Store.Listing.{Collation, list, count_by_status, count_by_source}
use target_service.Store.Authorizations
use target_service.Store.Assets
use target_service.Service.Dto.{TargetDto, target_to_dto, TargetAdminDto, target_to_admin_dto}
use target_service.Service.Target.{value_of}
use target_service.Service.Admin.{get_any}

abbrev pub for_user : ℕ → SearchParameters → SearchParameters
for_user user_id params = record params { user_id = some user_id }

unfoldable pub list_targets : Ilike → Collation → ℕ → SearchParameters → M (List TargetDto)
list_targets ilike collate user_id params = do
  targets ← list ilike collate (for_user user_id params)
  pure (map target_to_dto targets)

-- A target whose authorization cannot be read is listed without one.
unfoldable pub admin_dtos : List Target → M (List TargetAdminDto)
admin_dtos [] = pure []
admin_dtos (t ∷ ts) = do
  latest ← attempt (Authorizations.get_by_target_id t.id)
  rest ← admin_dtos ts
  pure (target_to_admin_dto t (value_of latest) none ∷ rest)

unfoldable pub list_all : Ilike → Collation → SearchParameters → M (List TargetAdminDto × ℕ)
list_all ilike collate params = do
  targets ← list ilike collate params
  total ← count ilike params
  dtos ← admin_dtos targets
  pure (dtos, total)

-- No assets and unknown assets are the same nil slice.
abbrev pub assets_of : Result (List Asset) → Option (List Asset)
assets_of (err e) = none
assets_of (ok []) = none
assets_of (ok (a ∷ as_)) = some (a ∷ as_)

unfoldable pub get_any_by_uid : ℕ → M TargetAdminDto
get_any_by_uid uid = do
  t ← get_any uid
  latest ← attempt (Authorizations.get_by_target_id t.id)
  assets ← attempt (Assets.list_by_target_id t.id)
  pure (target_to_admin_dto t (value_of latest) (assets_of assets))

pub record Stats : Type 0 where
  pub total : ℕ
  pub by_status : TargetStatus → Option ℕ
  pub by_source : TargetSource → Option ℕ

-- A key that is not there gets a 0.
abbrev or_zero : Option ℕ → Option ℕ
or_zero none = some 0
or_zero (some n) = some n

abbrev pub number : Option ℕ → ℕ
number none = 0
number (some n) = n

unfoldable pub sum_of : (TargetStatus → Option ℕ) → ℕ
sum_of f = number (f unverified) + number (f verifying) + number (f verified) + number (f revoked)

unfoldable pub stats : M Stats
unfolding sum_of
stats = do
  by_status ← count_by_status
  by_source ← count_by_source
  pure (record {
    total = sum_of (λ s. or_zero (by_status s));
    by_status = λ s. or_zero (by_status s);
    by_source = λ s. or_zero (by_source s);
  })
