-- ===== src/Service/Listing/Keeps.antt =====
-- Invariants of the database through the listings.
use target_service.Prelude.{ℕ, ◌∷◌, none, List, [], map}
use target_service.Model.{Target, SearchParameters}
use target_service.Store.Listing.Reads.{
  list-Same, count-Same, count_by_status-Same, count_by_source-Same,
}
use target_service.Store.Assets.Reads.{list_by_target_id-Same}
use target_service.Store.{Db}
use target_service.Store.Keeps.{Keeps, pure-Keeps, read-Keeps, attempt-Keeps, bind-Keeps}
use target_service.Store.Kept.{get_by_target_id-Keeps}
use target_service.Store.Search.{Ilike, count}
use target_service.Store.Listing.{Collation, list, count_by_status, count_by_source}
use target_service.Store.Assets
use target_service.Service.Dto.{target_to_dto, target_to_admin_dto}
use target_service.Service.Target.{value_of}
use target_service.Service.Admin.Keeps.{get_any-Keeps}
use target_service.Service.Listing.{
  for_user, list_targets, admin_dtos, list_all, assets_of, get_any_by_uid, stats,
}

module _ {Inv : Db → Type 0} where
  module _ (ilike : Ilike) (collate : Collation) where
    list-Keeps : (params : SearchParameters) → Keeps Inv (list ilike collate params)
    list-Keeps params = read-Keeps (list ilike collate params) (list-Same ilike collate params)

    pub list_targets-Keeps :
        (user_id : ℕ) (params : SearchParameters)
        → Keeps Inv (list_targets ilike collate user_id params)
    unfolding list_targets
    list_targets-Keeps user_id params =
        bind-Keeps (list-Keeps (for_user user_id params))
          (λ targets. pure-Keeps (map target_to_dto targets))

    count-Keeps : (params : SearchParameters) → Keeps Inv (count ilike params)
    count-Keeps params = read-Keeps (count ilike params) (count-Same ilike params)

    admin_dtos-Keeps : (ts : List Target) → Keeps Inv (admin_dtos ts)
    unfolding admin_dtos
    admin_dtos-Keeps [] = pure-Keeps []
    admin_dtos-Keeps (t ∷ ts) = bind-Keeps (attempt-Keeps (get_by_target_id-Keeps t.id)) (λ latest.
        bind-Keeps (admin_dtos-Keeps ts)
          (λ rest. pure-Keeps (target_to_admin_dto t (value_of latest) none ∷ rest)))

    pub list_all-Keeps : (params : SearchParameters) → Keeps Inv (list_all ilike collate params)
    unfolding list_all
    list_all-Keeps params = bind-Keeps (list-Keeps params) (λ targets.
        bind-Keeps (count-Keeps params)
          (λ total. bind-Keeps (admin_dtos-Keeps targets) (λ dtos. pure-Keeps (dtos, total))))

  list_by_target_id-Keeps : (id : ℕ) → Keeps Inv (Assets.list_by_target_id id)
  list_by_target_id-Keeps id = read-Keeps (Assets.list_by_target_id id) (list_by_target_id-Same id)

  pub get_any_by_uid-Keeps : (uid : ℕ) → Keeps Inv (get_any_by_uid uid)
  unfolding get_any_by_uid
  get_any_by_uid-Keeps uid = bind-Keeps (get_any-Keeps uid) (λ t.
      bind-Keeps (attempt-Keeps (get_by_target_id-Keeps t.id)) (λ latest.
        bind-Keeps (attempt-Keeps (list_by_target_id-Keeps t.id))
          (λ assets. pure-Keeps (target_to_admin_dto t (value_of latest) (assets_of assets)))))

  pub stats-Keeps : Keeps Inv stats
  unfolding stats
  stats-Keeps = bind-Keeps (read-Keeps count_by_status count_by_status-Same) (λ by_status.
      bind-Keeps (read-Keeps count_by_source count_by_source-Same) (λ by_source. pure-Keeps _))
