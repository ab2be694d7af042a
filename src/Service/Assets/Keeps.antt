-- ===== src/Service/Assets/Keeps.antt =====
-- Invariants of the database through the asset operations.
use target_service.Prelude.{ℕ, none, List, map, length}
use target_service.Model.{AssetUpsertItem}
use target_service.Store.Assets.Reads.{list_by_target_uid-Same}
use target_service.Store.{Db, scope_expanded}
use target_service.Store.Keeps.{Keeps, pure-Keeps, read-Keeps, emit-Keeps, bind-Keeps, then-Keeps}
use target_service.Store.Kept.{get_by_uid_internal-Keeps}
use target_service.Store.Assets
use target_service.Service.Dto.{asset_to_dto}
use target_service.Service.Assets.{list_assets, upsert_assets}

module _ {Inv : Db → Type 0} where
  list_by_target_uid-Keeps : (user_id uid : ℕ) → Keeps Inv (Assets.list_by_target_uid user_id uid)
  list_by_target_uid-Keeps user_id uid =
      read-Keeps (Assets.list_by_target_uid user_id uid) (list_by_target_uid-Same user_id uid)

  pub list_assets-Keeps : (user_id uid : ℕ) → Keeps Inv (list_assets user_id uid)
  unfolding list_assets
  list_assets-Keeps user_id uid =
      bind-Keeps (list_by_target_uid-Keeps user_id uid)
        (λ assets. pure-Keeps (map asset_to_dto assets))

  pub upsert_assets-Keeps :
      ((target_id : ℕ) (items : List AssetUpsertItem) → Keeps Inv (Assets.upsert target_id items))
      → (uid : ℕ) (items : List AssetUpsertItem) → Keeps Inv (upsert_assets uid items)
  unfolding upsert_assets
  upsert_assets-Keeps k uid items = bind-Keeps (get_by_uid_internal-Keeps uid) (λ target.
      bind-Keeps (k target.id items) (λ upserted.
        then-Keeps (emit-Keeps scope_expanded target.uid none (length upserted))
          (pure-Keeps (map asset_to_dto upserted))))
