-- ===== src/Service/Assets.antt =====
-- internal/service/asset_service.go: the inventory of a target.
pub mod Keeps
use target_service.Prelude.{ℕ, none, List, map, length}
use target_service.Model.{AssetUpsertItem}
use target_service.Store.{M, pure, emit, scope_expanded, continue, ◌>>=◌, ◌>>◌}
use target_service.Store.Targets
use target_service.Store.Assets
use target_service.Service.Dto.{AssetDto, asset_to_dto}

unfoldable pub list_assets : ℕ → ℕ → M (List AssetDto)
list_assets user_id uid = do
  assets ← Assets.list_by_target_uid user_id uid
  pure (map asset_to_dto assets)

-- An internal call: the target may be anyone's. The event counts every row that came back, also
-- those that were there before.
unfoldable pub upsert_assets : ℕ → List AssetUpsertItem → M (List AssetDto)
upsert_assets uid items = do
  target ← Targets.get_by_uid_internal uid
  upserted ← Assets.upsert target.id items
  emit scope_expanded target.uid none (length upserted)
  pure (map asset_to_dto upserted)
