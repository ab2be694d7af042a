-- ===== src/Store/Assets.antt =====
-- internal/repository/asset_repository.go: the inventory of what was discovered under a target.
pub mod Reads
pub mod Inventory
pub mod Rows
pub mod Refine
use target_service.Prelude.{
  ℕ, ◌+◌, Bool, true, false, ◌&&◌, Option, none, some, List, [], ◌∷◌, ◌++◌, ◌==◌, ltb,
  if◌then◌else◌, find, any, filter, map,
}
use target_service.Prelude.Sort.{sort_by}
use target_service.Text.{Str, str_eq}
use target_service.Model.{
  Time, Target, Asset, AssetType, subdomain, ip, port, service, endpoint, unknown, AssetUpsertItem,
}
use target_service.Store.{Result, ok, World, M, pure, query, with_db, continue, ◌>>=◌}

abbrev pub asset_type_eq : AssetType → AssetType → Bool
asset_type_eq subdomain subdomain = true
asset_type_eq ip ip = true
asset_type_eq port port = true
asset_type_eq service service = true
asset_type_eq endpoint endpoint = true
asset_type_eq _ _ = false

-- The key of the UNIQUE constraint.
abbrev pub has_key : ℕ → AssetType → Str → Asset → Bool
has_key target_id asset_type value a =
    a.target_id == target_id && asset_type_eq a.asset_type asset_type && str_eq a.value value

abbrev pub coalesce : Option Str → Option Str → Option Str
coalesce none old = old
coalesce (some s) old = some s

-- ON CONFLICT … DO UPDATE.
unfoldable pub refresh : AssetUpsertItem → Time → Asset → Asset
refresh item now a = record a {
  last_seen = now;
  metadata = item.metadata;
  discovered_by = coalesce item.discovered_by a.discovered_by;
}

unfoldable pub new_row : ℕ → AssetUpsertItem → World → Asset
new_row target_id item w = record {
  id = w.db.next_id;
  uid = w.db.next_id;
  target_id = target_id;
  asset_type = item.asset_type;
  value = item.value;
  parent_asset_id = none;
  scope_class = unknown;
  metadata = item.metadata;
  discovered_by = item.discovered_by;
  first_seen = w.now;
  last_seen = w.now;
}

unfoldable pub refresh_at : ℕ → AssetUpsertItem → Time → Asset → Asset
unfolding refresh
refresh_at target_id item now a =
    if has_key target_id item.asset_type item.value a then refresh item now a else a

unfoldable pub upsert_found : ℕ → AssetUpsertItem → Option Asset → World → Result Asset × World
unfolding new_row refresh refresh_at
upsert_found target_id item none w = (
  ok (new_row target_id item w),
  with_db w (record (w.db) {
    assets = w.db.assets ++ new_row target_id item w ∷ [];
    next_id = w.db.next_id + 1;
  }),
)
upsert_found target_id item (some a) w = (
  ok (refresh item w.now a),
  with_db w (record (w.db) { assets = map (refresh_at target_id item w.now) w.db.assets }),
)

unfoldable pub upsert_row : ℕ → AssetUpsertItem → World → Result Asset × World
unfolding upsert_found
upsert_row target_id item w =
    upsert_found target_id item (find (has_key target_id item.asset_type item.value) w.db.assets) w

-- One statement for each item, in order; a failure leaves what the earlier ones wrote.
unfoldable pub upsert : ℕ → List AssetUpsertItem → M (List Asset)
unfolding query
upsert target_id [] = pure []
upsert target_id (item ∷ items) = do
  a ← query (upsert_row target_id item)
  rest ← upsert target_id items
  pure (a ∷ rest)

-- ORDER BY first_seen DESC.
abbrev pub seen_later : Asset → Asset → Bool
seen_later a b = ltb b.first_seen a.first_seen

unfoldable pub list : (World → Asset → Bool) → M (List Asset)
unfolding query
list where_ = query (λ w. (ok (sort_by seen_later (filter (where_ w) w.db.assets)), w))

-- The assets that join with a target of this uid and user.
unfoldable pub list_by_target_uid : ℕ → ℕ → M (List Asset)
unfolding list
list_by_target_uid user_id uid =
    list
      (λ w a. any (λ t. t.id == a.target_id && t.uid == uid && t.user_id == user_id) w.db.targets)

unfoldable pub list_by_target_id : ℕ → M (List Asset)
unfolding list
list_by_target_id target_id = list (λ w a. a.target_id == target_id)
