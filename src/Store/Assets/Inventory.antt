-- ===== src/Store/Assets/Inventory.antt =====
-- What an inventory promises, whatever its rows are: a map from a target, a type and a value to
-- what is known of that asset; and Upsert as an update of the map.
use target_service.Prelude.{
  ℕ, ◌≡◌, refl, ◌⊎◌, inl, inr, Bool, true, false, ◌&&◌, Option, none, some, List, [], ◌∷◌, ◌==◌,
  if◌then◌else◌, find, arith, Bool-cases,
}
use target_service.Text.{Str, str_eq}
use target_service.Text.Laws.{str_eq_iff}
use target_service.Model.{
  Time, Asset, AssetType, ScopeClass, subdomain, ip, port, service, endpoint, unknown,
  AssetUpsertItem,
}
use target_service.Store.Assets.{asset_type_eq, has_key, coalesce}

pub record Entry : Type 0 where
  pub scope_class : ScopeClass
  pub metadata : Str
  pub discovered_by : Option Str
  pub first_seen : Time
  pub last_seen : Time

abbrev pub Inventory : Type 0
Inventory = ℕ → AssetType → Str → Option Entry

-- What a report of an asset makes of the entry for it: the first one starts it, a later one keeps
-- when it was first seen and its class.
unfoldable pub report : Time → AssetUpsertItem → Option Entry → Entry
report now item none = record {
  scope_class = unknown;
  metadata = item.metadata;
  discovered_by = item.discovered_by;
  first_seen = now;
  last_seen = now;
}
report now item (some e) = record e {
  metadata = item.metadata;
  discovered_by = coalesce item.discovered_by e.discovered_by;
  last_seen = now;
}

abbrev pub is_entry : ℕ → AssetUpsertItem → ℕ → AssetType → Str → Bool
is_entry target_id item t type value =
    target_id == t && asset_type_eq item.asset_type type && str_eq item.value value

unfoldable pub put : Time → ℕ → AssetUpsertItem → Inventory → Inventory
unfolding report
put now target_id item inv t type value =
    if is_entry target_id item t type value
    then some (report now item (inv t type value))
    else inv t type value

unfoldable pub put_all : Time → ℕ → List AssetUpsertItem → Inventory → Inventory
unfolding put
put_all now target_id [] inv = inv
put_all now target_id (item ∷ items) inv = put_all now target_id items (put now target_id item inv)

abbrev pub entry_of : Option Asset → Option Entry
entry_of none = none
entry_of (some a) = some (record {
  scope_class = a.scope_class;
  metadata = a.metadata;
  discovered_by = a.discovered_by;
  first_seen = a.first_seen;
  last_seen = a.last_seen;
})

-- The map that the rows of the assets table stand for.
unfoldable pub inventory : List Asset → Inventory
inventory as_ t type value = entry_of (find (has_key t type value) as_)

pub asset_type_eq_sound : (a b : AssetType) → asset_type_eq a b ≡ true → a ≡ b
asset_type_eq_sound subdomain subdomain h = refl
asset_type_eq_sound ip ip h = refl
asset_type_eq_sound port port h = refl
asset_type_eq_sound service service h = refl
asset_type_eq_sound endpoint endpoint h = refl
asset_type_eq_sound subdomain ip h = cc
asset_type_eq_sound subdomain port h = cc
asset_type_eq_sound subdomain service h = cc
asset_type_eq_sound subdomain endpoint h = cc
asset_type_eq_sound ip subdomain h = cc
asset_type_eq_sound ip port h = cc
asset_type_eq_sound ip service h = cc
asset_type_eq_sound ip endpoint h = cc
asset_type_eq_sound port subdomain h = cc
asset_type_eq_sound port ip h = cc
asset_type_eq_sound port service h = cc
asset_type_eq_sound port endpoint h = cc
asset_type_eq_sound service subdomain h = cc
asset_type_eq_sound service ip h = cc
asset_type_eq_sound service port h = cc
asset_type_eq_sound service endpoint h = cc
asset_type_eq_sound endpoint subdomain h = cc
asset_type_eq_sound endpoint ip h = cc
asset_type_eq_sound endpoint port h = cc
asset_type_eq_sound endpoint service h = cc

-- The key of an item is the key that is asked for, or another one.
pub same_entry :
    (target_id : ℕ) (item : AssetUpsertItem) (t : ℕ) (type : AssetType) (value : Str)
    → ((is_entry target_id item t type value ≡ true)
        × (target_id ≡ t)
        × (item.asset_type ≡ type)
        × (item.value ≡ value))
      ⊎ (is_entry target_id item t type value ≡ false)
same_entry target_id item t type value = elim (Bool-cases (is_entry target_id item t type value)) [
  | inr n ↦ inr n
  | inl y ↦
      inl
        (y, ground arith, asset_type_eq_sound _ _ (ground arith), (str_eq_iff _ _).0 (ground arith))
]
