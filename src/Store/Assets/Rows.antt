-- ===== src/Store/Assets/Rows.antt =====
-- One statement of Upsert, and the inventory.
use mathlib.Core.Path.{subst}
use target_service.Prelude.{
  ℕ, ◌≡◌, refl, ap, inl, inr, Bool, true, false, ◌&&◌, Option, none, some, List, [], ◌∷◌, ◌++◌,
  ◌==◌, if◌then◌else◌, find, map, arith, Bool-cases, find_sound,
}
use target_service.Text.{Str, str_eq}
use target_service.Text.Laws.{str_eq_iff}
use target_service.Model.{Time, Asset, AssetType, AssetUpsertItem}
use target_service.Store.{Result, ok, World}
use target_service.Store.Assets.{
  asset_type_eq, has_key, refresh, refresh_at, new_row, upsert_found, upsert_row,
}
use target_service.Store.Assets.Inventory.{
  inventory, entry_of, put, report, is_entry, same_entry, asset_type_eq_sound,
}

find-append :
    (p : Asset → Bool) (as_ : List Asset) (a : Asset)
    → find p (as_ ++ a ∷ [])
      ≡ elim (find p as_) [ none ↦ if p a then some a else none | some b ↦ some b ]
unfolding find
find-append p [] a = refl
find-append p (b ∷ bs) a = elim (Bool-cases (p b)) [
  | inl y ↦ rw y refl
  | inr n ↦ rw n (find-append p bs a)
]

abbrev map_found : (Asset → Asset) → Option Asset → Option Asset
map_found g none = none
map_found g (some a) = some (g a)

find-map :
    (p : Asset → Bool) (g : Asset → Asset) (as_ : List Asset)
    → ((a : Asset) → p (g a) ≡ p a)
    → find p (map g as_) ≡ map_found g (find p as_)
unfolding find
find-map p g [] h = refl
find-map p g (a ∷ as_) h = elim (Bool-cases (p a)) [
  | inl y ↦ rw (h a, y) refl
  | inr n ↦ rw (h a, n) (find-map p g as_ h)
]

keys :
    {i j : ℕ} {a b : AssetType} {v w : Str} → i ≡ j → a ≡ b → v ≡ w → has_key i a v ≡ has_key j b w
keys {i} {j} {a} {b} {v} {w} p q r = rw (p, q, r) refl

-- Two keys of one row are the same.
one_key :
    (i j : ℕ) (a a' : AssetType) (v v' : Str) (b : Asset)
    → has_key i a v b ≡ true
    → has_key j a' v' b ≡ true
    → (i == j && asset_type_eq a a' && str_eq v v') ≡ true
one_key i j a a' v v' b h k =
    let e : asset_type_eq a a' ≡ true =
      subst (λ x. asset_type_eq x a' ≡ true) (asset_type_eq_sound b.asset_type a (ground arith))
        (ground arith) in
    let f : str_eq v v' ≡ true =
      subst (λ x. str_eq x v' ≡ true) ((str_eq_iff b.value v).0 (ground arith)) (ground arith) in
    ground arith

module _ (target_id : ℕ) (item : AssetUpsertItem) (t : ℕ) (type : AssetType) (value : Str) where
  by_found :
      (w : World) (as_ : List Asset)
      → is_entry target_id item t type value ≡ false
      → (found : Option Asset)
      → find (has_key t type value) (as_ ++ new_row target_id item w ∷ []) ≡ elim found [
        | none ↦
            if has_key t type value (new_row target_id item w)
            then some (new_row target_id item w)
            else none
        | some b ↦ some b
      ]
      → entry_of (find (has_key t type value) (as_ ++ new_row target_id item w ∷ []))
        ≡ entry_of found
  unfolding new_row
  by_found w as_ n none e = ground arith
  by_found w as_ n (some a) e = ap entry_of e

  inserted :
      (w : World) (as_ : List Asset)
      → find (has_key target_id item.asset_type item.value) as_ ≡ none
      → inventory (as_ ++ new_row target_id item w ∷ []) t type value
        ≡ put w.now target_id item (inventory as_) t type value
  unfolding inventory put report new_row
  inserted w as_ e = elim (same_entry target_id item t type value) [
    | inl (y, p, q, r) ↦
        let e' = subst (λ f. find f as_ ≡ none) (keys p q r) e in
        ground (arith, find-append (has_key t type value) as_ (new_row target_id item w))
    | inr n ↦ rw n (
        by_found w as_ n (find (has_key t type value) as_)
          (find-append (has_key t type value) as_ (new_row target_id item w)))
  ]

  has_key-refresh_at :
      (now : Time) (a : Asset)
      → has_key t type value (refresh_at target_id item now a) ≡ has_key t type value a
  unfolding refresh_at refresh
  has_key-refresh_at now a = elim (Bool-cases (has_key target_id item.asset_type item.value a)) [
    | inl y ↦ rw y refl
    | inr n ↦ rw n refl
  ]

  refreshed :
      (now : Time) (as_ : List Asset) {a : Asset}
      → find (has_key target_id item.asset_type item.value) as_ ≡ some a
      → inventory (map (refresh_at target_id item now) as_) t type value
        ≡ put now target_id item (inventory as_) t type value
  unfolding inventory put report refresh_at refresh
  refreshed now as_ {a} e = elim (same_entry target_id item t type value) [
    | inl (y, p, q, r) ↦
        let e' = subst (λ f. find f as_ ≡ some a) (keys p q r) e in
        let (m, k) = find_sound (has_key target_id item.asset_type item.value) as_ {x = a} e in
        rw
          (
            find-map (has_key t type value) (refresh_at target_id item now) as_
                (has_key-refresh_at now),
            e',
            y,
            k,
          )
          refl
    | inr n ↦
        rw
          (
            find-map (has_key t type value) (refresh_at target_id item now) as_
                (has_key-refresh_at now),
            n,
          )
          (others n (find (has_key t type value) as_) refl)
  ]
    where
      others :
          is_entry target_id item t type value ≡ false
          → (found : Option Asset) → find (has_key t type value) as_ ≡ found
          → entry_of (map_found (refresh_at target_id item now) found) ≡ entry_of found
      others n none q = refl
      others n (some b) q = elim (Bool-cases (has_key target_id item.asset_type item.value b)) [
        | inr z ↦ rw z refl
        | inl z ↦
            let (m, k) = find_sound (has_key t type value) as_ {x = b} q in
            absurd (ground (arith, one_key _ _ item.asset_type type item.value value b z k))
      ]

-- What one statement leaves: its row is returned, and the map is updated by the item.
pub record IsPut (target_id : ℕ) (item : AssetUpsertItem) (w : World) (r : Result Asset × World)
    : Type 0 where
  pub row : Asset
  pub returned : r.0 ≡ ok row
  pub inventory_ : inventory r.1.db.assets ≡ put w.now target_id item (inventory w.db.assets)
  pub targets : r.1.db.targets ≡ w.db.targets
  pub auths : r.1.db.auths ≡ w.db.auths
  pub programs : r.1.db.programs ≡ w.db.programs
  pub program_assets : r.1.db.program_assets ≡ w.db.program_assets
  pub now : r.1.now ≡ w.now

pub upsert_row-IsPut :
    (target_id : ℕ) (item : AssetUpsertItem) (w : World)
    → IsPut target_id item w (upsert_row target_id item w)
unfolding upsert_row upsert_found
upsert_row-IsPut target_id item w =
    by_found (find (has_key target_id item.asset_type item.value) w.db.assets) refl
  where
    by_found :
        (found : Option Asset)
        → find (has_key target_id item.asset_type item.value) w.db.assets ≡ found
        → IsPut target_id item w (upsert_found target_id item found w)
    by_found none e = record {
      row = new_row target_id item w;
      returned = refl;
      inventory_ = λ i t type value. inserted target_id item t type value w w.db.assets e i;
      targets = refl;
      auths = refl;
      programs = refl;
      program_assets = refl;
      now = refl;
    }
    by_found (some a) e = record {
      row = refresh item w.now a;
      returned = refl;
      inventory_ = λ i t type value. refreshed target_id item t type value w.now w.db.assets e i;
      targets = refl;
      auths = refl;
      programs = refl;
      program_assets = refl;
      now = refl;
    }
