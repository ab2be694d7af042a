-- ===== src/Store/Assets/Refine.antt =====
-- Upsert of asset_repository.go, and the updates of the inventory.
use mathlib.Core.Path.{subst}
use target_service.Prelude.{
  ℕ, suc, ◌<◌, ◌≡◌, refl, sym, ap, ◌∙◌, inl, inr, List, [], ◌∷◌, arith, length, take,
}
use target_service.Model.{Asset, AssetUpsertItem}
use target_service.Store.{Error, Result, ok, err, db_failure, World, continue, ◌>>=◌, pure}
use target_service.Store.Rules.{spent, query_cases}
use target_service.Store.Assets.{upsert_row, upsert}
use target_service.Store.Assets.Inventory.{inventory, put_all}
use target_service.Store.Assets.Rows.{IsPut, upsert_row-IsPut}

-- The call returned a row for every item, or it stopped with an error before the last one.
pub data IsEnded (items : List AssetUpsertItem) (applied : ℕ) (r : Result (List Asset))
    : Type 0 where
  finished :
      (rows : List Asset)
      → r ≡ ok rows
      → length rows ≡ length items
      → applied ≡ length items
      → IsEnded items applied r
  stopped : (e : Error) → r ≡ err e → applied < length items → IsEnded items applied r

-- The first `applied` items are in the inventory, and the other tables are as they were.
pub record IsApplied (target_id : ℕ) (items : List AssetUpsertItem) (w : World)
    (r : Result (List Asset) × World) : Type 0 where
  pub applied : ℕ
  pub ended : IsEnded items applied r.0
  pub entries :
      inventory r.1.db.assets ≡ put_all w.now target_id (take applied items) (inventory w.db.assets)
  pub targets : r.1.db.targets ≡ w.db.targets
  pub auths : r.1.db.auths ≡ w.db.auths
  pub programs : r.1.db.programs ≡ w.db.programs
  pub program_assets : r.1.db.program_assets ≡ w.db.program_assets

module _ (target_id : ℕ) where
  add_row :
      (item : AssetUpsertItem) (items : List AssetUpsertItem) (applied : ℕ) (row : Asset)
      (r : Result (List Asset) × World)
      → IsEnded items applied r.0
      → IsEnded (item ∷ items) (suc applied) (continue r.0 (λ rest. pure (row ∷ rest)) r.1).0
  add_row item items applied row (r, w) (finished rows e n m) =
      finished (row ∷ rows) (ap (λ r. (continue r (λ rest. pure (row ∷ rest)) w).0) e) (ap suc n)
        (ap suc m)
  add_row item items applied row (r, w) (stopped e q l) =
      stopped e (ap (λ r. (continue r (λ rest. pure (row ∷ rest)) w).0) q) (ground arith)

  add_world :
      (row : Asset) (r : Result (List Asset)) (w : World)
      → (continue r (λ rest. pure (row ∷ rest)) w).1 ≡ w
  add_world row (ok rows) w = refl
  add_world row (err e) w = refl

  -- Upsert puts a first part of the reported assets into the inventory, in their order: all of them
  -- exactly when it succeeds, with a row for each. A repeated report keeps the time an asset was first
  -- seen. Targets, authorizations, programs and their assets stay as they were.
  pub upsert-IsApplied :
      (items : List AssetUpsertItem) (w : World)
      → IsApplied target_id items w (upsert target_id items w)
  unfolding upsert put_all
  upsert-IsApplied [] w = record {
    applied = 0;
    ended = finished [] refl refl refl;
    entries = refl;
    targets = refl;
    auths = refl;
    programs = refl;
    program_assets = refl;
  }
  upsert-IsApplied (item ∷ items) w = elim (query_cases (upsert_row target_id item) w) [
    | inl (m, e) ↦
        subst
          (λ r.
            IsApplied target_id (item ∷ items) w
              (continue r.0 (λ a. upsert target_id items >>= λ rest. pure (a ∷ rest)) r.1))
          (sym e)
          (record {
            applied = 0;
            ended = stopped (db_failure m) refl (ground arith);
            entries = refl;
            targets = refl;
            auths = refl;
            programs = refl;
            program_assets = refl;
          })
    | inr e ↦
        subst
          (λ r.
            IsApplied target_id (item ∷ items) w
              (continue r.0 (λ a. upsert target_id items >>= λ rest. pure (a ∷ rest)) r.1))
          (sym e)
          (ran (upsert_row target_id item (spent w)) (upsert_row-IsPut target_id item (spent w))
            (λ w'. upsert-IsApplied items w'))
  ]
    where
      ran :
          (x : Result Asset × World)
          → IsPut target_id item (spent w) x
          → ((w' : World) → IsApplied target_id items w' (upsert target_id items w'))
          → IsApplied target_id
              (item ∷ items)
              w
              (continue x.0 (λ a. upsert target_id items >>= λ rest. pure (a ∷ rest)) x.1)
      ran x p ih =
          let t = ih x.1 in
          let r = upsert target_id items x.1 in
          let same = add_world p.row r.0 r.1 in
          subst
            (λ y.
              IsApplied target_id (item ∷ items) w
                (continue y (λ a. upsert target_id items >>= λ rest. pure (a ∷ rest)) x.1))
            (sym p.returned)
            (record {
              applied = suc t.applied;
              ended = add_row item items t.applied p.row r t.ended;
              entries =
                  ap (λ v. inventory v.db.assets) same
                  ∙ t.entries
                  ∙ ap
                      (λ now.
                        put_all now target_id (take t.applied items) (inventory x.1.db.assets))
                      p.now
                  ∙ ap (put_all w.now target_id (take t.applied items)) p.inventory_;
              targets = ap (λ v. v.db.targets) same ∙ t.targets ∙ p.targets;
              auths = ap (λ v. v.db.auths) same ∙ t.auths ∙ p.auths;
              programs = ap (λ v. v.db.programs) same ∙ t.programs ∙ p.programs;
              program_assets =
                  ap (λ v. v.db.program_assets) same ∙ t.program_assets ∙ p.program_assets;
            })
