-- ===== src/Store/Programs/Sync/Keys.antt =====
-- The keys of the targets through the synchronisation of a program.
use target_service.Prelude.{ℕ, Option, none, some, List, [], ◌∷◌, ◌++◌, ◌+◌, find, filter, not}
use target_service.Model.{BugbountyProgram}
use target_service.Store.{Result, ok, err, World, M, with_db}
use target_service.Store.Keys.{HasKeys, IsKeyed-suc}
use target_service.Store.Keeps.{Keeps, query-Keeps, bind-Keeps, then-Keeps, pure-Keeps}
use target_service.Store.Programs.{same_program}
use target_service.Store.Programs.Sync.{
  NewProgram, NewAsset, transaction, roll_back, upsert_row, upsert_program, delete_assets,
  insert_asset, insert_assets, boundary, replace_all_assets, sync, asset_row, of_program,
}

upsert_row-HasKeys :
    (p : NewProgram) (old : Option BugbountyProgram) (w : World)
    → HasKeys w.db
    → HasKeys (upsert_row p old w).1.db
unfolding upsert_row
upsert_row-HasKeys p none w i = IsKeyed-suc w.db.targets i
upsert_row-HasKeys p (some old) w i = i

upsert_program-Keeps : (p : NewProgram) → Keeps HasKeys (upsert_program p)
unfolding upsert_program
upsert_program-Keeps p =
    query-Keeps (λ w. upsert_row p (find (same_program p.platform p.handle) w.db.programs) w)
      (λ w i. upsert_row-HasKeys p (find (same_program p.platform p.handle) w.db.programs) w i)

delete_assets-Keeps : (id : ℕ) → Keeps HasKeys (delete_assets id)
unfolding delete_assets
delete_assets-Keeps id =
    query-Keeps
      (λ w. (
        ok tt,
        with_db w (record (w.db) {
          program_assets = filter (λ a. not (of_program id a)) w.db.program_assets;
        }),
      ))
      (λ w i. i)

insert_asset-Keeps : (id : ℕ) (a : NewAsset) → Keeps HasKeys (insert_asset id a)
unfolding insert_asset
insert_asset-Keeps id a =
    query-Keeps
      (λ w.
        let db = w.db in
        (
          ok tt,
          with_db w (record db {
            program_assets = db.program_assets ++ asset_row id w.now db.next_id a ∷ [];
            next_id = db.next_id + 1;
          }),
        ))
      (λ w i. IsKeyed-suc w.db.targets i)

insert_assets-Keeps : (id : ℕ) (assets : List NewAsset) → Keeps HasKeys (insert_assets id assets)
unfolding insert_assets
insert_assets-Keeps id [] = pure-Keeps tt
insert_assets-Keeps id (a ∷ assets) =
    then-Keeps (insert_asset-Keeps id a) (insert_assets-Keeps id assets)

boundary-Keeps : Keeps HasKeys boundary
unfolding boundary
boundary-Keeps = query-Keeps (λ w. (ok tt, w)) (λ w i. i)

transaction-Keeps : {A : Type 0} (m : M A) → Keeps HasKeys m → Keeps HasKeys (transaction m)
transaction-Keeps {A} m k = record { kept = λ w i. by_result w (m w) i (k.kept w i) }
  where
    by_result :
        (w : World) (x : Result A × World)
        → HasKeys w.db
        → HasKeys x.1.db
        → HasKeys (roll_back w.db x).1.db
    by_result w (ok a, v) i j = j
    by_result w (err e, v) i j = i

pub sync-Keeps : (p : NewProgram) (assets : List NewAsset) → Keeps HasKeys (sync p assets)
unfolding sync replace_all_assets
sync-Keeps p assets = then-Keeps boundary-Keeps (
    transaction-Keeps (replace_all_assets p assets) (
      bind-Keeps (upsert_program-Keeps p) (λ stored. then-Keeps (delete_assets-Keeps stored.id) (
        then-Keeps (insert_assets-Keeps stored.id assets)
          (then-Keeps boundary-Keeps (pure-Keeps stored))))))
