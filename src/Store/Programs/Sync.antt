-- ===== src/Store/Programs/Sync.antt =====
-- Sync of internal/repository/program_repository.go: one transaction that stores a program and
-- replaces its assets.
pub mod Upsert
pub mod Laws
pub mod Keys
use target_service.Prelude.{
  ℕ, ◌+◌, Bool, ◌&&◌, not, Option, none, some, List, [], ◌∷◌, ◌++◌, ◌==◌, find, filter, map,
  if◌then◌else◌,
}
use target_service.Text.{Str}
use target_service.Model.{Time, BugbountyProgram, ProgramStatus, ProgramAsset, ProgramAssetType}
use target_service.Store.{
  Error, Result, ok, err, Db, World, M, pure, query, with_db, continue, ◌>>=◌, ◌>>◌,
}
use target_service.Store.Programs.{same_program, of_program}

-- What the caller of Sync fills in of a program and of an asset.
pub record NewProgram : Type 0 where
  pub platform : Str
  pub handle : Str
  pub name : Str
  pub policy_url : Str
  pub automation_allowed : Bool
  pub rate_limit_rps : Option ℕ
  pub prohibited_techniques : List Str
  pub safe_harbor : Bool
  pub raw_policy : Str
  pub stale_after_seconds : ℕ
  pub status : ProgramStatus

pub record NewAsset : Type 0 where
  pub asset_type : ProgramAssetType
  pub identifier : Str
  pub in_scope : Bool

-- A transaction that fails is rolled back. A COMMIT whose answer is lost, which the database may
-- have kept, is not modelled: here a COMMIT that fails keeps nothing.
abbrev roll_back {ℓ} : {A : Type ℓ} → Db → Result A × World → Result A × World
roll_back db (ok a, w) = (ok a, w)
roll_back db (err e, w) = (err e, with_db w db)

abbrev pub transaction {ℓ} : {A : Type ℓ} → M A → M A
transaction m w = roll_back w.db (m w)

abbrev stored_as : NewProgram → ℕ → Time → Time → BugbountyProgram
stored_as p id created now = record {
  id = id;
  platform = p.platform;
  handle = p.handle;
  name = p.name;
  policy_url = p.policy_url;
  automation_allowed = p.automation_allowed;
  rate_limit_rps = p.rate_limit_rps;
  prohibited_techniques = p.prohibited_techniques;
  safe_harbor = p.safe_harbor;
  raw_policy = p.raw_policy;
  synced_at = now;
  stale_after_seconds = p.stale_after_seconds;
  status = p.status;
  created_at = created;
  updated_at = now;
}

abbrev replace_program : NewProgram → Time → BugbountyProgram → BugbountyProgram
replace_program p now old =
    if same_program p.platform p.handle old then stored_as p old.id old.created_at now else old

-- INSERT … ON CONFLICT (platform, handle) DO UPDATE.
upsert_row : NewProgram → Option BugbountyProgram → World → Result BugbountyProgram × World
upsert_row p none w =
    let db = w.db in
    let new = stored_as p db.next_id w.now w.now in
    (ok new, with_db w (record db { programs = db.programs ++ new ∷ []; next_id = db.next_id + 1 }))
upsert_row p (some old) w = (
  ok (stored_as p old.id old.created_at w.now),
  with_db w (record (w.db) { programs = map (replace_program p w.now) w.db.programs }),
)

unfoldable pub upsert_program : NewProgram → M BugbountyProgram
unfolding query upsert_row
upsert_program p =
    query (λ w. upsert_row p (find (same_program p.platform p.handle) w.db.programs) w)

unfoldable pub delete_assets : ℕ → M (Unit {0})
unfolding query
delete_assets id = query (λ w. (
  ok tt,
  with_db w
      (record (w.db) { program_assets = filter (λ a. not (of_program id a)) w.db.program_assets }),
))

abbrev pub asset_row : ℕ → Time → ℕ → NewAsset → ProgramAsset
asset_row id now row_id a = record {
  id = row_id;
  program_id = id;
  asset_type = a.asset_type;
  identifier = a.identifier;
  in_scope = a.in_scope;
  created_at = now;
}

unfoldable pub insert_asset : ℕ → NewAsset → M (Unit {0})
unfolding query
insert_asset id a = query (λ w.
    let db = w.db in
    (
      ok tt,
      with_db w (record db {
        program_assets = db.program_assets ++ asset_row id w.now db.next_id a ∷ [];
        next_id = db.next_id + 1;
      }),
    ))

unfoldable pub insert_assets : ℕ → List NewAsset → M (Unit {0})
insert_assets id [] = pure tt
insert_assets id (a ∷ assets) = insert_asset id a >> insert_assets id assets

-- BEGIN and COMMIT may fail like any statement.
unfoldable pub boundary : M (Unit {0})
unfolding query
boundary = query (λ w. (ok tt, w))

unfoldable pub replace_all_assets : NewProgram → List NewAsset → M BugbountyProgram
replace_all_assets p assets = do
  stored ← upsert_program p
  delete_assets stored.id
  insert_assets stored.id assets
  boundary
  pure stored

unfoldable pub sync : NewProgram → List NewAsset → M BugbountyProgram
sync p assets = boundary >> transaction (replace_all_assets p assets)
