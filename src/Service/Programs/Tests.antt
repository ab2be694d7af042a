-- ===== src/Service/Programs/Tests.antt =====
-- A policy that is synchronised.
use target_service.Prelude.{◌≡◌, refl, true, false, none, some, [], ◌∷◌, map, find, filter}
use target_service.Prelude.Sort.{sort_by, insert_by}
use target_service.Text.{
  codes, to_lower, trim_space, trim_left, trim_right, is_space, lower, str_eq, replace_all,
}
use target_service.Model.{active, BugbountyProgram, ProgramAsset, ProgramAssetType}
use target_service.Store.{ok, query}
use target_service.Store.Programs.{list_assets}
use target_service.Store.Programs.Sync.{
  upsert_program, delete_assets, insert_asset, insert_assets, boundary, replace_all_assets, sync,
}
use target_service.Store.Programs.Sync.Laws.{IsSynced, sync-IsSynced}
use target_service.Samples.{internet, world}
use target_service.Scope.Technique.{normalize_techniques, normalize_technique}
use target_service.Service.Programs.{
  ProgramPolicy, SyncProgramRequest, Connectors, fetch_policy, program_of, normal_asset,
  program_to_dto, sync_program,
}
use target_service.Service.Programs.Laws.{IsAnswered, sync_program-IsAnswered}

abbrev policy : ProgramPolicy
policy = record {
  platform = codes "hackerone";
  handle = codes "acme";
  name = codes "Acme";
  policy_url = [];
  safe_harbor = false;
  raw_policy = [];
  assets =
      record {
        asset_type = ProgramAssetType.wildcard;
        identifier = codes "*.ACME.io";
        in_scope = true;
      }
      ∷ [];
}

abbrev request : SyncProgramRequest
request = record {
  platform = codes "hackerone";
  handle = codes "acme";
  automation_allowed = true;
  rate_limit_rps = none;
  prohibited_techniques = codes "Brute Force" ∷ [];
  stale_after_seconds = 60;
  status = none;
}

abbrev connectors : Connectors
connectors platform = some (λ handle. ok policy)

-- What a run computes through.
syncing : Unit {0}
unfolding find filter to_lower trim_space trim_left trim_right is_space lower str_eq replace_all
    query list_assets sort_by insert_by upsert_program delete_assets insert_asset insert_assets
    boundary replace_all_assets sync normalize_techniques normalize_technique fetch_policy
    program_of program_to_dto sync_program
syncing = tt

abbrev stored : BugbountyProgram
stored = record {
  id = 23;
  platform = codes "hackerone";
  handle = codes "acme";
  name = codes "Acme";
  policy_url = [];
  automation_allowed = true;
  rate_limit_rps = none;
  prohibited_techniques = codes "brute_force" ∷ [];
  safe_harbor = false;
  raw_policy = [];
  synced_at = 100;
  stale_after_seconds = 60;
  status = active;
  created_at = 100;
  updated_at = 100;
}

sync_run : (sync (program_of request policy) (map normal_asset policy.assets) world).0 ≡ ok stored
unfolding syncing
sync_run = refl

sync-IsSynced_example :
    IsSynced
      (program_of request policy)
      (map normal_asset policy.assets)
      world.db
      world.now
      stored
      (sync (program_of request policy) (map normal_asset policy.assets) world).1.db
sync-IsSynced_example =
    sync-IsSynced (program_of request policy) (map normal_asset policy.assets) world stored sync_run

abbrev row : ProgramAsset
row = record {
  id = 24;
  program_id = 23;
  asset_type = ProgramAssetType.wildcard;
  identifier = codes "*.acme.io";
  in_scope = true;
  created_at = 100;
}

request_run :
    (sync_program internet.collate connectors request world).0
    ≡ ok (program_to_dto stored (row ∷ []))
unfolding syncing
request_run = refl

sync_program-IsAnswered_example :
    IsAnswered internet.collate connectors request world
      (program_to_dto stored (row ∷ []))
      (sync_program internet.collate connectors request world).1.db
sync_program-IsAnswered_example =
    sync_program-IsAnswered internet.collate connectors request world
      (program_to_dto stored (row ∷ [])) request_run
