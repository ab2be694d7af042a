-- ===== src/Service/Programs.antt =====
-- internal/service/program_service.go: the synchronisation of a bug-bounty program's policy.
pub mod Laws
mod Tests
use target_service.Prelude.{ℕ, Bool, Option, none, some, List, [], ◌∷◌, map}
use target_service.Text.{Str, to_lower, trim_space}
use target_service.Model.{
  Time, BugbountyProgram, ProgramStatus, active, ProgramAsset, ProgramAssetType,
}
use target_service.Store.{
  Error, no_policy_connector, Result, ok, err, World, M, pure, lift, continue, ◌>>=◌,
}
use target_service.Store.Listing.{Collation}
use target_service.Store.Programs
use target_service.Store.Programs.Sync.{NewProgram, NewAsset, sync}
use target_service.Scope.Technique.{normalize_techniques}

-- What a connector returns; an asset of a policy has the fields of an asset to store.
pub record ProgramPolicy : Type 0 where
  pub platform : Str
  pub handle : Str
  pub name : Str
  pub policy_url : Str
  pub safe_harbor : Bool
  pub raw_policy : Str
  pub assets : List NewAsset

-- `none` is the empty status.
pub record SyncProgramRequest : Type 0 where
  pub platform : Str
  pub handle : Str
  pub automation_allowed : Bool
  pub rate_limit_rps : Option ℕ
  pub prohibited_techniques : List Str
  pub stale_after_seconds : ℕ
  pub status : Option ProgramStatus

pub record ProgramDto : Type 0 where
  pub id : ℕ
  pub platform : Str
  pub handle : Str
  pub name : Str
  pub policy_url : Str
  pub automation_allowed : Bool
  pub rate_limit_rps : Option ℕ
  pub prohibited_techniques : List Str
  pub safe_harbor : Bool
  pub synced_at : Time
  pub stale_after_seconds : ℕ
  pub status : ProgramStatus
  pub assets : List ProgramAsset

-- The connectors by platform; a connector talks to a platform that is not part of this repository.
abbrev pub Connectors : Type 0
Connectors = Str → Option (Str → Result ProgramPolicy)

unfoldable pub fetch_policy : Connectors → SyncProgramRequest → Result ProgramPolicy
fetch_policy connectors req = elim (connectors req.platform) [
  | none ↦ err (no_policy_connector req.platform)
  | some fetch_program ↦ fetch_program req.handle
]

abbrev or_active : Option ProgramStatus → ProgramStatus
or_active none = active
or_active (some s) = s

unfoldable pub program_of : SyncProgramRequest → ProgramPolicy → NewProgram
program_of req policy = record {
  platform = req.platform;
  handle = trim_space req.handle;
  name = policy.name;
  policy_url = policy.policy_url;
  automation_allowed = req.automation_allowed;
  rate_limit_rps = req.rate_limit_rps;
  prohibited_techniques = normalize_techniques req.prohibited_techniques;
  safe_harbor = policy.safe_harbor;
  raw_policy = policy.raw_policy;
  stale_after_seconds = req.stale_after_seconds;
  status = or_active req.status;
}

abbrev pub normal_asset : NewAsset → NewAsset
normal_asset a = record a { identifier = to_lower (trim_space a.identifier) }

unfoldable pub program_to_dto : BugbountyProgram → List ProgramAsset → ProgramDto
program_to_dto p assets = record {
  id = p.id;
  platform = p.platform;
  handle = p.handle;
  name = p.name;
  policy_url = p.policy_url;
  automation_allowed = p.automation_allowed;
  rate_limit_rps = p.rate_limit_rps;
  prohibited_techniques = p.prohibited_techniques;
  safe_harbor = p.safe_harbor;
  synced_at = p.synced_at;
  stale_after_seconds = p.stale_after_seconds;
  status = p.status;
  assets = assets;
}

unfoldable pub sync_program : Collation → Connectors → SyncProgramRequest → M ProgramDto
sync_program collate connectors req = do
  policy ← lift (fetch_policy connectors req)
  stored ← sync (program_of req policy) (map normal_asset policy.assets)
  assets ← Programs.list_assets collate stored.id
  pure (program_to_dto stored assets)
