-- ===== src/Store/Kept.antt =====
-- Invariants that the writes of the repositories keep: what a proof about an operation asks of an
-- invariant.
use target_service.Prelude.{ℕ, Option, none, List}
use target_service.Text.{Str, trim_space}
use target_service.Model.{
  Time, TargetStatus, TargetKind, TargetSource, Evidence, AssetUpsertItem, CreateTargetRequest,
  unverified, verified, customer, program,
}
use target_service.Store.{Db}
use target_service.Store.Keeps.{Keeps, read-Keeps}
use target_service.Store.Reads.{get_by_uid-Same, get_by_uid_internal-Same, get_by_target_id-Same}
use target_service.Store.Targets
use target_service.Store.Targets.{Etld, non_empty}
use target_service.Store.Authorizations
use target_service.Store.Assets

-- The writes of the authorizations table keep it.
pub record KeptByAuths (Inv : Db → Type 0) : Type 0 where
  pub create : (a : Authorizations.NewAuthorization) → Keeps Inv (Authorizations.create a)
  pub mark_verified :
      (id : ℕ) (expires : Time) (evidence : Option Evidence)
      → Keeps Inv (Authorizations.mark_verified id expires evidence)
  pub expire_active : (id : ℕ) → Keeps Inv (Authorizations.expire_active_authorizations id)

-- Every write of the service keeps it.
pub record Kept (Inv : Db → Type 0) : Type 0 where
  pub auths : KeptByAuths Inv
  pub insert :
      (etld : Etld) (user_id : ℕ) (kind : TargetKind) (raw : Str) (status : TargetStatus)
      (source : TargetSource) (label : Option Str)
      → Keeps Inv (Targets.insert etld user_id kind raw status source label)
  pub update_status : (id : ℕ) (s : TargetStatus) → Keeps Inv (Targets.update_status id s)
  pub delete : (user_id uid : ℕ) → Keeps Inv (Targets.delete user_id uid)
  pub delete_by_uid : (uid : ℕ) → Keeps Inv (Targets.delete_by_uid uid)
  pub upsert :
      (target_id : ℕ) (items : List AssetUpsertItem) → Keeps Inv (Assets.upsert target_id items)

module _ {Inv : Db → Type 0} where
  pub get_by_uid-Keeps : (user_id uid : ℕ) → Keeps Inv (Targets.get_by_uid user_id uid)
  get_by_uid-Keeps user_id uid = read-Keeps _ (get_by_uid-Same user_id uid)

  pub get_by_uid_internal-Keeps : (uid : ℕ) → Keeps Inv (Targets.get_by_uid_internal uid)
  get_by_uid_internal-Keeps uid = read-Keeps _ (get_by_uid_internal-Same uid)

  pub get_by_target_id-Keeps : (id : ℕ) → Keeps Inv (Authorizations.get_by_target_id id)
  get_by_target_id-Keeps id = read-Keeps _ (get_by_target_id-Same id)

module _ {Inv : Db → Type 0} (k : Kept Inv) (etld : Etld) (user_id : ℕ) where
  pub create-Keeps : (req : CreateTargetRequest) → Keeps Inv (Targets.create etld user_id req)
  unfolding Targets.create
  create-Keeps req = k.insert etld user_id req.kind req.value unverified customer none

  pub create_program-Keeps :
      (kind : TargetKind) (value label : Str)
      → Keeps Inv (Targets.create_program etld user_id kind value label)
  unfolding Targets.create_program
  create_program-Keeps kind value label =
      k.insert etld user_id kind value verified program (non_empty (trim_space label))
