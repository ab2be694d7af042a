-- ===== src/Service/System.antt =====
-- The running service: its requests, and the databases that they reach.
pub mod Others
pub mod Isolation
use target_service.Prelude.{ℕ, ◌+◌, Option, List}
use target_service.Text.{Str}
use target_service.Model.{
  Method, CreateTargetRequest, AdminCreateProgramTargetRequest, AdminAuthorizeTargetRequest,
  ScopeCheckRequest, AssetUpsertItem, SearchParameters,
}
use target_service.Store.{Db, World}
use target_service.Store.Kept.{Kept, create-Keeps}
use target_service.Store.Keys.Actions.{HasKeys-Kept}
use target_service.Store.Keys.{HasKeys}
use target_service.Service.Env.{Env}
use target_service.Service.Target
use target_service.Service.Admin
use target_service.Service.Assets
use target_service.Service.Listing
use target_service.Service.Assets.Keeps.{list_assets-Keeps, upsert_assets-Keeps}
use target_service.Service.Listing.Keeps.{
  list_targets-Keeps, list_all-Keeps, get_any_by_uid-Keeps, stats-Keeps,
}
use target_service.Service.Target.Keeps.{
  create_target-Keeps, get_target-Keeps, trigger_verification-Keeps, delete_target-Keeps,
}
use target_service.Service.Admin.Keeps.{
  create_program_target-Keeps, authorize_manually-Keeps, revoke-Keeps, delete_any-Keeps,
}
use target_service.Scope.Gate.{check_scope}
use target_service.Scope.Gate.ReadOnly.{check_scope-Keeps}
use target_service.Scope.Verified.{check_verified}
use target_service.Scope.Verified.ReadOnly.{check_verified-Keeps}

-- A request with its caller: a user's, an administrator's, or another service's.
pub data Request : Type 0 where
  create : ℕ → CreateTargetRequest → Request
  get delete : ℕ → ℕ → Request
  verify : ℕ → ℕ → Method → Request
  admin_create : ℕ → AdminCreateProgramTargetRequest → Request
  admin_authorize : ℕ → ℕ → AdminAuthorizeTargetRequest → Request
  admin_revoke admin_delete : ℕ → ℕ → Request
  scope_check : ScopeCheckRequest → Request
  verified_check : ℕ → Option ℕ → Request
  list_assets : ℕ → ℕ → Request
  upsert_assets : ℕ → List AssetUpsertItem → Request
  list_targets : ℕ → SearchParameters → Request
  admin_list : SearchParameters → Request
  admin_get : ℕ → Request
  admin_stats : Request

-- The world after a request is served.
abbrev pub serve : Env → Request → World → World
serve env (create user_id req) w = (Target.create_target env user_id req w).1
serve env (get user_id uid) w = (Target.get_target user_id uid w).1
serve env (delete user_id uid) w = (Target.delete_target user_id uid w).1
serve env (verify user_id uid method) w = (Target.trigger_verification env user_id uid method w).1
serve env (admin_create admin req) w = (Admin.create_program_target env admin req w).1
serve env (admin_authorize admin uid req) w = (Admin.authorize_manually env admin uid req w).1
serve env (admin_revoke admin uid) w = (Admin.revoke admin uid w).1
serve env (admin_delete admin uid) w = (Admin.delete_any admin uid w).1
serve env (scope_check req) w = (check_scope env req w).1
serve env (verified_check uid user_id) w = (check_verified uid user_id w).1
serve env (list_assets user_id uid) w = (Assets.list_assets user_id uid w).1
serve env (upsert_assets uid items) w = (Assets.upsert_assets uid items w).1
serve env (list_targets user_id params) w =
    (Listing.list_targets env.ilike env.collate user_id params w).1
serve env (admin_list params) w = (Listing.list_all env.ilike env.collate params w).1
serve env (admin_get uid) w = (Listing.get_any_by_uid uid w).1
serve env admin_stats w = (Listing.stats w).1

-- What the service does between two moments: it serves requests in some order, one after another,
-- while time passes and the network and the driver do as they like.
pub data Reaches : World → World → Type 0 where
  here : {w : World} → Reaches w w
  served : {w w' : World} (env : Env) (req : Request) → Reaches w w' → Reaches w (serve env req w')
  waited :
      {w w' : World} (later : ℕ) (faults : List (Option Str)) (random : Str)
      → Reaches w w'
      → Reaches w (record w' { now = w'.now + later; faults = faults; random = random })

module _ {Inv : Db → Type 0} (k : Kept Inv) (env : Env) where
  -- An invariant of every write is an invariant of every request.
  pub serve-Inv : (req : Request) (w : World) → Inv w.db → Inv (serve env req w).db
  serve-Inv (create user_id req) w i =
      let s = create_target-Keeps k.auths env user_id req (create-Keeps k env.etld user_id req) in
      s.kept w i
  serve-Inv (get user_id uid) w i = let s = get_target-Keeps k.auths user_id uid in s.kept w i
  serve-Inv (delete user_id uid) w i = let s = delete_target-Keeps k env user_id uid in s.kept w i
  serve-Inv (verify user_id uid method) w i =
      let s = trigger_verification-Keeps k env user_id uid method in s.kept w i
  serve-Inv (admin_create admin req) w i =
      let s = create_program_target-Keeps k env admin req in s.kept w i
  serve-Inv (admin_authorize admin uid req) w i =
      let s = authorize_manually-Keeps k env admin uid req in s.kept w i
  serve-Inv (admin_revoke admin uid) w i = let s = revoke-Keeps k env admin uid in s.kept w i
  serve-Inv (admin_delete admin uid) w i = let s = delete_any-Keeps k env admin uid in s.kept w i
  serve-Inv (scope_check req) w i = let s = check_scope-Keeps {Inv = Inv} env req in s.kept w i
  serve-Inv (verified_check uid user_id) w i =
      let s = check_verified-Keeps {Inv = Inv} uid user_id in s.kept w i
  serve-Inv (list_assets user_id uid) w i =
      let s = list_assets-Keeps {Inv = Inv} user_id uid in s.kept w i
  serve-Inv (upsert_assets uid items) w i =
      let s = upsert_assets-Keeps k.upsert uid items in s.kept w i
  serve-Inv (list_targets user_id params) w i =
      let s = list_targets-Keeps {Inv = Inv} env.ilike env.collate user_id params in s.kept w i
  serve-Inv (admin_list params) w i =
      let s = list_all-Keeps {Inv = Inv} env.ilike env.collate params in s.kept w i
  serve-Inv (admin_get uid) w i = let s = get_any_by_uid-Keeps {Inv = Inv} uid in s.kept w i
  serve-Inv admin_stats w i = let s = stats-Keeps {Inv = Inv} in s.kept w i

Reaches-Inv :
    {Inv : Db → Type 0} (k : Kept Inv) (w w' : World) → Inv w.db → Reaches w w' → Inv w'.db
Reaches-Inv k w w' i here = i
Reaches-Inv k w w' i (served {w' = v} env req r) = serve-Inv k env req v (Reaches-Inv k w v i r)
Reaches-Inv k w w' i (waited {w' = v} later faults random r) = Reaches-Inv k w v i r

-- Whatever requests are served, in whatever order and with whatever failures of the database, the
-- targets keep their keys: no two share a uid, an id, or user, kind and value.
Reaches-HasKeys : (w w' : World) → HasKeys w.db → Reaches w w' → HasKeys w'.db
Reaches-HasKeys w w' i r = Reaches-Inv HasKeys-Kept w w' i r
