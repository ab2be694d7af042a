-- ===== src/Handler/Routes.antt =====
-- The routes of the groups /v1/targets, /v1/admin and /internal/v1 of cmd/target-service/main.go,
-- with the bodies that they take. The group /v1/admin has RequireAdmin before each of its handlers.
-- The group /v1/tools, which has no database, is in Handler.Tools.
mod Tests
mod Keys
mod Quiet
mod Discreet
pub mod Gate
mod Isolation
use target_service.Prelude.{ℕ, List}
use target_service.Text.{Str}
use target_service.Model.{
  Method, CreateTargetRequest, AdminCreateProgramTargetRequest, AdminAuthorizeTargetRequest,
  ScopeCheckRequest, AssetUpsertItem,
}
use target_service.Service.Programs.{SyncProgramRequest}
use target_service.Handler.Server.{Server}
use target_service.Handler.Http.{Call, Body, Handler}
use target_service.Handler.Targets
use target_service.Handler.Admin
use target_service.Handler.Admin.{require_admin}
use target_service.Handler.Internal

-- /v1/targets
pub data UserRoute : Type 0 where
  create : Body CreateTargetRequest → UserRoute
  list get delete list_assets : UserRoute
  verify : Body Method → UserRoute

-- /v1/admin
pub data AdminRoute : Type 0 where
  list_targets get_target delete_target stats : AdminRoute
  create_program_target : Body AdminCreateProgramTargetRequest → AdminRoute
  authorize_target : Body AdminAuthorizeTargetRequest → AdminRoute
  revoke_target : Body Str → AdminRoute
  sync_program : Body SyncProgramRequest → AdminRoute

-- /internal/v1
pub data InternalRoute : Type 0 where
  scope_check : Body ScopeCheckRequest → InternalRoute
  is_verified : InternalRoute
  upsert_assets : Body (List AssetUpsertItem) → InternalRoute

pub data Route : Type 0 where
  user : UserRoute → Route
  admin : AdminRoute → Route
  within : InternalRoute → Route

abbrev pub handle_user : Server → UserRoute → Call → Handler
handle_user server (create body) call = Targets.create server call body
handle_user server list call = Targets.list server call
handle_user server get call = Targets.get_by_uid call
handle_user server (verify body) call = Targets.verify server call body
handle_user server delete call = Targets.delete call
handle_user server list_assets call = Targets.list_assets call

abbrev pub handle_admin : Server → AdminRoute → Call → Handler
handle_admin server list_targets call = Admin.list_targets server call
handle_admin server (create_program_target body) call = Admin.create_program_target server call body
handle_admin server get_target call = Admin.get_target call
handle_admin server (authorize_target body) call = Admin.authorize_target server call body
handle_admin server (revoke_target body) call = Admin.revoke_target call body
handle_admin server delete_target call = Admin.delete_target call
handle_admin server stats call = Admin.stats
handle_admin server (sync_program body) call = Admin.sync_program server body

abbrev pub handle_internal : Server → InternalRoute → Call → Handler
handle_internal server (scope_check body) call = Internal.scope_check server body
handle_internal server is_verified call = Internal.is_verified call
handle_internal server (upsert_assets body) call = Internal.upsert_assets call body

abbrev pub handle : Server → Route → Call → Handler
handle server (user route) call = handle_user server route call
handle server (admin route) call = require_admin call (handle_admin server route call)
handle server (within route) call = handle_internal server route call
