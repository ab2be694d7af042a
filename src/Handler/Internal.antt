-- ===== src/Handler/Internal.antt =====
-- internal/handler/internal_handler.go: the routes of other services.
use target_service.Prelude.{false, ◌&&◌, none, List, if◌then◌else◌}
use target_service.Text.{codes}
use target_service.Model.{ScopeCheckRequest, AssetUpsertItem}
use target_service.Scope.Technique.{is_empty}
use target_service.Scope.Gate.{check_scope}
use target_service.Scope.Verified.{check_verified}
use target_service.Service.Assets
use target_service.Handler.Server.{Server}
use target_service.Handler.Http.{
  Call, Body, says, scope, verified, assets, Handler, prepare_response, refuse, retrieved, respond,
  with_user_param, with_uid, with_body,
}

unfoldable pub is_verified : Call → Handler
is_verified call = with_uid call (λ uid.
    with_user_param (call.query_param (codes "user_id")) (λ user_id.
      respond (check_verified uid user_id) (λ e. refuse 500 (says "Verification check failed"))
        (λ result. retrieved 200 "Verification check complete" (verified result))))

unfoldable pub check_asked : Server → ScopeCheckRequest → Handler
check_asked server req w =
    if is_empty req.host && is_empty req.ip
    then (prepare_response 400 (says "either host or ip must be provided") false none, w)
    else respond (check_scope server.env req) (λ e. refuse 500 (says "Scope check failed"))
        (λ result. retrieved 200 "Scope check complete" (scope result)) w

unfoldable pub scope_check : Server → Body ScopeCheckRequest → Handler
scope_check server body = with_body body (check_asked server)

unfoldable pub upsert_assets : Call → Body (List AssetUpsertItem) → Handler
upsert_assets call body = with_uid call (λ uid. with_body body (λ items.
    respond (Assets.upsert_assets uid items) (λ e. refuse 500 (says "Failed to upsert assets"))
      (λ dtos. retrieved 200 "Assets upserted" (assets dtos))))
