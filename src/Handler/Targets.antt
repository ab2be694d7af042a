-- ===== src/Handler/Targets.antt =====
-- internal/handler/target_handler.go and asset_handler.go: the routes of a user.
use target_service.Prelude.{ℕ, Bool, false, Option, none, some, [], ◌∷◌}
use target_service.Text.{Str, codes}
use target_service.Model.{Method, CreateTargetRequest, SearchParameters}
use target_service.Store.{
  Error, err_ip_targets_unsupported, err_target_exists, err_target_admin_authorized, Result, ok,
  err,
}
use target_service.Service.Cap
use target_service.Service.Cap.{TargetCapError, resolve_plan}
use target_service.Service.Target
use target_service.Service.Assets
use target_service.Service.Listing
use target_service.Handler.{is_admin_request, validate_paging_params}
use target_service.Handler.Server.{CapConfig, Server}
use target_service.Handler.Http.{
  Call, Body, says, tells, did_not_pass, plan_allows, detail, targets, assets,
  plan_upgrade_required, Answer, Handler, prepare_response, refuse, retrieved, respond, with_user,
  with_uid, with_body,
}

abbrev pub creation_failed : Error → Answer
creation_failed err_ip_targets_unsupported = refuse 422 (tells err_ip_targets_unsupported)
creation_failed err_target_exists = refuse 409 (tells err_target_exists)
creation_failed e = refuse 500 (says "Failed to register target")

unfoldable pub create_uncapped : Server → ℕ → CreateTargetRequest → Handler
create_uncapped server user_id req =
    respond (Target.create_target server.env user_id req) creation_failed
      (λ dto. retrieved 201 "Target registered successfully" (detail dto))

abbrev pub cap_answer : TargetCapError → Answer
cap_answer e =
    prepare_response 403 (plan_allows e.plan e.max_targets) false
      (some (plan_upgrade_required e.plan e.max_targets))

-- A refusal of the cap is the answer; another error of the check lets the request pass.
unfoldable pub unless_capped : Result (Option TargetCapError) → Handler → Handler
unless_capped (ok (some e)) next w = (cap_answer e, w)
unless_capped (ok none) next w = next w
unless_capped (err e) next w = next w

unfoldable pub capped : Server → CapConfig → Call → ℕ → Handler → Handler
capped server config call user_id next w =
    let (r, w') =
      Cap.check server.env.ilike config.limits user_id
        (resolve_plan config.plans call.user_plan user_id) w in
    unless_capped r next w'

-- An administrator is not capped.
unfoldable pub create_checked :
    Server → Option CapConfig → Bool → Call → ℕ → CreateTargetRequest → Handler
create_checked server (some config) false call user_id req =
    capped server config call user_id (create_uncapped server user_id req)
create_checked server _ _ call user_id req = create_uncapped server user_id req

unfoldable pub create : Server → Call → Body CreateTargetRequest → Handler
create server call body = with_user call (λ user_id. with_body body (λ req.
    create_checked server server.cap (is_admin_request call.is_admin call.user_roles) call user_id
      req))

abbrev given_text : Str → Option Str
given_text [] = none
given_text (c ∷ s) = some (c ∷ s)

abbrev list_params : Call → SearchParameters
list_params call =
    let ((page, page_size), (sort_by, sort_order)) =
      validate_paging_params (call.query_param (codes "page"))
        (call.query_param (codes "page_size")) (call.query_param (codes "sort_by"))
        (call.query_param (codes "sort_order")) in
    record {
      user_id = none;
      status = given_text (call.query_param (codes "status"));
      source = none;
      query = none;
      sort_by = sort_by;
      sort_order = sort_order;
      page_number = page;
      page_size = page_size;
    }

unfoldable pub list : Server → Call → Handler
list server call = with_user call (λ user_id.
    respond (Listing.list_targets server.env.ilike server.env.collate user_id (list_params call))
      (λ e. refuse 500 (says "Failed to list targets"))
      (λ dtos. retrieved 200 "Targets retrieved" (targets dtos)))

unfoldable pub get_by_uid : Call → Handler
get_by_uid call = with_user call (λ user_id. with_uid call (λ uid.
    respond (Target.get_target user_id uid) (λ e. refuse 404 (says "Target not found"))
      (λ dto. retrieved 200 "Target retrieved" (detail dto))))

abbrev pub verification_failed : Error → Answer
verification_failed err_target_admin_authorized = refuse 409 (tells err_target_admin_authorized)
verification_failed e = refuse 400 (did_not_pass e)

unfoldable pub verify : Server → Call → Body Method → Handler
verify server call body = with_user call (λ user_id. with_uid call (λ uid. with_body body (λ method.
    respond (Target.trigger_verification server.env user_id uid method) verification_failed
      (λ dto. retrieved 200 "Verification complete" (detail dto)))))

unfoldable pub delete : Call → Handler
delete call = with_user call (λ user_id. with_uid call (λ uid.
    respond (Target.delete_target user_id uid) (λ e. refuse 500 (says "Failed to delete target"))
      (λ _. prepare_response 200 (says "Target deleted") false none)))

unfoldable pub list_assets : Call → Handler
list_assets call = with_user call (λ user_id. with_uid call (λ uid.
    respond (Assets.list_assets user_id uid) (λ e. refuse 500 (says "Failed to retrieve assets"))
      (λ dtos. retrieved 200 "Assets retrieved" (assets dtos))))
