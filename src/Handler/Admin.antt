-- ===== src/Handler/Admin.antt =====
-- internal/handler/admin_handler.go and program_handler.go: the routes of an administrator.
use target_service.Prelude.{false, Option, none, some, List, [], ◌∷◌, String, if◌then◌else◌}
use target_service.Text.{Str, codes, str_eq, trim_space}
use target_service.Model.{
  AdminCreateProgramTargetRequest, AdminAuthorizeTargetRequest, unverified, verifying, verified,
  revoked, customer, program,
}
use target_service.Store.{
  Error, err_target_not_found, err_target_exists, err_ip_targets_unsupported, no_policy_connector,
  policy_failure,
}
use target_service.Store.Search.{status_text, source_text}
use target_service.Service.Admin
use target_service.Service.Listing
use target_service.Service.Programs
use target_service.Service.Programs.{SyncProgramRequest}
use target_service.Handler.{is_admin_request, admin_paging_params}
use target_service.Handler.Server.{Server}
use target_service.Handler.Http
use target_service.Handler.Http.{
  Call, Body, Message, says, tells, Answer, Handler, with_user_param, with_filter, admin_target,
  admin_targets, statistics, prepare_response, refuse, retrieved, respond, with_user, with_uid,
  with_body,
}

-- RequireAdmin.
unfoldable pub require_admin : Call → Handler → Handler
require_admin call next w =
    if is_admin_request call.is_admin call.user_roles
    then next w
    else (prepare_response 403 (says "admin only") false none, w)

abbrev pub admin_error : String → Error → Answer
admin_error generic err_target_not_found = refuse 404 (says "Target not found")
admin_error generic err_target_exists = refuse 409 (tells err_target_exists)
admin_error generic err_ip_targets_unsupported = refuse 422 (tells err_ip_targets_unsupported)
admin_error generic e = refuse 500 (says generic)

abbrev valid_statuses : List Str
valid_statuses =
    status_text unverified ∷ status_text verifying ∷ status_text verified ∷ status_text revoked ∷ []

abbrev valid_sources : List Str
valid_sources = source_text customer ∷ source_text program ∷ []

abbrev non_empty : Str → Option Str
non_empty [] = none
non_empty (c ∷ s) = some (c ∷ s)

unfoldable pub list_targets : Server → Call → Handler
list_targets server call =
    let (page, page_size) =
      admin_paging_params (call.query_param (codes "page"))
        (call.query_param (codes "page_size")) in
    with_user_param (call.query_param (codes "user_id")) (λ user_id.
      with_filter valid_statuses "status must be one of unverified|verifying|verified|revoked"
        (call.query_param (codes "status"))
        (λ status.
          with_filter valid_sources "source must be one of customer|program"
            (call.query_param (codes "source"))
            (λ source.
              respond
                (Listing.list_all server.env.ilike server.env.collate (record {
                  user_id = user_id;
                  status = status;
                  source = source;
                  query = non_empty (trim_space (call.query_param (codes "q")));
                  sort_by = codes "created_at";
                  sort_order = codes "desc";
                  page_number = page;
                  page_size = page_size;
                }))
                (λ e. refuse 500 (says "Failed to list targets"))
                (λ found.
                  retrieved 200 "Targets retrieved"
                    (admin_targets found.0 found.1 page page_size)))))

unfoldable pub get_target : Call → Handler
get_target call = with_uid call (λ uid.
    respond (Listing.get_any_by_uid uid) (admin_error "Failed to retrieve target")
      (λ dto. retrieved 200 "Target retrieved" (admin_target dto)))

unfoldable pub create_program_target :
    Server → Call → Body AdminCreateProgramTargetRequest → Handler
create_program_target server call body = with_user call (λ admin. with_body body (λ req.
    respond (Admin.create_program_target server.env admin req)
      (admin_error "Failed to create program target")
      (λ dto. retrieved 201 "Program target created" (admin_target dto))))

unfoldable pub authorize_target : Server → Call → Body AdminAuthorizeTargetRequest → Handler
authorize_target server call body = with_user call (λ admin. with_uid call (λ uid.
    with_body body (λ req.
      respond (Admin.authorize_manually server.env admin uid req)
        (admin_error "Failed to authorize target")
        (λ dto. retrieved 200 "Target authorized" (admin_target dto)))))

-- The reason, which the body holds, goes into the audit event only.
unfoldable pub revoke_target : Call → Body Str → Handler
revoke_target call body = with_user call (λ admin. with_uid call (λ uid. with_body body (λ reason.
    respond (Admin.revoke admin uid) (admin_error "Failed to revoke target")
      (λ dto. retrieved 200 "Target revoked" (admin_target dto)))))

unfoldable pub delete_target : Call → Handler
delete_target call = with_user call (λ admin. with_uid call (λ uid.
    respond (Admin.delete_any admin uid) (admin_error "Failed to delete target")
      (λ _. prepare_response 200 (says "Target deleted") false none)))

unfoldable pub stats : Handler
stats =
    respond Listing.stats (λ e. refuse 500 (says "Failed to compute stats"))
      (λ s. retrieved 200 "Stats retrieved" (statistics s))

-- ErrPolicySourceUnavailable is the failure of a connector with that text.
abbrev pub sync_failed : Error → Answer
sync_failed (policy_failure text) =
    if str_eq text (codes "policy source unavailable")
    then refuse 503 (says "policy source unavailable: platform credentials are not configured")
    else refuse 502 (says "Failed to sync program policy")
sync_failed (no_policy_connector platform) =
    refuse 502 (says "no policy connector configured for this platform")
sync_failed e = refuse 502 (says "Failed to sync program policy")

unfoldable pub sync_program : Server → Body SyncProgramRequest → Handler
sync_program server body = with_body body (λ req.
    respond (Programs.sync_program server.env.collate server.connectors req) sync_failed
      (λ dto. retrieved 200 "Program synced" (Http.program dto)))
