-- ===== src/Handler/Routes/Discreet.antt =====
-- What the answers of the routes tell of an error.
use target_service.Prelude.{
  ℕ, refl, ◌&&◌, inl, inr, Bool, true, false, Bool-cases, Option, none, some, arith,
}
use target_service.Model.{CreateTargetRequest, ScopeCheckRequest}
use target_service.Store.{Error, err_target_admin_authorized, Result, ok, err, World}
use target_service.Scope.Technique.{is_empty}
use target_service.Scope.Gate.{check_scope}
use target_service.Service.Target
use target_service.Service.Cap
use target_service.Service.Cap.{TargetCapError, resolve_plan}
use target_service.Handler.{is_admin_request}
use target_service.Handler.Server.{Server, CapConfig}
use target_service.Handler.Http.{Call, Answer, Handler}
use target_service.Handler.Http.Rules.{
  IsRefusal, with_user_rule, with_uid_rule, with_body_rule, respond_rule,
}
use target_service.Handler.Targets
use target_service.Handler.Targets.{
  creation_failed, verification_failed, unless_capped, capped, create_checked, create_uncapped,
  verify,
}
use target_service.Handler.Admin
use target_service.Handler.Admin.{admin_error, sync_failed, require_admin}
use target_service.Handler.Internal
use target_service.Handler.Internal.{check_asked}
use target_service.Handler.Routes.{
  Route, user, admin, within, UserRoute, AdminRoute, InternalRoute, handle_user, handle_admin,
  handle_internal, handle,
}
use target_service.Handler.Routes.Quiet.{
  IsDiscreet, fixed, plan, IsTold, quiet, of_verify, of_scope_check, TellsNoReason, IsQuiet, Quiet,
  silent, shown, refusal-IsQuiet, with_user-Quiet, with_uid-Quiet, with_body-Quiet, respond-Quiet,
  creation_failed-IsQuiet, admin_error-IsQuiet, sync_failed-IsQuiet, with_user_param-Quiet,
  with_filter-Quiet,
}

unless_capped-Quiet :
    (r : Result (Option TargetCapError)) (next : Handler)
    → Quiet next
    → Quiet (unless_capped r next)
unfolding unless_capped
unless_capped-Quiet (ok (some e)) next q w = record {
  message = plan e.plan e.max_targets;
  no_reason = λ r h. ground arith;
}
unless_capped-Quiet (ok none) next q w = q w
unless_capped-Quiet (err e) next q w = q w

create_uncapped-Quiet :
    (server : Server) (user_id : ℕ) (req : CreateTargetRequest)
    → Quiet (create_uncapped server user_id req)
unfolding create_uncapped
create_uncapped-Quiet server user_id req =
    respond-Quiet _ _ _ creation_failed-IsQuiet (λ a. shown (λ r e. ground arith))

create_checked-Quiet :
    (server : Server) (config : Option CapConfig) (is_admin : Bool) (call : Call) (user_id : ℕ)
    (req : CreateTargetRequest)
    → Quiet (create_checked server config is_admin call user_id req)
unfolding create_checked capped
create_checked-Quiet server (some config) false call user_id req w =
    let plan = resolve_plan config.plans call.user_plan user_id in
    let x = Cap.check server.env.ilike config.limits user_id plan w in
    unless_capped-Quiet x.0 (create_uncapped server user_id req)
      (create_uncapped-Quiet server user_id req) x.1
create_checked-Quiet server (some config) true call user_id req w =
    create_uncapped-Quiet server user_id req w
create_checked-Quiet server none is_admin call user_id req w =
    create_uncapped-Quiet server user_id req w

refusal_silent : (a : Answer) → IsRefusal a → TellsNoReason a
refusal_silent a x = let q = refusal-IsQuiet a x in q.no_reason

verification_failed-TellsNoReason : (e : Error) → TellsNoReason (verification_failed e)
verification_failed-TellsNoReason err_target_admin_authorized = λ r h. ground arith
verification_failed-TellsNoReason _ = λ r h. ground arith

at : (handler : Handler) (w : World) → Quiet handler → IsQuiet (handler w).0
at handler w q = q w

handle_user-Quiet :
    (server : Server) (route : UserRoute) (call : Call)
    → (w : World) → IsTold (user route) (handle_user server route call w).0
unfolding Targets.create Targets.list Targets.get_by_uid Targets.delete Targets.list_assets
    Targets.verify
handle_user-Quiet server (UserRoute.create body) call w = quiet (
    at (Targets.create server call body) w (
      with_user-Quiet call _ (λ id. with_body-Quiet body _ (λ req.
        create_checked-Quiet server server.cap (is_admin_request call.is_admin call.user_roles) call
          id req))))
handle_user-Quiet server UserRoute.list call w = quiet (
    at (Targets.list server call) w (
      with_user-Quiet call _ (λ id.
        respond-Quiet _ _ _ (λ e. silent (fixed _) refl) (λ a. shown (λ r e. ground arith)))))
handle_user-Quiet server UserRoute.get call w = quiet (
    at (Targets.get_by_uid call) w (
      with_user-Quiet call _ (λ id. with_uid-Quiet call _ (λ uid.
        respond-Quiet _ _ _ (λ e. silent (fixed _) refl) (λ a. shown (λ r e. ground arith))))))
handle_user-Quiet server UserRoute.delete call w = quiet (
    at (Targets.delete call) w (
      with_user-Quiet call _ (λ id. with_uid-Quiet call _ (λ uid.
        respond-Quiet _ _ _ (λ e. silent (fixed _) refl) (λ a. shown (λ r e. ground arith))))))
handle_user-Quiet server UserRoute.list_assets call w = quiet (
    at (Targets.list_assets call) w (
      with_user-Quiet call _ (λ id. with_uid-Quiet call _ (λ uid.
        respond-Quiet _ _ _ (λ e. silent (fixed _) refl) (λ a. shown (λ r e. ground arith))))))
handle_user-Quiet server (UserRoute.verify body) call w = of_verify body refl (
    with_user_rule w (λ x. TellsNoReason x.0) refusal_silent call _
      (λ id e.
        with_uid_rule w (λ x. TellsNoReason x.0) refusal_silent call _
          (λ uid e.
            with_body_rule w (λ x. TellsNoReason x.0) refusal_silent body _
              (λ method e.
                respond_rule (λ x. TellsNoReason x.0)
                  (Target.trigger_verification server.env id uid method) verification_failed _ w
                  (λ x q. verification_failed-TellsNoReason x) (λ dto q r h. ground arith)))))

handle_admin-Quiet :
    (server : Server) (route : AdminRoute) (call : Call) → Quiet (handle_admin server route call)
unfolding Admin.list_targets Admin.get_target Admin.create_program_target Admin.authorize_target
    Admin.revoke_target Admin.delete_target Admin.stats Admin.sync_program
handle_admin-Quiet server AdminRoute.list_targets call = with_user_param-Quiet _ _ (λ id.
    with_filter-Quiet _ _ _ _ (λ status. with_filter-Quiet _ _ _ _ (λ source.
      respond-Quiet _ _ _ (λ e. silent (fixed _) refl) (λ a. shown (λ r e. ground arith)))))
handle_admin-Quiet server AdminRoute.get_target call =
    with_uid-Quiet call _
      (λ uid. respond-Quiet _ _ _ (admin_error-IsQuiet _) (λ a. shown (λ r e. ground arith)))
handle_admin-Quiet server (AdminRoute.create_program_target body) call =
    with_user-Quiet call _ (λ id.
      with_body-Quiet body _
        (λ req. respond-Quiet _ _ _ (admin_error-IsQuiet _) (λ a. shown (λ r e. ground arith))))
handle_admin-Quiet server (AdminRoute.authorize_target body) call = with_user-Quiet call _ (λ id.
    with_uid-Quiet call _ (λ uid.
      with_body-Quiet body _
        (λ req. respond-Quiet _ _ _ (admin_error-IsQuiet _) (λ a. shown (λ r e. ground arith)))))
handle_admin-Quiet server (AdminRoute.revoke_target body) call = with_user-Quiet call _ (λ id.
    with_uid-Quiet call _ (λ uid.
      with_body-Quiet body _
        (λ req. respond-Quiet _ _ _ (admin_error-IsQuiet _) (λ a. shown (λ r e. ground arith)))))
handle_admin-Quiet server AdminRoute.delete_target call = with_user-Quiet call _ (λ id.
    with_uid-Quiet call _
      (λ uid. respond-Quiet _ _ _ (admin_error-IsQuiet _) (λ a. shown (λ r e. ground arith))))
handle_admin-Quiet server AdminRoute.stats call =
    respond-Quiet _ _ _ (λ e. silent (fixed _) refl) (λ a. shown (λ r e. ground arith))
handle_admin-Quiet server (AdminRoute.sync_program body) call =
    with_body-Quiet body _
      (λ req. respond-Quiet _ _ _ sync_failed-IsQuiet (λ a. shown (λ r e. ground arith)))

require_admin-Quiet : (call : Call) (next : Handler) → Quiet next → Quiet (require_admin call next)
unfolding require_admin
require_admin-Quiet call next q w =
    elim (Bool-cases (is_admin_request call.is_admin call.user_roles)) [
      | inl y ↦ rw y (q w)
      | inr n ↦ rw n (silent (fixed _) refl)
    ]

check_asked-IsDiscreet :
    (server : Server) (req : ScopeCheckRequest) (w : World)
    → IsDiscreet (check_asked server req w).0.message
unfolding check_asked
check_asked-IsDiscreet server req w = elim (Bool-cases (is_empty req.host && is_empty req.ip)) [
  | inl y ↦ rw y (fixed _)
  | inr n ↦ rw n (
      respond_rule (λ x. IsDiscreet x.0.message) (check_scope server.env req) _ _ w (λ e q. fixed _)
        (λ a q. fixed _))
]

handle_internal-Quiet :
    (server : Server) (route : InternalRoute) (call : Call) (w : World)
    → IsTold (within route) (handle_internal server route call w).0
unfolding Internal.scope_check Internal.is_verified Internal.upsert_assets
handle_internal-Quiet server (InternalRoute.scope_check body) call w = of_scope_check body refl (
    with_body_rule w (λ x. IsDiscreet x.0.message) (λ a x. let q = refusal-IsQuiet a x in q.message)
      body _ (λ req e. check_asked-IsDiscreet server req w))
handle_internal-Quiet server InternalRoute.is_verified call w = quiet (
    at (Internal.is_verified call) w (
      with_uid-Quiet call _ (λ uid. with_user_param-Quiet _ _ (λ id.
        respond-Quiet _ _ _ (λ e. silent (fixed _) refl) (λ a. shown (λ r e. ground arith))))))
handle_internal-Quiet server (InternalRoute.upsert_assets body) call w = quiet (
    at (Internal.upsert_assets call body) w (
      with_uid-Quiet call _ (λ uid. with_body-Quiet body _ (λ items.
        respond-Quiet _ _ _ (λ e. silent (fixed _) refl) (λ a. shown (λ r e. ground arith))))))

-- Whatever goes wrong inside, no answer tells of a failure of the database, of the random source or
-- of another service, but for the message of Verify and the data of a scope check: the message is a
-- fixed text, the limit of a plan, or the text of an error that is meant for a client, and the data
-- is no reason of a scope check, the only data that has room for an error.
pub handle-IsDiscreet :
    (server : Server) (route : Route) (call : Call) (w : World)
    → IsTold route (handle server route call w).0
handle-IsDiscreet server (user route) call w = handle_user-Quiet server route call w
handle-IsDiscreet server (admin route) call w =
    quiet (require_admin-Quiet call _ (handle_admin-Quiet server route call) w)
handle-IsDiscreet server (within route) call w = handle_internal-Quiet server route call w
