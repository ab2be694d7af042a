-- ===== src/Handler/Routes/Keys.antt =====
-- The keys of the targets, whatever calls arrive.
use target_service.Prelude.{
  ℕ, ◌+◌, ◌≡◌, refl, sym, inl, inr, Bool, true, false, ◌&&◌, Bool-cases, Option, none, some, List,
}
use mathlib.Core.Path.{subst}
use target_service.Text.{Str}
use target_service.Model.{CreateTargetRequest, ScopeCheckRequest}
use target_service.Store.{Error, Result, ok, err, World, M, lift}
use target_service.Store.Keys.{HasKeys}
use target_service.Store.Keys.Actions.{HasKeys-Kept}
use target_service.Store.Keeps.{Keeps, bind-Keeps, pure-Keeps, read-Keeps}
use target_service.Store.Reads.{list_assets-Same}
use target_service.Store.Listing.{Collation}
use target_service.Store.Programs
use target_service.Store.Programs.Sync.Keys.{sync-Keeps}
use target_service.Scope.Technique.{is_empty}
use target_service.Scope.Gate.{check_scope}
use target_service.Service.Cap
use target_service.Service.Cap.{TargetCapError, resolve_plan}
use target_service.Service.Cap.Reads.{check-Same}
use target_service.Service.Programs.{Connectors, SyncProgramRequest, sync_program, fetch_policy}
use target_service.Service.System.{Request, serve, serve-Inv}
use target_service.Handler.{is_admin_request}
use target_service.Handler.Server.{Server, CapConfig}
use target_service.Handler.Http.{
  Call, Body, Answer, Handler, respond, with_user, with_uid, with_body,
}
use target_service.Handler.Http.Rules.{
  with_user_rule, with_uid_rule, with_body_rule, with_user_param_rule, with_filter_rule,
  respond_rule,
}
use target_service.Handler.Targets
use target_service.Handler.Targets.{unless_capped, capped, create_checked, create_uncapped}
use target_service.Handler.Admin
use target_service.Handler.Admin.{require_admin}
use target_service.Handler.Internal
use target_service.Handler.Internal.{check_asked}
use target_service.Handler.Routes.{
  Route, user, admin, within, UserRoute, AdminRoute, InternalRoute, handle_user, handle_admin,
  handle_internal, handle,
}

sync_program-Keeps :
    (collate : Collation) (connectors : Connectors) (req : SyncProgramRequest)
    → Keeps HasKeys (sync_program collate connectors req)
unfolding sync_program
sync_program-Keeps collate connectors req =
    bind-Keeps {m = lift (fetch_policy connectors req)} (record { kept = λ w i. i })
      (λ policy. bind-Keeps (sync-Keeps _ _) (λ stored.
        bind-Keeps {m = Programs.list_assets collate stored.id}
          (read-Keeps (Programs.list_assets collate stored.id) (list_assets-Same collate stored.id))
          (λ assets. pure-Keeps _)))

abbrev Kept : Answer × World → Type 0
Kept x = HasKeys x.1.db

module _ (w : World) (k : HasKeys w.db) where
  -- A handler that does what a request of the system does.
  serves :
      {A : Type 0} (server : Server) (req : Request) (m : M A) (failed : Error → Answer)
      (done : A → Answer)
      → (m w).1 ≡ serve server.env req w
      → Kept (respond m failed done w)
  serves server req m failed done e =
      let h : HasKeys (m w).1.db =
        subst (λ v. HasKeys v.db) (sym e) (serve-Inv HasKeys-Kept server.env req w k) in
      respond_rule Kept m failed done w (λ _ _. h) (λ _ _. h)

  with_user-Kept :
      (call : Call) (handler : ℕ → Handler)
      → ((id : ℕ) → Kept (handler id w))
      → Kept (with_user call handler w)
  with_user-Kept call handler h = with_user_rule w Kept (λ a r. k) call handler (λ id e. h id)

  with_uid-Kept :
      (call : Call) (handler : ℕ → Handler)
      → ((uid : ℕ) → Kept (handler uid w))
      → Kept (with_uid call handler w)
  with_uid-Kept call handler h = with_uid_rule w Kept (λ a r. k) call handler (λ uid e. h uid)

  with_body-Kept :
      {A : Type 0} (body : Body A) (handler : A → Handler)
      → ((a : A) → Kept (handler a w))
      → Kept (with_body body handler w)
  with_body-Kept body handler h = with_body_rule w Kept (λ a r. k) body handler (λ a e. h a)

  create_uncapped-Kept :
      (server : Server) (user_id : ℕ) (req : CreateTargetRequest)
      → Kept (create_uncapped server user_id req w)
  unfolding create_uncapped
  create_uncapped-Kept server user_id req = serves server (Request.create user_id req) _ _ _ refl

  handle_admin-Kept :
      (server : Server) (route : AdminRoute) (call : Call) → Kept (handle_admin server route call w)
  unfolding Admin.list_targets Admin.create_program_target Admin.get_target Admin.authorize_target
      Admin.revoke_target Admin.delete_target Admin.stats Admin.sync_program
  handle_admin-Kept server AdminRoute.list_targets call =
      with_user_param_rule w Kept (λ a r. k) _ _
        (λ user_id.
          with_filter_rule w Kept (λ a r. k) _ _ _ _
            (λ status.
              with_filter_rule w Kept (λ a r. k) _ _ _ _
                (λ source. serves server (Request.admin_list _) _ _ _ refl)))
  handle_admin-Kept server (AdminRoute.create_program_target body) call =
      with_user-Kept call _ (λ admin.
        with_body-Kept body _ (λ req. serves server (Request.admin_create admin req) _ _ _ refl))
  handle_admin-Kept server AdminRoute.get_target call =
      with_uid-Kept call _ (λ uid. serves server (Request.admin_get uid) _ _ _ refl)
  handle_admin-Kept server (AdminRoute.authorize_target body) call = with_user-Kept call _ (λ admin.
      with_uid-Kept call _ (λ uid.
        with_body-Kept body _
          (λ req. serves server (Request.admin_authorize admin uid req) _ _ _ refl)))
  handle_admin-Kept server (AdminRoute.revoke_target body) call = with_user-Kept call _ (λ admin.
      with_uid-Kept call _ (λ uid.
        with_body-Kept body _
          (λ reason. serves server (Request.admin_revoke admin uid) _ _ _ refl)))
  handle_admin-Kept server AdminRoute.delete_target call = with_user-Kept call _ (λ admin.
      with_uid-Kept call _ (λ uid. serves server (Request.admin_delete admin uid) _ _ _ refl))
  handle_admin-Kept server AdminRoute.stats call = serves server Request.admin_stats _ _ _ refl
  handle_admin-Kept server (AdminRoute.sync_program body) call = with_body-Kept body _ (λ req.
      let s = sync_program-Keeps server.env.collate server.connectors req in
      respond_rule Kept (sync_program server.env.collate server.connectors req) _ _ w
        (λ _ _. s.kept w k) (λ _ _. s.kept w k))

  check_asked-Kept : (server : Server) (req : ScopeCheckRequest) → Kept (check_asked server req w)
  unfolding check_asked
  check_asked-Kept server req = elim (Bool-cases (is_empty req.host && is_empty req.ip)) [
    | inl y ↦ rw y k
    | inr n ↦ rw n (serves server (Request.scope_check req) (check_scope server.env req) _ _ refl)
  ]

  handle_internal-Kept :
      (server : Server) (route : InternalRoute) (call : Call)
      → Kept (handle_internal server route call w)
  unfolding Internal.scope_check Internal.is_verified Internal.upsert_assets
  handle_internal-Kept server (InternalRoute.scope_check body) call =
      with_body-Kept body _ (check_asked-Kept server)
  handle_internal-Kept server InternalRoute.is_verified call = with_uid-Kept call _ (λ uid.
      with_user_param_rule w Kept (λ a r. k) _ _
        (λ id. serves server (Request.verified_check uid id) _ _ _ refl))
  handle_internal-Kept server (InternalRoute.upsert_assets body) call = with_uid-Kept call _ (λ uid.
      with_body-Kept body _ (λ items. serves server (Request.upsert_assets uid items) _ _ _ refl))

  require_admin-Kept :
      (call : Call) (next : Handler) → Kept (next w) → Kept (require_admin call next w)
  unfolding require_admin
  require_admin-Kept call next h =
      elim (Bool-cases (is_admin_request call.is_admin call.user_roles)) [
        | inl y ↦ rw y h
        | inr n ↦ rw n k
      ]

unless_capped-Kept :
    (server : Server) (user_id : ℕ) (req : CreateTargetRequest) (w : World)
    → HasKeys w.db
    → (r : Result (Option TargetCapError)) (v : World) → v.db ≡ w.db
    → Kept (unless_capped r (create_uncapped server user_id req) v)
unfolding unless_capped
unless_capped-Kept server user_id req w k (ok (some x)) v e = subst HasKeys (sym e) k
unless_capped-Kept server user_id req w k (ok none) v e =
    create_uncapped-Kept v (subst HasKeys (sym e) k) server user_id req
unless_capped-Kept server user_id req w k (err x) v e =
    create_uncapped-Kept v (subst HasKeys (sym e) k) server user_id req

create_checked-Kept :
    (server : Server) (config : Option CapConfig) (is_admin : Bool) (call : Call) (user_id : ℕ)
    (req : CreateTargetRequest) (w : World)
    → HasKeys w.db
    → Kept (create_checked server config is_admin call user_id req w)
unfolding create_checked capped
create_checked-Kept server (some config) false call user_id req w k =
    let plan = resolve_plan config.plans call.user_plan user_id in
    let x = Cap.check server.env.ilike config.limits user_id plan w in
    let same = check-Same server.env.ilike config.limits user_id plan w in
    unless_capped-Kept server user_id req w k x.0 x.1 same.db
create_checked-Kept server (some config) true call user_id req w k =
    create_uncapped-Kept w k server user_id req
create_checked-Kept server none is_admin call user_id req w k =
    create_uncapped-Kept w k server user_id req

handle_user-Kept :
    (server : Server) (route : UserRoute) (call : Call) (w : World)
    → HasKeys w.db
    → Kept (handle_user server route call w)
unfolding Targets.create Targets.list Targets.get_by_uid Targets.verify Targets.delete
    Targets.list_assets
handle_user-Kept server (UserRoute.create body) call w k = with_user-Kept w k call _ (λ user_id.
    with_body-Kept w k body _ (λ req.
      create_checked-Kept server server.cap (is_admin_request call.is_admin call.user_roles) call
        user_id req w k))
handle_user-Kept server UserRoute.list call w k =
    with_user-Kept w k call _
      (λ user_id. serves w k server (Request.list_targets user_id _) _ _ _ refl)
handle_user-Kept server UserRoute.get call w k = with_user-Kept w k call _ (λ user_id.
    with_uid-Kept w k call _ (λ uid. serves w k server (Request.get user_id uid) _ _ _ refl))
handle_user-Kept server (UserRoute.verify body) call w k = with_user-Kept w k call _ (λ user_id.
    with_uid-Kept w k call _ (λ uid.
      with_body-Kept w k body _
        (λ method. serves w k server (Request.verify user_id uid method) _ _ _ refl)))
handle_user-Kept server UserRoute.delete call w k = with_user-Kept w k call _ (λ user_id.
    with_uid-Kept w k call _ (λ uid. serves w k server (Request.delete user_id uid) _ _ _ refl))
handle_user-Kept server UserRoute.list_assets call w k = with_user-Kept w k call _ (λ user_id.
    with_uid-Kept w k call _
      (λ uid. serves w k server (Request.list_assets user_id uid) _ _ _ refl))

handle-Kept :
    (server : Server) (route : Route) (call : Call) (w : World)
    → HasKeys w.db
    → Kept (handle server route call w)
handle-Kept server (user route) call w k = handle_user-Kept server route call w k
handle-Kept server (admin route) call w k =
    require_admin-Kept w k call (handle_admin server route call)
      (handle_admin-Kept w k server route call)
handle-Kept server (within route) call w k = handle_internal-Kept w k server route call

-- What happens between two moments: calls are answered in some order, one after another, while time
-- passes and the network, the database and the configuration do as they like.
pub data Answers : World → World → Type 0 where
  here : {w : World} → Answers w w
  answered :
      {w w' : World} (server : Server) (route : Route) (call : Call)
      → Answers w w'
      → Answers w (handle server route call w').1
  waited :
      {w w' : World} (later : ℕ) (faults : List (Option Str)) (random : Str)
      → Answers w w'
      → Answers w (record w' { now = w'.now + later; faults = faults; random = random })

-- Whatever calls are answered, on every route, in whatever order and with whatever bodies and
-- failures, the targets keep their keys: no two share a uid, an id, or user, kind and value, and
-- every uid and id is below the next one.
pub Answers-HasKeys : (w w' : World) → HasKeys w.db → Answers w w' → HasKeys w'.db
Answers-HasKeys w w' k here = k
Answers-HasKeys w w' k (answered {w' = v} server route call r) =
    handle-Kept server route call v (Answers-HasKeys w v k r)
Answers-HasKeys w w' k (waited {w' = v} later faults random r) = Answers-HasKeys w v k r
