-- ===== src/Handler/Routes/Isolation.antt =====
-- What a call does to the targets, by the identity in its headers.
use mathlib.Core.Path.{subst}
use target_service.Prelude.{
  ℕ, ◌≡◌, refl, sym, ap, ◌∙◌, inl, inr, Bool, true, false, ◌&&◌, Bool-cases, Option, none, some,
}
use mathlib.Core.Option.{some-injective}
use target_service.Model.{CreateTargetRequest, ScopeCheckRequest}
use target_service.Store.{Error, Result, ok, err, World, M}
use target_service.Store.Keys.{HasKeys}
use target_service.Store.Keeps.{Keeps}
use target_service.Store.Assets
use target_service.Store.Assets.Refine.{upsert-IsApplied}
use target_service.Scope.Technique.{is_empty}
use target_service.Scope.Gate.{check_scope}
use target_service.Scope.Gate.ReadOnly.{check_scope-Keeps}
use target_service.Scope.Verified.{check_verified}
use target_service.Scope.Verified.ReadOnly.{check_verified-Keeps}
use target_service.Service.Cap
use target_service.Service.Cap.{TargetCapError, resolve_plan}
use target_service.Service.Cap.Reads.{check-Same}
use target_service.Service.Assets.{upsert_assets}
use target_service.Service.Assets.Keeps.{upsert_assets-Keeps}
use target_service.Service.System.{Request}
use target_service.Service.System.Others.{others, same_targets-Keeps}
use target_service.Service.System.Isolation.{
  creates, reads, deletes, verifies, lists_assets, lists_targets, serve-others,
}
use target_service.Handler.{is_admin_request, user_id_from_header}
use target_service.Handler.Server.{Server, CapConfig}
use target_service.Handler.Http.{
  Call, Body, Answer, Handler, prepare_response, says, respond, with_user, with_uid, with_body,
}
use target_service.Handler.Http.Rules.{
  with_user_rule, with_uid_rule, with_body_rule, with_user_param_rule, respond_rule,
}
use target_service.Handler.Targets
use target_service.Handler.Targets.{unless_capped, capped, create_checked, create_uncapped}
use target_service.Handler.Admin.{require_admin}
use target_service.Handler.Internal
use target_service.Handler.Internal.{check_asked}
use target_service.Handler.Routes.{
  Route, user, admin, within, UserRoute, AdminRoute, InternalRoute, handle_user, handle_admin,
  handle_internal, handle,
}

-- The targets of the other users are those of the list.
abbrev Leaves : ℕ → World → Answer × World → Type 0
Leaves user_id w x = others user_id x.1.db.targets ≡ others user_id w.db.targets

module _ (user_id : ℕ) (w : World) where
  respond-Leaves :
      {A : Type 0} (m : M A) (failed : Error → Answer) (done : A → Answer)
      → others user_id (m w).1.db.targets ≡ others user_id w.db.targets
      → Leaves user_id w (respond m failed done w)
  respond-Leaves m failed done e =
      respond_rule (Leaves user_id w) m failed done w (λ _ q. e) (λ _ q. e)

  with_uid-Leaves :
      (call : Call) (handler : ℕ → Handler)
      → ((uid : ℕ) → Leaves user_id w (handler uid w))
      → Leaves user_id w (with_uid call handler w)
  with_uid-Leaves call handler l =
      with_uid_rule w (Leaves user_id w) (λ a r. refl) call handler (λ uid e. l uid)

  with_body-Leaves :
      {A : Type 0} (body : Body A) (handler : A → Handler)
      → ((a : A) → Leaves user_id w (handler a w))
      → Leaves user_id w (with_body body handler w)
  with_body-Leaves body handler l =
      with_body_rule w (Leaves user_id w) (λ a r. refl) body handler (λ a e. l a)

  -- A handler for the user of the header, or an answer without any effect.
  with_user-Leaves :
      (call : Call) (handler : ℕ → Handler)
      → user_id_from_header call.user_id ≡ some user_id
      → Leaves user_id w (handler user_id w)
      → Leaves user_id w (with_user call handler w)
  with_user-Leaves call handler h l =
      with_user_rule w (Leaves user_id w) (λ a r. refl) call handler
        (λ id e. subst (λ i. Leaves user_id w (handler i w)) (some-injective _ _ (sym h ∙ e)) l)

  module _ (k : HasKeys w.db) where
    create_uncapped-Leaves :
        (server : Server) (req : CreateTargetRequest)
        → Leaves user_id w (create_uncapped server user_id req w)
    unfolding create_uncapped
    create_uncapped-Leaves server req =
        respond-Leaves _ _ _
          (serve-others server.env user_id (Request.create user_id req) w k (creates req))

unless_capped-Leaves :
    (server : Server) (user_id : ℕ) (req : CreateTargetRequest) (w : World)
    → HasKeys w.db
    → (r : Result (Option TargetCapError)) (v : World) → v.db ≡ w.db
    → Leaves user_id w (unless_capped r (create_uncapped server user_id req) v)
unfolding unless_capped
unless_capped-Leaves server user_id req w k (ok (some x)) v e =
    ap (λ db. others user_id db.targets) e
unless_capped-Leaves server user_id req w k (ok none) v e =
    create_uncapped-Leaves user_id v (subst HasKeys (sym e) k) server req
    ∙ ap (λ db. others user_id db.targets) e
unless_capped-Leaves server user_id req w k (err x) v e =
    create_uncapped-Leaves user_id v (subst HasKeys (sym e) k) server req
    ∙ ap (λ db. others user_id db.targets) e

create_checked-Leaves :
    (server : Server) (config : Option CapConfig) (is_admin : Bool) (call : Call) (user_id : ℕ)
    (req : CreateTargetRequest) (w : World)
    → HasKeys w.db
    → Leaves user_id w (create_checked server config is_admin call user_id req w)
unfolding create_checked capped
create_checked-Leaves server (some config) false call user_id req w k =
    let plan = resolve_plan config.plans call.user_plan user_id in
    let x = Cap.check server.env.ilike config.limits user_id plan w in
    let same = check-Same server.env.ilike config.limits user_id plan w in
    unless_capped-Leaves server user_id req w k x.0 x.1 same.db
create_checked-Leaves server (some config) true call user_id req w k =
    create_uncapped-Leaves user_id w k server req
create_checked-Leaves server none is_admin call user_id req w k =
    create_uncapped-Leaves user_id w k server req

module _ (server : Server) (call : Call) (user_id : ℕ) (w : World) (k : HasKeys w.db) where
  handle_user-Leaves :
      (route : UserRoute)
      → user_id_from_header call.user_id ≡ some user_id
      → Leaves user_id w (handle_user server route call w)
  unfolding Targets.create Targets.list Targets.get_by_uid Targets.verify Targets.delete
      Targets.list_assets
  handle_user-Leaves (UserRoute.create body) h = with_user-Leaves user_id w call _ h (
      with_body-Leaves user_id w body _ (λ req.
        create_checked-Leaves server server.cap (is_admin_request call.is_admin call.user_roles)
          call user_id req w k))
  handle_user-Leaves UserRoute.list h =
      with_user-Leaves user_id w call _ h
        (respond-Leaves user_id w _ _ _ (serve-others server.env user_id _ w k (lists_targets _)))
  handle_user-Leaves UserRoute.get h = with_user-Leaves user_id w call _ h (
      with_uid-Leaves user_id w call _
        (λ uid. respond-Leaves user_id w _ _ _ (serve-others server.env user_id _ w k (reads uid))))
  handle_user-Leaves (UserRoute.verify body) h = with_user-Leaves user_id w call _ h (
      with_uid-Leaves user_id w call _ (λ uid. with_body-Leaves user_id w body _ (λ method.
        respond-Leaves user_id w _ _ _
          (serve-others server.env user_id _ w k (verifies uid method)))))
  handle_user-Leaves UserRoute.delete h = with_user-Leaves user_id w call _ h (
      with_uid-Leaves user_id w call _ (λ uid.
        respond-Leaves user_id w _ _ _ (serve-others server.env user_id _ w k (deletes uid))))
  handle_user-Leaves UserRoute.list_assets h = with_user-Leaves user_id w call _ h (
      with_uid-Leaves user_id w call _ (λ uid.
        respond-Leaves user_id w _ _ _ (serve-others server.env user_id _ w k (lists_assets uid))))

module _ (user_id : ℕ) (w : World) where
  -- What leaves every invariant of the targets alone leaves those of the others alone.
  keeps-Leaves :
      {A : Type 0} (m : M A) (failed : Error → Answer) (done : A → Answer)
      → Keeps (λ db. others user_id db.targets ≡ others user_id w.db.targets) m
      → Leaves user_id w (respond m failed done w)
  keeps-Leaves m failed done s = respond-Leaves user_id w m failed done (s.kept w refl)

  check_asked-Leaves :
      (server : Server) (req : ScopeCheckRequest) → Leaves user_id w (check_asked server req w)
  unfolding check_asked
  check_asked-Leaves server req = elim (Bool-cases (is_empty req.host && is_empty req.ip)) [
    | inl y ↦ rw y refl
    | inr n ↦
        rw n (keeps-Leaves (check_scope server.env req) _ _ (check_scope-Keeps server.env req))
  ]

  handle_internal-Leaves :
      (server : Server) (route : InternalRoute) (call : Call)
      → Leaves user_id w (handle_internal server route call w)
  unfolding Internal.scope_check Internal.is_verified Internal.upsert_assets
  handle_internal-Leaves server (InternalRoute.scope_check body) call =
      with_body-Leaves user_id w body _ (check_asked-Leaves server)
  handle_internal-Leaves server InternalRoute.is_verified call =
      with_uid-Leaves user_id w call _ (λ uid.
        with_user_param_rule w (Leaves user_id w) (λ a r. refl) _ _
          (λ id. keeps-Leaves (check_verified uid id) _ _ (check_verified-Keeps uid id)))
  handle_internal-Leaves server (InternalRoute.upsert_assets body) call =
      with_uid-Leaves user_id w call _ (λ uid. with_body-Leaves user_id w body _ (λ items.
        keeps-Leaves (upsert_assets uid items) _ _ (
          upsert_assets-Keeps
            (λ id items.
              same_targets-Keeps (λ ts. others user_id ts ≡ others user_id w.db.targets)
                (Assets.upsert id items) (λ v. let a = upsert-IsApplied id items v in a.targets))
            uid items)))

  require_admin-Leaves :
      (call : Call) (next : Handler)
      → is_admin_request call.is_admin call.user_roles ≡ false
      → require_admin call next w ≡ (prepare_response 403 (says "admin only") false none, w)
  unfolding require_admin
  require_admin-Leaves call next n = rw n refl

-- A call without an administrator's identity, on any route, adds, changes or removes no target of a
-- user other than the one in its header, on a database with unique keys, whatever the body and the
-- answer are.
pub handle-others :
    (server : Server) (route : Route) (call : Call) (user_id : ℕ) (w : World)
    → HasKeys w.db
    → user_id_from_header call.user_id ≡ some user_id
    → is_admin_request call.is_admin call.user_roles ≡ false
    → others user_id (handle server route call w).1.db.targets ≡ others user_id w.db.targets
handle-others server (user route) call user_id w k h n =
    handle_user-Leaves server call user_id w k route h
handle-others server (admin route) call user_id w k h n =
    ap (λ x. others user_id x.1.db.targets)
      (require_admin-Leaves user_id w call (handle_admin server route call) n)
handle-others server (within route) call user_id w k h n =
    handle_internal-Leaves user_id w server route call

-- Without an administrator's identity every route of the group /v1/admin answers 403 and does nothing.
handle-admin_only :
    (server : Server) (route : AdminRoute) (call : Call) (w : World)
    → is_admin_request call.is_admin call.user_roles ≡ false
    → ((handle server (admin route) call w).0.status_code ≡ 403)
      × ((handle server (admin route) call w).1 ≡ w)
handle-admin_only server route call w n =
    let e = require_admin-Leaves 0 w call (handle_admin server route call) n in
    (ap (λ x. x.0.status_code) e, ap (λ x. x.1) e)
