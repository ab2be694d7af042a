-- ===== src/Service/System/Isolation.antt =====
-- The targets of the other users through a user's requests.
use target_service.Prelude.{ℕ, ◌≡◌, refl, ap, List, sym}
use mathlib.Core.Path.{subst}
use target_service.Model.{Target, Authorization, Method, CreateTargetRequest, SearchParameters}
use target_service.Store.{Result, World, err_target_admin_authorized, attempt}
use target_service.Store.Keeps.{Keeps, if-Keeps, raise-Keeps, attempt-Keeps, bind-Keeps}
use target_service.Store.Kept.{get_by_target_id-Keeps}
use target_service.Store.Keys.{HasKeys}
use target_service.Store.Rules.{bind_rule}
use target_service.Store.Reads.{get_by_uid-Same, get_by_uid-ok}
use target_service.Store.Targets
use target_service.Store.Authorizations
use target_service.Service.Env.{Env}
use target_service.Service.Target
use target_service.Service.Target.{is_admin_authorized, refuse_or_run}
use target_service.Service.Target.Keeps.{create_target-Keeps, get_target-Keeps, run_challenge-Keeps}
use target_service.Service.Assets.Keeps.{list_assets-Keeps}
use target_service.Service.Listing.Keeps.{list_targets-Keeps}
use target_service.Service.System.{Request, serve}
use target_service.Service.System.Others.{
  others, IsOwn, IsLeft, IsLeftOwn, IsOwn-find, targets-KeptByAuths, update_status-IsLeftOwn,
  delete-IsLeft, create-IsLeft,
}

-- The requests of this user.
pub data IsBy (user_id : ℕ) : Request → Type 0 where
  creates : (req : CreateTargetRequest) → IsBy user_id (Request.create user_id req)
  reads : (uid : ℕ) → IsBy user_id (Request.get user_id uid)
  deletes : (uid : ℕ) → IsBy user_id (Request.delete user_id uid)
  verifies : (uid : ℕ) (method : Method) → IsBy user_id (Request.verify user_id uid method)
  lists_assets : (uid : ℕ) → IsBy user_id (Request.list_assets user_id uid)
  lists_targets : (params : SearchParameters) → IsBy user_id (Request.list_targets user_id params)

module _ (env : Env) (user_id uid : ℕ) (method : Method) where
  refuse_or_run-IsLeftOwn :
      (t : Target) (latest : Result Authorization) (before : List Target)
      → Keeps
          (λ db. IsLeftOwn user_id t.id before db.targets)
          (refuse_or_run env user_id uid t method latest)
  unfolding refuse_or_run
  refuse_or_run-IsLeftOwn t latest before =
      if-Keeps (is_admin_authorized t latest) (raise-Keeps err_target_admin_authorized) (
        run_challenge-Keeps (targets-KeptByAuths (IsLeftOwn user_id t.id before)) user_id env t
          (update_status-IsLeftOwn user_id t.id before) uid method latest)

  trigger_verification-others :
      (w : World)
      → HasKeys w.db
      → others user_id (Target.trigger_verification env user_id uid method w).1.db.targets
        ≡ others user_id w.db.targets
  unfolding Target.trigger_verification
  trigger_verification-others w k =
      let same = get_by_uid-Same user_id uid w in
      bind_rule (Targets.get_by_uid user_id uid) _ w
        (λ x. others user_id x.1.db.targets ≡ others user_id w.db.targets)
        (λ e q. ap (λ db. others user_id db.targets) same.db)
        (λ t e.
          let s =
            bind-Keeps {m = attempt (Authorizations.get_by_target_id t.id)}
              (attempt-Keeps (get_by_target_id-Keeps t.id))
              (λ latest. refuse_or_run-IsLeftOwn t latest (others user_id w.db.targets)) in
          let r = s.kept (Targets.get_by_uid user_id uid w).1 (
            ap (λ db. others user_id db.targets) same.db,
            subst (λ db. IsOwn t.id user_id db.targets) (sym same.db)
                (IsOwn-find user_id uid w.db.targets t k (get_by_uid-ok user_id uid w e)),
          ) in
          r.0)

-- On a database with unique keys, no request of a user adds, changes or removes a target of another
-- user, whether the request succeeds or fails.
pub serve-others :
    (env : Env) (user_id : ℕ) (req : Request) (w : World)
    → HasKeys w.db
    → IsBy user_id req
    → others user_id (serve env req w).db.targets ≡ others user_id w.db.targets
serve-others env user_id _ w k (creates req) =
    let s =
      create_target-Keeps (targets-KeptByAuths (IsLeft user_id _)) env user_id req
        (create-IsLeft env.etld user_id req (others user_id w.db.targets)) in
    s.kept w refl
serve-others env user_id _ w k (reads uid) =
    let s =
      get_target-Keeps (targets-KeptByAuths (IsLeft user_id (others user_id w.db.targets))) user_id
        uid in
    s.kept w refl
serve-others env user_id _ w k (deletes uid) =
    let s = delete-IsLeft user_id uid (others user_id w.db.targets) in
    unfold Target.delete_target in s.kept w refl
serve-others env user_id _ w k (verifies uid method) =
    trigger_verification-others env user_id uid method w k
serve-others env user_id _ w k (lists_assets uid) =
    let s =
      list_assets-Keeps {Inv = λ db. IsLeft user_id (others user_id w.db.targets) db.targets}
        user_id uid in
    s.kept w refl
serve-others env user_id _ w k (lists_targets params) =
    let s =
      list_targets-Keeps {Inv = λ db. IsLeft user_id (others user_id w.db.targets) db.targets}
        env.ilike env.collate user_id params in
    s.kept w refl
