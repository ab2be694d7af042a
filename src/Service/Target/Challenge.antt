-- ===== src/Service/Target/Challenge.antt =====
-- TriggerVerification of internal/service/target_service.go: the check and its challenge.
use target_service.Prelude.{filter, ℕ, ◌≡◌, refl, true, false, ◌&&◌, some, ◌==◌, find}
use target_service.Model.{Target, Authorization, Method}
use target_service.Store.{ok, err, err_target_admin_authorized, World}
use target_service.Store.Targets
use target_service.Store.Authorizations
use target_service.Store.Authorizations.{newest, of_target}
use target_service.Store.Reads.{Same, Same-trans, get_by_uid-Same, get_by_target_id-Same}
use target_service.Service.Env.{Env}
use target_service.Service.Verification.{run_check, passed}
use target_service.Service.Token.{generate_token}
use target_service.Service.Target.{refuse_or_run, trigger_verification, is_admin_authorized}

-- Where a challenge comes from: it is the newest authorization of the target, or a new row of the
-- target for the method that was asked for, with the token of the newest one or a random one.
pub data IsChallenge (target_id : ℕ) (method : Method) (w : World) (auth : Authorization)
    : Type 0 where
  kept :
      newest (filter (of_target target_id) w.db.auths) ≡ some auth
      → IsChallenge target_id method w auth
  switched :
      (prev : Authorization)
      → newest (filter (of_target target_id) w.db.auths) ≡ some prev
      → auth.target_id ≡ target_id
      → auth.method ≡ method
      → auth.token ≡ prev.token
      → IsChallenge target_id method w auth
  issued :
      (v : World)
      → v.random ≡ w.random
      → (generate_token 32 v).0 ≡ ok auth.token
      → auth.target_id ≡ target_id
      → auth.method ≡ method
      → IsChallenge target_id method w auth

module _ (env : Env) (user_id uid : ℕ) where
  -- What stands behind an answer: the caller's own target, no administrator's, and a passed check of
  -- a challenge of this target.
  pub record IsProven (method : Method) (w : World) : Type 0 where
    pub target : Target
    pub found : find (λ t. t.uid == uid && t.user_id == user_id) w.db.targets ≡ some target
    pub is_owned :
        is_admin_authorized target
          (Authorizations.get_by_target_id target.id (Targets.get_by_uid user_id uid w).1).0
        ≡ false
    pub auth : Authorization
    pub is_challenge : IsChallenge target.id method w auth
    pub passes : run_check env target auth ≡ passed

  -- A verification of the caller's target that an administrator authorized is refused; nothing is
  -- written and nothing is emitted.
  trigger_verification_refuses :
      (method : Method) (w : World) (t : Target)
      → (Targets.get_by_uid user_id uid w).0 ≡ ok t
      → is_admin_authorized t
          (Authorizations.get_by_target_id t.id (Targets.get_by_uid user_id uid w).1).0
        ≡ true
      → ((trigger_verification env user_id uid method w).0 ≡ err err_target_admin_authorized)
        × Same w (trigger_verification env user_id uid method w).1
  unfolding trigger_verification refuse_or_run
  trigger_verification_refuses method w t e a =
      rw (e, a)
        (
          refl,
          Same-trans (get_by_uid-Same user_id uid w)
              (get_by_target_id-Same t.id (Targets.get_by_uid user_id uid w).1),
        )
