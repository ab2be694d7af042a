-- ===== src/Service/Target/Keeps.antt =====
-- Invariants of the database through the operations of a target's owner.
use mathlib.Core.Path.{subst}
use target_service.Prelude.{
  ◌+◌, ltb, length, sym, refl, ◌≡◌, ℕ, inl, inr, Bool-cases, Option, none, some, not, ◌&&◌,
}
use target_service.Model.{
  Target, Authorization, Method, CreateTargetRequest, unverified, verified, verifying, TargetKind,
  TargetStatus,
}
use target_service.Store.{
  Db, Error, panic, check_not_passed, err_duplicate_target, err_target_admin_authorized,
  target_verified, verification_failed, Result, ok, err, World,
}
use target_service.Store.Keeps.{
  Keeps, if-Keeps, pure-Keeps, raise-Keeps, gets-Keeps, attempt-Keeps, emit-Keeps, bind-Keeps,
  then-Keeps,
}
use target_service.Store.Kept.{KeptByAuths, Kept, get_by_uid-Keeps, get_by_target_id-Keeps}
use target_service.Store.Targets
use target_service.Service.Dto.{target_to_detail_dto}
use target_service.Service.Env.{Env}
use target_service.Service.Token.{generate_token}
use target_service.Service.Verification.{
  issue_challenge, switch_method, run_check, Check, passed, failed, broken,
}
use target_service.Service.Target.{
  check_kind_allowed, is_ip_kind, or_exists, create_target, challenge_if_missing, get_target,
  or_panic, record_verified, not_passed, conclude, challenge_for, run_challenge, refuse_or_run,
  trigger_verification, delete_target, wants_switch, created_reply, first_of_pair, value_of,
  detail_reply, customer_authorization_ttl, is_admin_authorized, is_verified, is_program_source,
  default_method_for_kind,
}

module _ {Inv : Db → Type 0} where
  pub check_kind_allowed-Keeps :
      (env : Env) (kind : TargetKind) → Keeps Inv (check_kind_allowed env kind)
  unfolding check_kind_allowed
  check_kind_allowed-Keeps env kind =
      if-Keeps (is_ip_kind kind && not env.ip_targets_enabled) (raise-Keeps _) (pure-Keeps _)

  pub or_exists-Keeps : (r : Result Target) → Keeps Inv (or_exists r)
  or_exists-Keeps (ok t) = pure-Keeps t
  or_exists-Keeps (err e) = record { kept = λ w i. subst (λ v. Inv v.db) (sym (unchanged e w)) i }
    where
      unchanged : (e : Error) (w : World) → (or_exists (err e) w).1 ≡ w
      unchanged e w = elim e as (λ e. (or_exists (err e) w).1 ≡ w) [
        | err_duplicate_target ↦ refl
        | _ ↦ refl
      ]

  generate_token-Keeps : (n : ℕ) → Keeps Inv (generate_token n)
  unfolding generate_token
  generate_token-Keeps n = record {
    kept = λ w i. elim (Bool-cases (ltb (length w.random) n)) [
      | inl y ↦ rw (y, generate_token) i
      | inr f ↦ rw (f, generate_token) i
    ];
  }

  module _ (auths : KeptByAuths Inv) where
    issue_challenge-Keeps :
        (t : Target) (method : Method) (user_id : ℕ) → Keeps Inv (issue_challenge t method user_id)
    unfolding issue_challenge
    issue_challenge-Keeps t method user_id =
        bind-Keeps (generate_token-Keeps 32)
          (λ token. bind-Keeps (auths.create _) (λ created. pure-Keeps _))

    switch_method-Keeps :
        (t : Target) (prev : Authorization) (method : Method)
        → Keeps Inv (switch_method t prev method)
    unfolding switch_method
    switch_method-Keeps t prev method = auths.create _

    module _ (user_id : ℕ) where
      challenge_if_missing-Keeps :
          (t : Target) (auth : Option Authorization)
          → Keeps Inv (challenge_if_missing user_id t auth)
      unfolding challenge_if_missing
      challenge_if_missing-Keeps t (some auth) = pure-Keeps (some auth)
      challenge_if_missing-Keeps t none =
          if-Keeps (not (is_verified t.status) && not (is_program_source t.source))
            (bind-Keeps
              (attempt-Keeps (issue_challenge-Keeps t (default_method_for_kind t.kind) user_id))
              (λ issued. pure-Keeps (first_of_pair issued)))
            (pure-Keeps none)

      pub get_target-Keeps : (uid : ℕ) → Keeps Inv (get_target user_id uid)
      unfolding get_target
      get_target-Keeps uid = bind-Keeps (get_by_uid-Keeps user_id uid) (λ t.
          bind-Keeps (attempt-Keeps (get_by_target_id-Keeps t.id)) (λ latest.
            bind-Keeps (challenge_if_missing-Keeps t (value_of latest))
              (λ auth. pure-Keeps (detail_reply t auth))))

      or_panic-Keeps : (r : Result Target) → Keeps Inv (or_panic r)
      unfolding or_panic
      or_panic-Keeps (ok t) = pure-Keeps t
      or_panic-Keeps (err e) = raise-Keeps panic

      module _ (t : Target)
          (status : (s : TargetStatus) → Keeps Inv (Targets.update_status t.id s)) where
        record_verified-Keeps :
            (uid : ℕ) (auth : Authorization) → Keeps Inv (record_verified user_id uid t auth)
        unfolding record_verified
        record_verified-Keeps uid auth = bind-Keeps (gets-Keeps (λ w. w.now)) (λ now.
            then-Keeps (auths.mark_verified auth.id (now + customer_authorization_ttl) none) (
              then-Keeps (status verified) (
                then-Keeps (emit-Keeps target_verified t.uid none 0) (
                  bind-Keeps (attempt-Keeps (get_by_uid-Keeps user_id uid)) (λ again.
                    bind-Keeps (or_panic-Keeps again) (λ t'.
                      bind-Keeps (attempt-Keeps (get_by_target_id-Keeps t'.id)) (λ latest.
                        pure-Keeps (target_to_detail_dto t' (value_of latest) none none))))))))

        not_passed-Keeps : (e : Error) → Keeps Inv (not_passed t e)
        unfolding not_passed
        not_passed-Keeps e =
            then-Keeps (attempt-Keeps (status unverified))
              (then-Keeps (emit-Keeps verification_failed t.uid none 0) (raise-Keeps e))

        conclude-Keeps :
            (uid : ℕ) (auth : Authorization) (c : Check) → Keeps Inv (conclude user_id uid t auth c)
        unfolding conclude
        conclude-Keeps uid auth passed = record_verified-Keeps uid auth
        conclude-Keeps uid auth (failed d) = not_passed-Keeps (check_not_passed d)
        conclude-Keeps uid auth (broken e) = not_passed-Keeps e

      challenge_for-Keeps :
          (t : Target) (method : Method) (latest : Result Authorization)
          → Keeps Inv (challenge_for user_id t method latest)
      unfolding challenge_for
      challenge_for-Keeps t method (err e) =
          bind-Keeps (issue_challenge-Keeps t method user_id) (λ (auth, token). pure-Keeps auth)
      challenge_for-Keeps t method (ok auth) =
          if-Keeps (wants_switch method auth) (switch_method-Keeps t auth method) (pure-Keeps auth)

      module _ (env : Env) (t : Target)
          (status : (s : TargetStatus) → Keeps Inv (Targets.update_status t.id s)) where
        pub run_challenge-Keeps :
            (uid : ℕ) (method : Method) (latest : Result Authorization)
            → Keeps Inv (run_challenge env user_id uid t method latest)
        unfolding run_challenge
        run_challenge-Keeps uid method latest =
            bind-Keeps (challenge_for-Keeps t method latest) (λ auth.
              then-Keeps (status verifying)
                (conclude-Keeps t status uid auth (run_check env t auth)))

    module _ (env : Env) (user_id : ℕ) where
      pub create_target-Keeps :
          (req : CreateTargetRequest)
          → Keeps Inv (Targets.create env.etld user_id req)
          → Keeps Inv (create_target env user_id req)
      unfolding create_target
      create_target-Keeps req insert = then-Keeps (check_kind_allowed-Keeps env req.kind) (
          bind-Keeps (attempt-Keeps insert) (λ inserted. bind-Keeps (or_exists-Keeps inserted) (λ t.
            bind-Keeps
              (attempt-Keeps (issue_challenge-Keeps t (default_method_for_kind t.kind) user_id))
              (λ issued. pure-Keeps (created_reply t (default_method_for_kind t.kind) issued)))))

  module _ (k : Kept Inv) (env : Env) (user_id : ℕ) where
    pub trigger_verification-Keeps :
        (uid : ℕ) (method : Method) → Keeps Inv (trigger_verification env user_id uid method)
    unfolding trigger_verification refuse_or_run
    trigger_verification-Keeps uid method = bind-Keeps (get_by_uid-Keeps user_id uid) (λ t.
        bind-Keeps (attempt-Keeps (get_by_target_id-Keeps t.id)) (λ latest.
          if-Keeps (is_admin_authorized t latest) (raise-Keeps err_target_admin_authorized)
            (run_challenge-Keeps k.auths user_id env t (k.update_status t.id) uid method latest)))

    pub delete_target-Keeps : (uid : ℕ) → Keeps Inv (delete_target user_id uid)
    unfolding delete_target
    delete_target-Keeps uid = k.delete user_id uid
