-- ===== src/Service/Admin/Keeps.antt =====
-- Invariants of the database through the operations of an administrator.
use target_service.Prelude.{ℕ, Option, none, some}
use target_service.Model.{
  Time, Target, verified, revoked, Authorization, Evidence, Method, AdminCreateProgramTargetRequest,
  AdminAuthorizeTargetRequest,
}
use target_service.Store.{
  Db, Result, ok, err, err_target_not_found, admin_target_created, admin_target_authorized,
  admin_target_revoked, admin_target_deleted, is_lookup_miss,
}
use target_service.Store.Keeps.{
  Keeps, if-Keeps, pure-Keeps, raise-Keeps, gets-Keeps, attempt-Keeps, emit-Keeps, bind-Keeps,
  then-Keeps,
}
use target_service.Store.Kept.{
  Kept, get_by_uid_internal-Keeps, get_by_target_id-Keeps, create_program-Keeps,
}
use target_service.Service.Env.{Env}
use target_service.Service.Dto.{target_to_admin_dto}
use target_service.Service.Target.{value_of}
use target_service.Service.Target.Keeps.{check_kind_allowed-Keeps, or_exists-Keeps}
use target_service.Service.Admin.{
  get_any, or_target_not_found, grant_or_undo, create_program_target, or_default,
  default_admin_authorized_days, admin_grant, program_evidence, note_evidence, days_from, pending,
  confirm_or_grant, authorize_manually, revoke, delete_any,
}

module _ {Inv : Db → Type 0} where
  or_target_not_found-Keeps : (r : Result Target) → Keeps Inv (or_target_not_found r)
  or_target_not_found-Keeps (ok t) = pure-Keeps t
  or_target_not_found-Keeps (err e) =
      if-Keeps (is_lookup_miss e) (raise-Keeps err_target_not_found) (raise-Keeps e)

  pub get_any-Keeps : (uid : ℕ) → Keeps Inv (get_any uid)
  unfolding get_any
  get_any-Keeps uid =
      bind-Keeps (attempt-Keeps (get_by_uid_internal-Keeps uid))
        (λ found. or_target_not_found-Keeps found)

  module _ (k : Kept Inv) (env : Env) (admin : ℕ) where
    grant_or_undo-Keeps :
        (t : Target) (r : Result Authorization) → Keeps Inv (grant_or_undo admin t r)
    unfolding grant_or_undo
    grant_or_undo-Keeps t (err e) =
        bind-Keeps (attempt-Keeps (k.delete_by_uid t.uid)) (λ r. raise-Keeps e)
    grant_or_undo-Keeps t (ok auth) =
        then-Keeps (emit-Keeps admin_target_created t.uid (some admin) 0)
          (pure-Keeps (target_to_admin_dto t (some auth) none))

    pub create_program_target-Keeps :
        (req : AdminCreateProgramTargetRequest) → Keeps Inv (create_program_target env admin req)
    unfolding create_program_target
    create_program_target-Keeps req = then-Keeps (check_kind_allowed-Keeps env req.kind) (
        bind-Keeps
          (attempt-Keeps (
            create_program-Keeps k env.etld (or_default req.user_id admin) req.kind req.value
              req.label))
          (λ inserted. bind-Keeps (or_exists-Keeps inserted) (λ t.
            bind-Keeps (gets-Keeps (λ w. w.now)) (λ now.
              bind-Keeps
                (attempt-Keeps (
                  k.auths.create (
                    admin_grant t Method.program now
                      (or_default req.program.authorized_days default_admin_authorized_days) admin
                      (program_evidence req.program))))
                (λ granted. grant_or_undo-Keeps t granted)))))

    confirm_or_grant-Keeps :
        (t : Target) (now : Time) (days : ℕ) (evidence : Evidence) (p : Option Authorization)
        → Keeps Inv (confirm_or_grant admin t now days evidence p)
    unfolding confirm_or_grant
    confirm_or_grant-Keeps t now days evidence (some a) =
        then-Keeps (k.auths.mark_verified a.id (days_from now days) (some evidence)) (
          pure-Keeps (record a {
            verified_at = some now;
            expires_at = some (days_from now days);
            evidence = some evidence;
          }))
    confirm_or_grant-Keeps t now days evidence none = k.auths.create _

    pub authorize_manually-Keeps :
        (uid : ℕ) (req : AdminAuthorizeTargetRequest)
        → Keeps Inv (authorize_manually env admin uid req)
    unfolding authorize_manually
    authorize_manually-Keeps uid req = bind-Keeps (get_any-Keeps uid) (λ t.
        then-Keeps (check_kind_allowed-Keeps env t.kind) (
          bind-Keeps (gets-Keeps (λ w. w.now)) (λ now.
            bind-Keeps (attempt-Keeps (get_by_target_id-Keeps t.id)) (λ latest.
              bind-Keeps
                (confirm_or_grant-Keeps t now
                  (or_default req.authorized_days default_admin_authorized_days)
                  (note_evidence req.note) (pending (value_of latest)))
                (λ auth. then-Keeps (k.update_status t.id verified) (
                  then-Keeps (emit-Keeps admin_target_authorized t.uid (some admin) 0) (
                    pure-Keeps (
                      target_to_admin_dto (record t { status = verified; updated_at = now })
                        (some auth) none))))))))

    pub revoke-Keeps : (uid : ℕ) → Keeps Inv (revoke admin uid)
    unfolding revoke
    revoke-Keeps uid = bind-Keeps (get_any-Keeps uid) (λ t.
        bind-Keeps (k.auths.expire_active t.id) (λ expired.
          then-Keeps (k.update_status t.id revoked) (
            bind-Keeps (gets-Keeps (λ w. w.now)) (λ now.
              then-Keeps (emit-Keeps admin_target_revoked t.uid (some admin) expired) (
                bind-Keeps (attempt-Keeps (get_by_target_id-Keeps t.id)) (λ latest. pure-Keeps (
                  target_to_admin_dto (record t { status = revoked; updated_at = now })
                    (value_of latest) none)))))))

    pub delete_any-Keeps : (uid : ℕ) → Keeps Inv (delete_any admin uid)
    unfolding delete_any
    delete_any-Keeps uid = bind-Keeps (get_any-Keeps uid) (λ t.
        then-Keeps (k.delete_by_uid uid) (emit-Keeps admin_target_deleted t.uid (some admin) 0))
