-- ===== src/Service/Admin/Audit.antt =====
-- The audit events of an administrator's writes.
use target_service.Prelude.{
  ℕ, ◌≡◌, refl, ap, ◌∙◌, ◌&&◌, not, Option, none, some, [], ◌∷◌, ◌++◌, arith, Bool-cases, inl, inr,
}
use target_service.Text.{Str}
use target_service.Model.{
  Time, Target, TargetKind, TargetStatus, Authorization, Evidence, verified, revoked, Method,
  AdminCreateProgramTargetRequest, AdminAuthorizeTargetRequest,
}
use target_service.Store.{
  Error, Result, ok, err, World, M, pure, raise, attempt, gets, ◌>>=◌, ◌>>◌, query, emit,
  AuditEvent, EventType, admin_target_created, admin_target_authorized, admin_target_revoked,
  admin_target_deleted, is_lookup_miss, err_duplicate_target,
}
use target_service.Store.Rules.{bind_rule}
use target_service.Store.Reads.{get_by_uid_internal-Same, get_by_target_id-Same}
use target_service.Store.Targets
use target_service.Store.Authorizations
use target_service.Service.Dto.{target_to_admin_dto}
use target_service.Service.Env.{Env}
use target_service.Service.Target.{check_kind_allowed, or_exists, is_ip_kind, value_of}
use target_service.Service.Admin.{
  get_any, or_target_not_found, grant_or_undo, create_program_target, confirm_or_grant,
  authorize_manually, revoke, delete_any, pending, or_default, default_admin_authorized_days,
  note_evidence, program_evidence, admin_grant,
}

-- The action emits nothing.
record Silent {ℓ} {A : Type ℓ} (m : M A) : Type 0 where
  silent : (w : World) → (m w).1.events ≡ w.events

-- A success with one event more, of this type and by this administrator; or an error and no event.
pub data IsLogged {ℓ} {A : Type ℓ} (type : EventType) (admin : ℕ) (w : World) (r : Result A × World)
    : Type ℓ where
  logged :
      (a : A) (e : AuditEvent)
      → r.0 ≡ ok a
      → e.type ≡ type
      → e.actor ≡ some admin
      → r.1.events ≡ w.events ++ e ∷ []
      → IsLogged type admin w r
  failed : (x : Error) → r.0 ≡ err x → r.1.events ≡ w.events → IsLogged type admin w r

record Logs {ℓ} {A : Type ℓ} (type : EventType) (admin : ℕ) (m : M A) : Type ℓ where
  logs : (w : World) → IsLogged type admin w (m w)

module _ {A : Type 0} where
  pure-Silent : (a : A) → Silent (pure a)
  pure-Silent a = record { silent = λ w. refl }

  raise-Silent : (e : Error) → Silent (raise {A = A} e)
  raise-Silent e = record { silent = λ w. refl }

  attempt-Silent : (m : M A) → Silent m → Silent (attempt m)
  attempt-Silent m s = record { silent = λ w. s.silent w }

  later-IsLogged :
      (type : EventType) (admin : ℕ) (v w : World) (r : Result A × World)
      → v.events ≡ w.events
      → IsLogged type admin v r
      → IsLogged type admin w r
  later-IsLogged type admin v w r q (logged a e p t c l) =
      logged a e p t c (l ∙ ap (λ es. es ++ e ∷ []) q)
  later-IsLogged type admin v w r q (failed x p l) = failed x p (l ∙ q)

module _ {A : Type 0} {B : Type 0} where
  bind-Silent : (m : M A) (f : A → M B) → Silent m → ((a : A) → Silent (f a)) → Silent (m >>= f)
  bind-Silent m f s t = record {
    silent = λ w.
        bind_rule m f w (λ x. x.1.events ≡ w.events) (λ e q. s.silent w)
          (λ a q. let u = t a in u.silent (m w).1 ∙ s.silent w);
  }

  -- What comes before the event emits nothing.
  bind-Logs :
      {type : EventType} {admin : ℕ} (m : M A) (f : A → M B)
      → Silent m
      → ((a : A) → Logs type admin (f a))
      → Logs type admin (m >>= f)
  bind-Logs {type} {admin} m f s t = record {
    logs = λ w.
        bind_rule m f w (IsLogged type admin w) (λ e q. failed e refl (s.silent w))
          (λ a q.
            let u = t a in
            later-IsLogged type admin (m w).1 w (f a (m w).1) (s.silent w) (u.logs (m w).1));
  }

module _ (type : EventType) (admin uid count : ℕ) where
  emit-Logs : Logs type admin (emit type uid (some admin) count)
  unfolding emit
  emit-Logs = record { logs = λ w. logged tt _ refl refl refl refl }

  -- The answer that follows the event.
  emit-pure-Logs :
      {B : Type 0} (b : B) → Logs type admin (emit type uid (some admin) count >> pure b)
  unfolding emit
  emit-pure-Logs b = record { logs = λ w. logged b _ refl refl refl refl }

  emit-attempt-Logs :
      {A B : Type 0} (m : M A) (f : Result A → B)
      → Silent m
      → Logs type admin (emit type uid (some admin) count >> (attempt m >>= λ r. pure (f r)))
  unfolding emit
  emit-attempt-Logs m f s = record { logs = λ w. logged _ _ refl refl refl (s.silent _) }

get_any-Silent : (uid : ℕ) → Silent (get_any uid)
unfolding get_any
get_any-Silent uid =
    bind-Silent (attempt (Targets.get_by_uid_internal uid)) or_target_not_found
      (record { silent = λ w. let s = get_by_uid_internal-Same uid w in s.events }) by_found
  where
    by_found : (r : Result Target) → Silent (or_target_not_found r)
    by_found (ok t) = pure-Silent t
    by_found (err e) = elim (Bool-cases (is_lookup_miss e)) [
      | inl y ↦ rw y (raise-Silent _)
      | inr n ↦ rw n (raise-Silent e)
    ]

check_kind_allowed-Silent : (env : Env) (kind : TargetKind) → Silent (check_kind_allowed env kind)
unfolding check_kind_allowed
check_kind_allowed-Silent env kind =
    elim (Bool-cases (is_ip_kind kind && not env.ip_targets_enabled)) [
      | inl y ↦ record { silent = λ w. rw y refl }
      | inr n ↦ record { silent = λ w. rw n refl }
    ]

or_exists-Silent : (r : Result Target) → Silent (or_exists r)
or_exists-Silent (ok t) = pure-Silent t
or_exists-Silent (err err_duplicate_target) = raise-Silent _
or_exists-Silent (err _) = raise-Silent _

latest-Silent : (id : ℕ) → Silent (Authorizations.get_by_target_id id)
latest-Silent id = record { silent = λ w. let s = get_by_target_id-Same id w in s.events }

create_program-Silent :
    (etld : _) (user_id : ℕ) (kind : TargetKind) (value label : Str)
    → Silent (Targets.create_program etld user_id kind value label)
unfolding Targets.create_program Targets.insert query
create_program-Silent etld user_id kind value label = record { silent = λ w. ground arith }

create-Silent : (a : Authorizations.NewAuthorization) → Silent (Authorizations.create a)
unfolding Authorizations.create query
create-Silent a = record { silent = λ w. ground arith }

mark_verified-Silent :
    (id : ℕ) (expires : Time) (evidence : Option Evidence)
    → Silent (Authorizations.mark_verified id expires evidence)
unfolding Authorizations.mark_verified query
mark_verified-Silent id expires evidence = record { silent = λ w. ground arith }

expire_active-Silent : (id : ℕ) → Silent (Authorizations.expire_active_authorizations id)
unfolding Authorizations.expire_active_authorizations query
expire_active-Silent id = record { silent = λ w. ground arith }

update_status-Silent : (id : ℕ) (status : TargetStatus) → Silent (Targets.update_status id status)
unfolding Targets.update_status query
update_status-Silent id status = record { silent = λ w. ground arith }

delete_by_uid-Silent : (uid : ℕ) → Silent (Targets.delete_by_uid uid)
unfolding Targets.delete_by_uid query
delete_by_uid-Silent uid = record { silent = λ w. ground arith }

confirm_or_grant-Silent :
    (admin : ℕ) (t : Target) (now : Time) (days : ℕ) (evidence : Evidence)
    (latest : Option Authorization)
    → Silent (confirm_or_grant admin t now days evidence latest)
unfolding confirm_or_grant
confirm_or_grant-Silent admin t now days evidence (some latest) =
    bind-Silent (Authorizations.mark_verified latest.id _ _) _ (mark_verified-Silent latest.id _ _)
      (λ _. pure-Silent _)
confirm_or_grant-Silent admin t now days evidence none = create-Silent _

gets-Silent : {A : Type 0} (f : World → A) → Silent (gets f)
gets-Silent f = record { silent = λ w. refl }

delete_any-Logs : (admin uid : ℕ) → Logs admin_target_deleted admin (delete_any admin uid)
unfolding delete_any
delete_any-Logs admin uid = bind-Logs (get_any uid) _ (get_any-Silent uid) (λ t.
    bind-Logs (Targets.delete_by_uid uid) _ (delete_by_uid-Silent uid)
      (λ _. emit-Logs admin_target_deleted admin t.uid 0))

revoke-Logs : (admin uid : ℕ) → Logs admin_target_revoked admin (revoke admin uid)
unfolding revoke
revoke-Logs admin uid = bind-Logs (get_any uid) _ (get_any-Silent uid) (λ t.
    bind-Logs (Authorizations.expire_active_authorizations t.id) _ (expire_active-Silent t.id)
      (λ expired. bind-Logs (Targets.update_status t.id _) _ (update_status-Silent t.id _) (λ _.
        bind-Logs (gets (λ w. w.now)) _ (gets-Silent _) (λ now.
          emit-attempt-Logs admin_target_revoked admin t.uid expired
            (Authorizations.get_by_target_id t.id)
            (λ latest.
              target_to_admin_dto (record t { status = revoked; updated_at = now })
                (value_of latest) none)
            (latest-Silent t.id)))))

authorize_manually-Logs :
    (env : Env) (admin uid : ℕ) (req : AdminAuthorizeTargetRequest)
    → Logs admin_target_authorized admin (authorize_manually env admin uid req)
unfolding authorize_manually
authorize_manually-Logs env admin uid req = bind-Logs (get_any uid) _ (get_any-Silent uid) (λ t.
    bind-Logs (check_kind_allowed env t.kind) _ (check_kind_allowed-Silent env t.kind) (λ _.
      bind-Logs (gets (λ w. w.now)) _ (gets-Silent _) (λ now.
        bind-Logs (attempt (Authorizations.get_by_target_id t.id)) _
          (attempt-Silent _ (latest-Silent t.id))
          (λ latest.
            bind-Logs
              (confirm_or_grant admin t now
                (or_default req.authorized_days default_admin_authorized_days)
                (note_evidence req.note) (pending (value_of latest)))
              _
              (confirm_or_grant-Silent admin t now
                (or_default req.authorized_days default_admin_authorized_days)
                (note_evidence req.note) (pending (value_of latest)))
              (λ auth.
                bind-Logs (Targets.update_status t.id verified) _
                  (update_status-Silent t.id verified)
                  (λ _. emit-pure-Logs admin_target_authorized admin t.uid 0 (
                    target_to_admin_dto (record t { status = verified; updated_at = now })
                      (some auth) none)))))))

grant_or_undo-Logs :
    (admin : ℕ) (t : Target) (granted : Result Authorization)
    → Logs admin_target_created admin (grant_or_undo admin t granted)
unfolding grant_or_undo
grant_or_undo-Logs admin t (ok auth) =
    emit-pure-Logs admin_target_created admin t.uid 0 (target_to_admin_dto t (some auth) none)
grant_or_undo-Logs admin t (err e) =
    bind-Logs (attempt (Targets.delete_by_uid t.uid)) (λ _. raise e)
      (attempt-Silent _ (delete_by_uid-Silent t.uid))
      (λ _. record { logs = λ w. failed e refl refl })

create_program_target-Logs :
    (env : Env) (admin : ℕ) (req : AdminCreateProgramTargetRequest)
    → Logs admin_target_created admin (create_program_target env admin req)
unfolding create_program_target
create_program_target-Logs env admin req =
    bind-Logs (check_kind_allowed env req.kind) _ (check_kind_allowed-Silent env req.kind) (λ _.
      bind-Logs
        (attempt (
          Targets.create_program env.etld (or_default req.user_id admin) req.kind req.value
            req.label))
        _
        (attempt-Silent _ (
          create_program-Silent env.etld (or_default req.user_id admin) req.kind req.value
            req.label))
        (λ inserted. bind-Logs (or_exists inserted) _ (or_exists-Silent inserted) (λ t.
          bind-Logs (gets (λ w. w.now)) _ (gets-Silent _) (λ now.
            let grant =
              admin_grant t Method.program now
                (or_default req.program.authorized_days default_admin_authorized_days) admin
                (program_evidence req.program) in
            bind-Logs (attempt (Authorizations.create grant)) _
              (attempt-Silent _ (create-Silent grant))
              (λ granted. grant_or_undo-Logs admin t granted)))))

-- Each of an administrator's four writes (a program target, a manual authorization, a revocation, a
-- deletion) emits exactly one audit event when it succeeds, of its own type and with the administrator
-- as the actor, and none when it fails.
pub admin-IsLogged :
    (env : Env) (admin uid : ℕ) (create : AdminCreateProgramTargetRequest)
    (authorize : AdminAuthorizeTargetRequest) (w : World)
    → IsLogged admin_target_created admin w (create_program_target env admin create w)
      × IsLogged admin_target_authorized admin w (authorize_manually env admin uid authorize w)
      × IsLogged admin_target_revoked admin w (revoke admin uid w)
      × IsLogged admin_target_deleted admin w (delete_any admin uid w)
admin-IsLogged env admin uid create authorize w =
    let a = create_program_target-Logs env admin create in
    let b = authorize_manually-Logs env admin uid authorize in
    let c = revoke-Logs admin uid in
    let d = delete_any-Logs admin uid in (a.logs w, b.logs w, c.logs w, d.logs w)
