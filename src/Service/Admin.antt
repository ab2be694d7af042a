-- ===== src/Service/Admin.antt =====
-- internal/service/target_admin_service.go: the administrator's operations, across users.
pub mod Audit
pub mod Revoke
pub mod Keeps
pub mod Undo
mod Tests
use target_service.Prelude.{
  ℕ, ◌+◌, ◌*◌, Bool, true, false, ◌&&◌, ◌||◌, not, Option, none, some, List, [], ◌∷◌, if◌then◌else◌,
  ◌==◌, map,
}
use target_service.Text.{Str, codes, trim_space}
use target_service.Model.{
  Time, hour, Target, TargetStatus, verified, revoked, Authorization, Evidence, Method, manual,
  ScopeKind, ProgramEvidence, AdminCreateProgramTargetRequest, AdminAuthorizeTargetRequest, Asset,
}
use target_service.Store.{
  Error, Result, ok, err, err_target_not_found, World, M, pure, raise, attempt, ◌>>=◌, ◌>>◌,
  continue, emit, EventType, admin_target_created, admin_target_authorized, admin_target_revoked,
  admin_target_deleted, gets, is_lookup_miss,
}
use target_service.Store.Targets
use target_service.Store.Authorizations
use target_service.Service.Env.{Env}
use target_service.Service.Verification.{scope_for_target}
use target_service.Service.Dto.{TargetAdminDto, target_to_admin_dto}
use target_service.Service.Target.{check_kind_allowed, or_exists, value_of}

abbrev pub default_admin_authorized_days : ℕ
default_admin_authorized_days = 90

abbrev pub or_default : ℕ → ℕ → ℕ
or_default n d = if n == 0 then d else n

abbrev or_target_not_found : Result Target → M Target
or_target_not_found (ok t) = pure t
or_target_not_found (err e) = if is_lookup_miss e then raise err_target_not_found else raise e

unfoldable pub get_any : ℕ → M Target
get_any uid = do found ← attempt (Targets.get_by_uid_internal uid); or_target_not_found found

abbrev set_if_any : Str → Option Str
set_if_any [] = none
set_if_any (c ∷ s) = some (c ∷ s)

unfoldable pub program_evidence : ProgramEvidence → Evidence
program_evidence p = record {
  platform = some (p.platform);
  name = some (trim_space p.name);
  url = some (trim_space p.url);
  policy_url = some (trim_space p.policy_url);
  scope_notes = some (trim_space p.scope_notes);
  handle = set_if_any (trim_space p.handle);
  note = none;
}

unfoldable pub note_evidence : Str → Evidence
note_evidence note = record {
  platform = none;
  name = none;
  url = none;
  policy_url = none;
  scope_notes = none;
  handle = none;
  note = some (trim_space note);
}

-- The lifetime of an administrator's authorization.
abbrev pub days_from : Time → ℕ → Time
days_from now days = now + days * 24 * hour

-- An authorization that an administrator grants: verified now, by no token.
unfoldable pub admin_grant :
    Target → Method → Time → ℕ → ℕ → Evidence → Authorizations.NewAuthorization
admin_grant t method now days admin evidence =
    let (scope_kind, scope_value) = scope_for_target t in
    record {
      target_id = t.id;
      method = method;
      token = [];
      scope_kind = scope_kind;
      scope_value = scope_value;
      verified_at = some now;
      expires_at = some (days_from now days);
      attested_by = some admin;
      evidence = some evidence;
    }

-- A target that gets no authorization is deleted again; the deletion's own error is ignored.
grant_or_undo : ℕ → Target → Result Authorization → M TargetAdminDto
grant_or_undo admin t (err e) = do attempt (Targets.delete_by_uid t.uid); raise e
grant_or_undo admin t (ok auth) = do
  emit admin_target_created t.uid (some admin) 0
  pure (target_to_admin_dto t (some auth) none)

unfoldable pub create_program_target : Env → ℕ → AdminCreateProgramTargetRequest → M TargetAdminDto
unfolding grant_or_undo admin_grant
create_program_target env admin req = do
  check_kind_allowed env req.kind
  inserted ←
      attempt (
        Targets.create_program env.etld (or_default req.user_id admin) req.kind req.value req.label)
  t ← or_exists inserted
  now ← gets (λ w. w.now)
  granted ← attempt (
      Authorizations.create (
        admin_grant t Method.program now
          (or_default req.program.authorized_days default_admin_authorized_days) admin
          (program_evidence req.program)))
  grant_or_undo admin t granted

abbrev pending : Option Authorization → Option Authorization
pending none = none
pending (some a) = elim (a.verified_at) [ none ↦ some a | some _ ↦ none ]

-- A pending challenge is confirmed in place; otherwise a new authorization is written.
confirm_or_grant : ℕ → Target → Time → ℕ → Evidence → Option Authorization → M Authorization
confirm_or_grant admin t now days evidence (some latest) = do
  Authorizations.mark_verified latest.id (days_from now days) (some evidence)
  pure (record latest {
    verified_at = some now;
    expires_at = some (days_from now days);
    evidence = some evidence;
  })
confirm_or_grant admin t now days evidence none =
    Authorizations.create (admin_grant t manual now days admin evidence)

unfoldable pub authorize_manually : Env → ℕ → ℕ → AdminAuthorizeTargetRequest → M TargetAdminDto
unfolding confirm_or_grant admin_grant
authorize_manually env admin uid req = do
  t ← get_any uid
  check_kind_allowed env t.kind
  now ← gets (λ w. w.now)
  latest ← attempt (Authorizations.get_by_target_id t.id)
  auth ←
      confirm_or_grant admin t now (or_default req.authorized_days default_admin_authorized_days)
        (note_evidence req.note) (pending (value_of latest))
  Targets.update_status t.id verified
  emit admin_target_authorized t.uid (some admin) 0
  pure (target_to_admin_dto (record t { status = verified; updated_at = now }) (some auth) none)

-- The authorizations expire before the status is written.
unfoldable pub revoke : ℕ → ℕ → M TargetAdminDto
revoke admin uid = do
  t ← get_any uid
  expired ← Authorizations.expire_active_authorizations t.id
  Targets.update_status t.id revoked
  now ← gets (λ w. w.now)
  emit admin_target_revoked t.uid (some admin) expired
  latest ← attempt (Authorizations.get_by_target_id t.id)
  pure
      (target_to_admin_dto (record t { status = revoked; updated_at = now }) (value_of latest) none)

unfoldable pub delete_any : ℕ → ℕ → M (Unit {0})
delete_any admin uid = do
  t ← get_any uid
  Targets.delete_by_uid uid
  emit admin_target_deleted t.uid (some admin) 0
