-- ===== src/Service/Target.antt =====
-- internal/service/target_service.go: the operations of a target's owner.
pub mod Challenge
pub mod Views
pub mod Keeps
use target_service.Prelude.{
  ℕ, ◌+◌, ◌*◌, Bool, true, false, ◌&&◌, ◌||◌, not, Option, none, some, List, [], ◌∷◌, if◌then◌else◌,
  map,
}
use target_service.Text.{Str, codes, str_eq}
use target_service.Model.{
  Time, hour, Target, TargetKind, domain, url, ip, cidr, TargetStatus, unverified, verifying,
  verified, TargetSource, customer, program, Authorization, Method, dns_txt, http_file, meta_tag,
  email, ip_registry, manual, CreateTargetRequest, Detail,
}
use target_service.Store.{
  Error, Result, ok, err, err_ip_targets_unsupported, err_target_admin_authorized,
  err_target_exists, err_duplicate_target, check_not_passed, panic, World, M, pure, raise, attempt,
  ◌>>=◌, ◌>>◌, continue, emit, EventType, target_verified, verification_failed, gets, lift,
}
use target_service.Store.Targets
use target_service.Store.Authorizations
use target_service.Service.Env.{Env}
use target_service.Service.Verification.{
  issue_challenge, switch_method, run_check, Check, passed, failed, broken,
}
use target_service.Service.Dto.{TargetDetailDto, target_to_detail_dto, build_instructions}

abbrev pub customer_authorization_ttl : Time
customer_authorization_ttl = 60 * 24 * hour

abbrev pub is_ip_kind : TargetKind → Bool
is_ip_kind ip = true
is_ip_kind cidr = true
is_ip_kind _ = false

unfoldable pub check_kind_allowed : Env → TargetKind → M (Unit {0})
check_kind_allowed env kind =
    if is_ip_kind kind && not env.ip_targets_enabled
    then raise err_ip_targets_unsupported
    else pure tt

unfoldable pub default_method_for_kind : TargetKind → Method
default_method_for_kind ip = ip_registry
default_method_for_kind cidr = ip_registry
default_method_for_kind _ = dns_txt

unfoldable pub is_challenge_method : Method → Bool
is_challenge_method dns_txt = true
is_challenge_method http_file = true
is_challenge_method meta_tag = true
is_challenge_method _ = false

-- The insert's duplicate becomes ErrTargetExists.
abbrev pub or_exists : Result Target → M Target
or_exists (ok t) = pure t
or_exists (err err_duplicate_target) = raise err_target_exists
or_exists (err e) = raise e

-- A challenge that cannot be issued is no error: the target is there without one.
created_reply : Target → Method → Result (Authorization × Str) → TargetDetailDto
created_reply t method (ok (auth, token)) =
    target_to_detail_dto t (some auth) (some token) (some (build_instructions method token t))
created_reply t method (err e) = target_to_detail_dto t none none none

unfoldable pub create_target : Env → ℕ → CreateTargetRequest → M TargetDetailDto
unfolding created_reply
create_target env user_id req = do
  check_kind_allowed env req.kind
  inserted ← attempt (Targets.create env.etld user_id req)
  t ← or_exists inserted
  issued ← attempt (issue_challenge t (default_method_for_kind t.kind) user_id)
  pure (created_reply t (default_method_for_kind t.kind) issued)

abbrev is_verified : TargetStatus → Bool
is_verified verified = true
is_verified _ = false

abbrev is_program_source : TargetSource → Bool
is_program_source program = true
is_program_source customer = false

abbrev pub value_of {ℓ} : {A : Type ℓ} → Result A → Option A
value_of (ok a) = some a
value_of (err e) = none

abbrev first_of_pair : Result (Authorization × Str) → Option Authorization
first_of_pair (ok (a, token)) = some a
first_of_pair (err e) = none

-- The challenge of the create call failed: it is issued now.
challenge_if_missing : ℕ → Target → Option Authorization → M (Option Authorization)
challenge_if_missing user_id t (some auth) = pure (some auth)
challenge_if_missing user_id t none =
    if not (is_verified t.status) && not (is_program_source t.source)
    then (do
      issued ← attempt (issue_challenge t (default_method_for_kind t.kind) user_id)
      pure (first_of_pair issued))
    else pure none

abbrev is_set : Str → Bool
is_set [] = false
is_set (_ ∷ _) = true

-- The token is shown only while the target is not verified.
detail_reply : Target → Option Authorization → TargetDetailDto
detail_reply t none = target_to_detail_dto t none none none
detail_reply t (some auth) =
    if not (is_verified t.status) && (is_challenge_method auth.method && is_set auth.token)
    then target_to_detail_dto t (some auth) (some (auth.token))
        (some (build_instructions auth.method auth.token t))
    else target_to_detail_dto t (some auth) none none

unfoldable pub get_target : ℕ → ℕ → M TargetDetailDto
unfolding challenge_if_missing detail_reply
get_target user_id uid = do
  t ← Targets.get_by_uid user_id uid
  latest ← attempt (Authorizations.get_by_target_id t.id)
  auth ← challenge_if_missing user_id t (value_of latest)
  pure (detail_reply t auth)

-- The constant that a method is.
unfoldable pub method_text : Method → Str
method_text dns_txt = codes "dns_txt"
method_text http_file = codes "http_file"
method_text meta_tag = codes "meta_tag"
method_text email = codes "email"
method_text ip_registry = codes "ip_registry"
method_text Method.program = codes "program"
method_text manual = codes "manual"
method_text (Method.other m) = m

abbrev pub is_admin_method : Method → Bool
is_admin_method Method.program = true
is_admin_method manual = true
is_admin_method _ = false

abbrev has_admin_method : Result Authorization → Bool
has_admin_method (ok a) = is_admin_method a.method
has_admin_method (err e) = false

unfoldable pub is_admin_authorized : Target → Result Authorization → Bool
is_admin_authorized t latest = is_program_source t.source || has_admin_method latest

unfoldable pub wants_switch : Method → Authorization → Bool
unfolding is_challenge_method method_text
wants_switch method auth =
    not (str_eq (method_text method) (method_text auth.method))
    && (is_challenge_method method && (is_challenge_method auth.method && is_set auth.token))

-- The authorization whose challenge is checked: a new one, one that switches the method, or the
-- latest.
challenge_for : ℕ → Target → Method → Result Authorization → M Authorization
challenge_for user_id t method (err e) = do
  (auth, token) ← issue_challenge t method user_id
  pure auth
challenge_for user_id t method (ok auth) =
    if wants_switch method auth then switch_method t auth method else pure auth

-- The check did not pass: the target goes back to unverified, whether or not that write succeeds.
not_passed : Target → Error → M TargetDetailDto
not_passed t e = do
  attempt (Targets.update_status t.id unverified)
  emit verification_failed t.uid none 0
  raise e

-- `t, _ = GetByUID` and then `t.ID`: a failed read leaves a nil target.
or_panic : Result Target → M Target
or_panic (ok t) = pure t
or_panic (err e) = raise panic

record_verified : ℕ → ℕ → Target → Authorization → M TargetDetailDto
unfolding or_panic
record_verified user_id uid t auth = do
  now ← gets (λ w. w.now)
  Authorizations.mark_verified auth.id (now + customer_authorization_ttl) none
  Targets.update_status t.id verified
  emit target_verified t.uid none 0
  again ← attempt (Targets.get_by_uid user_id uid)
  t' ← or_panic again
  latest ← attempt (Authorizations.get_by_target_id t'.id)
  pure (target_to_detail_dto t' (value_of latest) none none)

conclude : ℕ → ℕ → Target → Authorization → Check → M TargetDetailDto
unfolding not_passed record_verified
conclude user_id uid t auth passed = record_verified user_id uid t auth
conclude user_id uid t auth (failed detail) = not_passed t (check_not_passed detail)
conclude user_id uid t auth (broken e) = not_passed t e

pub run_challenge : Env → ℕ → ℕ → Target → Method → Result Authorization → M TargetDetailDto
unfolding challenge_for conclude
run_challenge env user_id uid t method latest = do
  auth ← challenge_for user_id t method latest
  Targets.update_status t.id verifying
  conclude user_id uid t auth (run_check env t auth)

unfoldable pub refuse_or_run :
    Env → ℕ → ℕ → Target → Method → Result Authorization → M TargetDetailDto
unfolding run_challenge is_admin_authorized
refuse_or_run env user_id uid t method latest =
    if is_admin_authorized t latest
    then raise err_target_admin_authorized
    else run_challenge env user_id uid t method latest

unfoldable pub trigger_verification : Env → ℕ → ℕ → Method → M TargetDetailDto
unfolding refuse_or_run
trigger_verification env user_id uid method = do
  t ← Targets.get_by_uid user_id uid
  latest ← attempt (Authorizations.get_by_target_id t.id)
  refuse_or_run env user_id uid t method latest

unfoldable pub delete_target : ℕ → ℕ → M (Unit {0})
delete_target user_id uid = Targets.delete user_id uid
