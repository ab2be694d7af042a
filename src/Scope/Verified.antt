-- ===== src/Scope/Verified.antt =====
-- CheckVerified of internal/service/scope_service.go: the gate before a scan is launched.
pub mod Laws
pub mod ReadOnly
use target_service.Prelude.{
  ℕ, Bool, true, false, not, ◌&&◌, ◌||◌, Option, none, some, List, [], ◌∷◌, if◌then◌else◌, ◌==◌,
}
use target_service.Text.{Str}
use target_service.Model.{Time, Target, TargetKind, verified, Authorization}
use target_service.Store.{
  Error, Result, ok, err, World, M, pure, raise, attempt, gets, continue, ◌>>=◌, ◌>>◌,
  is_lookup_miss,
}
use target_service.Store.Targets
use target_service.Store.Authorizations
use target_service.Store.Authorizations.{is_some, not_expired}
use target_service.Scope.Gate.{status_is_verified}

pub data VerifiedReason : Type 0 where
  reason_ok reason_not_found reason_not_owner reason_not_verified reason_no_active : VerifiedReason

-- VerifiedCheckResponse; the three fields that describe the target are empty unless it is verified.
pub record VerifiedCheckResponse : Type 0 where
  pub is_verified : Bool
  pub reason : VerifiedReason
  pub kind : Option TargetKind
  pub value : Str
  pub registrable_domain : Str

unfoldable pub refuse : VerifiedReason → VerifiedCheckResponse
refuse reason = record {
  is_verified = false;
  reason = reason;
  kind = none;
  value = [];
  registrable_domain = [];
}

-- hasActiveAuthorization: verified_at set and expires_at absent or in the future.
unfoldable pub has_active_authorization : List Authorization → Time → Bool
has_active_authorization [] now = false
has_active_authorization (a ∷ auths) now =
    let rest = has_active_authorization auths now in
    if not (is_some a.verified_at)
    then rest
    else if not (not_expired now a.expires_at)
    then rest
    else true

abbrev or_empty : Option Str → Str
or_empty none = []
or_empty (some s) = s

abbrev describe : Target → VerifiedCheckResponse
describe t = record {
  is_verified = true;
  reason = reason_ok;
  kind = some (t.kind);
  value = t.value;
  registrable_domain = or_empty t.registrable_domain;
}

abbrev pub is_other_user : Option ℕ → Target → Bool
is_other_user none t = false
is_other_user (some u) t = not (u == t.user_id)

answer : Target → List Authorization → M VerifiedCheckResponse
answer t auths = do
  now ← gets (λ w. w.now)
  pure (if has_active_authorization auths now then describe t else refuse reason_no_active)

check_found : Option ℕ → Result Target → M VerifiedCheckResponse
unfolding answer
check_found user_id (err e) = if is_lookup_miss e then pure (refuse reason_not_found) else raise e
check_found user_id (ok t) =
    if is_other_user user_id t
    then pure (refuse reason_not_owner)
    else if not (status_is_verified t.status)
    then pure (refuse reason_not_verified)
    else (Authorizations.get_active_authorizations t.id >>= answer t)

unfoldable pub check_verified : ℕ → Option ℕ → M VerifiedCheckResponse
unfolding check_found
check_verified target_uid user_id = do
  found ← attempt (Targets.get_by_uid_internal target_uid)
  check_found user_id found
