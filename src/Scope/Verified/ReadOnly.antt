-- ===== src/Scope/Verified/ReadOnly.antt =====
-- What CheckVerified does to the database.
use target_service.Prelude.{ℕ, not, Option, List, if◌then◌else◌}
use target_service.Model.{Target, Authorization}
use target_service.Store.{Result, ok, err, Db, is_lookup_miss}
use target_service.Store.Keeps.{
  Keeps, if-Keeps, read-Keeps, pure-Keeps, raise-Keeps, gets-Keeps, attempt-Keeps, bind-Keeps,
}
use target_service.Store.Reads.{get_by_uid_internal-Same, get_active_authorizations-Same}
use target_service.Scope.Gate.{status_is_verified}
use target_service.Scope.Verified.{
  answer, check_found, check_verified, refuse, describe, has_active_authorization, is_other_user,
  reason_not_found, reason_not_owner, reason_not_verified, reason_no_active,
}

module _ {Inv : Db → Type 0} where
  answer-Keeps : (t : Target) (auths : List Authorization) → Keeps Inv (answer t auths)
  unfolding answer
  answer-Keeps t auths = bind-Keeps (gets-Keeps (λ w. w.now)) (λ now.
      pure-Keeps
        (if has_active_authorization auths now then describe t else refuse reason_no_active))

  check_found-Keeps : (user_id : Option ℕ) (r : Result Target) → Keeps Inv (check_found user_id r)
  unfolding check_found
  check_found-Keeps user_id (err e) =
      if-Keeps (is_lookup_miss e) (pure-Keeps (refuse reason_not_found)) (raise-Keeps e)
  check_found-Keeps user_id (ok t) =
      if-Keeps (is_other_user user_id t) (pure-Keeps (refuse reason_not_owner)) (
        if-Keeps (not (status_is_verified t.status)) (pure-Keeps (refuse reason_not_verified)) (
          bind-Keeps (read-Keeps _ (get_active_authorizations-Same t.id))
            (λ auths. answer-Keeps t auths)))

  pub check_verified-Keeps : (uid : ℕ) (user_id : Option ℕ) → Keeps Inv (check_verified uid user_id)
  unfolding check_verified
  check_verified-Keeps uid user_id =
      bind-Keeps (attempt-Keeps (read-Keeps _ (get_by_uid_internal-Same uid)))
        (λ r. check_found-Keeps user_id r)
