-- ===== src/Scope/Gate/ReadOnly.antt =====
-- What CheckScope does to the database.
use target_service.Prelude.{◌≡◌, refl, ◌&&◌, Option, none, some, List, [], ◌∷◌}
use target_service.Text.{Str, to_lower, trim_space}
use target_service.Net.{Ip}
use target_service.Model.{Time, Target, Authorization, BugbountyProgram, ScopeCheckRequest}
use target_service.Store.{Result, ok, err, Db, World, M, pure}
use target_service.Store.Keeps.{
  Keeps, if-Keeps, read-Keeps, pure-Keeps, gets-Keeps, attempt-Keeps, bind-Keeps,
}
use target_service.Store.Listing.{Collation}
use target_service.Store.Reads.{
  get_by_uid_internal-Same, get_active_authorizations-Same, get_by_platform_handle-Same,
  list_assets-Same,
}
use target_service.Service.Env.{Env}
use target_service.Scope.Response.{
  Reason, ScopeCheckResponse, deny_result, allow_result, target_not_found, outside_scope,
  status_not_verified, host_or_ip_required, no_active_authorization,
}
use target_service.Scope.Program.{program_handle, program_verdict}
use target_service.Scope.Gate.{
  linked_assets, load_program, resolve_handle, resolve_program_auth, Linked, client_grant, pin,
  decide_one, evaluate, Vetting, refused, pinned, vet, vetted, with_authorizations, check_target,
  auth_scan_first, check_found, check_scope, status_is_verified, is_empty,
}

module _ {Inv : Db → Type 0} where
  load_program-Keeps :
      (collate : Collation) (r : Result BugbountyProgram) → Keeps Inv (load_program collate r)
  unfolding load_program
  load_program-Keeps collate (err e) = pure-Keeps (some (none, []))
  load_program-Keeps collate (ok p) =
      bind-Keeps (attempt-Keeps (read-Keeps _ (list_assets-Same collate p.id)))
        (λ assets. pure-Keeps (linked_assets p assets))

  resolve_handle-Keeps :
      (collate : Collation) (h : Option (Str × Str)) → Keeps Inv (resolve_handle collate h)
  unfolding resolve_handle
  resolve_handle-Keeps collate none = pure-Keeps none
  resolve_handle-Keeps collate (some (platform, handle)) =
      bind-Keeps (attempt-Keeps (read-Keeps _ (get_by_platform_handle-Same platform handle)))
        (λ found. load_program-Keeps collate found)

  resolve_program_auth-Keeps :
      (collate : Collation) (auth : Authorization) → Keeps Inv (resolve_program_auth collate auth)
  unfolding resolve_program_auth
  resolve_program_auth-Keeps collate auth = resolve_handle-Keeps collate (program_handle auth)

  module _ (env : Env) (req : ScopeCheckRequest) where
    module _ (query_host query_ip : Str) (ips : List Ip) where
      decide_one-Keeps :
          (now : Time) (linked : Linked) (auth : Authorization) (rest : M ScopeCheckResponse)
          → Keeps Inv rest
          → Keeps Inv (decide_one env req query_host query_ip ips now linked auth rest)
      unfolding decide_one
      decide_one-Keeps now (some (program, assets)) auth rest k =
          pure-Keeps (pin ips (program_verdict program assets query_host query_ip req.phase now))
      decide_one-Keeps now none auth rest k = by_grant (client_grant env auth query_host query_ip)
        where
          by_grant :
              (g : Option Reason)
              → Keeps Inv
                  (elim g [ some reason ↦ pure (pin ips (allow_result reason)) | none ↦ rest ])
          by_grant (some reason) = pure-Keeps (pin ips (allow_result reason))
          by_grant none = k

      evaluate-Keeps :
          (auths : List Authorization) → Keeps Inv (evaluate env req query_host query_ip ips auths)
      unfolding evaluate
      evaluate-Keeps [] = pure-Keeps (deny_result (outside_scope req.target_uid))
      evaluate-Keeps (auth ∷ auths) =
          bind-Keeps (resolve_program_auth-Keeps env.collate auth) (λ linked.
            bind-Keeps (gets-Keeps (λ w. w.now)) (λ now.
              decide_one-Keeps now linked auth (evaluate env req query_host query_ip ips auths)
                (evaluate-Keeps auths)))

    vetted-Keeps :
        (auths : List Authorization) (query_host query_ip : Str) (v : Vetting)
        → Keeps Inv (vetted env req auths query_host query_ip v)
    unfolding vetted
    vetted-Keeps auths query_host query_ip (refused reason) = pure-Keeps (deny_result reason)
    vetted-Keeps auths query_host query_ip (pinned ips) =
        evaluate-Keeps query_host query_ip ips auths

    with_authorizations-Keeps :
        (auths : List Authorization) → Keeps Inv (with_authorizations env req auths)
    unfolding with_authorizations
    with_authorizations-Keeps [] = pure-Keeps (deny_result no_active_authorization)
    with_authorizations-Keeps (a ∷ auths) =
        vetted-Keeps (a ∷ auths) _ _
          (vet env req (to_lower (trim_space req.host)) (trim_space req.ip))

    check_target-Keeps : (t : Target) → Keeps Inv (check_target env req t)
    unfolding check_target
    check_target-Keeps t =
        if-Keeps (status_is_verified t.status)
          (bind-Keeps (read-Keeps _ (get_active_authorizations-Same t.id))
            (λ auths. with_authorizations-Keeps auths))
          (pure-Keeps (deny_result (status_not_verified t.status)))

    auth_scan_first-Keeps :
        (v : Option ScopeCheckResponse) (go_on : M ScopeCheckResponse)
        → Keeps Inv go_on
        → Keeps Inv (auth_scan_first v go_on)
    unfolding auth_scan_first
    auth_scan_first-Keeps none go_on k = k
    auth_scan_first-Keeps (some v) go_on k = pure-Keeps v

    check_found-Keeps : (r : Result Target) → Keeps Inv (check_found env req r)
    unfolding check_found
    check_found-Keeps (err e) = pure-Keeps (deny_result (target_not_found e))
    check_found-Keeps (ok t) =
        auth_scan_first-Keeps _ (check_target env req t) (check_target-Keeps t)

    pub check_scope-Keeps : Keeps Inv (check_scope env req)
    unfolding check_scope
    check_scope-Keeps =
        if-Keeps (is_empty req.host && is_empty req.ip)
          (pure-Keeps (deny_result host_or_ip_required))
          (bind-Keeps (attempt-Keeps (read-Keeps _ (get_by_uid_internal-Same req.target_uid)))
            (λ r. check_found-Keeps r))

-- The scope check writes nothing to the database, whatever it answers and whichever read fails.
pub check_scope-read_only :
    (env : Env) (req : ScopeCheckRequest) (w : World) → (check_scope env req w).1.db ≡ w.db
check_scope-read_only env req w =
    let k : Keeps (λ d. d ≡ w.db) (check_scope env req) = check_scope-Keeps env req in k.kept w refl
