-- ===== src/Scope/Gate.antt =====
-- CheckScope of internal/service/scope_service.go.
pub mod Pins
pub mod Grants
pub mod Loop
pub mod Laws
pub mod Safety
pub mod ReadOnly
use target_service.Prelude.{
  ℕ, Bool, true, false, not, ◌&&◌, ◌||◌, Option, none, some, List, [], ◌∷◌, ◌++◌, if◌then◌else◌,
  any, find,
}
use target_service.Text.{Str, str_eq, to_lower, trim_space}
use target_service.Net.{Ip, IpNet, parse_ip, parse_cidr}
use target_service.Net
use target_service.Model.{
  Time, Target, TargetStatus, verified, Authorization, BugbountyProgram, ProgramAsset, ScopeKind,
  registrable_domain, ip_range, ScopeCheckRequest, is_intrusive, is_network_layer,
}
use target_service.Store.{
  Error, Result, ok, err, World, M, pure, raise, attempt, gets, continue, ◌>>=◌, ◌>>◌,
}
use target_service.Store.Targets
use target_service.Store.Authorizations
use target_service.Store.Listing.{Collation}
use target_service.Store.Programs
use target_service.Service.Env.{Env, Resolution, resolved, denied_address, lookup_failed}
use target_service.Scope.Response.{
  Reason, ScopeCheckResponse, deny_result, allow_result, host_or_ip_required, target_not_found,
  status_not_verified, no_active_authorization, invalid_ip, denied_ip, shared_infra_ip,
  ip_targets_unsupported, host_denied, host_unresolved, host_shared_infra, in_domain_scope,
  in_ip_scope, matches_ip_scope, outside_scope,
}
use target_service.Scope.SharedInfra.{is_shared_infra}
use target_service.Scope.AuthScan.{auth_scan_verdict}
use target_service.Scope.Domain.{is_subdomain_of}
use target_service.Scope.Technique.{is_empty}
use target_service.Scope.Program.{program_handle, program_verdict}

-- A check that either refuses or goes on with the pinned addresses.
pub data Vetting : Type 0 where
  refused : Reason → Vetting
  pinned : List Ip → Vetting

vet_address : Env → Bool → Str → Option Ip → Vetting
vet_address env intrusive query_ip none = refused (invalid_ip query_ip)
vet_address env intrusive query_ip (some ip) =
    if env.is_denied_ip ip
    then refused (denied_ip query_ip)
    else if intrusive && is_shared_infra ip
    then refused (shared_infra_ip query_ip)
    else if not env.ip_targets_enabled
    then refused (ip_targets_unsupported query_ip)
    else pinned (ip ∷ [])

-- A directly supplied address.
unfoldable pub vet_ip : Env → Bool → Str → Vetting
unfolding vet_address
vet_ip env intrusive query_ip =
    if is_empty query_ip then pinned [] else vet_address env intrusive query_ip (parse_ip query_ip)

first_shared : Bool → Str → List Ip → List Ip → Vetting
first_shared shared_infra_denied query_host ips so_far =
    elim (find (λ ip. shared_infra_denied && is_shared_infra ip) ips) [
      | some ip ↦ refused (host_shared_infra query_host ip)
      | none ↦ pinned (so_far ++ ips)
    ]

vet_answers : Bool → Str → Resolution → List Ip → Vetting
unfolding first_shared
vet_answers shared_infra_denied query_host (resolved ips) so_far =
    first_shared shared_infra_denied query_host ips so_far
vet_answers shared_infra_denied query_host (denied_address error) so_far =
    refused (host_denied query_host error)
vet_answers shared_infra_denied query_host (lookup_failed error) so_far =
    refused (host_unresolved query_host error)

-- A host: every answer is vetted, and all are pinned after the address so far.
unfoldable pub vet_host : Env → Bool → Str → List Ip → Vetting
unfolding vet_answers
vet_host env shared_infra_denied query_host so_far =
    if is_empty query_host
    then pinned so_far
    else vet_answers shared_infra_denied query_host (env.resolve_strict query_host) so_far

abbrev pub then_host : Env → Bool → Str → Vetting → Vetting
then_host env shared_infra_denied query_host (refused reason) = refused reason
then_host env shared_infra_denied query_host (pinned ips) =
    vet_host env shared_infra_denied query_host ips

unfoldable pub vet : Env → ScopeCheckRequest → Str → Str → Vetting
vet env req query_host query_ip =
    then_host env (is_intrusive req && is_network_layer req) query_host
      (vet_ip env (is_intrusive req) query_ip)

-- (linked, program, assets); `none` is linked = false. A program that cannot be loaded is a
-- linked one with no policy.
abbrev linked_assets :
    BugbountyProgram
    → Result (List ProgramAsset)
    → Option (Option BugbountyProgram × List ProgramAsset)
linked_assets p (ok assets) = some (some p, assets)
linked_assets p (err e) = some (none, [])

load_program :
    Collation → Result BugbountyProgram → M (Option (Option BugbountyProgram × List ProgramAsset))
load_program collate (err e) = pure (some (none, []))
load_program collate (ok p) = do
  assets ← attempt (Programs.list_assets collate p.id)
  pure (linked_assets p assets)

resolve_handle :
    Collation → Option (Str × Str) → M (Option (Option BugbountyProgram × List ProgramAsset))
unfolding load_program
resolve_handle collate none = pure none
resolve_handle collate (some (platform, handle)) = do
  found ← attempt (Programs.get_by_platform_handle platform handle)
  load_program collate found

-- The program store is there: the constructor of the running service.
unfoldable pub resolve_program_auth :
    Collation → Authorization → M (Option (Option BugbountyProgram × List ProgramAsset))
unfolding resolve_handle
resolve_program_auth collate auth = resolve_handle collate (program_handle auth)

in_range : Option Ip → Option IpNet → Bool
in_range (some ip) (some network) = Net.contains network ip
in_range _ _ = false

-- What one client authorization grants; `none` goes on with the next.
ip_grant : Env → Authorization → Str → Option Reason
unfolding in_range
ip_grant env auth query_ip =
    if not env.ip_targets_enabled
    then none
    else if is_empty query_ip
    then none
    else if in_range (parse_ip query_ip) (parse_cidr auth.scope_value)
    then some (in_ip_scope query_ip auth.scope_value auth.uid)
    else if str_eq auth.scope_value query_ip
    then some (matches_ip_scope query_ip auth.uid)
    else none

domain_grant : Authorization → Str → Option Reason
domain_grant auth query_host =
    if is_empty query_host
    then none
    else if is_subdomain_of query_host auth.scope_value
    then some (in_domain_scope query_host auth.scope_value auth.uid)
    else none

grant_by_kind : ScopeKind → Env → Authorization → Str → Str → Option Reason
unfolding ip_grant domain_grant
grant_by_kind registrable_domain env auth query_host query_ip = domain_grant auth query_host
grant_by_kind ip_range env auth query_host query_ip = ip_grant env auth query_ip

unfoldable pub client_grant : Env → Authorization → Str → Str → Option Reason
unfolding grant_by_kind
client_grant env auth query_host query_ip =
    grant_by_kind auth.scope_kind env auth query_host query_ip

-- The pinned addresses go with an allowance only.
unfoldable pub pin : List Ip → ScopeCheckResponse → ScopeCheckResponse
pin ips v = if v.authorized then record v { allowed_ips = ips } else v

abbrev pub Linked : Type 0
Linked = Option (Option BugbountyProgram × List ProgramAsset)

module _ (env : Env) (req : ScopeCheckRequest) (query_host query_ip : Str) (ips : List Ip) where
  -- A program-linked authorization decides at once; another grants or leaves it to the next.
  decide_one : Time → Linked → Authorization → M ScopeCheckResponse → M ScopeCheckResponse
  decide_one now (some (program, assets)) auth rest =
      pure (pin ips (program_verdict program assets query_host query_ip req.phase now))
  decide_one now none auth rest = elim (client_grant env auth query_host query_ip) [
    | some reason ↦ pure (pin ips (allow_result reason))
    | none ↦ rest
  ]

  -- The loop over the active authorizations.
  unfoldable pub evaluate : List Authorization → M ScopeCheckResponse
  unfolding decide_one
  evaluate [] = pure (deny_result (outside_scope req.target_uid))
  evaluate (auth ∷ auths) =
      let rest = evaluate auths in
      resolve_program_auth env.collate auth >>= λ linked.
      gets (λ w. w.now) >>= λ now. decide_one now linked auth rest

abbrev pub status_is_verified : TargetStatus → Bool
status_is_verified verified = true
status_is_verified _ = false

vetted : Env → ScopeCheckRequest → List Authorization → Str → Str → Vetting → M ScopeCheckResponse
vetted env req auths query_host query_ip (refused reason) = pure (deny_result reason)
vetted env req auths query_host query_ip (pinned ips) =
    evaluate env req query_host query_ip ips auths

with_authorizations : Env → ScopeCheckRequest → List Authorization → M ScopeCheckResponse
unfolding vetted
with_authorizations env req [] = pure (deny_result no_active_authorization)
with_authorizations env req (a ∷ auths) =
    let query_host = to_lower (trim_space req.host) in
    let query_ip = trim_space req.ip in
    vetted env req (a ∷ auths) query_host query_ip (vet env req query_host query_ip)

check_target : Env → ScopeCheckRequest → Target → M ScopeCheckResponse
unfolding with_authorizations
check_target env req t =
    if status_is_verified t.status
    then Authorizations.get_active_authorizations t.id >>= with_authorizations env req
    else pure (deny_result (status_not_verified t.status))

auth_scan_first : Option ScopeCheckResponse → M ScopeCheckResponse → M ScopeCheckResponse
auth_scan_first (some v) go_on = pure v
auth_scan_first none go_on = go_on

check_found : Env → ScopeCheckRequest → Result Target → M ScopeCheckResponse
unfolding check_target auth_scan_first
check_found env req (err e) = pure (deny_result (target_not_found e))
check_found env req (ok t) =
    auth_scan_first
      (auth_scan_verdict req.phase (status_is_verified t.status) req.auth_scan_authorized)
      (check_target env req t)

unfoldable pub check_scope : Env → ScopeCheckRequest → M ScopeCheckResponse
unfolding check_found
check_scope env req =
    if is_empty req.host && is_empty req.ip
    then pure (deny_result host_or_ip_required)
    else attempt (Targets.get_by_uid_internal req.target_uid) >>= check_found env req
