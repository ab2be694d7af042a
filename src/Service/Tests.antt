-- ===== src/Service/Tests.antt =====
-- The operations at work on one domain: verified, read, revoked and asked for again.
use target_service.Prelude.{
  ◌+◌, ◌≡◌, ◌⊎◌, refl, true, false, none, some, [], ◌∷◌, find, filter, any, arith,
}
use target_service.Text.{
  codes, to_lower, index, index_func, last_index, lower, one_of, str_eq, trim_space, trim_right,
  trim_left, is_space, has_prefix, contains,
}
use target_service.Model.{Target, domain, unverified, revoked, program, CreateTargetRequest}
use target_service.Store.{Error, World, ok, err, query, emit, is_lookup_miss}
use target_service.Store.Targets
use target_service.Store.Authorizations
use target_service.Samples.{internet, site, grant, world, ask}
use target_service.Service.Token.{hex_char, hex_encode, generate_token}
use target_service.Service.Dto.{
  TargetDetailDto, target_to_detail_dto, TargetAdminDto, target_to_admin_dto,
}
use target_service.Service.Verification.{run_check, verify_dns_txt, normalize_host}
use target_service.Service.Target.{
  trigger_verification, is_admin_authorized, wants_switch, method_text, get_target,
  customer_authorization_ttl,
}
use target_service.Service.Target.Views.{IsDiscreet, get_target-IsDiscreet}
use target_service.Service.Admin.{get_any, revoke}
use target_service.Service.Admin.Revoke.{IsStopped, revoke_cases, revoke-check_scope}
use target_service.Scope.Response.{ScopeCheckResponse, deny_result, status_not_verified}
use target_service.Scope.AuthScan.{auth_scan_verdict, is_auth_scan_namespace}
use target_service.Scope.Gate.{check_scope}

-- What a run of the operations computes through.
service : Unit {0}
unfolding find filter any to_lower index index_func last_index lower one_of str_eq trim_space
    trim_right trim_left is_space has_prefix contains query emit is_lookup_miss Targets.get_by_uid
    Targets.get_by_uid_internal Targets.update_status Authorizations.get_by_target_id
    Authorizations.newest Authorizations.mark_verified Authorizations.expire_active_authorizations
    Authorizations.active_of Authorizations.is_active_at Authorizations.set_expired
    Authorizations.set_verified Targets.set_status run_check verify_dns_txt normalize_host
    trigger_verification is_admin_authorized wants_switch method_text get_target get_any revoke
    deny_result auth_scan_verdict is_auth_scan_namespace check_scope
service = tt

abbrev stopped_dto : TargetAdminDto
stopped_dto =
    target_to_admin_dto (record site { status = revoked; updated_at = 100 })
      (some (record grant { expires_at = some 100 })) none

revoke_run : (revoke 1 11 world).0 ≡ ok stopped_dto
unfolding service
revoke_run = refl

abbrev after_revoke : World
after_revoke = record world { db = (revoke 1 11 world).1.db; now = 200 }

abbrev denied : ScopeCheckResponse
denied = record { authorized = false; reason = status_not_verified revoked; allowed_ips = [] }

denied_run : (check_scope internet (ask (codes "example.com") []) after_revoke).0 ≡ ok denied
unfolding service
denied_run = refl

revoke-check_scope_example : denied.authorized ≡ false
revoke-check_scope_example =
    revoke-check_scope internet (ask (codes "example.com") []) 1 world after_revoke stopped_dto
      denied revoke_run refl (ground arith) denied_run

revoke_cases_example :
    (((revoke 1 11 world).1.db ≡ world.db) × ((e : Error) × ((revoke 1 11 world).0 ≡ err e)))
    ⊎ IsStopped 11 world.now (revoke 1 11 world).1.db
revoke_cases_example = revoke_cases 11 1 world

abbrev challenged : World
challenged = record world {
  db = record (world.db) {
    targets = record site { status = unverified } ∷ [];
    auths = record grant { verified_at = none; expires_at = none } ∷ [];
  };
}

abbrev proven_dto : TargetDetailDto
proven_dto =
    target_to_detail_dto (record site { updated_at = 100 })
      (some (record grant {
        verified_at = some 100;
        expires_at = some (100 + customer_authorization_ttl);
      }))
      none none

abbrev bounty_site : Target
bounty_site = record site { source = program }

abbrev bounty : World
bounty = record world { db = record (world.db) { targets = bounty_site ∷ [] } }

bounty_found : (Targets.get_by_uid 7 11 bounty).0 ≡ ok bounty_site
unfolding service
bounty_found = refl

bounty_admin :
    is_admin_authorized bounty_site
      (Authorizations.get_by_target_id bounty_site.id (Targets.get_by_uid 7 11 bounty).1).0
    ≡ true
unfolding service
bounty_admin = refl

abbrev read_dto : TargetDetailDto
read_dto = target_to_detail_dto site (some grant) none none

read_run : (get_target 7 11 world).0 ≡ ok read_dto
unfolding service
read_run = refl

get_target-IsDiscreet_example : IsDiscreet read_dto
get_target-IsDiscreet_example = get_target-IsDiscreet 7 11 world read_dto read_run

abbrev blog : CreateTargetRequest
blog = record { kind = domain; value = codes "blog.example" }

abbrev random_byte : World
random_byte = record world { random = 171 ∷ 1 ∷ [] }

token_run : generate_token 1 random_byte ≡ (ok (codes "ab"), record world { random = 1 ∷ [] })
unfolding generate_token hex_encode hex_char
token_run = refl
