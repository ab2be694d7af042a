-- ===== src/Scope/Tests.antt =====
-- The gate at work on one customer's domain and one bug-bounty program.
use mathlib.Core.List.{Memᴰ}
use mathlib.Core.Path.{subst}
use target_service.Prelude.{
  ℕ, ◌≡◌, refl, sym, ap, ◌↔◌, Bool, true, false, none, some, List, [], ◌∷◌, find, any, filter,
}
use target_service.Text.{
  Str, codes, to_lower, index, index_func, lower, one_of, str_eq, trim_space, trim_right, trim_left,
  is_space, has_prefix, has_suffix, contains, trim_prefix,
}
use target_service.Net.{Ip, v4, v6, parse_cidr, parse_ip}
use target_service.Net
use target_service.Model.{
  ScopeCheckRequest, BugbountyProgram, ProgramAsset, ProgramAssetType, active, domain, is_intrusive,
  is_network_layer,
}
use target_service.Store.{ok, query, is_lookup_miss}
use target_service.Store.Targets
use target_service.Store.Authorizations
use target_service.Store.Authorizations.{active_of, is_active_at}
use target_service.Service.Env.{Resolution, resolved}
use target_service.Scope.Response.{
  ScopeCheckResponse, ip_targets_unsupported, deny_result, allow_result, in_domain_scope,
}
use target_service.Samples.{server, is_loopback, internet, world, ask}
use target_service.Scope.SharedInfra.{is_shared_infra, parsed_shared_ranges}
use target_service.Scope.AuthScan.{
  auth_scan_verdict, is_auth_scan_namespace, PassesAuthScan, auth_scan_verdict-eq-none_iff,
}
use target_service.Scope.Domain.{is_subdomain_of, host_under, IsUnder, is_subdomain_of_iff}
use target_service.Scope.Technique.{phase_technique, lookup_technique, prohibited_phase_technique}
use target_service.Scope.Program.{
  program_handle, program_verdict, program_asset_matches, is_stale, stale_window,
}
use target_service.Scope.Program.Laws.{
  Covers, program_asset_matches_iff, IsPermitted, program_verdict-authorized_iff,
}
use target_service.Scope.Verified.{
  check_verified, has_active_authorization, VerifiedReason, VerifiedCheckResponse,
}
use target_service.Scope.Verified.Laws.{IsAnswer, check_verified_sound}
use target_service.Scope.Gate.{
  check_scope, evaluate, vet, vet_ip, vet_host, resolve_program_auth, client_grant, pin,
}
use target_service.Scope.Gate.Pins.{IsStrict}
use target_service.Scope.Gate.Safety.{IsSafe, check_scope_pins-IsSafe, check_scope_refuses_ip}
use target_service.Scope.Gate.ReadOnly.{check_scope-read_only}
use target_service.Handler.Server.{Server}
use target_service.Handler.Http.{Body, given, scope, with_body, respond}
use target_service.Handler.Internal.{check_asked, scope_check}
use target_service.Handler.Routes.Gate.{IsGranted, scope_check-IsGranted}
use target_service.Scope.Gate.Laws.{IsAuthorized, check_scope_sound}

abbrev allowed : ScopeCheckResponse
allowed = record {
  authorized = true;
  reason = in_domain_scope (codes "www.example.com") (codes "example.com") 22;
  allowed_ips = server ∷ [];
}

-- What a run of the gate computes through.
gate : Unit {0}
unfolding check_scope evaluate check_verified find any filter auth_scan_verdict
    is_auth_scan_namespace vet vet_ip vet_host is_intrusive is_network_layer Net.contains parse_cidr
    parse_ip deny_result allow_result is_shared_infra parsed_shared_ranges active_of is_active_at
    query index index_func lower one_of str_eq to_lower trim_space trim_right trim_left is_space
    has_prefix has_suffix contains is_lookup_miss Targets.get_by_uid_internal
    Authorizations.get_active_authorizations resolve_program_auth program_handle client_grant pin
    is_subdomain_of host_under program_verdict
gate = tt

allowed_run : (check_scope internet (ask (codes "WWW.example.com") []) world).0 ≡ ok allowed
unfolding gate
allowed_run = refl

abbrev gate_server : Server
gate_server = record { env = internet; cap = none; connectors = λ platform. none }

abbrev asked : Body ScopeCheckRequest
asked = given (ask (codes "WWW.example.com") [])

answered : (scope_check gate_server asked world).0.payload ≡ some (scope allowed)
unfolding gate scope_check with_body check_asked respond
answered = refl

scope_check-IsGranted_example : IsGranted gate_server asked world allowed
scope_check-IsGranted_example = scope_check-IsGranted gate_server world allowed asked answered refl

check_scope_sound_example : IsAuthorized internet (ask (codes "WWW.example.com") []) world allowed
check_scope_sound_example =
    check_scope_sound internet (ask (codes "WWW.example.com") []) world allowed allowed_run refl

internet-IsStrict : IsStrict internet
internet-IsStrict host ips ip e m = of_member (subst (Memᴰ ip) (sym (ap answers e)) m)
  where
    answers : Resolution → List Ip
    answers (resolved ips) = ips
    answers _ = []

    of_member : Memᴰ ip (server ∷ []) → is_loopback ip ≡ false
    of_member (Memᴰ.head q) = subst (λ ip. is_loopback ip ≡ false) (sym q) refl
    of_member (Memᴰ.tail n) = elim n [ ]

check_scope_pins-IsSafe_example : IsSafe internet (ask (codes "WWW.example.com") []) server
check_scope_pins-IsSafe_example =
    check_scope_pins-IsSafe internet (ask (codes "WWW.example.com") []) world allowed server
      internet-IsStrict allowed_run refl (Memᴰ.head refl)

check_scope-read_only_example :
    (check_scope internet (ask (codes "WWW.example.com") []) world).1.db ≡ world.db
check_scope-read_only_example =
    check_scope-read_only internet (ask (codes "WWW.example.com") []) world

abbrev no_addresses : ScopeCheckResponse
no_addresses = record {
  authorized = false;
  reason = ip_targets_unsupported (codes "93.184.216.34");
  allowed_ips = [];
}

refused_run :
    (check_scope internet (ask (codes "example.com") (codes "93.184.216.34")) world).0
    ≡ ok no_addresses
unfolding gate
refused_run = refl

check_scope_refuses_ip_example : no_addresses.authorized ≡ false
check_scope_refuses_ip_example =
    check_scope_refuses_ip internet (ask (codes "example.com") (codes "93.184.216.34")) world
      no_addresses refl (λ e. unfold gate in cc) refused_run

abbrev described : VerifiedCheckResponse
described = record {
  is_verified = true;
  reason = VerifiedReason.reason_ok;
  kind = some domain;
  value = codes "example.com";
  registrable_domain = codes "example.com";
}

described_run : (check_verified 11 (some 7) world).0 ≡ ok described
unfolding gate has_active_authorization
described_run = refl

check_verified_sound_example : IsAnswer world 11 (some 7) described
check_verified_sound_example = check_verified_sound 11 (some 7) world described described_run

abbrev acme : BugbountyProgram
acme = record {
  id = 3;
  platform = codes "hackerone";
  handle = codes "acme";
  name = codes "Acme";
  policy_url = [];
  automation_allowed = true;
  rate_limit_rps = none;
  prohibited_techniques = codes "Brute-Force" ∷ [];
  safe_harbor = true;
  raw_policy = [];
  synced_at = 90;
  stale_after_seconds = 60;
  status = active;
  created_at = 1;
  updated_at = 90;
}

abbrev asset_of : ℕ → ProgramAssetType → Str → Bool → ProgramAsset
asset_of id type identifier in_scope = record {
  id = id;
  program_id = 3;
  asset_type = type;
  identifier = identifier;
  in_scope = in_scope;
  created_at = 1;
}

abbrev acme_assets : List ProgramAsset
acme_assets =
    asset_of 4 ProgramAssetType.wildcard (codes "*.acme.io") true
    ∷ asset_of 5 ProgramAssetType.domain (codes "pay.acme.io") false
    ∷ []

program_verdict-authorized_iff_example :
    ((program_verdict
        (some acme)
        acme_assets
        (codes "api.acme.io")
        []
        (codes "crawl")
        100).authorized
      ≡ true)
    ↔ ((p : BugbountyProgram) × (some acme ≡ some p)
        × IsPermitted p acme_assets
            (to_lower (trim_space (codes "api.acme.io")))
            (trim_space [])
            (codes "crawl")
            100)
program_verdict-authorized_iff_example =
    program_verdict-authorized_iff (some acme) acme_assets (codes "api.acme.io") [] (codes "crawl")
      100

api_allowed :
    (program_verdict
      (some acme)
      acme_assets
      (codes "api.acme.io")
      []
      (codes "crawl")
      100).authorized
    ≡ true
unfolding gate prohibited_phase_technique program_asset_matches is_stale stale_window trim_prefix
    phase_technique lookup_technique
api_allowed = refl

program_asset_matches_iff_example :
    (program_asset_matches
        (asset_of 4 ProgramAssetType.wildcard (codes "*.acme.io") true)
        (codes "api.acme.io")
        []
      ≡ true)
    ↔ Covers ProgramAssetType.wildcard
        (to_lower (trim_space (codes "*.acme.io")))
        (codes "api.acme.io")
        []
program_asset_matches_iff_example =
    program_asset_matches_iff (asset_of 4 ProgramAssetType.wildcard (codes "*.acme.io") true)
      (codes "api.acme.io") []

auth_scan_verdict-eq-none_iff_example :
    (auth_scan_verdict (codes "auth_crawl") true (some true) ≡ none)
    ↔ PassesAuthScan (codes "auth_crawl") true (some true)
auth_scan_verdict-eq-none_iff_example =
    auth_scan_verdict-eq-none_iff (codes "auth_crawl") true (some true)

is_subdomain_of_iff_example :
    (is_subdomain_of (codes "evil-example.com") (codes "example.com") ≡ true)
    ↔ IsUnder (to_lower (codes "evil-example.com")) (to_lower (codes "example.com"))
is_subdomain_of_iff_example = is_subdomain_of_iff (codes "evil-example.com") (codes "example.com")

evil_outside : is_subdomain_of (codes "evil-example.com") (codes "example.com") ≡ false
unfolding gate
evil_outside = refl
