-- ===== src/Tools/Tests.antt =====
-- The graders on sample answers.
use target_service.Model.{hour}
use target_service.Tools.Checker
use target_service.Tools.Tls.Check
use target_service.Tools.Tls.Check.{Tls, day, days_until, days_until-expired_iff}
use target_service.Prelude.{
  Option, none, List, ◌*◌, ◌+◌, ◌≤◌, some, [], ◌∷◌, false, if◌then◌else◌, ◌≡◌, refl, ◌↔◌, true,
  false, pos, less, any,
}
use target_service.Text.{
  index_func, last_index, has_suffix, trim_suffix, Str, codes, to_lower, contains, has_prefix,
  index, lower, str_eq, one_of, split, fields, atoi, trim_space, trim_left, trim_right, is_space,
  to_upper, upper,
}
use target_service.Tools.Grade.{grade_a}
use target_service.Tools.Headers.{
  Header, content_security_policy, strict_transport_security, x_frame_options,
  x_content_type_options, referrer_policy, permissions_policy, cross_origin_opener_policy,
  cross_origin_resource_policy, parse_hsts_max_age, grade_hsts, grade_csp, grade_xfo, grade_xcto,
  grade_referrer_policy, grade_coop, grade_corp, grade_one_header, grade_headers,
}
use target_service.Tools.Checker.{
  Web, registrable_domain_of, resolve_redirect, next_hop, follow, fetch,
}
use target_service.Tools.Hostname.{
  valid, is_empty, strip, validate, matches_hostname, are_labels, normalize_and_validate_hostname,
}
use target_service.Tools.Hostname.Laws.{IsPublicName, normalize_and_validate_hostname-valid_iff}
use target_service.Net.{parse_ip}
use target_service.Tools.Email.{parse_spf, costs_lookup, all_mechanism}
use target_service.Tools.Email

abbrev hardened : Header → Str
hardened content_security_policy = codes "default-src 'self'"
hardened strict_transport_security = codes "max-age=31536000; includeSubDomains"
hardened x_frame_options = codes "DENY"
hardened x_content_type_options = codes "nosniff"
hardened referrer_policy = codes "same-origin"
hardened permissions_policy = codes "camera=()"
hardened cross_origin_opener_policy = codes "same-origin"
hardened cross_origin_resource_policy = codes "cross-origin"

-- What a run of the graders computes through.
graders : Unit {0}
unfolding grade_headers grade_one_header grade_csp grade_hsts grade_xfo grade_xcto
    grade_referrer_policy grade_coop grade_corp parse_hsts_max_age contains has_prefix index lower
    upper to_lower to_upper str_eq one_of split atoi trim_space trim_left trim_right is_space any
graders = tt

hardened_run : (grade_headers hardened).1 ≡ grade_a
unfolding graders
hardened_run = refl

spf_not_blank : Email.is_blank (codes "v=spf1 include:a.io mx -all") ≡ false
unfolding graders
spf_not_blank = refl

two_lookups : (parse_spf (codes "v=spf1 include:a.io mx -all")).lookup_count ≡ 2
unfolding graders parse_spf fields costs_lookup all_mechanism
two_lookups = refl

normalize_and_validate_hostname-valid_iff_example :
    (normalize_and_validate_hostname (codes "https://Example.com/") ≡ valid (codes "example.com"))
    ↔ ((is_empty (trim_space (codes "https://Example.com/")) ≡ false)
        × (strip (trim_space (codes "https://Example.com/")) ≡ codes "example.com")
        × IsPublicName (codes "example.com"))
normalize_and_validate_hostname-valid_iff_example =
    normalize_and_validate_hostname-valid_iff (codes "https://Example.com/") (codes "example.com")

typed :
    normalize_and_validate_hostname (codes " https://Example.com:8443/x ")
    ≡ valid (codes "example.com")
unfolding normalize_and_validate_hostname strip validate index index_func last_index has_prefix
    has_suffix trim_suffix to_lower lower trim_space trim_left trim_right is_space contains
    matches_hostname are_labels split any str_eq parse_ip
typed = refl

-- The root redirects to another host of the domain.
abbrev moved : Web
moved = record {
  get = λ url.
      if str_eq url (codes "https://www.example.com/")
      then some (record { status = 200; location = []; header = hardened })
      else some (record { status = 301; location = codes "//www.example.com/"; header = hardened });
  resolve = λ current location. some (record {
    scheme = codes "https";
    host = codes "www.example.com";
    text = codes "https://www.example.com/";
  });
  effective_tld_plus_one = λ host. some (codes "example.com");
}

redirected_run :
    (fetch moved (codes "example.com")).0
    ≡ codes "https://example.com/" ∷ codes "https://www.example.com/" ∷ []
unfolding fetch follow next_hop resolve_redirect registrable_domain_of str_eq
redirected_run = refl

abbrev no_tls_here : Tls
no_tls_here = record { handshake = λ domain least most. none; verifies = λ domain leaf rest. false }

abbrev no_records : Str → Option (List Str)
no_records host = none

days_until-expired_iff_example : (less (days_until (3 * day) day) 0 ≡ true) ↔ (day + day ≤ 3 * day)
days_until-expired_iff_example = days_until-expired_iff (3 * day) day

-- A certificate that expired an hour ago.
expired_today : days_until (day + hour) day ≡ pos 0
unfolding days_until
expired_today = refl
