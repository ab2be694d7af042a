-- ===== src/Scope/SharedInfra.antt =====
-- The shared-infrastructure ranges of internal/service/scope_service.go, parsed once at start.
use target_service.Prelude.{◌≡◌, refl, Bool, true, false, none, some, List, [], ◌∷◌, any, length}
use target_service.Text.{Str, codes}
use target_service.Net.{Ip, v4, IpNet, parse_cidr, contains}

abbrev known_shared_infra_ranges : List Str
known_shared_infra_ranges =
    codes "103.21.244.0/22"
    ∷ codes "103.22.200.0/22"
    ∷ codes "103.31.4.0/22"
    ∷ codes "104.16.0.0/13"
    ∷ codes "104.24.0.0/14"
    ∷ codes "108.162.192.0/18"
    ∷ codes "131.0.72.0/22"
    ∷ codes "141.101.64.0/18"
    ∷ codes "162.158.0.0/15"
    ∷ codes "172.64.0.0/13"
    ∷ codes "173.245.48.0/20"
    ∷ codes "188.114.96.0/20"
    ∷ codes "190.93.240.0/20"
    ∷ codes "197.234.240.0/22"
    ∷ codes "198.41.128.0/17"
    ∷ codes "23.235.32.0/20"
    ∷ codes "43.249.72.0/22"
    ∷ codes "103.244.50.0/24"
    ∷ codes "103.245.222.0/23"
    ∷ codes "103.245.224.0/24"
    ∷ codes "104.156.80.0/20"
    ∷ codes "151.101.0.0/16"
    ∷ codes "157.52.64.0/18"
    ∷ codes "167.82.0.0/17"
    ∷ codes "172.111.64.0/18"
    ∷ codes "185.31.16.0/22"
    ∷ codes "199.27.72.0/21"
    ∷ codes "23.32.0.0/11"
    ∷ codes "23.64.0.0/14"
    ∷ codes "23.192.0.0/11"
    ∷ []

-- The loop of `init`: a range that does not parse is left out.
parse_ranges : List Str → List IpNet
parse_ranges [] = []
parse_ranges (cidr ∷ cidrs) =
    let rest = parse_ranges cidrs in elim (parse_cidr cidr) [ none ↦ rest | some net ↦ net ∷ rest ]

unfoldable pub parsed_shared_ranges : List IpNet
unfolding parse_ranges
parsed_shared_ranges = parse_ranges known_shared_infra_ranges

unfoldable pub is_shared_infra : Ip → Bool
is_shared_infra ip = any (λ network. contains network ip) parsed_shared_ranges

-- No known range is lost when the ranges are parsed.
all_ranges_parse : length parsed_shared_ranges ≡ length known_shared_infra_ranges
unfolding parsed_shared_ranges parse_cidr
all_ranges_parse = refl

shared_infra_tests :
    (is_shared_infra (v4 1745879041) ≡ true) × (is_shared_infra (v4 16909060) ≡ false)
unfolding is_shared_infra any parsed_shared_ranges parse_cidr contains
shared_infra_tests = (refl, refl)
