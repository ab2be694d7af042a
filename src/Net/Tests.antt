-- ===== src/Net/Tests.antt =====
-- Addresses and networks of the test suite and of RFC 4291.
use target_service.Prelude.{◌≡◌, refl, ◌+◌, ◌*◌, ◌^◌, none, some}
use target_service.Text.{codes}
use target_service.Net.{v4, v6, parse_ip, parse_cidr}

parse_ip_tests :
    (parse_ip (codes "1.2.3.4") ≡ some (v4 16909060))
    × (parse_ip (codes "1.2.3.04") ≡ none)
    × (parse_ip (codes "1.2.3") ≡ none)
    × (parse_ip (codes "256.1.1.1") ≡ none)
    × (parse_ip (codes "::1") ≡ some (v6 1))
    × (parse_ip (codes "::") ≡ some (v6 0))
    × (parse_ip (codes "2001:db8::1") ≡ some (v6 (0x20010db8 * 2 ^ 96 + 1)))
    × (parse_ip (codes "::ffff:1.2.3.4") ≡ some (v4 16909060))
    × (parse_ip (codes "1::2::3") ≡ none)
    × (parse_ip (codes "fe80::1%eth0") ≡ none)
    × (parse_ip (codes "1:2:3:4:5:6:7:8") ≡ some (v6 0x00010002000300040005000600070008))
    × (parse_ip (codes "1:2:3:4:5:6:7::8") ≡ none)
    × (parse_ip (codes "12345::") ≡ none)
    × (parse_ip (codes "example.com") ≡ none)
unfolding parse_ip
parse_ip_tests =
    (refl, refl, refl, refl, refl, refl, refl, refl, refl, refl, refl, refl, refl, refl)

parse_cidr_tests :
    (parse_cidr (codes "104.16.0.0/13") ≡ some (record { ip = v4 1745879040; prefix = 13 }))
    × (parse_cidr (codes "104.16.9.9/13") ≡ some (record { ip = v4 1745879040; prefix = 13 }))
    × (parse_cidr (codes "10.0.0.0/33") ≡ none)
    × (parse_cidr (codes "10.0.0.0") ≡ none)
    × (parse_cidr (codes "10.0.0.0/") ≡ none)
unfolding parse_cidr
parse_cidr_tests = (refl, refl, refl, refl, refl)
