-- ===== src/Handler/Tests.antt =====
-- Paging parameters and identities of sample requests.
use target_service.Prelude.{◌≡◌, ◌≤◌, ◌^◌, ◌-◌, refl, some, Option, []}
use target_service.Text.{Str, codes, atoi, atoi_value, has_prefix}
use target_service.Handler.{
  admin_max_page_size, max_page_size, admin_paging_params, validate_paging_params, positive, fnv,
  derive_user_id, user_uid_middleware, keycloak_uid,
}
use target_service.Handler.Laws.{paging_params_bounds, keycloak_uid_sound}

paging_params_bounds_example :
    ((1 ≤ (admin_paging_params (codes "-3") (codes "500")).0)
      × (1 ≤ (admin_paging_params (codes "-3") (codes "500")).1)
      × ((admin_paging_params (codes "-3") (codes "500")).1 ≤ admin_max_page_size))
    × ((1 ≤ (validate_paging_params (codes "-3") (codes "500") [] (codes "up")).0.0)
        × (1 ≤ (validate_paging_params (codes "-3") (codes "500") [] (codes "up")).0.1)
        × ((validate_paging_params (codes "-3") (codes "500") [] (codes "up")).0.1 ≤ max_page_size))
paging_params_bounds_example = paging_params_bounds (codes "-3") (codes "500") [] (codes "up")

clamped : admin_paging_params (codes "-3") (codes "500") ≡ (1, 200)
unfolding admin_paging_params atoi_value has_prefix
clamped = refl

-- The page that the greatest integer is: the offset of the list overflows on it.
far_page : (admin_paging_params (codes "99999999999999999999999x") []).0 ≡ 2 ^ 63 - 1
unfolding admin_paging_params atoi_value has_prefix
far_page = refl

-- FNV-1a of "a" with 64 bits is af63dc4c8601ec8c.
fnv_of_a : derive_user_id (codes "a") ≡ 0x2f63dc4c8601ec8c
unfolding derive_user_id fnv
fnv_of_a = refl

abbrev any_uuid : Str → Option Str
any_uuid raw = some raw

keycloak_run :
    keycloak_uid
      (user_uid_middleware any_uuid (codes "3414815163700866188") (codes "a"))
      3414815163700866188
    ≡ some (codes "a")
unfolding keycloak_uid user_uid_middleware derive_user_id fnv atoi has_prefix
keycloak_run = refl

keycloak_uid_sound_example :
    (3414815163700866188 ≡ derive_user_id (codes "a"))
    × (any_uuid (codes "a") ≡ some (codes "a"))
    × (positive (atoi (codes "3414815163700866188")) ≡ some 3414815163700866188)
keycloak_uid_sound_example =
    keycloak_uid_sound any_uuid (codes "3414815163700866188") (codes "a") 3414815163700866188
      (codes "a") keycloak_run
