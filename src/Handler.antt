-- ===== src/Handler.antt =====
-- The decisions of internal/handler/helpers.go and internal/middleware/user_uid.go.
pub mod Laws
pub mod Http
pub mod Server
pub mod Targets
pub mod Admin
pub mod Internal
pub mod Routes
pub mod Tools
mod Tests
use target_service.Prelude.{
  ℕ, suc, zero, ◌+◌, ◌-◌, ◌*◌, ◌/◌, ◌%◌, ◌^◌, Bool, true, false, ◌&&◌, ◌||◌, not, Option, none,
  some, List, [], ◌∷◌, any, ltb, leb, ◌==◌, if◌then◌else◌, ℤ, pos, negsuc, less,
}
use target_service.Text.{Str, codes, str_eq, to_lower, trim_space, split, one_of, atoi, atoi_value}

-- A value that is not below 1, or the default.
abbrev or_default : ℤ → ℕ → ℕ
or_default (pos zero) d = d
or_default (pos (suc n)) d = suc n
or_default (negsuc n) d = d

abbrev at_most : ℕ → ℕ → ℕ
at_most max n = if ltb max n then max else n

abbrev pub admin_default_page_size : ℕ
admin_default_page_size = 50

abbrev pub admin_max_page_size : ℕ
admin_max_page_size = 200

abbrev pub default_page_size : ℕ
default_page_size = 10

abbrev pub max_page_size : ℕ
max_page_size = 100

unfoldable pub admin_paging_params : Str → Str → ℕ × ℕ
admin_paging_params page_number page_size = (
  or_default (atoi_value page_number) 1,
  at_most admin_max_page_size (or_default (atoi_value page_size) admin_default_page_size),
)

abbrev or_created_at : Str → Str
or_created_at [] = codes "created_at"
or_created_at (c ∷ s) = c ∷ s

abbrev asc_or_desc : Str → Str
asc_or_desc s = if one_of (codes "asc" ∷ codes "desc" ∷ []) s then s else codes "desc"

-- (page, size, sort column, sort order); the list of allowed columns is not looked at.
unfoldable pub validate_paging_params : Str → Str → Str → Str → (ℕ × ℕ) × (Str × Str)
validate_paging_params page_number page_size sort_by sort_order = (
  (
    or_default (atoi_value page_number) 1,
    at_most max_page_size (or_default (atoi_value page_size) default_page_size),
  ),
  (or_created_at sort_by, asc_or_desc sort_order),
)

abbrev admin_roles : List Str
admin_roles = codes "owner" ∷ codes "admin" ∷ []

-- The headers X-Is-Admin and X-User-Roles. EqualFold, of ASCII letters.
unfoldable pub is_admin_request : Str → Str → Bool
is_admin_request is_admin user_roles =
    str_eq (to_lower (trim_space is_admin)) (codes "true")
    || any (λ role. one_of admin_roles (to_lower (trim_space role))) (split b',' user_roles)

abbrev pub positive : Option ℤ → Option ℕ
positive (some (pos (suc n))) = some (suc n)
positive _ = none

-- The header X-User-Id; `none` is an error.
unfoldable pub user_id_from_header : Str → Option ℕ
user_id_from_header [] = none
user_id_from_header (c ∷ s) = positive (atoi (c ∷ s))

-- The exclusive or of two numbers of so many bits.
abbrev xor_bits : ℕ → ℕ → ℕ → ℕ
xor_bits zero a b = 0
xor_bits (suc k) a b = (a % 2 + b % 2) % 2 + 2 * xor_bits k (a / 2) (b / 2)

-- One round of FNV-1a with 64 bits.
abbrev fnv_round : ℕ → ℕ → ℕ
fnv_round h byte = (h / 256 * 256 + xor_bits 8 (h % 256) byte) * 1099511628211 % 2 ^ 64

unfoldable pub fnv : ℕ → Str → ℕ
fnv h [] = h
fnv h (byte ∷ s) = fnv (fnv_round h byte) s

-- The top bit is cleared, and 0 becomes 1.
unfoldable pub derive_user_id : Str → ℕ
derive_user_id sub = let v = fnv 14695981039346656037 sub % 2 ^ 63 in if v == 0 then 1 else v

-- What the middleware puts into the context of a request.
pub record UserUid : Type 0 where
  pub user_id : ℕ
  pub uid : Str

abbrev bound_uid : Option ℕ → Str → Option Str → Option UserUid
bound_uid (some id) raw (some uid) =
    if id == derive_user_id raw then some (record { user_id = id; uid = uid }) else none
bound_uid _ raw _ = none

-- The headers X-User-Id and X-User-Uid. The parser of UUIDs is a parameter: `none` is its error.
unfoldable pub user_uid_middleware : (Str → Option Str) → Str → Str → Option UserUid
user_uid_middleware scan_uuid user_id raw = bound_uid (positive (atoi user_id)) raw (scan_uuid raw)

-- `none` is NULL.
unfoldable pub keycloak_uid : Option UserUid → ℕ → Option Str
keycloak_uid none owner = none
keycloak_uid (some u) owner = if u.user_id == owner then some (u.uid) else none
