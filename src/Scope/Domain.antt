-- ===== src/Scope/Domain.antt =====
-- isSubdomainOf of internal/service/scope_service.go.
use target_service.Prelude.{◌≡◌, ◌↔◌, ◌⊎◌, inl, inr, Bool, true, ◌||◌, ◌∷◌, ◌++◌, arith, Bool-cases}
use target_service.Text.{Str, to_lower, str_eq, has_suffix}
use target_service.Text.Laws.{str_eq_iff, has_suffix_iff, to_lower_idem}

-- The host is the base, or ends with "." and the base.
unfoldable pub host_under : Str → Str → Bool
host_under host base = str_eq host base || has_suffix host (b'.' ∷ base)

unfoldable pub is_subdomain_of : Str → Str → Bool
is_subdomain_of host apex = host_under (to_lower host) (to_lower apex)

-- A name is the apex, or labels followed by "." and the apex.
abbrev pub IsUnder : Str → Str → Type 0
IsUnder host apex = (host ≡ apex) ⊎ ((sub : Str) × (host ≡ sub ++ b'.' ∷ apex))

pub host_under_iff : (host base : Str) → (host_under host base ≡ true) ↔ IsUnder host base
unfolding host_under
host_under_iff host base = (
  λ h. elim (Bool-cases (str_eq host base)) [
    | inl e ↦ inl ((str_eq_iff host base).0 e)
    | inr n ↦ inr ((has_suffix_iff host (b'.' ∷ base)).0 (ground arith))
  ],
  λ u. elim u [
    | inl e ↦ rw ((str_eq_iff host base).1 e)
    | inr s ↦ let t = (has_suffix_iff host (b'.' ∷ base)).1 s in ground arith
  ],
)

-- A host is in a registrable-domain scope exactly when, in lower case, it is the apex or some text
-- followed by "." and the apex: "evil-example.com" is not under "example.com".
pub is_subdomain_of_iff :
    (host apex : Str) → (is_subdomain_of host apex ≡ true) ↔ IsUnder (to_lower host) (to_lower apex)
unfolding is_subdomain_of
is_subdomain_of_iff host apex = host_under_iff (to_lower host) (to_lower apex)

-- The case of the host makes no difference.
pub is_subdomain_of-to_lower :
    (host apex : Str) → is_subdomain_of (to_lower host) apex ≡ is_subdomain_of host apex
unfolding is_subdomain_of
is_subdomain_of-to_lower host apex = rw (to_lower_idem host)
