-- ===== src/Scope/AuthScan.antt =====
-- authScanVerdict of internal/service/scope_service.go: the extra gate of the phases "auth_*".
use mathlib.Core.List.{Memᴰ}
use target_service.Prelude.{
  ◌≡◌, ◌↔◌, ◌⊎◌, inl, inr, Bool, true, false, not, Option, none, some, List, [], ◌∷◌, arith,
  if◌then◌else◌, Bool-cases,
}
use target_service.Text.{Str, codes, has_prefix, one_of}
use target_service.Text.Laws.{one_of_iff}
use target_service.Scope.Response.{
  ScopeCheckResponse, deny_result, unrecognized_phase, skip_unverified, skip_attestation,
}

abbrev pub phase_auth_register : Str
phase_auth_register = codes "auth_register"

abbrev pub phase_auth_crawl : Str
phase_auth_crawl = codes "auth_crawl"

abbrev pub phase_auth_account_mgmt : Str
phase_auth_account_mgmt = codes "auth_account_mgmt"

abbrev pub auth_scan_phases : List Str
auth_scan_phases = phase_auth_register ∷ phase_auth_crawl ∷ phase_auth_account_mgmt ∷ []

unfoldable pub is_auth_scan_namespace : Str → Bool
is_auth_scan_namespace phase = has_prefix phase (codes "auth_")

abbrev is_attested : Option Bool → Bool
is_attested none = false
is_attested (some b) = b

-- `none` is Go's nil: the normal gate goes on.
unfoldable pub auth_scan_verdict : Str → Bool → Option Bool → Option ScopeCheckResponse
auth_scan_verdict phase is_verified auth_scan_authorized =
    if not (is_auth_scan_namespace phase)
    then none
    else if not (one_of auth_scan_phases phase)
    then some (deny_result (unrecognized_phase phase))
    else if not is_verified
    then some (deny_result skip_unverified)
    else if not (is_attested auth_scan_authorized)
    then some (deny_result skip_attestation)
    else none

-- What the gate of the authenticated phases lets through.
abbrev pub PassesAuthScan : Str → Bool → Option Bool → Type 0
PassesAuthScan phase is_verified attested =
    (is_auth_scan_namespace phase ≡ false)
    ⊎ (Memᴰ phase auth_scan_phases × (is_verified ≡ true) × (attested ≡ some true))

passes_sound :
    (phase : Str) (v : Bool) (a : Option Bool)
    → auth_scan_verdict phase v a ≡ none
    → PassesAuthScan phase v a
unfolding auth_scan_verdict
passes_sound phase v a h = elim (Bool-cases (is_auth_scan_namespace phase)) [
  | inr outside ↦ inl outside
  | inl inside ↦ elim (Bool-cases (one_of auth_scan_phases phase)) [
    | inl listed ↦ inr ((one_of_iff auth_scan_phases phase).0 listed, ground arith, ground arith)
    | inr unlisted ↦ absurd (ground arith)
  ]
]

passes_complete :
    (phase : Str) (v : Bool) (a : Option Bool)
    → PassesAuthScan phase v a
    → auth_scan_verdict phase v a ≡ none
unfolding auth_scan_verdict
passes_complete phase v a (inl outside) = rw outside
passes_complete phase v a (inr (listed, verified, attested)) =
    rw ((one_of_iff auth_scan_phases phase).1 listed, verified, attested) (ground arith)

-- The gate of the authenticated phases passes exactly when the phase is outside the "auth_"
-- namespace, or is one of the three known phases on a verified target with the attestation given.
pub auth_scan_verdict-eq-none_iff :
    (phase : Str) (v : Bool) (a : Option Bool)
    → (auth_scan_verdict phase v a ≡ none) ↔ PassesAuthScan phase v a
auth_scan_verdict-eq-none_iff phase v a = (passes_sound phase v a, passes_complete phase v a)

-- Whatever it returns is a refusal that pins no address.
pub auth_scan_verdict_denies :
    (phase : Str) (v : Bool) (a : Option Bool) {r : ScopeCheckResponse}
    → auth_scan_verdict phase v a ≡ some r
    → (r.authorized ≡ false) × (r.allowed_ips ≡ [])
unfolding auth_scan_verdict deny_result
auth_scan_verdict_denies phase v a h = ground arith
