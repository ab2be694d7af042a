-- ===== src/Tools/Tls.antt =====
-- GradeTLS of internal/service/tls_checker.go.
pub mod Laws
pub mod Check
use target_service.Prelude.{
  ℕ, ◌-◌, ◌≤◌, ◌≡◌, refl, ◌↔◌, ◌⊎◌, inl, inr, Bool, true, false, not, ◌&&◌, List, [], ◌∷◌, ◌++◌,
  arith, ltb, if◌then◌else◌, ◌==◌, ℤ, pos, negsuc, less, Bool-cases,
}
use target_service.Tools.Grade.{Grade, letter_grade_from_percent}

-- The numbers of the protocol versions.
abbrev pub version_tls12 : ℕ
version_tls12 = 771

abbrev pub version_tls13 : ℕ
version_tls13 = 772

-- A reason stands for its text.
pub data TlsReason : Type 0 where
  best_version acceptable_version : TlsReason
  outdated_version : ℕ → TlsReason
  accepts_tls10 accepts_tls11 chain_does_not_validate certificate_expired : TlsReason
  renew_now renew_soon : ℤ → TlsReason

-- A part of the score's loss, with its reason.
abbrev Loss : Type 0
Loss = ℕ × List TlsReason

version_loss : ℕ → Loss
version_loss version =
    if version == version_tls13
    then (0, best_version ∷ [])
    else if version == version_tls12
    then (5, acceptable_version ∷ [])
    else (40, outdated_version version ∷ [])

abbrev loss_if : Bool → ℕ → TlsReason → Loss
loss_if true n reason = (n, reason ∷ [])
loss_if false n reason = (0, [])

expiry_loss : ℤ → Loss
expiry_loss days =
    if less days 0
    then (60, certificate_expired ∷ [])
    else if less days 14
    then (15, renew_now days ∷ [])
    else if less days 30
    then (5, renew_soon days ∷ [])
    else (0, [])

-- The score starts at 100 and ends no lower than 0: the subtractions of the source, which go on
-- below zero until the last test, end where these do, which stop at zero.
unfoldable pub grade_tls : ℕ → Bool → Bool → Bool → ℤ → Grade × List TlsReason
unfolding version_loss expiry_loss letter_grade_from_percent
grade_tls version tls10 tls11 chain_valid days_left =
    let (v, vs) = version_loss version in
    let (l10, r10) = loss_if tls10 25 accepts_tls10 in
    let (l11, r11) = loss_if tls11 15 accepts_tls11 in
    let (lc, rc) = loss_if (not chain_valid) 40 chain_does_not_validate in
    let (le, re) = expiry_loss days_left in
    (letter_grade_from_percent (100 - v - l10 - l11 - lc - le), vs ++ (r10 ++ (r11 ++ (rc ++ re))))
