-- ===== src/Tools/Tls/Check.antt =====
-- Check of internal/service/tls_checker.go: the handshakes with a domain, and what is graded of them.
use target_service.Prelude.{
  ℕ, suc, zero, ◌-◌, ◌+◌, ◌*◌, ◌/◌, ◌≤◌, ◌≡◌, ◌↔◌, refl, ℤ, pos, negsuc, Bool, true, false, Option,
  none, some, List, [], ◌∷◌, leb, less, ◌==◌, if◌then◌else◌, arith, Bool-cases, inl, inr,
}
use target_service.Text.{Str}
use target_service.Model.{Time, hour}
use target_service.Tools.Grade.{Grade}
use target_service.Tools.Tls.{TlsReason, grade_tls, version_tls12, version_tls13}

abbrev pub version_tls10 : ℕ
version_tls10 = 769

abbrev pub version_tls11 : ℕ
version_tls11 = 770

pub record Certificate : Type 0 where
  pub subject : Str
  pub issuer : Str
  pub not_after : Time

pub record ConnectionState : Type 0 where
  pub version : ℕ
  pub cipher : Str
  pub peers : List Certificate

-- crypto/tls and crypto/x509: a handshake with a domain within a window of versions (0 is the
-- default), and whether a certificate and what was sent with it are valid for the domain.
pub record Tls : Type 0 where
  pub handshake : Str → ℕ → ℕ → Option ConnectionState
  pub verifies : Str → Certificate → List Certificate → Bool

pub data Protocol : Type 0 where
  tls10 tls11 tls12 tls13 : Protocol
  unknown_version : ℕ → Protocol

unfoldable pub tls_version_name : ℕ → Protocol
tls_version_name v =
    if v == version_tls10
    then tls10
    else if v == version_tls11
    then tls11
    else if v == version_tls12
    then tls12
    else if v == version_tls13
    then tls13
    else unknown_version v

abbrev days_ago : ℕ → ℤ
days_ago zero = pos 0
days_ago (suc n) = negsuc n

abbrev pub day : Time
day = 24 * hour

-- The days until a time, towards zero.
unfoldable pub days_until : Time → Time → ℤ
days_until now t = if leb now t then pos ((t - now) / day) else days_ago ((now - t) / day)

pub record TlsCertificateInfo : Type 0 where
  pub subject : Str
  pub issuer : Str
  pub expires_at : Option Time
  pub days_left : ℤ

pub record TlsCheckResponse : Type 0 where
  pub domain : Str
  pub protocol : Protocol
  pub cipher : Str
  pub certificate : TlsCertificateInfo
  pub chain_valid_for_host : Bool
  pub tls10_accepted : Bool
  pub tls11_accepted : Bool
  pub grade : Grade
  pub reasons : List TlsReason
  pub checked_at : Time

abbrev is_some : Option ConnectionState → Bool
is_some none = false
is_some (some s) = true

unfoldable pub probe_version : Tls → Str → ℕ → Bool
probe_version tls domain version = is_some (tls.handshake domain version version)

-- The leaf certificate, and whether it is valid for the domain.
abbrev inspect : Tls → Time → Str → List Certificate → TlsCertificateInfo × Bool
inspect tls now domain [] =
    (record { subject = []; issuer = []; expires_at = none; days_left = pos 0 }, false)
inspect tls now domain (leaf ∷ rest) = (
  record {
    subject = leaf.subject;
    issuer = leaf.issuer;
    expires_at = some leaf.not_after;
    days_left = days_until now leaf.not_after;
  },
  tls.verifies domain leaf rest,
)

unfoldable pub graded : Tls → Time → Str → ConnectionState → TlsCheckResponse
graded tls now domain state =
    let (info, valid) = inspect tls now domain state.peers in
    let t10 = probe_version tls domain version_tls10 in
    let t11 = probe_version tls domain version_tls11 in
    let (grade, reasons) = grade_tls state.version t10 t11 valid info.days_left in
    record {
      domain = domain;
      protocol = tls_version_name state.version;
      cipher = state.cipher;
      certificate = info;
      chain_valid_for_host = valid;
      tls10_accepted = t10;
      tls11_accepted = t11;
      grade = grade;
      reasons = reasons;
      checked_at = now;
    }

abbrev graded_or_none : Tls → Time → Str → Option ConnectionState → Option TlsCheckResponse
graded_or_none tls now domain none = none
graded_or_none tls now domain (some state) = some (graded tls now domain state)

abbrev or_weak : Tls → Str → Option ConnectionState → Option ConnectionState
or_weak tls domain none = tls.handshake domain version_tls10 version_tls13
or_weak tls domain (some state) = some state

-- A handshake with the defaults, and one with a weak floor when that fails.
unfoldable pub check : Tls → Time → Str → Option TlsCheckResponse
check tls now domain = graded_or_none tls now domain (or_weak tls domain (tls.handshake domain 0 0))

past : (d : ℕ) → (less (days_ago d) 0 ≡ true) ↔ (1 ≤ d)
past zero = (λ h. absurd (ground arith), λ h. absurd (omega (arith, h)))
past (suc d) = (λ h. omega arith, λ h. refl)

-- The days left of a certificate are negative exactly when it expired a whole day ago or earlier: for
-- a day after it expired they are not.
pub days_until-expired_iff :
    (now not_after : Time) → (less (days_until now not_after) 0 ≡ true) ↔ (not_after + day ≤ now)
unfolding days_until
days_until-expired_iff now not_after = elim (Bool-cases (leb now not_after)) [
  | inl y ↦ rw y (
    (λ h. absurd (not_below ((not_after - now) / day) h)),
    (λ h. let b : now ≤ not_after = ground arith in absurd (omega (arith, h, b))),
  )
  | inr n ↦
      let b : not_after ≤ now = ground arith in
      rw n (
        (λ h. let d = (past ((now - not_after) / day)).0 h in omega (arith, d, b)),
        (λ h. (past ((now - not_after) / day)).1 (omega (arith, h))),
      )
]
  where
    not_below : (n : ℕ) → less (pos n) 0 ≡ true → ⊥
    not_below n h = ground arith
