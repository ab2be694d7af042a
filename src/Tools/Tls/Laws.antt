-- ===== src/Tools/Tls/Laws.antt =====
-- Which connections get the best grade of the TLS tool, and which the worst.
use target_service.Prelude.{
  ℕ, ◌≡◌, ◌↔◌, ◌⊎◌, inl, inr, Bool, true, false, arith, ◌==◌, ℤ, less, Bool-cases,
}
use target_service.Tools.Grade.{grade_a, grade_f}
use target_service.Tools.Tls.{grade_tls, version_tls12, version_tls13}

-- A current protocol version, none of the two outdated ones, a valid chain, two weeks left.
pub record IsExcellent (version : ℕ) (tls10 tls11 chain_valid : Bool) (days_left : ℤ) : Type 0 where
  pub is_current : (version ≡ version_tls12) ⊎ (version ≡ version_tls13)
  pub no_tls10 : tls10 ≡ false
  pub no_tls11 : tls11 ≡ false
  pub validates : chain_valid ≡ true
  pub lasts : less days_left 14 ≡ false

a_is_current :
    (version : ℕ) (tls10 tls11 chain_valid : Bool) (days_left : ℤ)
    → (grade_tls version tls10 tls11 chain_valid days_left).0 ≡ grade_a
    → (version ≡ version_tls12) ⊎ (version ≡ version_tls13)
unfolding grade_tls
a_is_current version tls10 tls11 chain_valid days_left h =
    elim (Bool-cases (version == version_tls12)) [
      | inl y ↦ inl (ground arith)
      | inr n ↦ inr (ground arith)
    ]

excellent_a :
    (version : ℕ) (tls10 tls11 chain_valid : Bool) (days_left : ℤ)
    → IsExcellent version tls10 tls11 chain_valid days_left
    → (grade_tls version tls10 tls11 chain_valid days_left).0 ≡ grade_a
unfolding grade_tls
excellent_a version tls10 tls11 chain_valid days_left r = elim (r.is_current) [
  | inl e ↦ ground arith
  | inr e ↦ ground arith
]

-- A connection gets the best grade exactly when it negotiates TLS 1.2 or 1.3, the server takes
-- neither TLS 1.0 nor 1.1, the chain validates and the certificate has two weeks left.
grade_tls-a_iff :
    (version : ℕ) (tls10 tls11 chain_valid : Bool) (days_left : ℤ)
    → ((grade_tls version tls10 tls11 chain_valid days_left).0 ≡ grade_a)
      ↔ IsExcellent version tls10 tls11 chain_valid days_left
grade_tls-a_iff version tls10 tls11 chain_valid days_left = (
  λ h. record {
    is_current = a_is_current version tls10 tls11 chain_valid days_left h;
    no_tls10 = unfold grade_tls in ground arith;
    no_tls11 = unfold grade_tls in ground arith;
    validates = unfold grade_tls in ground arith;
    lasts = unfold grade_tls in ground arith;
  },
  excellent_a version tls10 tls11 chain_valid days_left,
)

-- A connection with an expired certificate gets the worst grade, whatever else holds of it.
grade_tls-expired :
    (version : ℕ) (tls10 tls11 chain_valid : Bool) (days_left : ℤ)
    → less days_left 0 ≡ true
    → (grade_tls version tls10 tls11 chain_valid days_left).0 ≡ grade_f
unfolding grade_tls
grade_tls-expired version tls10 tls11 chain_valid days_left h = ground arith
