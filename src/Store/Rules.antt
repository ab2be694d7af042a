-- ===== src/Store/Rules.antt =====
-- Rules for reasoning about actions: the two outcomes of a statement and of a bind.
use mathlib.Core.Path.{subst, sym, ap}
use target_service.Prelude.{◌≡◌, refl, ◌⊎◌, inl, inr, [], arith, Option-cases}
use target_service.Text.{Str}
use target_service.Store.{
  Error, db_failure, Result, ok, err, World, M, query, continue, ◌>>=◌, later, is_failing,
}

-- The world of a statement that fails, and the one that the others start from.
abbrev pub spent : World → World
spent w = record w { faults = later w.faults }

module _ {ℓ} {A : Type ℓ} where
  -- A statement fails and leaves all but the driver as it was, or runs.
  pub query_cases :
      (run : World → Result A × World) (w : World)
      → ((m : Str) × (query run w ≡ (err (db_failure m), spent w))) ⊎ (query run w ≡ run (spent w))
  unfolding query
  query_cases run w = elim (Option-cases (is_failing w.faults)) [
    | inl e ↦ inr (rw (e, query))
    | inr (m, e) ↦ inl (m, rw (e, query))
  ]

  -- A statement runs when the driver has no failure to come.
  pub query_answers :
      (run : World → Result A × World) (w : World) → w.faults ≡ [] → query run w ≡ run w
  unfolding query
  query_answers run w f =
      let e : record w { faults = [] } ≡ w = ap (λ fs. record w { faults = fs }) (sym f) in
      subst (λ v. query run v ≡ run v) e refl

  pub Result-cases : (r : Result A) → ((e : Error) × (r ≡ err e)) ⊎ ((a : A) × (r ≡ ok a))
  Result-cases (ok a) = inr (a, refl)
  Result-cases (err e) = inl (e, refl)

module _ {ℓ κ ι} {A : Type ℓ} {B : Type κ} where
  -- What holds after a failing first action, and after the second action otherwise, holds of both.
  pub bind_rule :
      (m : M A) (f : A → M B) (w : World) (P : Result B × World → Type ι)
      → ((e : Error) → (m w).0 ≡ err e → P (err e, (m w).1))
      → ((a : A) → (m w).0 ≡ ok a → P (f a (m w).1))
      → P ((m >>= f) w)
  bind_rule m f w P failing going = by_result (m w).0 refl
    where
      by_result : (r : Result A) → (m w).0 ≡ r → P (continue r f (m w).1)
      by_result (ok a) e = going a e
      by_result (err x) e = failing x e

  -- The same for a statement that is followed by more.
  query_bind_rule :
      (run : World → Result A × World) (f : A → M B) (w : World) (P : Result B × World → Type ι)
      → ((m : Str) → P (err (db_failure m), spent w))
      → P (continue (run (spent w)).0 f (run (spent w)).1)
      → P ((query run >>= f) w)
  query_bind_rule run f w P failing going = elim (query_cases run w) [
    | inl (m, e) ↦ subst (λ r. P (continue r.0 f r.1)) (sym e) (failing m)
    | inr e ↦ subst (λ r. P (continue r.0 f r.1)) (sym e) going
  ]

module _ {ℓ κ} {A : Type ℓ} {B : Type κ} where
  -- A result of two actions is the second one's, on a result of the first.
  pub bind-ok :
      (m : M A) (f : A → M B) (w : World) {b : B}
      → ((m >>= f) w).0 ≡ ok b
      → (a : A) × ((m w).0 ≡ ok a) × ((f a (m w).1).0 ≡ ok b)
  bind-ok m f w {b} h = by_result (m w).0 refl h
    where
      by_result :
          (r : Result A)
          → (m w).0 ≡ r
          → (continue r f (m w).1).0 ≡ ok b
          → (a : A) × ((m w).0 ≡ ok a) × ((f a (m w).1).0 ≡ ok b)
      by_result (ok a) e h = (a, e, h)
      by_result (err x) e h = absurd (ground arith)

  -- After a first action that succeeds, the two actions run as the second one.
  pub bind-run :
      (m : M A) (f : A → M B) (w : World) {a : A} → (m w).0 ≡ ok a → (m >>= f) w ≡ f a (m w).1
  bind-run m f w e = ap (λ r. continue r f (m w).1) e
