-- ===== src/Tools/Headers/Laws.antt =====
-- What the grade of a page's headers says of them.
use mathlib.Core.List.{Memᴰ}
use target_service.Prelude.{
  length, ap, sym, ◌∙◌, ℕ, ◌+◌, ◌*◌, ◌≤◌, ◌≡◌, refl, ◌↔◌, inl, inr, Bool, true, false, List, [],
  ◌∷◌, map, arith, Bool-cases, less, ℤ,
}
use target_service.Text.{Str, codes, to_lower, contains}
use target_service.Tools.Grade.{grade_a, letter_grade}
use target_service.Tools.Headers.{
  Header, content_security_policy, strict_transport_security, x_frame_options,
  x_content_type_options, referrer_policy, permissions_policy, cross_origin_opener_policy,
  cross_origin_resource_policy, HeaderStatus, pass, warn, fail, HeaderResult, checked_headers,
  parse_hsts_max_age, min_max_age, grade_max_age, grade_hsts, is_blank, grade_one_header, points,
  score_of, grade_headers,
}

letter_grade-a : (score : ℕ) → letter_grade score 16 ≡ grade_a → 15 ≤ score
unfolding letter_grade
letter_grade-a score h = ground arith

points_bound : (s : HeaderStatus) → points s ≤ 2
points_bound pass = ground arith
points_bound warn = ground arith
points_bound fail = ground arith

module _ (h : Header → Str) where
  results_of : List Header → List HeaderResult
  results_of names = map (λ name. grade_one_header name (h name)) names

  score_bound : (names : List Header) → score_of (results_of names) ≤ 2 * length names
  unfolding results_of
  score_bound [] = ground arith
  score_bound (n ∷ names) =
      ground (arith, score_bound names, points_bound (grade_one_header n (h n)).status)

  blank_fails :
      (name : Header) → is_blank (h name) ≡ true → (grade_one_header name (h name)).status ≡ fail
  unfolding grade_one_header
  blank_fails name e = rw e refl

  -- A blank header costs its two points.
  score_blank :
      (name : Header) (names : List Header)
      → is_blank (h name) ≡ true
      → Memᴰ name names
      → score_of (results_of names) + 2 ≤ 2 * length names
  unfolding results_of
  score_blank name [] e m = elim m [ ]
  score_blank name (n ∷ names) e (Memᴰ.head q) =
      rw (ap (λ n. (grade_one_header n (h n)).status) (sym q) ∙ blank_fails name e)
        (ground (arith, score_bound names))
  score_blank name (n ∷ names) e (Memᴰ.tail m) =
      ground (arith, score_blank name names e m, points_bound (grade_one_header n (h n)).status)

  checked : (name : Header) → Memᴰ name checked_headers
  unfolding checked_headers
  checked content_security_policy = Memᴰ.head refl
  checked strict_transport_security = Memᴰ.tail (Memᴰ.head refl)
  checked x_frame_options = Memᴰ.tail (Memᴰ.tail (Memᴰ.head refl))
  checked x_content_type_options = Memᴰ.tail (Memᴰ.tail (Memᴰ.tail (Memᴰ.head refl)))
  checked referrer_policy = Memᴰ.tail (Memᴰ.tail (Memᴰ.tail (Memᴰ.tail (Memᴰ.head refl))))
  checked permissions_policy =
      Memᴰ.tail (Memᴰ.tail (Memᴰ.tail (Memᴰ.tail (Memᴰ.tail (Memᴰ.head refl)))))
  checked cross_origin_opener_policy =
      Memᴰ.tail (Memᴰ.tail (Memᴰ.tail (Memᴰ.tail (Memᴰ.tail (Memᴰ.tail (Memᴰ.head refl))))))
  checked cross_origin_resource_policy =
      Memᴰ.tail
        (Memᴰ.tail (Memᴰ.tail (Memᴰ.tail (Memᴰ.tail (Memᴰ.tail (Memᴰ.tail (Memᴰ.head refl)))))))

  -- A page with the best grade has every checked header, and none is blank.
  grade_headers_complete :
      (name : Header) → (grade_headers h).1 ≡ grade_a → is_blank (h name) ≡ false
  unfolding grade_headers results_of
  grade_headers_complete name g = elim (Bool-cases (is_blank (h name))) [
    | inr n ↦ n
    | inl y ↦ absurd (
        ground (
          arith,
          letter_grade-a (score_of (results_of checked_headers)) g,
          score_blank name checked_headers y (checked name),
        ))
  ]

-- A Strict-Transport-Security header passes exactly when its max-age is 180 days or more and it
-- mentions includeSubDomains in any case.
grade_hsts-pass_iff :
    (value : Str)
    → ((grade_hsts value).status ≡ pass) ↔ (
        (less (parse_hsts_max_age value) min_max_age ≡ false)
        × (contains (to_lower value) (codes "includesubdomains") ≡ true))
unfolding grade_hsts
grade_hsts-pass_iff value =
    by_age (parse_hsts_max_age value) (contains (to_lower value) (codes "includesubdomains"))
  where
    by_age :
        (n : ℤ) (sub : Bool)
        → ((grade_max_age value n sub).status ≡ pass)
          ↔ ((less n min_max_age ≡ false) × (sub ≡ true))
    by_age n sub = (λ e. (ground arith, ground arith), λ (l, s). ground arith)
