-- ===== src/Tools/Email/Laws.antt =====
-- What the SPF and DMARC parsers count, and when they have nothing to say.
use mathlib.Core.List.{Memᴰ}
use mathlib.Core.Path.{subst}
use target_service.Prelude.{
  ℕ, ◌+◌, ◌≡◌, refl, sym, ◌∙◌, inl, inr, false, some, List, [], ◌∷◌, arith, any, length, filter,
  if◌then◌else◌, Bool-cases, Option-cases,
}
use target_service.Text.{Str, codes, str_eq, to_lower, fields, one_of, has_prefix}
use target_service.Text.Laws.{str_eq_iff, one_of_iff}
use target_service.Tools.Email.{
  is_blank, all_mechanism, all_qualifiers, costs_lookup, spf_step, scan_spf, parse_spf,
}

-- A mechanism that sets the qualifier costs nothing.
all_is_free : (lf : Str) {q : Str} → all_mechanism lf ≡ some q → costs_lookup lf ≡ false
unfolding all_mechanism costs_lookup one_of any str_eq has_prefix
all_is_free lf {q} h = elim (Bool-cases (one_of all_qualifiers lf)) [
  | inl y ↦ by_member ((one_of_iff all_qualifiers lf).0 y)
  | inr n ↦ elim (Bool-cases (str_eq lf (codes "all"))) [
    | inl e ↦ subst (λ l. costs_lookup l ≡ false) (sym ((str_eq_iff lf (codes "all")).0 e)) refl
    | inr m ↦ absurd (ground arith)
  ]
]
  where
    by_member : Memᴰ lf all_qualifiers → costs_lookup lf ≡ false
    by_member (Memᴰ.head e) = subst (λ l. costs_lookup l ≡ false) (sym e) refl
    by_member (Memᴰ.tail (Memᴰ.head e)) = subst (λ l. costs_lookup l ≡ false) (sym e) refl
    by_member (Memᴰ.tail (Memᴰ.tail (Memᴰ.head e))) =
        subst (λ l. costs_lookup l ≡ false) (sym e) refl
    by_member (Memᴰ.tail (Memᴰ.tail (Memᴰ.tail (Memᴰ.head e)))) =
        subst (λ l. costs_lookup l ≡ false) (sym e) refl
    by_member (Memᴰ.tail (Memᴰ.tail (Memᴰ.tail (Memᴰ.tail m)))) = elim m [ ]

-- The fields that cost a lookup, counted.
abbrev lookup_count_of : List Str → ℕ
lookup_count_of fs = length (filter (λ f. costs_lookup (to_lower f)) fs)

spf_step-lookups :
    (lf : Str) (acc : ℕ × Str) → (spf_step lf acc).0 ≡ acc.0 + (if costs_lookup lf then 1 else 0)
spf_step-lookups lf (n, q) = elim (Option-cases (all_mechanism lf)) [
  | inr (q', e) ↦ rw (e, all_is_free lf {q = q'} e, spf_step) (ground arith)
  | inl e ↦ elim (Bool-cases (costs_lookup lf)) [
    | inl y ↦ rw (e, y, spf_step) refl
    | inr x ↦ rw (e, x, spf_step) (ground arith)
  ]
]

scan_spf-lookups :
    (fs : List Str) (acc : ℕ × Str) → (scan_spf fs acc).0 ≡ acc.0 + lookup_count_of fs
unfolding scan_spf filter
scan_spf-lookups [] acc = ground arith
scan_spf-lookups (f ∷ fs) acc =
    scan_spf-lookups fs (spf_step (to_lower f) acc)
    ∙ ground (arith, spf_step-lookups (to_lower f) acc)

-- The lookup count of an SPF record that is not blank is the number of its fields that cost a
-- lookup: the mechanisms a, mx, ptr, include and exists, and the modifier redirect.
parse_spf-lookups :
    (record_ : Str)
    → is_blank record_ ≡ false
    → (parse_spf record_).lookup_count ≡ lookup_count_of (fields record_)
unfolding parse_spf
parse_spf-lookups record_ n = rw n (scan_spf-lookups (fields record_) (0, []) ∙ ground arith)
