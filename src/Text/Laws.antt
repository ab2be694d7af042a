-- ===== src/Text/Laws.antt =====
-- Laws of the string functions: what each test decides, and what folding the case leaves fixed.
use mathlib.Core.List.{reverse-append, reverse-reverse, Memᴰ}
use target_service.Prelude.{
  ℕ, ◌≡◌, refl, sym, ap, ◌∙◌, ◌↔◌, true, List, [], ◌∷◌, ◌++◌, reverse, arith, any_iff,
}
use target_service.Text.{Str, str_eq, lower, to_lower, has_prefix, has_suffix, one_of}

pub str_eq_iff : (s t : Str) → (str_eq s t ≡ true) ↔ (s ≡ t)
unfolding str_eq
str_eq_iff [] [] = ground arith
str_eq_iff [] (_ ∷ _) = ground arith
str_eq_iff (_ ∷ _) [] = ground arith
str_eq_iff (a ∷ s) (b ∷ t) = ground (arith, str_eq_iff s t)

pub str_eq_refl : (s : Str) → str_eq s s ≡ true
str_eq_refl s = (str_eq_iff s s).1 refl

-- Membership in a set of strings.
pub one_of_iff : (ss : List Str) (s : Str) → (one_of ss s ≡ true) ↔ Memᴰ s ss
unfolding one_of
one_of_iff ss s = (
  λ h. let (t, m, e) = (any_iff (str_eq s) ss).0 h in rw ((str_eq_iff s t).0 e) m,
  λ m. (any_iff (str_eq s) ss).1 (s, m, str_eq_refl s),
)

lower_idem : (c : ℕ) → lower (lower c) ≡ lower c
unfolding lower
lower_idem c = ground arith

-- Folding the case twice is folding it once.
pub to_lower_idem : (s : Str) → to_lower (to_lower s) ≡ to_lower s
unfolding to_lower
to_lower_idem [] = refl
to_lower_idem (c ∷ s) = cc (lower_idem c, to_lower_idem s)

pub to_lower-append : (s t : Str) → to_lower (s ++ t) ≡ to_lower s ++ to_lower t
unfolding to_lower
to_lower-append [] t = refl
to_lower-append (c ∷ s) t = ap (λ r. lower c ∷ r) (to_lower-append s t)

has_prefix_sound : (s p : Str) → has_prefix s p ≡ true → (r : Str) × (s ≡ p ++ r)
unfolding has_prefix
has_prefix_sound s [] h = (s, refl)
has_prefix_sound [] (_ ∷ _) h = cc
has_prefix_sound (a ∷ s) (b ∷ p) h =
    let (r, e) = has_prefix_sound s p (ground arith) in (r, ground arith)

pub has_prefix-append : (p r : Str) → has_prefix (p ++ r) p ≡ true
unfolding has_prefix
has_prefix-append [] r = refl
has_prefix-append (c ∷ p) r = ground (arith, has_prefix-append p r)

pub has_prefix_iff : (s p : Str) → (has_prefix s p ≡ true) ↔ ((r : Str) × (s ≡ p ++ r))
has_prefix_iff s p = (has_prefix_sound s p, λ (r, e). rw e (has_prefix-append p r))

pub has_suffix-append : (r s : Str) → has_suffix (r ++ s) s ≡ true
unfolding has_suffix
has_suffix-append r s = rw (reverse-append r s) (has_prefix-append (reverse s) (reverse r))

pub has_suffix_iff : (s q : Str) → (has_suffix s q ≡ true) ↔ ((r : Str) × (s ≡ r ++ q))
unfolding has_suffix
has_suffix_iff s q = (
  λ h.
      let (r, e) = has_prefix_sound (reverse s) (reverse q) h in
      (
        reverse r,
        sym (reverse-reverse s)
            ∙ ap reverse e
            ∙ reverse-append (reverse q) r
            ∙ ap (λ t. reverse r ++ t) (reverse-reverse q),
      ),
  λ (r, e). rw e (has_suffix-append r q),
)
