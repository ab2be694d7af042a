-- ===== src/Store/Search/Laws.antt =====
-- The pattern that escapeLike makes of a text.
use mathlib.Core.Path.{subst}
use target_service.Prelude.{
  ◌∙◌, sym, ap, ℕ, Bool, true, false, ◌||◌, Bool-cases, inl, inr, ◌≡◌, refl, Option, none, some, [],
  ◌∷◌, ◌==◌, arith,
}
use target_service.Text.{Str}
use target_service.Store.Search.{escape_byte, escape_like}

abbrev with_byte : ℕ → Option Str → Option Str
with_byte c none = none
with_byte c (some s) = some (c ∷ s)

-- The text that a pattern stands for: a backslash quotes the next byte; a pattern with a wildcard,
-- or one that ends in a backslash, stands for no text.
abbrev literal_from : Bool → Str → Option Str
literal_from true [] = none
literal_from true (x ∷ xs) = with_byte x (literal_from false xs)
literal_from false [] = some []
literal_from false (x ∷ xs) = elim (x == b'\\') [
  | true ↦ literal_from true xs
  | false ↦ elim (x == b'%' || x == b'_') [
    | true ↦ none
    | false ↦ with_byte x (literal_from false xs)
  ]
]

abbrev pub literal : Str → Option Str
literal s = literal_from false s

module _ (x : ℕ) (xs : Str) (n : (x == b'\\') ≡ false) (m : (x == b'%') ≡ false)
    (k : (x == b'_') ≡ false) where
  escape_like-plain : escape_like (x ∷ xs) ≡ x ∷ escape_like xs
  unfolding escape_like escape_byte
  escape_like-plain = rw (n, m, k) refl

  literal-plain : literal (x ∷ xs) ≡ with_byte x (literal xs)
  literal-plain = rw (literal, literal_from, n, m, k) refl

-- The pattern of escapeLike stands for the text it was made of, whatever bytes that has.
pub literal-escape_like : (s : Str) → literal (escape_like s) ≡ some s
unfolding escape_like escape_byte
literal-escape_like [] = refl
literal-escape_like (x ∷ xs) = elim (Bool-cases (x == b'\\')) [
  | inl y ↦ at (ground arith) (ap (with_byte b'\\') (literal-escape_like xs))
  | inr n ↦ elim (Bool-cases (x == b'%')) [
    | inl y ↦ at (ground arith) (ap (with_byte b'%') (literal-escape_like xs))
    | inr m ↦ elim (Bool-cases (x == b'_')) [
      | inl y ↦ at (ground arith) (ap (with_byte b'_') (literal-escape_like xs))
      | inr k ↦
          ap literal (escape_like-plain x xs n m k)
          ∙ literal-plain x (escape_like xs) n m k
          ∙ ap (with_byte x) (literal-escape_like xs)
    ]
  ]
]
  where
    at :
        {b : ℕ}
        → x ≡ b
        → literal (escape_like (b ∷ xs)) ≡ some (b ∷ xs)
        → literal (escape_like (x ∷ xs)) ≡ some (x ∷ xs)
    at e h = subst (λ z. literal (escape_like (z ∷ xs)) ≡ some (z ∷ xs)) (sym e) h
