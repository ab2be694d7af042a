-- ===== src/Prelude/Lists.antt =====
-- Lists measured by native numbers, with Boolean searches and the predicates that describe them.
use Prim.Native.Nat.{ℕ, zero, suc, ◌+◌}
use mathlib.Core.Path.{◌≡◌, refl}
use mathlib.Core.Logic.{◌↔◌, inl, inr}
use mathlib.Core.Bool.{Bool, true, false, ◌||◌}
use mathlib.Core.List.{List, [], ◌∷◌, ◌++◌, Memᴰ}
use mathlib.Core.Option.{Option, none, some}
use native.Mathlib.Omega.{arith}
use target_service.Prelude.Tests.{if◌then◌else◌, Bool-cases}

module _ {ℓ} {A : Type ℓ} where
  abbrev pub length : List A → ℕ
  length [] = 0
  length (x ∷ xs) = suc (length xs)

  abbrev pub take : ℕ → List A → List A
  take zero xs = []
  take (suc n) [] = []
  take (suc n) (x ∷ xs) = x ∷ take n xs

  abbrev pub drop : ℕ → List A → List A
  drop zero xs = xs
  drop (suc n) [] = []
  drop (suc n) (x ∷ xs) = drop n xs

  abbrev pub replicate : ℕ → A → List A
  replicate zero a = []
  replicate (suc n) a = a ∷ replicate n a

  length-append : (xs ys : List A) → length (xs ++ ys) ≡ length xs + length ys
  length-append [] ys = omega arith
  length-append (x ∷ xs) ys = omega (arith, length-append xs ys)

  -- Some element passes the test.
  unfoldable pub any : (A → Bool) → List A → Bool
  any p [] = false
  any p (x ∷ xs) = p x || any p xs

  -- The first element that passes the test.
  unfoldable pub find : (A → Bool) → List A → Option A
  find p [] = none
  find p (x ∷ xs) = if p x then some x else find p xs

  -- The elements that pass the test, in order.
  unfoldable pub filter : (A → Bool) → List A → List A
  filter p [] = []
  filter p (x ∷ xs) = let rest = filter p xs in if p x then x ∷ rest else rest

module _ {ℓ κ} {A : Type ℓ} where
  abbrev pub All : (A → Type κ) → List A → Type κ
  All P [] = Unit
  All P (x ∷ xs) = P x × All P xs

module _ {ℓ} {A : Type ℓ} where
  -- An element that passes the test, with its place in the list.
  abbrev pub Exists : (A → Bool) → List A → Type ℓ
  Exists p xs = (x : A) × Memᴰ x xs × (p x ≡ true)

  any_sound : (p : A → Bool) (xs : List A) → any p xs ≡ true → Exists p xs
  unfolding any
  any_sound p [] h = cc
  any_sound p (x ∷ xs) h = elim (Bool-cases (p x)) [
    | inl e ↦ (x, Memᴰ.head refl, e)
    | inr e ↦ let (y, m, q) = any_sound p xs (ground arith) in (y, Memᴰ.tail m, q)
  ]

  pub any_complete : (p : A → Bool) (x : A) (xs : List A) → Memᴰ x xs → p x ≡ true → any p xs ≡ true
  unfolding any
  any_complete p x [] m q = elim m [ ]
  any_complete p x (y ∷ ys) (Memᴰ.head e) q = ground arith
  any_complete p x (y ∷ ys) (Memᴰ.tail m) q = ground (arith, any_complete p x ys m q)

  -- `any` decides whether some element passes.
  pub any_iff : (p : A → Bool) (xs : List A) → (any p xs ≡ true) ↔ Exists p xs
  any_iff p xs = (any_sound p xs, λ (x, m, q). any_complete p x xs m q)

  pub find_sound :
      (p : A → Bool) (xs : List A) {x : A} → find p xs ≡ some x → Memᴰ x xs × (p x ≡ true)
  unfolding find
  find_sound p [] h = cc
  find_sound p (y ∷ ys) {x} h = elim (Bool-cases (p y)) [
    | inl e ↦ (Memᴰ.head (ground arith), ground arith)
    | inr e ↦ let (m, q) = find_sound p ys {x = x} (ground arith) in (Memᴰ.tail m, q)
  ]

  pub find_complete :
      (p : A → Bool) (xs : List A) → ((x : A) → Memᴰ x xs → p x ≡ false) → find p xs ≡ none
  unfolding find
  find_complete p [] h = refl
  find_complete p (y ∷ ys) h =
      rw (h y (Memᴰ.head refl)) (find_complete p ys (λ x m. h x (Memᴰ.tail m)))

  pub find-none : (p : A → Bool) {x : A} (xs : List A) → find p xs ≡ none → Memᴰ x xs → p x ≡ false
  unfolding find
  find-none p [] h m = elim m [ ]
  find-none p (y ∷ ys) h (Memᴰ.head e) = ground arith
  find-none p (y ∷ ys) h (Memᴰ.tail m) = ground (arith, find-none p ys (ground arith) m)

  any-none : (p : A → Bool) (xs : List A) → any p xs ≡ false → find p xs ≡ none
  unfolding find any
  any-none p [] h = refl
  any-none p (y ∷ ys) h = ground (arith, any-none p ys)

  kept_or_later :
      (p : A → Bool) {x y : A} {kept ys : List A}
      → p y ≡ true
      → (Memᴰ x kept → Memᴰ x ys × (p x ≡ true))
      → Memᴰ x (y ∷ kept)
      → Memᴰ x (y ∷ ys) × (p x ≡ true)
  kept_or_later p q ih (Memᴰ.head e) = (Memᴰ.head e, ground arith)
  kept_or_later p q ih (Memᴰ.tail n) = let (n', r) = ih n in (Memᴰ.tail n', r)

  pub mem-filter_sound :
      (p : A → Bool) {x : A} (xs : List A) → Memᴰ x (filter p xs) → Memᴰ x xs × (p x ≡ true)
  unfolding filter
  mem-filter_sound p [] m = elim m [ ]
  mem-filter_sound p (y ∷ ys) m = elim (Bool-cases (p y)) [
    | inr out ↦ let (n, q) = mem-filter_sound p ys (rw (out, filter) at m) in (Memᴰ.tail n, q)
    | inl kept ↦ kept_or_later p kept (λ n. mem-filter_sound p ys n) (rw (kept, filter) at m)
  ]

  pub mem-filter_complete :
      (p : A → Bool) {x : A} (xs : List A) → Memᴰ x xs → p x ≡ true → Memᴰ x (filter p xs)
  unfolding filter
  mem-filter_complete p [] m q = elim m [ ]
  mem-filter_complete p (y ∷ ys) (Memᴰ.head e) q =
      let r : p y ≡ true = ground arith in rw (r, filter) (Memᴰ.head e)
  mem-filter_complete p (y ∷ ys) (Memᴰ.tail m) q = elim (Bool-cases (p y)) [
    | inr out ↦ rw (out, filter) (mem-filter_complete p ys m q)
    | inl kept ↦ rw (kept, filter) (Memᴰ.tail (mem-filter_complete p ys m q))
  ]
