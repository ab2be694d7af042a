-- ===== src/Prelude/Sort.antt =====
-- Insertion sort by a test, with what it keeps and what it achieves.
use mathlib.Core.Path.{◌≡◌, refl}
use mathlib.Core.Bool.{Bool, true, false}
use mathlib.Core.Logic.{inl, inr}
use mathlib.Core.List.{List, [], ◌∷◌, Perm}
use mathlib.Core.List.Perm
use native.Mathlib.Omega.{arith}
use target_service.Prelude.Tests.{if◌then◌else◌, Bool-cases}
use Prim.Native.Nat.{suc}
use target_service.Prelude.Lists.{All, length}

module _ {ℓ} {A : Type ℓ} where
  -- Before the first element that does not have to stand before it.
  unfoldable pub insert_by : (A → A → Bool) → A → List A → List A
  insert_by before a [] = a ∷ []
  insert_by before a (b ∷ bs) =
      let rest = insert_by before a bs in if before b a then b ∷ rest else a ∷ b ∷ bs

  -- Elements that the test does not order keep their order.
  unfoldable pub sort_by : (A → A → Bool) → List A → List A
  sort_by before [] = []
  sort_by before (a ∷ as_) = insert_by before a (sort_by before as_)

  -- No element has to stand before one that it comes after.
  abbrev pub IsSortedBy : (A → A → Bool) → List A → Type ℓ
  IsSortedBy before [] = Unit
  IsSortedBy before (a ∷ as_) = All (λ b. before b a ≡ false) as_ × IsSortedBy before as_

  insert_by-perm :
      (before : A → A → Bool) (a : A) (bs : List A) → Perm (insert_by before a bs) (a ∷ bs)
  unfolding insert_by
  insert_by-perm before a [] = Perm.refl _
  insert_by-perm before a (b ∷ bs) = elim (Bool-cases (before b a)) [
    | inl y ↦
        rw (y, insert_by) (Perm.trans (Perm.cons b (insert_by-perm before a bs)) (Perm.swap a b bs))
    | inr n ↦ rw (n, insert_by) (Perm.refl _)
  ]

  pub sort_by-perm : (before : A → A → Bool) (as_ : List A) → Perm (sort_by before as_) as_
  unfolding sort_by
  sort_by-perm before [] = Perm.refl _
  sort_by-perm before (a ∷ as_) =
      Perm.trans (insert_by-perm before a (sort_by before as_))
        (Perm.cons a (sort_by-perm before as_))

  -- A strict weak order: a test that never holds both ways, and whose failures compose.
  pub record IsOrder (before : A → A → Bool) : Type ℓ where
    pub asym : (a b : A) → before a b ≡ true → before b a ≡ false
    pub chain : (a b c : A) → before a b ≡ false → before b c ≡ false → before a c ≡ false

  module _ {before : A → A → Bool} (o : IsOrder before) where
    All-insert_by :
        (P : A → Type 0) (a : A) (bs : List A) → P a → All P bs → All P (insert_by before a bs)
    unfolding insert_by
    All-insert_by P a [] p ps = (p, tt)
    All-insert_by P a (b ∷ bs) p ps = elim (Bool-cases (before b a)) [
      | inl y ↦ rw (y, insert_by) (ps.0, All-insert_by P a bs p ps.1)
      | inr n ↦ rw (n, insert_by) (p, ps)
    ]

    chain-All :
        (a b : A) (bs : List A)
        → before b a ≡ false
        → All (λ c. before c b ≡ false) bs
        → All (λ c. before c a ≡ false) bs
    chain-All a b [] n h = tt
    chain-All a b (c ∷ cs) n h = (o.chain c b a h.0 n, chain-All a b cs n h.1)

    insert_by-IsSortedBy :
        (a : A) (bs : List A) → IsSortedBy before bs → IsSortedBy before (insert_by before a bs)
    unfolding insert_by
    insert_by-IsSortedBy a [] s = (tt, tt)
    insert_by-IsSortedBy a (b ∷ bs) s = elim (Bool-cases (before b a)) [
      | inl y ↦
          rw (y, insert_by) (All-insert_by _ a bs (o.asym b a y) s.0, insert_by-IsSortedBy a bs s.1)
      | inr n ↦ rw (n, insert_by) ((n, chain-All a b bs n s.0), s)
    ]

    pub sort_by-IsSortedBy : (as_ : List A) → IsSortedBy before (sort_by before as_)
    unfolding sort_by
    sort_by-IsSortedBy [] = tt
    sort_by-IsSortedBy (a ∷ as_) =
        insert_by-IsSortedBy a (sort_by before as_) (sort_by-IsSortedBy as_)

module _ {ℓ} {A : Type ℓ} (before : A → A → Bool) where
  length-insert_by : (a : A) (bs : List A) → length (insert_by before a bs) ≡ suc (length bs)
  unfolding insert_by
  length-insert_by a [] = refl
  length-insert_by a (b ∷ bs) = ground (arith, length-insert_by a bs)

  pub length-sort_by : (as_ : List A) → length (sort_by before as_) ≡ length as_
  unfolding sort_by
  length-sort_by [] = refl
  length-sort_by (a ∷ as_) =
      ground (arith, length-insert_by a (sort_by before as_), length-sort_by as_)

  -- The same test, read the other way round.
  pub reverse-IsOrder : IsOrder before → IsOrder (λ a b. before b a)
  reverse-IsOrder o = record {
    asym = λ a b h. o.asym b a h;
    chain = λ a b c h i. o.chain c b a i h;
  }
