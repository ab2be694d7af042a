-- ===== src/Store/Listing/Pages.antt =====
-- What a reader of all pages sees.
use mathlib.Core.List.{Perm}
use target_service.Prelude.{
  ℕ, zero, suc, ◌+◌, ◌-◌, ◌*◌, ◌^◌, ◌%◌, ◌≤◌, ◌<◌, ◌≡◌, refl, sym, ◌∙◌, ap, Bool, true, false, List,
  [], ◌∷◌, ◌++◌, arith, ltb, length, filter, take, drop, if◌then◌else◌,
}
use target_service.Prelude.Sort.{
  sort_by, IsOrder, IsSortedBy, sort_by-perm, sort_by-IsSortedBy, length-sort_by, reverse-IsOrder,
}
use target_service.Text.{codes, str_eq}
use target_service.Model.{Target, SearchParameters}
use target_service.Store.{Result, ok, World, M, pure, query, ◌>>=◌}
use target_service.Store.Search.{Ilike, build_where}
use target_service.Store.Rules.{query_answers}
use target_service.Store.Listing.{
  Collation, Column, created_at, updated_at, status, value, source, user_id, sort_column,
  column_before, row_before, listed_before, ordered, list, page_of, size_of, offset_of,
}

column_before-IsOrder :
    {collate : Collation} → IsOrder collate → (c : Column) → IsOrder (column_before collate c)
unfolding column_before
column_before-IsOrder o created_at = record {
  asym = λ a b h. ground arith;
  chain = λ a b c h i. ground arith;
}
column_before-IsOrder o updated_at = record {
  asym = λ a b h. ground arith;
  chain = λ a b c h i. ground arith;
}
column_before-IsOrder o user_id = record {
  asym = λ a b h. ground arith;
  chain = λ a b c h i. ground arith;
}
column_before-IsOrder o status = record {
  asym = λ a b h. o.asym _ _ h;
  chain = λ a b c h i. o.chain _ _ _ h i;
}
column_before-IsOrder o value = record {
  asym = λ a b h. o.asym _ _ h;
  chain = λ a b c h i. o.chain _ _ _ h i;
}
column_before-IsOrder o source = record {
  asym = λ a b h. o.asym _ _ h;
  chain = λ a b c h i. o.chain _ _ _ h i;
}

row_before-IsOrder :
    {collate : Collation} → IsOrder collate → (c : Column) → IsOrder (row_before collate c)
unfolding row_before
row_before-IsOrder {collate} o column =
    let p : IsOrder (column_before collate column) = column_before-IsOrder o column in
    record {
      asym = λ a b h. ground (arith, p.asym a b);
      chain = λ a b c h i. ground (arith, p.chain a b c, p.chain b c a, p.chain c a b);
    }

either-IsOrder :
    {before : Target → Target → Bool} (b : Bool)
    → IsOrder before
    → IsOrder (λ x y. if b then before x y else before y x)
either-IsOrder true o = record { asym = o.asym; chain = o.chain }
either-IsOrder {before} false o = reverse-IsOrder before o

listed_before-IsOrder :
    {collate : Collation}
    → IsOrder collate
    → (params : SearchParameters) → IsOrder (listed_before collate params)
unfolding listed_before
listed_before-IsOrder o params =
    either-IsOrder (str_eq params.sort_order (codes "asc"))
      (row_before-IsOrder o (sort_column params.sort_by))

take-append-take-drop :
    {A : Type 0} (a b : ℕ) (xs : List A) → take a xs ++ take b (drop a xs) ≡ take (a + b) xs
take-append-take-drop zero b xs = let e : b ≡ 0 + b = omega arith in ap (λ n. take n xs) e
take-append-take-drop {A} (suc a) b [] = take-nil b ∙ sym (take-nil (suc a + b))
  where
    take-nil : (n : ℕ) → take {A = A} n [] ≡ []
    take-nil zero = refl
    take-nil (suc n) = refl
take-append-take-drop (suc a) b (x ∷ xs) =
    let e : suc (a + b) ≡ suc a + b = omega arith in
    ap (λ ys. x ∷ ys) (take-append-take-drop a b xs) ∙ ap (λ n. take n (x ∷ xs)) e

take_enough : {A : Type 0} (n : ℕ) (xs : List A) → length xs ≤ n → take n xs ≡ xs
take_enough zero [] h = refl
take_enough zero (x ∷ xs) h = absurd (ground arith)
take_enough (suc n) [] h = refl
take_enough (suc n) (x ∷ xs) h = ap (λ ys. x ∷ ys) (take_enough n xs (ground arith))

-- A client that reads the first pages one after another.
unfoldable pub read_pages : Ilike → Collation → SearchParameters → ℕ → M (List Target)
read_pages ilike collate params zero = pure []
read_pages ilike collate params (suc n) = read_pages ilike collate params n >>= λ earlier.
    list ilike collate (record params { page_number = suc n }) >>= λ page. pure (earlier ++ page)

module _ (ilike : Ilike) (collate : Collation) (params : SearchParameters) (w : World) where
  first : (n : ℕ) → suc n - 1 ≡ n
  first n = omega arith

  -- Page n + 1 of a database that answers.
  page-ok :
      (n : ℕ)
      → 1 ≤ params.page_size
      → n * params.page_size < 2 ^ 63
      → w.faults ≡ []
      → list ilike collate (record params { page_number = suc n }) w ≡ (
        ok (take params.page_size (drop (n * params.page_size) (ordered ilike collate params w))),
        w,
      )
  unfolding list query listed_before build_where
  page-ok n h b f =
      let p = params.page_size in
      let params' : SearchParameters = record params { page_number = suc n } in
      let page : page_of params' ≡ suc n = ground arith in
      let size : size_of params' ≡ p = ground arith in
      let offset : offset_of params' ≡ n * p =
        ap (λ k. (k - 1) * size_of params' % 2 ^ 64) page
        ∙ ap (λ k. k * size_of params' % 2 ^ 64) (first n)
        ∙ ap (λ s. n * s % 2 ^ 64) size
        ∙ omega arith in
      let within : ltb (offset_of params') (2 ^ 63) ≡ true =
        ap (λ o. ltb o (2 ^ 63)) offset ∙ ground arith in
      rw (within, offset, size)
        (query_answers (λ v. (ok (take p (drop (n * p) (ordered ilike collate params' v))), v)) w f)

  pages-ok :
      (n : ℕ)
      → 1 ≤ params.page_size
      → n * params.page_size < 2 ^ 63
      → w.faults ≡ []
      → read_pages ilike collate params n w
        ≡ (ok (take (n * params.page_size) (ordered ilike collate params w)), w)
  unfolding read_pages
  pages-ok zero h b f = let e : 0 * params.page_size ≡ 0 = omega arith in rw e refl
  pages-ok (suc n) h b f =
      let p = params.page_size in
      let rows = ordered ilike collate params w in
      let sum : n * p + p ≡ suc n * p = omega arith in
      let below : n * p < 2 ^ 63 = omega (arith, sum) in
      rw (pages-ok n h below f) (
        rw (page-ok n h below f) (
          ap (λ xs. (ok xs, w)) (take-append-take-drop (n * p) p rows ∙ ap (λ k. take k rows) sum)))

-- The result is a list of the matching rows, rearranged and sorted.
pub record IsComplete (matching : List Target) (before : Target → Target → Bool)
    (r : Result (List Target)) : Type 0 where
  pub rows : List Target
  pub returned : r ≡ ok rows
  pub perm : Perm rows matching
  pub sorted : IsSortedBy before rows

-- On a database that answers, a reader of enough pages gets every target that matches the search,
-- each one once, in the order asked for, when the database's order of texts is an order and the page
-- size is positive and the rows of those pages fit in a 63-bit offset.
pub read_pages-IsComplete :
    (ilike : Ilike) (collate : Collation) (params : SearchParameters) (n : ℕ) (w : World)
    → IsOrder collate
    → w.faults ≡ []
    → 1 ≤ params.page_size
    → n * params.page_size < 2 ^ 63
    → length (filter (build_where ilike params) w.db.targets) ≤ n * params.page_size
    → IsComplete
        (filter (build_where ilike params) w.db.targets)
        (listed_before collate params)
        (read_pages ilike collate params n w).0
unfolding ordered
read_pages-IsComplete ilike collate params n w o f h b enough =
    let matching = filter (build_where ilike params) w.db.targets in
    let before = listed_before collate params in
    record {
      rows = sort_by before matching;
      returned =
          ap (λ r. r.0) (pages-ok ilike collate params w n h b f)
          ∙ ap ok (
              take_enough (n * params.page_size) (sort_by before matching)
                (omega (arith, length-sort_by before matching, enough)));
      perm = sort_by-perm before matching;
      sorted = sort_by-IsSortedBy (listed_before-IsOrder o params) matching;
    }
