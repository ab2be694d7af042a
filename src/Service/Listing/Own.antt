-- ===== src/Service/Listing/Own.antt =====
-- What a listing tells a user.
use mathlib.Core.List.{Memᴰ}
use mathlib.Core.Path.{subst}
use target_service.Text.{codes}
use target_service.Prelude.{
  ℕ, zero, suc, ◌≤◌, ◌≡◌, refl, sym, ap, ◌∙◌, inl, inr, Bool, true, false, Bool-cases, List, [],
  ◌∷◌, map, filter, take, drop, length, All, arith, ltb, if◌then◌else◌, ◌^◌,
}
use target_service.Prelude.Sort.{insert_by, sort_by}
use target_service.Model.{Target, SearchParameters}
use target_service.Store.{World, Error, Result, ok, err, pure, db_failure}
use target_service.Store.Rules.{query_cases, spent, bind-ok}
use target_service.Store.Search.{Ilike, build_where}
use target_service.Store.Listing.{Collation, list, ordered, listed_before, size_of, offset_of}
use target_service.Service.Dto.{TargetDto, target_to_dto}
use target_service.Service.Listing.{list_targets, for_user}

module _ {A : Type 0} (P : A → Type 0) where
  All-insert_by :
      (before : A → A → Bool) (a : A) (bs : List A) → P a → All P bs → All P (insert_by before a bs)
  unfolding insert_by
  All-insert_by before a [] p ps = (p, tt)
  All-insert_by before a (b ∷ bs) p ps = elim (Bool-cases (before b a)) [
    | inl y ↦ rw (y, insert_by) (ps.0, All-insert_by before a bs p ps.1)
    | inr n ↦ rw (n, insert_by) (p, ps)
  ]

  All-sort_by : (before : A → A → Bool) (as_ : List A) → All P as_ → All P (sort_by before as_)
  unfolding sort_by
  All-sort_by before [] ps = tt
  All-sort_by before (a ∷ as_) ps =
      All-insert_by before a (sort_by before as_) ps.0 (All-sort_by before as_ ps.1)

  All-drop : (n : ℕ) (as_ : List A) → All P as_ → All P (drop n as_)
  All-drop zero as_ ps = ps
  All-drop (suc n) [] ps = tt
  All-drop (suc n) (a ∷ as_) ps = All-drop n as_ ps.1

  All-take : (n : ℕ) (as_ : List A) → All P as_ → All P (take n as_)
  All-take zero as_ ps = tt
  All-take (suc n) [] ps = tt
  All-take (suc n) (a ∷ as_) ps = (ps.0, All-take n as_ ps.1)

length-take : {A : Type 0} (n : ℕ) (as_ : List A) → length (take n as_) ≤ n
length-take zero as_ = omega arith
length-take (suc n) [] = omega arith
length-take (suc n) (a ∷ as_) = let ih = length-take n as_ in omega (arith, ih)

-- A row of the user, as it is shown.
pub record IsOwnDto (user_id : ℕ) (ts : List Target) (dto : TargetDto) : Type 0 where
  pub target : Target
  pub stored : Memᴰ target ts
  pub owner : target.user_id ≡ user_id
  pub shown : dto ≡ target_to_dto target

module _ (ilike : Ilike) (collate : Collation) (user_id : ℕ) (params : SearchParameters) where
  abbrev Shows : List Target → Target → Type 0
  Shows ts t = IsOwnDto user_id ts (target_to_dto t)

  of_owner :
      (t : Target) → build_where ilike (for_user user_id params) t ≡ true → t.user_id ≡ user_id
  unfolding build_where
  of_owner t y = ground arith

  matching-Shows :
      (all ts : List Target)
      → ((t : Target) → Memᴰ t ts → Memᴰ t all)
      → All (Shows all) (filter (build_where ilike (for_user user_id params)) ts)
  unfolding filter
  matching-Shows all [] m = tt
  matching-Shows all (t ∷ ts) m =
      elim (Bool-cases (build_where ilike (for_user user_id params) t)) [
        | inl y ↦
            rw (y, filter)
              (
                record {
                  target = t;
                  stored = m t (Memᴰ.head refl);
                  owner = of_owner t y;
                  shown = refl;
                },
                matching-Shows all ts (λ u v. m u (Memᴰ.tail v)),
              )
        | inr n ↦ rw (n, filter) (matching-Shows all ts (λ u v. m u (Memᴰ.tail v)))
      ]

  ordered-Shows :
      (w : World) → All (Shows w.db.targets) (ordered ilike collate (for_user user_id params) w)
  unfolding ordered
  ordered-Shows w =
      All-sort_by (Shows w.db.targets) (listed_before collate (for_user user_id params)) _
        (matching-Shows w.db.targets w.db.targets (λ t m. m))

  -- A page of the user's rows.
  list-Shows :
      (w : World) (rows : List Target)
      → (list ilike collate (for_user user_id params) w).0 ≡ ok rows
      → All (Shows w.db.targets) rows × (length rows ≤ size_of params)
  unfolding list
  list-Shows w rows h =
      elim (query_cases (run (offset_of (for_user user_id params)) (size_of params)) w) [
        | inl (m, e) ↦ absurd (no_rows (sym (ap (λ x. x.0) e) ∙ h))
        | inr e ↦
            by_offset (ltb (offset_of (for_user user_id params)) (2 ^ 63))
              (sym (ap (λ x. x.0) e) ∙ h)
      ]
    where
      run : (offset size : ℕ) → World → Result (List Target) × World
      run offset size v =
          if ltb offset (2 ^ 63)
          then (ok (take size (drop offset (ordered ilike collate (for_user user_id params) v))), v)
          else (err (db_failure (codes "OFFSET must not be negative")), v)

      no_rows : {e : Error} {rows : List Target} → err e ≡ ok rows → ⊥
      no_rows h = ground arith

      page : List Target
      page = take (size_of params) (
          drop (offset_of (for_user user_id params))
            (ordered ilike collate (for_user user_id params) (spent w)))

      answer : Bool → Result (List Target) × World
      answer b =
          if b
          then (ok page, spent w)
          else (err (db_failure (codes "OFFSET must not be negative")), spent w)

      by_offset :
          (b : Bool)
          → (answer b).0 ≡ ok rows
          → All (Shows w.db.targets) rows × (length rows ≤ size_of params)
      by_offset true h =
          subst (λ rows. All (Shows w.db.targets) rows × (length rows ≤ size_of params)) (same h)
            (
              All-take (Shows w.db.targets) (size_of params) _ (
                  All-drop (Shows w.db.targets) (offset_of (for_user user_id params)) _
                    (ordered-Shows (spent w))),
              length-take (size_of params) _,
            )
        where
          same : {as_ bs : List Target} → ok as_ ≡ ok bs → as_ ≡ bs
          same h = cc
      by_offset false h = absurd (no_rows h)

  dtos-IsOwn :
      (ts rows : List Target)
      → All (Shows ts) rows
      → All (IsOwnDto user_id ts) (map target_to_dto rows)
  dtos-IsOwn ts [] a = tt
  dtos-IsOwn ts (t ∷ rows) a = (a.0, dtos-IsOwn ts rows a.1)

  length-dtos : (rows : List Target) → length (map target_to_dto rows) ≡ length rows
  length-dtos [] = refl
  length-dtos (t ∷ rows) = ap suc (length-dtos rows)

  -- What ListTargets answers a user is a page of rows that are stored for this user and nobody else,
  -- whatever the filters and the order asked for are.
  pub list_targets-IsOwn :
      (w : World) (dtos : List TargetDto)
      → (list_targets ilike collate user_id params w).0 ≡ ok dtos
      → All (IsOwnDto user_id w.db.targets) dtos × (length dtos ≤ size_of params)
  unfolding list_targets
  list_targets-IsOwn w dtos h =
      let (rows, e, q) =
        bind-ok (list ilike collate (for_user user_id params))
          (λ targets. pure (map target_to_dto targets)) w h in
      let (own, bound) = list-Shows w rows e in
      subst (λ dtos. All (IsOwnDto user_id w.db.targets) dtos × (length dtos ≤ size_of params))
        (same q) (dtos-IsOwn w.db.targets rows own, omega (arith, length-dtos rows, bound))
    where
      same : {as_ bs : List TargetDto} → ok as_ ≡ ok bs → as_ ≡ bs
      same h = cc
