-- ===== src/Service/Cap/Laws.antt =====
-- When Check of internal/service/target_cap.go refuses a user.
use target_service.Prelude.{
  sym, true, false, ◌≢◌, ◌∙◌, ℕ, ◌≤◌, ◌≡◌, ◌↔◌, refl, pos, negsuc, Option, none, some, length,
  filter, ◌==◌, leb, arith, Option-cases, Bool-cases, inl, inr, ap, List, [], ◌∷◌, ℤ,
}
use target_service.Model.{Target}
use target_service.Text.{Str}
use target_service.Store.{db_failure, err, Result, ok, World, query, is_failing}
use target_service.Store.Search.{Ilike, count, build_where}
use target_service.Store.Rules.{spent}
use target_service.Service.Cap.{of_user, MaxTargets, TargetCapError, check, check_limit, compare}

filter-of_user :
    (ilike : Ilike) (user_id : ℕ) (ts : List Target)
    → filter (build_where ilike (of_user user_id)) ts ≡ filter (λ t. t.user_id == user_id) ts
unfolding filter build_where
filter-of_user ilike user_id [] = refl
filter-of_user ilike user_id (t ∷ ts) = elim (Bool-cases (t.user_id == user_id)) [
  | inl y ↦ rw y (ap (λ us. t ∷ us) (filter-of_user ilike user_id ts))
  | inr n ↦ rw n (filter-of_user ilike user_id ts)
]

module _ (ilike : Ilike) (limits : MaxTargets) (user_id : ℕ) (plan : Str) (w : World) where
  -- The number of the user's targets.
  abbrev pub owned : ℕ
  owned = length (filter (λ t. t.user_id == user_id) w.db.targets)

  -- The plan has a limit, the count runs, and the user has as many targets or more.
  pub record IsOver (e : TargetCapError) : Type 0 where
    pub max : ℕ
    pub limit : limits plan ≡ some (pos max)
    pub counts : is_failing w.faults ≡ none
    pub over : max ≤ owned
    pub reply : e ≡ record { plan = plan; max_targets = pos max; count = owned }

  not_refused : {e : TargetCapError} → ok none ≢ ok (some e)
  not_refused h = ground arith

  ok-injective : {e e' : TargetCapError} → ok (some e) ≡ ok (some e') → e ≡ e'
  ok-injective h = cc

  abbrev refusal : ℕ → TargetCapError
  refusal max = record { plan = plan; max_targets = pos max; count = owned }

  abbrev counting : (max : ℕ) → Result (Option TargetCapError)
  counting max = (check_limit ilike user_id plan (some (pos max)) w).0

  count-failed :
      (m : Str)
      → is_failing w.faults ≡ some m
      → count ilike (of_user user_id) w ≡ (err (db_failure m), spent w)
  unfolding count
  count-failed m f = rw (f, query) refl

  count-run : is_failing w.faults ≡ none → count ilike (of_user user_id) w ≡ (ok owned, spent w)
  unfolding count
  count-run f =
      rw (f, query)
        (ap (λ ts. (ok (length ts), spent w)) (filter-of_user ilike user_id w.db.targets))

  compared :
      (max : ℕ) (r : Result ℕ × World)
      → count ilike (of_user user_id) w ≡ r
      → counting max ≡ (compare plan max r.0 r.1).0
  unfolding check_limit
  compared max r e = ap (λ r. (compare plan max r.0 r.1).0) e

  counting-failed : (max : ℕ) (m : Str) → is_failing w.faults ≡ some m → counting max ≡ ok none
  unfolding compare
  counting-failed max m f = compared max _ (count-failed m f)

  counting-over :
      (max : ℕ)
      → is_failing w.faults ≡ none
      → leb max owned ≡ true
      → counting max ≡ ok (some (refusal max))
  unfolding compare
  counting-over max f y = compared max _ (count-run f) ∙ rw y refl

  counting-under :
      (max : ℕ) → is_failing w.faults ≡ none → leb max owned ≡ false → counting max ≡ ok none
  unfolding compare
  counting-under max f y = compared max _ (count-run f) ∙ rw y refl

  check-refusal :
      (e : TargetCapError) → ((check ilike (some limits) user_id plan w).0 ≡ ok (some e)) ↔ IsOver e
  unfolding check check_limit
  check-refusal e = (sound (limits plan) refl, complete)
    where
      sound :
          (l : Option ℤ)
          → limits plan ≡ l
          → (check_limit ilike user_id plan l w).0 ≡ ok (some e)
          → IsOver e
      sound none q h = absurd (ground arith)
      sound (some (negsuc n)) q h = absurd (ground arith)
      sound (some (pos max)) q h = elim (Option-cases (is_failing w.faults)) [
        | inr (m, f) ↦ absurd (not_refused (sym (counting-failed max m f) ∙ h))
        | inl f ↦ elim (Bool-cases (leb max owned)) [
          | inl y ↦ record {
            max = max;
            limit = q;
            counts = f;
            over = ground arith;
            reply = ok-injective (sym h ∙ counting-over max f y);
          }
          | inr n ↦ absurd (not_refused (sym (counting-under max f n) ∙ h))
        ]
      ]

      complete : IsOver e → (check ilike (some limits) user_id plan w).0 ≡ ok (some e)
      complete o =
          rw o.limit
            (counting-over o.max o.counts (ground arith) ∙ ap (λ x. ok (some x)) (sym o.reply))

  check-returns :
      (o : Option TargetCapError) × ((check ilike (some limits) user_id plan w).0 ≡ ok o)
  unfolding check check_limit
  check-returns = by_limit (limits plan)
    where
      by_limit :
          (l : Option ℤ)
          → (o : Option TargetCapError) × ((check_limit ilike user_id plan l w).0 ≡ ok o)
      by_limit none = (none, refl)
      by_limit (some (negsuc n)) = (none, refl)
      by_limit (some (pos max)) = elim (Option-cases (is_failing w.faults)) [
        | inr (m, f) ↦ (none, counting-failed max m f)
        | inl f ↦ elim (Bool-cases (leb max owned)) [
          | inl y ↦ (some (refusal max), counting-over max f y)
          | inr n ↦ (none, counting-under max f n)
        ]
      ]

  passes_unless :
      (o : Option TargetCapError)
      → (check ilike (some limits) user_id plan w).0 ≡ ok o
      → ((e : TargetCapError) → IsOver e → ⊥)
      → (check ilike (some limits) user_id plan w).0 ≡ ok none
  passes_unless none h n = h
  passes_unless (some e) h n = absurd (n e ((check-refusal e).0 h))

  -- Check refuses with an error exactly when the plan of the user has a limit, the count does not
  -- fail and the user has that many targets or more; the error tells the plan, the limit and the
  -- number of the user's targets. Otherwise, also when the count fails, it lets the target pass.
  pub check-refuses_iff :
      ((e : TargetCapError)
        → ((check ilike (some limits) user_id plan w).0 ≡ ok (some e)) ↔ IsOver e)
      × (((e : TargetCapError) → IsOver e → ⊥)
          → (check ilike (some limits) user_id plan w).0 ≡ ok none)
  check-refuses_iff = (check-refusal, let (o, h) = check-returns in passes_unless o h)
