-- ===== src/Store/Keys.antt =====
-- The UNIQUE constraint and the identifiers of the targets table, as an invariant of the database.
pub mod Actions
use mathlib.Core.List.{Memᴰ}
use target_service.Prelude.{
  ℕ, suc, ◌+◌, ◌<◌, ◌≤◌, ◌≡◌, refl, sym, ◌∙◌, ap, ◌⊎◌, inl, inr, Bool, true, false, not, ◌&&◌, ◌||◌,
  Option, none, some, List, [], ◌∷◌, ◌++◌, arith, ◌==◌, ltb, find, filter, map, any, All,
  Bool-cases, if◌then◌else◌,
}
use target_service.Text.{Str, str_eq}
use target_service.Text.Laws.{str_eq_iff}
use target_service.Model.{Target, TargetStatus, TargetKind, domain, url, ip, cidr, TargetSource}
use target_service.Store.{Error, Result, ok, err, Db, World, M, query, with_db}
use target_service.Store.Targets
use target_service.Store.Targets.{Etld, same_key, kind_eq, set_status}
use target_service.Store.Keeps

abbrev has_key_of : Target → Target → Bool
has_key_of t u = same_key t.user_id t.kind t.value u

-- The uids are below `bound`, and no two targets share a uid, an id, or user, kind and value.
pub data IsKeyed (bound : ℕ) : List Target → Type 0 where
  none_left : IsKeyed bound []
  one_more :
      {t : Target} {ts : List Target}
      → t.uid < bound
      → t.id < bound
      → any (λ u. u.uid == t.uid) ts ≡ false
      → any (λ u. u.id == t.id) ts ≡ false
      → any (has_key_of t) ts ≡ false
      → IsKeyed bound ts
      → IsKeyed bound (t ∷ ts)

abbrev pub HasKeys : Db → Type 0
HasKeys db = IsKeyed db.next_id db.targets

pub IsKeyed-suc : {b : ℕ} (ts : List Target) → IsKeyed b ts → IsKeyed (b + 1) ts
IsKeyed-suc [] none_left = none_left
IsKeyed-suc (t ∷ ts) (one_more u i a b c k) =
    one_more (ground arith) (ground arith) a b c (IsKeyed-suc ts k)

any-append-false :
    (p : Target → Bool) (ts : List Target) (t : Target)
    → any p ts ≡ false
    → p t ≡ false
    → any p (ts ++ t ∷ []) ≡ false
unfolding any
any-append-false p [] t h q = ground arith
any-append-false p (u ∷ ts) t h q = ground (arith, any-append-false p ts t)

any-filter-false :
    (p keep : Target → Bool) (ts : List Target) → any p ts ≡ false → any p (filter keep ts) ≡ false
unfolding any filter
any-filter-false p keep [] h = refl
any-filter-false p keep (u ∷ ts) h = elim (Bool-cases (keep u)) [
  | inl y ↦ rw y (ground (arith, any-filter-false p keep ts))
  | inr n ↦ rw n (any-filter-false p keep ts (ground arith))
]

IsKeyed-filter :
    {b : ℕ} (keep : Target → Bool) (ts : List Target) → IsKeyed b ts → IsKeyed b (filter keep ts)
unfolding filter
IsKeyed-filter keep [] none_left = none_left
IsKeyed-filter keep (t ∷ ts) (one_more u i a b c k) = elim (Bool-cases (keep t)) [
  | inl y ↦ rw y (
      one_more u i (any-filter-false _ keep ts a) (any-filter-false _ keep ts b)
        (any-filter-false _ keep ts c) (IsKeyed-filter keep ts k))
  | inr n ↦ rw n (IsKeyed-filter keep ts k)
]

pub set_status_keeps :
    (id : ℕ) (s : TargetStatus) (w : World) (t : Target)
    → ((set_status id s w t).uid ≡ t.uid)
      × ((set_status id s w t).id ≡ t.id)
      × ((set_status id s w t).user_id ≡ t.user_id)
      × ((set_status id s w t).kind ≡ t.kind)
      × ((set_status id s w t).value ≡ t.value)
unfolding set_status
set_status_keeps id s w t = (ground arith, ground arith, ground arith, ground arith, ground arith)

pub any-set_status :
    (p : Target → Bool) (id : ℕ) (s : TargetStatus) (w : World) (ts : List Target)
    → ((t : Target) → p (set_status id s w t) ≡ p t)
    → any p (map (set_status id s w) ts) ≡ any p ts
unfolding any
any-set_status p id s w [] h = refl
any-set_status p id s w (t ∷ ts) h = rw (h t, any-set_status p id s w ts h) refl

IsKeyed-set_status :
    {b : ℕ} (id : ℕ) (s : TargetStatus) (w : World) (ts : List Target)
    → IsKeyed b ts
    → IsKeyed b (map (set_status id s w) ts)
IsKeyed-set_status id s w [] none_left = none_left
IsKeyed-set_status id s w (t ∷ ts) (one_more u i a b c k) =
    let (e1, e2, e3, e4, e5) = set_status_keeps id s w t in
    one_more (rw e1 u) (rw e2 i)
      (any-set_status _ id s w ts
          (λ v. let (f1, f2, f3, f4, f5) = set_status_keeps id s w v in rw (e1, f1) refl)
        ∙ rw e1 a)
      (any-set_status _ id s w ts
          (λ v. let (f1, f2, f3, f4, f5) = set_status_keeps id s w v in rw (e2, f2) refl)
        ∙ rw e2 b)
      (any-set_status _ id s w ts (λ v.
          let (f1, f2, f3, f4, f5) = set_status_keeps id s w v in rw (e3, e4, e5, f3, f4, f5) refl)
        ∙ rw (e3, e4, e5) c)
      (IsKeyed-set_status id s w ts k)

kind_eq_comm : (a b : TargetKind) → kind_eq a b ≡ kind_eq b a
kind_eq_comm domain domain = refl
kind_eq_comm domain url = refl
kind_eq_comm domain ip = refl
kind_eq_comm domain cidr = refl
kind_eq_comm url domain = refl
kind_eq_comm url url = refl
kind_eq_comm url ip = refl
kind_eq_comm url cidr = refl
kind_eq_comm ip domain = refl
kind_eq_comm ip url = refl
kind_eq_comm ip ip = refl
kind_eq_comm ip cidr = refl
kind_eq_comm cidr domain = refl
kind_eq_comm cidr url = refl
kind_eq_comm cidr ip = refl
kind_eq_comm cidr cidr = refl

str_eq_comm : (a b : Str) → str_eq a b ≡ str_eq b a
unfolding str_eq
str_eq_comm [] [] = refl
str_eq_comm [] (y ∷ ys) = refl
str_eq_comm (x ∷ xs) [] = refl
str_eq_comm (x ∷ xs) (y ∷ ys) = ground (arith, str_eq_comm xs ys)

has_key_of_comm : (t u : Target) → has_key_of t u ≡ has_key_of u t
has_key_of_comm t u = rw (kind_eq_comm t.kind u.kind, str_eq_comm t.value u.value) (ground arith)

pub fresh :
    {b : ℕ} (ts : List Target)
    → IsKeyed b ts
    → (any (λ u. u.uid == b) ts ≡ false) × (any (λ u. u.id == b) ts ≡ false)
unfolding any
fresh [] none_left = (refl, refl)
fresh (t ∷ ts) (one_more u i a b c k) = let (f, g) = fresh ts k in (ground arith, ground arith)

IsKeyed-append :
    {b : ℕ} (t : Target) (ts : List Target)
    → t.uid ≡ b
    → t.id ≡ b
    → any (has_key_of t) ts ≡ false
    → IsKeyed b ts
    → IsKeyed (b + 1) (ts ++ t ∷ [])
unfolding any
IsKeyed-append t [] u i h none_left =
    one_more (ground arith) (ground arith) refl refl refl none_left
IsKeyed-append t (x ∷ xs) u i h (one_more xu xi a b c k) =
    let (n, n') : (has_key_of t x ≡ false) × (any (has_key_of t) xs ≡ false) = or_false h in
    one_more (ground arith) (ground arith) (any-append-false _ xs t a (ground arith))
      (any-append-false _ xs t b (ground arith))
      (any-append-false _ xs t c (has_key_of_comm x t ∙ n)) (IsKeyed-append t xs u i n' k)
  where
    or_false : {a b : Bool} → (a || b) ≡ false → (a ≡ false) × (b ≡ false)
    or_false {a = a} {b = b} h = (ground arith, ground arith)
