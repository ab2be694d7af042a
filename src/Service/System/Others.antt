-- ===== src/Service/System/Others.antt =====
-- The targets of the other users, and what the writes for a user leave of them.
use mathlib.Core.Path.{subst}
use mathlib.Core.Option.{some-injective}
use target_service.Prelude.{
  ℕ, ◌≡◌, refl, sym, ◌∙◌, inl, inr, false, not, ◌&&◌, Option, some, List, [], ◌∷◌, ◌++◌, arith,
  ◌==◌, any, filter, find, map, any_complete, find_sound, Bool-cases, Option-cases,
}
use target_service.Text.{to_lower, trim_space}
use target_service.Model.{Time, Evidence, Target, TargetStatus, CreateTargetRequest}
use target_service.Store.{World, M, query, is_failing}
use target_service.Store.Keeps.{Keeps}
use target_service.Store.Kept.{KeptByAuths}
use target_service.Store.Rules.{spent}
use target_service.Store.Writes.{written-Keeps, update_status-Writes, delete-Writes}
use target_service.Store.Keys.{IsKeyed, any-set_status, set_status_keeps}
use target_service.Store.Targets
use target_service.Store.Targets.{Etld, same_key}
use target_service.Store.Authorizations

-- The targets that are not this user's, in their order.
unfoldable pub others : ℕ → List Target → List Target
others user_id ts = filter (λ t. not (t.user_id == user_id)) ts

-- No target with this id is another user's.
abbrev pub IsOwn : ℕ → ℕ → List Target → Type 0
IsOwn id user_id ts = any (λ t. t.id == id && not (t.user_id == user_id)) ts ≡ false

create-targets :
    (a : Authorizations.NewAuthorization) (w : World)
    → (Authorizations.create a w).1.db.targets ≡ w.db.targets
unfolding Authorizations.create query
create-targets a w = ground arith

mark_verified-targets :
    (id : ℕ) (expires : Time) (evidence : Option Evidence) (w : World)
    → (Authorizations.mark_verified id expires evidence w).1.db.targets ≡ w.db.targets
unfolding Authorizations.mark_verified query
mark_verified-targets id expires evidence w = ground arith

expire_active-targets :
    (id : ℕ) (w : World)
    → (Authorizations.expire_active_authorizations id w).1.db.targets ≡ w.db.targets
unfolding Authorizations.expire_active_authorizations query
expire_active-targets id w = ground arith

module _ {ℓ} (P : List Target → Type 0) {A : Type ℓ} where
  pub same_targets-Keeps :
      (m : M A) → ((w : World) → (m w).1.db.targets ≡ w.db.targets) → Keeps (λ db. P db.targets) m
  same_targets-Keeps m e = record { kept = λ w i. subst P (sym (e w)) i }

-- Writes of authorizations keep what only the targets tell.
pub targets-KeptByAuths : (P : List Target → Type 0) → KeptByAuths (λ db. P db.targets)
targets-KeptByAuths P = record {
  create = λ a. same_targets-Keeps P (Authorizations.create a) (create-targets a);
  mark_verified = λ id expires evidence.
      same_targets-Keeps P (Authorizations.mark_verified id expires evidence)
        (mark_verified-targets id expires evidence);
  expire_active = λ id.
      same_targets-Keeps P (Authorizations.expire_active_authorizations id)
        (expire_active-targets id);
}

others-append :
    (user_id : ℕ) (ts : List Target) (t : Target)
    → t.user_id ≡ user_id
    → others user_id (ts ++ t ∷ []) ≡ others user_id ts
unfolding others filter
others-append user_id [] t e = ground arith
others-append user_id (u ∷ ts) t e = ground (arith, others-append user_id ts t)

others-filter :
    (user_id uid : ℕ) (ts : List Target)
    → others user_id (filter (λ t. not (t.uid == uid && t.user_id == user_id)) ts)
      ≡ others user_id ts
unfolding others filter
others-filter user_id uid [] = refl
others-filter user_id uid (t ∷ ts) = ground (arith, others-filter user_id uid ts)

others-set_status :
    (user_id id : ℕ) (s : TargetStatus) (w : World) (ts : List Target)
    → IsOwn id user_id ts
    → others user_id (map (Targets.set_status id s w) ts) ≡ others user_id ts
unfolding others filter any Targets.set_status
others-set_status user_id id s w [] h = refl
others-set_status user_id id s w (t ∷ ts) h = ground (arith, others-set_status user_id id s w ts)

IsOwn-set_status :
    (user_id id : ℕ) (s : TargetStatus) (w : World) (ts : List Target)
    → IsOwn id user_id ts
    → IsOwn id user_id (map (Targets.set_status id s w) ts)
IsOwn-set_status user_id id s w ts h =
    any-set_status _ id s w ts
      (λ t. let (e1, e2, e3, e4, e5) = set_status_keeps id s w t in rw (e2, e3) refl)
    ∙ h

any-id-false :
    (user_id id : ℕ) (ts : List Target) → any (λ u. u.id == id) ts ≡ false → IsOwn id user_id ts
unfolding any
any-id-false user_id id [] h = refl
any-id-false user_id id (t ∷ ts) h = ground (arith, any-id-false user_id id ts)

-- With unique keys, the id of a user's target is no other user's.
pub IsOwn-find :
    {b : ℕ} (user_id uid : ℕ) (ts : List Target) (t : Target)
    → IsKeyed b ts
    → find (λ t. t.uid == uid && t.user_id == user_id) ts ≡ some t
    → IsOwn t.id user_id ts
unfolding any find
IsOwn-find user_id uid [] t k h = cc
IsOwn-find user_id uid (u ∷ ts) t (IsKeyed.one_more _ _ a i c k) h =
    elim (Bool-cases (u.uid == uid && u.user_id == user_id)) [
      | inl y ↦
          let e : u ≡ t = some-injective u t (rw y at h) in
          let f : any (λ x. x.id == t.id) ts ≡ false =
            subst (λ v. any (λ x. x.id == v.id) ts ≡ false) e i in
          ground (arith, any-id-false user_id t.id ts f)
      | inr n ↦ elim (Bool-cases (t.id == u.id)) [
        | inl z ↦
            let (m, q) =
              find_sound (λ t. t.uid == uid && t.user_id == user_id) ts {x = t} (rw n at h) in
            let f = any_complete (λ x. x.id == u.id) t ts m z in absurd (ground arith)
        | inr z ↦ ground (arith, IsOwn-find user_id uid ts t k (rw n at h))
      ]
    ]

-- What a write for this user keeps: the other users' targets are these, and the id stays the user's.
abbrev pub IsLeft : ℕ → List Target → List Target → Type 0
IsLeft user_id before ts = others user_id ts ≡ before

abbrev pub IsLeftOwn : ℕ → ℕ → List Target → List Target → Type 0
IsLeftOwn user_id id before ts = IsLeft user_id before ts × IsOwn id user_id ts

pub update_status-IsLeftOwn :
    (user_id id : ℕ) (before : List Target) (s : TargetStatus)
    → Keeps (λ db. IsLeftOwn user_id id before db.targets) (Targets.update_status id s)
update_status-IsLeftOwn user_id id before s =
    written-Keeps (Targets.update_status id s) _ (update_status-Writes id s) (λ w (i, o). (
      others-set_status user_id id s (spent w) w.db.targets o ∙ i,
      IsOwn-set_status user_id id s (spent w) w.db.targets o,
    ))

pub delete-IsLeft :
    (user_id uid : ℕ) (before : List Target)
    → Keeps (λ db. IsLeft user_id before db.targets) (Targets.delete user_id uid)
delete-IsLeft user_id uid before =
    written-Keeps (Targets.delete user_id uid) _ (delete-Writes user_id uid)
      (λ w i. unfold Targets.remove in others-filter user_id uid w.db.targets ∙ i)

pub create-IsLeft :
    (etld : Etld) (user_id : ℕ) (req : CreateTargetRequest) (before : List Target)
    → Keeps (λ db. IsLeft user_id before db.targets) (Targets.create etld user_id req)
unfolding Targets.create Targets.insert query
create-IsLeft etld user_id req before = record {
  kept = λ w i. elim (Option-cases (is_failing w.faults)) [
    | inr (m, e) ↦ rw (e, query) i
    | inl e ↦
        elim (Bool-cases
          (any (same_key user_id req.kind (to_lower (trim_space req.value))) w.db.targets)) [
            | inl y ↦ rw (e, query, y) i
            | inr n ↦ rw (e, query, n) (others-append user_id w.db.targets _ refl ∙ i)
          ]
  ];
}
