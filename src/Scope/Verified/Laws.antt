-- ===== src/Scope/Verified/Laws.antt =====
-- When a scan may be launched on a target, and what the answer discloses.
use mathlib.Core.List.{Memᴰ}
use mathlib.Core.Logic.{◌≢◌}
use mathlib.Core.Path.{subst}
use target_service.Prelude.{
  ℕ, ◌<◌, ◌≡◌, refl, sym, ◌⊎◌, inl, inr, true, false, ◌&&◌, Option, none, some, List, [], ◌∷◌,
  arith, Bool-cases, Option-cases, find, ◌==◌, mem-filter_sound,
}
use target_service.Model.{Time, Target, verified, Authorization}
use target_service.Store.{Result, ok, err, Db, World, continue}
use target_service.Store.Targets
use target_service.Store.Authorizations
use target_service.Store.Authorizations.{active_of, is_active_at, of_target, is_some, not_expired}
use target_service.Store.Reads.{
  Same, get_by_uid_internal-Same, get_by_uid_internal-ok, get_active_authorizations-Same,
  get_active_authorizations-ok,
}
use target_service.Scope.Gate.{status_is_verified}
use target_service.Scope.Verified.{
  VerifiedReason, VerifiedCheckResponse, refuse, has_active_authorization, describe, is_other_user,
  answer, check_found, check_verified, reason_ok,
}

-- An authorization that was verified and has not expired.
abbrev pub IsCurrent : Time → Authorization → Type 0
IsCurrent now a =
    (a.verified_at ≢ none)
    × ((a.expires_at ≡ none) ⊎ ((e : Time) × (a.expires_at ≡ some e) × (now < e)))

is_current : (now : Time) (a : Authorization) → is_active_at now a ≡ true → IsCurrent now a
unfolding is_active_at
is_current now a h = elim (Option-cases a.expires_at) [
  | inl n ↦ (ground arith, inl n)
  | inr (e, q) ↦ (ground arith, inr (e, q, ground arith))
]

is_active : (now : Time) (a : Authorization) → IsCurrent now a → is_active_at now a ≡ true
unfolding is_active_at
is_active now a (v, inl n) = ground arith
is_active now a (v, inr (e, q, lt)) = ground arith

-- hasActiveAuthorization is the database's own filter once more.
has_active_sound :
    (auths : List Authorization) (now : Time)
    → has_active_authorization auths now ≡ true
    → (a : Authorization) × Memᴰ a auths × (is_active_at now a ≡ true)
unfolding has_active_authorization is_active_at
has_active_sound [] now h = cc
has_active_sound (a ∷ auths) now h =
    elim (Bool-cases (is_some a.verified_at && not_expired now a.expires_at)) [
      | inl e ↦ (a, Memᴰ.head refl, e)
      | inr n ↦ let (b, m, q) = has_active_sound auths now (ground arith) in (b, Memᴰ.tail m, q)
    ]

has_active_complete :
    {a : Authorization} (auths : List Authorization) (now : Time)
    → Memᴰ a auths
    → is_active_at now a ≡ true
    → has_active_authorization auths now ≡ true
unfolding has_active_authorization is_active_at
has_active_complete [] now m h = elim m [ ]
has_active_complete (b ∷ auths) now (Memᴰ.head e) h = ground arith
has_active_complete (b ∷ auths) now (Memᴰ.tail m) h =
    ground (arith, has_active_complete auths now m h)

-- A scan may be launched on the target: it is verified, the user who asks, if one is named, owns
-- it, and one of its authorizations is current.
pub record IsLaunchable (w : World) (target_uid : ℕ) (user_id : Option ℕ) (t : Target)
    : Type 0 where
  pub found : find (λ t. t.uid == target_uid) w.db.targets ≡ some t
  pub owned : is_other_user user_id t ≡ false
  pub is_verified : t.status ≡ verified
  pub auth : Authorization
  pub listed : Memᴰ auth w.db.auths
  pub of_target : auth.target_id ≡ t.id
  pub current : IsCurrent w.now auth

-- A refusal says nothing about the target; an answer of yes describes it.
abbrev pub IsAnswer : World → ℕ → Option ℕ → VerifiedCheckResponse → Type 0
IsAnswer w uid user r =
    ((reason : VerifiedReason) × (reason ≢ reason_ok) × (r ≡ refuse reason))
    ⊎ ((t : Target) × IsLaunchable w uid user t × (r ≡ describe t))

abbrev ActiveOf : World → Target → Type 0
ActiveOf w t = (a : Authorization) × Memᴰ a w.db.auths × (a.target_id ≡ t.id) × IsCurrent w.now a

answer_cases :
    (t : Target) (found : Result (List Authorization)) (w : World) {r : VerifiedCheckResponse}
    → (continue found (answer t) w).0 ≡ ok r
    → (auths : List Authorization) × (found ≡ ok auths)
      × ((r ≡ refuse VerifiedReason.reason_no_active)
          ⊎ ((has_active_authorization auths w.now ≡ true) × (r ≡ describe t)))
unfolding answer
answer_cases t (err e) w h = cc
answer_cases t (ok auths) w h = (
  auths,
  refl,
  elim (Bool-cases (has_active_authorization auths w.now)) [
    | inl e ↦ inr (e, ground arith)
    | inr n ↦ inl (ground arith)
  ],
)

active_in :
    (t : Target) (w : World) (now : Time) (auths : List Authorization)
    → now ≡ w.now
    → auths ≡ active_of t.id w.now w.db.auths
    → has_active_authorization auths now ≡ true
    → ActiveOf w t
unfolding active_of
active_in t w now auths p q h =
    let (a, m, e) = has_active_sound auths now h in
    let (m', both) =
      mem-filter_sound (λ a. of_target t.id a && is_active_at w.now a) w.db.auths
        (subst (Memᴰ a) q m) in
    (a, m', ground arith, is_current w.now a (ground arith))

answer_sound :
    (t : Target) (w : World) {r : VerifiedCheckResponse}
    → (continue
        (Authorizations.get_active_authorizations t.id w).0
        (answer t)
        (Authorizations.get_active_authorizations t.id w).1).0
      ≡ ok r
    → (r ≡ refuse VerifiedReason.reason_no_active) ⊎ (ActiveOf w t × (r ≡ describe t))
answer_sound t w {r} h =
    let (auths, e, c) =
      answer_cases t (Authorizations.get_active_authorizations t.id w).0
        (Authorizations.get_active_authorizations t.id w).1 {r = r} h in
    elim c [
      | inl n ↦ inl n
      | inr (y, d) ↦ inr (
        active_in t w _ auths (get_active_authorizations-Same t.id w).now
            (get_active_authorizations-ok t.id w e) y,
        d,
      )
    ]

abbrev Found : World → ℕ → Result Target → Type 0
Found w uid found = (t : Target) → found ≡ ok t → find (λ t. t.uid == uid) w.db.targets ≡ some t

launch_or_refuse :
    (w : World) (uid : ℕ) (user : Option ℕ) (t : Target) (r : VerifiedCheckResponse)
    → find (λ t. t.uid == uid) w.db.targets ≡ some t
    → is_other_user user t ≡ false
    → t.status ≡ verified
    → (r ≡ refuse VerifiedReason.reason_no_active) ⊎ (ActiveOf w t × (r ≡ describe t))
    → IsAnswer w uid user r
launch_or_refuse w uid user t r f o v (inl n) = inl (_, (λ e. cc), n)
launch_or_refuse w uid user t r f o v (inr ((a, m, i, c), d)) = inr (
  t,
  record {
    found = f;
    owned = o;
    is_verified = v;
    auth = a;
    listed = m;
    of_target = i;
    current = c;
  },
  d,
)

check_found_sound :
    (found : Result Target) (w : World) (uid : ℕ) (user : Option ℕ) (r : VerifiedCheckResponse)
    → Found w uid found
    → (check_found user found w).0 ≡ ok r
    → IsAnswer w uid user r
unfolding check_found
check_found_sound (err e) w uid user r f h =
    inl (VerifiedReason.reason_not_found, (λ e. cc), ground arith)
check_found_sound (ok t) w uid user r f h = elim (Bool-cases (is_other_user user t)) [
  | inl o ↦ inl (VerifiedReason.reason_not_owner, (λ e. cc), ground arith)
  | inr o ↦ elim (Bool-cases (status_is_verified t.status)) [
    | inr n ↦ inl (VerifiedReason.reason_not_verified, (λ e. cc), ground arith)
    | inl v ↦
        launch_or_refuse w uid user t r (f t refl) o (ground arith)
          (answer_sound t w {r = r} (rw (o, v, check_found) at h))
  ]
]

IsAnswer-Same :
    (w w' : World) (uid : ℕ) (user : Option ℕ) (r : VerifiedCheckResponse)
    → Same w w'
    → IsAnswer w' uid user r
    → IsAnswer w uid user r
IsAnswer-Same w w' uid user r s (inl n) = inl n
IsAnswer-Same w w' uid user r s (inr (t, l, d)) = inr (
  t,
  record {
    found = subst (λ (b : Db). find (λ t. t.uid == uid) b.targets ≡ some t) s.db l.found;
    owned = l.owned;
    is_verified = l.is_verified;
    auth = l.auth;
    listed = subst (λ (b : Db). Memᴰ (l.auth) b.auths) s.db l.listed;
    of_target = l.of_target;
    current = subst (λ n. IsCurrent n l.auth) s.now l.current;
  },
  d,
)

-- The launch gate either refuses, and then says nothing of the target, or the target is verified,
-- belongs to the user who asks, if one is named, and has a current authorization, and then its
-- answer describes the target.
pub check_verified_sound :
    (uid : ℕ) (user : Option ℕ) (w : World) (r : VerifiedCheckResponse)
    → (check_verified uid user w).0 ≡ ok r
    → IsAnswer w uid user r
unfolding check_verified
check_verified_sound uid user w r h =
    let w' : World = (Targets.get_by_uid_internal uid w).1 in
    let same = get_by_uid_internal-Same uid w in
    IsAnswer-Same w w' uid user r same (
      check_found_sound (Targets.get_by_uid_internal uid w).0 w' uid user r
        (λ t e.
          subst (λ (b : Db). find (λ t. t.uid == uid) b.targets ≡ some t) (sym same.db)
            (get_by_uid_internal-ok uid w e))
        h)
