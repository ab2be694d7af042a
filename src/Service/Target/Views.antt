-- ===== src/Service/Target/Views.antt =====
-- What the owner of a target sees of it, and what an owner's deletion leaves.
use mathlib.Core.List.{Memᴰ}
use mathlib.Core.Path.{subst}
use target_service.Prelude.{
  ℕ, ◌≡◌, ◌≢◌, refl, sym, ap, inl, inr, not, ◌&&◌, Option, none, some, [], arith, Bool-cases, ◌==◌,
  mem-filter_complete, ==_iff,
}
use target_service.Text.{Str}
use target_service.Model.{Target, verified, Authorization}
use target_service.Store.{ok, Db, World}
use target_service.Store.Rules.{bind-ok, Result-cases}
use target_service.Store.Writes.{delete-Writes}
use target_service.Store.Targets
use target_service.Store.Authorizations
use target_service.Service.Dto.{
  TargetDetailDto, target_to_detail_dto, AuthorizationDto, build_instructions, text_or_empty,
}
use target_service.Service.Target.{
  get_target, detail_reply, challenge_if_missing, value_of, delete_target, is_verified,
  is_challenge_method, is_set,
}

-- A token and instructions only while the target is not verified, and none of what an administrator noted.
pub record IsDiscreet (dto : TargetDetailDto) : Type 0 where
  pub when_verified : dto.target.status ≡ verified → dto.verify_token ≡ none
  pub no_instructions : dto.target.status ≡ verified → dto.verify_instructions ≡ []
  pub attested_by : (a : AuthorizationDto) → dto.authorization ≡ some a → a.attested_by ≡ none
  pub evidence : (a : AuthorizationDto) → dto.authorization ≡ some a → a.evidence ≡ none

target_to_detail_dto-IsDiscreet :
    (t : Target) (auth : Option Authorization) (token instructions : Option Str)
    → (t.status ≡ verified → token ≡ none)
    → (t.status ≡ verified → instructions ≡ none)
    → IsDiscreet (target_to_detail_dto t auth token instructions)
unfolding target_to_detail_dto
target_to_detail_dto-IsDiscreet t none token instructions h i = record {
  when_verified = h;
  no_instructions = λ v. ap text_or_empty (i v);
  attested_by = cc;
  evidence = cc;
}
target_to_detail_dto-IsDiscreet t (some a) token instructions h i = record {
  when_verified = h;
  no_instructions = λ v. ap text_or_empty (i v);
  attested_by = ground arith;
  evidence = ground arith;
}

detail_reply-IsDiscreet :
    (t : Target) (auth : Option Authorization) → IsDiscreet (detail_reply t auth)
unfolding detail_reply
detail_reply-IsDiscreet t none =
    target_to_detail_dto-IsDiscreet t none none none (λ _. refl) (λ _. refl)
detail_reply-IsDiscreet t (some a) =
    elim (Bool-cases
      (not (is_verified t.status) && (is_challenge_method a.method && is_set a.token))) [
        | inl y ↦ rw y (
            target_to_detail_dto-IsDiscreet t (some a) (some (a.token))
              (some (build_instructions a.method a.token t)) (λ v. absurd (ground arith))
              (λ v. absurd (ground arith)))
        | inr n ↦
            rw n (target_to_detail_dto-IsDiscreet t (some a) none none (λ _. refl) (λ _. refl))
      ]

-- What the owner reads of a target holds no token and no instructions, which hold the token,
-- once it is verified, and never who attested the
-- authorization or the evidence for it.
pub get_target-IsDiscreet :
    (user_id uid : ℕ) (w : World) (dto : TargetDetailDto)
    → (get_target user_id uid w).0 ≡ ok dto
    → IsDiscreet dto
unfolding get_target
get_target-IsDiscreet user_id uid w dto h =
    let (t, e, k) = bind-ok (Targets.get_by_uid user_id uid) _ w {b = dto} h in
    let w1 = (Targets.get_by_uid user_id uid w).1 in
    let (auth, f, l) =
      bind-ok
        (challenge_if_missing user_id t (value_of (Authorizations.get_by_target_id t.id w1).0)) _
        (Authorizations.get_by_target_id t.id w1).1 {b = dto} k in
    subst IsDiscreet (ground arith) (detail_reply-IsDiscreet t auth)

kept_by_remove :
    (user_id uid : ℕ) (db : Db) (t : Target)
    → t.user_id ≢ user_id
    → Memᴰ t db.targets
    → Memᴰ t (Targets.remove (λ t. t.uid == uid && t.user_id == user_id) db).targets
unfolding Targets.remove
kept_by_remove user_id uid db t n m =
    mem-filter_complete (λ t. not (t.uid == uid && t.user_id == user_id)) db.targets m
      (elim (Bool-cases (t.user_id == user_id)) [
        | inl y ↦ absurd (n ((==_iff t.user_id user_id).0 y))
        | inr f ↦ ground arith
      ])

-- Whatever uid a user asks to delete, the targets of the other users stay.
delete_target-other_users :
    (user_id uid : ℕ) (w : World) (t : Target)
    → t.user_id ≢ user_id
    → Memᴰ t w.db.targets
    → Memᴰ t (delete_target user_id uid w).1.db.targets
unfolding delete_target
delete_target-other_users user_id uid w t n m =
    elim (Result-cases (Targets.delete user_id uid w).0) [
      | inl (e, q) ↦ subst (λ d. Memᴰ t d.targets) (sym ((delete-Writes user_id uid w).failed q)) m
      | inr (x, q) ↦
          subst (λ d. Memᴰ t d.targets) (sym ((delete-Writes user_id uid w).written q))
            (kept_by_remove user_id uid w.db t n m)
    ]
