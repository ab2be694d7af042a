-- ===== src/Handler/Http/Rules.antt =====
-- What holds of every answer of a check, and of the handler behind it, holds of both together.
use target_service.Prelude.{
  ℕ, ◌≡◌, refl, inl, inr, false, Bool-cases, Option, none, some, List, [], ◌∷◌, String,
}
use target_service.Text.{Str, one_of, atoi}
use target_service.Store.{Error, Result, ok, err, World, M}
use target_service.Handler.{user_id_from_header, positive}
use target_service.Handler.Http.{
  Call, Body, no_body, unreadable, invalid, given, says, Answer, Handler, prepare_response, refuse,
  stop, invalid_param, with_user_param, with_filter, respond, header_problem, with_user, with_uid,
  with_body,
}

-- What the checks answer.
pub data IsRefusal : Answer → Type 0 where
  bad_request : (text : String) → IsRefusal (refuse 400 (says text))
  bad_param : (text : String) → IsRefusal (prepare_response 400 (says text) false none)

header_problem-IsRefusal : (s : Str) → IsRefusal (refuse 400 (header_problem s))
header_problem-IsRefusal [] = bad_request _
header_problem-IsRefusal (c ∷ s) = bad_request _

module _ {ℓ} (w : World) (P : Answer × World → Type ℓ)
    (refused : (a : Answer) → IsRefusal a → P (a, w)) where
  pub with_user_rule :
      (call : Call) (handler : ℕ → Handler)
      → ((id : ℕ) → user_id_from_header call.user_id ≡ some id → P (handler id w))
      → P (with_user call handler w)
  unfolding with_user
  with_user_rule call handler going = by_id (user_id_from_header call.user_id) refl
    where
      by_id :
          (r : Option ℕ)
          → user_id_from_header call.user_id ≡ r
          → P (
              elim r as (λ _. Handler) [
                | none ↦ stop 400 (header_problem call.user_id)
                | some id ↦ handler id
              ]
                w)
      by_id none e = refused _ (header_problem-IsRefusal call.user_id)
      by_id (some id) e = going id e

  pub with_uid_rule :
      (call : Call) (handler : ℕ → Handler)
      → ((uid : ℕ) → call.target_uid ≡ some uid → P (handler uid w))
      → P (with_uid call handler w)
  unfolding with_uid
  with_uid_rule call handler going = by_uid call.target_uid refl
    where
      by_uid :
          (r : Option ℕ)
          → call.target_uid ≡ r
          → P (
              elim r as (λ _. Handler) [
                | none ↦ stop 400 (says "target_uid is required")
                | some uid ↦ handler uid
              ]
                w)
      by_uid none e = refused _ (bad_request _)
      by_uid (some uid) e = going uid e

  pub with_body_rule :
      {A : Type 0} (body : Body A) (handler : A → Handler)
      → ((a : A) → body ≡ given a → P (handler a w))
      → P (with_body body handler w)
  unfolding with_body
  with_body_rule no_body handler going = refused _ (bad_request _)
  with_body_rule unreadable handler going = refused _ (bad_request _)
  with_body_rule invalid handler going = refused _ (bad_request _)
  with_body_rule (given a) handler going = going a refl

  pub with_user_param_rule :
      (s : Str) (handler : Option ℕ → Handler)
      → ((id : Option ℕ) → P (handler id w))
      → P (with_user_param s handler w)
  unfolding with_user_param
  with_user_param_rule [] handler going = going none
  with_user_param_rule (c ∷ s) handler going = by_id (positive (atoi (c ∷ s)))
    where
      by_id :
          (r : Option ℕ)
          → P (
              elim r as (λ _. Handler) [
                | none ↦ invalid_param "user_id must be a positive integer"
                | some id ↦ handler (some id)
              ]
                w)
      by_id none = refused _ (bad_param _)
      by_id (some id) = going (some id)

  pub with_filter_rule :
      (valid : List Str) (problem : String) (s : Str) (handler : Option Str → Handler)
      → ((s : Option Str) → P (handler s w))
      → P (with_filter valid problem s handler w)
  unfolding with_filter
  with_filter_rule valid problem [] handler going = going none
  with_filter_rule valid problem (c ∷ s) handler going = elim (Bool-cases (one_of valid (c ∷ s))) [
    | inl y ↦ rw y (going (some (c ∷ s)))
    | inr n ↦ rw n (refused _ (bad_param problem))
  ]

pub respond_rule {ℓ} :
    {A : Type 0} (P : Answer × World → Type ℓ) (m : M A) (failed : Error → Answer)
    (done : A → Answer) (w : World)
    → ((e : Error) → (m w).0 ≡ err e → P (failed e, (m w).1))
    → ((a : A) → (m w).0 ≡ ok a → P (done a, (m w).1))
    → P (respond m failed done w)
unfolding respond
respond_rule {A = A} P m failed done w f d = by_result (m w).0 refl
  where
    by_result :
        (r : Result A)
        → (m w).0 ≡ r
        → P (elim r as (λ _. Answer) [ ok a ↦ done a | err e ↦ failed e ], (m w).1)
    by_result (ok a) e = d a e
    by_result (err x) e = f x e
