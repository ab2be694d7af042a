-- ===== src/Handler/Routes/Quiet.antt =====
-- What a message and the data of an answer tell of an error, through the checks that handlers share.
use target_service.Prelude.{
  ℕ, ℤ, ◌≡◌, refl, sym, ◌∙◌, inl, inr, false, Bool-cases, Option, none, some, List, String, arith,
}
use target_service.Text.{Str, codes, str_eq}
use target_service.Model.{Method, ScopeCheckRequest}
use target_service.Store.{
  Error, err_target_exists, err_ip_targets_unsupported, policy_failure, World, M,
}
use target_service.Scope.Response.{ScopeCheckResponse}
use target_service.Handler.Http.{
  Payload, scope, Call, Body, Message, says, tells, plan_allows, Answer, prepare_response, Handler,
  respond, with_user, with_uid, with_body, with_user_param, with_filter,
}
use target_service.Handler.Http.Rules.{
  IsRefusal, bad_request, bad_param, with_user_rule, with_uid_rule, with_body_rule,
  with_user_param_rule, with_filter_rule, respond_rule,
}
use target_service.Handler.Targets.{creation_failed}
use target_service.Handler.Admin.{admin_error, sync_failed}
use target_service.Handler.Routes.{Route, user, within, UserRoute, InternalRoute}

-- The errors whose texts are meant for a client.
pub data IsPublic : Error → Type 0 where
  exists_ : IsPublic err_target_exists
  unsupported : IsPublic err_ip_targets_unsupported

-- A fixed text, the limit of a plan, or the text of such an error.
pub data IsDiscreet : Message → Type 0 where
  fixed : (text : String) → IsDiscreet (says text)
  plan : (name : Str) (max : ℤ) → IsDiscreet (plan_allows name max)
  sentinel : (e : Error) → IsPublic e → IsDiscreet (tells e)

-- The data is no reason of a scope check: the only data that has room for an error.
abbrev pub TellsNoReason : Answer → Type 0
TellsNoReason a = (r : ScopeCheckResponse) → a.payload ≡ some (scope r) → ⊥

pub record IsQuiet (a : Answer) : Type 0 where
  pub message : IsDiscreet a.message
  pub no_reason : TellsNoReason a

-- What the answer of a route tells: nothing of an error, but for the message of Verify and the data
-- of a scope check.
pub data IsTold (route : Route) (a : Answer) : Type 0 where
  quiet : IsQuiet a → IsTold route a
  of_verify :
      (body : Body Method) → route ≡ user (UserRoute.verify body) → TellsNoReason a → IsTold route a
  of_scope_check :
      (body : Body ScopeCheckRequest)
      → route ≡ within (InternalRoute.scope_check body)
      → IsDiscreet a.message
      → IsTold route a

pub silent : {a : Answer} → IsDiscreet a.message → a.payload ≡ none → IsQuiet a
silent {a} d e = record { message = d; no_reason = λ r q. absurd (not_some (sym e ∙ q)) }
  where
    not_some : {x : Payload} → none ≡ some x → ⊥
    not_some h = ground arith

abbrev pub Quiet : Handler → Type 0
Quiet handler = (w : World) → IsQuiet (handler w).0

pub shown :
    {status_code : ℕ} {text : String} {payload : Option Payload}
    → ((r : ScopeCheckResponse) → payload ≡ some (scope r) → ⊥)
    → IsQuiet (prepare_response status_code (says text) false payload)
shown n = record { message = fixed _; no_reason = n }

pub refusal-IsQuiet : (a : Answer) → IsRefusal a → IsQuiet a
refusal-IsQuiet _ (bad_request text) = silent (fixed text) refl
refusal-IsQuiet _ (bad_param text) = silent (fixed text) refl

pub with_user-Quiet :
    (call : Call) (handler : ℕ → Handler)
    → ((id : ℕ) → Quiet (handler id))
    → Quiet (with_user call handler)
with_user-Quiet call handler q w =
    with_user_rule w (λ x. IsQuiet x.0) refusal-IsQuiet call handler (λ id e. q id w)

pub with_uid-Quiet :
    (call : Call) (handler : ℕ → Handler)
    → ((uid : ℕ) → Quiet (handler uid))
    → Quiet (with_uid call handler)
with_uid-Quiet call handler q w =
    with_uid_rule w (λ x. IsQuiet x.0) refusal-IsQuiet call handler (λ uid e. q uid w)

pub with_body-Quiet :
    {A : Type 0} (body : Body A) (handler : A → Handler)
    → ((a : A) → Quiet (handler a))
    → Quiet (with_body body handler)
with_body-Quiet body handler q w =
    with_body_rule w (λ x. IsQuiet x.0) refusal-IsQuiet body handler (λ a e. q a w)

pub respond-Quiet :
    {A : Type 0} (m : M A) (failed : Error → Answer) (done : A → Answer)
    → ((e : Error) → IsQuiet (failed e))
    → ((a : A) → IsQuiet (done a))
    → Quiet (respond m failed done)
respond-Quiet m failed done f d w =
    respond_rule (λ x. IsQuiet x.0) m failed done w (λ e q. f e) (λ a q. d a)

pub creation_failed-IsQuiet : (e : Error) → IsQuiet (creation_failed e)
creation_failed-IsQuiet err_ip_targets_unsupported = silent (sentinel _ unsupported) refl
creation_failed-IsQuiet err_target_exists = silent (sentinel _ exists_) refl
creation_failed-IsQuiet _ = silent (fixed _) refl

pub admin_error-IsQuiet : (generic : String) (e : Error) → IsQuiet (admin_error generic e)
admin_error-IsQuiet generic err_ip_targets_unsupported = silent (sentinel _ unsupported) refl
admin_error-IsQuiet generic err_target_exists = silent (sentinel _ exists_) refl
admin_error-IsQuiet generic _ = silent (fixed _) refl

pub sync_failed-IsQuiet : (e : Error) → IsQuiet (sync_failed e)
sync_failed-IsQuiet (policy_failure text) =
    elim (Bool-cases (str_eq text (codes "policy source unavailable"))) [
      | inl y ↦ rw y (silent (fixed _) refl)
      | inr n ↦ rw n (silent (fixed _) refl)
    ]
sync_failed-IsQuiet _ = silent (fixed _) refl

pub with_user_param-Quiet :
    (s : Str) (handler : Option ℕ → Handler)
    → ((id : Option ℕ) → Quiet (handler id))
    → Quiet (with_user_param s handler)
with_user_param-Quiet s handler q w =
    with_user_param_rule w (λ x. IsQuiet x.0) refusal-IsQuiet s handler (λ id. q id w)

pub with_filter-Quiet :
    (valid : List Str) (problem : String) (s : Str) (handler : Option Str → Handler)
    → ((s : Option Str) → Quiet (handler s))
    → Quiet (with_filter valid problem s handler)
with_filter-Quiet valid problem s handler q w =
    with_filter_rule w (λ x. IsQuiet x.0) refusal-IsQuiet valid problem s handler (λ s. q s w)
