-- ===== src/Handler/Routes/Gate.antt =====
-- What an answer of the gates tells, and the cap at the door.
use target_service.Prelude.{
  ℕ, ◌≤◌, ◌≡◌, refl, ap, ◌∙◌, pos, inl, inr, true, false, ◌&&◌, Bool-cases, none, some, arith,
}
use target_service.Model.{CreateTargetRequest, ScopeCheckRequest}
use target_service.Store.{ok, World, is_failing}
use target_service.Scope.Technique.{is_empty}
use target_service.Scope.Response.{ScopeCheckResponse}
use target_service.Scope.Gate.{check_scope}
use target_service.Scope.Gate.Laws.{IsAuthorized, check_scope_sound}
use target_service.Service.Cap
use target_service.Service.Cap.{MaxTargets, TargetCapError, resolve_plan}
use target_service.Service.Cap.Laws.{owned, check-refuses_iff}
use target_service.Service.Cap.Reads.{check-Same}
use target_service.Handler.{is_admin_request, user_id_from_header}
use target_service.Handler.Server.{Server, CapConfig}
use target_service.Handler.Http.{Call, Body, given, Payload, scope, Answer, with_user, with_body}
use target_service.Handler.Http.Rules.{
  IsRefusal, bad_request, bad_param, with_body_rule, respond_rule,
}
use target_service.Handler.Targets.{create, create_checked, unless_capped, capped}
use target_service.Handler.Internal.{check_asked, scope_check}

-- The body that was answered is a request that the gate authorizes.
pub record IsGranted (server : Server) (body : Body ScopeCheckRequest) (w : World)
    (r : ScopeCheckResponse) : Type 0 where
  pub req : ScopeCheckRequest
  pub asked : body ≡ given req
  pub is_authorized : IsAuthorized server.env req w r

module _ (server : Server) (w : World) (r : ScopeCheckResponse) where
  abbrev Tells : Answer × World → Type 0
  Tells x = x.0.payload ≡ some (scope r)

  nothing_told : {b : Payload} → none ≡ some b → ⊥
  nothing_told e = ground arith

  told : {a : ScopeCheckResponse} → some (scope a) ≡ some (scope r) → a ≡ r
  told e = cc

  check_asked_sound :
      (req : ScopeCheckRequest)
      → r.authorized ≡ true
      → Tells (check_asked server req w)
      → IsAuthorized server.env req w r
  unfolding check_asked
  check_asked_sound req a = elim (Bool-cases (is_empty req.host && is_empty req.ip)) [
    | inl y ↦ rw y (λ h. absurd (nothing_told h))
    | inr n ↦ rw n (
        respond_rule (λ x. Tells x → IsAuthorized server.env req w r) (check_scope server.env req) _
          _ w (λ e q h. absurd (nothing_told h))
          (λ result q h. check_scope_sound server.env req w r (q ∙ ap ok (told h)) a))
  ]

  refusal_silent : {A : Type 0} (a : Answer) → IsRefusal a → Tells (a, w) → A
  refusal_silent _ (bad_request text) h = absurd (nothing_told h)
  refusal_silent _ (bad_param text) h = absurd (nothing_told h)

  -- When the scope check answers with an authorization, the body was a request that the gate
  -- authorizes: its target is stored and verified, the address and the host of the request passed the
  -- vetting and are what is pinned, and a stored authorization of the target that is verified and not
  -- expired grants the query by its own scope, or by the stored policy and assets of its program.
  pub scope_check-IsGranted :
      (body : Body ScopeCheckRequest)
      → (scope_check server body w).0.payload ≡ some (scope r)
      → r.authorized ≡ true
      → IsGranted server body w r
  unfolding scope_check
  scope_check-IsGranted body h a =
      with_body_rule w (λ x. Tells x → IsGranted server body w r) refusal_silent body
        (check_asked server)
        (λ req e t. record { req = req; asked = e; is_authorized = check_asked_sound req a t }) h

-- The cap is enabled, and the user has as many targets as the plan allows.
pub record IsAtLimit (server : Server) (call : Call) (user_id : ℕ) (w : World) : Type 0 where
  pub config : CapConfig
  pub enabled : server.cap ≡ some config
  pub limits : MaxTargets
  pub limited : config.limits ≡ some limits
  pub max : ℕ
  pub limit : limits (resolve_plan config.plans call.user_plan user_id) ≡ some (pos max)
  pub counts : is_failing w.faults ≡ none
  pub over :
      max
      ≤ owned server.env.ilike limits user_id (resolve_plan config.plans call.user_plan user_id) w

-- A user who is no administrator and has as many targets as the plan allows gets the answer 403 to
-- Create, and nothing is stored, when the cap is enabled and the count does not fail.
pub create-at_limit :
    (server : Server) (call : Call) (req : CreateTargetRequest) (user_id : ℕ) (w : World)
    → IsAtLimit server call user_id w
    → user_id_from_header call.user_id ≡ some user_id
    → is_admin_request call.is_admin call.user_roles ≡ false
    → ((create server call (given req) w).0.status_code ≡ 403)
      × ((create server call (given req) w).1.db ≡ w.db)
unfolding create with_user with_body create_checked capped unless_capped
create-at_limit server call req user_id w l h n =
    let plan = resolve_plan l.config.plans call.user_plan user_id in
    let same = check-Same server.env.ilike l.config.limits user_id plan w in
    let refuses = check-refuses_iff server.env.ilike l.limits user_id plan w in
    let over = refuses.0 (record {
      plan = plan;
      max_targets = pos l.max;
      count = owned server.env.ilike l.limits user_id plan w;
    }) in
    let refused =
      ap (λ o. (Cap.check server.env.ilike o user_id plan w).0) l.limited
      ∙ over.1 (record {
        max = l.max;
        limit = l.limit;
        counts = l.counts;
        over = l.over;
        reply = refl;
      }) in
    rw (h, l.enabled, n, refused, create, with_user) (refl, same.db)
