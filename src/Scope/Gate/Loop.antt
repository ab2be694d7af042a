-- ===== src/Scope/Gate/Loop.antt =====
-- The loop of CheckScope over the authorizations.
use mathlib.Core.List.{Memᴰ}
use mathlib.Core.Path.{subst}
use target_service.Prelude.{
  ◌≡◌, refl, ◌∙◌, inl, inr, true, false, none, some, List, [], ◌∷◌, arith, Option-cases,
}
use target_service.Text.{Str}
use target_service.Net.{Ip}
use target_service.Model.{Time, Authorization, ScopeCheckRequest, ProgramAsset}
use target_service.Store.{ok, Db, World, continue, M}
use target_service.Service.Env.{Env}
use target_service.Scope.Response.{ScopeCheckResponse, deny_result, allow_result}
use target_service.Scope.Program.{program_verdict}
use target_service.Scope.Gate.{
  Linked, resolve_program_auth, client_grant, pin, decide_one, evaluate,
}
use target_service.Scope.Gate.Grants.{
  client_grant_sound, Grants, by_scope, by_program, IsLink, no_link, no_policy, policy,
  resolve_program_auth_sound,
}

module _ (env : Env) (req : ScopeCheckRequest) (host ip : Str) (ips : List Ip) where
  -- One of the authorizations grants the query, and the response pins the vetted addresses.
  abbrev pub IsGranted : Db → Time → List Authorization → ScopeCheckResponse → Type 0
  IsGranted db now auths r =
      (a : Authorization) × Memᴰ a auths
      × (r.allowed_ips ≡ ips)
      × Grants env db now host ip req.phase a

  later-IsGranted :
      {db : Db} {now : Time} {a : Authorization} {auths : List Authorization}
      (r : ScopeCheckResponse)
      → IsGranted db now auths r
      → IsGranted db now (a ∷ auths) r
  later-IsGranted r (b, m, p, g) = (b, Memᴰ.tail m, p, g)

  no_policy_denies :
      (assets : List ProgramAsset) (now : Time) {r : ScopeCheckResponse}
      → ok (pin ips (program_verdict none assets host ip req.phase now)) ≡ ok r
      → r.authorized ≡ false
  unfolding pin program_verdict deny_result
  no_policy_denies assets now h = ground arith

  pin_authorized :
      (v : ScopeCheckResponse) {r : ScopeCheckResponse}
      → ok (pin ips v) ≡ ok r
      → r.authorized ≡ true
      → (v.authorized ≡ true) × (r.allowed_ips ≡ ips)
  unfolding pin
  pin_authorized v h t = ground arith

  decide_sound :
      (db : Db) (now : Time) (l : Linked) (a : Authorization) (auths : List Authorization)
      (rest : M ScopeCheckResponse) (w : World) {r : ScopeCheckResponse}
      → IsLink env.collate db a l
      → (decide_one env req host ip ips now l a rest w).0 ≡ ok r
      → r.authorized ≡ true
      → ((rest w).0 ≡ ok r → IsGranted db now auths r)
      → IsGranted db now (a ∷ auths) r
  unfolding decide_one
  decide_sound db now none a auths rest w {r} (no_link e) h t ih =
      elim (Option-cases (client_grant env a host ip)) [
        | inl none_given ↦ later-IsGranted r (ih (ground arith))
        | inr (reason, g) ↦ (
          a,
          Memᴰ.head refl,
          (pin_authorized (allow_result reason) {r = r} (ground arith) t).1,
          by_scope e (client_grant_sound env a host ip g),
        )
      ]
  decide_sound db now (some (none, assets)) a auths rest w no_policy h t ih =
      absurd (ground (arith, no_policy_denies assets now h))
  decide_sound db now (some (some p, assets)) a auths rest w (policy platform handle e f g) h t ih =
      let (v, q) = pin_authorized (program_verdict (some p) assets host ip req.phase now) h t in
      (
        a,
        Memᴰ.head refl,
        q,
        by_program platform handle p e f
            (subst (λ l. (program_verdict (some p) l host ip req.phase now).authorized ≡ true) g v),
      )

  evaluate-cons :
      (a : Authorization) (auths : List Authorization) (w : World) (l : Linked)
      → (resolve_program_auth env.collate a w).0 ≡ ok l
      → evaluate env req host ip ips (a ∷ auths) w
        ≡ decide_one env req host ip ips
            ((resolve_program_auth env.collate a w).1).now
            l
            a
            (evaluate env req host ip ips auths)
            (resolve_program_auth env.collate a w).1
  unfolding evaluate
  evaluate-cons a auths w l e = rw (e, continue)

  pub evaluate_sound :
      (db : Db) (now : Time) (auths : List Authorization) (w : World) {r : ScopeCheckResponse}
      → w.db ≡ db
      → w.now ≡ now
      → (evaluate env req host ip ips auths w).0 ≡ ok r
      → r.authorized ≡ true
      → IsGranted db now auths r
  unfolding evaluate
  evaluate_sound db now [] w p q h t = absurd (unfold deny_result in ground arith)
  evaluate_sound db now (a ∷ auths) w {r} p q h t =
      let (l, e, s, same) = resolve_program_auth_sound env.collate a w in
      let w' : World = (resolve_program_auth env.collate a w).1 in
      decide_sound db now l a auths (evaluate env req host ip ips auths) w' {r = r}
        (subst (λ d. IsLink env.collate d a l) p s)
        (rw (← (same.now ∙ q), ← evaluate-cons a auths w l e) h) t
        (λ k. evaluate_sound db now auths w' (same.db ∙ p) (same.now ∙ q) k t)
