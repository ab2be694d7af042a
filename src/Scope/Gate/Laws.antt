-- ===== src/Scope/Gate/Laws.antt =====
-- What stands behind an authorized answer of CheckScope.
use mathlib.Core.List.{Memᴰ}
use mathlib.Core.Path.{subst, subst₂, subst₃}
use target_service.Prelude.{
  ℕ, ◌≡◌, refl, sym, inl, inr, true, false, Option, none, some, List, [], ◌∷◌, arith, Bool-cases,
  find, ◌==◌,
}
use target_service.Text.{Str, to_lower, trim_space}
use target_service.Net.{Ip}
use target_service.Model.{Time, Target, verified, Authorization, ScopeCheckRequest}
use target_service.Store.{Result, ok, err, Db, World, continue, M}
use target_service.Store.Targets
use target_service.Store.Authorizations
use target_service.Store.Authorizations.{active_of}
use target_service.Store.Reads.{
  get_by_uid_internal-Same, get_by_uid_internal-ok, get_active_authorizations-Same,
  get_active_authorizations-ok,
}
use target_service.Service.Env.{Env}
use target_service.Scope.Response.{ScopeCheckResponse, deny_result}
use target_service.Scope.AuthScan.{
  auth_scan_verdict, auth_scan_verdict-eq-none_iff, auth_scan_verdict_denies, PassesAuthScan,
}
use target_service.Scope.Gate.{
  Vetting, refused, pinned, vet, vetted, with_authorizations, check_target, auth_scan_first,
  check_found, check_scope, status_is_verified,
}
use target_service.Scope.Gate.Pins.{IsPinned, vet_sound}
use target_service.Scope.Gate.Grants.{Grants}
use target_service.Scope.Gate.Loop.{IsGranted, evaluate_sound}

abbrev pub query_host : ScopeCheckRequest → Str
query_host req = to_lower (trim_space req.host)

abbrev pub query_ip : ScopeCheckRequest → Str
query_ip req = trim_space req.ip

-- What stands behind an authorized response.
pub record IsAuthorized (env : Env) (req : ScopeCheckRequest) (w : World) (r : ScopeCheckResponse)
    : Type 0 where
  pub target : Target
  pub found : find (λ t. t.uid == req.target_uid) w.db.targets ≡ some target
  pub is_verified : target.status ≡ verified
  pub passes : PassesAuthScan req.phase true req.auth_scan_authorized
  pub pins : IsPinned env req (query_host req) (query_ip req) r.allowed_ips
  pub auth : Authorization
  pub is_current : Memᴰ auth (active_of target.id w.now w.db.auths)
  pub grants : Grants env w.db w.now (query_host req) (query_ip req) req.phase auth

module _ (env : Env) (req : ScopeCheckRequest) where
  abbrev PinnedBy : Db → Time → List Authorization → ScopeCheckResponse → Type 0
  PinnedBy db now auths r =
      (ips : List Ip) × (vet env req (query_host req) (query_ip req) ≡ pinned ips)
      × IsGranted env req (query_host req) (query_ip req) ips db now auths r

  vetted_sound :
      (v : Vetting) (auths : List Authorization) (w : World) {r : ScopeCheckResponse}
      → vet env req (query_host req) (query_ip req) ≡ v
      → (vetted env req auths (query_host req) (query_ip req) v w).0 ≡ ok r
      → r.authorized ≡ true
      → PinnedBy w.db w.now auths r
  unfolding vetted
  vetted_sound (refused reason) auths w e h t = absurd (unfold deny_result in ground arith)
  vetted_sound (pinned ips) auths w {r} e h t = (
    ips,
    e,
    evaluate_sound env req (query_host req) (query_ip req) ips w.db w.now auths w {r = r} refl refl
        h t,
  )

  with_authorizations_sound :
      (auths : List Authorization) (w : World) {r : ScopeCheckResponse}
      → (with_authorizations env req auths w).0 ≡ ok r
      → r.authorized ≡ true
      → PinnedBy w.db w.now auths r
  unfolding with_authorizations
  with_authorizations_sound [] w h t = absurd (unfold deny_result in ground arith)
  with_authorizations_sound (a ∷ auths) w {r} h t =
      vetted_sound (vet env req (query_host req) (query_ip req)) (a ∷ auths) w {r = r} refl h t

  continue_sound :
      (found : Result (List Authorization)) (w : World) {r : ScopeCheckResponse}
      → (continue found (with_authorizations env req) w).0 ≡ ok r
      → r.authorized ≡ true
      → (auths : List Authorization) × (found ≡ ok auths) × PinnedBy w.db w.now auths r
  continue_sound (ok auths) w {r} h t = (auths, refl, with_authorizations_sound auths w {r = r} h t)
  continue_sound (err e) w h t = cc

  active_pinned :
      (id : ℕ) (w : World) {r : ScopeCheckResponse}
      → (continue
          (Authorizations.get_active_authorizations id w).0
          (with_authorizations env req)
          (Authorizations.get_active_authorizations id w).1).0
        ≡ ok r
      → r.authorized ≡ true
      → PinnedBy w.db w.now (active_of id w.now w.db.auths) r
  active_pinned id w {r} h t =
      let same = get_active_authorizations-Same id w in
      let (auths, e, p) =
        continue_sound (Authorizations.get_active_authorizations id w).0
          (Authorizations.get_active_authorizations id w).1 {r = r} h t in
      subst₃ (λ d n l. PinnedBy d n l r) same.db same.now (get_active_authorizations-ok id w e) p

  check_target_sound :
      (t : Target) (w : World) {r : ScopeCheckResponse}
      → (check_target env req t w).0 ≡ ok r
      → r.authorized ≡ true
      → (t.status ≡ verified) × PinnedBy w.db w.now (active_of t.id w.now w.db.auths) r
  unfolding check_target
  check_target_sound t w {r} h a = elim (Bool-cases (status_is_verified t.status)) [
    | inr n ↦ absurd (unfold deny_result in ground arith)
    | inl v ↦ (ground arith, active_pinned t.id w {r = r} (rw (v, check_target) at h) a)
  ]

  auth_scan_first_sound :
      (v : Option ScopeCheckResponse) (go_on : M ScopeCheckResponse) (w : World)
      {r : ScopeCheckResponse}
      → ((d : ScopeCheckResponse) → v ≡ some d → d.authorized ≡ false)
      → (auth_scan_first v go_on w).0 ≡ ok r
      → r.authorized ≡ true
      → (v ≡ none) × ((go_on w).0 ≡ ok r)
  unfolding auth_scan_first
  auth_scan_first_sound none go_on w d h t = (refl, h)
  auth_scan_first_sound (some v) go_on w d h t = absurd (ground (arith, d v refl))

  found_target :
      (found : Result Target) (w : World) {r : ScopeCheckResponse}
      → (check_found env req found w).0 ≡ ok r
      → r.authorized ≡ true
      → (t : Target) × (found ≡ ok t)
        × (t.status ≡ verified)
        × PassesAuthScan req.phase true req.auth_scan_authorized
        × PinnedBy w.db w.now (active_of t.id w.now w.db.auths) r
  unfolding check_found
  found_target (err e) w h t = absurd (unfold deny_result in ground arith)
  found_target (ok t) w {r} h a =
      let (e, k) =
        auth_scan_first_sound
          (auth_scan_verdict req.phase (status_is_verified t.status) req.auth_scan_authorized)
          (check_target env req t) w {r = r}
          (λ d q.
            (auth_scan_verdict_denies req.phase (status_is_verified t.status)
              req.auth_scan_authorized q).0)
          h a in
      let (v, p) = check_target_sound t w {r = r} k a in
      (
        t,
        refl,
        v,
        subst (λ s. PassesAuthScan req.phase (status_is_verified s) req.auth_scan_authorized) v
            ((auth_scan_verdict-eq-none_iff req.phase (status_is_verified t.status)
                req.auth_scan_authorized).0
              e),
        p,
      )

-- The gate authorizes a request only if the target exists and is verified, the phase passes the
-- gate of the authenticated phases, the address and the host pass the vetting and are what is
-- pinned, and an authorization of the target that is verified and not expired grants the query.
pub check_scope_sound :
    (env : Env) (req : ScopeCheckRequest) (w : World) (r : ScopeCheckResponse)
    → (check_scope env req w).0 ≡ ok r
    → r.authorized ≡ true
    → IsAuthorized env req w r
unfolding check_scope
check_scope_sound env req w r h t =
    let w' : World = (Targets.get_by_uid_internal req.target_uid w).1 in
    let same = get_by_uid_internal-Same req.target_uid w in
    let h' : (check_found env req (Targets.get_by_uid_internal req.target_uid w).0 w').0 ≡ ok r =
      unfold deny_result in ground arith in
    let (target, e, v, a, p) =
      found_target env req (Targets.get_by_uid_internal req.target_uid w).0 w' {r = r} h' t in
    let (ips, pins, granted) =
      subst₂ (λ d n. PinnedBy env req d n (active_of target.id n d.auths) r) same.db same.now p in
    let (auth, m, eq, g) = granted in
    record {
      target = target;
      found = get_by_uid_internal-ok req.target_uid w e;
      is_verified = v;
      passes = a;
      pins =
          subst (IsPinned env req (query_host req) (query_ip req)) (sym eq)
            (vet_sound env req (query_host req) (query_ip req) pins);
      auth = auth;
      is_current = m;
      grants = g;
    }
