-- ===== src/Service/Admin/Revoke.antt =====
-- The kill switch: Revoke of internal/service/target_admin_service.go, and CheckScope after it.
use mathlib.Core.List.{Memᴰ}
use mathlib.Core.Path.{subst}
use mathlib.Core.Option.{some-injective}
use target_service.Prelude.{
  ℕ, ◌≤◌, ◌≡◌, refl, sym, ◌∙◌, ap, ◌⊎◌, inl, inr, false, ◌&&◌, some, List, [], ◌∷◌, arith,
  Bool-cases, ◌==◌, find, map, filter,
}
use target_service.Model.{Time, Target, TargetStatus, revoked, Authorization, ScopeCheckRequest}
use target_service.Store.{
  Error, Result, ok, err, Db, World, emit, admin_target_revoked, is_lookup_miss,
}
use target_service.Store.Rules.{bind_rule, spent}
use target_service.Store.Writes.{expire_active_authorizations-Writes, update_status-Writes}
use target_service.Store.Targets
use target_service.Store.Authorizations
use target_service.Store.Authorizations.{
  active_of, is_active_at, of_target, set_expired, is_some, not_expired,
}
use target_service.Store.Reads.{
  Same, get_by_uid_internal-Same, get_by_uid_internal-ok, get_by_target_id-Same,
}
use target_service.Service.Dto.{TargetAdminDto}
use target_service.Service.Admin.{get_any, or_target_not_found, revoke}
use target_service.Service.Env.{Env}
use target_service.Scope.Response.{ScopeCheckResponse}
use target_service.Scope.Gate.{check_scope}
use target_service.Scope.Gate.Laws.{check_scope_sound}

-- An authorization that has been expired at `now` is active at no later time.
expired_inactive :
    (id : ℕ) (now later : Time) (a : Authorization)
    → now ≤ later
    → (of_target id (set_expired id now a) && is_active_at later (set_expired id now a)) ≡ false
unfolding set_expired is_active_at
expired_inactive id now later a h = ground arith

active_of-set_expired :
    (id : ℕ) (now later : Time) (auths : List Authorization)
    → now ≤ later
    → active_of id later (map (set_expired id now) auths) ≡ []
unfolding active_of filter
active_of-set_expired id now later [] h = refl
active_of-set_expired id now later (a ∷ auths) h =
    rw (expired_inactive id now later a h) (active_of-set_expired id now later auths h)

-- No authorization of the target with this uid is active from `now` on.
abbrev pub IsStopped : ℕ → Time → Db → Type 0
IsStopped uid now db =
    (t : Target) (later : Time)
    → find (λ t. t.uid == uid) db.targets ≡ some t
    → now ≤ later
    → active_of t.id later db.auths ≡ []

set_status-id :
    (id : ℕ) (s : TargetStatus) (w : World) (t : Target) → (Targets.set_status id s w t).id ≡ t.id
unfolding Targets.set_status
set_status-id id s w t = ground arith

find-set_status :
    (uid id : ℕ) (s : TargetStatus) (w : World) (ts : List Target) {t' : Target}
    → find (λ t. t.uid == uid) (map (Targets.set_status id s w) ts) ≡ some t'
    → (t : Target) × (find (λ t. t.uid == uid) ts ≡ some t) × (t' ≡ Targets.set_status id s w t)
unfolding find Targets.set_status
find-set_status uid id s w [] h = cc
find-set_status uid id s w (t ∷ ts) {t'} h = elim (Bool-cases (t.uid == uid)) [
  | inl e ↦ (t, rw e, ground arith)
  | inr n ↦ let (u, f, g) = find-set_status uid id s w ts {t' = t'} (ground arith) in (u, rw n f, g)
]

get_any-Same : (uid : ℕ) (w : World) → Same w (get_any uid w).1
unfolding get_any
get_any-Same uid w = by_result (Targets.get_by_uid_internal uid w).0
  where
    by_result :
        (r : Result Target) → Same w (or_target_not_found r (Targets.get_by_uid_internal uid w).1).1
    by_result (ok t) = get_by_uid_internal-Same uid w
    by_result (err e) = elim (Bool-cases (is_lookup_miss e)) [
      | inl y ↦ rw y (get_by_uid_internal-Same uid w)
      | inr n ↦ rw n (get_by_uid_internal-Same uid w)
    ]

get_any-ok :
    (uid : ℕ) (w : World) {t : Target}
    → (get_any uid w).0 ≡ ok t
    → find (λ t. t.uid == uid) w.db.targets ≡ some t
unfolding get_any
get_any-ok uid w {t} h =
    get_by_uid_internal-ok uid w (by_result (Targets.get_by_uid_internal uid w).0 h)
  where
    by_result :
        (r : Result Target)
        → (or_target_not_found r (Targets.get_by_uid_internal uid w).1).0 ≡ ok t
        → r ≡ ok t
    by_result (ok u) e = e
    by_result (err x) e = absurd (ground arith)

module _ (uid admin : ℕ) (w : World) where
  -- Nothing was written and the call failed, or no authorization is active from now on.
  abbrev pub Killed : Result TargetAdminDto × World → Type 0
  Killed x = ((x.1.db ≡ w.db) × ((e : Error) × (x.0 ≡ err e))) ⊎ IsStopped uid w.now x.1.db

  IsStopped-after :
      (id : ℕ) (db : Db) (rows : List Authorization) (ts : List Target) (now : Time)
      → ((t : Target) → find (λ t. t.uid == uid) ts ≡ some t → t.id ≡ id)
      → now ≡ w.now
      → IsStopped uid w.now (record db { targets = ts; auths = map (set_expired id now) rows })
  IsStopped-after id db rows ts now f e t later g le =
      rw (f t g) (active_of-set_expired id now later rows (ground arith))

  expiry_stops :
      (t : Target) (w' : World)
      → Same w w'
      → find (λ t. t.uid == uid) w.db.targets ≡ some t
      → IsStopped uid w.now (record (w'.db) { auths = map (set_expired t.id w'.now) w'.db.auths })
  expiry_stops t w' same e =
      IsStopped-after t.id w'.db w'.db.auths w'.db.targets w'.now
        (λ u g.
          ap (λ u. u.id)
            (some-injective u t (sym g ∙ ap (λ d. find (λ t. t.uid == uid) d.targets) same.db ∙ e)))
        same.now

  status_stops :
      (t : Target) (s : TargetStatus) (w1 w' : World)
      → Same w w'
      → find (λ t. t.uid == uid) w.db.targets ≡ some t
      → IsStopped uid w.now (record (w'.db) {
        targets = map (Targets.set_status t.id s w1) w'.db.targets;
        auths = map (set_expired t.id w'.now) w'.db.auths;
      })
  status_stops t s w1 w' same e u later f le =
      let (v, g, q) = find-set_status uid t.id s w1 w'.db.targets f in
      rw (ap (λ x. x.id) q ∙ set_status-id t.id s w1 v) (expiry_stops t w' same e v later g le)

  -- A revocation that fails before its first write leaves the database as it was; from that write
  -- on, whether it succeeds or fails, no authorization of the target is active any more.
  pub revoke_cases :
      (((revoke admin uid w).1.db ≡ w.db) × ((e : Error) × ((revoke admin uid w).0 ≡ err e)))
      ⊎ IsStopped uid w.now (revoke admin uid w).1.db
  unfolding revoke emit
  revoke_cases =
      let same = get_any-Same uid w in
      bind_rule (get_any uid) _ w Killed (λ e q. inl (same.db, (e, refl)))
        (λ t e.
          let w1 = (get_any uid w).1 in
          let expire = expire_active_authorizations-Writes t.id w1 in
          let w2 = (Authorizations.expire_active_authorizations t.id w1).1 in
          let update = update_status-Writes t.id revoked w2 in
          bind_rule (Authorizations.expire_active_authorizations t.id) _ w1 Killed
            (λ x q. inl (expire.failed q ∙ same.db, (x, refl)))
            (λ n q.
              bind_rule (Targets.update_status t.id revoked) _ w2 Killed
                (λ x p. inr (
                  subst (IsStopped uid w.now) (sym (update.failed p ∙ expire.written q))
                    (expiry_stops t w1 same (get_any-ok uid w {t = t} e))))
                (λ x p.
                  let read =
                    get_by_target_id-Same t.id
                      (emit admin_target_revoked t.uid (some admin) n
                        (Targets.update_status t.id revoked w2).1).1 in
                  inr (
                    subst (IsStopped uid w.now) (sym (read.db ∙ update.written p)) (
                      subst
                        (λ d. IsStopped uid w.now (record d {
                          targets = map (Targets.set_status t.id revoked (spent w2)) d.targets;
                        }))
                        (sym (expire.written q))
                        (status_stops t revoked (spent w2) w1 same
                          (get_any-ok uid w {t = t} e)))))))

  revoke-ok :
      {dto : TargetAdminDto}
      → (revoke admin uid w).0 ≡ ok dto
      → IsStopped uid w.now (revoke admin uid w).1.db
  revoke-ok h = by_case revoke_cases
    where
      by_case : Killed (revoke admin uid w) → IsStopped uid w.now (revoke admin uid w).1.db
      by_case (inl (_, (_, e))) = absurd (ground arith)
      by_case (inr s) = s

-- A target without active authorizations is authorized for nothing.
IsStopped-denied :
    (env : Env) (req : ScopeCheckRequest) (now : Time) (w : World) {r : ScopeCheckResponse}
    → IsStopped req.target_uid now w.db
    → now ≤ w.now
    → (check_scope env req w).0 ≡ ok r
    → r.authorized ≡ false
IsStopped-denied env req now w {r} s le h = elim (Bool-cases r.authorized) [
  | inr n ↦ n
  | inl y ↦
      let a = check_scope_sound env req w r h y in
      elim (subst (Memᴰ a.auth) (s a.target w.now a.found le) a.is_current) [ ]
]

-- After a revocation that succeeded, whatever the caller asks for the target, the gate that runs on
-- the database as the revocation left it, at that time or later, does not authorize it.
pub revoke-check_scope :
    (env : Env) (req : ScopeCheckRequest) (admin : ℕ) (w w' : World) (dto : TargetAdminDto)
    (r : ScopeCheckResponse)
    → (revoke admin req.target_uid w).0 ≡ ok dto
    → w'.db ≡ (revoke admin req.target_uid w).1.db
    → w.now ≤ w'.now
    → (check_scope env req w').0 ≡ ok r
    → r.authorized ≡ false
revoke-check_scope env req admin w w' dto r h same le =
    IsStopped-denied env req w.now w' {r = r}
      (subst (IsStopped req.target_uid w.now) (sym same)
        (revoke-ok req.target_uid admin w {dto = dto} h))
      le
