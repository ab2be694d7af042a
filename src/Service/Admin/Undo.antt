-- ===== src/Service/Admin/Undo.antt =====
-- CreateProgramTarget of internal/service/target_admin_service.go: its compensating
-- deletion.
use target_service.Prelude.{
  ℕ, ◌≡◌, refl, ◌∙◌, ap, inl, inr, false, not, ◌&&◌, List, [], ◌∷◌, ◌++◌, arith, ◌==◌, any, filter,
  Bool-cases, Option-cases, some, sym,
}
use target_service.Text.{Str}
use target_service.Model.{
  Target, TargetKind, Authorization, AdminCreateProgramTargetRequest, Method,
}
use target_service.Store.{
  Error, Result, ok, err, World, attempt, gets, ◌>>=◌, query, emit, later, is_failing,
}
use target_service.Store.Rules.{bind_rule, Result-cases}
use target_service.Store.Targets
use target_service.Store.Targets.{Etld, same_key}
use target_service.Store.Authorizations
use target_service.Store.Keys.{HasKeys, fresh}
use target_service.Store.Writes.{delete_by_uid-Writes}
use target_service.Service.Env.{Env}
use target_service.Service.Dto.{TargetAdminDto}
use target_service.Service.Target.{is_ip_kind, check_kind_allowed, or_exists}
use target_service.Service.Admin.{
  grant_or_undo, create_program_target, admin_grant, or_default, default_admin_authorized_days,
  program_evidence,
}

-- The targets are what they were; or one was added and the third statement, its deletion, failed.
pub data IsUndone (before : World) (after : World) : Type 0 where
  undone : after.db.targets ≡ before.db.targets → IsUndone before after
  kept :
      (t : Target) (message : Str)
      → is_failing (later (later before.faults)) ≡ some message
      → after.db.targets ≡ before.db.targets ++ t ∷ []
      → IsUndone before after

-- An insert that fails leaves the database as it was; one that succeeds appends its target.
record Inserts (w : World) (r : Result Target × World) : Type 0 where
  failed : {e : Error} → r.0 ≡ err e → r.1.db ≡ w.db
  added : {t : Target} → r.0 ≡ ok t → r.1.db.targets ≡ w.db.targets ++ t ∷ []
  uid : {t : Target} → r.0 ≡ ok t → t.uid ≡ w.db.next_id
  spends : r.1.faults ≡ later w.faults

create_program-Inserts :
    (etld : Etld) (user_id : ℕ) (kind : TargetKind) (value label : Str) (w : World)
    → Inserts w (Targets.create_program etld user_id kind value label w)
unfolding Targets.create_program query
create_program-Inserts etld user_id kind value label w = record {
  failed = ground arith;
  added = ground arith;
  uid = ground arith;
  spends = ground arith;
}

create-targets :
    (auth : Authorizations.NewAuthorization) (w : World)
    → (Authorizations.create auth w).1.db.targets ≡ w.db.targets
unfolding Authorizations.create query
create-targets auth w = ground arith

create-faults :
    (auth : Authorizations.NewAuthorization) (w : World)
    → (Authorizations.create auth w).1.faults ≡ later w.faults
unfolding Authorizations.create query
create-faults auth w = ground arith

delete_by_uid-err :
    (uid : ℕ) (w : World) {e : Error}
    → (Targets.delete_by_uid uid w).0 ≡ err e
    → (message : Str) × (is_failing w.faults ≡ some message)
unfolding Targets.delete_by_uid query
delete_by_uid-err uid w h = elim (Option-cases (is_failing w.faults)) [
  | inl n ↦ absurd (ground arith)
  | inr (m, e) ↦ (m, e)
]

remove-append :
    (t : Target) (ts : List Target)
    → any (λ u. u.uid == t.uid) ts ≡ false
    → filter (λ u. not (u.uid == t.uid)) (ts ++ t ∷ []) ≡ ts
unfolding any filter
remove-append t [] h = ground arith
remove-append t (u ∷ ts) h = ground (arith, remove-append t ts)

module _ (env : Env) (admin : ℕ) (req : AdminCreateProgramTargetRequest) (w : World) where
  abbrev Undone : Result TargetAdminDto × World → Type 0
  Undone x = (e : Error) → x.0 ≡ err e → IsUndone w x.1

  grant_or_undo-Undone :
      (t : Target) (granted : Result Authorization) (w' : World)
      → w'.db.targets ≡ w.db.targets ++ t ∷ []
      → w'.faults ≡ later (later w.faults)
      → any (λ u. u.uid == t.uid) w.db.targets ≡ false
      → Undone (grant_or_undo admin t granted w')
  unfolding grant_or_undo emit Targets.remove filter
  grant_or_undo-Undone t (ok auth) w' same spent n e h = absurd (ground arith)
  grant_or_undo-Undone t (err x) w' same spent n e h =
      let delete = delete_by_uid-Writes t.uid w' in
      elim (Result-cases (Targets.delete_by_uid t.uid w').0) [
        | inl (y, q) ↦
            let (m, f) = delete_by_uid-err t.uid w' q in
            kept t m (ap is_failing (sym spent) ∙ f) (ap (λ d. d.targets) (delete.failed q) ∙ same)
        | inr (u, q) ↦ undone (
            ap (λ d. d.targets) (delete.written q)
            ∙ ap (λ ts. filter (λ u. not (u.uid == t.uid)) ts) same
            ∙ remove-append t w.db.targets n)
      ]

  abbrev owner : ℕ
  owner = or_default req.user_id admin

  abbrev inserted : Result Target × World
  inserted = Targets.create_program env.etld owner req.kind req.value req.label w

  after_insert :
      (r : Result Target)
      → HasKeys w.db
      → inserted.0 ≡ r
      → Undone (
          (do
            t ← or_exists r
            now ← gets (λ w. w.now)
            granted ← attempt (
                Authorizations.create (
                  admin_grant t Method.program now
                    (or_default req.program.authorized_days default_admin_authorized_days)
                    admin
                    (program_evidence req.program)))
            grant_or_undo admin t granted)
            inserted.1)
  after_insert (ok t) k q e =
      let insert = create_program-Inserts env.etld owner req.kind req.value req.label w in
      grant_or_undo-Undone t _ _ (create-targets _ inserted.1 ∙ insert.added q)
        (create-faults _ inserted.1 ∙ ap later insert.spends)
        (rw (insert.uid q) (fresh w.db.targets k).0) e
  after_insert (err x) k q e =
      bind_rule (or_exists (err x)) _ inserted.1 Undone
        (λ y g e h. undone (
          ap (λ v. v.db.targets) (refused_world x inserted.1)
          ∙ ap (λ d. d.targets) (insert.failed q)))
        (λ t g. absurd (refused_result x inserted.1 t g)) e
    where
      insert : Inserts w inserted
      insert = create_program-Inserts env.etld owner req.kind req.value req.label w

      refused_world : (x : Error) (w' : World) → (or_exists (err x) w').1 ≡ w'
      refused_world x w' = ground arith

      refused_result : (x : Error) (w' : World) (t : Target) → ¬ ((or_exists (err x) w').0 ≡ ok t)
      refused_result x w' t h = ground arith

  -- On a database with unique keys, a CreateProgramTarget that fails leaves the targets as they
  -- were, or has added one target whose deletion, the third statement, failed as well.
  pub create_program_target-IsUndone :
      (e : Error)
      → HasKeys w.db
      → (create_program_target env admin req w).0 ≡ err e
      → IsUndone w (create_program_target env admin req w).1
  unfolding create_program_target check_kind_allowed
  create_program_target-IsUndone e k h =
      elim (Bool-cases (is_ip_kind req.kind && not env.ip_targets_enabled)) [
        | inl y ↦ rw y (undone refl)
        | inr n ↦ rw n (after_insert inserted.0 k refl e (rw n at h))
      ]
