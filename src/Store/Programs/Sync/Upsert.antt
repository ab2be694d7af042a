-- ===== src/Store/Programs/Sync/Upsert.antt =====
-- INSERT … ON CONFLICT (platform, handle) DO UPDATE and the table of programs.
use mathlib.Core.Path.{subst}
use target_service.Prelude.{
  ℕ, ◌≡◌, refl, sym, ◌∙◌, ap, inl, inr, Bool, true, false, Bool-cases, Option, none, some, List, [],
  ◌∷◌, ◌++◌, find, map, arith,
}
use target_service.Text.{Str}
use target_service.Text.Laws.{str_eq_iff, str_eq_refl}
use target_service.Model.{Time, BugbountyProgram}
use target_service.Store.{Error, Result, ok, err, Db, World}
use target_service.Store.Rules.{spent, query_cases}
use target_service.Store.Programs.{same_program}
use target_service.Store.Programs.Sync.{
  NewProgram, stored_as, replace_program, upsert_row, upsert_program,
}

same_program-stored_as :
    (p : NewProgram) (id : ℕ) (created now : Time)
    → same_program p.platform p.handle (stored_as p id created now) ≡ true
same_program-stored_as p id created now = rw (str_eq_refl p.platform, str_eq_refl p.handle) refl

-- Two keys of one program are the same.
one_key :
    (platform handle : Str) (p : NewProgram) (old new : BugbountyProgram)
    → same_program p.platform p.handle old ≡ true
    → same_program p.platform p.handle new ≡ true
    → same_program platform handle new ≡ false
    → same_program platform handle old ≡ false
one_key platform handle p old new h k n =
    let e = (str_eq_iff old.platform p.platform).0 (ground arith) in
    let e' = (str_eq_iff new.platform p.platform).0 (ground arith) in
    let f = (str_eq_iff old.handle p.handle).0 (ground arith) in
    let f' = (str_eq_iff new.handle p.handle).0 (ground arith) in rw (e, f) (rw (e', f') at n)

find_last :
    (t : BugbountyProgram → Bool) (ps : List BugbountyProgram) (new : BugbountyProgram)
    → find t ps ≡ none
    → t new ≡ true
    → find t (ps ++ new ∷ []) ≡ some new
unfolding find
find_last t [] new h y = rw y refl
find_last t (p ∷ ps) new h y = elim (Bool-cases (t p)) [
  | inl z ↦ absurd (ground arith)
  | inr z ↦ let ih = find_last t ps new (ground arith) y in rw z ih
]

find_before :
    (t : BugbountyProgram → Bool) (ps : List BugbountyProgram) (new : BugbountyProgram)
    → t new ≡ false
    → find t (ps ++ new ∷ []) ≡ find t ps
unfolding find
find_before t [] new n = rw n refl
find_before t (p ∷ ps) new n = elim (Bool-cases (t p)) [
  | inl z ↦ rw z refl
  | inr z ↦ rw z (find_before t ps new n)
]

find_replaced :
    (p : NewProgram) (now : Time) (ps : List BugbountyProgram) {old : BugbountyProgram}
    → find (same_program p.platform p.handle) ps ≡ some old
    → find (same_program p.platform p.handle) (map (replace_program p now) ps)
      ≡ some (stored_as p old.id old.created_at now)
unfolding find
find_replaced p now [] h = absurd (ground arith)
find_replaced p now (q ∷ ps) {old} h = elim (Bool-cases (same_program p.platform p.handle q)) [
  | inl y ↦
      let e : q ≡ old = ground arith in
      rw (y, same_program-stored_as p q.id q.created_at now, e) refl
  | inr n ↦ rw (n, n) (find_replaced p now ps {old = old} (ground arith))
]

find_other :
    (p : NewProgram) (now : Time) (platform handle : Str) (ps : List BugbountyProgram)
    (new : BugbountyProgram)
    → same_program p.platform p.handle new ≡ true
    → same_program platform handle new ≡ false
    → find (same_program platform handle) (map (replace_program p now) ps)
      ≡ find (same_program platform handle) ps
unfolding find
find_other p now platform handle [] new k n = refl
find_other p now platform handle (q ∷ ps) new k n =
    elim (Bool-cases (same_program p.platform p.handle q)) [
      | inl y ↦
          let other = one_key platform handle p q new y k n in
          let other' =
            one_key platform handle p (stored_as p q.id q.created_at now) new
              (same_program-stored_as p q.id q.created_at now) k n in
          rw (y, other, other') (find_other p now platform handle ps new k n)
      | inr z ↦ elim (Bool-cases (same_program platform handle q)) [
        | inl y ↦ rw (z, y) refl
        | inr x ↦ rw (z, x) (find_other p now platform handle ps new k n)
      ]
    ]

-- What the upsert leaves of the table of programs.
pub record IsUpserted (p : NewProgram) (before : Db) (now : Time)
    (r : Result BugbountyProgram × World) (stored : BugbountyProgram) : Type 0 where
  pub kept : r.1.db.program_assets ≡ before.program_assets
  pub in_table : find (same_program p.platform p.handle) r.1.db.programs ≡ some stored
  pub terms : stored ≡ stored_as p stored.id stored.created_at now
  pub others :
      (platform handle : Str)
      → same_program platform handle stored ≡ false
      → find (same_program platform handle) r.1.db.programs
        ≡ find (same_program platform handle) before.programs

ok-injective : {a b : BugbountyProgram} → ok a ≡ ok b → a ≡ b
ok-injective h = cc

upsert_row-IsUpserted :
    (p : NewProgram) (w : World) {stored : BugbountyProgram}
    → (upsert_row p (find (same_program p.platform p.handle) w.db.programs) w).0 ≡ ok stored
    → IsUpserted p w.db w.now
        (upsert_row p (find (same_program p.platform p.handle) w.db.programs) w)
        stored
unfolding upsert_row
upsert_row-IsUpserted p w = by_found (find (same_program p.platform p.handle) w.db.programs) refl
  where
    by_found :
        (found : Option BugbountyProgram)
        → find (same_program p.platform p.handle) w.db.programs ≡ found
        → {stored : BugbountyProgram} → (upsert_row p found w).0 ≡ ok stored
        → IsUpserted p w.db w.now (upsert_row p found w) stored
    by_found none e h =
        let new = stored_as p w.db.next_id w.now w.now in
        let key = same_program-stored_as p w.db.next_id w.now w.now in
        subst (IsUpserted p w.db w.now (upsert_row p none w)) (ok-injective h) (record {
          kept = refl;
          in_table = find_last (same_program p.platform p.handle) w.db.programs new e key;
          terms = refl;
          others =
              λ platform handle n. find_before (same_program platform handle) w.db.programs new n;
        })
    by_found (some old) e h =
        let new = stored_as p old.id old.created_at w.now in
        let key = same_program-stored_as p old.id old.created_at w.now in
        subst (IsUpserted p w.db w.now (upsert_row p (some old) w)) (ok-injective h) (record {
          kept = refl;
          in_table = find_replaced p w.now w.db.programs e;
          terms = refl;
          others = λ platform handle n. find_other p w.now platform handle w.db.programs new key n;
        })

pub upsert_program-IsUpserted :
    (p : NewProgram) (w : World) {stored : BugbountyProgram}
    → (upsert_program p w).0 ≡ ok stored
    → IsUpserted p w.db w.now (upsert_program p w) stored
unfolding upsert_program
upsert_program-IsUpserted p w {stored} h =
    elim (query_cases (λ w. upsert_row p (find (same_program p.platform p.handle) w.db.programs) w)
      w) [
        | inl (m, e) ↦ absurd (not_ok (sym (ap (λ r. r.0) e) ∙ h))
        | inr e ↦
            subst (λ r. IsUpserted p w.db w.now r stored) (sym e)
              (upsert_row-IsUpserted p (spent w) {stored = stored} (sym (ap (λ r. r.0) e) ∙ h))
      ]
  where
    not_ok : {x : Error} {a : BugbountyProgram} → err x ≡ ok a → ⊥
    not_ok z = ground arith
