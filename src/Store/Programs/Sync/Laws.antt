-- ===== src/Store/Programs/Sync/Laws.antt =====
-- What a Sync that succeeds leaves of the program, its assets and the other programs.
use mathlib.Core.Path.{subst₂, subst₃}
use target_service.Prelude.{
  ℕ, ◌≡◌, refl, sym, ◌∙◌, ap, false, not, some, List, [], ◌∷◌, ◌++◌, find, filter, arith,
}
use target_service.Text.{Str}
use target_service.Model.{Time, BugbountyProgram, ProgramAsset}
use target_service.Store.{Result, ok, err, Db, World, pure, query, ◌>>◌}
use target_service.Store.Rules.{bind-ok, bind-run}
use target_service.Store.Programs.{same_program}
use target_service.Store.Programs.Sync.Upsert.{upsert_program-IsUpserted}
use target_service.Store.Programs.Sync.{
  NewProgram, NewAsset, transaction, roll_back, stored_as, upsert_program, delete_assets,
  of_program, asset_row, insert_asset, insert_assets, boundary, replace_all_assets, sync,
}

-- The assets of the policy, as rows.
pub data AreRows (id : ℕ) : List NewAsset → List ProgramAsset → Type 0 where
  no_rows : AreRows id [] []
  row :
      {a : NewAsset} {assets : List NewAsset} {r : ProgramAsset} {rows : List ProgramAsset}
      → r.program_id ≡ id
      → r.asset_type ≡ a.asset_type
      → r.identifier ≡ a.identifier
      → r.in_scope ≡ a.in_scope
      → AreRows id assets rows
      → AreRows id (a ∷ assets) (r ∷ rows)

insert_asset-ok :
    (id : ℕ) (a : NewAsset) (w : World)
    → (insert_asset id a w).0 ≡ ok tt
    → (r : ProgramAsset) × ((insert_asset id a w).1.db.program_assets
        ≡ w.db.program_assets ++ r ∷ [])
      × (r ≡ asset_row id w.now w.db.next_id a)
      × ((insert_asset id a w).1.db.programs ≡ w.db.programs)
unfolding insert_asset query
insert_asset-ok id a w h = (asset_row id w.now w.db.next_id a, ground arith, refl, ground arith)

append_assoc : (xs ys zs : List ProgramAsset) → (xs ++ ys) ++ zs ≡ xs ++ (ys ++ zs)
append_assoc [] ys zs = refl
append_assoc (x ∷ xs) ys zs = ap (λ t. x ∷ t) (append_assoc xs ys zs)

append_nil : (xs : List ProgramAsset) → xs ++ [] ≡ xs
append_nil [] = refl
append_nil (x ∷ xs) = ap (λ t. x ∷ t) (append_nil xs)

insert_assets-ok :
    (id : ℕ) (assets : List NewAsset) (w : World)
    → (insert_assets id assets w).0 ≡ ok tt
    → (rows : List ProgramAsset) × AreRows id assets rows
      × ((insert_assets id assets w).1.db.program_assets ≡ w.db.program_assets ++ rows)
      × ((insert_assets id assets w).1.db.programs ≡ w.db.programs)
unfolding insert_assets
insert_assets-ok id [] w h = ([], no_rows, sym (append_nil w.db.program_assets), refl)
insert_assets-ok id (a ∷ assets) w h =
    let (x, e, k) = bind-ok (insert_asset id a) (λ _. insert_assets id assets) w {b = tt} h in
    let (r, p, q, s) = insert_asset-ok id a w e in
    let (rows, ar, p', s') = insert_assets-ok id assets (insert_asset id a w).1 k in
    let run = bind-run (insert_asset id a) (λ _. insert_assets id assets) w {a = tt} e in
    (
      r ∷ rows,
      row (ap (λ r. r.program_id) q) (ap (λ r. r.asset_type) q) (ap (λ r. r.identifier) q)
          (ap (λ r. r.in_scope) q) ar,
      ap (λ x. x.1.db.program_assets) run
          ∙ p'
          ∙ ap (λ l. l ++ rows) p
          ∙ append_assoc w.db.program_assets (r ∷ []) rows,
      ap (λ x. x.1.db.programs) run ∙ s' ∙ s,
    )

boundary-db : (w : World) → (boundary w).1.db ≡ w.db
unfolding boundary query
boundary-db w = ground arith

-- What a synchronisation leaves: the table has the program for its platform and handle, with every
-- term that was given and this moment; its assets are those that were given, and the programs of
-- other platforms and handles, and their assets, are what they were.
pub record IsSynced (p : NewProgram) (assets : List NewAsset) (before : Db) (now : Time)
    (stored : BugbountyProgram) (after : Db) : Type 0 where
  pub rows : List ProgramAsset
  pub are_rows : AreRows stored.id assets rows
  pub replaced :
      after.program_assets
      ≡ filter (λ a. not (of_program stored.id a)) before.program_assets ++ rows
  pub in_table : find (same_program p.platform p.handle) after.programs ≡ some stored
  pub terms : stored ≡ stored_as p stored.id stored.created_at now
  pub others :
      (platform handle : Str)
      → same_program platform handle stored ≡ false
      → find (same_program platform handle) after.programs
        ≡ find (same_program platform handle) before.programs

delete_assets-ok :
    (id : ℕ) (w : World)
    → (delete_assets id w).0 ≡ ok tt
    → ((delete_assets id w).1.db.program_assets
        ≡ filter (λ a. not (of_program id a)) w.db.program_assets)
      × ((delete_assets id w).1.db.programs ≡ w.db.programs)
unfolding delete_assets query
delete_assets-ok id w h = (ground arith, ground arith)

replace_all_assets-ok :
    (p : NewProgram) (assets : List NewAsset) (w : World) {stored : BugbountyProgram}
    → (replace_all_assets p assets w).0 ≡ ok stored
    → IsSynced p assets w.db w.now stored (replace_all_assets p assets w).1.db
unfolding replace_all_assets
replace_all_assets-ok p assets w {stored} h =
    let (s, e, k) = bind-ok (upsert_program p) _ w {b = stored} h in
    let w1 = (upsert_program p w).1 in
    let (x, f, l) = bind-ok (delete_assets s.id) _ w1 {b = stored} k in
    let w2 = (delete_assets s.id w1).1 in
    let (y, g, m) = bind-ok (insert_assets s.id assets) _ w2 {b = stored} l in
    let w3 = (insert_assets s.id assets w2).1 in
    let (z, i, o) = bind-ok boundary (λ _. pure s) w3 {b = stored} m in
    let run =
      bind-run (upsert_program p)
        (λ x. delete_assets x.id >> (insert_assets x.id assets >> (boundary >> pure x))) w {a = s} e
      ∙ bind-run (delete_assets s.id) (λ _. insert_assets s.id assets >> (boundary >> pure s)) w1
          {a = tt} f
      ∙ bind-run (insert_assets s.id assets) (λ _. boundary >> pure s) w2 {a = tt} g
      ∙ bind-run boundary (λ _. pure s) w3 {a = tt} i in
    let up = upsert_program-IsUpserted p w e in
    let (deleted, unchanged) = delete_assets-ok s.id w1 f in
    let (rows, are, added, same) = insert_assets-ok s.id assets w2 g in
    let programs : (boundary w3).1.db.programs ≡ w1.db.programs =
      ap (λ d. d.programs) (boundary-db w3) ∙ same ∙ unchanged in
    let is_stored : s ≡ stored = ground arith in
    subst₂ (λ st d. IsSynced p assets w.db w.now st d) is_stored (sym (ap (λ x. x.1.db) run))
      (record {
        rows = rows;
        are_rows = are;
        replaced =
            ap (λ d. d.program_assets) (boundary-db w3)
            ∙ added
            ∙ ap (λ l. l ++ rows) (deleted ∙ ap (filter (λ a. not (of_program s.id a))) up.kept);
        in_table = ap (find (same_program p.platform p.handle)) programs ∙ up.in_table;
        terms = up.terms;
        others = λ platform handle n.
            ap (find (same_program platform handle)) programs ∙ up.others platform handle n;
      })

boundary-now : (w : World) → (boundary w).1.now ≡ w.now
unfolding boundary query
boundary-now w = ground arith

committed :
    (db : Db) (r : Result BugbountyProgram × World) {stored : BugbountyProgram}
    → (roll_back db r).0 ≡ ok stored
    → (r.0 ≡ ok stored) × (roll_back db r ≡ r)
committed db (ok a, w) h = (h, refl)
committed db (err x, w) h = absurd (ground arith)

-- A synchronisation that succeeds leaves the program in the table for its platform and handle, as
-- synchronised now and with every term that it was given, and exactly the given assets for it. The
-- programs of other platforms and handles, and their assets, are as they were.
pub sync-IsSynced :
    (p : NewProgram) (assets : List NewAsset) (w : World) (stored : BugbountyProgram)
    → (sync p assets w).0 ≡ ok stored
    → IsSynced p assets w.db w.now stored (sync p assets w).1.db
unfolding sync
sync-IsSynced p assets w stored h =
    let (x, e, k) =
      bind-ok boundary (λ _. transaction (replace_all_assets p assets)) w {b = stored} h in
    let w1 = (boundary w).1 in
    let (o, same) = committed w1.db (replace_all_assets p assets w1) {stored = stored} k in
    let run = bind-run boundary (λ _. transaction (replace_all_assets p assets)) w {a = tt} e in
    subst₃ (λ b n a. IsSynced p assets b n stored a) (boundary-db w) (boundary-now w)
      (sym (ap (λ r. r.1.db) (run ∙ same))) (replace_all_assets-ok p assets w1 {stored = stored} o)
