-- ===== src/Store/Targets.antt =====
-- internal/repository/target_repository.go.
use target_service.Prelude.{
  ℕ, ◌+◌, ◌-◌, Bool, true, false, ◌&&◌, not, Option, none, some, List, [], ◌∷◌, ◌++◌, ◌==◌,
  if◌then◌else◌, length, any, find, filter, map, drop, take, ltb,
}
use target_service.Text.{
  Str, codes, to_lower, trim_space, str_eq, index, contains, last_index, split, join,
}
use target_service.Model.{
  Target, TargetKind, domain, url, ip, cidr, TargetStatus, unverified, verified, TargetSource,
  customer, program, CreateTargetRequest,
}
use target_service.Store.{
  err_not_found, err_duplicate_target, Result, ok, err, Db, World, M, query, with_db,
}

abbrev pub kind_eq : TargetKind → TargetKind → Bool
kind_eq domain domain = true
kind_eq url url = true
kind_eq ip ip = true
kind_eq cidr cidr = true
kind_eq _ _ = false

-- The last two labels.
last_two : List Str → List Str
last_two ss = drop (length ss - 2) ss

-- publicsuffix.EffectiveTLDPlusOne is not part of this repository: `none` is its error.
abbrev pub Etld : Type 0
Etld = Str → Option Str

without_scheme : Str → Str
without_scheme host = elim (index host (codes "://")) [ none ↦ host | some i ↦ drop (i + 3) host ]

without_path : Str → Str
without_path host = elim (index host (codes "/")) [ none ↦ host | some i ↦ take i host ]

without_port : Str → Str
without_port host =
    if contains host (codes "[")
    then host
    else elim (last_index b':' host) [ none ↦ host | some i ↦ take i host ]

last_labels : Str → Str
unfolding last_two
last_labels host =
    let parts = split b'.' host in
    if ltb (length parts) 2 then host else join (codes ".") (last_two parts)

unfoldable pub extract_registrable_domain : Etld → Str → Str
unfolding without_scheme without_path without_port last_labels
extract_registrable_domain etld raw =
    let host = to_lower (trim_space (without_port (without_path (without_scheme raw)))) in
    elim (etld host) [ some rd ↦ rd | none ↦ last_labels host ]

unfoldable pub registrable_of : Etld → TargetKind → Str → Option Str
registrable_of etld domain value = some (extract_registrable_domain etld value)
registrable_of etld url value = some (extract_registrable_domain etld value)
registrable_of etld _ value = none

unfoldable pub normalize_target_value : Etld → TargetKind → Str → Str × Option Str
unfolding registrable_of
normalize_target_value etld kind raw =
    let value = to_lower (trim_space raw) in (value, registrable_of etld kind value)

-- The key of the UNIQUE constraint.
abbrev pub same_key : ℕ → TargetKind → Str → Target → Bool
same_key user_id kind value t = t.user_id == user_id && kind_eq t.kind kind && str_eq t.value value

insert_row :
    ℕ
    → TargetKind
    → Str
    → Option Str
    → TargetStatus
    → TargetSource
    → Option Str
    → World
    → Result Target × World
insert_row user_id kind value rd status source label w =
    let db = w.db in
    let t : Target = record {
      id = db.next_id;
      uid = db.next_id;
      user_id = user_id;
      kind = kind;
      value = value;
      registrable_domain = rd;
      status = status;
      source = source;
      label = label;
      created_at = w.now;
      updated_at = w.now;
    } in
    if any (same_key user_id kind value) db.targets
    then (err err_duplicate_target, w)
    else (ok t, with_db w (record db { targets = db.targets ++ t ∷ []; next_id = db.next_id + 1 }))

-- INSERT … ON CONFLICT DO NOTHING: no row comes back for a key that is there.
unfoldable pub insert :
    Etld → ℕ → TargetKind → Str → TargetStatus → TargetSource → Option Str → M Target
unfolding insert_row query normalize_target_value
insert etld user_id kind raw status source label =
    let (value, rd) = normalize_target_value etld kind raw in
    query (insert_row user_id kind value rd status source label)

unfoldable pub create : Etld → ℕ → CreateTargetRequest → M Target
unfolding insert
create etld user_id req = insert etld user_id req.kind req.value unverified customer none

abbrev pub non_empty : Str → Option Str
non_empty [] = none
non_empty (c ∷ s) = some (c ∷ s)

unfoldable pub create_program : Etld → ℕ → TargetKind → Str → Str → M Target
unfolding insert
create_program etld user_id kind value label =
    insert etld user_id kind value verified program (non_empty (trim_space label))

abbrev or_not_found : Option Target → Result Target
or_not_found none = err err_not_found
or_not_found (some t) = ok t

get_one : (Target → Bool) → M Target
unfolding query
get_one where_ = query (λ w. (or_not_found (find where_ w.db.targets), w))

unfoldable pub get_by_uid : ℕ → ℕ → M Target
unfolding get_one
get_by_uid user_id uid = get_one (λ t. t.uid == uid && t.user_id == user_id)

unfoldable pub get_by_uid_internal : ℕ → M Target
unfolding get_one
get_by_uid_internal uid = get_one (λ t. t.uid == uid)

unfoldable pub set_status : ℕ → TargetStatus → World → Target → Target
set_status id status w t =
    if t.id == id then record t { status = status; updated_at = w.now } else t

unfoldable pub update_status : ℕ → TargetStatus → M (Unit {0})
unfolding query set_status
update_status id status = query (λ w.
    (ok tt, with_db w (record (w.db) { targets = map (set_status id status w) w.db.targets })))

-- A deleted target takes its authorizations and assets with it (ON DELETE CASCADE).
unfoldable pub remove : (Target → Bool) → Db → Db
remove gone db = record db {
  targets = filter (λ t. not (gone t)) db.targets;
  auths = filter (λ a. not (any (λ t. gone t && t.id == a.target_id) db.targets)) db.auths;
  assets = filter (λ a. not (any (λ t. gone t && t.id == a.target_id) db.targets)) db.assets;
}

unfoldable pub delete : ℕ → ℕ → M (Unit {0})
unfolding query remove
delete user_id uid =
    query (λ w. (ok tt, with_db w (remove (λ t. t.uid == uid && t.user_id == user_id) w.db)))

unfoldable pub delete_by_uid : ℕ → M (Unit {0})
unfolding query remove
delete_by_uid uid = query (λ w. (ok tt, with_db w (remove (λ t. t.uid == uid) w.db)))
