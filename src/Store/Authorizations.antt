-- ===== src/Store/Authorizations.antt =====
-- internal/repository/authorization_repository.go.
use target_service.Prelude.{
  ℕ, ◌+◌, Bool, true, false, ◌&&◌, ◌||◌, Option, none, some, List, [], ◌∷◌, ◌++◌, ◌==◌, ltb,
  if◌then◌else◌, length, filter, find, map,
}
use target_service.Text.{Str, str_eq}
use target_service.Model.{Time, Authorization, Evidence, Method, ScopeKind}
use target_service.Store.{err_not_found, Result, ok, err, World, M, query, with_db}

-- What a caller of Create fills in.
pub record NewAuthorization : Type 0 where
  pub target_id : ℕ
  pub method : Method
  pub token : Str
  pub scope_kind : ScopeKind
  pub scope_value : Str
  pub verified_at : Option Time
  pub expires_at : Option Time
  pub attested_by : Option ℕ
  pub evidence : Option Evidence

insert_row : NewAuthorization → World → Result Authorization × World
insert_row auth w =
    let db = w.db in
    let a : Authorization = record {
      id = db.next_id;
      uid = db.next_id;
      target_id = auth.target_id;
      method = auth.method;
      token = auth.token;
      scope_kind = auth.scope_kind;
      scope_value = auth.scope_value;
      verified_at = auth.verified_at;
      expires_at = auth.expires_at;
      attested_by = auth.attested_by;
      evidence = auth.evidence;
      created_at = w.now;
    } in
    (ok a, with_db w (record db { auths = db.auths ++ a ∷ []; next_id = db.next_id + 1 }))

unfoldable pub create : NewAuthorization → M Authorization
unfolding query insert_row
create auth = query (insert_row auth)

-- ORDER BY created_at DESC, id DESC.
abbrev newer : Authorization → Authorization → Bool
newer a b = ltb b.created_at a.created_at || (a.created_at == b.created_at && ltb b.id a.id)

abbrev newest_of : Authorization → Option Authorization → Option Authorization
newest_of a none = some a
newest_of a (some b) = if newer a b then some a else some b

unfoldable pub newest : List Authorization → Option Authorization
newest [] = none
newest (a ∷ as_) = newest_of a (newest as_)

abbrev pub of_target : ℕ → Authorization → Bool
of_target target_id a = a.target_id == target_id

abbrev or_not_found : Option Authorization → Result Authorization
or_not_found none = err err_not_found
or_not_found (some a) = ok a

unfoldable pub get_by_target_id : ℕ → M Authorization
unfolding query
get_by_target_id target_id =
    query (λ w. (or_not_found (newest (filter (of_target target_id) w.db.auths)), w))

abbrev is_none : Option Time → Bool
is_none none = true
is_none (some t) = false

abbrev is_pending : Str → Authorization → Bool
is_pending token a = str_eq a.token token && is_none a.verified_at

-- Any one of the pending rows with this token: here the one inserted first.
unfoldable pub get_pending_by_token : Str → M Authorization
unfolding query
get_pending_by_token token = query (λ w. (or_not_found (find (is_pending token) w.db.auths), w))

abbrev coalesce : Option Evidence → Option Evidence → Option Evidence
coalesce none old = old
coalesce (some ev) old = some ev

unfoldable pub set_verified : ℕ → Time → Option Evidence → World → Authorization → Authorization
set_verified id expires evidence w a =
    if a.id == id
    then record a {
      verified_at = some (w.now);
      expires_at = some expires;
      evidence = coalesce evidence a.evidence;
    }
    else a

unfoldable pub mark_verified : ℕ → Time → Option Evidence → M (Unit {0})
unfolding query set_verified
mark_verified id expires evidence = query (λ w. (
  ok tt,
  with_db w (record (w.db) { auths = map (set_verified id expires evidence w) w.db.auths }),
))

abbrev pub is_some {ℓ} : {A : Type ℓ} → Option A → Bool
is_some none = false
is_some (some _) = true

-- expires_at IS NULL OR expires_at > now
abbrev pub not_expired : Time → Option Time → Bool
not_expired now none = true
not_expired now (some t) = ltb now t

-- verified_at IS NOT NULL AND (expires_at IS NULL OR expires_at > now())
unfoldable pub is_active_at : Time → Authorization → Bool
is_active_at now a = is_some a.verified_at && not_expired now a.expires_at

unfoldable pub active_of : ℕ → Time → List Authorization → List Authorization
unfolding is_active_at
active_of target_id now auths = filter (λ a. of_target target_id a && is_active_at now a) auths

-- The rows have no ORDER BY; the model gives them in the order of insertion.
unfoldable pub get_active_authorizations : ℕ → M (List Authorization)
unfolding query active_of
get_active_authorizations target_id = query (λ w. (ok (active_of target_id w.now w.db.auths), w))

unfoldable pub set_expired : ℕ → Time → Authorization → Authorization
unfolding is_active_at
set_expired target_id now a =
    if of_target target_id a && is_active_at now a then record a { expires_at = some now } else a

-- The rows affected are counted.
unfoldable pub expire_active_authorizations : ℕ → M ℕ
unfolding query set_expired active_of
expire_active_authorizations target_id = query (λ w. (
  ok (length (active_of target_id w.now w.db.auths)),
  with_db w (record (w.db) { auths = map (set_expired target_id w.now) w.db.auths }),
))
