-- ===== src/Store/Search.antt =====
-- buildWhere, escapeLike and Count of internal/repository/target_repository.go.
mod Tests
mod Laws
use target_service.Prelude.{
  ℕ, Bool, true, false, ◌&&◌, ◌||◌, Option, none, some, List, [], ◌∷◌, ◌++◌, ◌==◌, if◌then◌else◌,
  length, filter,
}
use target_service.Text.{Str, codes, trim_space, str_eq}
use target_service.Model.{
  Target, TargetStatus, unverified, verifying, verified, revoked, TargetSource, customer, program,
  SearchParameters,
}
use target_service.Store.{Result, ok, World, M, query}

-- ILIKE of the database, the pattern first.
abbrev pub Ilike : Type 0
Ilike = Str → Str → Bool

abbrev pub status_text : TargetStatus → Str
status_text unverified = codes "unverified"
status_text verifying = codes "verifying"
status_text verified = codes "verified"
status_text revoked = codes "revoked"

abbrev pub source_text : TargetSource → Str
source_text customer = codes "customer"
source_text program = codes "program"

-- strings.ReplaceAll of one byte by a backslash and that byte.
unfoldable pub escape_byte : ℕ → Str → Str
escape_byte c [] = []
escape_byte c (x ∷ xs) = if x == c then b'\\' ∷ x ∷ escape_byte c xs else x ∷ escape_byte c xs

unfoldable pub escape_like : Str → Str
escape_like s = escape_byte b'_' (escape_byte b'%' (escape_byte b'\\' s))

-- A filter that is not given lets every row pass.
abbrev pub given : {A : Type 0} → (A → Bool) → Option A → Bool
given test none = true
given test (some a) = test a

abbrev ilike_label : Ilike → Str → Option Str → Bool
ilike_label ilike pattern_ none = false
ilike_label ilike pattern_ (some l) = ilike pattern_ l

abbrev matches_query : Ilike → Target → Str → Bool
matches_query ilike t [] = true
matches_query ilike t (c ∷ s) =
    let pattern_ = codes "%" ++ escape_like (c ∷ s) ++ codes "%" in
    ilike pattern_ t.value || ilike_label ilike pattern_ t.label

-- The rows that the WHERE clause selects.
unfoldable pub build_where : Ilike → SearchParameters → Target → Bool
build_where ilike params t =
    given (λ id. t.user_id == id) params.user_id
    && given (λ s. str_eq (status_text t.status) s) params.status
    && given (λ s. str_eq (source_text t.source) s) params.source
    && given (λ q. matches_query ilike t (trim_space q)) params.query

unfoldable pub count : Ilike → SearchParameters → M ℕ
unfolding build_where query
count ilike params = query (λ w. (ok (length (filter (build_where ilike params) w.db.targets)), w))
