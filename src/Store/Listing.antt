-- ===== src/Store/Listing.antt =====
-- List and the grouped counts of internal/repository/target_repository.go.
pub mod Pages
pub mod Reads
use target_service.Prelude.{
  ℕ, ◌+◌, ◌-◌, ◌*◌, ◌^◌, ◌%◌, Bool, true, false, ◌&&◌, ◌||◌, not, Option, none, some, List, [], ◌∷◌,
  ◌==◌, ltb, if◌then◌else◌, length, filter, take, drop,
}
use target_service.Prelude.Sort.{sort_by}
use target_service.Text.{Str, codes, str_eq}
use target_service.Model.{Target, TargetStatus, TargetSource, SearchParameters}
use target_service.Store.{db_failure, Result, ok, err, World, M, query}
use target_service.Store.Search.{Ilike, build_where, status_text, source_text}

-- The order of texts in the database: the first comes before the second.
abbrev pub Collation : Type 0
Collation = Str → Str → Bool

pub data Column : Type 0 where
  created_at updated_at status value source user_id : Column

-- A column that may be sorted by, or created_at.
unfoldable pub sort_column : Str → Column
sort_column s =
    if str_eq s (codes "updated_at")
    then updated_at
    else if str_eq s (codes "status")
    then status
    else if str_eq s (codes "value")
    then value
    else if str_eq s (codes "source")
    then source
    else if str_eq s (codes "user_id")
    then user_id
    else created_at

unfoldable pub column_before : Collation → Column → Target → Target → Bool
column_before collate created_at a b = ltb a.created_at b.created_at
column_before collate updated_at a b = ltb a.updated_at b.updated_at
column_before collate status a b = collate (status_text a.status) (status_text b.status)
column_before collate value a b = collate a.value b.value
column_before collate source a b = collate (source_text a.source) (source_text b.source)
column_before collate user_id a b = ltb a.user_id b.user_id

-- By the column, and by the id where the column does not tell.
unfoldable pub row_before : Collation → Column → Target → Target → Bool
row_before collate column a b =
    column_before collate column a b || (not (column_before collate column b a) && ltb a.id b.id)

-- ORDER BY column, id: both ascending, or both descending.
unfoldable pub listed_before : Collation → SearchParameters → Target → Target → Bool
listed_before collate params a b =
    let column = sort_column params.sort_by in
    if str_eq params.sort_order (codes "asc")
    then row_before collate column a b
    else row_before collate column b a

abbrev pub page_of : SearchParameters → ℕ
page_of params = if params.page_number == 0 then 1 else params.page_number

abbrev pub size_of : SearchParameters → ℕ
size_of params = if params.page_size == 0 then 50 else params.page_size

-- The product of two 64-bit integers.
abbrev pub offset_of : SearchParameters → ℕ
offset_of params = (page_of params - 1) * size_of params % 2 ^ 64

-- The rows that match, in order.
unfoldable pub ordered : Ilike → Collation → SearchParameters → World → List Target
ordered ilike collate params w =
    sort_by (listed_before collate params) (filter (build_where ilike params) w.db.targets)

-- The database refuses a negative offset.
unfoldable pub list : Ilike → Collation → SearchParameters → M (List Target)
unfolding query ordered
list ilike collate params = query (λ w.
    if ltb (offset_of params) (2 ^ 63)
    then (ok (take (size_of params) (drop (offset_of params) (ordered ilike collate params w))), w)
    else (err (db_failure (codes "OFFSET must not be negative")), w))

-- GROUP BY: a key that no row has is not in the map.
abbrev pub present : ℕ → Option ℕ
present n = if n == 0 then none else some n

unfoldable pub count_by_status : M (TargetStatus → Option ℕ)
unfolding query
count_by_status = query (λ w. (
  ok (λ s.
      present (length (filter (λ t. str_eq (status_text t.status) (status_text s)) w.db.targets))),
  w,
))

unfoldable pub count_by_source : M (TargetSource → Option ℕ)
unfolding query
count_by_source = query (λ w. (
  ok (λ s.
      present (length (filter (λ t. str_eq (source_text t.source) (source_text s)) w.db.targets))),
  w,
))
