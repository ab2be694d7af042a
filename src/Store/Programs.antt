-- ===== src/Store/Programs.antt =====
-- The reads of internal/repository/program_repository.go.
pub mod Sync
use target_service.Prelude.{
  ℕ, Bool, ◌&&◌, ◌||◌, not, if◌then◌else◌, Option, none, some, List, ◌++◌, ◌==◌, find, filter,
}
use target_service.Prelude.Sort.{sort_by}
use target_service.Store.Listing.{Collation}
use target_service.Text.{Str, str_eq}
use target_service.Model.{BugbountyProgram, ProgramAsset}
use target_service.Store.{err_not_found, Result, ok, err, M, query}

abbrev pub same_program : Str → Str → BugbountyProgram → Bool
same_program platform handle p = str_eq p.platform platform && str_eq p.handle handle

abbrev or_not_found : Option BugbountyProgram → Result BugbountyProgram
or_not_found none = err err_not_found
or_not_found (some p) = ok p

unfoldable pub get_by_platform_handle : Str → Str → M BugbountyProgram
unfolding query
get_by_platform_handle platform handle =
    query (λ w. (or_not_found (find (same_program platform handle) w.db.programs), w))

abbrev pub of_program : ℕ → ProgramAsset → Bool
of_program id a = a.program_id == id

-- An included asset stands before an excluded one, and otherwise the lesser identifier first.
unfoldable pub asset_before : Collation → ProgramAsset → ProgramAsset → Bool
asset_before collate a b =
    if a.in_scope
    then not b.in_scope || collate a.identifier b.identifier
    else not b.in_scope && collate a.identifier b.identifier

-- The rows of a program, the included ones first, each half by its identifiers.
unfoldable pub assets_of : Collation → ℕ → List ProgramAsset → List ProgramAsset
assets_of collate program_id assets =
    sort_by (asset_before collate) (filter (of_program program_id) assets)

-- ORDER BY in_scope DESC, identifier, in the database's order of texts.
unfoldable pub list_assets : Collation → ℕ → M (List ProgramAsset)
unfolding query assets_of
list_assets collate program_id =
    query (λ w. (ok (assets_of collate program_id w.db.program_assets), w))
