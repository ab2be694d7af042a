-- ===== src/Store/Tests.antt =====
-- Runs of the asset inventory and of the listing of targets.
use target_service.Service.Dto.{target_to_dto}
use target_service.Service.Listing.{list_targets}
use target_service.Service.Listing.Own.{IsOwnDto, list_targets-IsOwn}
use target_service.Prelude.{All, ◌≤◌, ℕ, ◌≡◌, refl, none, [], ◌∷◌, List, arith, filter, length, ltb}
use target_service.Prelude.Sort.{sort_by, insert_by, IsOrder}
use target_service.Text.{str_eq, Str, codes}
use target_service.Model.{Target, subdomain, AssetUpsertItem, SearchParameters}
use target_service.Store.{ok, query, World}
use target_service.Store.Search.{build_where}
use target_service.Store.Listing.{
  list, ordered, row_before, column_before, sort_column, Collation, listed_before,
}
use target_service.Store.Listing.Pages.{read_pages, IsComplete, read_pages-IsComplete}
use target_service.Store.Assets.{upsert}
use target_service.Store.Assets.Refine.{IsApplied, upsert-IsApplied}
use target_service.Samples.{internet, site, world}

abbrev seen : Str → AssetUpsertItem
seen value = record { asset_type = subdomain; value = value; discovered_by = none; metadata = [] }

abbrev two_reports : List AssetUpsertItem
two_reports = seen (codes "www.example.com") ∷ seen (codes "www.example.com") ∷ []

upsert-IsApplied_example : IsApplied 1 two_reports world (upsert 1 two_reports world)
upsert-IsApplied_example = upsert-IsApplied 1 two_reports world

abbrev first_of : Str → ℕ
first_of [] = 0
first_of (c ∷ s) = c

abbrev by_first : Collation
by_first s t = ltb (first_of s) (first_of t)

by_first-IsOrder : IsOrder by_first
by_first-IsOrder = record { asym = λ a b h. ground arith; chain = λ a b c h i. ground arith }

abbrev two_sites : World
two_sites = record world {
  db = record (world.db) {
    targets = site ∷ record site { id = 3; uid = 33; value = codes "blog.example" } ∷ [];
  };
}

abbrev by_value : SearchParameters
by_value = record {
  user_id = none;
  status = none;
  source = none;
  query = none;
  sort_by = codes "value";
  sort_order = codes "asc";
  page_number = 1;
  page_size = 1;
}

both_match : length (filter (build_where internet.ilike by_value) two_sites.db.targets) ≡ 2
unfolding build_where filter
both_match = refl

read_pages-IsComplete_example :
    IsComplete
      (filter (build_where internet.ilike by_value) two_sites.db.targets)
      (listed_before by_first by_value)
      (read_pages internet.ilike by_first by_value 2 two_sites).0
read_pages-IsComplete_example =
    read_pages-IsComplete internet.ilike by_first by_value 2 two_sites by_first-IsOrder refl
      (omega arith) (omega arith) (omega (arith, both_match))

abbrev second_site : Target
second_site = record site { id = 3; uid = 33; value = codes "blog.example" }

listed :
    (list_targets internet.ilike by_first 7 by_value two_sites).0
    ≡ ok (target_to_dto second_site ∷ [])
unfolding list_targets list ordered query filter build_where sort_by insert_by listed_before
    row_before column_before sort_column str_eq
listed = refl

list_targets-IsOwn_example :
    All (IsOwnDto 7 two_sites.db.targets) (target_to_dto second_site ∷ [])
    × (length (target_to_dto second_site ∷ []) ≤ 1)
list_targets-IsOwn_example =
    list_targets-IsOwn internet.ilike by_first 7 by_value two_sites (target_to_dto second_site ∷ [])
      listed
