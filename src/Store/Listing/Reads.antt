-- ===== src/Store/Listing/Reads.antt =====
-- What the listings and the counts do to the database.
use target_service.Prelude.{arith}
use target_service.Model.{SearchParameters}
use target_service.Store.{World, query}
use target_service.Store.Reads.{Same}
use target_service.Store.Search.{Ilike, count}
use target_service.Store.Listing.{Collation, list, count_by_status, count_by_source}

pub list-Same :
    (ilike : Ilike) (collate : Collation) (params : SearchParameters) (w : World)
    → Same w (list ilike collate params w).1
unfolding list query
list-Same ilike collate params w = record {
  db = ground arith;
  now = ground arith;
  events = ground arith;
}

pub count-Same :
    (ilike : Ilike) (params : SearchParameters) (w : World) → Same w (count ilike params w).1
unfolding count query
count-Same ilike params w = record { db = ground arith; now = ground arith; events = ground arith }

pub count_by_status-Same : (w : World) → Same w (count_by_status w).1
unfolding count_by_status query
count_by_status-Same w = record { db = ground arith; now = ground arith; events = ground arith }

pub count_by_source-Same : (w : World) → Same w (count_by_source w).1
unfolding count_by_source query
count_by_source-Same w = record { db = ground arith; now = ground arith; events = ground arith }
