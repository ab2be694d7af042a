-- ===== src/Store/Assets/Reads.antt =====
-- What the listings of assets do to the database.
use target_service.Prelude.{ℕ, arith}
use target_service.Store.{World, query}
use target_service.Store.Reads.{Same}
use target_service.Store.Assets.{list_by_target_uid, list_by_target_id}

pub list_by_target_uid-Same :
    (user_id uid : ℕ) (w : World) → Same w (list_by_target_uid user_id uid w).1
unfolding list_by_target_uid query
list_by_target_uid-Same user_id uid w = record {
  db = ground arith;
  now = ground arith;
  events = ground arith;
}

pub list_by_target_id-Same : (id : ℕ) (w : World) → Same w (list_by_target_id id w).1
unfolding list_by_target_id query
list_by_target_id-Same id w = record {
  db = ground arith;
  now = ground arith;
  events = ground arith;
}
