-- ===== src/Store/Reads.antt =====
-- What a read returns, and what it does to the database and the clock.
use target_service.Prelude.{ℕ, ◌≡◌, refl, ◌∙◌, ◌&&◌, some, List, arith, ◌==◌, find}
use target_service.Text.{Str}
use target_service.Model.{Target, Authorization, BugbountyProgram, ProgramAsset}
use target_service.Store.{ok, World, query}
use target_service.Store.Targets
use target_service.Store.Authorizations
use target_service.Store.Authorizations.{active_of, of_target, is_active_at}
use target_service.Store.Listing.{Collation}
use target_service.Store.Programs
use target_service.Store.Programs.{same_program}

-- The two worlds have the same database, the same time and the same events.
pub record Same (w w' : World) : Type 0 where
  pub db : w'.db ≡ w.db
  pub now : w'.now ≡ w.now
  pub events : w'.events ≡ w.events

pub Same-refl : (w : World) → Same w w
Same-refl w = record { db = refl; now = refl; events = refl }

pub Same-trans : {u v w : World} → Same u v → Same v w → Same u w
Same-trans p q = record { db = q.db ∙ p.db; now = q.now ∙ p.now; events = q.events ∙ p.events }

pub get_by_uid_internal-Same : (uid : ℕ) (w : World) → Same w (Targets.get_by_uid_internal uid w).1
unfolding Targets.get_by_uid_internal
get_by_uid_internal-Same uid w = record {
  db = ground arith;
  now = ground arith;
  events = ground arith;
}

pub get_by_uid_internal-ok :
    (uid : ℕ) (w : World) {t : Target}
    → (Targets.get_by_uid_internal uid w).0 ≡ ok t
    → find (λ t. t.uid == uid) w.db.targets ≡ some t
unfolding Targets.get_by_uid_internal
get_by_uid_internal-ok uid w h = ground arith

pub get_active_authorizations-Same :
    (id : ℕ) (w : World) → Same w (Authorizations.get_active_authorizations id w).1
unfolding Authorizations.get_active_authorizations
get_active_authorizations-Same id w = record {
  db = ground arith;
  now = ground arith;
  events = ground arith;
}

pub get_active_authorizations-ok :
    (id : ℕ) (w : World) {auths : List Authorization}
    → (Authorizations.get_active_authorizations id w).0 ≡ ok auths
    → auths ≡ active_of id w.now w.db.auths
unfolding Authorizations.get_active_authorizations query
get_active_authorizations-ok id w h = ground arith

pub get_by_platform_handle-Same :
    (platform handle : Str) (w : World)
    → Same w (Programs.get_by_platform_handle platform handle w).1
unfolding Programs.get_by_platform_handle
get_by_platform_handle-Same platform handle w = record {
  db = ground arith;
  now = ground arith;
  events = ground arith;
}

pub get_by_platform_handle-ok :
    (platform handle : Str) (w : World) {p : BugbountyProgram}
    → (Programs.get_by_platform_handle platform handle w).0 ≡ ok p
    → find (same_program platform handle) w.db.programs ≡ some p
unfolding Programs.get_by_platform_handle
get_by_platform_handle-ok platform handle w h = ground arith

pub list_assets-Same :
    (collate : Collation) (id : ℕ) (w : World) → Same w (Programs.list_assets collate id w).1
unfolding Programs.list_assets
list_assets-Same collate id w = record {
  db = ground arith;
  now = ground arith;
  events = ground arith;
}

pub list_assets-ok :
    (collate : Collation) (id : ℕ) (w : World) {assets : List ProgramAsset}
    → (Programs.list_assets collate id w).0 ≡ ok assets
    → assets ≡ Programs.assets_of collate id w.db.program_assets
unfolding Programs.list_assets
list_assets-ok collate id w h = ground arith

pub get_by_target_id-Same : (id : ℕ) (w : World) → Same w (Authorizations.get_by_target_id id w).1
unfolding Authorizations.get_by_target_id
get_by_target_id-Same id w = record { db = ground arith; now = ground arith; events = ground arith }

pub get_by_uid-Same : (user_id uid : ℕ) (w : World) → Same w (Targets.get_by_uid user_id uid w).1
unfolding Targets.get_by_uid
get_by_uid-Same user_id uid w = record {
  db = ground arith;
  now = ground arith;
  events = ground arith;
}

pub get_by_uid-ok :
    (user_id uid : ℕ) (w : World) {t : Target}
    → (Targets.get_by_uid user_id uid w).0 ≡ ok t
    → find (λ t. t.uid == uid && t.user_id == user_id) w.db.targets ≡ some t
unfolding Targets.get_by_uid
get_by_uid-ok user_id uid w h = ground arith
