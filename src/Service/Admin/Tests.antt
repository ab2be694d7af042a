-- ===== src/Service/Admin/Tests.antt =====
-- A program target whose authorization cannot be written is created and taken back.
use target_service.Prelude.{◌≡◌, refl, some, none, [], ◌∷◌, find, filter, any, arith}
use target_service.Text.{
  codes, to_lower, index, index_func, last_index, lower, one_of, str_eq, trim_space, trim_right,
  trim_left, is_space, has_prefix, contains,
}
use target_service.Model.{url, AdminCreateProgramTargetRequest, AdminAuthorizeTargetRequest}
use target_service.Store.{
  World, err, db_failure, query, emit, admin_target_created, admin_target_authorized,
  admin_target_revoked, admin_target_deleted,
}
use target_service.Store.Targets
use target_service.Store.Authorizations
use target_service.Store.Keys.{HasKeys, none_left, one_more}
use target_service.Samples.{internet, world}
use target_service.Service.Target.{check_kind_allowed}
use target_service.Service.Admin.{create_program_target, authorize_manually, revoke, delete_any}
use target_service.Service.Admin.Audit.{IsLogged, admin-IsLogged}
use target_service.Service.Admin.Undo.{IsUndone, create_program_target-IsUndone}

service : Unit {0}
unfolding find filter any to_lower index index_func last_index lower one_of str_eq trim_space
    trim_right trim_left is_space has_prefix contains query emit Targets.create_program
    Targets.delete_by_uid Authorizations.create check_kind_allowed create_program_target
service = tt

-- The second statement fails.
abbrev faulty : World
faulty = record world { faults = none ∷ some (codes "timeout") ∷ [] }

abbrev bounty : AdminCreateProgramTargetRequest
bounty = record {
  kind = url;
  value = codes "https://shop.example.com";
  user_id = 0;
  label = codes "shop";
  program = record {
    platform = codes "hackerone";
    name = codes "Shop";
    url = codes "https://hackerone.com/shop";
    policy_url = [];
    scope_notes = [];
    authorized_days = 0;
    handle = codes "shop";
  };
}

faulty_run : (create_program_target internet 1 bounty faulty).0 ≡ err (db_failure (codes "timeout"))
unfolding service
faulty_run = refl

faulty_targets : (create_program_target internet 1 bounty faulty).1.db.targets ≡ world.db.targets
unfolding service
faulty_targets = refl

faulty-HasKeys : HasKeys faulty.db
unfolding service
faulty-HasKeys = one_more (ground arith) (ground arith) refl refl refl none_left

create_program_target-IsUndone_example :
    IsUndone faulty (create_program_target internet 1 bounty faulty).1
create_program_target-IsUndone_example =
    create_program_target-IsUndone internet 1 bounty faulty (db_failure (codes "timeout"))
      faulty-HasKeys faulty_run

abbrev confirm : AdminAuthorizeTargetRequest
confirm = record { note = codes "by phone"; authorized_days = 30 }

admin-IsLogged_example :
    IsLogged admin_target_created 1 world (create_program_target internet 1 bounty world)
    × IsLogged admin_target_authorized 1 world (authorize_manually internet 1 11 confirm world)
    × IsLogged admin_target_revoked 1 world (revoke 1 11 world)
    × IsLogged admin_target_deleted 1 world (delete_any 1 11 world)
admin-IsLogged_example = admin-IsLogged internet 1 11 bounty confirm world
