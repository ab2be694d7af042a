-- ===== src/Handler/Routes/Tests.antt =====
-- Calls of the routes on the sample data.
use target_service.Prelude.{pos, ◌≡◌, refl, false, none, some, [], any, filter, arith}
use target_service.Text.{
  Str, codes, to_lower, one_of, str_eq, trim_space, trim_right, trim_left, has_prefix, split, atoi,
}
use target_service.Model.{domain, CreateTargetRequest}
use target_service.Store.Keys.{HasKeys, none_left, one_more}
use target_service.Service.Cap.{MaxTargets, resolve_plan}
use target_service.Service.Cap.Laws.{owned}
use target_service.Service.System.Others.{others}
use target_service.Handler.{is_admin_request, user_id_from_header}
use target_service.Handler.Server.{Server, CapConfig}
use target_service.Handler.Http.{Call, given}
use target_service.Handler.Targets.{create}
use target_service.Handler.Routes.{user, UserRoute, handle}
use target_service.Handler.Routes.Quiet.{IsTold}
use target_service.Handler.Routes.Discreet.{handle-IsDiscreet}
use target_service.Handler.Routes.Isolation.{handle-others}
use target_service.Handler.Routes.Keys.{here, answered, Answers-HasKeys}
use target_service.Handler.Routes.Gate.{IsAtLimit, create-at_limit}
use target_service.Samples.{internet, world}

-- One target for each user.
abbrev one_each : MaxTargets
one_each plan = some (pos 1)

abbrev config : CapConfig
config = record { plans = none; limits = some one_each }

abbrev server : Server
server = record { env = internet; cap = some config; connectors = λ platform. none }

abbrev by_user : Str → Call
by_user id = record {
  is_admin = [];
  user_roles = [];
  user_id = id;
  user_plan = [];
  target_uid = some 11;
  query_param = λ name. [];
}

handle-IsDiscreet_example :
    IsTold
      (user UserRoute.delete)
      (handle server (user UserRoute.delete) (by_user (codes "8")) world).0
handle-IsDiscreet_example =
    handle-IsDiscreet server (user UserRoute.delete) (by_user (codes "8")) world

keys : HasKeys world.db
unfolding any
keys = one_more (ground arith) (ground arith) refl refl refl none_left

user_8 : user_id_from_header (codes "8") ≡ some 8
unfolding user_id_from_header atoi has_prefix
user_8 = refl

user_7 : user_id_from_header (codes "7") ≡ some 7
unfolding user_id_from_header atoi has_prefix
user_7 = refl

no_admin : is_admin_request [] [] ≡ false
unfolding is_admin_request to_lower trim_space trim_right trim_left split one_of str_eq any
no_admin = refl

handle-others_example :
    others 8 (handle server (user UserRoute.delete) (by_user (codes "8")) world).1.db.targets
    ≡ others 8 world.db.targets
handle-others_example =
    handle-others server (user UserRoute.delete) (by_user (codes "8")) 8 world keys user_8 no_admin

abbrev blog : CreateTargetRequest
blog = record { kind = domain; value = codes "blog.example" }

owns_one : owned internet.ilike one_each 7 (resolve_plan none [] 7) world ≡ 1
unfolding filter
owns_one = refl

at_limit : IsAtLimit server (by_user (codes "7")) 7 world
at_limit = record {
  config = config;
  enabled = refl;
  limits = one_each;
  limited = refl;
  max = 1;
  limit = refl;
  counts = refl;
  over = omega (arith, owns_one);
}

create-at_limit_example :
    ((create server (by_user (codes "7")) (given blog) world).0.status_code ≡ 403)
    × ((create server (by_user (codes "7")) (given blog) world).1.db ≡ world.db)
create-at_limit_example =
    create-at_limit server (by_user (codes "7")) blog 7 world at_limit user_7 no_admin

abbrev uncapped : Server
uncapped = record server { cap = none }

Answers-HasKeys_example :
    HasKeys
      (handle uncapped (user (UserRoute.create (given blog))) (by_user (codes "7")) world).1.db
Answers-HasKeys_example =
    Answers-HasKeys world _ keys
      (answered uncapped (user (UserRoute.create (given blog))) (by_user (codes "7")) here)
