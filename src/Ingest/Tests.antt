-- ===== src/Ingest/Tests.antt =====
-- One page of a HackerOne program.
use target_service.Prelude.{◌≡◌, refl, true, false, ◌||◌, ◌++◌, [], ◌∷◌, All}
use target_service.Text.{
  codes, str_eq, to_upper, upper, trim_space, trim_left, trim_right, is_space, has_prefix,
}
use target_service.Model.{ProgramAssetType}
use target_service.Store.{ok}
use target_service.Service.Programs.{ProgramPolicy}
use target_service.Ingest.{
  HackerOne, is_empty, map_hacker_one_asset_type, assets_of, fetch_pages, fetch_program,
}
use target_service.Ingest.Laws.{IsUsable, fetch_program_sound}

abbrev api : HackerOne
api = record {
  username = codes "bot";
  token = codes "secret";
  get_program = λ handle. ok (record { handle = handle; name = codes "Acme"; policy = [] });
  get_scopes = λ handle page. ok (record {
    scopes =
        record {
          asset_type = codes "URL";
          asset_identifier = codes "*.acme.io";
          eligible_for_submission = true;
        }
        ∷ [];
    next = [];
  });
  marshal_policy = λ text. text;
}

abbrev fetched : ProgramPolicy
fetched = record {
  platform = codes "hackerone";
  handle = codes "acme";
  name = codes "Acme";
  policy_url = codes "https://hackerone.com/" ++ codes "acme";
  safe_harbor = false;
  raw_policy = [];
  assets =
      record {
        asset_type = ProgramAssetType.wildcard;
        identifier = codes "*.acme.io";
        in_scope = true;
      }
      ∷ [];
}

fetch_run : fetch_program api (codes " acme ") ≡ ok fetched
unfolding fetch_program str_eq to_upper upper trim_space trim_left trim_right is_space has_prefix
    map_hacker_one_asset_type assets_of fetch_pages
fetch_run = refl

fetch_program_sound_example :
    (is_empty (trim_space (codes " acme ")) ≡ false)
    × ((is_empty api.username || is_empty api.token) ≡ false)
    × (fetched.handle ≡ trim_space (codes " acme "))
    × All IsUsable fetched.assets
fetch_program_sound_example = fetch_program_sound api (codes " acme ") fetched fetch_run
