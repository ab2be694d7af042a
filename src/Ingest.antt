-- ===== src/Ingest.antt =====
-- internal/ingest/hackerone.go: the connector that reads a program's policy from HackerOne. The
-- authenticated GET of connector.go is a parameter: what each of the two documents answers.
pub mod Laws
mod Tests
use target_service.Prelude.{
  ℕ, suc, zero, ◌+◌, Bool, true, false, not, ◌&&◌, ◌||◌, Option, none, some, List, [], ◌∷◌, ◌++◌,
  if◌then◌else◌,
}
use target_service.Text.{Str, codes, str_eq, to_upper, trim_space, has_prefix}
use target_service.Model.{ProgramAssetType}
use target_service.Store.{Error, policy_failure, Result, ok, err}
use target_service.Store.Programs.Sync.{NewAsset}
use target_service.Service.Programs.{ProgramPolicy}

pub record H1Program : Type 0 where
  pub handle : Str
  pub name : Str
  pub policy : Str

pub record H1Scope : Type 0 where
  pub asset_type : Str
  pub asset_identifier : Str
  pub eligible_for_submission : Bool

pub record H1StructuredScopes : Type 0 where
  pub scopes : List H1Scope
  pub next : Str

pub record HackerOne : Type 0 where
  pub username : Str
  pub token : Str
  pub get_program : Str → Result H1Program
  -- the page with this number of the structured scopes of the program
  pub get_scopes : Str → ℕ → Result H1StructuredScopes
  -- json.Marshal of the policy text
  pub marshal_policy : Str → Str

abbrev pub hacker_one_max_scope_pages : ℕ
hacker_one_max_scope_pages = 10

abbrev is_empty : Str → Bool
is_empty s = str_eq s []

abbrev asset_types : List (Str × ProgramAssetType)
asset_types =
    (codes "WILDCARD", ProgramAssetType.wildcard)
    ∷ (codes "DOMAIN", ProgramAssetType.domain)
    ∷ (codes "IP_ADDRESS", ProgramAssetType.ip)
    ∷ (codes "CIDR", ProgramAssetType.cidr)
    ∷ (codes "URL", ProgramAssetType.url)
    ∷ []

-- The case of a switch over strings, `other` by default.
abbrev case_of : Str → List (Str × ProgramAssetType) → ProgramAssetType
case_of s [] = ProgramAssetType.other
case_of s ((name, type) ∷ cases) =
    let rest = case_of s cases in if str_eq s name then type else rest

unfoldable pub map_hacker_one_asset_type : Str → Str → ProgramAssetType
map_hacker_one_asset_type h1_type identifier =
    if has_prefix identifier (codes "*.")
    then ProgramAssetType.wildcard
    else case_of (to_upper (trim_space h1_type)) asset_types

abbrev asset_of : H1Scope → Str → NewAsset
asset_of s id = record {
  asset_type = map_hacker_one_asset_type s.asset_type id;
  identifier = id;
  in_scope = s.eligible_for_submission;
}

-- A scope without an identifier is skipped.
unfoldable pub assets_of : List H1Scope → List NewAsset
assets_of [] = []
assets_of (s ∷ scopes) =
    let rest = assets_of scopes in
    let id = trim_space s.asset_identifier in if is_empty id then rest else asset_of s id ∷ rest

abbrev and_then : List NewAsset → Result (List NewAsset) → Result (List NewAsset)
and_then assets (ok more) = ok (assets ++ more)
and_then assets (err e) = err e

-- What one page adds, and the pages after it unless it is empty or the last one.
abbrev page_result : H1StructuredScopes → Result (List NewAsset) → Result (List NewAsset)
page_result page rest = elim (page.scopes) [
  | [] ↦ ok []
  | s ∷ scopes ↦
      if is_empty page.next
      then ok (assets_of (s ∷ scopes))
      else and_then (assets_of (s ∷ scopes)) rest
]

-- The loop over the pages: so many are left, and this is the next one.
unfoldable pub fetch_pages : (ℕ → Result H1StructuredScopes) → ℕ → ℕ → Result (List NewAsset)
fetch_pages get zero page = ok []
fetch_pages get (suc left) page =
    let rest = fetch_pages get left (page + 1) in
    elim (get page) [ err e ↦ err e | ok scopes ↦ page_result scopes rest ]

policy_of : HackerOne → Str → H1Program → Result (List NewAsset) → Result ProgramPolicy
policy_of api handle program (err e) = err e
policy_of api handle program (ok assets) = ok (record {
  platform = codes "hackerone";
  handle = handle;
  name = program.name;
  policy_url = codes "https://hackerone.com/" ++ handle;
  safe_harbor = false;
  raw_policy = api.marshal_policy program.policy;
  assets = assets;
})

fetch_known : HackerOne → Str → Result H1Program → Result ProgramPolicy
unfolding policy_of fetch_pages
fetch_known api handle (err e) = err e
fetch_known api handle (ok program) =
    policy_of api handle program (fetch_pages (api.get_scopes handle) hacker_one_max_scope_pages 1)

-- Its errors are those that it wraps: the texts it puts before them, with the handle and the page, are
-- left out.
unfoldable pub fetch_program : HackerOne → Str → Result ProgramPolicy
unfolding fetch_known
fetch_program api raw =
    let handle = trim_space raw in
    if is_empty handle
    then err (policy_failure (codes "hackerone: empty handle"))
    else if is_empty api.username || is_empty api.token
    then err (policy_failure (codes "policy source unavailable"))
    else fetch_known api handle (api.get_program handle)
