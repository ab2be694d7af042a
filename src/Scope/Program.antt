-- ===== src/Scope/Program.antt =====
-- The bug-bounty mode of internal/service/scope_service.go: programHandle, programAssetMatches,
-- urlHost and programVerdict.
pub mod Laws
use target_service.Prelude.{
  ℕ, zero, suc, ◌+◌, ◌-◌, ◌*◌, ◌≡◌, refl, Bool, true, false, not, ◌&&◌, ◌||◌, Option, none, some,
  List, [], ◌∷◌, leb, ltb, ◌==◌, if◌then◌else◌, length, drop, take, any, find,
}
use target_service.Text.{
  Str, codes, str_eq, to_lower, trim_space, trim_prefix, index, index_func, contains, last_index,
  has_prefix,
}
use target_service.Net.{Ip, IpNet, parse_ip, parse_cidr}
use target_service.Net
use target_service.Model.{
  Time, second, hour, Method, program, Authorization, Evidence, BugbountyProgram, active, paused,
  ProgramStatus, ProgramAsset, ProgramAssetType,
}
use target_service.Scope.Response.{
  ScopeCheckResponse, deny_result, allow_result, policy_missing, program_inactive, policy_stale,
  excluded_asset, no_asset, automation_forbidden, phase_prohibited, program_allowed,
}
use target_service.Scope.Domain.{host_under}
use target_service.Scope.Technique.{prohibited_phase_technique, is_empty}

abbrev pub default_program_stale_window : Time
default_program_stale_window = 7 * 24 * hour

abbrev is_program : Method → Bool
is_program program = true
is_program _ = false

abbrev or_empty : Option Str → Str
or_empty none = []
or_empty (some s) = s

handle_of : Evidence → Option (Str × Str)
handle_of ev =
    let h = trim_space (or_empty (ev.handle)) in
    if is_empty h then none else some (trim_space (or_empty (ev.platform)), h)

abbrev bind_evidence : Option Evidence → Option (Str × Str)
bind_evidence none = none
bind_evidence (some ev) = handle_of ev

-- The (platform, handle) link of a program-mode authorization; `none` is ok = false.
unfoldable pub program_handle : Authorization → Option (Str × Str)
unfolding handle_of
program_handle auth = if is_program auth.method then bind_evidence auth.evidence else none

after_scheme : Str → Str
after_scheme id = elim (index id (codes "://")) [ none ↦ id | some i ↦ drop (i + 3) id ]

abbrev ends_host : ℕ → Bool
ends_host c = c == b'/' || c == b'?' || c == b'#'

before_path : Str → Str
before_path id = elim (index_func ends_host id) [ none ↦ id | some i ↦ take i id ]

after_userinfo : Str → Str
after_userinfo id = elim (index id (codes "@")) [ none ↦ id | some i ↦ drop (i + 1) id ]

-- net.SplitHostPort: the host before the last colon, at `i`; `none` is an error. In brackets, the
-- first "]" stands right before that colon.
split_bracketed : ℕ → Str → Option Str
split_bracketed i s = elim (index s (codes "]")) [
  | none ↦ none
  | some e ↦
      if e + 1 == i
        && not (contains (drop 1 s) (codes "["))
        && not (contains (drop (e + 1) s) (codes "]"))
      then some (take (e - 1) (drop 1 s))
      else none
]

split_plain : ℕ → Str → Option Str
split_plain i s =
    let host = take i s in
    if contains host (codes ":") || contains s (codes "[") || contains s (codes "]")
    then none
    else some host

split_host_port : Str → Option Str
unfolding split_bracketed split_plain
split_host_port s = elim (last_index b':' s) [
  | none ↦ none
  | some i ↦ if has_prefix s (codes "[") then split_bracketed i s else split_plain i s
]

strip_port : Str → Str
unfolding split_host_port
strip_port id = elim (split_host_port id) [ some h ↦ h | none ↦ id ]

-- The host of a URL that may have a scheme, a path, a user or a port.
unfoldable pub url_host : Str → Str
unfolding after_scheme before_path after_userinfo strip_port
url_host id = strip_port (after_userinfo (before_path (after_scheme id)))

in_cidr : Option Ip → Option IpNet → Bool
in_cidr (some ip) (some network) = Net.contains network ip
in_cidr _ _ = false

matches : ProgramAssetType → Str → Str → Str → Bool
unfolding in_cidr
matches ProgramAssetType.domain id host ip = not (is_empty host) && str_eq host id
matches ProgramAssetType.wildcard id host ip =
    let base = trim_prefix id (codes "*.") in not (is_empty host) && host_under host base
matches ProgramAssetType.url id host ip = not (is_empty host) && str_eq host (url_host id)
matches ProgramAssetType.ip id host ip = not (is_empty ip) && str_eq ip id
matches ProgramAssetType.cidr id host ip =
    not (is_empty ip) && in_cidr (parse_ip ip) (parse_cidr id)
matches ProgramAssetType.other id host ip = not (is_empty host) && str_eq host id

unfoldable pub program_asset_matches : ProgramAsset → Str → Str → Bool
unfolding matches
program_asset_matches a host ip = matches a.asset_type (to_lower (trim_space a.identifier)) host ip

unfoldable pub stale_window : BugbountyProgram → Time
stale_window p =
    if ltb 0 p.stale_after_seconds
    then p.stale_after_seconds * second
    else default_program_stale_window

-- `synced_at` is the zero time, or further back than the window. A time in the future has a
-- negative age, which no window is below.
unfoldable pub is_stale : BugbountyProgram → Time → Bool
is_stale p now = p.synced_at == 0 || ltb (stale_window p) (now - p.synced_at)

abbrev pub is_active : ProgramStatus → Bool
is_active active = true
is_active paused = false

abbrev pub is_excluded : Str → Str → ProgramAsset → Bool
is_excluded host ip a = not a.in_scope && program_asset_matches a host ip

abbrev pub is_included : Str → Str → ProgramAsset → Bool
is_included host ip a = a.in_scope && program_asset_matches a host ip

-- What is left to decide once some asset includes the host and none excludes it.
rules_verdict : BugbountyProgram → Str → ScopeCheckResponse
rules_verdict p phase =
    if not p.automation_allowed
    then deny_result (automation_forbidden p.platform p.handle)
    else elim (prohibited_phase_technique phase p.prohibited_techniques) [
      | some tech ↦ deny_result (phase_prohibited phase tech p.platform p.handle)
      | none ↦ allow_result (program_allowed p.platform p.handle phase)
    ]

assets_verdict : BugbountyProgram → List ProgramAsset → Str → Str → Str → ScopeCheckResponse
unfolding rules_verdict
assets_verdict p assets host ip phase = elim (find (is_excluded host ip) assets) [
  | some a ↦ deny_result (excluded_asset a.identifier p.platform p.handle)
  | none ↦
      if any (is_included host ip) assets
      then rules_verdict p phase
      else deny_result (no_asset p.platform p.handle)
]

policy_verdict : BugbountyProgram → List ProgramAsset → Str → Str → Str → Time → ScopeCheckResponse
unfolding assets_verdict
policy_verdict p assets host ip phase now =
    if not (is_active p.status)
    then deny_result (program_inactive p.platform p.handle p.status)
    else if is_stale p now
    then deny_result (policy_stale p.platform p.handle p.synced_at (stale_window p))
    else assets_verdict p assets (to_lower (trim_space host)) (trim_space ip) phase

unfoldable pub program_verdict :
    Option BugbountyProgram → List ProgramAsset → Str → Str → Str → Time → ScopeCheckResponse
unfolding policy_verdict
program_verdict none assets host ip phase now = deny_result policy_missing
program_verdict (some p) assets host ip phase now = policy_verdict p assets host ip phase now
