-- ===== src/Scope/Program/Laws.antt =====
-- When the bug-bounty mode allows a request, and what a scope asset covers.
use mathlib.Core.List.{Memᴰ}
use mathlib.Core.Logic.{◌≢◌}
use mathlib.Core.Path.{subst}
use mathlib.Core.Option.{some-injective}
use target_service.Prelude.{
  ◌-◌, ◌≤◌, ◌≡◌, refl, sym, ◌↔◌, inl, inr, true, false, not, ◌&&◌, Option, none, some, List, [],
  arith, Option-cases, any_iff, find-none, find_complete, Exists,
}
use target_service.Text.{Str, codes, str_eq, to_lower, trim_space, trim_prefix}
use target_service.Text.Laws.{str_eq_iff}
use target_service.Net.{Ip, IpNet, parse_ip, parse_cidr}
use target_service.Net
use target_service.Model.{Time, BugbountyProgram, ProgramAsset, ProgramAssetType, active}
use target_service.Scope.Response.{deny_result, allow_result}
use target_service.Scope.Domain.{host_under_iff, IsUnder}
use target_service.Scope.Technique.{
  is_empty, prohibited_phase_technique, prohibited_phase_technique_iff, Forbids, phase_technique,
}
use target_service.Scope.Program.{
  url_host, matches, in_cidr, program_asset_matches, stale_window, is_stale, is_excluded,
  is_included, policy_verdict, program_verdict,
}

-- What an asset of each type covers, its identifier taken in lower case and without space around.
abbrev pub Covers : ProgramAssetType → Str → Str → Str → Type 0
Covers ProgramAssetType.domain id host ip = (host ≢ []) × (host ≡ id)
Covers ProgramAssetType.wildcard id host ip =
    (host ≢ []) × IsUnder host (trim_prefix id (codes "*."))
Covers ProgramAssetType.url id host ip = (host ≢ []) × (host ≡ url_host id)
Covers ProgramAssetType.ip id host ip = (ip ≢ []) × (ip ≡ id)
Covers ProgramAssetType.cidr id host ip =
    (ip ≢ [])
    × ((a : Ip) × (net : IpNet) × (parse_ip ip ≡ some a)
        × (parse_cidr id ≡ some net)
        × (Net.contains net a ≡ true))
Covers ProgramAssetType.other id host ip = (host ≢ []) × (host ≡ id)

equal_host :
    (host id : Str) → ((not (is_empty host) && str_eq host id) ≡ true) ↔ ((host ≢ []) × (host ≡ id))
equal_host host id = (
  λ h. (ground arith, (str_eq_iff host id).0 (ground arith)),
  λ (n, e). let q = (str_eq_iff host id).1 e in ground arith,
)

in_cidr_iff :
    (a : Option Ip) (n : Option IpNet)
    → (in_cidr a n ≡ true)
      ↔ ((x : Ip) × (net : IpNet) × (a ≡ some x) × (n ≡ some net) × (Net.contains net x ≡ true))
unfolding in_cidr
in_cidr_iff none n = (λ h. cc, λ (x, net, e, f, g). cc)
in_cidr_iff (some a) none = (λ h. cc, λ (x, net, e, f, g). cc)
in_cidr_iff (some a) (some n) = (λ h. (a, n, refl, refl, h), λ (x, net, e, f, g). ground arith)

-- An asset matches a host and an address exactly when it covers them: a domain its own host, a
-- wildcard its base and all under it, a URL its host, an address itself, a network its addresses.
pub program_asset_matches_iff :
    (a : ProgramAsset) (host ip : Str)
    → (program_asset_matches a host ip ≡ true)
      ↔ Covers a.asset_type (to_lower (trim_space a.identifier)) host ip
unfolding program_asset_matches
program_asset_matches_iff a host ip = by_type a.asset_type (to_lower (trim_space a.identifier))
  where
    by_type :
        (t : ProgramAssetType) (id : Str) → (matches t id host ip ≡ true) ↔ Covers t id host ip
    by_type ProgramAssetType.domain id = equal_host host id
    by_type ProgramAssetType.wildcard id = (
      λ h. (ground arith, (host_under_iff host (trim_prefix id (codes "*."))).0 (ground arith)),
      λ (n, u). let q = (host_under_iff host (trim_prefix id (codes "*."))).1 u in ground arith,
    )
    by_type ProgramAssetType.url id = equal_host host (url_host id)
    by_type ProgramAssetType.ip id = equal_host ip id
    by_type ProgramAssetType.cidr id = (
      λ h. (ground arith, (in_cidr_iff (parse_ip ip) (parse_cidr id)).0 (ground arith)),
      λ (n, c). let q = (in_cidr_iff (parse_ip ip) (parse_cidr id)).1 c in ground arith,
    )
    by_type ProgramAssetType.other id = equal_host host id

-- The conditions of the bug-bounty mode.
pub record IsPermitted (p : BugbountyProgram) (assets : List ProgramAsset) (host ip phase : Str)
    (now : Time) : Type 0 where
  pub is_live : p.status ≡ active
  pub synced : p.synced_at ≢ 0
  pub fresh : now - p.synced_at ≤ stale_window p
  pub included : Exists (is_included host ip) assets
  pub not_excluded : (a : ProgramAsset) → Memᴰ a assets → is_excluded host ip a ≡ false
  pub automation : p.automation_allowed ≡ true
  pub not_prohibited : ¬ Forbids p.prohibited_techniques phase

not_forbidden :
    (phase : Str) (prohibited : List Str)
    → (prohibited_phase_technique phase prohibited ≡ none) ↔ (¬ Forbids prohibited phase)
not_forbidden phase prohibited = (
  λ h f.
      let e =
        (prohibited_phase_technique_iff phase prohibited (phase_technique phase)).1 (f, refl) in
      ground arith,
  λ h. elim (Option-cases (prohibited_phase_technique phase prohibited)) [
    | inl e ↦ e
    | inr (t, e) ↦ absurd (h ((prohibited_phase_technique_iff phase prohibited t).0 e).0)
  ],
)

module _ (p : BugbountyProgram) (assets : List ProgramAsset) (host ip phase : Str)
    (now : Time) where
  abbrev h' : Str
  h' = to_lower (trim_space host)

  abbrev ip' : Str
  ip' = trim_space ip

  IsPermitted-sound :
      (policy_verdict p assets host ip phase now).authorized ≡ true
      → IsPermitted p assets h' ip' phase now
  unfolding policy_verdict is_stale deny_result allow_result
  IsPermitted-sound h = record {
    is_live = ground arith;
    synced = ground arith;
    fresh = ground arith;
    included = (any_iff (is_included h' ip') assets).0 (ground arith);
    not_excluded = λ a m. find-none (is_excluded h' ip') assets (ground arith) m;
    automation = ground arith;
    not_prohibited = (not_forbidden phase p.prohibited_techniques).0 (ground arith);
  }

  IsPermitted-complete :
      IsPermitted p assets h' ip' phase now
      → (policy_verdict p assets host ip phase now).authorized ≡ true
  unfolding policy_verdict is_stale deny_result allow_result
  IsPermitted-complete r =
      let i = (any_iff (is_included h' ip') assets).1 r.included in
      let e = find_complete (is_excluded h' ip') assets r.not_excluded in
      let n = (not_forbidden phase p.prohibited_techniques).1 r.not_prohibited in ground arith

-- The bug-bounty mode allows a request exactly when the program's policy is there, active, synced
-- within its window, some asset includes the host or the address and none excludes it, automation
-- is permitted and no prohibited technique is the one that the phase performs.
pub program_verdict-authorized_iff :
    (program : Option BugbountyProgram) (assets : List ProgramAsset) (host ip phase : Str)
    (now : Time)
    → ((program_verdict program assets host ip phase now).authorized ≡ true) ↔ (
        (p : BugbountyProgram) × (program ≡ some p)
        × IsPermitted p assets (to_lower (trim_space host)) (trim_space ip) phase now)
unfolding program_verdict deny_result
program_verdict-authorized_iff none assets host ip phase now = (λ h. cc, λ (p, e, r). cc)
program_verdict-authorized_iff (some p) assets host ip phase now = (
  λ h. (p, refl, IsPermitted-sound p assets host ip phase now h),
  λ (q, e, r). IsPermitted-complete p assets host ip phase now (
      subst (λ x. IsPermitted x assets (to_lower (trim_space host)) (trim_space ip) phase now)
        (sym (some-injective p q e)) r),
)
