-- ===== src/Scope/Gate/Grants.antt =====
-- What lets one authorization grant a request.
use mathlib.Core.Logic.{◌≢◌}
use mathlib.Core.Path.{subst}
use target_service.Prelude.{
  ◌≡◌, refl, ap, inl, inr, true, Option, none, some, List, [], arith, Bool-cases, find,
}
use target_service.Text.{Str, to_lower}
use target_service.Text.Laws.{str_eq_iff}
use target_service.Net.{Ip, IpNet, parse_ip, parse_cidr}
use target_service.Net
use target_service.Model.{
  Time, Authorization, BugbountyProgram, ProgramAsset, ScopeKind, registrable_domain, ip_range,
}
use target_service.Store.{Result, ok, err, Db, World}
use target_service.Store.Listing.{Collation}
use target_service.Store.Programs
use target_service.Store.Programs.{same_program}
use target_service.Store.Reads.{
  Same, Same-refl, Same-trans, get_by_platform_handle-Same, Same-refl, Same-trans,
  get_by_platform_handle-ok, list_assets-Same, list_assets-ok,
}
use target_service.Service.Env.{Env}
use target_service.Scope.Response.{Reason}
use target_service.Scope.Domain.{is_subdomain_of_iff, IsUnder}
use target_service.Scope.Program.{program_handle, program_verdict}
use target_service.Scope.Gate.{
  in_range, ip_grant, domain_grant, grant_by_kind, client_grant, Linked, load_program,
  resolve_handle, resolve_program_auth, linked_assets,
}

-- The scope of a client authorization covers the query.
pub data InScope (env : Env) (scope_value : Str) (host ip : Str) : ScopeKind → Type 0 where
  by_domain :
      host ≢ []
      → IsUnder (to_lower host) (to_lower scope_value)
      → InScope env scope_value host ip registrable_domain
  by_network :
      (a : Ip) (net : IpNet)
      → env.ip_targets_enabled ≡ true
      → parse_ip ip ≡ some a
      → parse_cidr scope_value ≡ some net
      → Net.contains net a ≡ true
      → InScope env scope_value host ip ip_range
  by_address :
      env.ip_targets_enabled ≡ true
      → ip ≢ []
      → scope_value ≡ ip
      → InScope env scope_value host ip ip_range

in_range_sound :
    (a : Option Ip) (n : Option IpNet)
    → in_range a n ≡ true
    → (x : Ip) × (net : IpNet) × (a ≡ some x) × (n ≡ some net) × (Net.contains net x ≡ true)
unfolding in_range
in_range_sound none n h = cc
in_range_sound (some a) none h = cc
in_range_sound (some a) (some n) h = (a, n, refl, refl, h)

ip_grant_sound :
    (env : Env) (auth : Authorization) (host ip : Str) {reason : Reason}
    → ip_grant env auth ip ≡ some reason
    → InScope env auth.scope_value host ip ip_range
unfolding ip_grant
ip_grant_sound env auth host ip h =
    elim (Bool-cases (in_range (parse_ip ip) (parse_cidr auth.scope_value))) [
      | inl e ↦
          let (a, net, p, q, c) = in_range_sound (parse_ip ip) (parse_cidr auth.scope_value) e in
          by_network a net (ground arith) p q c
      | inr e ↦
          by_address (ground arith) (ground arith)
            ((str_eq_iff auth.scope_value ip).0 (ground arith))
    ]

domain_grant_sound :
    (env : Env) (auth : Authorization) (host ip : Str) {reason : Reason}
    → domain_grant auth host ≡ some reason
    → InScope env auth.scope_value host ip registrable_domain
unfolding domain_grant
domain_grant_sound env auth host ip h =
    by_domain (ground arith) ((is_subdomain_of_iff host auth.scope_value).0 (ground arith))

grant_by_kind_sound :
    (kind : ScopeKind) (env : Env) (auth : Authorization) (host ip : Str) {reason : Reason}
    → grant_by_kind kind env auth host ip ≡ some reason
    → InScope env auth.scope_value host ip kind
unfolding grant_by_kind
grant_by_kind_sound registrable_domain env auth host ip h = domain_grant_sound env auth host ip h
grant_by_kind_sound ip_range env auth host ip h = ip_grant_sound env auth host ip h

-- An authorization that links to no program grants a query only if its scope covers it: the host is
-- the scope's domain or under it, or, while address targets are enabled, the address is the scope's
-- or in its network.
pub client_grant_sound :
    (env : Env) (auth : Authorization) (host ip : Str) {reason : Reason}
    → client_grant env auth host ip ≡ some reason
    → InScope env auth.scope_value host ip auth.scope_kind
unfolding client_grant
client_grant_sound env auth host ip h = grant_by_kind_sound auth.scope_kind env auth host ip h

-- How an authorization grants a query: by its own scope if it links to no program, and by the stored
-- policy and the stored assets of the program that it links to otherwise.
pub data Grants (env : Env) (db : Db) (now : Time) (host ip phase : Str) (auth : Authorization)
    : Type 0 where
  by_scope :
      program_handle auth ≡ none
      → InScope env auth.scope_value host ip auth.scope_kind
      → Grants env db now host ip phase auth
  by_program :
      (platform handle : Str) (p : BugbountyProgram)
      → program_handle auth ≡ some (platform, handle)
      → find (same_program platform handle) db.programs ≡ some p
      → (program_verdict
          (some p)
          (Programs.assets_of env.collate p.id db.program_assets)
          host
          ip
          phase
          now).authorized
        ≡ true
      → Grants env db now host ip phase auth

-- A linked authorization names a program; a policy that comes back is that program's, with its assets.
pub data IsLink (collate : Collation) (db : Db) (auth : Authorization) : Linked → Type 0 where
  no_link : program_handle auth ≡ none → IsLink collate db auth none
  no_policy : {assets : List ProgramAsset} → IsLink collate db auth (some (none, assets))
  policy :
      (platform handle : Str) {p : BugbountyProgram} {assets : List ProgramAsset}
      → program_handle auth ≡ some (platform, handle)
      → find (same_program platform handle) db.programs ≡ some p
      → assets ≡ Programs.assets_of collate p.id db.program_assets
      → IsLink collate db auth (some (some p, assets))

load_program-Same :
    (collate : Collation) (r : Result BugbountyProgram) (w : World)
    → Same w (load_program collate r w).1
unfolding load_program
load_program-Same collate (err e) w = Same-refl w
load_program-Same collate (ok p) w = list_assets-Same collate p.id w

resolve_handle-Same :
    (collate : Collation) (link : Option (Str × Str)) (w : World)
    → Same w (resolve_handle collate link w).1
unfolding resolve_handle
resolve_handle-Same collate none w = Same-refl w
resolve_handle-Same collate (some (platform, handle)) w =
    Same-trans (get_by_platform_handle-Same platform handle w) (load_program-Same collate _ _)

-- Loading gives a policy only of a program that was found, with its assets.
data IsLoaded (collate : Collation) (rows : List ProgramAsset) (r : Result BugbountyProgram)
    : Linked → Type 0 where
  missing : {assets : List ProgramAsset} → IsLoaded collate rows r (some (none, assets))
  loaded :
      {p : BugbountyProgram} {assets : List ProgramAsset}
      → r ≡ ok p
      → assets ≡ Programs.assets_of collate p.id rows
      → IsLoaded collate rows r (some (some p, assets))

linked_assets_sound :
    (collate : Collation) (rows : List ProgramAsset) (r : Result BugbountyProgram)
    (p : BugbountyProgram) (found : Result (List ProgramAsset))
    → r ≡ ok p
    → ((assets : List ProgramAsset)
        → found ≡ ok assets
        → assets ≡ Programs.assets_of collate p.id rows)
    → (l : Linked) × (linked_assets p found ≡ l) × IsLoaded collate rows r l
linked_assets_sound collate rows r p (ok assets) e a = (_, refl, loaded e (a assets refl))
linked_assets_sound collate rows r p (err _) e a = (_, refl, missing)

load_program_sound :
    (collate : Collation) (r : Result BugbountyProgram) (w : World)
    → (l : Linked) × ((load_program collate r w).0 ≡ ok l)
      × IsLoaded collate w.db.program_assets r l
unfolding load_program
load_program_sound collate (err e) w = (_, refl, missing)
load_program_sound collate (ok p) w =
    let (l, e, s) =
      linked_assets_sound collate w.db.program_assets (ok p) p
        (Programs.list_assets collate p.id w).0 refl (λ assets. list_assets-ok collate p.id w) in
    (l, ap ok e, s)

loaded-IsLink :
    (collate : Collation) (db : Db) (auth : Authorization) (platform handle : Str)
    (r : Result BugbountyProgram) {l : Linked}
    → program_handle auth ≡ some (platform, handle)
    → ((p : BugbountyProgram) → r ≡ ok p → find (same_program platform handle) db.programs ≡ some p)
    → IsLoaded collate db.program_assets r l
    → IsLink collate db auth l
loaded-IsLink collate db auth platform handle r e found missing = no_policy
loaded-IsLink collate db auth platform handle r e found (loaded q a) =
    policy platform handle e (found _ q) a

resolve_handle_sound :
    (collate : Collation) (auth : Authorization) (link : Option (Str × Str)) (w : World)
    → program_handle auth ≡ link
    → (l : Linked) × ((resolve_handle collate link w).0 ≡ ok l) × IsLink collate w.db auth l
unfolding resolve_handle
resolve_handle_sound collate auth none w e = (none, refl, no_link e)
resolve_handle_sound collate auth (some (platform, handle)) w e =
    let (l, q, s) =
      load_program_sound collate (Programs.get_by_platform_handle platform handle w).0
        (Programs.get_by_platform_handle platform handle w).1 in
    let same = get_by_platform_handle-Same platform handle w in
    (
      l,
      q,
      loaded-IsLink collate w.db auth platform handle _ e
          (λ p. get_by_platform_handle-ok platform handle w)
          (subst
            (λ db.
              IsLoaded collate db.program_assets
                (Programs.get_by_platform_handle platform handle w).0 l)
            same.db s),
    )

-- Resolving the program of an authorization never fails, changes nothing, and finds a policy only
-- through a link to a program of that platform and handle, with the assets of that program.
pub resolve_program_auth_sound :
    (collate : Collation) (auth : Authorization) (w : World)
    → (l : Linked) × ((resolve_program_auth collate auth w).0 ≡ ok l)
      × IsLink collate w.db auth l
      × Same w (resolve_program_auth collate auth w).1
unfolding resolve_program_auth
resolve_program_auth_sound collate auth w =
    let (l, e, s) = resolve_handle_sound collate auth (program_handle auth) w refl in
    (l, e, s, resolve_handle-Same collate (program_handle auth) w)
