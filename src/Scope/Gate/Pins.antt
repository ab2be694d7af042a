-- ===== src/Scope/Gate/Pins.antt =====
-- The pinned addresses, and the vetting of the queried address and host.
use mathlib.Core.List.{Memᴰ}
use target_service.Prelude.{
  ◌≡◌, refl, inl, inr, Bool, true, false, ◌&&◌, some, List, [], ◌∷◌, ◌++◌, arith, Option-cases,
  find-none,
}
use target_service.Text.{Str}
use target_service.Net.{Ip, parse_ip}
use target_service.Model.{ScopeCheckRequest, is_intrusive, is_network_layer}
use target_service.Service.Env.{Env, Resolution, resolved, denied_address, lookup_failed}
use target_service.Scope.SharedInfra.{is_shared_infra}
use target_service.Scope.Gate.{
  Vetting, refused, pinned, vet_ip, vet_answers, vet_host, vet, then_host,
}

-- ResolveStrict fails when any answer is a denied address: what it resolves to holds none.
abbrev pub IsStrict : Env → Type 0
IsStrict env =
    (host : Str) (ips : List Ip) (ip : Ip)
    → env.resolve_strict host ≡ resolved ips
    → Memᴰ ip ips
    → env.is_denied_ip ip ≡ false

-- The pinned addresses of an IP query: none, or the one address queried, which is public.
pub data PinsAddress (env : Env) (intrusive : Bool) (query_ip : Str) : List Ip → Type 0 where
  no_address : {ips : List Ip} → query_ip ≡ [] → ips ≡ [] → PinsAddress env intrusive query_ip ips
  address :
      {ips : List Ip} (ip : Ip)
      → parse_ip query_ip ≡ some ip
      → env.is_denied_ip ip ≡ false
      → (intrusive && is_shared_infra ip) ≡ false
      → env.ip_targets_enabled ≡ true
      → ips ≡ ip ∷ []
      → PinsAddress env intrusive query_ip ips

-- The pinned addresses of a host query: those so far, then every answer of the resolver.
pub data PinsHost (env : Env) (shared_infra_denied : Bool) (query_host : Str) (so_far : List Ip)
    : List Ip → Type 0 where
  no_host :
      {ips : List Ip}
      → query_host ≡ []
      → ips ≡ so_far
      → PinsHost env shared_infra_denied query_host so_far ips
  host :
      {ips : List Ip} (answers : List Ip)
      → env.resolve_strict query_host ≡ resolved answers
      → ((ip : Ip) → Memᴰ ip answers → (shared_infra_denied && is_shared_infra ip) ≡ false)
      → ips ≡ so_far ++ answers
      → PinsHost env shared_infra_denied query_host so_far ips

vet_ip_sound :
    (env : Env) (intrusive : Bool) (query_ip : Str) {ips : List Ip}
    → vet_ip env intrusive query_ip ≡ pinned ips
    → PinsAddress env intrusive query_ip ips
unfolding vet_ip
vet_ip_sound env intrusive [] h = no_address refl (ground arith)
vet_ip_sound env intrusive (c ∷ s) h = elim (Option-cases (parse_ip (c ∷ s))) [
  | inl e ↦ absurd (ground arith)
  | inr (ip, e) ↦ address ip e (ground arith) (ground arith) (ground arith) (ground arith)
]

module _ (env : Env) (shared_infra_denied : Bool) (query_host : Str) (so_far : List Ip) where
  vet_answers_sound :
      (r : Resolution) {ips : List Ip}
      → env.resolve_strict query_host ≡ r
      → vet_answers shared_infra_denied query_host r so_far ≡ pinned ips
      → PinsHost env shared_infra_denied query_host so_far ips
  unfolding vet_answers
  vet_answers_sound (denied_address x) e h = cc
  vet_answers_sound (lookup_failed x) e h = cc
  vet_answers_sound (resolved answers) e h =
      host answers e
        (λ ip m.
          find-none (λ ip. shared_infra_denied && is_shared_infra ip) answers (ground arith) m)
        (ground arith)

vet_host_sound :
    (env : Env) (d : Bool) (query_host : Str) (so_far : List Ip) {ips : List Ip}
    → vet_host env d query_host so_far ≡ pinned ips
    → PinsHost env d query_host so_far ips
unfolding vet_host
vet_host_sound env d [] so_far h = no_host refl (ground arith)
vet_host_sound env d (c ∷ s) so_far h =
    vet_answers_sound env d (c ∷ s) so_far (env.resolve_strict (c ∷ s)) refl h

abbrev pub IsPinned : Env → ScopeCheckRequest → Str → Str → List Ip → Type 0
IsPinned env req query_host query_ip ips =
    (so_far : List Ip) × PinsAddress env (is_intrusive req) query_ip so_far
    × PinsHost env (is_intrusive req && is_network_layer req) query_host so_far ips

then_host_sound :
    (env : Env) (d : Bool) (query_host : Str) (v : Vetting) {ips : List Ip}
    → then_host env d query_host v ≡ pinned ips
    → (so_far : List Ip) × (v ≡ pinned so_far) × PinsHost env d query_host so_far ips
then_host_sound env d query_host (refused reason) h = cc
then_host_sound env d query_host (pinned so_far) h =
    (so_far, refl, vet_host_sound env d query_host so_far h)

-- A request that passes the vetting pins the queried address, which is public and allowed, and
-- every address that the host resolves to, of which none is shared infrastructure when the
-- request is intrusive at the network layer.
pub vet_sound :
    (env : Env) (req : ScopeCheckRequest) (query_host query_ip : Str) {ips : List Ip}
    → vet env req query_host query_ip ≡ pinned ips
    → IsPinned env req query_host query_ip ips
unfolding vet
vet_sound env req query_host query_ip h =
    let (so_far, e, p) =
      then_host_sound env (is_intrusive req && is_network_layer req) query_host
        (vet_ip env (is_intrusive req) query_ip) h in
    (so_far, vet_ip_sound env (is_intrusive req) query_ip e, p)
