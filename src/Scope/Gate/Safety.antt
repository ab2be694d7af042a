-- ===== src/Scope/Gate/Safety.antt =====
-- The addresses that an authorized response pins, and the hard switch for addresses.
use mathlib.Core.List.{Memᴰ}
use mathlib.Core.Logic.{◌≢◌}
use mathlib.Core.Path.{subst}
use target_service.Prelude.{
  ◌≡◌, sym, Bool, true, false, ◌&&◌, ◌⊎◌, inl, inr, List, [], ◌∷◌, ◌++◌, arith, Bool-cases,
}
use target_service.Text.{Str}
use target_service.Net.{Ip}
use target_service.Model.{ScopeCheckRequest, is_intrusive, is_network_layer}
use target_service.Store.{ok, World}
use target_service.Service.Env.{Env}
use target_service.Scope.Response.{ScopeCheckResponse}
use target_service.Scope.SharedInfra.{is_shared_infra}
use target_service.Scope.Gate.{check_scope}
use target_service.Scope.Gate.Pins.{
  IsStrict, PinsAddress, no_address, address, PinsHost, no_host, host,
}
use target_service.Scope.Gate.Laws.{query_host, query_ip, check_scope_sound}

mem-append {ℓ} :
    {A : Type ℓ} {x : A} (xs : List A) {ys : List A} → Memᴰ x (xs ++ ys) → Memᴰ x xs ⊎ Memᴰ x ys
mem-append [] m = inr m
mem-append (y ∷ xs) (Memᴰ.head e) = inl (Memᴰ.head e)
mem-append (y ∷ xs) (Memᴰ.tail m) = elim (mem-append xs m) [
  | inl l ↦ inl (Memᴰ.tail l)
  | inr r ↦ inr r
]

module _ (env : Env) (req : ScopeCheckRequest) (P : Ip → Type 0) where
  -- What holds of the queried address and of every answer holds of every pinned address.
  address_pins :
      (intrusive : Bool) (q : Str) {ips : List Ip} {ip : Ip}
      → PinsAddress env intrusive q ips
      → ((a : Ip) → env.is_denied_ip a ≡ false → (intrusive && is_shared_infra a) ≡ false → P a)
      → Memᴰ ip ips
      → P ip
  address_pins intrusive q (no_address e f) h m = elim (subst (Memᴰ _) f m) [ ]
  address_pins intrusive q (address a e d s i f) h m = only (subst (Memᴰ _) f m)
    where
      only : {ip : Ip} → Memᴰ ip (a ∷ []) → P ip
      only (Memᴰ.head p) = subst P (sym p) (h a d s)
      only (Memᴰ.tail m) = elim m [ ]

  host_pins :
      (d : Bool) (q : Str) {so_far ips : List Ip} {ip : Ip}
      → IsStrict env
      → PinsHost env d q so_far ips
      → (Memᴰ ip so_far → P ip)
      → ((a : Ip) → env.is_denied_ip a ≡ false → (d && is_shared_infra a) ≡ false → P a)
      → Memᴰ ip ips
      → P ip
  host_pins d q strict (no_host e f) earlier h m = earlier (subst (Memᴰ _) f m)
  host_pins d q {so_far} {ip} strict (host answers e clean f) earlier h m =
      elim (mem-append so_far (subst (Memᴰ _) f m)) [
        | inl l ↦ earlier l
        | inr r ↦ h ip (strict q answers ip e r) (clean ip r)
      ]

-- An address that is not denied, and not shared infrastructure if the request is intrusive at the
-- network layer.
abbrev pub IsSafe : Env → ScopeCheckRequest → Ip → Type 0
IsSafe env req ip =
    (env.is_denied_ip ip ≡ false)
    × ((is_intrusive req && is_network_layer req && is_shared_infra ip) ≡ false)

-- If the resolver fails on any denied answer, every address that an authorized response pins is
-- one that the dial guard allows, and none is shared infrastructure when the request is intrusive
-- at the network layer.
pub check_scope_pins-IsSafe :
    (env : Env) (req : ScopeCheckRequest) (w : World) (r : ScopeCheckResponse) (ip : Ip)
    → IsStrict env
    → (check_scope env req w).0 ≡ ok r
    → r.authorized ≡ true
    → Memᴰ ip r.allowed_ips
    → IsSafe env req ip
check_scope_pins-IsSafe env req w r ip strict h t m =
    let a = check_scope_sound env req w r h t in
    host_pins env req (IsSafe env req) (is_intrusive req && is_network_layer req) (query_host req)
      strict a.pins.2
      (address_pins env req (IsSafe env req) (is_intrusive req) (query_ip req) a.pins.1
        (λ x d s. (d, ground arith)))
      (λ x d s. (d, s)) m

pins_no_address :
    (env : Env) (intrusive : Bool) (q : Str) {ips : List Ip}
    → env.ip_targets_enabled ≡ false
    → PinsAddress env intrusive q ips
    → q ≡ []
pins_no_address env intrusive q off (no_address e f) = e
pins_no_address env intrusive q off (address a e d s i f) = absurd (ground arith)

-- While address targets are disabled no query with an address is authorized, whatever the target,
-- its authorizations and the host that is queried beside it.
pub check_scope_refuses_ip :
    (env : Env) (req : ScopeCheckRequest) (w : World) (r : ScopeCheckResponse)
    → env.ip_targets_enabled ≡ false
    → query_ip req ≢ []
    → (check_scope env req w).0 ≡ ok r
    → r.authorized ≡ false
check_scope_refuses_ip env req w r off asked h = elim (Bool-cases r.authorized) [
  | inr n ↦ n
  | inl t ↦
      let a = check_scope_sound env req w r h t in
      absurd (asked (pins_no_address env (is_intrusive req) (query_ip req) off a.pins.1))
]
