-- ===== src/Client/Laws.antt =====
-- How old an answer of the clients can be.
use mathlib.Core.Path.{subst}
use target_service.Prelude.{
  ℕ, ◌+◌, ◌*◌, ◌≤◌, ◌≡◌, refl, ◌∙◌, ◌⊎◌, inl, inr, ℤ, Bool, true, false, Option, none, some, List,
  [], ◌∷◌, All, ltb, ◌==◌, Bool-cases, arith,
}
use target_service.Text.{Str, str_eq}
use target_service.Text.Laws.{str_eq_iff}
use target_service.Model.{Time, second}
use target_service.Client.{
  client_timeout, Entry, cached, store, keep, or_ask, cached_call, entitlements_ttl, ScanService,
  ask_entitlements, max_targets, plan_ttl, default_plan, ServiceService, fetch, resolve,
  or_default_plan, Calls, none_yet, called,
}

-- The value is what the other service answered about the key, no longer ago than that.
pub record IsRecent {K V : Type 0} (ask : Time → K → Option V) (age : Time) (k : K) (now : Time)
    (v : V) : Type 0 where
  pub told_at : Time
  pub told : ask told_at k ≡ some v
  pub age_bound : now ≤ told_at + age

module _ {K V : Type 0} (eq : K → K → Bool) (sound : (a b : K) → eq a b ≡ true → a ≡ b) (ttl : Time)
    (ask : Time → K → Option V) where
  -- An entry holds an answer, and expires in time.
  abbrev IsTold : Entry K V → Type 0
  IsTold e = (t : Time) × (ask t e.key ≡ some e.value) × (e.expires ≤ t + (client_timeout + ttl))

  store-IsTold :
      (k : K) (v : V) (expires : Time) (es : List (Entry K V))
      → IsTold (record { key = k; value = v; expires = expires })
      → All IsTold es
      → All IsTold (store eq k v expires es)
  unfolding store
  store-IsTold k v expires [] t a = (t, tt)
  store-IsTold k v expires (e ∷ es) t a = elim (Bool-cases (eq e.key k)) [
    | inl y ↦ rw (y, store) (t, a.1)
    | inr n ↦ rw (n, store) (a.0, store-IsTold k v expires es t a.1)
  ]

  keep-IsTold :
      (k : K) (asked done : Time) (r : Option V) (es : List (Entry K V))
      → ask asked k ≡ r
      → done ≤ asked + client_timeout
      → All IsTold es
      → All IsTold (keep eq ttl k done r es).1
  keep-IsTold k asked done none es e b a = a
  keep-IsTold k asked done (some v) es e b a =
      store-IsTold k v (done + ttl) es (asked, e, omega (arith, b)) a

  or_ask-IsTold :
      (k : K) (asked done : Time) (r : Option V) (es : List (Entry K V))
      → done ≤ asked + client_timeout
      → All IsTold es
      → All IsTold (or_ask eq ttl ask k asked done r es).1
  or_ask-IsTold k asked done (some v) es b a = a
  or_ask-IsTold k asked done none es b a = keep-IsTold k asked done (ask asked k) es refl b a

  Calls-IsTold : (es : List (Entry K V)) → Calls eq ttl ask es → All IsTold es
  unfolding cached_call
  Calls-IsTold _ none_yet = tt
  Calls-IsTold _ (called {es = es} k now asked done b c) =
      or_ask-IsTold k asked done (cached eq k now es) es b (Calls-IsTold es c)

  some-eq : {v w : V} → some v ≡ some w → v ≡ w
  some-eq h = cc

  cached-IsRecent :
      (k : K) (now : Time) (v : V) (es : List (Entry K V))
      → All IsTold es
      → cached eq k now es ≡ some v
      → IsRecent ask (client_timeout + ttl) k now v
  unfolding cached
  cached-IsRecent k now v [] a = λ h. absurd (ground arith)
  cached-IsRecent k now v (e ∷ es) a = elim (Bool-cases (eq e.key k)) [
    | inr n ↦ rw (n, cached) (cached-IsRecent k now v es a.1)
    | inl y ↦ elim (Bool-cases (ltb now e.expires)) [
      | inr l ↦ rw (y, cached, l) (λ h. absurd (ground arith))
      | inl l ↦
          rw (y, cached, l)
            (λ h.
              let (t, told, bound) = a.0 in
              record {
                told_at = t;
                told = subst (λ k. ask t k ≡ some v) (sound e.key k y) (told ∙ h);
                age_bound = ground (arith, bound);
              })
    ]
  ]

  -- The answer of a call that reads or asks.
  call-IsRecent :
      (k : K) (now asked done : Time) (v : V) (es : List (Entry K V))
      → Calls eq ttl ask es
      → now ≤ asked
      → (cached_call eq ttl ask k now asked done es).0 ≡ some v
      → IsRecent ask (client_timeout + ttl) k now v
  unfolding cached_call
  call-IsRecent k now asked done v es c l = by_cache (cached eq k now es) refl
    where
      asks :
          (r : Option V)
          → ask asked k ≡ r
          → (keep eq ttl k done r es).0 ≡ some v
          → IsRecent ask (client_timeout + ttl) k now v
      asks none e h = absurd (ground arith)
      asks (some w) e h = record { told_at = asked; told = e ∙ h; age_bound = omega (arith, l) }

      by_cache :
          (r : Option V)
          → cached eq k now es ≡ r
          → (or_ask eq ttl ask k asked done r es).0 ≡ some v
          → IsRecent ask (client_timeout + ttl) k now v
      by_cache (some w) e h = cached-IsRecent k now v es (Calls-IsTold es c) (e ∙ h)
      by_cache none e h = asks (ask asked k) refl h

-- Whatever calls came before, the limit that MaxTargets returns is one that scan-service told for
-- the plan at most 63 seconds before the call began.
pub max_targets-IsRecent :
    (scan_service : ScanService) (plan : Str) (now asked done : Time) (n : ℤ)
    (es : List (Entry Str ℤ))
    → Calls str_eq entitlements_ttl (ask_entitlements scan_service) es
    → now ≤ asked
    → (max_targets scan_service plan now asked done es).0 ≡ some n
    → IsRecent (ask_entitlements scan_service) (63 * second) plan now n
unfolding max_targets
max_targets-IsRecent scan_service plan now asked done n es c l h =
    call-IsRecent str_eq (λ a b h. (str_eq_iff a b).0 h) entitlements_ttl
      (ask_entitlements scan_service) plan now asked done n es c l h

-- Whatever calls came before, the plan that Resolve returns for a user is the default plan, or one
-- that service-service told at most 33 seconds before the call began.
pub resolve-IsRecent :
    (service_service : ServiceService) (has_url : Bool) (user_id : ℕ) (now asked done : Time)
    (es : List (Entry ℕ Str))
    → Calls (λ a b. a == b) plan_ttl (fetch service_service) es
    → now ≤ asked
    → ((resolve service_service has_url user_id now asked done es).0 ≡ default_plan)
      ⊎ IsRecent
          (fetch service_service)
          (33 * second)
          user_id
          now
          (resolve service_service has_url user_id now asked done es).0
unfolding resolve
resolve-IsRecent service_service false user_id now asked done es c l = inl refl
resolve-IsRecent service_service true user_id now asked done es c l =
    elim (Bool-cases (user_id == 0)) [
      | inl y ↦ rw (y, resolve) (inl refl)
      | inr n ↦
          rw (n, resolve)
            (by_answer
              (cached_call (λ a b. a == b) plan_ttl (fetch service_service) user_id now asked done
                es)
              (λ plan h.
                call-IsRecent (λ a b. a == b) (λ a b h. ground arith) plan_ttl
                  (fetch service_service) user_id now asked done plan es c l h))
    ]
  where
    by_answer :
        (x : Option Str × List (Entry ℕ Str))
        → ((plan : Str)
            → x.0 ≡ some plan
            → IsRecent (fetch service_service) (33 * second) user_id now plan)
        → ((or_default_plan x).0 ≡ default_plan)
          ⊎ IsRecent (fetch service_service) (33 * second) user_id now (or_default_plan x).0
    by_answer (none, fs) f = inl refl
    by_answer (some plan, fs) f = inr (f plan refl)
