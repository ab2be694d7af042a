-- ===== src/Handler/Tools/Laws.antt =====
-- The cap on checks in flight, and its release.
use target_service.Prelude.{
  ℕ, suc, zero, ◌-◌, ◌≤◌, ◌<◌, ◌≡◌, refl, ap, ◌∙◌, inl, inr, true, ltb, Bool-cases, Option, none,
  some, List, arith,
}
use target_service.Text.{Str}
use target_service.Model.{Time}
use target_service.Handler.Tools.{
  tools_global_concurrency, Limiter, IpLimiterEntry, ToolsState, admitted, allow, take_slot, guard,
  release, sweep, Steps, start, arrives, ends, sweeps, empty_state,
}

module _ {L : Type 0} (lim : Limiter L) where
  take_slot_bound :
      (retry : Option ℕ) (es : List (IpLimiterEntry L)) (n : ℕ)
      → n ≤ tools_global_concurrency
      → (take_slot lim retry es n).1.in_flight ≤ tools_global_concurrency
  take_slot_bound (some seconds) es n h = h
  take_slot_bound none es n h = elim (Bool-cases (ltb n tools_global_concurrency)) [
    | inl y ↦ rw y (ground arith)
    | inr m ↦ rw m h
  ]

  -- However requests come and end, no more than sixteen checks are in flight.
  pub in_flight_bound :
      (s : ToolsState L) → Steps lim (empty_state lim) s → s.in_flight ≤ tools_global_concurrency
  unfolding guard release sweep
  in_flight_bound _ start = omega arith
  in_flight_bound _ (arrives {t = t} ip now st) =
      take_slot_bound _ _ t.in_flight (in_flight_bound t st)
  in_flight_bound _ (ends {t = t} h st) = let b = in_flight_bound t st in omega (arith, b)
  in_flight_bound _ (sweeps {t = t} now st) = in_flight_bound t st

  take_slot-admitted :
      (retry : Option ℕ) (es : List (IpLimiterEntry L)) (n : ℕ)
      → retry ≡ none
      → n < tools_global_concurrency
      → (take_slot lim retry es n).0 ≡ admitted
  take_slot-admitted none es n h b =
      let y : ltb n tools_global_concurrency ≡ true = ground arith in rw y refl
  take_slot-admitted (some r) es n h b = absurd (ground arith)

  -- All checks that are in flight may end, one after another.
  drain :
      (first : ToolsState L) (n : ℕ) (s : ToolsState L)
      → Steps lim first s
      → s.in_flight ≡ n
      → (t : ToolsState L) × Steps lim first t × (t.in_flight ≡ 0) × (t.limiters ≡ s.limiters)
  unfolding release
  drain first zero s st e = (s, st, e, refl)
  drain first (suc n) s st e =
      let less : s.in_flight - 1 ≡ n = omega (arith, e) in
      drain first n (release lim s) (ends (omega (arith, e)) st) less

  -- A full semaphore does not stay so: from any state, steps lead to one with the same buckets in
  -- which the next request that is within its budget is admitted.
  pub guard_live :
      (s : ToolsState L) (ip : Str) (now : Time)
      → (allow lim ip now s.limiters).0 ≡ none
      → (t : ToolsState L) × Steps lim s t
        × (t.limiters ≡ s.limiters)
        × ((guard lim ip now t).0 ≡ admitted)
  unfolding guard
  guard_live s ip now h =
      let (t, steps, e, same) = drain s s.in_flight s start refl in
      (
        t,
        steps,
        same,
        take_slot-admitted _ _ t.in_flight (ap (λ es. (allow lim ip now es).0) same ∙ h)
            (omega (arith, e)),
      )
