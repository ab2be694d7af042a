-- ===== src/Handler/Tools/Janitor.antt =====
-- The janitor of internal/handler/tools_handler.go, and the buckets that it forgets.
use target_service.Prelude.{ℕ, ◌+◌, ◌*◌, ◌-◌, ◌≤◌, ◌≡◌, Bool, false, not, any, ltb, List, [], ◌∷◌}
use target_service.Text.{Str, str_eq}
use target_service.Model.{Time, hour}
use target_service.Handler.Tools.{
  tools_rate_per_hour, tools_limiter_idle_ttl, Limiter, IpLimiterEntry,
}

-- What the library documents of a bucket of a rate and a size: it keeps both, and once the time
-- since its last use is enough for the rate to fill the size, it is full again and answers as a new
-- one does. `Used rate burst l t`: l is such a bucket, and was not used after t.
pub record IsRefilling {L : Type 0} (lim : Limiter L) (Used : ℕ → ℕ → L → Time → Type 0)
    : Type 0 where
  pub new-Used : (rate burst : ℕ) (t : Time) → Used rate burst (lim.new_limiter rate burst) t
  pub reserve-Used :
      (rate burst : ℕ) (t now : Time) (l : L)
      → Used rate burst l t
      → Used rate burst (lim.reserve now l).1 now
  pub cancel-Used :
      (rate burst : ℕ) (now : Time) (l : L)
      → Used rate burst l now
      → Used rate burst (lim.cancel now l) now
  pub idle :
      (rate burst : ℕ) (l : L) (t now : Time)
      → Used rate burst l t
      → burst * hour ≤ rate * (now - t)
      → lim.reserve now l ≡ lim.reserve now (lim.new_limiter rate burst)

module _ {L : Type 0} (lim : Limiter L) (Used : ℕ → ℕ → L → Time → Type 0) where
  -- A bucket of the handler that was not used after this time.
  abbrev IsUsed : L → Time → Type 0
  IsUsed l t = Used tools_rate_per_hour tools_rate_per_hour l t

  abbrev has_ip : Str → List (IpLimiterEntry L) → Bool
  has_ip ip es = any (λ e. str_eq e.ip ip) es

  -- One entry for an address, used when it was seen last.
  abbrev IsClean : List (IpLimiterEntry L) → Type 0
  IsClean [] = Unit
  IsClean (e ∷ es) = IsUsed e.limiter e.last_seen × (has_ip e.ip es ≡ false) × IsClean es

  module _ (r : IsRefilling lim Used) where
    abbrev is_kept : Time → IpLimiterEntry L → Bool
    is_kept now e = not (ltb (e.last_seen + tools_limiter_idle_ttl) now)
