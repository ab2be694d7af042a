-- ===== src/Service/Env.antt =====
-- What the service uses and does not implement: the public suffix list, DNS and HTTP, the dial
-- guard go-safedial, and the switch IPTargetsEnabled of internal/service/target_service.go.
use target_service.Prelude.{ℕ, Bool, Option, List}
use target_service.Text.{Str}
use target_service.Net.{Ip}

-- safedial.Resolver.ResolveStrict: the vetted answers, or one of its two kinds of error, with its text.
pub data Resolution : Type 0 where
  resolved : List Ip → Resolution
  denied_address lookup_failed : Str → Resolution

pub record Env : Type 0 where
  pub ip_targets_enabled : Bool
  -- publicsuffix.EffectiveTLDPlusOne; `none` is an error
  pub etld : Str → Option Str
  -- net.Resolver.LookupTXT; `none` is an error
  pub lookup_txt : Str → Option (List Str)
  -- GET by the client of safedial.NewVerificationHTTPClient: status and body; `none` is an error
  pub http_get : Str → Option (ℕ × Str)
  pub resolve_strict : Str → Resolution
  -- safedial.IsDeniedIP
  pub is_denied_ip : Ip → Bool
  -- ILIKE of the database, the pattern first, and its order of texts
  pub ilike : Str → Str → Bool
  pub collate : Str → Str → Bool
