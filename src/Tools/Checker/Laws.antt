-- ===== src/Tools/Checker/Laws.antt =====
-- The URLs that the checker of headers fetches, and what it grades.
use mathlib.Core.List.{Memᴰ}
use target_service.Prelude.{ℕ, ◌≤◌, ◌≡◌, ◌⊎◌, some, List, All, length}
use target_service.Text.{Str, codes}
use target_service.Tools.Checker.{
  Reply, Url, Web, registrable_domain_of, FetchError, Outcome, failed, fetched, Run, https_root,
  http_root,
}

-- A URL that the check of a domain may fetch: the root of the domain itself, or what a Location
-- resolves to over HTTP or HTTPS within the same registrable domain.
pub data IsAllowed (web : Web) (registrable : Str) (domain : Str) : Str → Type 0 where
  root : IsAllowed web registrable domain (https_root domain)
  plain_root : IsAllowed web registrable domain (http_root domain)
  redirected :
      {u : Url} (current location : Str)
      → web.resolve current location ≡ some u
      → (u.scheme ≡ codes "http") ⊎ (u.scheme ≡ codes "https")
      → registrable_domain_of web u.host ≡ registrable
      → IsAllowed web registrable domain u.text

-- An outcome that was fetched is the answer of the network to one of the requests.
pub data IsOutcome (web : Web) (urls : List Str) : Outcome → Type 0 where
  nothing : (e : FetchError) → IsOutcome web urls (failed e)
  answered :
      (url : Str) (reply : Reply)
      → Memᴰ url urls
      → web.get url ≡ some reply
      → IsOutcome web urls (fetched url reply)

pub record IsConfined (web : Web) (registrable domain : Str) (most : ℕ) (run : Run) : Type 0 where
  pub urls : All (IsAllowed web registrable domain) run.0
  pub bound : length run.0 ≤ most
  pub outcome : IsOutcome web run.0 run.1
