-- ===== src/Tools/Website/Laws.antt =====
-- What the combined check answers, and what it says of each of its parts.
use mathlib.Core.List.{Memᴰ}
use target_service.Prelude.{ℕ, suc, ◌≡◌, ◌≢◌, ◌↔◌, Option, none, some, List, [], ◌∷◌, length}
use target_service.Tools.Headers.{pass, HeaderResult}
use target_service.Tools.Checker
use target_service.Tools.Checker.{SecurityHeadersResponse}
use target_service.Tools.Tls.Check
use target_service.Tools.Tls.Check.{Tls, TlsCheckResponse}
use target_service.Tools.Email
use target_service.Tools.Email.{EmailAuthResponse}
use target_service.Tools.Website.{HeaderItem, Note, no_headers, no_tls, WebsiteCheckResponse}

-- How many of the headers pass.
pub data Counts : List HeaderItem → ℕ → Type 0 where
  none_left : Counts [] 0
  passes :
      {i : HeaderItem} {is : List HeaderItem} {n : ℕ}
      → i.status ≡ pass
      → Counts is n
      → Counts (i ∷ is) (suc n)
  other :
      {i : HeaderItem} {is : List HeaderItem} {n : ℕ}
      → i.status ≢ pass
      → Counts is n
      → Counts (i ∷ is) n

abbrev item : HeaderResult → HeaderItem
item h = record { name = h.name; status = h.status }

-- What a note is there for.
pub data IsMissing (headers : Option SecurityHeadersResponse) (tls : Option TlsCheckResponse)
    : Note → Type 0 where
  headers_missing : headers ≡ none → IsMissing headers tls no_headers
  tls_missing : tls ≡ none → IsMissing headers tls no_tls

-- An answer with the results of the checks, a note for exactly the checks that are missing, and the headers of the check with the number of those that pass.
pub record IsAnswered (headers : Option SecurityHeadersResponse) (tls : Option TlsCheckResponse)
    (email : EmailAuthResponse) (r : Option WebsiteCheckResponse) : Type 0 where
  pub resp : WebsiteCheckResponse
  pub returned : r ≡ some resp
  pub headers_same : resp.headers_details ≡ headers
  pub tls_same : resp.tls_details ≡ tls
  pub email_same : resp.email_details ≡ some email
  pub noted : (n : Note) → Memᴰ n resp.notes ↔ IsMissing headers tls n
  pub present : Counts resp.headers.items resp.headers.present
  pub total : resp.headers.total ≡ length resp.headers.items
