-- ===== src/Tools/Website.antt =====
-- internal/service/tools_service.go: the three checks together, and their summary.
pub mod Laws
use target_service.Prelude.{
  ℕ, suc, zero, ◌+◌, Bool, true, false, ◌&&◌, ◌||◌, Option, none, some, List, [], ◌∷◌, ◌++◌, ltb,
  length, map, if◌then◌else◌,
}
use target_service.Text.{Str}
use target_service.Model.{Time}
use target_service.Tools.Grade.{Grade}
use target_service.Tools.Headers.{Header, HeaderStatus, pass, warn, fail, HeaderResult}
use target_service.Tools.Checker
use target_service.Tools.Checker.{Web, SecurityHeadersResponse}
use target_service.Tools.Tls.Check
use target_service.Tools.Tls.Check.{Tls, Protocol, TlsCheckResponse}
use target_service.Tools.Email
use target_service.Tools.Email.{EmailAuthResponse}

pub record HeaderItem : Type 0 where
  pub name : Header
  pub status : HeaderStatus

pub record HeadersSummary : Type 0 where
  pub present : ℕ
  pub total : ℕ
  pub items : List HeaderItem

-- `none` stands for the grade "-", the version "unknown" and the expiry "unknown".
pub record TlsSummary : Type 0 where
  pub grade : Option Grade
  pub protocol : Option Protocol
  pub cert_expiry : Option Time

pub record EmailSummary : Type 0 where
  pub spf : Bool
  pub dmarc : Bool
  pub dmarc_policy : Str

-- A part of the summary, and a note, stand for their texts.
pub data Part : Type 0 where
  tls_grade : Grade → Part
  headers_present : ℕ → ℕ → Part
  both_configured partly_configured not_configured : Part

pub data Note : Type 0 where
  no_headers no_tls no_email : Note

pub record WebsiteCheckResponse : Type 0 where
  pub domain : Str
  pub tls : TlsSummary
  pub headers : HeadersSummary
  pub email_auth : EmailSummary
  pub parts : List Part
  pub notes : List Note
  pub headers_details : Option SecurityHeadersResponse
  pub tls_details : Option TlsCheckResponse
  pub email_details : Option EmailAuthResponse

abbrev is_pass : HeaderStatus → Bool
is_pass pass = true
is_pass warn = false
is_pass fail = false

unfoldable pub count_present : List HeaderResult → ℕ
count_present [] = 0
count_present (h ∷ hs) = let rest = count_present hs in if is_pass h.status then suc rest else rest

abbrev headers_summary : Option SecurityHeadersResponse → HeadersSummary
headers_summary none = record { present = 0; total = 0; items = [] }
headers_summary (some r) = record {
  present = count_present r.headers;
  total = length r.headers;
  items = map (λ h. record { name = h.name; status = h.status }) r.headers;
}

abbrev tls_summary : Option TlsCheckResponse → TlsSummary
tls_summary none = record { grade = none; protocol = none; cert_expiry = none }
tls_summary (some r) = record {
  grade = some r.grade;
  protocol = some r.protocol;
  cert_expiry = r.certificate.expires_at;
}

abbrev email_summary : Option EmailAuthResponse → EmailSummary
email_summary none = record { spf = false; dmarc = false; dmarc_policy = [] }
email_summary (some r) = record {
  spf = r.spf.present;
  dmarc = r.dmarc.present;
  dmarc_policy = r.dmarc.policy;
}

abbrev note_if {ℓ} : {A : Type ℓ} → Note → Option A → List Note
note_if note none = note ∷ []
note_if note (some a) = []

abbrev grade_part : Option Grade → List Part
grade_part none = []
grade_part (some g) = tls_grade g ∷ []

unfoldable pub build_website_check_summary : TlsSummary → HeadersSummary → EmailSummary → List Part
build_website_check_summary tls headers email =
    grade_part tls.grade
    ++ ((if ltb 0 headers.total then headers_present headers.present headers.total ∷ [] else [])
        ++ (if email.spf && email.dmarc
            then both_configured ∷ []
            else if email.spf || email.dmarc
            then partly_configured ∷ []
            else not_configured ∷ []))

unfoldable pub combine :
    Str
    → Option SecurityHeadersResponse
    → Option TlsCheckResponse
    → Option EmailAuthResponse
    → Option WebsiteCheckResponse
combine domain none none none = none
combine domain headers tls email = some (record {
  domain = domain;
  tls = tls_summary tls;
  headers = headers_summary headers;
  email_auth = email_summary email;
  parts =
      build_website_check_summary (tls_summary tls) (headers_summary headers) (email_summary email);
  notes = note_if no_headers headers ++ (note_if no_tls tls ++ note_if no_email email);
  headers_details = headers;
  tls_details = tls;
  email_details = email;
})

-- The checks run at the same time and share nothing; the one of email authentication has no error.
unfoldable pub website_check :
    Web → Tls → (Str → Option (List Str)) → Time → Str → Option WebsiteCheckResponse
website_check web tls resolver now domain =
    combine domain (Checker.check web domain).1 (Check.check tls now domain)
      (some (Email.check resolver now domain))
