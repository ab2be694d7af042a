-- ===== src/Tools/Checker.antt =====
-- internal/service/header_checker.go: the homepage of a domain is fetched, over redirects within the
-- domain, and its headers are graded.
pub mod Laws
use target_service.Prelude.{
  ℕ, zero, suc, ◌-◌, Bool, ◌&&◌, ◌||◌, Option, none, some, List, [], ◌∷◌, ◌++◌, leb, ltb,
  if◌then◌else◌, length, drop,
}
use target_service.Text.{Str, codes, str_eq, to_lower, trim_suffix, split, join}
use target_service.Tools.Grade.{Grade}
use target_service.Tools.Headers.{Header, HeaderResult, grade_headers}

abbrev pub max_header_check_redirects : ℕ
max_header_check_redirects = 3

-- An answer: its status, its Location, and the headers that are graded.
pub record Reply : Type 0 where
  pub status : ℕ
  pub location : Str
  pub header : Header → Str

pub record Url : Type 0 where
  pub scheme : Str
  pub host : Str
  pub text : Str

-- The client of go-safedial, the resolution of a reference against a URL by net/url, and the public
-- suffix list; `none` is an error.
pub record Web : Type 0 where
  pub get : Str → Option Reply
  pub resolve : Str → Str → Option Url
  pub effective_tld_plus_one : Str → Option Str

abbrev pub is_redirect : ℕ → Bool
is_redirect status = leb 300 status && ltb status 400

abbrev with_scheme : Url → Option Url
with_scheme u =
    if str_eq u.scheme (codes "http") || str_eq u.scheme (codes "https") then some u else none

unfoldable pub resolve_redirect : Web → Str → Str → Option Url
resolve_redirect web current location = elim (web.resolve current location) [
  | none ↦ none
  | some u ↦ with_scheme u
]

abbrev last_labels : Str → List Str → Str
last_labels host parts =
    if ltb (length parts) 2 then host else join (codes ".") (drop (length parts - 2) parts)

unfoldable pub registrable_domain_of : Web → Str → Str
registrable_domain_of web host =
    let h = to_lower (trim_suffix host (codes ".")) in
    elim (web.effective_tld_plus_one h) [ some rd ↦ rd | none ↦ last_labels h (split b'.' h) ]

pub data FetchError : Type 0 where
  unreachable unresolvable other_domain redirect_unreachable : FetchError

-- What an answer asks for: the loop ends, the check fails, or another URL is fetched.
pub data Hop : Type 0 where
  stay : Hop
  refused : FetchError → Hop
  go : Str → Hop

abbrev pub within : Web → Str → Option Url → Hop
within web registrable none = refused unresolvable
within web registrable (some u) =
    if str_eq (registrable_domain_of web u.host) registrable
    then go u.text
    else refused other_domain

abbrev pub by_location : Web → Str → Str → Str → Hop
by_location web registrable current [] = stay
by_location web registrable current (c ∷ s) =
    within web registrable (resolve_redirect web current (c ∷ s))

unfoldable pub next_hop : Web → Str → Str → Reply → Hop
next_hop web registrable current reply =
    if is_redirect reply.status then by_location web registrable current reply.location else stay

pub data Outcome : Type 0 where
  failed : FetchError → Outcome
  fetched : Str → Reply → Outcome

-- The URLs that were fetched, in order, and the outcome.
abbrev pub Run : Type 0
Run = List Str × Outcome

abbrev pub after_ : Str → Run → Run
after_ url run = (url ∷ run.0, run.1)

-- The loop with so many hops left.
unfoldable pub follow : Web → Str → ℕ → Str → Reply → Run
follow web registrable zero current reply = ([], fetched current reply)
follow web registrable (suc hops) current reply = elim (next_hop web registrable current reply) [
  | stay ↦ ([], fetched current reply)
  | refused e ↦ ([], failed e)
  | go url ↦ elim (web.get url) [
    | none ↦ (url ∷ [], failed redirect_unreachable)
    | some r ↦ after_ url (follow web registrable hops url r)
  ]
]

abbrev pub https_root : Str → Str
https_root domain = codes "https://" ++ domain ++ codes "/"

abbrev pub http_root : Str → Str
http_root domain = codes "http://" ++ domain ++ codes "/"

-- The first request, over HTTPS and then over HTTP, and the redirects.
unfoldable pub fetch : Web → Str → Run
fetch web domain =
    let registrable = registrable_domain_of web domain in
    elim (web.get (https_root domain)) [
      | some r ↦
          after_ (https_root domain)
            (follow web registrable max_header_check_redirects (https_root domain) r)
      | none ↦ after_ (https_root domain) (elim (web.get (http_root domain)) [
        | some r ↦
            after_ (http_root domain)
              (follow web registrable max_header_check_redirects (http_root domain) r)
        | none ↦ (http_root domain ∷ [], failed unreachable)
      ])
    ]

-- The answer, without the time at which it was made.
pub record SecurityHeadersResponse : Type 0 where
  pub domain : Str
  pub final_url : Str
  pub grade : Grade
  pub headers : List HeaderResult

abbrev pub graded : Str → Outcome → Option SecurityHeadersResponse
graded domain (failed e) = none
graded domain (fetched url reply) = some (record {
  domain = domain;
  final_url = url;
  grade = (grade_headers reply.header).1;
  headers = (grade_headers reply.header).0;
})

unfoldable pub check : Web → Str → List Str × Option SecurityHeadersResponse
unfolding fetch
check web domain = ((fetch web domain).0, graded domain (fetch web domain).1)
