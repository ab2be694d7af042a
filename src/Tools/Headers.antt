-- ===== src/Tools/Headers.antt =====
-- internal/service/header_grader.go: the grade of a page's security headers.
pub mod Laws
use target_service.Prelude.{
  ℕ, ◌+◌, ◌*◌, Bool, true, false, not, ◌&&◌, ◌||◌, Option, none, some, List, [], ◌∷◌, map, ltb,
  if◌then◌else◌, length, drop, ℤ, pos, negsuc, less,
}
use target_service.Text.{
  Str, codes, str_eq, to_lower, to_upper, trim_space, contains, has_prefix, split, atoi, one_of,
}
use target_service.Tools.Grade.{Grade, letter_grade}

-- A checked header stands for its name.
pub data Header : Type 0 where
  content_security_policy strict_transport_security x_frame_options x_content_type_options : Header
  referrer_policy permissions_policy cross_origin_opener_policy cross_origin_resource_policy :
      Header

pub data HeaderStatus : Type 0 where
  pass warn fail : HeaderStatus

-- An advice stands for its text.
pub data Advice : Type 0 where
  missing : Header → Advice
  unsafe_source wildcard_source safe_sources : Advice
  no_max_age : Advice
  short_max_age : ℤ → Advice
  no_subdomains strong_max_age : Advice
  framing_denied obsolete_framing : Advice
  nosniff_set nosniff_only : Advice
  referrer_limited referrer_leaks consider_referrer : Advice
  review_features : Advice
  isolated weaker_isolation prefer_same_origin : Advice
  restricted any_site unrecognized_value : Advice

pub record HeaderResult : Type 0 where
  pub name : Header
  pub status : HeaderStatus
  pub value : Str
  pub advice : Advice

unfoldable pub checked_headers : List Header
checked_headers =
    content_security_policy ∷ strict_transport_security ∷ x_frame_options ∷ x_content_type_options
    ∷ referrer_policy ∷ permissions_policy ∷ cross_origin_opener_policy
    ∷ cross_origin_resource_policy ∷ []

abbrev result : Header → HeaderStatus → Str → Advice → HeaderResult
result name status value advice = record {
  name = name;
  status = status;
  value = value;
  advice = advice;
}

unfoldable pub grade_csp : Str → HeaderResult
grade_csp value =
    let lv = to_lower value in
    if contains lv (codes "unsafe-inline") || contains lv (codes "unsafe-eval")
    then result content_security_policy warn value unsafe_source
    else if contains lv (codes "default-src *")
        || contains lv (codes "default-src: *")
        || contains lv (codes "script-src *")
    then result content_security_policy warn value wildcard_source
    else result content_security_policy pass value safe_sources

abbrev max_age_of : Str → Option ℤ
max_age_of part = if has_prefix (to_lower part) (codes "max-age=") then atoi (drop 8 part) else none

abbrev first_max_age : List Str → ℤ
first_max_age [] = pos 0
first_max_age (part ∷ parts) = elim (max_age_of (trim_space part)) [
  | some n ↦ n
  | none ↦ first_max_age parts
]

-- The first directive whose number can be read; 0 without one.
unfoldable pub parse_hsts_max_age : Str → ℤ
parse_hsts_max_age value = first_max_age (split b';' value)

-- 180 days in seconds.
abbrev pub min_max_age : ℕ
min_max_age = 15552000

grade_max_age : Str → ℤ → Bool → HeaderResult
grade_max_age value max_age include_sub =
    if less max_age 1
    then result strict_transport_security warn value no_max_age
    else if less max_age min_max_age
    then result strict_transport_security warn value (short_max_age max_age)
    else if not include_sub
    then result strict_transport_security warn value no_subdomains
    else result strict_transport_security pass value strong_max_age

unfoldable pub grade_hsts : Str → HeaderResult
unfolding grade_max_age
grade_hsts value =
    grade_max_age value (parse_hsts_max_age value)
      (contains (to_lower value) (codes "includesubdomains"))

unfoldable pub grade_xfo : Str → HeaderResult
grade_xfo value =
    if one_of (codes "DENY" ∷ codes "SAMEORIGIN" ∷ []) (to_upper (trim_space value))
    then result x_frame_options pass value framing_denied
    else result x_frame_options warn value obsolete_framing

-- EqualFold, of ASCII letters.
unfoldable pub grade_xcto : Str → HeaderResult
grade_xcto value =
    if str_eq (to_lower (trim_space value)) (codes "nosniff")
    then result x_content_type_options pass value nosniff_set
    else result x_content_type_options warn value nosniff_only

abbrev limiting_policies : List Str
limiting_policies =
    codes "no-referrer"
    ∷ codes "strict-origin"
    ∷ codes "strict-origin-when-cross-origin"
    ∷ codes "same-origin"
    ∷ []

unfoldable pub grade_referrer_policy : Str → HeaderResult
grade_referrer_policy value =
    let lv = to_lower (trim_space value) in
    if one_of limiting_policies lv
    then result referrer_policy pass value referrer_limited
    else if str_eq lv (codes "unsafe-url")
    then result referrer_policy fail value referrer_leaks
    else result referrer_policy warn value consider_referrer

unfoldable pub grade_coop : Str → HeaderResult
grade_coop value =
    let lv = to_lower (trim_space value) in
    if str_eq lv (codes "same-origin")
    then result cross_origin_opener_policy pass value isolated
    else if str_eq lv (codes "same-origin-allow-popups")
    then result cross_origin_opener_policy warn value weaker_isolation
    else result cross_origin_opener_policy warn value prefer_same_origin

unfoldable pub grade_corp : Str → HeaderResult
grade_corp value =
    let lv = to_lower (trim_space value) in
    if one_of (codes "same-origin" ∷ codes "same-site" ∷ []) lv
    then result cross_origin_resource_policy pass value restricted
    else if str_eq lv (codes "cross-origin")
    then result cross_origin_resource_policy warn value any_site
    else result cross_origin_resource_policy warn value unrecognized_value

grade_present : Header → Str → HeaderResult
grade_present content_security_policy value = grade_csp value
grade_present strict_transport_security value = grade_hsts value
grade_present x_frame_options value = grade_xfo value
grade_present x_content_type_options value = grade_xcto value
grade_present referrer_policy value = grade_referrer_policy value
grade_present permissions_policy value = result permissions_policy pass value review_features
grade_present cross_origin_opener_policy value = grade_coop value
grade_present cross_origin_resource_policy value = grade_corp value

abbrev pub is_blank : Str → Bool
is_blank value = str_eq (trim_space value) []

-- A result without a value has the empty one.
unfoldable pub grade_one_header : Header → Str → HeaderResult
unfolding grade_present
grade_one_header name value =
    if is_blank value then result name fail [] (missing name) else grade_present name value

abbrev points : HeaderStatus → ℕ
points pass = 2
points warn = 1
points fail = 0

abbrev pub score_of : List HeaderResult → ℕ
score_of [] = 0
score_of (r ∷ rs) = points r.status + score_of rs

-- The headers of the answer are a function: the empty value is a header that is not there.
unfoldable pub grade_headers : (Header → Str) → List HeaderResult × Grade
unfolding checked_headers letter_grade
grade_headers h =
    let results = map (λ name. grade_one_header name (h name)) checked_headers in
    (results, letter_grade (score_of results) (2 * length checked_headers))
