-- ===== src/Tools/Hostname.antt =====
-- internal/service/hostname.go: the name of a public host, out of what a visitor typed.
pub mod Laws
use target_service.Prelude.{
  ℕ, ◌+◌, Bool, true, false, ◌&&◌, ◌||◌, not, Option, none, some, List, [], ◌∷◌, any, ◌==◌, leb,
  ltb, length, take, drop, if◌then◌else◌,
}
use target_service.Text.{
  Str, codes, str_eq, to_lower, trim_space, trim_left, trim_right, trim_suffix, has_prefix,
  has_suffix, contains, index, index_func, last_index, split,
}
use target_service.Net.{Ip, is_digit, parse_ip}

pub data HostnameError : Type 0 where
  nothing invalid_length ip_literal malformed single_label localhost internal_looking :
      HostnameError

pub data Hostname : Type 0 where
  valid : Str → Hostname
  rejected : HostnameError → Hostname

abbrev pub internal_suffixes : List Str
internal_suffixes =
    codes ".local"
    ∷ codes ".localhost"
    ∷ codes ".internal"
    ∷ codes ".invalid"
    ∷ codes ".test"
    ∷ codes ".localdomain"
    ∷ []

abbrev is_letter : ℕ → Bool
is_letter c = leb b'a' c && leb c b'z'

abbrev is_letter_or_digit : ℕ → Bool
is_letter_or_digit c = is_letter c || is_digit c

abbrev every : (ℕ → Bool) → Str → Bool
every p s = not (any (λ c. not (p c)) s)

abbrev ends_well : Str → Bool
ends_well s = not (has_prefix s (codes "-")) && not (has_suffix s (codes "-"))

-- [a-z0-9](?:[a-z0-9-]{0,61}[a-z0-9])?
abbrev pub is_label : Str → Bool
is_label s =
    leb 1 (length s)
    && leb (length s) 63
    && every (λ c. is_letter_or_digit c || c == b'-') s
    && ends_well s

-- [a-z]{2,63}
abbrev pub is_top_label : Str → Bool
is_top_label s = leb 2 (length s) && leb (length s) 63 && every is_letter s

-- One label or more, and a top label.
unfoldable pub are_labels : List Str → Bool
are_labels [] = false
are_labels (top ∷ []) = false
are_labels (s ∷ top ∷ []) = is_label s && is_top_label top
are_labels (s ∷ t ∷ u ∷ ss) = is_label s && are_labels (t ∷ u ∷ ss)

-- hostnameRe, on a text in lower case.
unfoldable pub matches_hostname : Str → Bool
matches_hostname v = are_labels (split b'.' v)

abbrev after_scheme : Str → Str
after_scheme v = elim (index v (codes "://")) [ none ↦ v | some i ↦ drop (i + 3) v ]

abbrev before_path : Str → Str
before_path v = elim (index_func (λ c. c == b'/' || c == b'?' || c == b'#') v) [
  | none ↦ v
  | some i ↦ take i v
]

abbrev after_userinfo : Str → Str
after_userinfo v = elim (last_index b'@' v) [ none ↦ v | some i ↦ drop (i + 1) v ]

abbrev up_to_bracket : Str → Str
up_to_bracket v = elim (index v (codes "]")) [ none ↦ v | some i ↦ take (i + 1) v ]

abbrev before_port : Str → Str
before_port v = elim (last_index b':' v) [ none ↦ v | some i ↦ take i v ]

abbrev without_port : Str → Str
without_port v = if has_prefix v (codes "[") then up_to_bracket v else before_port v

abbrev is_bracket : ℕ → Bool
is_bracket c = c == b'[' || c == b']'

-- Scheme, path, userinfo, port, final dot and brackets are taken away.
unfoldable pub strip : Str → Str
strip v =
    let host = without_port (after_userinfo (before_path (after_scheme v))) in
    trim_right is_bracket (trim_left is_bracket (to_lower (trim_suffix host (codes "."))))

abbrev pub is_some_ip : Option Ip → Bool
is_some_ip none = false
is_some_ip (some ip) = true

abbrev pub is_empty : Str → Bool
is_empty [] = true
is_empty (c ∷ s) = false

unfoldable pub validate : Str → Hostname
validate v =
    if is_empty v || ltb 253 (length v)
    then rejected invalid_length
    else if is_some_ip (parse_ip v)
    then rejected ip_literal
    else if not (matches_hostname v)
    then rejected malformed
    else if not (contains v (codes "."))
    then rejected single_label
    else if str_eq v (codes "localhost")
    then rejected localhost
    else if any (has_suffix v) internal_suffixes
    then rejected internal_looking
    else valid v

unfoldable pub normalize_and_validate_hostname : Str → Hostname
normalize_and_validate_hostname raw =
    let v = trim_space raw in if is_empty v then rejected nothing else validate (strip v)
