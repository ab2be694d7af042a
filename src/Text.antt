-- ===== src/Text.antt =====
-- Go strings and the functions of package strings that the service calls. A string is the list of
-- its bytes; letters and spaces are those of ASCII, and a byte from 128 on is its own lower case.
pub mod Laws
use Prim.Native.Char.{code}
use Prim.Native.String
use target_service.Prelude.{
  ℕ, zero, suc, ◌+◌, ◌-◌, ◌≡◌, String, Bool, true, false, ◌&&◌, ◌||◌, not, Option, none, some, List,
  [], ◌∷◌, ◌++◌, map, reverse, leb, ltb, ◌*◌, ◌^◌, ℤ, pos, negsuc, ◌==◌, if◌then◌else◌, length,
  take, drop, any,
}

abbrev pub Str : Type 0
Str = List ℕ

-- The bytes of a literal.
abbrev pub codes : String → Str
codes String.[] = []
codes (String.◌∷◌ c s) = code c ∷ codes s

unfoldable pub str_eq : Str → Str → Bool
str_eq [] [] = true
str_eq [] (_ ∷ _) = false
str_eq (_ ∷ _) [] = false
str_eq (a ∷ s) (b ∷ t) = a == b && str_eq s t

unfoldable pub lower : ℕ → ℕ
lower c = if leb b'A' c && leb c b'Z' then c + 32 else c

unfoldable pub to_lower : Str → Str
to_lower s = map lower s

unfoldable pub upper : ℕ → ℕ
upper c = if leb b'a' c && leb c b'z' then c - 32 else c

unfoldable pub to_upper : Str → Str
to_upper s = map upper s

-- Tab, newline, vertical tab, form feed, carriage return, space.
unfoldable pub is_space : ℕ → Bool
is_space c = leb 9 c && leb c 13 || c == 32

-- TrimLeftFunc.
unfoldable pub trim_left : (ℕ → Bool) → Str → Str
trim_left p [] = []
trim_left p (c ∷ s) = let rest = trim_left p s in if p c then rest else c ∷ s

-- TrimRightFunc.
unfoldable pub trim_right : (ℕ → Bool) → Str → Str
trim_right p s = reverse (trim_left p (reverse s))

unfoldable pub trim_space : Str → Str
trim_space s = trim_right is_space (trim_left is_space s)

unfoldable pub has_prefix : Str → Str → Bool
has_prefix s [] = true
has_prefix [] (_ ∷ _) = false
has_prefix (a ∷ s) (b ∷ p) = a == b && has_prefix s p

unfoldable pub has_suffix : Str → Str → Bool
has_suffix s suffix = has_prefix (reverse s) (reverse suffix)

unfoldable pub trim_prefix : Str → Str → Str
trim_prefix s p = if has_prefix s p then drop (length p) s else s

unfoldable pub trim_suffix : Str → Str → Str
trim_suffix s p = if has_suffix s p then take (length s - length p) s else s

abbrev pub map_suc : Option ℕ → Option ℕ
map_suc none = none
map_suc (some n) = some (suc n)

-- strings.Index; `none` is -1.
unfoldable pub index : Str → Str → Option ℕ
index [] sub = if has_prefix [] sub then some 0 else none
index (c ∷ s) sub =
    let rest = index s sub in if has_prefix (c ∷ s) sub then some 0 else map_suc rest

unfoldable pub contains : Str → Str → Bool
contains s sub = elim (index s sub) [ none ↦ false | some _ ↦ true ]

-- The first byte that passes the test: strings.IndexAny with the set as a test.
unfoldable pub index_func : (ℕ → Bool) → Str → Option ℕ
index_func p [] = none
index_func p (c ∷ s) = let rest = index_func p s in if p c then some 0 else map_suc rest

-- strings.LastIndex of a single byte.
unfoldable pub last_index : ℕ → Str → Option ℕ
last_index b [] = none
last_index b (c ∷ s) = elim (last_index b s) [
  | some n ↦ some (suc n)
  | none ↦ if c == b then some 0 else none
]

abbrev cons_head : ℕ → List Str → List Str
cons_head c [] = (c ∷ []) ∷ []
cons_head c (s ∷ ss) = (c ∷ s) ∷ ss

-- strings.Split at a single byte.
unfoldable pub split : ℕ → Str → List Str
split sep [] = [] ∷ []
split sep (c ∷ s) = let rest = split sep s in if c == sep then [] ∷ rest else cons_head c rest

-- strings.Join.
unfoldable pub join : Str → List Str → Str
join sep [] = []
join sep (s ∷ []) = s
join sep (s ∷ t ∷ ss) = s ++ (sep ++ join sep (t ∷ ss))

-- strings.ReplaceAll of a single byte.
unfoldable pub replace_all : ℕ → Str → Str → Str
replace_all b new [] = []
replace_all b new (c ∷ s) =
    let rest = replace_all b new s in if c == b then new ++ rest else c ∷ rest

-- The string is one of the listed ones: membership in a set of strings.
unfoldable pub one_of : List Str → Str → Bool
one_of ss s = any (str_eq s) ss

abbrev is_digit : ℕ → Bool
is_digit c = leb b'0' c && leb c b'9'

-- ParseUint: the number that decimal digits spell, after the number that was read; `none` is a bad
-- digit. At a number over 64 bits it stops with the greatest one.
abbrev digits_from : ℕ → Str → Option ℕ
digits_from n [] = some n
digits_from n (c ∷ s) =
    let n' = n * 10 + (c - b'0') in
    let rest = digits_from n' s in
    if not (is_digit c) then none else if ltb n' (2 ^ 64) then rest else some (2 ^ 64 - 1)

abbrev in_int64 : Bool → Option ℕ → Option ℤ
in_int64 negative none = none
in_int64 true (some zero) = some (pos 0)
in_int64 true (some (suc n)) = if ltb n (2 ^ 63) then some (negsuc n) else none
in_int64 false (some n) = if ltb n (2 ^ 63) then some (pos n) else none

abbrev digits : Str → Option ℕ
digits [] = none
digits (c ∷ s) = digits_from 0 (c ∷ s)

abbrev atoi_signed : Bool → Bool → Str → Option ℤ
atoi_signed minus plus [] = none
atoi_signed minus plus (c ∷ s) =
    if minus
    then in_int64 true (digits s)
    else if plus
    then in_int64 false (digits s)
    else in_int64 false (digits (c ∷ s))

-- strconv.Atoi on a 64-bit machine; `none` is its error.
unfoldable pub atoi : Str → Option ℤ
atoi s = atoi_signed (has_prefix s (b'-' ∷ [])) (has_prefix s (b'+' ∷ [])) s

-- What ParseInt returns with its error: 0 for what is no number, and the nearest one out of range.
abbrev nearest_int64 : Bool → Option ℕ → ℤ
nearest_int64 minus none = pos 0
nearest_int64 true (some zero) = pos 0
nearest_int64 true (some (suc n)) = if ltb n (2 ^ 63) then negsuc n else negsuc (2 ^ 63 - 1)
nearest_int64 false (some n) = if ltb n (2 ^ 63) then pos n else pos (2 ^ 63 - 1)

abbrev value_signed : Bool → Bool → Str → ℤ
value_signed minus plus [] = pos 0
value_signed minus plus (c ∷ s) =
    if minus
    then nearest_int64 true (digits s)
    else if plus
    then nearest_int64 false (digits s)
    else nearest_int64 false (digits (c ∷ s))

-- The value of strconv.Atoi when its error is ignored.
unfoldable pub atoi_value : Str → ℤ
atoi_value s = value_signed (has_prefix s (b'-' ∷ [])) (has_prefix s (b'+' ∷ [])) s

-- A byte goes in front of the first field if the next byte is no space.
word_first : ℕ → Str → List Str → List Str
unfolding is_space
word_first c [] fs = (c ∷ []) ∷ fs
word_first c (d ∷ s) fs = if is_space d then (c ∷ []) ∷ fs else cons_head c fs

-- strings.Fields.
unfoldable pub fields : Str → List Str
unfolding word_first
fields [] = []
fields (c ∷ s) = let rest = fields s in if is_space c then rest else word_first c s rest
