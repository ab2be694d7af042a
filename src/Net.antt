-- ===== src/Net.antt =====
-- Package net as the scope gate uses it: ParseIP, ParseCIDR and IPNet.Contains, over addresses as
-- numbers of 32 or 128 bits. An IPv4-mapped IPv6 address is the IPv4 address, as To4 makes it.
mod Tests
use target_service.Prelude.{
  ℕ, zero, suc, ◌+◌, ◌-◌, ◌*◌, ◌/◌, ◌%◌, ◌^◌, Bool, true, false, ◌&&◌, ◌||◌, Option, none, some,
  List, [], ◌∷◌, ◌++◌, leb, ltb, ◌==◌, if◌then◌else◌, length, take, drop, replicate,
}
use target_service.Text.{Str, split, index_func, index, has_prefix, codes, map_suc}

pub data Ip : Type 0 where
  v4 : ℕ → Ip
  v6 : ℕ → Ip

pub record IpNet : Type 0 where
  pub ip : Ip
  pub prefix : ℕ

abbrev pub is_digit : ℕ → Bool
is_digit c = leb b'0' c && leb c b'9'

-- A field of an IPv4 address: decimal, at most 255, no leading zero.
octet_from : ℕ → Str → Option ℕ
octet_from acc [] = some acc
octet_from acc (c ∷ s) =
    let acc' = acc * 10 + (c - b'0') in
    let rest = octet_from acc' s in if is_digit c && leb acc' 255 then rest else none

octet : Str → Option ℕ
unfolding octet_from
octet [] = none
octet (c ∷ []) = octet_from 0 (c ∷ [])
octet (c ∷ d ∷ s) = if c == b'0' then none else octet_from 0 (c ∷ d ∷ s)

infixl 5 ◌>>=◌
abbrev ◌>>=◌ : {A B : Type 0} → Option A → (A → Option B) → Option B
none >>= f = none
some a >>= f = f a

four : List Str → Option ℕ
unfolding octet
four (a ∷ b ∷ c ∷ d ∷ []) = do
  w ← octet a
  x ← octet b
  y ← octet c
  z ← octet d
  some (((w * 256 + x) * 256 + y) * 256 + z)
four _ = none

pub parse_ipv4 : Str → Option ℕ
unfolding four split
parse_ipv4 s = four (split b'.' s)

abbrev hex_digit : ℕ → Option ℕ
hex_digit c =
    if is_digit c
    then some (c - b'0')
    else if leb b'a' c && leb c b'f'
    then some (c - b'a' + 10)
    else if leb b'A' c && leb c b'F'
    then some (c - b'A' + 10)
    else none

-- The hexadecimal digits at the head of the text, and what follows them.
hex_run : Str → List ℕ × Str
hex_run [] = ([], [])
hex_run (c ∷ s) =
    let (ds, rest) = hex_run s in
    elim (hex_digit c) [ some d ↦ (d ∷ ds, rest) | none ↦ ([], c ∷ s) ]

hex_value : ℕ → List ℕ → ℕ
hex_value acc [] = acc
hex_value acc (d ∷ ds) = hex_value (acc * 16 + d) ds

-- Where the parser of an IPv6 address stands after one group.
pub data Next : Type 0 where
  bad : Next
  done : List ℕ → Option ℕ → Next
  more : List ℕ → Option ℕ → Str → Next

-- A trailing IPv4 address fills the last two groups.
embedded : List ℕ → Option ℕ → Str → Next
unfolding parse_ipv4
embedded acc none s =
    if length acc == 6
    then elim (parse_ipv4 s) [ none ↦ bad | some n ↦ done (acc ++ n / 65536 ∷ n % 65536 ∷ []) none ]
    else bad
embedded acc (some e) s =
    if leb (length acc) 6
    then elim (parse_ipv4 s) [
      | none ↦ bad
      | some n ↦ done (acc ++ n / 65536 ∷ n % 65536 ∷ []) (some e)
    ]
    else bad

-- After a colon: an ellipsis or one more group.
after_colon : List ℕ → Option ℕ → Str → Next
after_colon acc ell [] = bad
after_colon acc none (c ∷ []) =
    if c == b':' then done acc (some (length acc)) else more acc none (c ∷ [])
after_colon acc none (c ∷ d ∷ s) =
    if c == b':' then more acc (some (length acc)) (d ∷ s) else more acc none (c ∷ d ∷ s)
after_colon acc (some e) (c ∷ s) = if c == b':' then bad else more acc (some e) (c ∷ s)

after_group : List ℕ → ℕ → Option ℕ → Str → Str → Next
unfolding embedded after_colon
after_group acc v ell s [] = done (acc ++ v ∷ []) ell
after_group acc v ell s (c ∷ rest) =
    if c == b'.'
    then embedded acc ell s
    else if c == b':'
    then after_colon (acc ++ v ∷ []) ell rest
    else bad

group : List ℕ → Option ℕ → Str → Next
unfolding hex_run hex_value after_group
group acc ell s =
    let (ds, rest) = hex_run s in
    if length ds == 0 || ltb 4 (length ds) then bad else after_group acc (hex_value 0 ds) ell s rest

-- The loop over at most eight groups.
groups : ℕ → List ℕ → Option ℕ → Str → Option (List ℕ × Option ℕ)
groups zero acc ell s = elim s [ [] ↦ some (acc, ell) | _ ↦ none ]
groups (suc f) acc ell s = elim (group acc ell s) [
  | bad ↦ none
  | done acc' ell' ↦ some (acc', ell')
  | more acc' ell' s' ↦ groups f acc' ell' s'
]

-- The ellipsis stands for the missing groups, at least one.
expand : List ℕ × Option ℕ → Option (List ℕ)
expand (gs, none) = if length gs == 8 then some gs else none
expand (gs, some e) =
    if ltb (length gs) 8
    then some (take e gs ++ (replicate (8 - length gs) 0 ++ drop e gs))
    else none

number_of : ℕ → List ℕ → ℕ
number_of acc [] = acc
number_of acc (g ∷ gs) = number_of (acc * 65536 + g) gs

v6_body : Str → Option (List ℕ × Option ℕ)
unfolding groups group
v6_body [] = groups 8 [] none []
v6_body (c ∷ []) = groups 8 [] none (c ∷ [])
v6_body (c ∷ d ∷ s) =
    if c == b':' && d == b':'
    then elim s [ [] ↦ some ([], some 0) | rest ↦ groups 8 [] (some 0) rest ]
    else groups 8 [] none (c ∷ d ∷ s)

pub parse_ipv6 : Str → Option ℕ
unfolding v6_body expand number_of
parse_ipv6 s = do body ← v6_body s; gs ← expand body; some (number_of 0 gs)

abbrev is_marker : ℕ → Bool
is_marker c = c == b'.' || c == b':' || c == b'%'

abbrev byte_at : ℕ → Str → ℕ
byte_at n [] = 0
byte_at zero (c ∷ s) = c
byte_at (suc n) (c ∷ s) = byte_at n s

-- The first of '.', ':' and '%' says what the text is.
addr_of_marker : ℕ → Str → Option Ip
addr_of_marker c s =
    if c == b'.'
    then (parse_ipv4 s >>= λ n. some (v4 n))
    else if c == b':'
    then (parse_ipv6 s >>= λ n. some (v6 n))
    else none

-- An address as written: with its own number of bits. A zone (after '%') is refused.
parse_addr : Str → Option Ip
unfolding parse_ipv4 parse_ipv6 addr_of_marker index_func
parse_addr s = do i ← index_func is_marker s; addr_of_marker (byte_at i s) s

-- To4 of an IPv4-mapped address.
unmap : Ip → Ip
unmap (v4 n) = v4 n
unmap (v6 n) = if n / 2 ^ 32 == 65535 then v4 (n % 2 ^ 32) else v6 n

unfoldable pub parse_ip : Str → Option Ip
unfolding parse_addr unmap
parse_ip s = do a ← parse_addr s; some (unmap a)

mask_bits : ℕ → Str → Option ℕ
mask_bits acc [] = some acc
mask_bits acc (c ∷ s) =
    let acc' = acc * 10 + (c - b'0') in
    let rest = mask_bits acc' s in if is_digit c && ltb acc' 16777215 then rest else none

mask_length : Str → Option ℕ
unfolding mask_bits
mask_length [] = none
mask_length (c ∷ s) = mask_bits 0 (c ∷ s)

-- The network of an address and a mask length, masked; a mapped network is an IPv4 one.
network : Ip → ℕ → Option IpNet
network (v4 n) k =
    if leb k 32
    then some (record { ip = v4 (n / 2 ^ (32 - k) * 2 ^ (32 - k)); prefix = k })
    else none
network (v6 n) k =
    let m = n / 2 ^ (128 - k) * 2 ^ (128 - k) in
    let mapped = m / 2 ^ 32 == 65535 in
    if leb k 128 && mapped
    then some (record { ip = v4 (m % 2 ^ 32); prefix = k - 96 })
    else if leb k 128
    then some (record { ip = v6 m; prefix = k })
    else none

unfoldable pub parse_cidr : Str → Option IpNet
unfolding parse_addr mask_length network index has_prefix
parse_cidr s = do
  i ← index s (codes "/")
  a ← parse_addr (take i s)
  k ← mask_length (drop (i + 1) s)
  network a k

same_network : ℕ → Ip → Ip → Bool
same_network k (v4 n) (v4 m) = n / 2 ^ (32 - k) == m / 2 ^ (32 - k)
same_network k (v6 n) (v6 m) = n / 2 ^ (128 - k) == m / 2 ^ (128 - k)
same_network k _ _ = false

unfoldable pub contains : IpNet → Ip → Bool
unfolding same_network
contains net ip = same_network net.prefix net.ip ip
