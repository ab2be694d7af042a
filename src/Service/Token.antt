-- ===== src/Service/Token.antt =====
-- generateToken of internal/service/verification_service.go.
use target_service.Prelude.{
  ℕ, zero, suc, ◌+◌, ◌-◌, ◌*◌, ◌/◌, ◌%◌, ◌≤◌, ◌<◌, ◌≡◌, refl, ap, ◌&&◌, Option, none, some, [], ◌∷◌,
  arith, ltb, leb, if◌then◌else◌, length, take, drop, All,
}
use target_service.Text.{Str}
use target_service.Store.{ok, err, random_failure, World, M}

-- A digit of package encoding/hex.
unfoldable pub hex_char : ℕ → ℕ
hex_char d = if ltb d 10 then b'0' + d else b'a' + (d - 10)

-- hex.EncodeToString
unfoldable pub hex_encode : Str → Str
hex_encode [] = []
hex_encode (b ∷ bs) = hex_char (b / 16) ∷ hex_char (b % 16) ∷ hex_encode bs

-- The random source has `bytes` more bytes, or fails.
unfoldable pub generate_token : ℕ → M Str
generate_token bytes w =
    if ltb (length w.random) bytes
    then (err random_failure, w)
    else (ok (hex_encode (take bytes w.random)), record w { random = drop bytes w.random })

abbrev pub hex_digit : ℕ → Option ℕ
hex_digit c =
    if leb b'0' c && leb c b'9'
    then some (c - b'0')
    else if leb b'a' c && leb c b'f'
    then some (c - b'a' + 10)
    else none

abbrev pair_up : Option ℕ → Option ℕ → Option Str → Option Str
pair_up (some h) (some l) (some bs) = some ((h * 16 + l) ∷ bs)
pair_up _ _ _ = none

-- The bytes that a token stands for.
abbrev pub hex_decode : Str → Option Str
hex_decode [] = some []
hex_decode (c ∷ []) = none
hex_decode (c ∷ d ∷ s) = pair_up (hex_digit c) (hex_digit d) (hex_decode s)

hex_digit-char : (d : ℕ) → d < 16 → hex_digit (hex_char d) ≡ some d
unfolding hex_char
hex_digit-char d h = ground arith

-- The token of random bytes gives them back: different random bytes never make the same token.
hex_decode-encode : (bs : Str) → All (λ b. b < 256) bs → hex_decode (hex_encode bs) ≡ some bs
unfolding hex_encode
hex_decode-encode [] h = refl
hex_decode-encode (b ∷ bs) (h, hs) =
    rw
      (
        hex_digit-char (b / 16) (omega arith),
        hex_digit-char (b % 16) (omega arith),
        hex_decode-encode bs hs,
      )
      (ap (λ (n : ℕ). some (n ∷ bs)) (omega arith))

length-hex_encode : (bs : Str) → length (hex_encode bs) ≡ 2 * length bs
unfolding hex_encode
length-hex_encode [] = refl
length-hex_encode (b ∷ bs) = omega (arith, length-hex_encode bs)

length-take_enough : (n : ℕ) (xs : Str) → n ≤ length xs → length (take n xs) ≡ n
length-take_enough zero xs h = refl
length-take_enough (suc n) [] h = absurd (omega arith)
length-take_enough (suc n) (x ∷ xs) h = omega (arith, length-take_enough n xs (omega arith))

-- A token of n random bytes has 2 n characters, and the bytes are used up.
length-generate_token :
    (n : ℕ) (w : World) {token : Str} {w' : World}
    → generate_token n w ≡ (ok token, w')
    → (length token ≡ 2 * n) × (w'.random ≡ drop n w.random)
unfolding generate_token
length-generate_token n w h =
    ground (arith, length-hex_encode (take n w.random), length-take_enough n w.random)
