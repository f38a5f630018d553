-- ===== src/Ipc/Endpoint.antt =====
-- src/ipc.rs, `hex_decode` and `endpoint`: where the service is, as the environment says. A string
-- is the list of its bytes.
use xgameruntime_rs.Base.{
  ℕ, ◌+◌, ◌*◌, ◌/◌, ◌%◌, ◌<◌, ◌≡◌, refl, Option, none, some, not, List, [], ◌∷◌, ◌==◌,
  if◌then◌else◌, length, All, arith,
}
use xgameruntime_rs.Base.Text.{to_digit, digit, to_digit-digit}
use xgameruntime_rs.Results.{Result, ok, err, e_notimpl}

abbrev pub secret_len : ℕ
secret_len = 32

abbrev pub two_digits : Option ℕ → Option ℕ → Option ℕ
two_digits (some high) (some low) = some (high * 16 + low)
two_digits (some high) none = none
two_digits none low = none

-- `u8::from_str_radix(s, 16)` on two bytes: the standard library takes a leading `+`.
abbrev pub from_str_radix : ℕ → ℕ → Option ℕ
from_str_radix a b = if a == 43 then to_digit b else two_digits (to_digit a) (to_digit b)

abbrev pub put_byte : Option ℕ → Option (List ℕ) → Option (List ℕ)
put_byte (some b) (some bs) = some (b ∷ bs)
put_byte (some b) none = none
put_byte none bs = none

unfoldable pub decode_pairs : List ℕ → Option (List ℕ)
decode_pairs [] = some []
decode_pairs (a ∷ []) = none
decode_pairs (a ∷ b ∷ rest) = put_byte (from_str_radix a b) (decode_pairs rest)

unfoldable pub hex_decode : List ℕ → Option (List ℕ)
unfolding decode_pairs
hex_decode s = if not (length s % 2 == 0) then none else decode_pairs s

-- `endpoint`: from the two variables, if they are set, and what the port reads as.
unfoldable pub endpoint : Option ℕ → Option (List ℕ) → Result (ℕ × List ℕ)
unfolding hex_decode
endpoint none secret = err e_notimpl
endpoint (some port) none = err e_notimpl
endpoint (some port) (some s) = elim (hex_decode s) [
  | none ↦ err e_notimpl
  | some secret ↦ if length secret == secret_len then ok (port, secret) else err e_notimpl
]

-- The service's side: two small digits to a byte.
abbrev hex_encode : List ℕ → List ℕ
hex_encode [] = []
hex_encode (b ∷ bs) = digit (b / 16) ∷ digit (b % 16) ∷ hex_encode bs

from_str_radix-digit : (b : ℕ) → b < 256 → from_str_radix (digit (b / 16)) (digit (b % 16)) ≡ some b
from_str_radix-digit b h = ground (arith, to_digit-digit (b / 16), to_digit-digit (b % 16))

even_length : (bs : List ℕ) → length (hex_encode bs) % 2 ≡ 0
even_length [] = refl
even_length (b ∷ bs) = omega (arith, even_length bs)

decode_pairs-hex_encode :
    (bs : List ℕ) → All (λ b. b < 256) bs → decode_pairs (hex_encode bs) ≡ some bs
unfolding decode_pairs
decode_pairs-hex_encode [] h = refl
decode_pairs-hex_encode (b ∷ bs) h =
    rw (from_str_radix-digit b h.0, decode_pairs-hex_encode bs h.1) refl

-- Bytes that are published in hex are read back.
pub hex_decode-hex_encode :
    (bs : List ℕ) → All (λ b. b < 256) bs → hex_decode (hex_encode bs) ≡ some bs
unfolding hex_decode
hex_decode-hex_encode bs h = ground (arith, even_length bs, decode_pairs-hex_encode bs h)

-- A secret of 32 bytes that is published in hex is the one that the client uses, with the port;
-- without the port's or the secret's variable there is no endpoint.
endpoint-hex_encode :
    (port : ℕ) (secret : List ℕ)
    → All (λ b. b < 256) secret
    → length secret ≡ secret_len
    → (endpoint (some port) (some (hex_encode secret)) ≡ ok (port, secret))
      × (endpoint (some port) none ≡ err e_notimpl)
      × (endpoint none (some (hex_encode secret)) ≡ err e_notimpl)
unfolding endpoint
endpoint-hex_encode port secret h n =
    (rw (hex_decode-hex_encode secret h, n, endpoint) refl, refl, refl)

-- A plus sign before a hexadecimal digit is read as a pair too, and gives the digit.
hex_decode_plus : (d : ℕ) → d < 16 → hex_decode (43 ∷ digit d ∷ []) ≡ some (d ∷ [])
unfolding hex_decode decode_pairs
hex_decode_plus d h = rw (to_digit-digit d h) refl
