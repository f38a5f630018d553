-- ===== src/Base/Text.antt =====
-- Text as a list of bytes: trimming and hexadecimal numbers, the way the standard library reads and
-- prints them. White space is the one of Unicode, in UTF-8.
use xgameruntime_rs.Base.Tests.{Bool-cases, ltb, leb, ◌==◌, if◌then◌else◌}
use Prim.Native.Nat.{ℕ, zero, suc, ◌+◌, ◌-◌, ◌*◌, ◌/◌, ◌%◌, ◌^◌, ◌<◌}
use mathlib.Core.Path.{◌≡◌, refl, ap, ◌∙◌}
use mathlib.Core.Logic.{◌≢◌, inl, inr}
use mathlib.Core.Bool.{Bool, true, false, ◌&&◌, ◌||◌}
use mathlib.Core.Option.{Option, none, some}
use mathlib.Core.List.{List, [], ◌∷◌, reverse, reverse-cons, reverse-reverse}
use native.Mathlib.Omega.{arith}
use xgameruntime_rs.Base.Lists.{All, All-append}

-- White space of one byte, of two and of three.
abbrev pub is_whitespace : ℕ → Bool
is_whitespace c = (c == 32) || (leb 9 c && leb c 13)

abbrev is_whitespace_2 : ℕ → ℕ → Bool
is_whitespace_2 a b = (a == 0xC2) && ((b == 0x85) || (b == 0xA0))

abbrev is_general_space : ℕ → Bool
is_general_space c = (leb 0x80 c && leb c 0x8A) || ((c == 0xA8) || ((c == 0xA9) || (c == 0xAF)))

abbrev is_whitespace_3 : ℕ → ℕ → ℕ → Bool
is_whitespace_3 a b c =
    ((a == 0xE1) && ((b == 0x9A) && (c == 0x80)))
    || (((a == 0xE2) && ((b == 0x80) && is_general_space c))
        || (((a == 0xE2) && ((b == 0x81) && (c == 0x9F)))
            || ((a == 0xE3) && ((b == 0x80) && (c == 0x80)))))

-- How many bytes the white space has that a text starts with, 0 where it starts with none.
abbrev space_at_start : List ℕ → ℕ
space_at_start [] = 0
space_at_start (a ∷ []) = if is_whitespace a then 1 else 0
space_at_start (a ∷ b ∷ []) = if is_whitespace a then 1 else if is_whitespace_2 a b then 2 else 0
space_at_start (a ∷ b ∷ c ∷ rest) =
    if is_whitespace a
    then 1
    else if is_whitespace_2 a b
    then 2
    else if is_whitespace_3 a b c
    then 3
    else 0

-- The same at the end of a text, whose last byte comes first.
abbrev space_at_end : List ℕ → ℕ
space_at_end [] = 0
space_at_end (c ∷ []) = if is_whitespace c then 1 else 0
space_at_end (c ∷ b ∷ []) = if is_whitespace c then 1 else if is_whitespace_2 b c then 2 else 0
space_at_end (c ∷ b ∷ a ∷ rest) =
    if is_whitespace c
    then 1
    else if is_whitespace_2 b c
    then 2
    else if is_whitespace_3 a b c
    then 3
    else 0

-- A text without the white space in front, of which so many bytes are still to skip.
unfoldable pub trim_from : (List ℕ → ℕ) → ℕ → List ℕ → List ℕ
trim_from space skip [] = []
trim_from space zero (c ∷ cs) = elim (space (c ∷ cs)) [
  | zero ↦ c ∷ cs
  | suc more ↦ trim_from space more cs
]
trim_from space (suc skip) (c ∷ cs) = trim_from space skip cs

unfoldable pub trim : List ℕ → List ℕ
unfolding trim_from
trim text = reverse (trim_from space_at_end 0 (reverse (trim_from space_at_start 0 text)))

-- A digit of radix 16.
abbrev pub to_digit : ℕ → Option ℕ
to_digit c =
    if leb 48 c && leb c 57
    then some (c - 48)
    else if leb 65 c && leb c 70
    then some (c - 55)
    else if leb 97 c && leb c 102
    then some (c - 87)
    else none

-- The digits after a number, of a type with so many values.
unfoldable pub hex_digits : ℕ → ℕ → List ℕ → Option ℕ
hex_digits values acc [] = some acc
hex_digits values acc (c ∷ cs) = elim (to_digit c) [
  | none ↦ none
  | some d ↦
      let rest = hex_digits values (acc * 16 + d) cs in
      if ltb (acc * 16 + d) values then rest else none
]

abbrev some_hex_digits : ℕ → List ℕ → Option ℕ
some_hex_digits values [] = none
some_hex_digits values (c ∷ cs) = hex_digits values 0 (c ∷ cs)

-- `from_str_radix(text, 16)` of an unsigned type: a plus sign may come first.
unfoldable pub from_str_radix_16 : ℕ → List ℕ → Option ℕ
unfolding hex_digits
from_str_radix_16 values [] = none
from_str_radix_16 values (c ∷ cs) =
    if c == 43 then some_hex_digits values cs else some_hex_digits values (c ∷ cs)

abbrev pub digit : ℕ → ℕ
digit d = if ltb d 10 then 48 + d else 87 + d

-- What `{:x}` prints before some text, of a number of at most so many digits.
unfoldable pub hex_before : ℕ → ℕ → List ℕ → List ℕ
hex_before zero n out = out
hex_before (suc fuel) n out =
    let more = hex_before fuel (n / 16) (digit (n % 16) ∷ out) in if n == 0 then out else more

-- `{:x}` of 64 bits.
unfoldable pub lower_hex : ℕ → List ℕ
unfolding hex_before
lower_hex n = if n == 0 then 48 ∷ [] else hex_before 16 n []

abbrev pub pow16 : ℕ → ℕ
pow16 zero = 1
pow16 (suc n) = 16 * pow16 n

pub to_digit-digit : (d : ℕ) → d < 16 → to_digit (digit d) ≡ some d
to_digit-digit d h = ground arith

hex_digits-digit :
    (values acc d : ℕ) (cs : List ℕ)
    → d < 16
    → acc * 16 + d < values
    → hex_digits values acc (digit d ∷ cs) ≡ hex_digits values (acc * 16 + d) cs
unfolding hex_digits
hex_digits-digit values acc d cs h k = ground (arith, to_digit-digit d h)

hex_digits-hex_before :
    (fuel values n : ℕ) (out : List ℕ)
    → n < pow16 fuel
    → n < values
    → hex_digits values 0 (hex_before fuel n out) ≡ hex_digits values n out
unfolding hex_before
hex_digits-hex_before zero values n out h k = ap (λ m. hex_digits values m out) (omega (arith, h))
hex_digits-hex_before (suc fuel) values n out h k = ground (
  arith,
  hex_digits-hex_before fuel values (n / 16) (digit (n % 16) ∷ out),
  hex_digits-digit values (n / 16) (n % 16) out,
)

-- A byte of ASCII that is no white space and no plus sign.
abbrev pub IsPlain : ℕ → Type 0
IsPlain c = (is_whitespace c ≡ false) × ((c == 43) ≡ false) × (ltb c 128 ≡ true)

digit-IsPlain : (d : ℕ) → d < 16 → IsPlain (digit d)
digit-IsPlain d h = (ground arith, ground arith, ground arith)

hex_before-IsPlain :
    (fuel n : ℕ) (out : List ℕ) → All IsPlain out → All IsPlain (hex_before fuel n out)
unfolding hex_before
hex_before-IsPlain zero n out h = h
hex_before-IsPlain (suc fuel) n out h = elim (Bool-cases (n == 0)) [
  | inl e ↦ rw e h
  | inr e ↦ rw e (
      hex_before-IsPlain fuel (n / 16) (digit (n % 16) ∷ out)
        (digit-IsPlain (n % 16) (omega arith), h))
]

space_at_start-IsPlain : (c : ℕ) (cs : List ℕ) → IsPlain c → space_at_start (c ∷ cs) ≡ 0
space_at_start-IsPlain c [] (h, _, _) = rw h refl
space_at_start-IsPlain c (b ∷ []) (h, _, k) = ground (arith, h, k)
space_at_start-IsPlain c (b ∷ a ∷ rest) (h, _, k) = ground (arith, h, k)

space_at_end-IsPlain : (c : ℕ) (cs : List ℕ) → IsPlain c → space_at_end (c ∷ cs) ≡ 0
space_at_end-IsPlain c [] (h, _, _) = rw h refl
space_at_end-IsPlain c (b ∷ []) (h, _, k) = ground (arith, h, k)
space_at_end-IsPlain c (b ∷ a ∷ rest) (h, _, k) = ground (arith, h, k)

trim_from-IsPlain :
    (space : List ℕ → ℕ) (cs : List ℕ)
    → ((c : ℕ) (rest : List ℕ) → IsPlain c → space (c ∷ rest) ≡ 0)
    → All IsPlain cs
    → trim_from space 0 cs ≡ cs
unfolding trim_from
trim_from-IsPlain space [] none_at h = refl
trim_from-IsPlain space (c ∷ cs) none_at h = rw (trim_from, none_at c cs h.0) refl

All-reverse : (cs : List ℕ) → All IsPlain cs → All IsPlain (reverse cs)
All-reverse [] h = tt
All-reverse (c ∷ cs) h =
    rw (reverse-cons c cs) (All-append IsPlain (reverse cs) (c ∷ []) (All-reverse cs h.1) (h.0, tt))

pub trim-IsPlain : (cs : List ℕ) → All IsPlain cs → trim cs ≡ cs
unfolding trim
trim-IsPlain cs h =
    ap (λ xs. reverse (trim_from space_at_end 0 (reverse xs)))
      (trim_from-IsPlain space_at_start cs space_at_start-IsPlain h)
    ∙ ap reverse
        (trim_from-IsPlain space_at_end (reverse cs) space_at_end-IsPlain (All-reverse cs h))
    ∙ reverse-reverse cs

from_str_radix_16-plain :
    (values n : ℕ) (cs : List ℕ)
    → All IsPlain cs
    → n ≢ 0
    → hex_digits values 0 cs ≡ some n
    → from_str_radix_16 values cs ≡ some n
unfolding from_str_radix_16 hex_digits
from_str_radix_16-plain values n [] h k e = ground (arith, k, e)
from_str_radix_16-plain values n (c ∷ cs) h k e = rw h.0.1 e

lower_hex-hex_before : (n : ℕ) → n ≢ 0 → lower_hex n ≡ hex_before 16 n []
unfolding lower_hex
lower_hex-hex_before n h = ground (arith, h)

-- What is printed of a number is read back as that number, white space trimmed or not.
pub from_str_radix_16-lower_hex :
    (n : ℕ) → n ≢ 0 → n < 2 ^ 64 → from_str_radix_16 (2 ^ 64) (trim (lower_hex n)) ≡ some n
unfolding hex_digits
from_str_radix_16-lower_hex n h k =
    let plain = hex_before-IsPlain 16 n [] tt in
    let within : n < pow16 16 = omega (arith, k) in
    rw (lower_hex-hex_before n h, trim-IsPlain (hex_before 16 n []) plain)
      (from_str_radix_16-plain (2 ^ 64) n (hex_before 16 n []) plain h
        (hex_digits-hex_before 16 (2 ^ 64) n [] within k))
