-- ===== src/Ipc/Base64.antt =====
-- src/ipc.rs, `base64_encode` and `base64_decode`. A string is the list of its bytes.
pub mod RoundTrip
use xgameruntime_rs.Base.{
  ℕ, zero, suc, ◌+◌, ◌-◌, ◌*◌, ◌/◌, ◌%◌, ◌<◌, ◌≡◌, ◌≢◌, refl, sym, ap, subst, inl, inr, Bool-cases,
  ◌∙◌, Option, none, some, Bool, true, false, not, ◌&&◌, List, [], ◌∷◌, ◌++◌, leb, ltb, ◌==◌,
  ==_iff, if◌then◌else◌, length, All, arith,
}

-- "ABCDEFGHIJKLMNOPQRSTUVWXYZabcdefghijklmnopqrstuvwxyz0123456789+/".
abbrev pub base64_alphabet : List ℕ
base64_alphabet =
    65 ∷ 66 ∷ 67 ∷ 68 ∷ 69 ∷ 70 ∷ 71 ∷ 72 ∷ 73 ∷ 74 ∷ 75 ∷ 76 ∷ 77 ∷ 78 ∷ 79 ∷ 80 ∷ 81 ∷ 82 ∷ 83
    ∷ 84 ∷ 85 ∷ 86 ∷ 87 ∷ 88 ∷ 89 ∷ 90 ∷ 97 ∷ 98 ∷ 99 ∷ 100 ∷ 101 ∷ 102 ∷ 103 ∷ 104 ∷ 105 ∷ 106
    ∷ 107 ∷ 108 ∷ 109 ∷ 110 ∷ 111 ∷ 112 ∷ 113 ∷ 114 ∷ 115 ∷ 116 ∷ 117 ∷ 118 ∷ 119 ∷ 120 ∷ 121 ∷ 122
    ∷ 48 ∷ 49 ∷ 50 ∷ 51 ∷ 52 ∷ 53 ∷ 54 ∷ 55 ∷ 56 ∷ 57 ∷ 43 ∷ 47 ∷ []

-- `=`.
abbrev pub padding : ℕ
padding = 61

-- Indexing; the indices are below 64.
abbrev nth : ℕ → List ℕ → ℕ
nth n [] = 0
nth zero (x ∷ xs) = x
nth (suc n) (x ∷ xs) = nth n xs

-- `iter().position(…)`, counting from a start.
abbrev position_from : ℕ → ℕ → List ℕ → Option ℕ
position_from start c [] = none
position_from start c (x ∷ xs) = if x == c then some start else position_from (start + 1) c xs

unfoldable pub digit_char : ℕ → ℕ
digit_char i = nth i base64_alphabet

-- The helper `value` of `base64_decode`.
unfoldable pub digit_value : ℕ → Option ℕ
digit_value c = position_from 0 c base64_alphabet

-- The 24 bits of a chunk of three bytes.
abbrev pub packed : ℕ → ℕ → ℕ → ℕ
packed a b c = a * 65536 + b * 256 + c

unfoldable pub base64_encode : List ℕ → List ℕ
base64_encode [] = []
base64_encode (a ∷ []) =
    let n = packed a 0 0 in
    digit_char (n / 262144 % 64) ∷ digit_char (n / 4096 % 64) ∷ padding ∷ padding ∷ []
base64_encode (a ∷ b ∷ []) =
    let n = packed a b 0 in
    digit_char (n / 262144 % 64)
    ∷ digit_char (n / 4096 % 64)
    ∷ digit_char (n / 64 % 64)
    ∷ padding
    ∷ []
base64_encode (a ∷ b ∷ c ∷ rest) =
    let n = packed a b c in
    digit_char (n / 262144 % 64)
    ∷ digit_char (n / 4096 % 64)
    ∷ digit_char (n / 64 % 64)
    ∷ digit_char (n % 64)
    ∷ base64_encode rest

-- `trim_end_matches('=')`.
abbrev pub trim_cons : ℕ → List ℕ → List ℕ
trim_cons c [] = if c == padding then [] else c ∷ []
trim_cons c (x ∷ xs) = c ∷ x ∷ xs

unfoldable pub trim_padding : List ℕ → List ℕ
trim_padding [] = []
trim_padding (c ∷ cs) = trim_cons c (trim_padding cs)

-- The digits of a chunk as a number; none where a character is no digit.
unfoldable pub chunk_value : ℕ → List ℕ → Option ℕ
chunk_value n [] = some n
chunk_value n (c ∷ cs) = elim (digit_value c) [ none ↦ none | some v ↦ chunk_value (n * 64 + v) cs ]

-- Bytes of a 32-bit number, the highest first, from the second on.
abbrev pub one_byte : ℕ → List ℕ
one_byte n = n / 65536 % 256 ∷ []

abbrev pub two_bytes : ℕ → List ℕ
two_bytes n = n / 65536 % 256 ∷ n / 256 % 256 ∷ []

abbrev pub three_bytes : ℕ → List ℕ
three_bytes n = n / 65536 % 256 ∷ n / 256 % 256 ∷ n % 256 ∷ []

abbrev pub joined : Option ℕ → (ℕ → List ℕ) → Option (List ℕ) → Option (List ℕ)
joined none bytes rest = none
joined (some n) bytes none = none
joined (some n) bytes (some rest) = some (bytes n ++ rest)

-- The loop over the chunks. A number of less than four digits is shifted to 24 bits.
unfoldable pub decode_chunks : List ℕ → Option (List ℕ)
decode_chunks [] = some []
decode_chunks (a ∷ []) = none
decode_chunks (a ∷ b ∷ []) =
    joined (chunk_value 0 (a ∷ b ∷ [])) (λ n. one_byte (n * 4096)) (some [])
decode_chunks (a ∷ b ∷ c ∷ []) =
    joined (chunk_value 0 (a ∷ b ∷ c ∷ [])) (λ n. two_bytes (n * 64)) (some [])
decode_chunks (a ∷ b ∷ c ∷ d ∷ rest) =
    joined (chunk_value 0 (a ∷ b ∷ c ∷ d ∷ [])) three_bytes (decode_chunks rest)

unfoldable pub base64_decode : List ℕ → Option (List ℕ)
base64_decode s = decode_chunks (trim_padding s)

is_all : ℕ → (ℕ → Bool) → Bool
is_all zero test = true
is_all (suc n) test = test n && is_all n test

is_all-at : (n : ℕ) (test : ℕ → Bool) (i : ℕ) → is_all n test ≡ true → i < n → test i ≡ true
unfolding is_all
is_all-at zero test i e h = absurd (omega (arith, h))
is_all-at (suc n) test i e h = elim (Bool-cases (i == n)) [
  | inl same ↦ subst (λ k. test k ≡ true) (sym ((==_iff i n).0 same)) (ground (arith, e))
  | inr other ↦ is_all-at n test i (ground (arith, e)) (ground (arith, other, h))
]

abbrev is_some_of : Option ℕ → ℕ → Bool
is_some_of none i = false
is_some_of (some v) i = v == i

-- A digit is read back, and is not the padding.
is_digit : ℕ → Bool
unfolding digit_char digit_value
is_digit i = is_some_of (digit_value (digit_char i)) i && not (digit_char i == padding)

is_digit_all : is_all 64 is_digit ≡ true
unfolding is_all is_digit digit_char digit_value
is_digit_all = refl

digit_value-digit_char :
    (i : ℕ) → i < 64 → (digit_value (digit_char i) ≡ some i) × ((digit_char i == padding) ≡ false)
unfolding is_digit
digit_value-digit_char i h = ground (arith, is_all-at 64 is_digit i is_digit_all h)
