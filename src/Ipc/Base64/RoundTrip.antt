-- ===== src/Ipc/Base64/RoundTrip.antt =====
-- What `base64_encode` writes, `base64_decode` reads back.
use xgameruntime_rs.Base.{
  ℕ, ◌+◌, ◌*◌, ◌/◌, ◌%◌, ◌<◌, ◌≡◌, refl, ap, ◌∙◌, some, false, List, [], ◌∷◌, ◌++◌, ◌==◌, All,
  arith,
}
use xgameruntime_rs.Ipc.Base64.{
  padding, digit_char, digit_value, packed, base64_encode, trim_cons, trim_padding, chunk_value,
  three_bytes, decode_chunks, base64_decode, digit_value-digit_char,
}

-- The encoding before it is padded.
plain : List ℕ → List ℕ
plain [] = []
plain (a ∷ []) =
    digit_char (packed a 0 0 / 262144 % 64) ∷ digit_char (packed a 0 0 / 4096 % 64) ∷ []
plain (a ∷ b ∷ []) =
    digit_char (packed a b 0 / 262144 % 64)
    ∷ digit_char (packed a b 0 / 4096 % 64)
    ∷ digit_char (packed a b 0 / 64 % 64)
    ∷ []
plain (a ∷ b ∷ c ∷ rest) =
    digit_char (packed a b c / 262144 % 64)
    ∷ digit_char (packed a b c / 4096 % 64)
    ∷ digit_char (packed a b c / 64 % 64)
    ∷ digit_char (packed a b c % 64)
    ∷ plain rest

is_kept : (n : ℕ) → (digit_char (n % 64) == padding) ≡ false
is_kept n = (digit_value-digit_char (n % 64) (omega arith)).1

trim_cons_kept : (c : ℕ) (t : List ℕ) → (c == padding) ≡ false → trim_cons c t ≡ c ∷ t
trim_cons_kept c [] e = rw e refl
trim_cons_kept c (x ∷ xs) e = refl

trim_padding-base64_encode : (bs : List ℕ) → trim_padding (base64_encode bs) ≡ plain bs
unfolding plain base64_encode trim_padding
trim_padding-base64_encode [] = refl
trim_padding-base64_encode (a ∷ []) = rw (is_kept (packed a 0 0 / 4096)) refl
trim_padding-base64_encode (a ∷ b ∷ []) = rw (is_kept (packed a b 0 / 64)) refl
trim_padding-base64_encode (a ∷ b ∷ c ∷ rest) =
    rw
      (
        trim_padding-base64_encode rest,
        trim_cons_kept (digit_char (packed a b c % 64)) (plain rest) (is_kept (packed a b c)),
      )
      refl

chunk_value_end : (acc : ℕ) → chunk_value acc [] ≡ some acc
unfolding chunk_value
chunk_value_end acc = refl

value_of : (n : ℕ) → digit_value (digit_char (n % 64)) ≡ some (n % 64)
value_of n = (digit_value-digit_char (n % 64) (omega arith)).0

chunk_value_step :
    (acc n : ℕ) (cs : List ℕ)
    → chunk_value acc (digit_char (n % 64) ∷ cs) ≡ chunk_value (acc * 64 + n % 64) cs
unfolding chunk_value
chunk_value_step acc n cs = rw (chunk_value, value_of n) refl

chunk_value_first :
    (n : ℕ) (cs : List ℕ) → chunk_value 0 (digit_char (n % 64) ∷ cs) ≡ chunk_value (n % 64) cs
chunk_value_first n cs = chunk_value_step 0 n cs ∙ ap (λ x. chunk_value x cs) (omega arith)

chunk_value_two :
    (m n : ℕ)
    → chunk_value 0 (digit_char (m % 64) ∷ digit_char (n % 64) ∷ []) ≡ some (m % 64 * 64 + n % 64)
chunk_value_two m n =
    chunk_value_first m (digit_char (n % 64) ∷ [])
    ∙ chunk_value_step (m % 64) n []
    ∙ chunk_value_end (m % 64 * 64 + n % 64)

chunk_value_three :
    (m n p : ℕ)
    → chunk_value 0 (digit_char (m % 64) ∷ digit_char (n % 64) ∷ digit_char (p % 64) ∷ [])
      ≡ some ((m % 64 * 64 + n % 64) * 64 + p % 64)
chunk_value_three m n p =
    chunk_value_first m (digit_char (n % 64) ∷ digit_char (p % 64) ∷ [])
    ∙ chunk_value_step (m % 64) n (digit_char (p % 64) ∷ [])
    ∙ chunk_value_step (m % 64 * 64 + n % 64) p []
    ∙ chunk_value_end ((m % 64 * 64 + n % 64) * 64 + p % 64)

chunk_value_four :
    (m n p q : ℕ)
    → chunk_value 0
        (digit_char (m % 64) ∷ digit_char (n % 64) ∷ digit_char (p % 64) ∷ digit_char (q % 64) ∷ [])
      ≡ some (((m % 64 * 64 + n % 64) * 64 + p % 64) * 64 + q % 64)
chunk_value_four m n p q =
    chunk_value_first m (digit_char (n % 64) ∷ digit_char (p % 64) ∷ digit_char (q % 64) ∷ [])
    ∙ chunk_value_step (m % 64) n (digit_char (p % 64) ∷ digit_char (q % 64) ∷ [])
    ∙ chunk_value_step (m % 64 * 64 + n % 64) p (digit_char (q % 64) ∷ [])
    ∙ chunk_value_step ((m % 64 * 64 + n % 64) * 64 + p % 64) q []
    ∙ chunk_value_end (((m % 64 * 64 + n % 64) * 64 + p % 64) * 64 + q % 64)

-- The digits of a number of 24 bits make it up.
whole :
    (n : ℕ)
    → n < 16777216
    → ((n / 262144 % 64 * 64 + n / 4096 % 64) * 64 + n / 64 % 64) * 64 + n % 64 ≡ n
whole n h = omega (arith, h)

three_bytes-packed :
    (a b c : ℕ) → a < 256 → b < 256 → c < 256 → three_bytes (packed a b c) ≡ a ∷ b ∷ c ∷ []
three_bytes-packed a b c ha hb hc =
    ap (λ x. x ∷ packed a b c / 256 % 256 ∷ packed a b c % 256 ∷ []) (omega (arith, ha, hb, hc))
    ∙ ap (λ x. a ∷ x ∷ packed a b c % 256 ∷ []) (omega (arith, ha, hb, hc))
    ∙ ap (λ x. a ∷ b ∷ x ∷ []) (omega (arith, ha, hb, hc))

decode_chunks-plain : (bs : List ℕ) → All (λ b. b < 256) bs → decode_chunks (plain bs) ≡ some bs
unfolding plain decode_chunks
decode_chunks-plain [] h = refl
decode_chunks-plain (a ∷ []) h =
    rw (chunk_value_two (packed a 0 0 / 262144) (packed a 0 0 / 4096))
      (ap (λ x. some (x ∷ [])) (omega (arith, h.0)))
decode_chunks-plain (a ∷ b ∷ []) h =
    let n = packed a b 0 in
    let v = ((n / 262144 % 64 * 64 + n / 4096 % 64) * 64 + n / 64 % 64) * 64 in
    rw (chunk_value_three (n / 262144) (n / 4096) (n / 64)) (
      ap (λ x. some (x ∷ v / 256 % 256 ∷ [])) (omega (arith, h.0, h.1.0))
      ∙ ap (λ x. some (a ∷ x ∷ [])) (omega (arith, h.0, h.1.0)))
decode_chunks-plain (a ∷ b ∷ c ∷ rest) h =
    let n = packed a b c in
    let small : n < 16777216 = omega (arith, h.0, h.1.0, h.1.1.0) in
    rw
      (
        chunk_value_four (n / 262144) (n / 4096) (n / 64) n,
        decode_chunks-plain rest h.1.1.1,
        whole n small,
      )
      (ap (λ xs. some (xs ++ rest)) (three_bytes-packed a b c h.0 h.1.0 h.1.1.0))

-- Every list of bytes comes back from its base64 encoding.
pub base64_decode-base64_encode :
    (bs : List ℕ) → All (λ b. b < 256) bs → base64_decode (base64_encode bs) ≡ some bs
unfolding base64_decode
base64_decode-base64_encode bs h =
    ap decode_chunks (trim_padding-base64_encode bs) ∙ decode_chunks-plain bs h
