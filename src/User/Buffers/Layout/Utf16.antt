-- ===== src/User/Buffers/Layout/Utf16.antt =====
-- The same for `XUserGetTokenAndSignatureUtf16Result`, whose strings are 16-bit units and whose
-- sizes count units.
use xgameruntime_rs.Base.{
  ℕ, ◌+◌, ◌*◌, ◌≤◌, ◌≡◌, ◌≢◌, refl, sym, ap, ◌∙◌, some, false, ◌&&◌, List, [], ◌∷◌, if◌then◌else◌,
  length, length-append, ltb, leb, arith, subst,
}
use xgameruntime_rs.Base.Heap.{Heap}
use xgameruntime_rs.Base.Map.{lookup}
use xgameruntime_rs.Base.Memory.{read_bytes}
use xgameruntime_rs.Results.{ok, s_ok}
use xgameruntime_rs.User.Buffers.{
  PendingMap, Signed, header, header_size, unit_bytes, units, write_signed_utf16, needed_for_utf16,
  token_and_signature_utf16_size, token_and_signature_utf16_result,
}
use xgameruntime_rs.User.Buffers.Layout.{
  laid, front-laid, first-laid, second-laid, outside-laid, length-header,
}

length-unit_bytes : (us : List ℕ) → length (unit_bytes us) ≡ length us * 2
unfolding unit_bytes
length-unit_bytes [] = refl
length-unit_bytes (u ∷ us) = omega (arith, length-unit_bytes us)

module _ (encode_utf16 : List ℕ → List ℕ) where
  abbrev pub signature_units_at : Signed → ℕ → ℕ
  signature_units_at r base = base + (header_size + length (units encode_utf16 r.token) * 2)

  abbrev pub header_units : Signed → ℕ → List ℕ
  header_units r base =
      header (length (units encode_utf16 r.token)) (length (units encode_utf16 r.signature))
        (base + header_size) (signature_units_at r base)

  -- A memory that holds a result in units at an address, and is as another was outside some bytes
  -- from it.
  abbrev pub HoldsUnits : Signed → ℕ → ℕ → ℕ → Heap ℕ → Heap ℕ → Type 0
  HoldsUnits r base size x memory before =
      (read_bytes header_size base memory ≡ header_units r base)
      × (read_bytes (length (units encode_utf16 r.token) * 2) (base + header_size) memory
          ≡ unit_bytes (units encode_utf16 r.token))
      × (read_bytes (length (units encode_utf16 r.signature) * 2) (signature_units_at r base) memory
          ≡ unit_bytes (units encode_utf16 r.signature))
      × (memory x ≡ (if leb base x && ltb x (base + size) then memory x else before x))

  module _ (r : Signed) (base : ℕ) (m : Heap ℕ) where
    abbrev first : List ℕ
    first = unit_bytes (units encode_utf16 r.token)

    abbrev second : List ℕ
    second = unit_bytes (units encode_utf16 r.signature)

    second_at : base + length (header_units r base) + length first ≡ signature_units_at r base
    second_at = omega (
      arith,
      length-header (length (units encode_utf16 r.token)) (length (units encode_utf16 r.signature))
          (base + header_size) (signature_units_at r base),
      length-unit_bytes (units encode_utf16 r.token),
    )

    first_at : base + length (header_units r base) ≡ base + header_size
    first_at = ap (λ n. base + n) (length-header _ _ _ _)

    write_signed_utf16-laid :
        write_signed_utf16 encode_utf16 r base m ≡ laid (header_units r base) first second base m
    unfolding write_signed_utf16
    write_signed_utf16-laid = rw (second_at, first_at) refl

    write_signed_utf16-HoldsUnits :
        (size x : ℕ)
        → needed_for_utf16 encode_utf16 r ≤ size
        → HoldsUnits r base size x (write_signed_utf16 encode_utf16 r base m) m
    write_signed_utf16-HoldsUnits size x fits =
        let head = header_units r base in
        let memory = laid head first second base m in
        let thirty_two : length head ≡ header_size = length-header _ _ _ _ in
        let wide = length-unit_bytes (units encode_utf16 r.token) in
        let wider = length-unit_bytes (units encode_utf16 r.signature) in
        subst (λ memory. HoldsUnits r base size x memory m) (sym write_signed_utf16-laid)
          (
            ap (λ n. read_bytes n base memory) (sym thirty_two)
                ∙ front-laid head first second base m,
            ap (λ n. read_bytes n (base + header_size) memory) (sym wide)
                ∙ ap (λ a. read_bytes (length first) a memory) (sym first_at)
                ∙ first-laid head first second base m,
            ap (λ n. read_bytes n (signature_units_at r base) memory) (sym wider)
                ∙ ap (λ a. read_bytes (length second) a memory) (sym second_at)
                ∙ second-laid head first second base m,
            outside-laid head first second base size x m
                (omega (arith, fits, thirty_two, wide, wider)),
          )

  -- The same contract as that of the export for bytes.
  pub token_and_signature_utf16_result-size :
      (pending : PendingMap Signed) (key size buffer x : ℕ) (m : Heap ℕ) (r : Signed)
      → lookup key pending ≡ some (ok r)
      → buffer ≢ 0
      → needed_for_utf16 encode_utf16 r ≤ size
      → let w =
          token_and_signature_utf16_result encode_utf16 pending key size buffer false false m in
        (token_and_signature_utf16_size encode_utf16 pending key false
          ≡ ok (needed_for_utf16 encode_utf16 r))
        × (w.status ≡ s_ok)
        × (w.pointer ≡ some buffer)
        × HoldsUnits r buffer size x w.memory m
  unfolding token_and_signature_utf16_result token_and_signature_utf16_size
  token_and_signature_utf16_result-size pending key size buffer x m r found nonnull fits =
      let whole : token_and_signature_utf16_result encode_utf16 pending key size buffer false false
            m
          ≡ record {
            status = s_ok;
            memory = write_signed_utf16 encode_utf16 r buffer m;
            pointer = some buffer;
            used = some (needed_for_utf16 encode_utf16 r);
          } =
        ground (arith, found, nonnull, fits) in
      (
        rw found (
            ap ok (
              omega (
                arith,
                length-append (encode_utf16 r.token) (0 ∷ []),
                length-append (encode_utf16 r.signature) (0 ∷ []),
              ))),
        ap (λ w. w.status) whole,
        ap (λ w. w.pointer) whole,
        subst (λ w. HoldsUnits r buffer size x w.memory m) (sym whole)
            (write_signed_utf16-HoldsUnits r buffer m size x fits),
      )
