-- ===== src/User/Buffers/Layout.antt =====
-- Where a token and a signature lie in the title's buffer.
pub mod Utf16
use xgameruntime_rs.Base.{
  ℕ, ◌+◌, ◌≤◌, ◌≡◌, ◌≢◌, refl, sym, ap, ◌∙◌, some, none, Bool, false, ◌&&◌, List, [], ◌∷◌, ◌++◌,
  if◌then◌else◌, length, length-append, ltb, leb, arith, Bool-cases, inl, inr, subst,
}
use xgameruntime_rs.Base.Heap.{Heap}
use xgameruntime_rs.Base.Map.{lookup}
use xgameruntime_rs.Base.Memory.{
  write_bytes, read_bytes, le_bytes, length-le_bytes, write_bytes_below, write_bytes_above,
  read-write_bytes, read_bytes_same, write_bytes-append,
}
use xgameruntime_rs.Results.{ok, s_ok}
use xgameruntime_rs.User.Buffers.{
  PendingMap, Signed, header, header_size, write_c_string, write_signed, needed_for,
  token_and_signature_size, token_and_signature_result,
}

-- Three pieces, one after the other, the first of them written last.
abbrev pub laid : List ℕ → List ℕ → List ℕ → ℕ → Heap ℕ → Heap ℕ
laid front first second base m = write_bytes front base (
    write_bytes second (base + length front + length first)
      (write_bytes first (base + length front) m))

pub front-laid :
    (front first second : List ℕ) (base : ℕ) (m : Heap ℕ)
    → read_bytes (length front) base (laid front first second base m) ≡ front
front-laid front first second base m = read-write_bytes front base _

pub first-laid :
    (front first second : List ℕ) (base : ℕ) (m : Heap ℕ)
    → read_bytes (length first) (base + length front) (laid front first second base m) ≡ first
first-laid front first second base m =
    let m₁ = write_bytes first (base + length front) m in
    let m₂ = write_bytes second (base + length front + length first) m₁ in
    read_bytes_same (length first) (base + length front) (write_bytes front base m₂) m₁
      (λ x low high.
        write_bytes_above front base x m₂ low
        ∙ write_bytes_below second (base + length front + length first) x m₁ high)
    ∙ read-write_bytes first (base + length front) m

pub second-laid :
    (front first second : List ℕ) (base : ℕ) (m : Heap ℕ)
    → read_bytes
        (length second)
        (base + length front + length first)
        (laid front first second base m)
      ≡ second
second-laid front first second base m =
    let m₁ = write_bytes first (base + length front) m in
    let m₂ = write_bytes second (base + length front + length first) m₁ in
    read_bytes_same (length second) (base + length front + length first) (write_bytes front base m₂)
      m₂ (λ x low high. write_bytes_above front base x m₂ (omega (arith, low)))
    ∙ read-write_bytes second (base + length front + length first) m₁

pub outside-laid :
    (front first second : List ℕ) (base size x : ℕ) (m : Heap ℕ)
    → length front + length first + length second ≤ size
    → laid front first second base m x
      ≡ (if leb base x && ltb x (base + size) then laid front first second base m x else m x)
outside-laid front first second base size x m fits =
    let m₁ = write_bytes first (base + length front) m in
    let m₂ = write_bytes second (base + length front + length first) m₁ in
    elim (Bool-cases (ltb x base)) [
      | inl low ↦ ground (
        arith,
        low,
        write_bytes_below front base x m₂,
        write_bytes_below second (base + length front + length first) x m₁,
        write_bytes_below first (base + length front) x m,
      )
      | inr high ↦ ground (
        arith,
        high,
        fits,
        write_bytes_above front base x m₂,
        write_bytes_above second (base + length front + length first) x m₁,
        write_bytes_above first (base + length front) x m,
      )
    ]

pub write_c_string_bytes :
    (bs : List ℕ) (address : ℕ) (m : Heap ℕ)
    → write_c_string bs address m ≡ write_bytes (bs ++ 0 ∷ []) address m
unfolding write_c_string
write_c_string_bytes bs address m =
    sym (write_bytes-append bs (0 ∷ []) address m ∙ unfold write_bytes in refl)

pub length-header : (a b c d : ℕ) → length (header a b c d) ≡ header_size
unfolding le_bytes
length-header a b c d =
    let front = le_bytes 8 a in
    length-append front (le_bytes 8 b ++ le_bytes 8 c ++ le_bytes 8 d)
    ∙ omega (
      arith,
      length-append (le_bytes 8 b) (le_bytes 8 c ++ le_bytes 8 d),
      length-append (le_bytes 8 c) (le_bytes 8 d),
      length-le_bytes 8 a,
      length-le_bytes 8 b,
      length-le_bytes 8 c,
      length-le_bytes 8 d,
    )

abbrev pub token_at : ℕ → ℕ
token_at base = base + header_size

abbrev pub signature_at : Signed → ℕ → ℕ
signature_at r base = base + header_size + (length r.token + 1)

abbrev pub header_of : Signed → ℕ → List ℕ
header_of r base =
    header (length r.token + 1) (length r.signature + 1) (token_at base) (signature_at r base)

length-c_string : (bs : List ℕ) → length (bs ++ 0 ∷ []) ≡ length bs + 1
length-c_string bs = length-append bs (0 ∷ [])

write_signed-laid :
    (r : Signed) (base : ℕ) (m : Heap ℕ)
    → write_signed r base m
      ≡ laid (header_of r base) (r.token ++ 0 ∷ []) (r.signature ++ 0 ∷ []) base m
unfolding write_signed
write_signed-laid r base m =
    rw
      (
        length-header (length r.token + 1) (length r.signature + 1) (token_at base)
            (signature_at r base),
        length-c_string r.token,
        write_c_string_bytes r.token (token_at base) m,
        write_c_string_bytes r.signature (signature_at r base)
            (write_bytes (r.token ++ 0 ∷ []) (token_at base) m),
      )
      refl

-- A memory that holds a result at an address, and is as another was outside some bytes from it.
abbrev pub Holds : Signed → ℕ → ℕ → ℕ → Heap ℕ → Heap ℕ → Type 0
Holds r base size x memory before =
    (read_bytes header_size base memory ≡ header_of r base)
    × (read_bytes (length r.token + 1) (token_at base) memory ≡ r.token ++ 0 ∷ [])
    × (read_bytes (length r.signature + 1) (signature_at r base) memory ≡ r.signature ++ 0 ∷ [])
    × (memory x ≡ (if leb base x && ltb x (base + size) then memory x else before x))

write_signed-Holds :
    (r : Signed) (base size x : ℕ) (m : Heap ℕ)
    → needed_for r ≤ size
    → Holds r base size x (write_signed r base m) m
write_signed-Holds r base size x m fits =
    let front = header_of r base in
    let first = r.token ++ 0 ∷ [] in
    let second = r.signature ++ 0 ∷ [] in
    let thirty_two : length front ≡ header_size = length-header _ _ _ _ in
    let room : length front + length first + length second ≤ size =
      omega (arith, fits, thirty_two, length-c_string r.token, length-c_string r.signature) in
    let memory = laid front first second base m in
    subst (λ memory. Holds r base size x memory m) (sym (write_signed-laid r base m))
      (
        ap (λ n. read_bytes n base memory) (sym thirty_two) ∙ front-laid front first second base m,
        ap (λ n. read_bytes n (token_at base) memory) (sym (length-c_string r.token))
            ∙ ap (λ n. read_bytes (length first) (base + n) memory) (sym thirty_two)
            ∙ first-laid front first second base m,
        ap (λ n. read_bytes n (signature_at r base) memory) (sym (length-c_string r.signature))
            ∙ ap (λ n. read_bytes (length second) (base + header_size + n) memory)
                (sym (length-c_string r.token))
            ∙ ap (λ n. read_bytes (length second) (base + n + length first) memory) (sym thirty_two)
            ∙ second-laid front first second base m,
        outside-laid front first second base size x m room,
      )

-- A title that asks for a result that is there, with a buffer at least of the size that
-- `XUserGetTokenAndSignatureResultSize` reports, gets it: the status is `S_OK`, the header at the
-- start of the buffer gives the sizes and the addresses of token and signature, each lies whole at
-- its address with a NUL after it, and no address outside the buffer changes.
pub token_and_signature_result-size :
    (pending : PendingMap Signed) (key size buffer : ℕ) (no_used : Bool) (m : Heap ℕ) (r : Signed)
    (x : ℕ)
    → lookup key pending ≡ some (ok r)
    → buffer ≢ 0
    → needed_for r ≤ size
    → let w = token_and_signature_result pending key size buffer false no_used m in
      (token_and_signature_size pending key false ≡ ok (needed_for r))
      × (w.status ≡ s_ok)
      × (w.pointer ≡ some buffer)
      × Holds r buffer size x w.memory m
unfolding token_and_signature_result token_and_signature_size
token_and_signature_result-size pending key size buffer no_used m r x found nonnull fits =
    let whole : token_and_signature_result pending key size buffer false no_used m ≡ record {
      status = s_ok;
      memory = write_signed r buffer m;
      pointer = some buffer;
      used = if no_used then none else some (needed_for r);
    } =
      ground (arith, found, nonnull, fits) in
    (
      rw found (ap ok (omega arith)),
      ap (λ w. w.status) whole,
      ap (λ w. w.pointer) whole,
      subst (λ w. Holds r buffer size x w.memory m) (sym whole)
          (write_signed-Holds r buffer size x m fits),
    )
