-- ===== src/User/Buffers.antt =====
-- src/com/xuser/impl.rs: the results of variable length, kept by the title's `XAsyncBlock` pointer
-- until it asks for their size and then for them, and the gamertag. A pointer is an address, 0
-- where it is null. A `usize` has 64 bits; what is written fits the address space, so sizes are
-- added as they are.
pub mod Layout
use xgameruntime_rs.Base.{
  ℕ, zero, suc, ◌+◌, ◌*◌, ◌/◌, ◌%◌, Option, none, some, Bool, true, false, not, ◌||◌, ◌&&◌, List,
  [], ◌∷◌, ◌++◌, ◌==◌, if◌then◌else◌, length, ltb,
}
use xgameruntime_rs.Base.Heap.{Heap, update}
use xgameruntime_rs.Base.Memory.{write_bytes, le_bytes}
use xgameruntime_rs.Base.Map.{Map, lookup, insert}
use xgameruntime_rs.HandleTable.{get}
use xgameruntime_rs.Results.{
  Result, ok, err, s_ok, e_invalidarg, e_pointer, e_not_sufficient_buffer, e_illegal_method_call,
}
use xgameruntime_rs.User.{Users, UserState}

-- `PendingMap`.
abbrev pub PendingMap : Type 0 → Type 0
PendingMap T = Map (Result T)

-- An authorization token and a signature.
pub record Signed : Type 0 where
  pub token : List ℕ
  pub signature : List ℕ

-- The end of the bodies that fetch a result: it is kept, and the body ends as it did.
unfoldable pub keep_result : {T : Type 0} → ℕ → Result T → PendingMap T → Option ℕ × PendingMap T
keep_result key (ok value) pending = (none, insert key (ok value) pending)
keep_result key (err hr) pending = (some hr, insert key (err hr) pending)

-- What an export leaves: the status, the title's memory, and what it wrote to the out pointers
-- for the buffer and for the size used.
pub record Written : Type 0 where
  pub status : ℕ
  pub memory : Heap ℕ
  pub pointer : Option ℕ
  pub used : Option ℕ

abbrev pub failed_with : ℕ → Heap ℕ → Written
failed_with hr m = record { status = hr; memory = m; pointer = none; used = none }

-- The answers where there is no result.
abbrev pub sized : {T : Type 0} → (T → ℕ) → Option (Result T) → Result ℕ
sized size none = err e_illegal_method_call
sized size (some (err hr)) = err hr
sized size (some (ok value)) = ok (size value)

abbrev pub delivered : {T : Type 0} → (T → Written) → Option (Result T) → Heap ℕ → Written
delivered write none m = failed_with e_illegal_method_call m
delivered write (some (err hr)) m = failed_with hr m
delivered write (some (ok value)) m = write value

-- A string and its NUL.
unfoldable pub write_c_string : List ℕ → ℕ → Heap ℕ → Heap ℕ
unfolding write_bytes
write_c_string bs address m = update (write_bytes bs address m) (address + length bs) 0

abbrev pub used_of : Bool → ℕ → Option ℕ
used_of no_used n = if no_used then none else some n

unfoldable pub gamer_picture_size : PendingMap (List ℕ) → ℕ → Bool → Result ℕ
unfolding lookup
gamer_picture_size pending key no_out =
    if no_out then err e_pointer else sized length (lookup key pending)

unfoldable pub gamer_picture_result : PendingMap (List ℕ) → ℕ → ℕ → ℕ → Bool → Heap ℕ → Written
unfolding lookup write_bytes
gamer_picture_result pending key buffer_size buffer no_used m =
    delivered
      (λ picture.
        if ltb buffer_size (length picture)
        then failed_with e_not_sufficient_buffer m
        else if (buffer == 0) && not (length picture == 0)
        then failed_with e_pointer m
        else record {
          status = s_ok;
          memory = write_bytes picture buffer m;
          pointer = none;
          used = used_of no_used (length picture);
        })
      (lookup key pending) m

-- `size_of::<XUserGetTokenAndSignatureData>()`: two sizes and two pointers.
abbrev pub header_size : ℕ
header_size = 32

-- The fields of the header, as they lie in memory.
abbrev pub header : ℕ → ℕ → ℕ → ℕ → List ℕ
header first_size second_size first second =
    le_bytes 8 first_size ++ le_bytes 8 second_size ++ le_bytes 8 first ++ le_bytes 8 second

unfoldable pub token_and_signature_size : PendingMap Signed → ℕ → Bool → Result ℕ
unfolding lookup
token_and_signature_size pending key no_out =
    if no_out
    then err e_pointer
    else sized (λ r. header_size + length r.token + 1 + length r.signature + 1) (lookup key pending)

-- The copying of `XUserGetTokenAndSignatureResult`.
unfoldable pub write_signed : Signed → ℕ → Heap ℕ → Heap ℕ
unfolding write_c_string write_bytes le_bytes
write_signed r base m =
    let token_size = length r.token + 1 in
    let token = base + header_size in
    let signature = token + token_size in
    write_bytes (header token_size (length r.signature + 1) token signature) base
      (write_c_string r.signature signature (write_c_string r.token token m))

abbrev pub needed_for : Signed → ℕ
needed_for r = header_size + (length r.token + 1) + (length r.signature + 1)

-- `no_pointer` says that `ptr_to_buffer` is null.
unfoldable pub token_and_signature_result :
    PendingMap Signed → ℕ → ℕ → ℕ → Bool → Bool → Heap ℕ → Written
unfolding lookup write_signed
token_and_signature_result pending key buffer_size buffer no_pointer no_used m =
    delivered
      (λ r.
        if ltb buffer_size (needed_for r)
        then failed_with e_not_sufficient_buffer m
        else if (buffer == 0) || no_pointer
        then failed_with e_pointer m
        else record {
          status = s_ok;
          memory = write_signed r buffer m;
          pointer = some buffer;
          used = used_of no_used (needed_for r);
        })
      (lookup key pending) m

-- 16-bit units as they lie in memory.
unfoldable pub unit_bytes : List ℕ → List ℕ
unit_bytes [] = []
unit_bytes (u ∷ us) = u % 256 ∷ u / 256 % 256 ∷ unit_bytes us

module _ (encode_utf16 : List ℕ → List ℕ) where
  abbrev pub units : List ℕ → List ℕ
  units text = encode_utf16 text ++ 0 ∷ []

  unfoldable pub token_and_signature_utf16_size : PendingMap Signed → ℕ → Bool → Result ℕ
  unfolding lookup
  token_and_signature_utf16_size pending key no_out =
      if no_out
      then err e_pointer
      else sized
          (λ r.
            header_size
            + (length (encode_utf16 r.token) + 1 + (length (encode_utf16 r.signature) + 1)) * 2)
          (lookup key pending)

  unfoldable pub write_signed_utf16 : Signed → ℕ → Heap ℕ → Heap ℕ
  unfolding unit_bytes write_bytes le_bytes
  write_signed_utf16 r base m =
      let token = base + header_size in
      let signature = base + (header_size + length (units r.token) * 2) in
      write_bytes (header (length (units r.token)) (length (units r.signature)) token signature)
        base
        (write_bytes (unit_bytes (units r.signature)) signature
          (write_bytes (unit_bytes (units r.token)) token m))

  abbrev pub needed_for_utf16 : Signed → ℕ
  needed_for_utf16 r = header_size + length (units r.token) * 2 + length (units r.signature) * 2

  unfoldable pub token_and_signature_utf16_result :
      PendingMap Signed → ℕ → ℕ → ℕ → Bool → Bool → Heap ℕ → Written
  unfolding lookup write_signed_utf16
  token_and_signature_utf16_result pending key buffer_size buffer no_pointer no_used m =
      delivered
        (λ r.
          if ltb buffer_size (needed_for_utf16 r)
          then failed_with e_not_sufficient_buffer m
          else if (buffer == 0) || no_pointer
          then failed_with e_pointer m
          else record {
            status = s_ok;
            memory = write_signed_utf16 r buffer m;
            pointer = some buffer;
            used = used_of no_used (needed_for_utf16 r);
          })
        (lookup key pending) m

-- `XUserGetMsaTokenSilentlyResultSize`; the token's lifetime is not read.
unfoldable pub msa_token_size : PendingMap (List ℕ) → ℕ → Bool → Result ℕ
unfolding lookup
msa_token_size pending key no_out =
    if no_out then err e_pointer else sized (λ token. length token + 1) (lookup key pending)

unfoldable pub msa_token_result : PendingMap (List ℕ) → ℕ → ℕ → ℕ → Bool → Heap ℕ → Written
unfolding lookup write_c_string
msa_token_result pending key buffer_size buffer no_used m =
    delivered
      (λ token.
        if ltb buffer_size (length token + 1)
        then failed_with e_not_sufficient_buffer m
        else if buffer == 0
        then failed_with e_pointer m
        else record {
          status = s_ok;
          memory = write_c_string token buffer m;
          pointer = none;
          used = used_of no_used (length token + 1);
        })
      (lookup key pending) m

-- The name that `XUserGetGamertag` gives for a component: `GAMERTAG_COMPONENT_MODERN` is 1.
unfoldable pub gamertag_of : ℕ → UserState → List ℕ
gamertag_of component u =
    if (component == 1) && not (length u.gamertag_modern == 0)
    then u.gamertag_modern
    else u.gamertag

unfoldable pub get_gamertag : ℕ → ℕ → ℕ → ℕ → Bool → Users → Heap ℕ → Written
unfolding get gamertag_of write_c_string
get_gamertag user component size buffer no_used s m = elim (get s.handles user) [
  | none ↦ failed_with e_invalidarg m
  | some ref ↦
      let name = gamertag_of component (s.users ref) in
      let outcome : ℕ × Heap ℕ =
        if (buffer == 0) || (size == 0)
        then (s_ok, m)
        else if ltb size (length name + 1)
        then (e_not_sufficient_buffer, m)
        else (s_ok, write_c_string name buffer m) in
      record {
        status = outcome.0;
        memory = outcome.1;
        pointer = none;
        used = used_of no_used (length name + 1);
      }
]
