-- ===== src/User/Requests/Fetched.antt =====
-- A title fetches a signed token and takes it.
use xgameruntime_rs.Base.{ℕ, ◌≤◌, ◌≡◌, ◌≢◌, some, false, List, [], ◌⊎◌}
use xgameruntime_rs.Base.Heap.{Heap}
use xgameruntime_rs.Base.Memory.{read_bytes}
use xgameruntime_rs.Results.{Result, ok, err, s_ok}
use xgameruntime_rs.User.Buffers.{
  PendingMap, Signed, needed_for, failed_with, needed_for_utf16, token_and_signature_utf16_size,
  token_and_signature_utf16_result, token_and_signature_size, token_and_signature_result,
}
use xgameruntime_rs.User.Buffers.Layout.{Holds}
use xgameruntime_rs.User.Buffers.Layout.Utf16.{HoldsUnits}

-- A buffer with room for what the service answers.
abbrev pub Fits : Result Signed → ℕ → Type 0
Fits (ok r) size = needed_for r ≤ size
Fits (err hr) size = Unit {0}

-- What a title gets at `key`, of an answer of the service: the size and the whole result, or the
-- service's failure from both calls.
abbrev pub Answers : Result Signed → PendingMap Signed → ℕ → ℕ → ℕ → ℕ → Heap ℕ → Type 0
Answers (ok r) pending key size buffer x m =
    let w = token_and_signature_result pending key size buffer false false m in
    (token_and_signature_size pending key false ≡ ok (needed_for r))
    × (w.status ≡ s_ok)
    × (w.pointer ≡ some buffer)
    × Holds r buffer size x w.memory m
Answers (err hr) pending key size buffer x m =
    (token_and_signature_size pending key false ≡ err hr)
    × (token_and_signature_result pending key size buffer false false m ≡ failed_with hr m)

-- The same from the exports whose strings are 16-bit units.
abbrev pub FitsUnits : (List ℕ → List ℕ) → Result Signed → ℕ → Type 0
FitsUnits encode_utf16 (ok r) size = needed_for_utf16 encode_utf16 r ≤ size
FitsUnits encode_utf16 (err hr) size = Unit {0}

abbrev pub AnswersUnits :
    (List ℕ → List ℕ) → Result Signed → PendingMap Signed → ℕ → ℕ → ℕ → ℕ → Heap ℕ → Type 0
AnswersUnits encode_utf16 (ok r) pending key size buffer x m =
    let w = token_and_signature_utf16_result encode_utf16 pending key size buffer false false m in
    (token_and_signature_utf16_size encode_utf16 pending key false
      ≡ ok (needed_for_utf16 encode_utf16 r))
    × (w.status ≡ s_ok)
    × (w.pointer ≡ some buffer)
    × HoldsUnits encode_utf16 r buffer size x w.memory m
AnswersUnits encode_utf16 (err hr) pending key size buffer x m =
    (token_and_signature_utf16_size encode_utf16 pending key false ≡ err hr)
    × (token_and_signature_utf16_result encode_utf16 pending key size buffer false false m
        ≡ failed_with hr m)

-- The body of a request: the title's bytes at the call, or none where it gave no size or no buffer.
abbrev pub IsBody : List ℕ → ℕ → ℕ → Heap ℕ → Type 0
IsBody body size buffer m =
    ((size ≢ 0) × (buffer ≢ 0) × (body ≡ read_bytes size buffer m))
    ⊎ (((size ≡ 0) ⊎ (buffer ≡ 0)) × (body ≡ []))
