-- ===== src/User/Requests.antt =====
-- src/com/xuser/impl.rs: the exports that fetch a result of variable length. Each gives the status
-- that it refuses with, or the body that it hands to `run_sync`. What the service answers is an
-- argument, and so are the conversions of a title's string that the standard library makes.
pub mod Fetched
use xgameruntime_rs.Base.{
  ℕ, Option, none, some, Bool, true, false, ◌||◌, List, [], ◌==◌, if◌then◌else◌,
}
use xgameruntime_rs.Base.Heap.{Heap}
use xgameruntime_rs.Base.Memory.{read_bytes}
use xgameruntime_rs.HandleTable.{get}
use xgameruntime_rs.Results.{Result, ok, err, e_invalidarg, e_pointer}
use xgameruntime_rs.User.{Users}
use xgameruntime_rs.User.Buffers.{PendingMap, Signed, keep_result}

-- A body acts on the results that are kept for the title; it ends with a failure or with none.
abbrev pub Body : Type 0 → Type 0
Body T = PendingMap T → Option ℕ × PendingMap T

-- A body where the user is open.
abbrev pub for_user : {B : Type 0} → ℕ → Users → Result B → Result B
for_user user s started = elim (get s.handles user) [ none ↦ err e_invalidarg | some ref ↦ started ]

-- The title's request body, copied at the call.
unfoldable pub request_body : ℕ → ℕ → Heap ℕ → List ℕ
request_body body_size body_buffer m =
    if (body_size == 0) || (body_buffer == 0) then [] else read_bytes body_size body_buffer m

-- The shape of the two exports, of a `method` and an `url` that are the title's strings, `none` where
-- null.
unfoldable pub signed_body :
    (List ℕ → List ℕ)
    → (List ℕ → List ℕ → List ℕ → Result Signed)
    → Option (List ℕ)
    → Option (List ℕ)
    → List ℕ
    → ℕ
    → Result (Body Signed)
signed_body into_string service none url body key = err e_pointer
signed_body into_string service (some method) none body key = err e_pointer
signed_body into_string service (some method) (some url) body key =
    ok (keep_result key (service (into_string method) (into_string url) body))

unfoldable pub get_token_and_signature_async :
    (List ℕ → List ℕ)
    → (List ℕ → List ℕ → List ℕ → Result Signed)
    → ℕ
    → Option (List ℕ)
    → Option (List ℕ)
    → ℕ
    → ℕ
    → ℕ
    → Users
    → Heap ℕ
    → Result (Body Signed)
unfolding get request_body signed_body
get_token_and_signature_async to_string_lossy service user method url body_size body_buffer key s
      m =
    for_user user s
      (signed_body to_string_lossy service method url (request_body body_size body_buffer m) key)

unfoldable pub get_token_and_signature_utf16_async :
    (List ℕ → List ℕ)
    → (List ℕ → List ℕ → List ℕ → Result Signed)
    → ℕ
    → Option (List ℕ)
    → Option (List ℕ)
    → ℕ
    → ℕ
    → ℕ
    → Users
    → Heap ℕ
    → Result (Body Signed)
unfolding get request_body signed_body
get_token_and_signature_utf16_async from_utf16_lossy service user method url body_size body_buffer
      key s m =
    for_user user s
      (signed_body from_utf16_lossy service method url (request_body body_size body_buffer m) key)

-- A scope that is null is left out of the request.
unfoldable pub get_msa_token_silently_async :
    (List ℕ → List ℕ)
    → (Option (List ℕ) → Result (List ℕ))
    → ℕ
    → Option (List ℕ)
    → ℕ
    → Users
    → Result (Body (List ℕ))
unfolding get
get_msa_token_silently_async to_string_lossy service user none key s =
    for_user user s (ok (keep_result key (service none)))
get_msa_token_silently_async to_string_lossy service user (some scope) key s =
    for_user user s (ok (keep_result key (service (some (to_string_lossy scope)))))

-- `unwrap_or_default`: an account without a picture has an empty one.
abbrev pub or_empty : Result (Option (List ℕ)) → Result (List ℕ)
or_empty (err hr) = err hr
or_empty (ok none) = ok []
or_empty (ok (some picture)) = ok picture

unfoldable pub get_gamer_picture_async :
    Result (Option (List ℕ)) → ℕ → ℕ → Users → Result (Body (List ℕ))
unfolding get
get_gamer_picture_async answer user key s = for_user user s (ok (keep_result key (or_empty answer)))

-- `XUserAddResult` and `XUserAddByIdWithUiResult`: `answer` is what `XAsyncGetResult` gives.
unfoldable pub add_result : Bool → ℕ → ℕ
add_result no_out answer = if no_out then e_pointer else answer
