-- ===== src/Ipc/Requests.antt =====
-- src/ipc.rs, what the single requests make of the service's answers, and the answers that come from
-- the environment of the process. A variable of the environment is missing where it is not set. A
-- string is the list of its bytes.
use xgameruntime_rs.Base.{
  ℕ, zero, suc, ◌+◌, ◌*◌, ◌≡◌, refl, Option, none, some, Bool, false, ◌||◌, List, [], ◌∷◌, ◌==◌,
  if◌then◌else◌, length, ltb,
}
use xgameruntime_rs.Results.{e_fail, e_notimpl, e_accessdenied, Result, ok, err}
use xgameruntime_rs.Ipc.Base64.{base64_decode}
use xgameruntime_rs.User.{UserInfo, parse_u64, same_bytes}

abbrev pub token_and_signature_retries : ℕ
token_and_signature_retries = 3

module _ {A W : Type 0} (once : W → Result A × W) (sleep : W → W) where
  -- The loop of `get_token_and_signature`: the attempts that are left, and the last error.
  unfoldable pub try_attempts : ℕ → ℕ → W → Result A × W
  try_attempts zero last_err w = (err last_err, w)
  try_attempts (suc n) last_err w =
      let (answer, w₁) = once w in
      elim answer [
        | ok value ↦ (ok value, w₁)
        | err hr ↦ try_attempts n hr (if n == 0 then w₁ else sleep w₁)
      ]

  -- `once` is `get_token_and_signature_once`.
  unfoldable pub get_token_and_signature : W → Result A × W
  unfolding try_attempts
  get_token_and_signature w = try_attempts token_and_signature_retries e_fail w

-- The answer to `InteractiveSignInRequest`.
unfoldable pub interactive_sign_in : Result (Bool × UserInfo) → Result (Option UserInfo)
interactive_sign_in (err hr) = err hr
interactive_sign_in (ok (success, info)) = if success then ok (some info) else ok none

-- The answer to `GamerPictureRequest`.
unfoldable pub get_gamer_picture : Result (List ℕ) → Result (Option (List ℕ))
unfolding base64_decode
get_gamer_picture (err hr) = err hr
get_gamer_picture (ok picture) =
    if length picture == 0
    then ok none
    else elim (base64_decode picture) [ none ↦ err e_fail | some bytes ↦ ok (some bytes) ]

unfoldable pub non_empty_store_key : List ℕ → Result (List ℕ)
non_empty_store_key key = if length key == 0 then err e_accessdenied else ok key

-- The answers to `CollectionsIdRequest` and to `PurchaseIdRequest`.
unfoldable pub get_store_key : Result (List ℕ) → Result (List ℕ)
unfolding non_empty_store_key
get_store_key (err hr) = err hr
get_store_key (ok key) = non_empty_store_key key

-- The answer to `ResolveProductIdRequest`.
unfoldable pub resolve_product_id : Result (List ℕ) → Result (Option (List ℕ))
resolve_product_id (err hr) = err hr
resolve_product_id (ok product_id) =
    if length product_id == 0 then ok none else ok (some product_id)

-- `exchange` asks the service about a content id.
unfoldable pub get_game_license : {A : Type 0} → Option (List ℕ) → (List ℕ → Result A) → Result A
get_game_license none exchange = err e_notimpl
get_game_license (some content_id) exchange = exchange content_id

-- A number of the environment; `parse_u64` reads it.
abbrev parsed : Option (List ℕ) → Option ℕ
parsed none = none
parsed (some text) = parse_u64 text

abbrev or_else : Option ℕ → ℕ → ℕ
or_else none n = n
or_else (some m) n = m

-- In bytes, of two numbers in MiB. A product that does not fit 64 bits is left as it is: the code
-- wraps there, or panics.
unfoldable pub persistent_local_storage_space :
    Option (List ℕ) → Option (List ℕ) → Option (List ℕ) → Option (ℕ × ℕ)
unfolding parse_u64
persistent_local_storage_space none size_mb growable_to_mb = none
persistent_local_storage_space (some shareable) size_mb none = none
persistent_local_storage_space (some shareable) size_mb (some growable_to_mb) =
    elim (parsed size_mb) [
      | none ↦ none
      | some size ↦
          let growable = or_else (parse_u64 growable_to_mb) size in
          some (size * 1048576, (if ltb growable size then size else growable) * 1048576)
    ]

-- `list.split(',')`, by the text before the next comma, in reverse.
unfoldable pub split_from : List ℕ → List ℕ → List (List ℕ)
split_from before [] = before ∷ []
split_from before (c ∷ cs) =
    let next = split_from [] cs in
    let more = split_from (c ∷ before) cs in if c == 44 then before ∷ next else more

abbrev reversed : List ℕ → List ℕ → List ℕ
reversed [] ys = ys
reversed (x ∷ xs) ys = reversed xs (x ∷ ys)

abbrev any_is : List ℕ → List (List ℕ) → Bool
any_is id [] = false
any_is id (x ∷ xs) = same_bytes (reversed x []) id || any_is id xs

-- `is_related_product`.
unfoldable pub is_related_product : Option (List ℕ) → List ℕ → Bool
unfolding split_from
is_related_product none store_id = false
is_related_product (some related) store_id = any_is store_id (split_from [] related)

-- A service that answers by the number of the call, and what is counted: calls and sleeps.
abbrev pub counted_once : {A : Type 0} → (ℕ → Result A) → ℕ × ℕ → Result A × (ℕ × ℕ)
counted_once answers w = (answers w.0, (w.0 + 1, w.1))

abbrev pub counted_sleep : ℕ × ℕ → ℕ × ℕ
counted_sleep w = (w.0, w.1 + 1)

-- The third answer is handed on whatever it is.
third :
    {A : Type 0} (a b c : Result A)
    → elim a as (λ x. Result A × (ℕ × ℕ)) [
      | ok value ↦ (ok value, (1, 0))
      | err hr₀ ↦ elim b [
        | ok value ↦ (ok value, (2, 1))
        | err hr₁ ↦ elim c [ ok value ↦ (ok value, (3, 2)) | err hr₂ ↦ (err hr₂, (3, 2)) ]
      ]
    ]
      ≡ elim a [
        | ok value ↦ (ok value, (1, 0))
        | err hr₀ ↦ elim b [ ok value ↦ (ok value, (2, 1)) | err hr₁ ↦ (c, (3, 2)) ]
      ]
third (ok v) b c = refl
third (err e) (ok v) c = refl
third (err e) (err f) (ok v) = refl
third (err e) (err f) (err g) = refl

-- A request for a token and signature makes at most three calls, with a sleep between two, and ends
-- with the first answer that is no error, or with the third answer.
pub get_token_and_signature_lem :
    {A : Type 0} (answers : ℕ → Result A)
    → get_token_and_signature (counted_once answers) counted_sleep (0, 0) ≡ elim (answers 0) [
      | ok value ↦ (ok value, (1, 0))
      | err hr₀ ↦ elim (answers 1) [ ok value ↦ (ok value, (2, 1)) | err hr₁ ↦ (answers 2, (3, 2)) ]
    ]
unfolding get_token_and_signature
get_token_and_signature_lem answers = third (answers 0) (answers 1) (answers 2)
