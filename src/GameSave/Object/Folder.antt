-- ===== src/GameSave/Object/Folder.antt =====
-- src/com/xgamesave/object.rs, the `XGameSaveFiles` exports: the folder as a path of bytes.
use xgameruntime_rs.Base.{
  ℕ, zero, suc, ◌+◌, ◌≤◌, ◌≡◌, refl, ap, Option, none, some, Bool, true, false, ◌&&◌, List, [], ◌∷◌,
  ◌++◌, if◌then◌else◌, length, length-append, Bool-cases, inl, inr, ltb, arith,
}
use xgameruntime_rs.Results.{
  Result, ok, err, s_ok, e_fail, e_invalidarg, e_pointer, e_not_sufficient_buffer,
}
use xgameruntime_rs.GameSave.Files.{FileSystem}
use xgameruntime_rs.GameSave.Storage.{provider_root, remaining_quota}

-- `PATH_PAYLOAD_CAPACITY`.
abbrev pub path_payload_capacity : ℕ
path_payload_capacity = 260

pub record PathPayload : Type 0 where
  pub len : ℕ
  pub bytes : List ℕ

-- The first entries of an array of zeros, overwritten.
unfoldable pub copied : List ℕ → ℕ → List ℕ
copied bs zero = []
copied [] (suc n) = 0 ∷ copied [] n
copied (b ∷ bs) (suc n) = b ∷ copied bs n

-- `PathPayload::new`.
unfoldable pub path_payload : List ℕ → Result PathPayload
unfolding copied
path_payload path =
    if ltb (length path) path_payload_capacity
    then ok (record { len = length path; bytes = copied path path_payload_capacity })
    else err e_not_sufficient_buffer

abbrev pub take : ℕ → List ℕ → List ℕ
take zero xs = []
take (suc n) [] = []
take (suc n) (x ∷ xs) = x ∷ take n xs

-- `XGameSaveFilesGetFolderWithUiResult`: the status, and what is written to `folderResult`.
-- `payload` is what `get_result` gives.
unfoldable pub get_folder_result : Result PathPayload → ℕ → Bool → ℕ × List ℕ
get_folder_result payload folder_size true = (e_pointer, [])
get_folder_result (err hr) folder_size false = (hr, [])
get_folder_result (ok payload) folder_size false =
    if ltb folder_size (payload.len + 1)
    then (e_not_sufficient_buffer, [])
    else (s_ok, take payload.len payload.bytes ++ 0 ∷ [])

module _ {D : Type 0} (fs : FileSystem D) (game_save_root : Option ℕ) where
  -- The body of `XGameSaveFilesGetFolderWithUiAsync`.
  unfoldable pub get_folder : Option ℕ → Option ℕ → D → Result PathPayload × D
  unfolding path_payload provider_root
  get_folder user none d = (err e_invalidarg, d)
  get_folder none (some configuration_id) d = (err e_invalidarg, d)
  get_folder (some user_id) (some configuration_id) d =
      let root = provider_root fs game_save_root user_id configuration_id in
      let (made, d₁) = fs.create_dir_all root d in
      (if made then path_payload (fs.to_string_lossy root) else err e_fail, d₁)

  -- `XGameSaveFilesGetRemainingQuota`.
  unfoldable pub files_get_remaining_quota : Option ℕ → Option ℕ → Bool → D → Result ℕ
  unfolding provider_root remaining_quota
  files_get_remaining_quota user configuration_id true d = err e_pointer
  files_get_remaining_quota user none false d = err e_invalidarg
  files_get_remaining_quota none (some configuration_id) false d = err e_invalidarg
  files_get_remaining_quota (some user_id) (some configuration_id) false d =
      ok (remaining_quota fs (provider_root fs game_save_root user_id configuration_id) d)

take-copied : (path : List ℕ) (n : ℕ) → length path ≤ n → take (length path) (copied path n) ≡ path
unfolding copied
take-copied [] n h = refl
take-copied (b ∷ bs) zero h = absurd (omega (arith, h))
take-copied (b ∷ bs) (suc n) h = ap (λ xs. b ∷ xs) (take-copied bs n (omega (arith, h)))

-- The folder's path goes through the payload and into the title's buffer whole, with a NUL after
-- it, when it is shorter than 260 bytes and the buffer has room for it and the NUL. Otherwise the
-- status is `E_NOT_SUFFICIENT_BUFFER` and nothing is written. No more is written than the buffer
-- holds.
pub get_folder_result-path_payload :
    (path : List ℕ) (folder_size : ℕ)
    → (get_folder_result (path_payload path) folder_size false ≡ (
        if ltb (length path) path_payload_capacity && ltb (length path) folder_size
        then (s_ok, path ++ 0 ∷ [])
        else (e_not_sufficient_buffer, [])))
      × (length (get_folder_result (path_payload path) folder_size false).1 ≤ folder_size)
unfolding get_folder_result path_payload
get_folder_result-path_payload path folder_size =
    elim (Bool-cases (ltb (length path) path_payload_capacity)) [
      | inl small ↦
          rw (small, take-copied path path_payload_capacity (ground (arith, small)))
            (ground (arith, length-append path (0 ∷ [])))
      | inr big ↦ ground (arith, big)
    ]
