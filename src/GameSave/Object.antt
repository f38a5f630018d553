-- ===== src/GameSave/Object.antt =====
-- src/com/xgamesave/object.rs, the providers and the containers, with the handle tables of
-- src/com/xgamesave/storage.rs. A pointer argument is missing where it is null; of an out pointer
-- only whether it is null matters, and what is written through it is in the result. Of an Async
-- export the model has the body that it hands to `run_sync`, as a function of the state it runs in.
pub mod Updates
pub mod Folder
pub mod Session
pub mod Visits
mod Witnesses
use xgameruntime_rs.Base.{ℕ, Option, none, some, Bool, true, false, List, if◌then◌else◌}
use xgameruntime_rs.Base.Heap.{Heap}
use xgameruntime_rs.HandleTable.{HandleTable, create, get, close}
use xgameruntime_rs.Results.{Result, ok, err, s_ok, e_fail, e_invalidarg, e_pointer}
use xgameruntime_rs.GameSave.Files.{FileSystem}
use xgameruntime_rs.GameSave.Update.{UpdateState}
use xgameruntime_rs.GameSave.Storage.{
  ContainerInfo, BlobInfo, provider_root, containers_dir, container_dir, remaining_quota,
  delete_container, container_info, shown_if_any, enumerate_containers, enumerate_blobs,
}

-- The disk, `PROVIDER_HANDLES`, `CONTAINER_HANDLES` and `UPDATE_HANDLES`. A handle of an update
-- shares its `UpdateState` with whoever resolves it, so the table holds a reference into `batches`.
pub record GameSaves (D : Type 0) : Type 0 where
  pub disk : D
  pub providers : HandleTable ℕ
  pub containers : HandleTable ℕ
  pub updates : HandleTable ℕ
  pub batches : Heap UpdateState
  pub next_batch : ℕ

module _ {D : Type 0} (fs : FileSystem D) (game_save_root : Option ℕ) where
  -- `user` is what `user_id_for_handle` finds for the requesting user.
  unfoldable pub initialize_provider : Option ℕ → Option ℕ → GameSaves D → Result ℕ × GameSaves D
  unfolding provider_root containers_dir create
  initialize_provider user none s = (err e_invalidarg, s)
  initialize_provider none (some configuration_id) s = (err e_invalidarg, s)
  initialize_provider (some user_id) (some configuration_id) s =
      let root = provider_root fs game_save_root user_id configuration_id in
      let (made, d) = fs.create_dir_all (containers_dir fs root) s.disk in
      let (handle, table) = create s.providers root in
      if made
      then (ok handle, record s { disk = d; providers = table })
      else (err e_fail, record s { disk = d })

  -- `XGameSaveInitializeProvider`.
  unfoldable pub x_initialize_provider :
      Option ℕ → Option ℕ → Bool → GameSaves D → Result ℕ × GameSaves D
  unfolding initialize_provider
  x_initialize_provider user configuration_id true s = (err e_pointer, s)
  x_initialize_provider user configuration_id false s = initialize_provider user configuration_id s

unfoldable pub close_provider : {D : Type 0} → ℕ → GameSaves D → GameSaves D
unfolding close
close_provider provider s = record s { providers = close s.providers provider }

unfoldable pub close_container : {D : Type 0} → ℕ → GameSaves D → GameSaves D
unfolding close
close_container context s = record s { containers = close s.containers context }

module _ {D : Type 0} (fs : FileSystem D) where
  unfoldable pub get_remaining_quota : ℕ → Bool → GameSaves D → Result ℕ
  unfolding remaining_quota get
  get_remaining_quota provider true s = err e_pointer
  get_remaining_quota provider false s = elim (get s.providers provider) [
    | none ↦ err e_invalidarg
    | some root ↦ ok (remaining_quota fs root s.disk)
  ]

  -- The handle is resolved by the call, and the quota computed by the body.
  unfoldable pub get_remaining_quota_async : ℕ → GameSaves D → GameSaves D → Result ℕ
  unfolding remaining_quota get
  get_remaining_quota_async provider s later = elim (get s.providers provider) [
    | none ↦ err e_invalidarg
    | some root ↦ ok (remaining_quota fs root later.disk)
  ]

  abbrev deleted : Option ℕ × D → GameSaves D → ℕ × GameSaves D
  deleted outcome s = (elim outcome.0 [ none ↦ s_ok | some hr ↦ hr ], record s { disk = outcome.1 })

  -- `XGameSaveDeleteContainer`.
  unfoldable pub x_delete_container : ℕ → Option ℕ → GameSaves D → ℕ × GameSaves D
  unfolding delete_container get
  x_delete_container provider name s = elim (get s.providers provider) [
    | none ↦ (e_invalidarg, s)
    | some root ↦ deleted (delete_container fs root name s.disk) s
  ]

  unfoldable pub delete_container_async : ℕ → Option ℕ → GameSaves D → GameSaves D → ℕ × GameSaves D
  unfolding delete_container get
  delete_container_async provider name s later = elim (get s.providers provider) [
    | none ↦ (e_invalidarg, later)
    | some root ↦ deleted (delete_container fs root name later.disk) later
  ]

  -- What the callback is called on, where the status is `S_OK`.
  unfoldable pub get_container_info :
      ℕ → Option ℕ → Bool → GameSaves D → Result (Option ContainerInfo)
  unfolding container_info get
  get_container_info provider name no_callback s = elim (get s.providers provider) [
    | none ↦ err e_invalidarg
    | some root ↦ if no_callback then err e_pointer else elim name [
      | none ↦ err e_invalidarg
      | some n ↦ ok (shown_if_any fs (container_info fs root n s.disk))
    ]
  ]

  unfoldable pub create_container : ℕ → Option ℕ → Bool → GameSaves D → Result ℕ × GameSaves D
  unfolding container_dir get create
  create_container provider name true s = (err e_pointer, s)
  create_container provider name false s = elim (get s.providers provider) [
    | none ↦ (err e_invalidarg, s)
    | some root ↦ elim name [
      | none ↦ (err e_invalidarg, s)
      | some n ↦
          let dir = container_dir fs root n in
          let (made, d) = fs.create_dir_all dir s.disk in
          let (handle, table) = create s.containers dir in
          if made
          then (ok handle, record s { disk = d; containers = table })
          else (err e_fail, record s { disk = d })
    ]
  ]

  -- `callback` is what the title's callback makes of the process, or null. `saves` is the part of
  -- the process that is here.
  module _ {W : Type 0} (saves : W → GameSaves D) where
    -- `XGameSaveEnumerateContainerInfoByName`; `XGameSaveEnumerateContainerInfo` has no prefix.
    unfoldable pub enumerate_container_info :
        ℕ → Option ℕ → Option (ContainerInfo → W → Bool × W) → W → ℕ × W
    unfolding enumerate_containers get
    enumerate_container_info provider prefix callback w = elim (get (saves w).providers provider) [
      | none ↦ (e_invalidarg, w)
      | some root ↦ elim callback [
        | none ↦ (e_pointer, w)
        | some f ↦ (s_ok, enumerate_containers fs (λ v. (saves v).disk) root prefix f w)
      ]
    ]

    -- `XGameSaveEnumerateBlobInfoByName`; `XGameSaveEnumerateBlobInfo` has no prefix.
    unfoldable pub enumerate_blob_info : ℕ → Option ℕ → Option (BlobInfo → W → Bool × W) → W → ℕ × W
    unfolding enumerate_blobs get
    enumerate_blob_info container prefix callback w = elim (get (saves w).containers container) [
      | none ↦ (e_invalidarg, w)
      | some root ↦ elim callback [
        | none ↦ (e_pointer, w)
        | some f ↦ (s_ok, enumerate_blobs fs (λ v. (saves v).disk) root prefix f w)
      ]
    ]
