-- ===== src/GameSave/Storage.antt =====
-- src/com/xgamesave/storage.rs, less the handle tables and `UpdateState`: the layout on disk, what a
-- container holds, the quota, and enumeration.
pub mod Quota
use xgameruntime_rs.Base.{
  ℕ, zero, suc, ◌+◌, ◌-◌, ◌*◌, ◌/◌, ◌%◌, ◌^◌, Option, none, some, Bool, true, false, not, ◌&&◌,
  List, [], ◌∷◌, ◌==◌, if◌then◌else◌, keep_if, length, add64, ltb, is_listed,
}
use xgameruntime_rs.Results.{e_fail, e_invalidarg, Result, ok, err}
use xgameruntime_rs.GameSave.Files.{FileSystem, DirEntry, Removal, removed, not_found, failed}
use xgameruntime_rs.GameSave.Update.{meta_file}

-- `"containers"` and `"xodus_gamesaves"`, as the numbers that they are interned as.
abbrev pub containers_name : ℕ
containers_name = 2

abbrev pub gamesaves_name : ℕ
gamesaves_name = 3

-- What `container_info` reports, and `XGameSaveContainerInfo` holds; its `needsSync` is always FALSE.
pub record ContainerInfo : Type 0 where
  pub name : ℕ
  pub display_name : List ℕ
  pub blob_count : ℕ
  pub total_size : ℕ
  pub last_modified : ℕ

pub record BlobInfo : Type 0 where
  pub name : ℕ
  pub size : ℕ

abbrev pub or_empty : {A : Type 0} → Option (List A) → List A
or_empty none = []
or_empty (some xs) = xs

-- `.map(len).sum()` over the metadata that can be read.
unfoldable pub sum_len : List DirEntry → ℕ
sum_len [] = 0
sum_len (e ∷ es) = let rest = sum_len es in elim e.len [ none ↦ rest | some n ↦ add64 n rest ]

abbrev pub later : Option ℕ → Option ℕ → Option ℕ
later none b = b
later (some a) none = some a
later (some a) (some b) = some (if ltb a b then b else a)

unfoldable pub max_modified : List DirEntry → Option ℕ
max_modified [] = none
max_modified (e ∷ es) = later e.modified (max_modified es)

-- `PLACEHOLDER_QUOTA_BYTES`.
abbrev pub placeholder_quota_bytes : ℕ
placeholder_quota_bytes = 1024 * 1024 * 1024

abbrev pub i64_max : ℕ
i64_max = 9223372036854775807

-- `PLACEHOLDER_QUOTA_BYTES.saturating_sub(used as i64).max(0)`: from 2^63 on, `used as i64` is
-- negative, and the difference is its distance to 2^64 more than the quota, up to the maximum.
unfoldable pub quota_left : ℕ → ℕ
quota_left used =
    if ltb i64_max used
    then (let wide = placeholder_quota_bytes + (18446744073709551616 - used) in
        if ltb i64_max wide then i64_max else wide)
    else placeholder_quota_bytes - used

module _ {D : Type 0} (fs : FileSystem D) where
  open fs use {
    join, read_to_string, create_dir_all, remove_dir_all, read_dir, is_dir, temp_dir, starts_with,
    to_string, unix_epoch, ticks,
  }

  -- `game_save_root` is what the environment names.
  unfoldable pub provider_root : Option ℕ → ℕ → ℕ → ℕ
  provider_root game_save_root user_id configuration_id =
      join
        (join (elim game_save_root [ some root ↦ root | none ↦ join temp_dir gamesaves_name ])
          (to_string user_id))
        configuration_id

  unfoldable pub containers_dir : ℕ → ℕ
  containers_dir root = join root containers_name

  unfoldable pub container_dir : ℕ → ℕ → ℕ
  unfolding containers_dir
  container_dir root name = join (containers_dir root) name

  unfoldable pub read_display_name : ℕ → D → List ℕ
  read_display_name root d = or_empty (read_to_string (join root meta_file) d)

  unfoldable pub blob_files : ℕ → D → List DirEntry
  blob_files root d =
      keep_if (λ e. not (e.file_name == meta_file) && e.is_file) (or_empty (read_dir root d))

  unfoldable pub container_total_size : ℕ → D → ℕ
  unfolding sum_len blob_files
  container_total_size root d = sum_len (blob_files root d)

  -- Whole seconds since the epoch; 0 where there is no blob, or the time is before the epoch.
  unfoldable pub container_last_modified : ℕ → D → ℕ
  unfolding max_modified blob_files
  container_last_modified root d = elim (max_modified (blob_files root d)) [
    | none ↦ 0
    | some time ↦ if ltb time unix_epoch then 0 else (time - unix_epoch) / ticks
  ]

  -- Sums over the entries of `containers_dir`.
  unfoldable pub sum_containers : List DirEntry → D → ℕ
  unfolding container_total_size
  sum_containers [] d = 0
  sum_containers (e ∷ es) d = add64 (container_total_size e.path d) (sum_containers es d)

  unfoldable pub remaining_quota : ℕ → D → ℕ
  unfolding sum_containers quota_left containers_dir
  remaining_quota root d =
      quota_left (sum_containers (or_empty (read_dir (containers_dir root) d)) d)

  unfoldable pub delete_container : ℕ → Option ℕ → D → Option ℕ × D
  unfolding container_dir
  delete_container root none d = (some e_invalidarg, d)
  delete_container root (some name) d =
      let (outcome, d₁) = remove_dir_all (container_dir root name) d in
      (elim outcome [ removed ↦ none | not_found ↦ none | failed ↦ some e_fail ], d₁)

  unfoldable pub container_info : ℕ → ℕ → D → Option ContainerInfo
  unfolding container_dir read_display_name blob_files container_total_size container_last_modified
  container_info root name d =
      let dir = container_dir root name in
      if not (is_dir dir d)
      then none
      else some (record {
        name = name;
        display_name = read_display_name dir d;
        blob_count = length (blob_files dir d) % 2 ^ 32;
        total_size = container_total_size dir d;
        last_modified = container_last_modified dir d;
      })

  -- As a callback sees it: a display name with a NUL in it makes no C string, and is shown empty.
  abbrev pub shown : ContainerInfo → ContainerInfo
  shown info = record info {
    display_name = if is_listed 0 info.display_name then [] else info.display_name;
  }

  abbrev pub shown_if_any : Option ContainerInfo → Option ContainerInfo
  shown_if_any none = none
  shown_if_any (some info) = some (shown info)

  abbrev pub has_prefix : Option ℕ → ℕ → Bool
  has_prefix none name = true
  has_prefix (some prefix) name = starts_with name prefix

  -- Whether an entry of `containers_dir` is reported, and as what.
  unfoldable pub reported : ℕ → Option ℕ → DirEntry → D → Option ContainerInfo
  unfolding container_info
  reported root prefix e d = if not e.is_dir then none else elim e.name [
    | none ↦ none
    | some name ↦ if has_prefix prefix name then shown_if_any (container_info root name d) else none
  ]

  -- `metadata.map_or(0, len) as u32`.
  abbrev pub size_of : Option ℕ → ℕ
  size_of none = 0
  size_of (some n) = n % 2 ^ 32

  module _ {W : Type 0} (disk : W → D) where
    -- A callback says whether to go on. `W` is all that it can change.
    unfoldable pub enumerate_entries :
        ℕ → Option ℕ → (ContainerInfo → W → Bool × W) → List DirEntry → W → W
    unfolding reported
    enumerate_entries root prefix callback [] w = w
    enumerate_entries root prefix callback (e ∷ es) w = elim (reported root prefix e (disk w)) [
      | none ↦ enumerate_entries root prefix callback es w
      | some info ↦
          let (keep_going, w₁) = callback info w in
          let rest = enumerate_entries root prefix callback es w₁ in if keep_going then rest else w₁
    ]

    unfoldable pub enumerate_containers : ℕ → Option ℕ → (ContainerInfo → W → Bool × W) → W → W
    unfolding enumerate_entries containers_dir
    enumerate_containers root prefix callback w = elim (read_dir (containers_dir root) (disk w)) [
      | none ↦ w
      | some entries ↦ enumerate_entries root prefix callback entries w
    ]

    unfoldable pub enumerate_blob_entries :
        Option ℕ → (BlobInfo → W → Bool × W) → List DirEntry → W → W
    enumerate_blob_entries prefix callback [] w = w
    enumerate_blob_entries prefix callback (e ∷ es) w =
        let skipped = enumerate_blob_entries prefix callback es w in
        elim e.name [
          | none ↦ skipped
          | some name ↦
              let (keep_going, w₁) = callback (record { name = name; size = size_of e.len }) w in
              let rest = enumerate_blob_entries prefix callback es w₁ in
              if not (has_prefix prefix name) then skipped else if keep_going then rest else w₁
        ]

    unfoldable pub enumerate_blobs : ℕ → Option ℕ → (BlobInfo → W → Bool × W) → W → W
    unfolding enumerate_blob_entries blob_files
    enumerate_blobs root prefix callback w =
        enumerate_blob_entries prefix callback (blob_files root (disk w)) w
