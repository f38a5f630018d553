-- ===== src/Package.antt =====
-- src/com/xpackage.rs and src/com/xpersistent_local_storage.rs: mounts and their paths, the storage's
-- own path and space, and the user's locale. Strings are lists of bytes; of paths and names that go
-- to the file system, the numbers that they are interned as.
pub mod Paths
mod Witnesses
use xgameruntime_rs.Base.{
  ℕ, zero, suc, ◌+◌, ◌-◌, ◌*◌, ◌/◌, Option, none, some, Bool, true, false, not, ◌||◌, List, [], ◌∷◌,
  map, ◌==◌, if◌then◌else◌, length, ltb,
}
use xgameruntime_rs.Base.Heap.{Heap, update}
use xgameruntime_rs.Base.Memory.{write_bytes}
use xgameruntime_rs.HandleTable.{HandleTable, create, get, close}
use xgameruntime_rs.Results.{
  Result, ok, err, s_ok, e_fail, e_invalidarg, e_pointer, e_not_sufficient_buffer,
}
use xgameruntime_rs.GameSave.Files.{FileSystem}
use xgameruntime_rs.Store.{first}
use xgameruntime_rs.User.{same_bytes}
use xgameruntime_rs.User.Buffers.{write_c_string}

-- The mount handles, each with its path, and the disk.
pub record Mounts (D : Type 0) : Type 0 where
  pub disk : D
  pub handles : HandleTable (List ℕ)

abbrev smaller : ℕ → ℕ → ℕ
smaller a b = if ltb a b then a else b

-- The copying of `XPackageGetMountPath` and of `x_persistent_local_storage_get_path`: what fits, and
-- a NUL where there is room for one.
unfoldable pub write_truncated : List ℕ → ℕ → ℕ → Heap ℕ → Heap ℕ
unfolding write_bytes
write_truncated bytes size path m =
    let len = smaller (length bytes) (size - 1) in
    let copied = write_bytes (first len bytes) path m in
    if size == 0 then copied else update copied (path + len) 0

module _ {D : Type 0} where
  unfoldable pub get_mount_path_size : ℕ → Bool → Mounts D → Result ℕ
  unfolding get
  get_mount_path_size mount no_out s = elim (get s.handles mount) [
    | none ↦ err e_invalidarg
    | some path ↦ if no_out then err e_pointer else ok (length path + 1)
  ]

  -- The status, and the title's memory.
  unfoldable pub get_mount_path : ℕ → ℕ → ℕ → Mounts D → Heap ℕ → ℕ × Heap ℕ
  unfolding get write_truncated
  get_mount_path mount size path s m = elim (get s.handles mount) [
    | none ↦ (e_invalidarg, m)
    | some mount_path ↦
        if path == 0 then (e_pointer, m) else (s_ok, write_truncated mount_path size path m)
  ]

  unfoldable pub close_mount_handle : ℕ → Mounts D → Mounts D
  unfolding close
  close_mount_handle mount s = record s { handles = close s.handles mount }

module _ {D : Type 0} (fs : FileSystem D) (related_name : ℕ) (tmp_path : ℕ) where
  abbrev mount_at : ℕ → Mounts D → Result ℕ × Mounts D
  mount_at path s =
      let (made, d) = fs.create_dir_all path s.disk in
      let (handle, table) = create s.handles (fs.to_string_lossy path) in
      if made
      then (ok handle, record s { disk = d; handles = table })
      else (err e_fail, record s { disk = d })

  abbrev mount_related : (ℕ → Bool) → Result (Option ℕ) → Mounts D → Result ℕ × Mounts D
  mount_related is_related (err hr) s = (err e_invalidarg, s)
  mount_related is_related (ok none) s = (err e_invalidarg, s)
  mount_related is_related (ok (some store_id)) s =
      if is_related store_id
      then mount_at (fs.join (fs.join tmp_path related_name) store_id) s
      else (err e_invalidarg, s)

  abbrev is_own : Option ℕ → ℕ → Bool
  is_own none family = false
  is_own (some name) family = name == family

  -- `x_persistent_local_storage_mount_for_package`. `identifier` is missing where it is null, and
  -- again where it is not UTF-8; `own_family` is the title's own, if the environment names it;
  -- `resolve` is what `resolve_product_id` answers, and `is_related` is `is_related_product`.
  unfoldable pub mount_for_package :
      Option (Option ℕ)
      → Bool
      → Option ℕ
      → (ℕ → Result (Option ℕ))
      → (ℕ → Bool)
      → Mounts D
      → Result ℕ × Mounts D
  unfolding create
  mount_for_package none no_out own_family resolve is_related s = (err e_pointer, s)
  mount_for_package (some none) no_out own_family resolve is_related s =
      if no_out then (err e_pointer, s) else (err e_invalidarg, s)
  mount_for_package (some (some family)) no_out own_family resolve is_related s =
      let own = is_own own_family family in
      if no_out
      then (err e_pointer, s)
      else if own
      then mount_at tmp_path s
      else mount_related is_related (resolve family) s

-- `x_persistent_local_storage_get_path_size` and `…_get_path`: the size used and the memory.
unfoldable pub get_path_size : List ℕ → ℕ
get_path_size tmp_path = length tmp_path + 1

unfoldable pub get_path : List ℕ → ℕ → ℕ → Heap ℕ → ℕ × Heap ℕ
unfolding write_truncated
get_path tmp_path size path m =
    (smaller (length tmp_path) (size - 1) + 1, write_truncated tmp_path size path m)

-- `XPersistentLocalStorageSpaceInfo`.
pub record SpaceInfo : Type 0 where
  pub available_free_bytes : ℕ
  pub total_free_bytes : ℕ
  pub used_bytes : ℕ
  pub total_bytes : ℕ

abbrev space_of : Option (ℕ × ℕ) → ℕ × ℕ
space_of none = (1024 * 1024 * 1024, 2 * 1024 * 1024 * 1024)
space_of (some sizes) = sizes

-- `space` is `persistent_local_storage_space`.
unfoldable pub get_space_info : Option (ℕ × ℕ) → SpaceInfo
get_space_info space =
    let (total, growable) = space_of space in
    record {
      available_free_bytes = growable - total / 2;
      total_free_bytes = growable;
      used_bytes = total / 2;
      total_bytes = total;
    }

-- What comes before the first `.` or `@`.
unfoldable pub before_charset : List ℕ → List ℕ
before_charset [] = []
before_charset (c ∷ cs) =
    let rest = before_charset cs in if (c == 46) || (c == 64) then [] else c ∷ rest

-- `find_map` over LC_ALL, LC_MESSAGES and LANG, and `unwrap_or_default`.
abbrev first_set : List (Option (List ℕ)) → List ℕ
first_set [] = []
first_set (none ∷ variables) = first_set variables
first_set (some value ∷ variables) = value

unfoldable pub user_locale : Option (List ℕ) → Option (List ℕ) → Option (List ℕ) → List ℕ
unfolding before_charset
user_locale lc_all lc_messages lang =
    let base = before_charset (first_set (lc_all ∷ lc_messages ∷ lang ∷ [])) in
    let tag = map (λ c. if c == 95 then 45 else c) base in
    if (length tag == 0)
      || (same_bytes tag (67 ∷ []) || same_bytes tag (80 ∷ 79 ∷ 83 ∷ 73 ∷ 88 ∷ []))
    then 101 ∷ 110 ∷ 45 ∷ 85 ∷ 83 ∷ []
    else tag

-- `tag` is the user's locale.
unfoldable pub get_user_locale : List ℕ → ℕ → ℕ → Heap ℕ → ℕ × Heap ℕ
unfolding write_c_string
get_user_locale tag size locale m =
    if locale == 0
    then (e_pointer, m)
    else if ltb size (length tag + 1)
    then (e_not_sufficient_buffer, m)
    else (s_ok, write_c_string tag locale m)
