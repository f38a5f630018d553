-- ===== src/GameSave/Object/Visits.antt =====
-- src/com/xgamesave/object.rs, the enumerations, as a walk over a list that is there before the first callback.
use xgameruntime_rs.Base.{
  ℕ, ◌≡◌, ◌%◌, ◌^◌, refl, Option, none, some, inl, inr, Bool, true, not, ◌&&◌, is_listed, length,
  List, [], ◌∷◌, if◌then◌else◌, Bool-cases, arith,
}
use xgameruntime_rs.HandleTable.{get}
use xgameruntime_rs.Results.{s_ok}
use xgameruntime_rs.GameSave.Object.{GameSaves, enumerate_blob_info}
use xgameruntime_rs.GameSave.Files.{FileSystem, DirEntry}
use xgameruntime_rs.GameSave.Storage.{
  ContainerInfo, BlobInfo, or_empty, containers_dir, has_prefix, size_of, blob_files, container_dir,
  container_total_size, container_last_modified, read_display_name, enumerate_blob_entries,
  enumerate_blobs,
}

-- A callback on each in turn, until it says to stop.
abbrev pub visit : {I W : Type 0} → (I → W → Bool × W) → List I → W → W
visit callback [] w = w
visit callback (i ∷ is) w =
    let rest = visit callback is (callback i w).1 in
    if (callback i w).0 then rest else (callback i w).1

module _ {D : Type 0} (fs : FileSystem D) where
  -- An entry with the prefix, that is a directory when it is listed and still there when it is
  -- looked at, and what is told of it.
  abbrev pub info_of : ℕ → ℕ → D → ContainerInfo
  info_of root name d =
      let dir = container_dir fs root name in
      let named = read_display_name fs dir d in
      record {
        name = name;
        display_name = if is_listed 0 named then [] else named;
        blob_count = length (blob_files fs dir d) % 2 ^ 32;
        total_size = container_total_size fs dir d;
        last_modified = container_last_modified fs dir d;
      }

  abbrev pub selects : Option ℕ → ℕ → Bool
  selects none name = true
  selects (some prefix) name = fs.starts_with name prefix

  abbrev pub infos : ℕ → Option ℕ → List DirEntry → D → List ContainerInfo
  infos root prefix [] d = []
  infos root prefix (e ∷ es) d = elim e.name [
    | none ↦ infos root prefix es d
    | some name ↦
        if e.is_dir && selects prefix name && fs.is_dir (container_dir fs root name) d
        then info_of root name d ∷ infos root prefix es d
        else infos root prefix es d
  ]

  -- The containers of a provider that a prefix selects.
  abbrev pub container_infos : ℕ → Option ℕ → D → List ContainerInfo
  container_infos root prefix d =
      infos root prefix (or_empty (fs.read_dir (containers_dir fs root) d)) d

  abbrev pub blob_info : Option ℕ → DirEntry → Option BlobInfo
  blob_info prefix e = elim e.name [
    | none ↦ none
    | some name ↦
        if has_prefix fs prefix name
        then some (record { name = name; size = size_of fs e.len })
        else none
  ]

  abbrev pub blob_infos : Option ℕ → List DirEntry → List BlobInfo
  blob_infos prefix [] = []
  blob_infos prefix (e ∷ es) = elim (blob_info prefix e) [
    | none ↦ blob_infos prefix es
    | some info ↦ info ∷ blob_infos prefix es
  ]

  module _ {W : Type 0} (disk : W → D) where
    -- One file, given its name.
    blob-step :
        (prefix : Option ℕ) (callback : BlobInfo → W → Bool × W) (es : List DirEntry)
        (len : Option ℕ) (w : W)
        → enumerate_blob_entries fs disk prefix callback es w
          ≡ visit callback (blob_infos prefix es) w
        → ((i : BlobInfo)
            → enumerate_blob_entries fs disk prefix callback es (callback i w).1
              ≡ visit callback (blob_infos prefix es) (callback i w).1)
        → (found : Option ℕ)
        → elim found [
          | none ↦ enumerate_blob_entries fs disk prefix callback es w
          | some name ↦
              if not (has_prefix fs prefix name)
              then enumerate_blob_entries fs disk prefix callback es w
              else if (callback (record { name = name; size = size_of fs len }) w).0
              then enumerate_blob_entries fs disk prefix callback es
                  (callback (record { name = name; size = size_of fs len }) w).1
              else (callback (record { name = name; size = size_of fs len }) w).1
        ]
          ≡ visit callback
              (elim (elim found as (λ x. Option BlobInfo) [
                | none ↦ none
                | some name ↦
                    if has_prefix fs prefix name
                    then some (record { name = name; size = size_of fs len })
                    else none
              ]) [ none ↦ blob_infos prefix es | some i ↦ i ∷ blob_infos prefix es ])
              w
    blob-step prefix callback es len w skip go none = skip
    blob-step prefix callback es len w skip go (some name) =
        elim (Bool-cases (has_prefix fs prefix name)) [
          | inl e ↦ rw (e, go (record { name = name; size = size_of fs len })) refl
          | inr e ↦ rw e skip
        ]

    blobs-visit :
        (prefix : Option ℕ) (callback : BlobInfo → W → Bool × W) (es : List DirEntry) (w : W)
        → enumerate_blob_entries fs disk prefix callback es w
          ≡ visit callback (blob_infos prefix es) w
    unfolding enumerate_blob_entries
    blobs-visit prefix callback [] w = refl
    blobs-visit prefix callback (e ∷ es) w =
        blob-step prefix callback es e.len w (blobs-visit prefix callback es w)
          (λ i. blobs-visit prefix callback es (callback i w).1) e.name

-- Enumeration of blobs by name, with an open handle and a callback that is there: the status is
-- `S_OK`, and the callback runs once on each file of the container with the prefix, the reserved
-- file aside, in the order of the directory, until it first says to stop, whatever it does to the
-- disk.
enumerate_blob_info-visit :
    {D W : Type 0} (fs : FileSystem D) (saves : W → GameSaves D) (container root : ℕ)
    (prefix : Option ℕ) (callback : BlobInfo → W → Bool × W) (w : W)
    → get (saves w).containers container ≡ some root
    → enumerate_blob_info fs saves container prefix (some callback) w
      ≡ (s_ok, visit callback (blob_infos fs prefix (blob_files fs root (saves w).disk)) w)
unfolding enumerate_blob_info enumerate_blobs
enumerate_blob_info-visit fs saves container root prefix callback w found = ground (
  arith,
  found,
  blobs-visit fs (λ v. (saves v).disk) prefix callback (blob_files fs root (saves w).disk) w,
)
