-- ===== src/GameSave/Update.antt =====
-- src/com/xgamesave/storage.rs, `UpdateState`, and the parts of src/com/xgamesave/object.rs that add
-- to it and carry it out.
pub mod Batch
pub mod Commit
use xgameruntime_rs.Base.{
  ℕ, Option, none, some, Bool, true, false, not, List, [], ◌∷◌, ◌++◌, ◌==◌, if◌then◌else◌, keep_if,
}
use xgameruntime_rs.Results.{s_ok, e_fail}
use xgameruntime_rs.GameSave.Files.{FileSystem}

-- `META_FILE`, as the number that it is interned as.
abbrev pub meta_file : ℕ
meta_file = 1

pub record BlobWrite : Type 0 where
  pub name : ℕ
  pub content : List ℕ

pub record UpdateState : Type 0 where
  pub container_root : ℕ
  pub display_name : List ℕ
  pub writes : List BlobWrite
  pub deletes : List ℕ

-- `XGameSaveCreateUpdate`, the state that it makes.
unfoldable pub new_update : ℕ → List ℕ → UpdateState
new_update root display_name = record {
  container_root = root;
  display_name = display_name;
  writes = [];
  deletes = [];
}

-- The end of `XGameSaveSubmitBlobWrite`.
unfoldable pub add_write : ℕ → List ℕ → UpdateState → UpdateState
add_write name bytes u = record u {
  deletes = keep_if (λ deleted. not (deleted == name)) u.deletes;
  writes =
      keep_if (λ w. not (w.name == name)) u.writes ++ record { name = name; content = bytes } ∷ [];
}

-- The end of `XGameSaveSubmitBlobDelete`.
unfoldable pub add_delete : ℕ → UpdateState → UpdateState
add_delete name u = record u {
  writes = keep_if (λ w. not (w.name == name)) u.writes;
  deletes = u.deletes ++ name ∷ [];
}

abbrev pub is_empty : List ℕ → Bool
is_empty [] = true
is_empty (b ∷ bs) = false

module _ {D : Type 0} (fs : FileSystem D) where
  -- `for (name, content) in &state.writes`: whether all went well, and the disk.
  unfoldable pub write_all : ℕ → List BlobWrite → D → Bool × D
  write_all root [] d = (true, d)
  write_all root (w ∷ ws) d =
      let (done, d₁) = fs.write (fs.join root w.name) w.content d in
      let rest = write_all root ws d₁ in if done then rest else (false, d₁)

  -- `for name in &state.deletes`.
  unfoldable pub delete_all : ℕ → List ℕ → D → D
  delete_all root [] d = d
  delete_all root (name ∷ names) d = delete_all root names (fs.remove_file (fs.join root name) d).1

  -- `write_display_name`.
  unfoldable pub write_display_name : ℕ → List ℕ → D → D
  write_display_name root display_name d = (fs.write (fs.join root meta_file) display_name d).1

  -- What follows the writes once all of them succeeded.
  unfoldable pub finish : UpdateState → D → ℕ × UpdateState × D
  unfolding delete_all write_display_name
  finish u d =
      let d₁ = delete_all u.container_root u.deletes d in
      (
        s_ok,
        record u { writes = []; deletes = [] },
        if is_empty u.display_name
            then d₁
            else write_display_name u.container_root u.display_name d₁,
      )

  -- The body of `XGameSaveSubmitUpdate`: the status, what is left of the batch, and the disk.
  unfoldable pub commit : UpdateState → D → ℕ × UpdateState × D
  unfolding write_all finish
  commit u d =
      let (made, d₁) = fs.create_dir_all u.container_root d in
      let (written, d₂) = write_all u.container_root u.writes d₁ in
      if not made then (e_fail, u, d₁) else if not written then (e_fail, u, d₂) else finish u d₂
