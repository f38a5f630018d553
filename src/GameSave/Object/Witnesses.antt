-- ===== src/GameSave/Object/Witnesses.antt =====
-- The theorems on saved games at concrete states, over a disk that is a map from paths to files.
use xgameruntime_rs.Base.{
  ℕ, ◌+◌, ◌*◌, ◌≡◌, ◌≤◌, refl, none, some, Bool, true, false, List, [], ◌∷◌, ◌==◌, ◌∙◌,
  if◌then◌else◌, arith, ==_refl, length,
}
use xgameruntime_rs.Base.Map.{Map, lookup, insert, remove, lookup-insert, lookup-remove}
use xgameruntime_rs.HandleTable.{new, get}
use xgameruntime_rs.HandleTable.Laws.{new-IsValid}
use xgameruntime_rs.Results.{s_ok}
use xgameruntime_rs.GameSave.Files.{FileSystem, FileLaws, DirEntry, Removal}
use xgameruntime_rs.GameSave.Update.Batch.{Change, sets, deletes, pending}
use xgameruntime_rs.GameSave.Update.Commit.{IsApart, IsRemovable}
use xgameruntime_rs.GameSave.Object.{GameSaves}
use xgameruntime_rs.GameSave.Object.Updates.{
  create_update, submit_blob_write, submit_blob_delete, submit_update,
}
use xgameruntime_rs.GameSave.Object.Session.{prepared, read-prepared}
use xgameruntime_rs.GameSave.Object.Folder.{
  path_payload, get_folder_result, get_folder_result-path_payload,
}

abbrev Disk : Type 0
Disk = Map (List ℕ)

abbrev entry : ℕ → ℕ → Bool → ℕ → DirEntry
entry name path is_file len = record {
  name = some name;
  file_name = name;
  path = path;
  is_file = is_file;
  is_dir = if is_file then false else true;
  len = some len;
  modified = some 7;
}

-- Every directory lists two containers and two blobs, of 5 and 6 bytes.
abbrev disk_files : FileSystem Disk
disk_files = record {
  join = λ root name. root * 100 + name;
  read = λ p d. lookup p d;
  read_to_string = λ p d. lookup p d;
  write = λ p b d. (true, insert p b d);
  create_dir_all = λ p d. (true, d);
  remove_file = λ p d. (true, remove p d);
  remove_dir_all = λ p d. (Removal.not_found, d);
  read_dir = λ p d.
      some (
        entry 8 908 false 0 ∷ entry 11 911 true 5 ∷ entry 12 912 true 6 ∷ entry 9 909 false 0 ∷ []);
  is_dir = λ p d. true;
  temp_dir = 4;
  starts_with = λ name prefix. name == prefix;
  to_string = λ n. n;
  to_string_lossy = λ p. p ∷ [];
  unix_epoch = 0;
  ticks = 1;
}

disk_files-FileLaws : FileLaws disk_files
disk_files-FileLaws = record {
  read-write = λ p b d e. lookup-insert p p b d ∙ ground (arith, ==_refl p);
  read-write_other = λ p q b d ne. lookup-insert p q b d ∙ ground (arith, ne);
  read-remove_other = λ p q d ne. lookup-remove p q d ∙ ground (arith, ne);
  read-create = λ p q d. refl;
}

disk_files-IsRemovable : IsRemovable disk_files
disk_files-IsRemovable = λ p d. lookup-remove p p d ∙ ground (arith, ==_refl p)

disk_files-IsApart : IsApart disk_files 6
disk_files-IsApart = λ a b ne e. ne (omega (arith, e))

-- A provider with root 5 and a container with root 6, each with handle 1, on a disk with a file.
abbrev opened : GameSaves Disk
opened = record {
  disk = record { key = 612; value = 1 ∷ [] } ∷ [];
  providers = record { next = 2; entries = record { key = 1; value = 5 } ∷ [] };
  containers = record { next = 2; entries = record { key = 1; value = 6 } ∷ [] };
  updates = new;
  batches = λ ref. record { container_root = 0; display_name = []; writes = []; deletes = [] };
  next_batch = 0;
}

abbrev changes : List (ℕ × Change)
changes = (11, sets (7 ∷ [])) ∷ (12, deletes) ∷ (11, sets (8 ∷ 9 ∷ [])) ∷ []

read-prepared_example :
    let t =
      (submit_update disk_files opened.updates.next
        (prepared disk_files 1 (some (3 ∷ [])) changes opened)).1 in
    (lookup 611 t.disk ≡ some (8 ∷ 9 ∷ [])) × (pending 11 (t.batches 0) ≡ none)
unfolding submit_update submit_blob_write submit_blob_delete create_update get new lookup insert
read-prepared_example =
    read-prepared disk_files disk_files-FileLaws disk_files-IsRemovable 1 6 disk_files-IsApart
      (some (3 ∷ [])) changes opened 11 new-IsValid refl (ground arith) refl

get_folder_result-path_payload_example :
    (get_folder_result (path_payload (47 ∷ 97 ∷ [])) 3 false ≡ (s_ok, 47 ∷ 97 ∷ 0 ∷ []))
    × (length (get_folder_result (path_payload (47 ∷ 97 ∷ [])) 3 false).1 ≤ 3)
get_folder_result-path_payload_example = get_folder_result-path_payload (47 ∷ 97 ∷ []) 3

-- A title that notes the names, and stops at the first.
abbrev noted :
    {I : Type 0} → (I → ℕ) → I → GameSaves Disk × List ℕ → Bool × (GameSaves Disk × List ℕ)
noted name i w = (false, (w.0, name i ∷ w.1))
