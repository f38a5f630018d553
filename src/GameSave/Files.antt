-- ===== src/GameSave/Files.antt =====
-- The file system, as `std::fs` and `std::path` give it: an interface over any kind of disk. A path,
-- and a string that is a name, is the number that it is interned as, the empty string being 0; a
-- file's content is a list of bytes.
use xgameruntime_rs.Base.{ℕ, ◌≡◌, ◌≢◌, Option, some, Bool, true, List}

-- `fs::DirEntry`: `name` is missing where it is not UTF-8, the others where the entry's metadata
-- cannot be read. Times count from an origin of the file system's own.
pub record DirEntry : Type 0 where
  pub name : Option ℕ
  pub file_name : ℕ
  pub path : ℕ
  pub is_file : Bool
  pub is_dir : Bool
  pub len : Option ℕ
  pub modified : Option ℕ

-- What `remove_dir_all` reports.
pub data Removal : Type 0 where
  removed not_found failed : Removal

-- A call that can fail reports so, with the disk that it leaves.
pub record FileSystem (D : Type 0) : Type 0 where
  pub join : ℕ → ℕ → ℕ
  pub read : ℕ → D → Option (List ℕ)
  pub read_to_string : ℕ → D → Option (List ℕ)
  pub write : ℕ → List ℕ → D → Bool × D
  pub create_dir_all : ℕ → D → Bool × D
  pub remove_file : ℕ → D → Bool × D
  pub remove_dir_all : ℕ → D → Removal × D
  pub read_dir : ℕ → D → Option (List DirEntry)
  pub is_dir : ℕ → D → Bool
  pub temp_dir : ℕ
  pub starts_with : ℕ → ℕ → Bool
  pub to_string : ℕ → ℕ
  pub to_string_lossy : ℕ → List ℕ
  -- The Unix epoch, and ticks to a second, of `modified`.
  pub unix_epoch : ℕ
  pub ticks : ℕ

-- What the file system's documentation says of files: a write that succeeds replaces the content,
-- and a write, a removal, or the making of directories leaves other files alone.
pub record FileLaws {D : Type 0} (fs : FileSystem D) : Type 0 where
  pub read-write :
      (p : ℕ) (b : List ℕ) (d : D)
      → (fs.write p b d).0 ≡ true
      → fs.read p (fs.write p b d).1 ≡ some b
  pub read-write_other :
      (p q : ℕ) (b : List ℕ) (d : D) → p ≢ q → fs.read q (fs.write p b d).1 ≡ fs.read q d
  pub read-remove_other : (p q : ℕ) (d : D) → p ≢ q → fs.read q (fs.remove_file p d).1 ≡ fs.read q d
  pub read-create : (p q : ℕ) (d : D) → fs.read q (fs.create_dir_all p d).1 ≡ fs.read q d
