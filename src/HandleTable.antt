-- ===== src/HandleTable.antt =====
-- src/com/handle_table.rs: the checked table from opaque `u64` handles to objects. The mutex makes
-- each operation one atomic step; `next` is an atomic counter of its own, and wraps. The lazily
-- made `OnceLock<Mutex<HashMap>>` is the empty map until the first use.
pub mod Laws
pub mod History
mod Witnesses
use xgameruntime_rs.Base.{ℕ, Option, none, [], ◌==◌, if◌then◌else◌, add64}
use xgameruntime_rs.Base.Map.{Map, lookup, insert, remove}

pub record HandleTable {ℓ} (T : Type ℓ) : Type ℓ where
  pub next : ℕ
  pub entries : Map T

module _ {ℓ} {T : Type ℓ} where
  -- 0 is "no handle" throughout the interface, so the counter starts at 1.
  unfoldable pub new : HandleTable T
  new = record { next = 1; entries = [] }

  -- The handle issued, and the table with its entry.
  unfoldable pub create : HandleTable T → T → ℕ × HandleTable T
  create t value =
      (t.next, record t { next = add64 t.next 1; entries = insert t.next value t.entries })

  unfoldable pub get : HandleTable T → ℕ → Option T
  get t handle = if handle == 0 then none else lookup handle t.entries

  unfoldable pub close : HandleTable T → ℕ → HandleTable T
  close t handle = if handle == 0 then t else record t { entries = remove handle t.entries }
