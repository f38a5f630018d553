-- ===== src/Base/Heap.antt =====
-- A heap of shared objects: what an `Arc` points at. A reference is a number, and every reference
-- that the program holds is good, so the heap is a total function.
use Prim.Native.Nat.{ℕ}
use xgameruntime_rs.Base.Tests.{◌==◌, if◌then◌else◌}

abbrev pub Heap {ℓ} : Type ℓ → Type ℓ
Heap A = ℕ → A

abbrev pub update {ℓ} : {A : Type ℓ} → Heap A → ℕ → A → Heap A
update h k v j = if k == j then v else h j
