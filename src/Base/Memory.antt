-- ===== src/Base/Memory.antt =====
-- Memory as bytes by address, and copying into it.
use Prim.Native.Nat.{ℕ, zero, suc, ◌+◌, ◌/◌, ◌%◌, ◌<◌, ◌≤◌}
use mathlib.Core.Path.{◌≡◌, refl, ap, ◌∙◌}
use mathlib.Core.List.{List, [], ◌∷◌, ◌++◌}
use native.Mathlib.Omega.{arith}
use xgameruntime_rs.Base.Lists.{length}
use xgameruntime_rs.Base.Heap.{Heap, update}

-- `copy_nonoverlapping` of some bytes to an address.
unfoldable pub write_bytes : List ℕ → ℕ → Heap ℕ → Heap ℕ
write_bytes [] address m = m
write_bytes (b ∷ bs) address m = write_bytes bs (address + 1) (update m address b)

abbrev pub read_bytes : ℕ → ℕ → Heap ℕ → List ℕ
read_bytes zero address m = []
read_bytes (suc n) address m = m address ∷ read_bytes n (address + 1) m

-- A number as bytes, the lowest first.
unfoldable pub le_bytes : ℕ → ℕ → List ℕ
le_bytes zero value = []
le_bytes (suc n) value = value % 256 ∷ le_bytes n (value / 256)

pub length-le_bytes : (n value : ℕ) → length (le_bytes n value) ≡ n
unfolding le_bytes
length-le_bytes zero value = refl
length-le_bytes (suc n) value = ap suc (length-le_bytes n (value / 256))

pub write_bytes_below :
    (bs : List ℕ) (address x : ℕ) (m : Heap ℕ) → x < address → write_bytes bs address m x ≡ m x
unfolding write_bytes
write_bytes_below [] address x m h = refl
write_bytes_below (b ∷ bs) address x m h =
    write_bytes_below bs (address + 1) x (update m address b) (omega (arith, h)) ∙ ground (arith, h)

pub write_bytes_above :
    (bs : List ℕ) (address x : ℕ) (m : Heap ℕ)
    → address + length bs ≤ x
    → write_bytes bs address m x ≡ m x
unfolding write_bytes
write_bytes_above [] address x m h = refl
write_bytes_above (b ∷ bs) address x m h =
    write_bytes_above bs (address + 1) x (update m address b) (omega (arith, h)) ∙ ground (arith, h)

both_cons : {x y : ℕ} {xs ys : List ℕ} → x ≡ y → xs ≡ ys → x ∷ xs ≡ y ∷ ys
both_cons {x} {y} {xs} {ys} e f = ap (λ z. z ∷ xs) e ∙ ap (λ zs. y ∷ zs) f

pub read-write_bytes :
    (bs : List ℕ) (address : ℕ) (m : Heap ℕ)
    → read_bytes (length bs) address (write_bytes bs address m) ≡ bs
unfolding write_bytes
read-write_bytes [] address m = refl
read-write_bytes (b ∷ bs) address m =
    both_cons
      (write_bytes_below bs (address + 1) address (update m address b) (omega arith) ∙ ground arith)
      (read-write_bytes bs (address + 1) (update m address b))

-- Where no address that is read differs, the bytes read are the same.
pub read_bytes_same :
    (n address : ℕ) (m k : Heap ℕ)
    → ((x : ℕ) → address ≤ x → x < address + n → m x ≡ k x)
    → read_bytes n address m ≡ read_bytes n address k
read_bytes_same zero address m k same = refl
read_bytes_same (suc n) address m k same = both_cons (same address (omega arith) (omega arith)) (
    read_bytes_same n (address + 1) m k
      (λ x low high. same x (omega (arith, low)) (omega (arith, high))))

-- What two pieces written one after the other make up is the whole.
pub write_bytes-append :
    (xs ys : List ℕ) (address : ℕ) (m : Heap ℕ)
    → write_bytes (xs ++ ys) address m
      ≡ write_bytes ys (address + length xs) (write_bytes xs address m)
unfolding write_bytes
write_bytes-append [] ys address m = ap (λ a. write_bytes ys a m) (omega arith)
write_bytes-append (x ∷ xs) ys address m =
    write_bytes-append xs ys (address + 1) (update m address x)
    ∙ ap (λ a. write_bytes ys a (write_bytes xs (address + 1) (update m address x))) (omega arith)
