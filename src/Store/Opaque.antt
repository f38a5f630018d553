-- ===== src/Store/Opaque.antt =====
-- The opaque strings: kept under the title's block, sized, and copied out.
use xgameruntime_rs.Base.{
  ℕ, ◌+◌, ◌≤◌, ◌≡◌, ◌≢◌, refl, sym, ap, subst, ◌∙◌, none, some, false, ◌&&◌, List, [], ◌∷◌, ◌++◌,
  ◌==◌, if◌then◌else◌, length, length-append, ltb, leb, arith, ==_refl, Bool-cases, inl, inr,
}
use xgameruntime_rs.Base.Heap.{Heap}
use xgameruntime_rs.Base.Map.{lookup, lookup-insert}
use xgameruntime_rs.Base.Memory.{
  write_bytes, read_bytes, write_bytes_below, write_bytes_above, read-write_bytes,
}
use xgameruntime_rs.Results.{Result, ok, err, s_ok}
use xgameruntime_rs.User.Buffers.{PendingMap, write_c_string}
use xgameruntime_rs.User.Buffers.Layout.{write_c_string_bytes}
use xgameruntime_rs.Store.{store_opaque_result, opaque_result_size, opaque_result}

-- A memory that holds a string and its NUL at an address, and is as another was outside some bytes
-- from it.
abbrev pub HoldsText : List ℕ → ℕ → ℕ → ℕ → Heap ℕ → Heap ℕ → Type 0
HoldsText value base size x memory before =
    (read_bytes (length value + 1) base memory ≡ value ++ 0 ∷ [])
    × (memory x ≡ (if leb base x && ltb x (base + size) then memory x else before x))

pub write_c_string-HoldsText :
    (value : List ℕ) (base size x : ℕ) (m : Heap ℕ)
    → length value + 1 ≤ size
    → HoldsText value base size x (write_c_string value base m) m
write_c_string-HoldsText value base size x m fits =
    let bytes = value ++ 0 ∷ [] in
    let long : length bytes ≡ length value + 1 = length-append value (0 ∷ []) in
    subst (λ memory. HoldsText value base size x memory m) (sym (write_c_string_bytes value base m))
      (
        ap (λ n. read_bytes n base (write_bytes bytes base m)) (sym long)
            ∙ read-write_bytes bytes base m,
        elim (Bool-cases (ltb x base)) [
          | inl low ↦ ground (arith, low, write_bytes_below bytes base x m)
          | inr high ↦ ground (arith, high, fits, long, write_bytes_above bytes base x m)
        ],
      )

lookup-store :
    (key other : ℕ) (result : Result (List ℕ)) (results : PendingMap (List ℕ))
    → lookup other (store_opaque_result key result results).1
      ≡ (if key == other then some result else lookup other results)
unfolding store_opaque_result
lookup-store key other (ok value) results = lookup-insert key other (ok value) results
lookup-store key other (err hr) results = lookup-insert key other (err hr) results

-- A string that was fetched for a block: its size is reported with the NUL, and a buffer of at least
-- that size gets it whole, with a NUL after it and nothing changed outside the buffer. The answers
-- for other blocks are as they were.
pub opaque_result-store_opaque_result :
    (key other size result x : ℕ) (value : List ℕ) (results : PendingMap (List ℕ)) (m : Heap ℕ)
    → key ≢ other
    → result ≢ 0
    → length value + 1 ≤ size
    → let kept = (store_opaque_result key (ok value) results).1 in
      (opaque_result_size kept key false ≡ ok (length value + 1))
      × ((opaque_result kept key size result m).status ≡ s_ok)
      × HoldsText value result size x (opaque_result kept key size result m).memory m
      × (opaque_result_size kept other false ≡ opaque_result_size results other false)
unfolding opaque_result_size opaque_result
opaque_result-store_opaque_result key other size result x value results m apart nonnull fits =
    let kept = (store_opaque_result key (ok value) results).1 in
    let found : lookup key kept ≡ some (ok value) =
      lookup-store key key (ok value) results ∙ rw (==_refl key) refl in
    let others : lookup other kept ≡ lookup other results =
      lookup-store key other (ok value) results ∙ ground (arith, apart) in
    let whole : opaque_result kept key size result m ≡ record {
      status = s_ok;
      memory = write_c_string value result m;
      pointer = none;
      used = none;
    } =
      ground (arith, found, nonnull, fits) in
    (
      rw found refl,
      ap (λ w. w.status) whole,
      subst (λ w. HoldsText value result size x w.memory m) (sym whole)
          (write_c_string-HoldsText value result size x m fits),
      rw others refl,
    )
