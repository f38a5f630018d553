-- ===== src/Package/Paths.antt =====
-- A mount's path in the title's buffer.
use xgameruntime_rs.Base.{
  ℕ, zero, suc, ◌+◌, ◌-◌, ◌≤◌, ◌<◌, ◌≡◌, ◌≢◌, refl, sym, ap, subst, ◌∙◌, some, false, List, [], ◌∷◌,
  ◌==◌, if◌then◌else◌, length, ltb, arith, Bool-cases, inl, inr,
}
use xgameruntime_rs.Base.Heap.{Heap}
use xgameruntime_rs.HandleTable.{get}
use xgameruntime_rs.Results.{ok, s_ok}
use xgameruntime_rs.Store.{first}
use xgameruntime_rs.Store.Opaque.{HoldsText, write_c_string-HoldsText}
use xgameruntime_rs.User.Buffers.{write_c_string}
use xgameruntime_rs.Package.{Mounts, get_mount_path, get_mount_path_size, write_truncated}

length-first :
    (n : ℕ) (bs : List ℕ) → length (first n bs) ≡ (if ltb (length bs) n then length bs else n)
length-first zero bs = ground arith
length-first (suc n) [] = ground arith
length-first (suc n) (b ∷ bs) = ground (arith, length-first n bs)

first_all : (n : ℕ) (bs : List ℕ) → length bs ≤ n → first n bs ≡ bs
first_all zero [] h = refl
first_all zero (b ∷ bs) h = absurd (omega (arith, h))
first_all (suc n) [] h = refl
first_all (suc n) (b ∷ bs) h = ap (λ xs. b ∷ xs) (first_all n bs (omega (arith, h)))

-- How much of a path fits a buffer with a NUL after it.
abbrev pub fitting : List ℕ → ℕ → List ℕ
fitting path size = first (size - 1) path

write_truncated-write_c_string :
    (path : List ℕ) (size base : ℕ) (m : Heap ℕ)
    → 0 < size
    → write_truncated path size base m ≡ write_c_string (fitting path size) base m
unfolding write_truncated write_c_string
write_truncated-write_c_string path size base m h =
    let nonzero : (size == 0) ≡ false = ground (arith, h) in
    elim (Bool-cases (ltb (length path) (size - 1))) [
      | inl short ↦
          rw
            (
              nonzero,
              short,
              first_all (length path) path (omega arith),
              first_all (size - 1) path (ground (arith, short)),
            )
            refl
      | inr long ↦ rw (nonzero, long, length-first (size - 1) path, long) refl
    ]

-- A mount that is open, and a buffer that is not null and not empty: the status is `S_OK`, the buffer
-- holds as much of the path as fits with a NUL after it, and nothing outside the buffer changes. The
-- size that is reported is enough for the whole path.
pub get_mount_path_lem :
    {D : Type 0} (s : Mounts D) (mount size base x : ℕ) (path : List ℕ) (m : Heap ℕ)
    → get s.handles mount ≡ some path
    → base ≢ 0
    → 0 < size
    → ((get_mount_path mount size base s m).0 ≡ s_ok)
      × HoldsText (fitting path size) base size x (get_mount_path mount size base s m).1 m
      × (get_mount_path_size mount false s ≡ ok (length path + 1))
      × (fitting path (length path + 1) ≡ path)
unfolding get_mount_path get_mount_path_size
get_mount_path_lem s mount size base x path m found nonnull room =
    let whole : get_mount_path mount size base s m ≡ (s_ok, write_truncated path size base m) =
      ground (arith, found, nonnull) in
    let same = write_truncated-write_c_string path size base m room in
    (
      ap (λ r. r.0) whole,
      subst (λ memory. HoldsText (fitting path size) base size x memory m)
          (sym (ap (λ r. r.1) whole ∙ same))
          (write_c_string-HoldsText (fitting path size) base size x m
            (ground (arith, room, length-first (size - 1) path))),
      ground (arith, found),
      first_all (length path + 1 - 1) path (omega arith),
    )
