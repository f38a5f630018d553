-- ===== src/Unixlib/Socket.antt =====
-- unixlib/src/lib.rs, `Socket`: the loops over `connect`, `send` and `recv`. What the kernel returns
-- is a parameter: the answers to the calls, in order. A call is made for every answer; where the
-- answers end before the loop does, it still waits. `timeval` and the descriptor are left out.
pub mod Transfer
use xgameruntime_rs.Base.{
  ℕ, zero, suc, ◌-◌, Option, none, some, Bool, true, false, not, ◌||◌, List, [], ◌∷◌, ◌++◌, ◌==◌,
  if◌then◌else◌, length, leb,
}
use xgameruntime_rs.Store.{first}
use xgameruntime_rs.XAsync.Block.{drop}

abbrev pub status_invalid_parameter : ℕ
status_invalid_parameter = 0xC000000D

abbrev pub status_connection_refused : ℕ
status_connection_refused = 0xC0000236

abbrev pub status_object_name_not_found : ℕ
status_object_name_not_found = 0xC0000034

abbrev pub status_access_denied : ℕ
status_access_denied = 0xC0000022

abbrev pub status_unexpected_io_error : ℕ
status_unexpected_io_error = 0xC00000E9

abbrev pub status_io_timeout : ℕ
status_io_timeout = 0xC00000B5

-- The error numbers of Linux that the code tells apart.
abbrev pub eperm : ℕ
eperm = 1

abbrev pub enoent : ℕ
enoent = 2

abbrev pub eintr : ℕ
eintr = 4

abbrev pub eagain : ℕ
eagain = 11

abbrev pub eacces : ℕ
eacces = 13

abbrev pub etimedout : ℕ
etimedout = 110

abbrev pub einprogress : ℕ
einprogress = 115

-- `sizeof(sun_path)`.
abbrev pub sun_path_len : ℕ
sun_path_len = 108

-- How a call to the socket ends: with a value, with a status, or not within the answers given.
pub data Outcome (A : Type 0) : Type 0 where
  gives : A → Outcome A
  fails : ℕ → Outcome A
  waits : Outcome A

infixl 5 ◌>>=◌ ◌>>◌
abbrev pub ◌>>=◌ : {A B : Type 0} → Outcome A → (A → Outcome B) → Outcome B
gives a >>= f = f a
fails status >>= f = fails status
waits >>= f = waits

abbrev pub ◌>>◌ : {B : Type 0} → Outcome (Unit {0}) → Outcome B → Outcome B
m >> k = m >>= λ _. k

abbrev pub guard : Bool → ℕ → Outcome (Unit {0})
guard true status = gives tt
guard false status = fails status

-- An answer: a count for `send`, the bytes for `recv`, nothing for `connect`; or -1, with `errno`.
pub data Answer (A : Type 0) : Type 0 where
  returned : A → Answer A
  failed : ℕ → Answer A

abbrev pub connect_status : ℕ → ℕ
connect_status errno =
    if (errno == eagain) || ((errno == einprogress) || (errno == etimedout))
    then status_io_timeout
    else if errno == enoent
    then status_object_name_not_found
    else if (errno == eacces) || (errno == eperm)
    then status_access_denied
    else status_connection_refused

unfoldable pub connect_loop : List (Answer (Unit {0})) → Outcome (Unit {0})
connect_loop [] = waits
connect_loop (returned _ ∷ answers) = gives tt
connect_loop (failed errno ∷ answers) =
    let rest = connect_loop answers in if errno == eintr then rest else fails (connect_status errno)

-- `Socket::connect`: `has_fd` says whether `socket` gave a descriptor.
unfoldable pub connect : List ℕ → Bool → List (Answer (Unit {0})) → Outcome (Unit {0})
unfolding connect_loop
connect path has_fd answers =
    if leb sun_path_len (length path)
    then fails status_invalid_parameter
    else if not has_fd
    then fails status_unexpected_io_error
    else connect_loop answers

abbrev pub io_status : ℕ → ℕ
io_status errno = if errno == eagain then status_io_timeout else status_unexpected_io_error

abbrev pub after_bytes : {A : Type 0} → List ℕ → Outcome (List ℕ × A) → Outcome (List ℕ × A)
after_bytes bytes (gives (more, a)) = gives (bytes ++ more, a)
after_bytes bytes (fails status) = fails status
after_bytes bytes waits = waits

-- `Socket::write_all`: the bytes that the kernel took, and the answers that are left. `stale` is what
-- `errno` was before: a `send` that returns 0 does not set it.
unfoldable pub write_all : ℕ → List (Answer ℕ) → List ℕ → Outcome (List ℕ × List (Answer ℕ))
write_all stale answers [] = gives ([], answers)
write_all stale [] (b ∷ buf) = waits
write_all stale (returned zero ∷ answers) (b ∷ buf) =
    let again = write_all stale answers (b ∷ buf) in
    if stale == eintr then again else fails (io_status stale)
write_all stale (returned (suc n) ∷ answers) (b ∷ buf) =
    after_bytes (first (suc n) (b ∷ buf)) (write_all stale answers (drop (suc n) (b ∷ buf)))
write_all stale (failed errno ∷ answers) (b ∷ buf) =
    let again = write_all errno answers (b ∷ buf) in
    if errno == eintr then again else fails (io_status errno)

-- `Socket::read_exact`: the bytes that were read, and the answers that are left.
unfoldable pub read_exact : ℕ → List (Answer (List ℕ)) → Outcome (List ℕ × List (Answer (List ℕ)))
read_exact zero answers = gives ([], answers)
read_exact (suc n) [] = waits
read_exact (suc n) (returned [] ∷ answers) = fails status_unexpected_io_error
read_exact (suc n) (returned (b ∷ bytes) ∷ answers) =
    after_bytes (b ∷ bytes) (read_exact (n - length bytes) answers)
read_exact (suc n) (failed errno ∷ answers) =
    let again = read_exact (suc n) answers in
    if errno == eintr then again else fails (io_status errno)
