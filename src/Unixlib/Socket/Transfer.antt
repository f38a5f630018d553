-- ===== src/Unixlib/Socket/Transfer.antt =====
-- Whole transfers over a socket, in whatever pieces and with whatever interruptions.
use xgameruntime_rs.Base.{
  ℕ, zero, suc, ◌-◌, ◌≤◌, ◌≡◌, refl, ap, ◌∙◌, List, [], ◌∷◌, ◌++◌, length, length-append, arith,
}
use xgameruntime_rs.Store.{first}
use xgameruntime_rs.XAsync.Block.{drop}
use xgameruntime_rs.Unixlib.Socket.{
  gives, Answer, returned, failed, eintr, after_bytes, connect_loop, write_all, read_exact,
}

-- The kernel hands over some bytes to reads of so many: in pieces that are not empty and not longer
-- than what is asked for, with interruptions before any of them.
pub data Delivers : ℕ → List (Answer (List ℕ)) → List ℕ → List (Answer (List ℕ)) → Type 0 where
  all_read : {rest : List (Answer (List ℕ))} → Delivers zero rest [] rest
  piece :
      {n : ℕ} {answers : List (Answer (List ℕ))} {bytes : List ℕ} {rest : List (Answer (List ℕ))}
      (b : ℕ) (c : List ℕ)
      → length c ≤ n
      → Delivers (n - length c) answers bytes rest
      → Delivers (suc n) (returned (b ∷ c) ∷ answers) ((b ∷ c) ++ bytes) rest
  interrupted :
      {n : ℕ} {answers : List (Answer (List ℕ))} {bytes : List ℕ} {rest : List (Answer (List ℕ))}
      → Delivers (suc n) answers bytes rest
      → Delivers (suc n) (failed eintr ∷ answers) bytes rest

pub read_exact-Delivers :
    {n : ℕ} {answers : List (Answer (List ℕ))} {bytes : List ℕ} {rest : List (Answer (List ℕ))}
    → Delivers n answers bytes rest
    → read_exact n answers ≡ gives (bytes, rest)
unfolding read_exact
read_exact-Delivers all_read = refl
read_exact-Delivers (piece b c h d) = ap (after_bytes (b ∷ c)) (read_exact-Delivers d)
read_exact-Delivers (interrupted d) = read_exact-Delivers d

pub length-Delivers :
    {n : ℕ} {answers : List (Answer (List ℕ))} {bytes : List ℕ} {rest : List (Answer (List ℕ))}
    → Delivers n answers bytes rest
    → length bytes ≡ n
length-Delivers all_read = refl
length-Delivers (piece {n} {answers} {bytes} b c h d) =
    omega (arith, h, length-Delivers d, length-append (b ∷ c) bytes)
length-Delivers (interrupted d) = length-Delivers d

-- The kernel takes a buffer: in pieces that are not empty and not longer than what is left, with
-- interruptions before any of them.
pub data Takes : List ℕ → List (Answer ℕ) → List (Answer ℕ) → Type 0 where
  all_sent : {rest : List (Answer ℕ)} → Takes [] rest rest
  part :
      {b : ℕ} {buf : List ℕ} {answers rest : List (Answer ℕ)} (n : ℕ)
      → n ≤ length buf
      → Takes (drop n buf) answers rest
      → Takes (b ∷ buf) (returned (suc n) ∷ answers) rest
  held_up :
      {b : ℕ} {buf : List ℕ} {answers rest : List (Answer ℕ)}
      → Takes (b ∷ buf) answers rest
      → Takes (b ∷ buf) (failed eintr ∷ answers) rest

first-drop : (n : ℕ) (bs : List ℕ) → first n bs ++ drop n bs ≡ bs
first-drop zero bs = refl
first-drop (suc n) [] = refl
first-drop (suc n) (b ∷ bs) = ap (λ xs. b ∷ xs) (first-drop n bs)

pub write_all-Takes :
    {buf : List ℕ} {answers rest : List (Answer ℕ)} (stale : ℕ)
    → Takes buf answers rest
    → write_all stale answers buf ≡ gives (buf, rest)
unfolding write_all
write_all-Takes stale all_sent = refl
write_all-Takes stale (part {b} {buf} {answers} {rest} n h t) =
    ap (after_bytes (first (suc n) (b ∷ buf))) (write_all-Takes stale t)
    ∙ ap (λ bs. gives (b ∷ bs, rest)) (first-drop n buf)
write_all-Takes stale (held_up t) = write_all-Takes eintr t

-- The connection is made, after interruptions.
pub data Connects : List (Answer (Unit {0})) → Type 0 where
  made : {answers : List (Answer (Unit {0}))} → Connects (returned tt ∷ answers)
  retried :
      {answers : List (Answer (Unit {0}))} → Connects answers → Connects (failed eintr ∷ answers)

pub connect_loop-Connects :
    {answers : List (Answer (Unit {0}))} → Connects answers → connect_loop answers ≡ gives tt
unfolding connect_loop
connect_loop-Connects made = refl
connect_loop-Connects (retried c) = connect_loop-Connects c
