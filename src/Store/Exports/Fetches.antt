-- ===== src/Store/Exports/Fetches.antt =====
-- A title fetches the three opaque strings with one block.
use xgameruntime_rs.Base.{ℕ, ◌+◌, ◌≡◌, List, length}
use xgameruntime_rs.Base.Heap.{Heap}
use xgameruntime_rs.Results.{Result, ok, s_ok}
use xgameruntime_rs.User.Buffers.{Written}
use xgameruntime_rs.Store.Opaque.{HoldsText}

-- A title's two calls for a string: it is told its size with the NUL, and then gets it.
abbrev pub Taken : List ℕ → ℕ → ℕ → ℕ → Result ℕ → Written → Heap ℕ → Type 0
Taken value size result x told w m =
    (told ≡ ok (length value + 1)) × (w.status ≡ s_ok) × HoldsText value result size x w.memory m
