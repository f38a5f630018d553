-- ===== src/XAsync/Block.antt =====
-- src/com/xasync/core.rs, `read_internal` and `write_internal`, and src/com/xasync/mod.rs,
-- `XAsyncBlock` and `XAsyncOp`. The target is little-endian: native byte order is low byte first.
pub mod RoundTrip
use xgameruntime_rs.Base.{ℕ, zero, suc, ◌+◌, ◌*◌, ◌/◌, ◌%◌, List, [], ◌∷◌, ◌++◌}

pub data XAsyncOp : Type 0 where
  begin do_work get_result cancel cleanup : XAsyncOp

-- A null pointer is 0. `queue` is a handle.
pub record XAsyncBlock : Type 0 where
  pub queue : ℕ
  pub context : ℕ
  pub callback : ℕ
  pub internal : List ℕ

-- "XASYNC_1".
abbrev pub signature : ℕ
signature = 0x584153594e435f31

unfoldable pub to_ne_bytes : ℕ → ℕ → List ℕ
to_ne_bytes zero n = []
to_ne_bytes (suc k) n = n % 256 ∷ to_ne_bytes k (n / 256)

unfoldable pub from_ne_bytes : List ℕ → ℕ
from_ne_bytes [] = 0
from_ne_bytes (b ∷ bs) = b + 256 * from_ne_bytes bs

-- `internal[0..8]` and the like.
abbrev pub take : ℕ → List ℕ → List ℕ
take zero bs = []
take (suc n) [] = []
take (suc n) (b ∷ bs) = b ∷ take n bs

abbrev pub drop : ℕ → List ℕ → List ℕ
drop zero bs = bs
drop (suc n) [] = []
drop (suc n) (b ∷ bs) = drop n bs

abbrev pub zeros : ℕ → List ℕ
zeros zero = []
zeros (suc n) = 0 ∷ zeros n

-- The signature word and the pointer.
unfoldable pub read_internal : XAsyncBlock → ℕ × ℕ
unfolding from_ne_bytes
read_internal block =
    (from_ne_bytes (take 8 block.internal), from_ne_bytes (take 8 (drop 8 block.internal)))

unfoldable pub write_internal : XAsyncBlock → ℕ → XAsyncBlock
unfolding to_ne_bytes
write_internal block state = record block {
  internal = to_ne_bytes 8 signature ++ (to_ne_bytes 8 state ++ zeros 16);
}

-- `internal.fill(0)`.
unfoldable pub clear_internal : XAsyncBlock → XAsyncBlock
clear_internal block = record block { internal = zeros 32 }
