-- ===== src/XAsync/Block/RoundTrip.antt =====
-- The runtime reads back from a block what it wrote there.
use xgameruntime_rs.Base.{ℕ, ◌<◌, ◌≡◌, refl, ap, arith, u64_mod}
use xgameruntime_rs.XAsync.Block.{
  XAsyncBlock, signature, to_ne_bytes, from_ne_bytes, read_internal, write_internal, clear_internal,
}

from_ne_bytes-to_ne_bytes : (n : ℕ) → n < u64_mod → from_ne_bytes (to_ne_bytes 8 n) ≡ n
unfolding from_ne_bytes to_ne_bytes
from_ne_bytes-to_ne_bytes n h = omega arith

-- Any pointer written to a block is read back from it, with the signature, and a cleared block
-- has neither.
pub read_internal-write_internal :
    (block : XAsyncBlock) (state : ℕ)
    → state < u64_mod
    → (read_internal (write_internal block state) ≡ (signature, state))
      × (read_internal (clear_internal block) ≡ (0, 0))
unfolding read_internal write_internal clear_internal
read_internal-write_internal block state h =
    (ap {B = ℕ × ℕ} (λ n. (signature, n)) (from_ne_bytes-to_ne_bytes state h), refl)
