-- ===== src/Ipc/Unix.antt =====
-- src/ipc/unixlib.rs: the request through the native half, and where that half is found. What ntdll
-- exports and answers is a parameter. A string is the list of its bytes.

pub mod RoundTrip
pub mod Boxes
mod Witnesses
use xgameruntime_rs.Base.{
  ℕ, zero, suc, ◌+◌, ◌*◌, ◌/◌, ◌%◌, ◌^◌, Option, none, some, Bool, true, false, not, ◌||◌, List, [],
  ◌∷◌, ◌==◌, if◌then◌else◌, length, ltb,
}
use xgameruntime_rs.Base.Heap.{Heap}
use xgameruntime_rs.Base.Memory.{write_bytes, read_bytes}
use xgameruntime_rs.Results.{Result, ok, err, e_fail}
use xgameruntime_rs.XAsync.Block.{zeros}
use xgameruntime_rs.Unixlib.{
  ExchangeParams, FetchReplyParams, Native, Kernel, exchange, fetch_reply, status_success,
}

-- The copying out: `buffer` is the address of the fresh vector.
unfoldable pub fetch_body :
    ExchangeParams → ℕ → Native → Heap ℕ → Result (ℕ × List ℕ) × Native × Heap ℕ
unfolding fetch_reply write_bytes
fetch_body params buffer native memory =
    let fresh = write_bytes (zeros params.reply_len) buffer memory in
    let (status, p, native', memory') =
      fetch_reply
        (record {
          reply_handle = params.reply_handle;
          buffer = buffer;
          buffer_len = params.reply_len;
        })
        native fresh in
    if not (status == status_success) then (err e_fail, native', memory') else (
      ok (params.reply_type % 2 ^ 16, read_bytes params.reply_len buffer memory'),
      native',
      memory',
    )

abbrev at_least_one : ℕ → ℕ
at_least_one n = if n == 0 then 1 else n

-- What the exchange ended with, taken on.
unfoldable pub fetched :
    ℕ
    → Heap ℕ
    → Option (ℕ × ExchangeParams × Native)
    → Option (Result (ℕ × List ℕ) × Native × Heap ℕ)
unfolding fetch_body
fetched buffer memory none = none
fetched buffer memory (some (status, params, native)) =
    if not (status == status_success)
    then some (err e_fail, native, memory)
    else some (fetch_body params buffer native memory)

abbrev pub request_params : List ℕ → ℕ → List ℕ → ℕ → ExchangeParams
request_params path msg_type payload timeout_ms = record {
  socket_path = some path;
  request = some payload;
  request_len = length payload;
  timeout_ms = at_least_one timeout_ms;
  msg_type = msg_type;
  reply_type = 0;
  reply_len = 0;
  reply_handle = 0;
}

-- `request_with_timeout`: `socket_path` is the transport's, if there is one; `none` where the native
-- half still waits.
unfoldable pub request_with_timeout :
    Option (List ℕ)
    → Kernel
    → ℕ
    → ℕ
    → List ℕ
    → ℕ
    → Native
    → Heap ℕ
    → Option (Result (ℕ × List ℕ) × Native × Heap ℕ)
unfolding exchange fetched
request_with_timeout none kernel buffer msg_type payload timeout_ms native memory =
    some (err e_fail, native, memory)
request_with_timeout (some path) kernel buffer msg_type payload timeout_ms native memory =
    fetched buffer memory (exchange kernel (request_params path msg_type payload timeout_ms) native)
