-- ===== src/Unixlib.antt =====
-- unixlib/src/lib.rs: the native half of the client of xodus-service, which reaches the service's
-- Unix socket. The socket's calls are in Unixlib/Socket.antt. A pointer to bytes is missing where it
-- is null, and is the bytes it points at otherwise. A box is the number of its allocation.
pub mod Socket
use xgameruntime_rs.Base.{
  ℕ, zero, suc, ◌+◌, ◌-◌, ◌*◌, ◌%◌, ◌^◌, Option, none, some, Bool, true, false, not, ◌&&◌, ◌||◌,
  List, [], ◌∷◌, ◌++◌, ◌==◌, if◌then◌else◌, length, ltb, leb,
}
use xgameruntime_rs.Base.Heap.{Heap, update}
use xgameruntime_rs.Base.Memory.{write_bytes}
use xgameruntime_rs.XAsync.Block.{to_ne_bytes, from_ne_bytes, take, drop}
use xgameruntime_rs.Ipc.{xml_magic_v2, max_message_size}
use xgameruntime_rs.Unixlib.Socket.{
  Outcome, gives, fails, waits, ◌>>=◌, ◌>>◌, guard, Answer, connect, write_all, read_exact,
  status_invalid_parameter,
}

abbrev pub status_success : ℕ
status_success = 0

abbrev pub status_buffer_too_small : ℕ
status_buffer_too_small = 0xC0000023

abbrev pub status_invalid_network_response : ℕ
status_invalid_network_response = 0xC0000C01

-- `ExchangeParams`. `request` is what `request` and `request_len` describe.
pub record ExchangeParams : Type 0 where
  pub socket_path : Option (List ℕ)
  pub request : Option (List ℕ)
  pub request_len : ℕ
  pub timeout_ms : ℕ
  pub msg_type : ℕ
  pub reply_type : ℕ
  pub reply_len : ℕ
  pub reply_handle : ℕ

-- `FetchReplyParams`.
pub record FetchReplyParams : Type 0 where
  pub reply_handle : ℕ
  pub buffer : ℕ
  pub buffer_len : ℕ

-- The boxes of replies on the native side: `none` where there is no box, or none any more.
pub record Native : Type 0 where
  pub replies : Heap (Option (List ℕ))
  pub next_box : ℕ

-- What the kernel answers for one socket. `receives` may depend on the bytes that were sent.
pub record Kernel : Type 0 where
  pub has_fd : Bool
  pub errno : ℕ
  pub connects : List (Answer (Unit {0}))
  pub sends : List (Answer ℕ)
  pub receives : List ℕ → List (Answer (List ℕ))

-- The request on the wire.
unfoldable pub framed : ℕ → List ℕ → List ℕ
unfolding to_ne_bytes
framed msg_type request =
    to_ne_bytes 4 xml_magic_v2
    ++ (to_ne_bytes 2 (msg_type % 2 ^ 16) ++ (to_ne_bytes 4 (length request % 2 ^ 32) ++ request))

-- What `read_exact` read of the header, and then of the body: the reply's type and its body.
unfoldable pub read_reply : List (Answer (List ℕ)) → Outcome (ℕ × List ℕ)
unfolding read_exact from_ne_bytes
read_reply answers = do
  (header, later) ← read_exact 10 answers
  guard (from_ne_bytes (take 4 header) == xml_magic_v2) status_invalid_network_response
  guard (leb (from_ne_bytes (drop 6 header)) max_message_size) status_invalid_network_response
  (body, rest) ← read_exact (from_ne_bytes (drop 6 header)) later
  gives (from_ne_bytes (take 2 (drop 4 header)), body)

-- One connection: the request out, the reply in.
unfoldable pub talk : List ℕ → ℕ → List ℕ → Kernel → Outcome (ℕ × List ℕ)
unfolding connect write_all framed read_reply
talk path msg_type request kernel = do
  connect path kernel.has_fd kernel.connects
  (sent, answers) ← write_all kernel.errno kernel.sends (framed msg_type request)
  read_reply (kernel.receives sent)

abbrev pub cleared : ExchangeParams → ExchangeParams
cleared params = record params { reply_handle = 0; reply_len = 0; reply_type = 0 }

-- A reply is parked in a box of its own.
unfoldable pub park : ℕ × List ℕ → ExchangeParams → Native → ExchangeParams × Native
park (reply_type, body) params native = (
  record params {
    reply_type = reply_type;
    reply_len = length body;
    reply_handle = native.next_box;
  },
  record {
    replies = update native.replies native.next_box (some body);
    next_box = suc native.next_box;
  },
)

abbrev pub answered :
    Outcome (ℕ × List ℕ) → ExchangeParams → Native → Option (ℕ × ExchangeParams × Native)
answered (gives reply) params native =
    let (params', native') = park reply params native in some (status_success, params', native')
answered (fails status) params native = some (status, params, native)
answered waits params native = none

abbrev pub is_null : Option (List ℕ) → Bool
is_null none = true
is_null (some bytes) = false

abbrev bytes_at : Option (List ℕ) → List ℕ
bytes_at none = []
bytes_at (some bytes) = bytes

-- `exchange`: `none` where it still waits.
unfoldable pub exchange : Kernel → ExchangeParams → Native → Option (ℕ × ExchangeParams × Native)
unfolding talk park
exchange kernel params native =
    let p = cleared params in
    if is_null p.socket_path || (p.timeout_ms == 0)
    then some (status_invalid_parameter, p, native)
    else if ltb max_message_size p.request_len || (ltb 0 p.request_len && is_null p.request)
    then some (status_invalid_parameter, p, native)
    else answered (talk (bytes_at p.socket_path) p.msg_type (bytes_at p.request) kernel) p native

-- `fetch_reply`: the status, the parameters, the boxes and the caller's memory. A handle that is no
-- box is undefined there; here it is answered like a null one.
unfoldable pub fetch_reply :
    FetchReplyParams → Native → Heap ℕ → ℕ × FetchReplyParams × Native × Heap ℕ
unfolding write_bytes
fetch_reply params native memory =
    if params.reply_handle == 0
    then (status_invalid_parameter, params, native, memory)
    else elim (native.replies params.reply_handle) [
      | none ↦ (status_invalid_parameter, params, native, memory)
      | some body ↦
          let taken = record native { replies = update native.replies params.reply_handle none } in
          let p = record params { reply_handle = 0 } in
          if ltb params.buffer_len (length body)
          then (status_buffer_too_small, p, taken, memory)
          else if length body == 0
          then (status_success, p, taken, memory)
          else if params.buffer == 0
          then (status_invalid_parameter, p, taken, memory)
          else (status_success, p, taken, write_bytes body params.buffer memory)
    ]
