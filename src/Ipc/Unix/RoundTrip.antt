-- ===== src/Ipc/Unix/RoundTrip.antt =====
-- The request through the native half: what it gives, and what it leaves behind.
use xgameruntime_rs.Base.{
  ℕ, suc, ◌%◌, ◌^◌, ◌≤◌, ◌<◌, ◌≡◌, ◌≢◌, refl, sym, ap, ◌∙◌, none, some, true, false, List, [], ◌∷◌,
  ◌++◌, length, leb, arith,
}
use xgameruntime_rs.Base.Heap.{Heap, update}
use xgameruntime_rs.Base.Memory.{write_bytes, read-write_bytes}
use xgameruntime_rs.Results.{ok}
use xgameruntime_rs.XAsync.Block.{to_ne_bytes, from_ne_bytes, zeros}
use xgameruntime_rs.Ipc.{
  Peer, xml_magic_v2, max_message_size, handshake_magic, handshake_accepted, frame,
  request_over_tcp,
}
use xgameruntime_rs.Ipc.Framing.{type_back, size_back, request_over_tcp-answered}
use xgameruntime_rs.Unixlib.Socket.{gives, Answer, connect, sun_path_len}
use xgameruntime_rs.Unixlib.Socket.Transfer.{
  Delivers, read_exact-Delivers, Takes, write_all-Takes, Connects, connect_loop-Connects,
}
use xgameruntime_rs.Unixlib.{
  ExchangeParams, Native, Kernel, framed, read_reply, talk, exchange, fetch_reply,
}
use xgameruntime_rs.Ipc.Unix.{request_with_timeout, request_params, fetched, fetch_body}

-- The first ten bytes of a framed message.
abbrev pub header : ℕ → List ℕ → List ℕ
header t body =
    to_ne_bytes 4 xml_magic_v2 ++ (to_ne_bytes 2 t ++ to_ne_bytes 4 (length body % 2 ^ 32))

-- A reply that is framed like a request over TCP arrives.
pub record Replies (answers : List (Answer (List ℕ))) (t : ℕ) (body : List ℕ) : Type 0 where
  pub later : List (Answer (List ℕ))
  pub rest : List (Answer (List ℕ))
  pub head_arrives : Delivers 10 answers (header t body) later
  pub body_arrives : Delivers (length body) later body rest

leb_of-le : (a b : ℕ) → a ≤ b → leb a b ≡ true
leb_of-le a b h = ground arith

read_reply-Replies :
    (answers : List (Answer (List ℕ))) (t : ℕ) (body : List ℕ)
    → t < 65536
    → length body ≤ max_message_size
    → Replies answers t body
    → read_reply answers ≡ gives (t, body)
unfolding read_reply to_ne_bytes from_ne_bytes
read_reply-Replies answers t body ht hb r =
    rw
      (
        read_exact-Delivers r.head_arrives,
        type_back t ht,
        size_back (length body) hb,
        leb_of-le (length body) max_message_size hb,
        read_exact-Delivers r.body_arrives,
      )
      refl

-- A service that is there, takes a request and replies to it.
pub record Serves (kernel : Kernel) (path request : List ℕ) (t : ℕ) (body : List ℕ) : Type 0 where
  pub short : length path < sun_path_len
  pub has_fd : kernel.has_fd ≡ true
  pub listens : Connects kernel.connects
  pub left : List (Answer ℕ)
  pub takes : Takes request kernel.sends left
  pub replies : Replies (kernel.receives request) t body

framed-frame :
    (msg_type : ℕ) (payload : List ℕ)
    → msg_type < 65536
    → framed msg_type payload ≡ frame msg_type payload
unfolding framed frame
framed-frame msg_type payload h =
    ap
      (λ n.
        to_ne_bytes 4 xml_magic_v2
        ++ (to_ne_bytes 2 n ++ (to_ne_bytes 4 (length payload % 2 ^ 32) ++ payload)))
      (omega (arith, h))

connect-Serves :
    (path : List ℕ) (answers : List (Answer (Unit {0})))
    → length path < sun_path_len
    → Connects answers
    → connect path true answers ≡ gives tt
unfolding connect
connect-Serves path answers h c = rw (longer, connect_loop-Connects c) refl
  where
    longer : leb sun_path_len (length path) ≡ false
    longer = ground (arith, h)

talk-Serves :
    (path : List ℕ) (msg_type : ℕ) (payload : List ℕ) (kernel : Kernel) (t : ℕ) (body : List ℕ)
    → t < 65536
    → length body ≤ max_message_size
    → Serves kernel path (framed msg_type payload) t body
    → talk path msg_type payload kernel ≡ gives (t, body)
unfolding talk
talk-Serves path msg_type payload kernel t body ht hb s =
    rw
      (
        s.has_fd,
        connect-Serves path kernel.connects s.short s.listens,
        write_all-Takes kernel.errno s.takes,
      )
      (read_reply-Replies (kernel.receives (framed msg_type payload)) t body ht hb s.replies)

-- The native side after a reply was parked and fetched: the box is gone.
abbrev pub after_fetch : List ℕ → Native → Native
after_fetch body native = record {
  replies = update (update native.replies native.next_box (some body)) native.next_box none;
  next_box = suc native.next_box;
}

exchange-Serves :
    (path : List ℕ) (payload : List ℕ) (timeout msg_type : ℕ) (kernel : Kernel) (t : ℕ)
    (body : List ℕ) (native : Native)
    → length payload ≤ max_message_size
    → t < 65536
    → length body ≤ max_message_size
    → Serves kernel path (framed msg_type payload) t body
    → exchange kernel (request_params path msg_type payload timeout) native
      ≡ some (
        0,
        record (request_params path msg_type payload timeout) {
          reply_type = t;
          reply_len = length body;
          reply_handle = native.next_box;
        },
        record {
          replies = update native.replies native.next_box (some body);
          next_box = suc native.next_box;
        },
      )
unfolding exchange
exchange-Serves path payload timeout msg_type kernel t body native hp ht hb s =
    ground (arith, hp, talk-Serves path msg_type payload kernel t body ht hb s)

fetch_body-parked :
    (params : ExchangeParams) (body : List ℕ) (buffer : ℕ) (native : Native) (memory : Heap ℕ)
    → native.replies params.reply_handle ≡ some body
    → params.reply_len ≡ length body
    → params.reply_handle ≢ 0
    → params.reply_type < 65536
    → buffer ≢ 0
    → fetch_body params buffer native memory ≡ (
      ok (params.reply_type, body),
      record native { replies = update native.replies params.reply_handle none },
      write_bytes body buffer (write_bytes (zeros (length body)) buffer memory),
    )
unfolding fetch_body fetch_reply
fetch_body-parked params [] buffer native memory held len h ht hbuf =
    ground (arith, held, len, h, ht, hbuf)
fetch_body-parked params (b ∷ bs) buffer native memory held len h ht hbuf = ground (
  arith,
  held,
  len,
  h,
  ht,
  hbuf,
  read-write_bytes (b ∷ bs) buffer (write_bytes (zeros (length (b ∷ bs))) buffer memory),
)

-- A service that takes the framed request and replies with a framed message, in whatever pieces and
-- with whatever interruptions: the request through the native half gives the reply's type and body,
-- which is what the request over TCP gives where a service on TCP accepts the handshake and replies
-- with the same message; the reply's box is gone again. The type has 16 bits, the request's too; both
-- bodies are within the limit, the path fits the socket's address, and the first box is not null.
pub request_with_timeout-over_tcp :
    (path payload : List ℕ) (msg_type timeout_ms buffer : ℕ) (kernel : Kernel) (t : ℕ)
    (body : List ℕ) (native : Native) (memory : Heap ℕ) (port : ℕ) (secret : List ℕ) (peer : Peer)
    → msg_type < 65536
    → length payload ≤ max_message_size
    → t < 65536
    → length body ≤ max_message_size
    → buffer ≢ 0
    → native.next_box ≢ 0
    → Serves kernel path (frame msg_type payload) t body
    → peer.connects ≡ true
    → peer.takes_magic ≡ true
    → peer.takes_secret ≡ true
    → peer.takes_request ≡ true
    → peer.greeting (to_ne_bytes 4 handshake_magic ++ secret) ≡ handshake_accepted ∷ []
    → peer.answer (frame msg_type payload) ≡ frame t body ++ []
    → (request_with_timeout (some path) kernel buffer msg_type payload timeout_ms native memory
        ≡ some (
          request_over_tcp (some (port, secret)) peer msg_type payload,
          after_fetch body native,
          write_bytes body buffer (write_bytes (zeros (length body)) buffer memory),
        ))
      × (request_over_tcp (some (port, secret)) peer msg_type payload ≡ ok (t, body))
unfolding request_with_timeout fetched
request_with_timeout-over_tcp path payload msg_type timeout_ms buffer kernel t body native memory
      port secret peer hm hp ht hb hbuf hbox s c m k r g a =
    let over_tcp =
      request_over_tcp-answered port secret peer msg_type payload t body [] c m k r g a ht hb in
    let s' : Serves kernel path (framed msg_type payload) t body =
      rw (framed-frame msg_type payload hm) s in
    let params : ExchangeParams = record (request_params path msg_type payload timeout_ms) {
      reply_type = t;
      reply_len = length body;
      reply_handle = native.next_box;
    } in
    let parked : Native = record {
      replies = update native.replies native.next_box (some body);
      next_box = suc native.next_box;
    } in
    (
      ap (fetched buffer memory)
            (exchange-Serves path payload timeout_ms msg_type kernel t body native hp ht hb s')
          ∙ ap (λ r. some r)
              (fetch_body-parked params body buffer parked memory (ground arith) refl hbox ht hbuf)
          ∙ ap
              (λ r. some (
                r,
                after_fetch body native,
                write_bytes body buffer (write_bytes (zeros (length body)) buffer memory),
              ))
              (sym over_tcp),
      over_tcp,
    )
