-- ===== src/Ipc/Framing.antt =====
-- The framing of requests and replies.
use xgameruntime_rs.Base.{
  ℕ, ◌%◌, ◌^◌, ◌≤◌, ◌<◌, ◌≡◌, refl, ap, ◌∙◌, ◌≢◌, ◌⊎◌, inl, inr, none, some, true, false, List, [],
  ◌∷◌, ◌++◌, ltb, length, arith,
}
use xgameruntime_rs.Results.{ok, err, e_fail, e_notimpl}
use xgameruntime_rs.XAsync.Block.{to_ne_bytes, from_ne_bytes}
use xgameruntime_rs.Ipc.{
  Peer, max_message_size, handshake_magic, handshake_accepted, read_exact, perform_handshake, frame,
  read_body, read_header, read_reply, request_over_tcp,
}

read_exact-append : (xs rest : List ℕ) → read_exact (length xs) (xs ++ rest) ≡ some (xs, rest)
unfolding read_exact
read_exact-append [] rest = refl
read_exact-append (x ∷ xs) rest = ground (arith, read_exact-append xs rest)

read_body-append :
    (reply_type size : ℕ) (body rest : List ℕ)
    → size ≡ length body
    → length body ≤ max_message_size
    → read_body reply_type size (body ++ rest) ≡ ok (reply_type, body)
unfolding read_body
read_body-append reply_type size body rest e h =
    rw e (rw (read_exact-append body rest, within) refl)
  where
    within : ltb max_message_size (length body) ≡ false
    within = ground (arith, h)

pub type_back : (t : ℕ) → t < 65536 → from_ne_bytes (to_ne_bytes 2 t) ≡ t
unfolding from_ne_bytes to_ne_bytes
type_back t h = omega arith

pub size_back : (n : ℕ) → n ≤ max_message_size → from_ne_bytes (to_ne_bytes 4 (n % 2 ^ 32)) ≡ n
unfolding from_ne_bytes to_ne_bytes
size_back n h = omega arith

-- What the client frames is what it takes for a reply: type and body come back, whatever follows.
-- The type has 16 bits, and the body is not above the limit.
read_reply-frame :
    (reply_type : ℕ) (body rest : List ℕ)
    → reply_type < 65536
    → length body ≤ max_message_size
    → read_reply (frame reply_type body ++ rest) ≡ ok (reply_type, body)
unfolding read_reply read_header frame read_exact to_ne_bytes from_ne_bytes
read_reply-frame reply_type body rest t h =
    ap (λ n. read_body n (from_ne_bytes (to_ne_bytes 4 (length body % 2 ^ 32))) (body ++ rest))
      (type_back reply_type t)
    ∙ read_body-append reply_type (from_ne_bytes (to_ne_bytes 4 (length body % 2 ^ 32))) body rest
        (size_back (length body) h) h

greeted :
    (peer : Peer) (secret : List ℕ)
    → peer.takes_magic ≡ true
    → peer.takes_secret ≡ true
    → peer.greeting (to_ne_bytes 4 handshake_magic ++ secret) ≡ handshake_accepted ∷ []
    → perform_handshake peer secret ≡ ok []
unfolding perform_handshake read_exact from_ne_bytes
greeted peer secret m s g = rw (m, s, g) refl

-- A service that takes the connection and the writes, accepts the handshake for the secret with
-- its one byte, and answers the request, as framed, with a framed reply of a 16-bit type and a body
-- within the limit: the request gives that reply, whatever else the service sends after it.
pub request_over_tcp-answered :
    (port : ℕ) (secret : List ℕ) (peer : Peer) (msg_type : ℕ) (payload : List ℕ) (reply_type : ℕ)
    (body rest : List ℕ)
    → peer.connects ≡ true
    → peer.takes_magic ≡ true
    → peer.takes_secret ≡ true
    → peer.takes_request ≡ true
    → peer.greeting (to_ne_bytes 4 handshake_magic ++ secret) ≡ handshake_accepted ∷ []
    → peer.answer (frame msg_type payload) ≡ frame reply_type body ++ rest
    → reply_type < 65536
    → length body ≤ max_message_size
    → request_over_tcp (some (port, secret)) peer msg_type payload ≡ ok (reply_type, body)
unfolding request_over_tcp
request_over_tcp-answered port secret peer msg_type payload reply_type body rest c m s r g a t h =
    rw (c, greeted peer secret m s g, r, a) (read_reply-frame reply_type body rest t h)

-- Before a good handshake nothing of the request matters: without an endpoint the request fails as
-- not implemented, and a service that greets with nothing, or with a byte other than the accepting
-- one, makes it fail, whatever the request and the answer are.
pub request_over_tcp-refused :
    (port : ℕ) (secret : List ℕ) (peer : Peer) (msg_type : ℕ) (payload : List ℕ) (b : ℕ)
    (rest : List ℕ)
    → b ≢ handshake_accepted
    → (peer.greeting (to_ne_bytes 4 handshake_magic ++ secret) ≡ [])
      ⊎ (peer.greeting (to_ne_bytes 4 handshake_magic ++ secret) ≡ b ∷ rest)
    → (request_over_tcp none peer msg_type payload ≡ err e_notimpl)
      × (request_over_tcp (some (port, secret)) peer msg_type payload ≡ err e_fail)
unfolding request_over_tcp perform_handshake read_exact from_ne_bytes
request_over_tcp-refused port secret peer msg_type payload b rest ne (inl e) =
    (refl, ground (arith, e))
request_over_tcp-refused port secret peer msg_type payload b rest ne (inr e) =
    (refl, ground (arith, e, ne))
