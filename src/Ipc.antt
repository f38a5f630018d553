-- ===== src/Ipc.antt =====
-- src/ipc.rs, the request to xodus-service over loopback TCP: handshake, framing and the checks of
-- a reply. The service is a `Peer`: whether it takes the connection and each write, and the bytes
-- that arrive, after what it was sent, before it closes or a read times out. The unixlib transport
-- is not here.
pub mod Framing
pub mod Endpoint
pub mod Base64
pub mod Requests
pub mod Unix
pub mod Transport
pub mod Exchange
mod Witnesses
use xgameruntime_rs.Base.{
  ℕ, zero, suc, ◌*◌, ◌%◌, ◌^◌, Option, none, some, Bool, true, false, not, List, [], ◌∷◌, ◌++◌, ltb,
  ◌==◌, if◌then◌else◌, length,
}
use xgameruntime_rs.Results.{e_fail, e_notimpl, Result, ok, err}
use xgameruntime_rs.XAsync.Block.{to_ne_bytes, from_ne_bytes, take, drop}

abbrev pub handshake_magic : ℕ
handshake_magic = 0x55414458

abbrev pub handshake_accepted : ℕ
handshake_accepted = 1

abbrev pub xml_magic_v2 : ℕ
xml_magic_v2 = 0x59445358

abbrev pub max_message_size : ℕ
max_message_size = 16 * 1024 * 1024

-- `greeting` is what arrives after the handshake, `answer` what arrives after a request.
pub record Peer : Type 0 where
  pub connects : Bool
  pub takes_magic : Bool
  pub takes_secret : Bool
  pub takes_request : Bool
  pub greeting : List ℕ → List ℕ
  pub answer : List ℕ → List ℕ

-- `read_exact`: the bytes, and those that are still to be read.
unfoldable pub read_exact : ℕ → List ℕ → Option (List ℕ × List ℕ)
read_exact zero bytes = some ([], bytes)
read_exact (suc n) [] = none
read_exact (suc n) (b ∷ bytes) = elim (read_exact n bytes) [
  | none ↦ none
  | some (got, rest) ↦ some (b ∷ got, rest)
]

-- `perform_handshake`: what has arrived and is left to read.
unfoldable pub perform_handshake : Peer → List ℕ → Result (List ℕ)
unfolding read_exact
perform_handshake peer secret =
    if not peer.takes_magic
    then err e_fail
    else if not peer.takes_secret
    then err e_fail
    else elim (read_exact 1 (peer.greeting (to_ne_bytes 4 handshake_magic ++ secret))) [
      | none ↦ err e_fail
      | some (accepted, rest) ↦
          if from_ne_bytes accepted == handshake_accepted then ok rest else err e_fail
    ]

-- The request on the wire.
unfoldable pub frame : ℕ → List ℕ → List ℕ
unfolding to_ne_bytes
frame msg_type payload =
    to_ne_bytes 4 xml_magic_v2
    ++ (to_ne_bytes 2 msg_type ++ (to_ne_bytes 4 (length payload % 2 ^ 32) ++ payload))

-- The body of a reply, after its header.
unfoldable pub read_body : ℕ → ℕ → List ℕ → Result (ℕ × List ℕ)
read_body reply_type size bytes =
    if ltb max_message_size size then err e_fail else elim (read_exact size bytes) [
      | none ↦ err e_fail
      | some (body, rest) ↦ ok (reply_type, body)
    ]

unfoldable pub read_header : List ℕ → Result (ℕ × List ℕ)
unfolding read_body
read_header bytes = elim (read_exact 6 bytes) [
  | none ↦ err e_fail
  | some (header, rest) ↦
      read_body (from_ne_bytes (take 2 header)) (from_ne_bytes (drop 2 header)) rest
]

unfoldable pub read_reply : List ℕ → Result (ℕ × List ℕ)
unfolding read_header
read_reply bytes = elim (read_exact 4 bytes) [
  | none ↦ err e_fail
  | some (magic, rest) ↦
      if from_ne_bytes magic == xml_magic_v2 then read_header rest else err e_fail
]

-- `request_over_tcp`. `endpoint` is the port and the secret that the environment names.
unfoldable pub request_over_tcp : Option (ℕ × List ℕ) → Peer → ℕ → List ℕ → Result (ℕ × List ℕ)
unfolding perform_handshake read_reply
request_over_tcp none peer msg_type payload = err e_notimpl
request_over_tcp (some (port, secret)) peer msg_type payload =
    if not peer.connects then err e_fail else elim (perform_handshake peer secret) [
      | err hr ↦ err hr
      | ok rest ↦
          if not peer.takes_request
          then err e_fail
          else read_reply (rest ++ peer.answer (frame msg_type payload))
    ]

-- `exchange_with_timeout`: `body` is the serialized request, `request` the transport, and `parse`
-- reads a reply as UTF-8 and as XML.
unfoldable pub exchange :
    {A : Type 0}
    → ℕ
    → ℕ
    → Option (List ℕ)
    → (ℕ → List ℕ → Result (ℕ × List ℕ))
    → (List ℕ → Option A)
    → Result A
exchange req_type resp_type none request parse = err e_fail
exchange req_type resp_type (some payload) request parse = elim (request req_type payload) [
  | err hr ↦ err hr
  | ok (reply_type, reply_body) ↦
      if not (reply_type == resp_type)
      then err e_fail
      else elim (parse reply_body) [ none ↦ err e_fail | some reply ↦ ok reply ]
]
