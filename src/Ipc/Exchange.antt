-- ===== src/Ipc/Exchange.antt =====
-- Typed exchanges with xodus-service.
use xgameruntime_rs.Base.{
  ℕ, ◌≤◌, ◌≡◌, ◌<◌, refl, Option, none, some, true, Bool-cases, inl, inr, if◌then◌else◌, List, [],
  ◌∷◌, ◌++◌, ◌==◌, length,
}
use xgameruntime_rs.Results.{ok, err, e_fail}
use xgameruntime_rs.XAsync.Block.{to_ne_bytes}
use xgameruntime_rs.Ipc.{
  Peer, handshake_magic, handshake_accepted, max_message_size, frame, request_over_tcp, exchange,
}
use xgameruntime_rs.Ipc.Framing.{request_over_tcp-answered}

-- Over TCP, to a service that takes the connection and the writes and accepts the handshake, and
-- answers with a framed reply, whose type has 16 bits and whose body is within the limit: an
-- exchange fails if the reply has another type than the expected one (as an error reply has),
-- whether or not its body can be read; and with the expected type it gives what the body reads as,
-- and fails where the body cannot be read.
pub exchange-typed :
    {A : Type 0}
    → (port : ℕ) (secret : List ℕ) (peer : Peer) (req_type resp_type other : ℕ)
      (payload body rest : List ℕ) (parse : List ℕ → Option A)
    → peer.connects ≡ true
    → peer.takes_magic ≡ true
    → peer.takes_secret ≡ true
    → peer.takes_request ≡ true
    → peer.greeting (to_ne_bytes 4 handshake_magic ++ secret) ≡ handshake_accepted ∷ []
    → peer.answer (frame req_type payload) ≡ frame other body ++ rest
    → other < 65536
    → length body ≤ max_message_size
    → exchange req_type resp_type (some payload) (request_over_tcp (some (port, secret)) peer) parse
      ≡ (if other == resp_type
          then (elim (parse body) [ none ↦ err e_fail | some reply ↦ ok reply ])
          else err e_fail)
unfolding exchange
exchange-typed port secret peer req_type resp_type other payload body rest parse c m s r g a t h =
    rw
      (
        request_over_tcp-answered port secret peer req_type payload other body rest c m s r g a t h,
        exchange,
      )
      (elim (Bool-cases (other == resp_type)) [ inl e ↦ rw e refl | inr e ↦ rw e refl ])
