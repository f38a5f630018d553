-- ===== src/Ipc/Unix/Witnesses.antt =====
-- The theorems on the native half, at a service whose reply comes in two pieces with an interruption.
use xgameruntime_rs.Base.{ℕ, ◌≡◌, refl, true, Option, none, some, List, [], ◌∷◌, ◌++◌, arith}
use xgameruntime_rs.Base.Memory.{write_bytes}
use xgameruntime_rs.Results.{ok}
use xgameruntime_rs.XAsync.Block.{to_ne_bytes, zeros}
use xgameruntime_rs.Ipc.{Peer, frame, request_over_tcp}
use xgameruntime_rs.Ipc.Transport.{
  Transport, Ntdll, publish_handle, resolve, request_with_timeout, resolve-publish_handle,
}
use xgameruntime_rs.Unixlib.{Native, Kernel}
use xgameruntime_rs.Unixlib.Socket.{returned, failed, eintr}
use xgameruntime_rs.Unixlib.Socket.Transfer.{
  all_read, piece, interrupted, all_sent, part, held_up, made, retried,
}
use xgameruntime_rs.Ipc.Unix as Unix
use xgameruntime_rs.Ipc.Unix.RoundTrip.{Serves, after_fetch, request_with_timeout-over_tcp}
use xgameruntime_rs.Ipc.Unix.Boxes.{Leaves, request_with_timeout-Leaves}

abbrev reply_header : List ℕ
reply_header = 88 ∷ 83 ∷ 68 ∷ 89 ∷ 4 ∷ 0 ∷ 2 ∷ 0 ∷ 0 ∷ 0 ∷ []

abbrev kernel : Kernel
kernel = record {
  has_fd = true;
  errno = 0;
  connects = failed eintr ∷ returned tt ∷ [];
  sends = returned 4 ∷ failed eintr ∷ returned 7 ∷ [];
  receives = λ sent.
      returned (88 ∷ 83 ∷ 68 ∷ [])
      ∷ failed eintr
      ∷ returned (89 ∷ 4 ∷ 0 ∷ 2 ∷ 0 ∷ 0 ∷ 0 ∷ [])
      ∷ returned (60 ∷ 62 ∷ [])
      ∷ [];
}

abbrev native : Native
native = record { replies = λ box. none; next_box = 1 }

abbrev memory : ℕ → ℕ
memory = λ address. 0

abbrev peer : Peer
peer = record {
  connects = true;
  takes_magic = true;
  takes_secret = true;
  takes_request = true;
  greeting = λ sent. 1 ∷ [];
  answer = λ sent. frame 4 (60 ∷ 62 ∷ []) ++ [];
}

kernel-Serves : Serves kernel (47 ∷ 120 ∷ []) (frame 3 (60 ∷ [])) 4 (60 ∷ 62 ∷ [])
unfolding frame to_ne_bytes
kernel-Serves = record {
  short = omega arith;
  has_fd = refl;
  listens = retried made;
  left = [];
  takes = part 3 (omega arith) (held_up (part 6 (omega arith) all_sent));
  replies = record {
    later = returned (60 ∷ 62 ∷ []) ∷ [];
    rest = [];
    head_arrives =
        piece 88 (83 ∷ 68 ∷ []) (omega arith)
          (interrupted (piece 89 (4 ∷ 0 ∷ 2 ∷ 0 ∷ 0 ∷ 0 ∷ []) (omega arith) all_read));
    body_arrives = piece 60 (62 ∷ []) (omega arith) all_read;
  };
}

over_tcp_example :
    (Unix.request_with_timeout (some (47 ∷ 120 ∷ [])) kernel 64 3 (60 ∷ []) 500 native memory
      ≡ some (
        request_over_tcp (some (8080, (1 ∷ []))) peer 3 (60 ∷ []),
        after_fetch (60 ∷ 62 ∷ []) native,
        write_bytes (60 ∷ 62 ∷ []) 64 (write_bytes (zeros 2) 64 memory),
      ))
    × (request_over_tcp (some (8080, (1 ∷ []))) peer 3 (60 ∷ []) ≡ ok (4, (60 ∷ 62 ∷ [])))
over_tcp_example =
    request_with_timeout-over_tcp (47 ∷ 120 ∷ []) (60 ∷ []) 3 500 64 kernel 4 (60 ∷ 62 ∷ []) native
      memory 8080 (1 ∷ []) peer (omega arith) (omega arith) (omega arith) (omega arith)
      (omega arith) (omega arith) kernel-Serves refl refl refl refl refl refl

Leaves_example :
    Leaves native
      (Unix.request_with_timeout (some (47 ∷ 120 ∷ [])) kernel 64 3 (60 ∷ []) 500 native memory)
Leaves_example =
    request_with_timeout-Leaves (some (47 ∷ 120 ∷ [])) kernel 64 3 (60 ∷ []) 500 native memory
      (omega arith) refl

abbrev ntdll : Ntdll
ntdll = record { wine_unix_call = none; dispatcher = none }

abbrev answer_over : ℕ → ℕ → List ℕ → ℕ
answer_over n msg_type payload = n

resolve_example :
    let over_unixlib = λ (t : Transport). answer_over t.handle in
    let handle = publish_handle 0x7f00 in
    let request =
      λ (t : Option Transport). request_with_timeout t over_unixlib (answer_over 0) 3 (60 ∷ []) in
    let path : List ℕ = 47 ∷ [] in
    (request (resolve (some path) handle (some (record ntdll { wine_unix_call = some 5 })) none)
      ≡ 0x7f00)
    × (request (
          resolve
            (some path)
            handle
            (some (record { wine_unix_call = none; dispatcher = some 5 }))
            none)
        ≡ 0x7f00)
    × (request (resolve none handle (some (record ntdll { wine_unix_call = some 5 })) none) ≡ 0)
    × (request (
          resolve
            (some path)
            handle
            (some (record { wine_unix_call = none; dispatcher = none }))
            none)
        ≡ 0)
    × (request (resolve (some path) handle none none) ≡ 0)
resolve_example =
    resolve-publish_handle (47 ∷ []) 0x7f00 5 ntdll none (λ t. answer_over t.handle) (answer_over 0)
      3 (60 ∷ []) (omega arith) refl (omega arith) (omega arith) (omega arith)
