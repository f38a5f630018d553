-- ===== src/Ipc/Witnesses.antt =====
-- The theorems on requests, at a service that answers every request with the same two bytes.
use xgameruntime_rs.Base.{[], arith, refl, some, suc, true, zero, ℕ, ◌++◌, ◌∷◌, ◌≡◌}
use xgameruntime_rs.Results.{Result, e_fail, ok, err}
use xgameruntime_rs.Ipc.Base64.{base64_encode, base64_decode}
use xgameruntime_rs.Ipc.Base64.RoundTrip.{base64_decode-base64_encode}
use xgameruntime_rs.Ipc.Requests.{
  get_token_and_signature, counted_once, counted_sleep, get_token_and_signature_lem,
}
use xgameruntime_rs.Ipc.{Peer, frame, request_over_tcp, exchange}
use xgameruntime_rs.Ipc.Exchange.{exchange-typed}

abbrev service : ℕ → Peer
service b = record {
  connects = true;
  takes_magic = true;
  takes_secret = true;
  takes_request = true;
  greeting = λ sent. b ∷ [];
  answer = λ sent. frame 4 (60 ∷ 62 ∷ []) ++ 9 ∷ [];
}

exchange_example :
    exchange 3 4
      (some (60 ∷ []))
      (request_over_tcp (some (8080, (1 ∷ 2 ∷ []))) (service 1))
      (λ body. some body)
    ≡ ok (60 ∷ 62 ∷ [])
exchange_example =
    exchange-typed 8080 (1 ∷ 2 ∷ []) (service 1) 3 4 4 (60 ∷ []) (60 ∷ 62 ∷ []) (9 ∷ [])
      (λ body. some body) refl refl refl refl refl refl (omega arith) (omega arith)

base64_decode-base64_encode_example :
    base64_decode (base64_encode (104 ∷ 101 ∷ 108 ∷ 108 ∷ [])) ≡ some (104 ∷ 101 ∷ 108 ∷ 108 ∷ [])
base64_decode-base64_encode_example =
    base64_decode-base64_encode (104 ∷ 101 ∷ 108 ∷ 108 ∷ [])
      (omega arith, (omega arith, (omega arith, (omega arith, tt))))

-- A service that fails once.
abbrev flaky : ℕ → Result ℕ
flaky zero = err e_fail
flaky (suc n) = ok 7

get_token_and_signature_example :
    get_token_and_signature (counted_once flaky) counted_sleep (0, 0) ≡ (ok 7, (2, 1))
get_token_and_signature_example = get_token_and_signature_lem flaky
