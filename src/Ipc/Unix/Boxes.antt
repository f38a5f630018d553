-- ===== src/Ipc/Unix/Boxes.antt =====
-- No request leaves a box behind on the native side.
use xgameruntime_rs.Base.{
  ℕ, ◌%◌, ◌^◌, ◌&&◌, ◌||◌, not, Bool, true, false, Bool-cases, ap, ◌∙◌, ◌≡◌, ◌≢◌, refl, Option,
  none, some, List, ◌==◌, ltb, if◌then◌else◌, inl, inr, arith,
}
use xgameruntime_rs.Base.Heap.{Heap}
use xgameruntime_rs.Base.Memory.{write_bytes, read_bytes}
use xgameruntime_rs.XAsync.Block.{zeros}
use xgameruntime_rs.Results.{Result, ok, err, e_fail}
use xgameruntime_rs.Ipc.{max_message_size}
use xgameruntime_rs.Unixlib.Socket.{Outcome, gives, fails, waits, status_invalid_parameter}
use xgameruntime_rs.Unixlib.{
  ExchangeParams, FetchReplyParams, Native, Kernel, talk, park, answered, cleared, is_null,
  exchange, fetch_reply, status_success,
}
use xgameruntime_rs.Ipc.Unix.{request_with_timeout, request_params, fetched, fetch_body}

-- `fetch_reply` empties the box that it is given, whatever it answers.
fetch_reply-empties :
    (params : FetchReplyParams) (native : Native) (memory : Heap ℕ) (x : ℕ)
    → params.reply_handle ≢ 0
    → (fetch_reply params native memory).2.replies x
      ≡ (if params.reply_handle == x then none else native.replies x)
unfolding fetch_reply
fetch_reply-empties params native memory x h = ground (arith, h)

abbrev IsFailure : Result (ℕ × List ℕ) → Type 0
IsFailure (ok reply) = Unit {0}
IsFailure (err hr) = hr ≡ e_fail

-- The boxes are what they were, and what is not a reply is `E_FAIL`.
abbrev pub Leaves : Native → Option (Result (ℕ × List ℕ) × Native × Heap ℕ) → Type 0
Leaves native none = Unit {0}
Leaves native (some (r, native', memory)) =
    ((x : ℕ) → native'.replies x ≡ native.replies x) × IsFailure r

abbrev taken : Bool → ℕ × List ℕ → Native → Heap ℕ → Heap ℕ → Result (ℕ × List ℕ) × Native × Heap ℕ
taken failed reply native memory memory' =
    if failed then (err e_fail, native, memory) else (ok reply, native, memory')

taken-native :
    (failed : Bool) (reply : ℕ × List ℕ) (native : Native) (memory memory' : Heap ℕ)
    → (taken failed reply native memory memory').1 ≡ native
taken-native true reply native memory memory' = refl
taken-native false reply native memory memory' = refl

IsFailure-if :
    (failed : Bool) (reply : ℕ × List ℕ) (native : Native) (memory memory' : Heap ℕ)
    → IsFailure (taken failed reply native memory memory').0
IsFailure-if true reply native memory memory' = refl
IsFailure-if false reply native memory memory' = tt

-- Fetching fails as `E_FAIL`, and empties the box that it is given, if it is given one.
fetch_body-empties :
    (params : ExchangeParams) (buffer : ℕ) (native : Native) (memory : Heap ℕ)
    → IsFailure (fetch_body params buffer native memory).0
      × ((x : ℕ)
          → params.reply_handle ≢ 0
          → (fetch_body params buffer native memory).1.replies x
            ≡ (if params.reply_handle == x then none else native.replies x))
      × ((x : ℕ)
          → params.reply_handle ≡ 0
          → (fetch_body params buffer native memory).1.replies x ≡ native.replies x)
unfolding fetch_body fetch_reply
fetch_body-empties params buffer native memory =
    let fresh = write_bytes (zeros params.reply_len) buffer memory in
    let p : FetchReplyParams = record {
      reply_handle = params.reply_handle;
      buffer = buffer;
      buffer_len = params.reply_len;
    } in
    let done = fetch_reply p native fresh in
    let failed = not (done.0 == status_success) in
    let reply : ℕ × List ℕ =
      (params.reply_type % 2 ^ 16, read_bytes params.reply_len buffer done.3) in
    let same = taken-native failed reply done.2 done.3 done.3 in
    (
      IsFailure-if failed reply done.2 done.3 done.3,
      (λ x h. ap (λ n. n.replies x) same ∙ fetch_reply-empties p native fresh x h),
      (λ x h. ap (λ n. n.replies x) same ∙ ground (arith, h)),
    )

answered-Leaves :
    (outcome : Outcome (ℕ × List ℕ)) (params : ExchangeParams) (buffer : ℕ) (native : Native)
    (memory : Heap ℕ)
    → params.reply_handle ≡ 0
    → native.next_box ≢ 0
    → native.replies native.next_box ≡ none
    → Leaves native (fetched buffer memory (answered outcome params native))
unfolding fetched park
answered-Leaves (gives (t, body)) params buffer native memory h hbox fresh =
    let parked = park (t, body) params native in
    let (failure, emptied, kept) = fetch_body-empties parked.0 buffer parked.1 memory in
    ((λ x. emptied x hbox ∙ ground (arith, fresh)), failure)
answered-Leaves (fails status) params buffer native memory h hbox fresh =
    elim (Bool-cases (status == status_success)) [
      | inl e ↦
          (let (failure, emptied, kept) = fetch_body-empties params buffer native memory in
            rw e ((λ x. kept x h), failure))
      | inr e ↦ rw e ((λ x. refl), refl)
    ]
answered-Leaves waits params buffer native memory h hbox fresh = tt

refused-Leaves :
    (test : Bool) (params : ExchangeParams) (buffer : ℕ) (native : Native) (memory : Heap ℕ)
    (more : Option (ℕ × ExchangeParams × Native))
    → Leaves native (fetched buffer memory more)
    → Leaves native (
        fetched buffer memory
          (if test then some (status_invalid_parameter, params, native) else more))
unfolding fetched
refused-Leaves true params buffer native memory more h = ((λ x. refl), refl)
refused-Leaves false params buffer native memory more h = h

-- Whatever the kernel answers and the service sends: where the request ends, the native side holds
-- the boxes that it held before and no other, and what is not a reply is `E_FAIL`. The next box is
-- not null, and is not in use.
pub request_with_timeout-Leaves :
    (socket_path : Option (List ℕ)) (kernel : Kernel) (buffer msg_type : ℕ) (payload : List ℕ)
    (timeout_ms : ℕ) (native : Native) (memory : Heap ℕ)
    → native.next_box ≢ 0
    → native.replies native.next_box ≡ none
    → Leaves native
        (request_with_timeout socket_path kernel buffer msg_type payload timeout_ms native memory)
unfolding request_with_timeout exchange
request_with_timeout-Leaves none kernel buffer msg_type payload timeout_ms native memory hbox
      fresh =
    ((λ x. refl), refl)
request_with_timeout-Leaves (some path) kernel buffer msg_type payload timeout_ms native memory hbox
      fresh =
    let params = cleared (request_params path msg_type payload timeout_ms) in
    let outcome = talk path msg_type payload kernel in
    let no_target = is_null params.socket_path || (params.timeout_ms == 0) in
    let no_request =
      ltb max_message_size params.request_len
      || (ltb 0 params.request_len && is_null params.request) in
    let done = answered outcome params native in
    let refused : Option (ℕ × ExchangeParams × Native) =
      if no_request then some (status_invalid_parameter, params, native) else done in
    refused-Leaves no_target params buffer native memory refused (
      refused-Leaves no_request params buffer native memory done
        (answered-Leaves outcome params buffer native memory refl hbox fresh))
