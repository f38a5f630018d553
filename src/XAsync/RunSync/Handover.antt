-- ===== src/XAsync/RunSync/Handover.antt =====
-- The blocking body on a worker and on the caller's thread.
use xgameruntime_rs.Base.{
  ℕ, Bool, ◌≡◌, refl, ap, ◌∙◌, Option, none, some, true, false, List, [], ◌∷◌, ◌++◌, arith, ==_refl,
}
use xgameruntime_rs.Results.{Result, ok, err, s_ok, e_abort}
use xgameruntime_rs.XAsync.Block.{begin, get_result, cancel}
use xgameruntime_rs.XAsync.Engine.{ContextHelper, Engine, Environment, XAsyncProviderData}
use xgameruntime_rs.XAsync.Engine.Exports.{xasync_complete}
use xgameruntime_rs.XAsync.RunSync.{
  copied, copy_to, put_helper, record_result, settle_helper, finish_call, run_sync_helper,
  run_sync_worker,
}
use xgameruntime_rs.XAsync.RunSync.Completing.{StaysOut, xasync_complete-Leaves}

-- The bytes that a body's outcome gives the title.
abbrev pub bytes_of : Result (List ℕ) → Option (List ℕ)
bytes_of (ok value) = some value
bytes_of (err hr) = none

-- `GetResult` on a context.
get_result-held :
    (env : Environment) (size : ℕ) (submitted : Bool) (outcome : Result (List ℕ))
    (given : XAsyncProviderData) (h : ContextHelper) (w : Engine)
    → w.helpers given.context ≡ some h
    → run_sync_helper env size submitted outcome get_result given w
      ≡ (s_ok, record w { memory = copy_to (copied h) given.buffer w.memory })
unfolding run_sync_helper
get_result-held env size submitted outcome given h w held = rw (held, run_sync_helper) refl

pub run_sync_worker-held :
    (env : Environment) (size : ℕ) (canceled : Bool) (outcome : Result (List ℕ)) (context block : ℕ)
    (h : ContextHelper) (w : Engine)
    → w.helpers context ≡ some h
    → run_sync_worker env size canceled outcome context block w
      ≡ finish_call env size context block (settle_helper canceled outcome h) w
unfolding run_sync_worker xasync_complete
run_sync_worker-held env size canceled outcome context block h w held =
    rw (held, run_sync_worker) refl

-- What is copied once the call is completed.
get_result-finished :
    (env : Environment) (out : StaysOut env) (size : ℕ) (submitted : Bool)
    (outcome : Result (List ℕ)) (given : XAsyncProviderData) (h : ContextHelper) (w : Engine)
    → (run_sync_helper env size submitted outcome get_result given
        (finish_call env size given.context given.async_block h w)).1.memory
      ≡ copy_to (copied h) given.buffer w.memory
get_result-finished env out size submitted outcome given h w =
    let kept = put_helper given.context (some h) w in
    let done = finish_call env size given.context given.async_block h w in
    let left = xasync_complete-Leaves env out given.async_block h.result size kept in
    let found = ap (λ hs. hs given.context) left.helpers ∙ rw (==_refl given.context) refl in
    ap (λ r. r.1.memory) (get_result-held env size submitted outcome given h done found)
    ∙ ap (copy_to (copied h) given.buffer) left.memory

-- The same, for a worker.
worker-finished :
    (env : Environment) (out : StaysOut env) (size : ℕ) (canceled : Bool)
    (outcome : Result (List ℕ)) (given : XAsyncProviderData) (h : ContextHelper) (w : Engine)
    → w.helpers given.context ≡ some h
    → (run_sync_helper env size true outcome get_result given
        (run_sync_worker env size canceled outcome given.context given.async_block w)).1.memory
      ≡ copy_to (copied (settle_helper canceled outcome h)) given.buffer w.memory
worker-finished env out size canceled outcome given h w held =
    ap (λ x. (run_sync_helper env size true outcome get_result given x).1.memory)
      (run_sync_worker-held env size canceled outcome given.context given.async_block h w held)
    ∙ get_result-finished env out size true outcome given (settle_helper canceled outcome h) w

-- What a worker makes of a body's outcome.
abbrev pub result_of : Bool → Result (List ℕ) → Result (List ℕ)
result_of true outcome = err e_abort
result_of false outcome = outcome

-- A context whose body has not run.
abbrev pub unrun : ℕ → Bool → ContextHelper
unrun hr asked = record { result = hr; canceled = asked; payload = none }

pub copied-settle_helper :
    (canceled : Bool) (outcome : Result (List ℕ)) (hr : ℕ) (asked : Bool)
    → copied (settle_helper canceled outcome (unrun hr asked))
      ≡ bytes_of (result_of canceled outcome)
unfolding settle_helper record_result
copied-settle_helper true outcome hr asked = refl
copied-settle_helper false (ok value) hr asked = refl
copied-settle_helper false (err code) hr asked = ground arith

-- A call whose body has not run, where the title's routines and monitors leave the crate's contexts
-- and this memory alone. Whether `Begin` hands the body to a worker or, where the queue refuses,
-- runs it on the spot, it reports success; and once a worker has taken the job and done it, the two
-- are the same: the same call is completed, with the same result and size. `GetResult` then copies
-- what the body returned, and nothing where the body failed; and nothing where the worker was
-- canceled, whatever the body would have returned. A `Cancel` between the submission and the worker
-- makes no difference to what is copied.
pub run_sync_worker-begin :
    (env : Environment) (size buffer_size buffer context block : ℕ) (outcome : Result (List ℕ))
    (canceled : Bool) (hr : ℕ) (w : Engine)
    → StaysOut env
    → w.helpers context ≡ some (unrun hr canceled)
    → let given : XAsyncProviderData = record {
      async_block = block;
      buffer_size = buffer_size;
      buffer = buffer;
      context = context;
    } in
      let queued = (run_sync_helper env size true outcome begin given w).1 in
      let inline = run_sync_helper env size false outcome begin given w in
      let taken = record queued { jobs = w.jobs } in
      let done = run_sync_worker env size false outcome context block taken in
      let aborted = run_sync_worker env size true outcome context block taken in
      let asked = (run_sync_helper env size true outcome cancel given taken).1 in
      let done_after = run_sync_worker env size false outcome context block asked in
      ((run_sync_helper env size true outcome begin given w).0 ≡ s_ok)
      × (queued ≡ record w { jobs = w.jobs ++ (context, block) ∷ [] })
      × (inline.0 ≡ s_ok)
      × (done ≡ inline.1)
      × ((run_sync_helper env size true outcome get_result given done).1.memory
          ≡ copy_to (bytes_of outcome) buffer w.memory)
      × ((run_sync_helper env size true outcome get_result given aborted).1.memory ≡ w.memory)
      × ((run_sync_helper env size true outcome get_result given done_after).1.memory
          ≡ copy_to (bytes_of outcome) buffer w.memory)
unfolding settle_helper run_sync_helper
run_sync_worker-begin env size buffer_size buffer context block outcome canceled hr w out held =
    let given : XAsyncProviderData = record {
      async_block = block;
      buffer_size = buffer_size;
      buffer = buffer;
      context = context;
    } in
    let h = unrun hr canceled in
    let asked = put_helper context (some (record h { canceled = true })) w in
    let q : run_sync_helper env size true outcome begin given w
        ≡ (s_ok, record w { jobs = w.jobs ++ (context, block) ∷ [] }) =
      rw (held, run_sync_helper) refl in
    let i : run_sync_helper env size false outcome begin given w
        ≡ (s_ok, finish_call env size context block (record_result outcome h) w) =
      rw (held, run_sync_helper) refl in
    let c : run_sync_helper env size true outcome cancel given w ≡ (s_ok, asked) =
      rw (held, run_sync_helper) refl in
    let copies = copied-settle_helper false outcome hr in
    rw (q, c, i)
      (
        refl,
        refl,
        refl,
        run_sync_worker-held env size false outcome context block h w held,
        worker-finished env out size false outcome given h w held
            ∙ ap (λ b. copy_to b buffer w.memory) (copies canceled),
        worker-finished env out size true outcome given h w held,
        worker-finished env out size false outcome given (record h { canceled = true }) asked
              (rw (==_refl context) refl)
            ∙ ap (λ b. copy_to b buffer w.memory) (copies true),
      )
