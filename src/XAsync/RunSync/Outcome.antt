-- ===== src/XAsync/RunSync/Outcome.antt =====
-- How the crate's own calls end for a title that polls.
use xgameruntime_rs.Base.{
  ℕ, ◌≤◌, ◌≡◌, ◌≢◌, refl, sym, subst, ◌∙◌, none, some, Bool, true, false, List, ◌∷◌, ◌==◌, arith,
  ==_refl,
}
use xgameruntime_rs.Results.{Result, ok, err, s_ok, e_pending, e_abort, e_illegal_method_call}
use xgameruntime_rs.XAsync.Block.{do_work, get_result}
use xgameruntime_rs.XAsync.Engine.{
  ContextHelper, Engine, Environment, inner_of, state_of, block_name, invoke, work_callback,
}
use xgameruntime_rs.XAsync.Engine.Exports.{xasync_complete, xasync_get_result}
use xgameruntime_rs.XAsync.RunSync.{
  copied, copy_to, put_helper, settle_helper, record_result, run_sync_helper, run_sync_worker,
  run_sync_env,
}
use xgameruntime_rs.XAsync.RunSync.Handover.{
  bytes_of, result_of, unrun, copied-settle_helper, run_sync_worker-held,
}
use xgameruntime_rs.XAsync.RunSync.Polling.{
  Drives, Drives-put_helper, Drives-log, Drives-completed, completed, complete_state-completed,
  freed, freed-over, get_result-ok, get_result-err,
}

abbrev pub status_of : Result (List ℕ) → ℕ
status_of (ok value) = s_ok
status_of (err hr) = hr

-- A failure is no success, and not the mark of a call that is not over.
abbrev pub Settles : Result (List ℕ) → Type 0
Settles (ok value) = Unit {0}
Settles (err hr) = (hr ≢ s_ok) × (hr ≢ e_pending)

settle_helper-result :
    (canceled : Bool) (outcome : Result (List ℕ)) (h : ContextHelper)
    → (settle_helper canceled outcome h).result ≡ status_of (result_of canceled outcome)
unfolding settle_helper record_result
settle_helper-result true outcome h = refl
settle_helper-result false (ok value) h = refl
settle_helper-result false (err hr) h = refl

result_of-Settles :
    (canceled : Bool) (outcome : Result (List ℕ))
    → Settles outcome
    → Settles (result_of canceled outcome)
result_of-Settles true outcome s = (ground arith, ground arith)
result_of-Settles false outcome s = s

run_sync_worker-completed :
    (env : Environment) (size : ℕ) (canceled : Bool) (outcome : Result (List ℕ)) (block ref : ℕ)
    (h : ContextHelper) (w : Engine)
    → Drives block ref h w
    → (inner_of ref w).status ≡ e_pending
    → let settled = settle_helper canceled outcome h in
      run_sync_worker env size canceled outcome (w.states ref).context block w
      ≡ completed ref settled.result size (put_helper (w.states ref).context (some settled) w)
unfolding xasync_complete state_of
run_sync_worker-completed env size canceled outcome block ref h w d pending =
    let settled = settle_helper canceled outcome h in
    let kept = put_helper (w.states ref).context (some settled) w in
    let drives = Drives-put_helper block ref h settled w d in
    run_sync_worker-held env size canceled outcome (w.states ref).context block h w d.held
    ∙ rw (drives.found, xasync_complete)
        (complete_state-completed env block ref settled.result size settled kept drives pending)

module _ (env : Environment) (size : ℕ) (submitted : Bool) (outcome : Result (List ℕ)) where
  abbrev own : Environment
  own = run_sync_env env size submitted outcome

  -- What `XAsyncGetResult` leaves of a call: its status, the bytes, no context, and no second time.
  abbrev pub Ends : ℕ → ℕ → ℕ → ℕ → Result (List ℕ) → Engine → Engine → Type 0
  Ends block context buffer_size buffer r before w =
      let answer = xasync_get_result own block 0 buffer_size buffer w in
      (answer.0 ≡ status_of r)
      × (answer.2.memory ≡ copy_to (bytes_of r) buffer before.memory)
      × (answer.2.helpers context ≡ none)
      × ((xasync_get_result own block 0 buffer_size buffer answer.2).0 ≡ e_illegal_method_call)

  completed-Ends :
      (block ref buffer_size buffer : ℕ) (r : Result (List ℕ)) (h : ContextHelper)
      (before w : Engine)
      → Drives block ref h w
      → (inner_of ref w).status ≡ status_of r
      → (inner_of ref w).result_size ≤ buffer_size
      → copied h ≡ bytes_of r
      → w.memory ≡ before.memory
      → Settles r
      → Ends block (w.states ref).context buffer_size buffer r before w
  completed-Ends block ref buffer_size buffer (ok value) h before w d status fits bytes memory s =
      let filled = record w {
        log = (ref, get_result) ∷ w.log;
        memory = copy_to (copied h) buffer w.memory;
      } in
      let over = freed-over env size submitted outcome block ref buffer_size buffer filled in
      rw (get_result-ok env size submitted outcome block ref buffer_size buffer h w d status fits)
        (refl, rw (bytes, memory) refl, over.0, over.1)
  completed-Ends block ref buffer_size buffer (err hr) h before w d status fits bytes memory s =
      let over = freed-over env size submitted outcome block ref buffer_size buffer w in
      rw
        (get_result-err env size submitted outcome block ref buffer_size buffer h w d
          (λ e. s.0 (sym status ∙ e)) (λ e. s.1 (sym status ∙ e)))
        (status, memory, over.0, over.1)

  get_result-pending :
      (block ref buffer_size buffer : ℕ) (w : Engine)
      → state_of block w ≡ some ref
      → (inner_of ref w).status ≡ e_pending
      → xasync_get_result own block 0 buffer_size buffer w ≡ (e_pending, none, w)
  unfolding xasync_get_result
  get_result-pending block ref buffer_size buffer w found pending =
      let p : ((inner_of ref w).status == e_pending) ≡ true = ground (arith, pending) in
      rw (found, xasync_get_result, p) refl

  invoke-do_work :
      (ref : ℕ) (h : ContextHelper) (w : Engine)
      → w.helpers (w.states ref).context ≡ some h
      → invoke own ref do_work 0 0 w ≡ (s_ok, record w { log = (ref, do_work) ∷ w.log })
  unfolding invoke run_sync_helper
  invoke-do_work ref h w held = rw held refl

  work_callback-completed :
      (block ref : ℕ) (h : ContextHelper) (w : Engine)
      → Drives block ref h w
      → (inner_of ref w).status ≡ e_pending
      → work_callback own ref false w
        ≡ completed ref s_ok 0 (record w { log = (ref, do_work) ∷ w.log })
  unfolding work_callback state_of
  work_callback-completed block ref h w d pending =
      let named = record w { current = block_name (w.states ref).block w } in
      let logged = record w { log = (ref, do_work) ∷ w.log } in
      let drives = Drives-log block ref do_work h w d in
      rw (invoke-do_work ref h named d.held)
        (complete_state-completed own block ref s_ok 0 h logged drives pending)

-- A call of the crate that has begun, whose body has not run, with no completion routine and a
-- buffer for its payload; a body that fails gives a code that is neither `S_OK` nor `E_PENDING`.
-- Until the worker is done `XAsyncGetResult` says that the call is pending and changes nothing. Then
-- it gives the status that the body ended with, `E_ABORT` where the worker was canceled; it copies
-- what the body returned to the title's buffer, and nothing where there is nothing; the call's
-- context is freed; and asking again is an illegal call.
pub get_result-run_sync_worker :
    (env : Environment) (size : ℕ) (submitted canceled : Bool) (outcome : Result (List ℕ))
    (block ref buffer_size buffer hr : ℕ) (asked : Bool) (w : Engine)
    → Drives block ref (unrun hr asked) w
    → (inner_of ref w).status ≡ e_pending
    → size ≤ buffer_size
    → Settles outcome
    → let context = (w.states ref).context in
      let provided = run_sync_env env size submitted outcome in
      (xasync_get_result provided block 0 buffer_size buffer w ≡ (e_pending, none, w))
      × Ends env size submitted outcome block context buffer_size buffer
          (result_of canceled outcome)
          w
          (run_sync_worker env size canceled outcome context block w)
get_result-run_sync_worker env size submitted canceled outcome block ref buffer_size buffer hr asked
      w d pending fits settles =
    let settled = settle_helper canceled outcome (unrun hr asked) in
    let context = (w.states ref).context in
    let kept = put_helper context (some settled) w in
    let r = result_of canceled outcome in
    let done = completed ref settled.result size kept in
    let status : (inner_of ref done).status ≡ status_of r =
      rw (inner_of, ==_refl ref) (settle_helper-result canceled outcome (unrun hr asked)) in
    let enough : (inner_of ref done).result_size ≤ buffer_size = rw (inner_of, ==_refl ref) fits in
    let context_of : (done.states ref).context ≡ context = rw (==_refl ref) refl in
    let ends =
      completed-Ends env size submitted outcome block ref buffer_size buffer r settled w done
        (Drives-completed block ref settled.result size settled kept
          (Drives-put_helper block ref (unrun hr asked) settled w d))
        status enough (copied-settle_helper canceled outcome hr asked) refl
        (result_of-Settles canceled outcome settles) in
    (
      get_result-pending env size submitted outcome block ref buffer_size buffer w d.found pending,
      subst (Ends env size submitted outcome block context buffer_size buffer r w)
          (sym (
            run_sync_worker-completed env size canceled outcome block ref (unrun hr asked) w d
              pending))
          (subst (λ c. Ends env size submitted outcome block c buffer_size buffer r w done)
            context_of ends),
    )

-- A call of the crate that has begun, whose body waits for its worker, with no completion routine.
-- One `DoWork` pass, such as `XAsyncCancel` queues, completes it with `S_OK` and no payload: the next
-- `XAsyncGetResult` says `S_OK` and writes nothing into the title's buffer, and frees the context
-- that the waiting body has yet to write to.
pub get_result-work_callback :
    (env : Environment) (size : ℕ) (submitted : Bool) (outcome : Result (List ℕ))
    (block ref buffer_size buffer : ℕ) (asked : Bool) (w : Engine)
    → Drives block ref (unrun e_abort asked) w
    → (inner_of ref w).status ≡ e_pending
    → let context = (w.states ref).context in
      let provided = run_sync_env env size submitted outcome in
      let passed = work_callback provided ref false w in
      let answer = xasync_get_result provided block 0 buffer_size buffer passed in
      (answer.0 ≡ s_ok)
      × (answer.1 ≡ some 0)
      × (answer.2.memory ≡ w.memory)
      × (answer.2.helpers context ≡ none)
      × (answer.2.jobs ≡ w.jobs)
get_result-work_callback env size submitted outcome block ref buffer_size buffer asked w d pending =
    let h = unrun e_abort asked in
    let done = completed ref s_ok 0 (record w { log = (ref, do_work) ∷ w.log }) in
    let drives = Drives-completed block ref s_ok 0 h _ (Drives-log block ref do_work h w d) in
    let filled = record done { log = (ref, get_result) ∷ done.log } in
    let size_of : (inner_of ref done).result_size ≡ 0 = rw (inner_of, ==_refl ref) refl in
    let context_of : (done.states ref).context ≡ (w.states ref).context = rw (==_refl ref) refl in
    let over = freed-over env size submitted outcome block ref buffer_size buffer filled in
    rw
      (
        work_callback-completed env size submitted outcome block ref h w d pending,
        get_result-ok env size submitted outcome block ref buffer_size buffer h done drives
            (rw (inner_of, ==_refl ref) refl) (omega (arith, size_of)),
        size_of,
      )
      (
        refl,
        refl,
        refl,
        subst (λ c. (freed env size submitted outcome block ref filled).helpers c ≡ none) context_of
            over.0,
        refl,
      )
