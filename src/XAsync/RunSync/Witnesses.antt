-- ===== src/XAsync/RunSync/Witnesses.antt =====
-- The theorems on the crate's own calls, at a body that returns two bytes.
use xgameruntime_rs.Base.{
  ℕ, ◌≡◌, refl, none, some, true, false, List, [], ◌∷◌, arith, ◌==◌, if◌then◌else◌,
}
use xgameruntime_rs.Base.Map.{lookup, insert}
use xgameruntime_rs.Base.Memory.{write_bytes}
use xgameruntime_rs.HandleTable
use xgameruntime_rs.Results.{Result, ok, s_ok, e_pending, e_abort}
use xgameruntime_rs.TaskQueue.Modes.{thread_pool}
use xgameruntime_rs.TaskQueue.Port.{default}
use xgameruntime_rs.TaskQueue.Queue.{get_handle}
use xgameruntime_rs.XAsync.Block.{begin, get_result, cancel, write_internal, clear_internal}
use xgameruntime_rs.XAsync.Engine.{Engine, XAsyncProviderData, state_of, work_callback}
use xgameruntime_rs.XAsync.Engine.Exports.{xasync_get_result}
use xgameruntime_rs.XAsync.Engine.Late.{cleared-no_state}
use xgameruntime_rs.XAsync.RunSync.{
  run_sync_env, run_sync_helper, run_sync_worker, run_sync, new_helper,
}
use xgameruntime_rs.XAsync.RunSync.Completing.{StaysOut}
use xgameruntime_rs.XAsync.RunSync.Handover.{unrun, run_sync_worker-begin}
use xgameruntime_rs.XAsync.RunSync.Outcome.{Ends, get_result-work_callback}
use xgameruntime_rs.XAsync.RunSync.Polling.{Drives}
use xgameruntime_rs.XAsync.RunSync.Start.{run_sync-Ends}
use xgameruntime_rs.XAsync.RunSync.Routing.{Ready}
use xgameruntime_rs.XAsync.Witnesses.{driven, driven-state, still, boot, empty_block, succeeded}

-- One context at 9, whose body returns two bytes.
abbrev with_helper : Engine
with_helper = record boot { helpers = λ context. if context == 9 then some new_helper else none }

still-StaysOut : StaysOut still
still-StaysOut = record {
  routine = λ f block w. record { helpers = refl; memory = refl };
  notify = λ m handle port w. record { helpers = refl; memory = refl };
  run = λ task canceled w. record { helpers = refl; memory = refl };
}

abbrev at_9 : XAsyncProviderData
at_9 = record { async_block = 5; buffer_size = 2; buffer = 64; context = 9 }

run_sync_worker-begin_example :
    let body : Result (List ℕ) = ok (7 ∷ 8 ∷ []) in
    let queued = (run_sync_helper still 2 true body begin at_9 with_helper).1 in
    let inline = run_sync_helper still 2 false body begin at_9 with_helper in
    let taken = record queued { jobs = [] } in
    let done = run_sync_worker still 2 false body 9 5 taken in
    let aborted = run_sync_worker still 2 true body 9 5 taken in
    let asked = (run_sync_helper still 2 true body cancel at_9 taken).1 in
    let done_after = run_sync_worker still 2 false body 9 5 asked in
    ((run_sync_helper still 2 true body begin at_9 with_helper).0 ≡ s_ok)
    × (queued ≡ record with_helper { jobs = (9, 5) ∷ [] })
    × (inline.0 ≡ s_ok)
    × (done ≡ inline.1)
    × ((run_sync_helper still 2 true body get_result at_9 done).1.memory
        ≡ write_bytes (7 ∷ 8 ∷ []) 64 (λ address. 0))
    × ((run_sync_helper still 2 true body get_result at_9 aborted).1.memory ≡ (λ address. 0))
    × ((run_sync_helper still 2 true body get_result at_9 done_after).1.memory
        ≡ write_bytes (7 ∷ 8 ∷ []) 64 (λ address. 0))
unfolding new_helper
run_sync_worker-begin_example =
    run_sync_worker-begin still 2 2 64 9 5 (ok (7 ∷ 8 ∷ [])) false e_abort with_helper
      still-StaysOut refl

-- Block 5 drives call 3, whose body waits, with its context at 9.
abbrev waiting : Engine
waiting = record driven {
  states = λ ref. record (succeeded false) {
    context = 9;
    inner = record { status = e_pending; result_size = 0; canceled = true; cleaned_up = false };
  };
  helpers = λ context. if context == 9 then some (unrun e_abort true) else none;
  jobs = (9, 5) ∷ [];
}

waiting-Drives : Drives 5 3 (unrun e_abort true) waiting
unfolding state_of write_internal
waiting-Drives = record {
  found = driven-state;
  same = refl;
  open_ = refl;
  held = refl;
  polled = refl;
}

get_result-work_callback_example :
    let provided = run_sync_env still 2 true (ok (7 ∷ 8 ∷ [])) in
    let passed = work_callback provided 3 false waiting in
    let answer = xasync_get_result provided 5 0 2 64 passed in
    (answer.0 ≡ s_ok)
    × (answer.1 ≡ some 0)
    × (answer.2.memory ≡ (λ address. 0))
    × (answer.2.helpers 9 ≡ none)
    × (answer.2.jobs ≡ (9, 5) ∷ [])
get_result-work_callback_example =
    get_result-work_callback still 2 true (ok (7 ∷ 8 ∷ [])) 5 3 2 64 true waiting waiting-Drives
      refl

-- Block 5 names handle 1, of a queue whose ports a pool runs.
abbrev fresh : Engine
fresh = record boot {
  process = record boot.process {
    ports = λ _. record { mode = thread_pool; state = default };
    queue_handles = (HandleTable.create HandleTable.new 0).1;
  };
  blocks = λ _. record empty_block { queue = 1 };
}

fresh-handle : get_handle 1 fresh.process ≡ some 0
unfolding get_handle HandleTable.get HandleTable.create HandleTable.new lookup insert
fresh-handle = refl

fresh-idle : state_of 5 fresh ≡ none
unfolding clear_internal
fresh-idle = cleared-no_state 5 (record empty_block { queue = 1 }) fresh refl

fresh-Ready : Ready 5 0 fresh
fresh-Ready = record {
  given = ground arith;
  idle = fresh-idle;
  named = ground arith;
  live = fresh-handle;
  pooled = refl;
  polled = refl;
}

run_sync-Ends_example :
    let body : Result (List ℕ) = ok (7 ∷ 8 ∷ []) in
    let begun = run_sync still 2 true body 5 9 0 0 fresh in
    let taken = record begun.1 { jobs = [] } in
    (begun.0 ≡ s_ok)
    × (begun.1.jobs ≡ (9, 5) ∷ [])
    × (xasync_get_result (run_sync_env still 2 true body) 5 0 2 64 taken ≡ (e_pending, none, taken))
    × Ends still 2 true body 5 9 2 64 body fresh (run_sync_worker still 2 false body 9 5 taken)
run_sync-Ends_example =
    run_sync-Ends still 2 (ok (7 ∷ 8 ∷ [])) false 5 9 0 0 0 2 64 fresh fresh-Ready (ground arith)
      (omega arith) (omega arith) tt
