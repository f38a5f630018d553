-- ===== src/TaskQueue/Port/Witnesses.antt =====
-- The theorems on ports, at concrete ports.
use xgameruntime_rs.Base.{
  ℕ, ◌≡◌, refl, Option, none, some, true, false, not, List, [], ◌∷◌, ◌++◌, arith, ◌↔◌, ◌≤◌, ◌⊎◌,
  keep_if,
}
use xgameruntime_rs.TaskQueue.Port.{
  Task, PortState, detach, enqueue, take_ready, finish_n, split_owner,
}
use xgameruntime_rs.TaskQueue.Port.Calls.{
  wait_for_task, Pump, Termination, terminate_context, dispatch, ran,
}
use xgameruntime_rs.TaskQueue.Port.Order.{IsSorted, waits_behind, enqueue_lem}
use xgameruntime_rs.TaskQueue.Port.Batches.{detach_lem}
use xgameruntime_rs.TaskQueue.Port.Waiting.{first_end, answer, wait_for_task_lem, dispatch_lem}
use xgameruntime_rs.TaskQueue.Port.Termination.{
  Returns, finishing, finished, terminate_context_lem, terminate_context-wait,
}

abbrev callback_due : ℕ → ℕ → Option ℕ → Task
callback_due ctx owner due = record { context = ctx; callback = 9; owner = owner; due = due }

abbrev three : List Task
three = callback_due 1 5 none ∷ callback_due 2 6 (some 30) ∷ callback_due 3 5 (some 50) ∷ []

abbrev busy : PortState
busy = record {
  tasks = three;
  submitted = 3;
  dispatched = 0;
  last_dispatch_ms = none;
  terminated = false;
  active_contexts = 2;
  in_flight = 0;
  workers_started = false;
}

three-IsSorted : IsSorted three
three-IsSorted = ((tt, (tt, tt)), ((omega arith, tt), (tt, tt)))

enqueue_example :
    IsSorted (enqueue (callback_due 4 6 (some 30)) three)
    × (enqueue (callback_due 4 6 (some 30)) three
        ≡ keep_if (λ u. not (waits_behind (callback_due 4 6 (some 30)) u)) three
          ++ callback_due 4 6 (some 30) ∷ keep_if (waits_behind (callback_due 4 6 (some 30))) three)
enqueue_example = enqueue_lem (callback_due 4 6 (some 30)) three three-IsSorted

abbrev quiet_pump : Pump
quiet_pump = record {
  wakes = record { seen = busy; now = 10; now_again = 11 } ∷ [];
  during_first = λ flag task s. s;
  drain_now = 40;
  during_batch = λ flag batch s. s;
  done_ms = 1;
}

abbrev quiet_termination : Termination
quiet_termination = record {
  during_cancel = λ pending s. s;
  during_drain = λ rest s. s;
  wakes = [];
}

detach_example :
    ((detach 5 busy).0 ≡ callback_due 1 5 none ∷ callback_due 3 5 (some 50) ∷ [])
    × ((detach 5 busy).2.tasks ≡ callback_due 2 6 (some 30) ∷ [])
    × ((detach 5 busy).1 ≡ true ↔ (2 ≤ 1) × (false ≡ false))
    × ((detach 5 busy).2.terminated ≡ true ↔ (2 ≤ 1) ⊎ (false ≡ true))
detach_example = detach_lem 5 busy

wait_for_task_example :
    wait_for_task (some 20) quiet_pump.wakes ≡ answer (first_end (some 20) quiet_pump.wakes)
wait_for_task_example = wait_for_task_lem (some 20) quiet_pump.wakes

after_first : PortState
after_first = record busy {
  tasks = callback_due 2 6 (some 30) ∷ callback_due 3 5 (some 50) ∷ [];
  in_flight = 1;
}

dispatch_example :
    (drained : PortState) × (drained.tasks ≡ callback_due 3 5 (some 50) ∷ [])
    × ((drained.in_flight ≡ 2)
        × (dispatch quiet_pump 10 0 false ≡ (
          ran (callback_due 1 5 none ∷ callback_due 2 6 (some 30) ∷ []) (finish_n 2 1 drained),
          false,
        )))
unfolding after_first take_ready
dispatch_example =
    dispatch_lem quiet_pump 10 0 false (record { seen = busy; now = 10; now_again = 11 })
      (callback_due 1 5 none) after_first refl refl refl ((omega arith, tt), (tt, tt)) (omega arith)

terminate_context_example :
    (terminate_context quiet_termination 5 true busy).0
    ≡ callback_due 1 5 none ∷ callback_due 3 5 (some 50) ∷ []
terminate_context_example = terminate_context_lem quiet_termination 5 true busy

-- The port with a callback in flight, and what the termination of context 5 leaves of it.
abbrev loaded : PortState
loaded = record busy { in_flight = 1 }

abbrev left_loaded : PortState
left_loaded = record loaded { tasks = callback_due 2 6 (some 30) ∷ []; active_contexts = 1 }

left_loaded_lem : (terminate_context quiet_termination 5 false loaded).1 ≡ some left_loaded
unfolding terminate_context detach split_owner
left_loaded_lem = refl

terminate_context-wait_example :
    Returns (terminate_context quiet_termination 5 true loaded).1 (left_loaded ∷ [])
    × ((terminate_context
          (record quiet_termination { wakes = finishing (8 ∷ []) left_loaded })
          5
          true
          loaded).1
        ≡ some (finished 1 (8 ∷ []) left_loaded))
    × ((finished 1 (8 ∷ []) left_loaded).in_flight ≡ 0)
terminate_context-wait_example =
    terminate_context-wait quiet_termination 5 loaded left_loaded (8 ∷ []) left_loaded_lem
      (omega arith)
