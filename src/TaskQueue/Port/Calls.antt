-- ===== src/TaskQueue/Port/Calls.antt =====
-- src/com/xasync/task_queue.rs, the methods of `Port` over several lock holds. A callback, and the
-- other threads, may do anything to the port while a method does not hold the lock: that enters
-- as functions on the state and as lists of the states that a waiting method wakes up to.
use xgameruntime_rs.Base.{
  ℕ, ◌+◌, ◌*◌, Option, none, some, Bool, true, false, ◌&&◌, List, [], ◌∷◌, ◌++◌, ltb, leb, ◌==◌,
  if◌then◌else◌, add64, length,
}
use xgameruntime_rs.TaskQueue.Modes.{
  DispatchMode, manual, thread_pool, serialized_thread_pool, immediate,
}
use xgameruntime_rs.TaskQueue.Port.{
  Task, PortState, detach, drain_all, enqueue, start_workers, take_ready, begin_inline, drain_ready,
  finish_n,
}

abbrev pub from_millis : ℕ → ℕ
from_millis ms = ms * 1000000

-- What becomes of a submission. `inline`: it ran, uncanceled, before the call returned. `own_thread`:
-- it waits for its deadline on a thread of its own. `queued`: it stands in the port's list, and so
-- many worker threads were started.
pub data Outcome : Type 0 where
  refused : Outcome
  inline : Task → Outcome
  own_thread : Task → Outcome
  queued : Task → ℕ → Outcome

-- What `submit` returns.
abbrev pub accepted : Outcome → Bool
accepted refused = false
accepted (inline task) = true
accepted (own_thread task) = true
accepted (queued task workers) = true

-- The deadline: none for a zero delay.
abbrev pub due_after : ℕ → ℕ → Option ℕ
due_after now delay = if delay == 0 then none else some (now + delay)

push_task : DispatchMode → Option ℕ → Task → PortState → Outcome × PortState
push_task mode parallelism task s =
    let (workers, t) =
      start_workers mode parallelism
        (record s { submitted = add64 s.submitted 1; tasks = enqueue task s.tasks }) in
    (queued task workers, t)

submit_task : DispatchMode → Option ℕ → Option ℕ → Task → PortState → Outcome × PortState
unfolding push_task
submit_task immediate parallelism none task s = (inline task, begin_inline s)
submit_task immediate parallelism (some due) task s = (own_thread task, s)
submit_task manual parallelism due task s = push_task manual parallelism task s
submit_task thread_pool parallelism due task s = push_task thread_pool parallelism task s
submit_task serialized_thread_pool parallelism due task s =
    push_task serialized_thread_pool parallelism task s

-- The lock hold of `submit`. An inline callback is still to run after it.
unfoldable pub submit_locked :
    DispatchMode → Option ℕ → ℕ → Bool → ℕ → ℕ → ℕ → ℕ → PortState → Outcome × PortState
unfolding submit_task begin_inline start_workers
submit_locked mode parallelism owner owner_terminated context callback delay now s =
    let due = due_after now delay in
    let task : Task = record { context = context; callback = callback; owner = owner; due = due } in
    if s.terminated
    then (refused, s)
    else if owner_terminated
    then (refused, s)
    else submit_task mode parallelism due task s

-- The thread of a delayed callback on an immediate port: whether it runs as canceled.
unfoldable pub own_thread_canceled : PortState → Bool
own_thread_canceled s = s.terminated

-- `while state.in_flight > 0`, over the states that the waits return with. `none`: it still waits.
unfoldable pub wait_drained : PortState → List PortState → Option PortState
wait_drained s [] = if s.in_flight == 0 then some s else none
wait_drained s (woken ∷ later) =
    let rest = wait_drained woken later in if s.in_flight == 0 then some s else rest

-- What goes on around a `terminate_context`.
pub record Termination : Type 0 where
  pub during_cancel : List Task → PortState → PortState
  pub during_drain : List Task → PortState → PortState
  pub wakes : List PortState

-- The callbacks run with `canceled: true`, in order, and the state; `none` while it waits.
unfoldable pub terminate_context : Termination → ℕ → Bool → PortState → List Task × Option PortState
unfolding detach drain_all wait_drained
terminate_context env owner wait s =
    let (pending, drain_rest, detached) = detach owner s in
    let canceled = env.during_cancel pending detached in
    let (rest, drained) = if drain_rest then drain_all canceled else ([], canceled) in
    let last = if drain_rest then env.during_drain rest drained else drained in
    (pending ++ rest, if wait then wait_drained last env.wakes else some last)

-- One round of the loop of `wait_for_task`: the state under the lock, and the two clock readings.
pub record Wake : Type 0 where
  pub seen : PortState
  pub now : ℕ
  pub now_again : ℕ

pub data Waited : Type 0 where
  took : Task → PortState → Waited
  gave_up : PortState → Waited
  still_waiting : Waited

abbrev pub next_due : List Task → Option ℕ
next_due [] = none
next_due (front ∷ tasks) = front.due

abbrev pub earliest : Option ℕ → Option ℕ → Option ℕ
earliest (some a) (some b) = some (if ltb b a then b else a)
earliest (some a) none = some a
earliest none b = b

abbrev pub is_reached : Option ℕ → ℕ → Bool
is_reached none now = false
is_reached (some t) now = leb t now

-- Each round ends the wait or goes on to the next wake-up, timed or not.
unfoldable pub wait_for_task : Option ℕ → List Wake → Waited
unfolding take_ready
wait_for_task deadline [] = still_waiting
wait_for_task deadline (w ∷ later) =
    let rest = wait_for_task deadline later in
    if w.seen.terminated then gave_up w.seen else elim (take_ready w.now w.seen) [
      | some (task, s) ↦ took task s
      | none ↦
          if is_reached (earliest deadline (next_due w.seen.tasks)) w.now_again
            && is_reached deadline w.now_again
          then gave_up w.seen
          else rest
    ]

-- What goes on around a `dispatch`. The flag is the thread's `IN_DISPATCH`.
pub record Pump : Type 0 where
  pub wakes : List Wake
  pub during_first : Bool → Task → PortState → PortState
  pub drain_now : ℕ
  pub during_batch : Bool → List Task → PortState → PortState
  pub done_ms : ℕ

pub data Dispatched : Type 0 where
  nothing : PortState → Dispatched
  ran : List Task → PortState → Dispatched
  blocked : Dispatched

unfoldable pub run_batch : Pump → Task → PortState → Dispatched
unfolding drain_ready finish_n
run_batch env first s =
    let (batch, drained) = drain_ready env.drain_now (env.during_first true first s) in
    ran (first ∷ batch)
      (finish_n (1 + length batch) env.done_ms (env.during_batch true batch drained))

-- The callbacks run, in order, and the thread's `IN_DISPATCH` afterwards.
unfoldable pub dispatch : Pump → ℕ → ℕ → Bool → Dispatched × Bool
unfolding run_batch
dispatch env entered timeout_ms in_dispatch =
    elim (wait_for_task (some (entered + from_millis timeout_ms)) env.wakes) [
      | took first s ↦ (run_batch env first s, in_dispatch)
      | gave_up s ↦ (nothing s, in_dispatch)
      | still_waiting ↦ (blocked, in_dispatch)
    ]
