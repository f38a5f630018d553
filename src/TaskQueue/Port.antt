-- ===== src/TaskQueue/Port.antt =====
-- src/com/xasync/task_queue.rs, `Task`, `PortState` and the parts of `Port` that run under its
-- lock. Instants and durations are in nanoseconds. What a callback, or another thread, does to the
-- port while the lock is free is not here: `Port.Calls` takes it as an argument.
pub mod Calls
pub mod Order
pub mod Batches
pub mod Waiting
pub mod Termination
mod Witnesses
use xgameruntime_rs.Base.{
  ℕ, zero, suc, ◌+◌, ◌-◌, ◌*◌, Option, none, some, Bool, true, false, not, ◌&&◌, ◌||◌, List, [],
  ◌∷◌, ◌++◌, ltb, leb, ◌==◌, if◌then◌else◌, add64, sub64, length,
}
use xgameruntime_rs.TaskQueue.Modes.{
  DispatchMode, manual, thread_pool, serialized_thread_pool, immediate,
}

-- `context` and `callback` are opaque: the pointer handed in, and the function that takes it.
pub record Task : Type 0 where
  pub context : ℕ
  pub callback : ℕ
  pub owner : ℕ
  pub due : Option ℕ

abbrev pub is_due : Option ℕ → ℕ → Bool
is_due none now = true
is_due (some due) now = leb due now

unfoldable pub ready_at : Task → ℕ → Bool
ready_at task now = is_due task.due now

pub record PortState : Type 0 where
  pub tasks : List Task
  pub submitted : ℕ
  pub dispatched : ℕ
  pub last_dispatch_ms : Option ℕ
  pub terminated : Bool
  pub active_contexts : ℕ
  pub in_flight : ℕ
  pub workers_started : Bool

unfoldable pub default : PortState
default = record {
  tasks = [];
  submitted = 0;
  dispatched = 0;
  last_dispatch_ms = none;
  terminated = false;
  active_contexts = 0;
  in_flight = 0;
  workers_started = false;
}

unfoldable pub add_context : PortState → PortState
add_context s = record s { active_contexts = add64 s.active_contexts 1 }

-- The loop of `terminate_context` that hands back one owner's callbacks and puts the others back.
unfoldable pub split_owner : ℕ → List Task → List Task → List Task → List Task × List Task
split_owner owner [] pending tasks = (pending, tasks)
split_owner owner (front ∷ keep) pending tasks =
    let mine = front.owner == owner in
    split_owner owner keep (if mine then pending ++ front ∷ [] else pending)
      (if mine then tasks else tasks ++ front ∷ [])

-- The first lock hold of `terminate_context`: the callbacks to cancel, whether the port has died
-- by it (`drain_rest`), and the state that it leaves.
unfoldable pub detach : ℕ → PortState → List Task × Bool × PortState
detach owner s =
    let contexts = if ltb 0 s.active_contexts then s.active_contexts - 1 else s.active_contexts in
    let (pending, tasks) = split_owner owner s.tasks [] [] in
    let drain_rest = contexts == 0 && not s.terminated in
    (
      pending,
      drain_rest,
      record s {
        tasks = tasks;
        active_contexts = contexts;
        terminated = drain_rest || s.terminated;
      },
    )

-- The second lock hold of `terminate_context`: everything that is still queued.
unfoldable pub drain_all : PortState → List Task × PortState
drain_all s = (s.tasks, record s { tasks = [] })

-- Whether a queued callback is to stay behind the new one.
unfoldable pub goes_after : Option ℕ → Option ℕ → Bool
goes_after (some queued_due) (some new_due) = ltb new_due queued_due
goes_after (some queued_due) none = true
goes_after none new_due = false

unfoldable pub position : Option ℕ → List Task → Option ℕ
position due [] = none
position due (queued ∷ tasks) =
    if goes_after queued.due due
    then some 0
    else elim (position due tasks) [ none ↦ none | some i ↦ some (suc i) ]

unfoldable pub insert_at : ℕ → Task → List Task → List Task
insert_at zero task tasks = task ∷ tasks
insert_at (suc i) task [] = task ∷ []
insert_at (suc i) task (queued ∷ tasks) = queued ∷ insert_at i task tasks

-- Where `submit` puts a callback: `position` or the end.
unfoldable pub enqueue : Task → List Task → List Task
unfolding position insert_at
enqueue task tasks = elim (position task.due tasks) [
  | none ↦ insert_at (length tasks) task tasks
  | some i ↦ insert_at i task tasks
]

-- How many worker threads a first submission starts; `parallelism` is what the system reports.
unfoldable pub worker_count : DispatchMode → Option ℕ → Option ℕ
worker_count serialized_thread_pool parallelism = some 1
worker_count thread_pool none = some 2
worker_count thread_pool (some n) = some (if ltb n 4 then n else 4)
worker_count manual parallelism = none
worker_count immediate parallelism = none

-- The threads started, and the state.
unfoldable pub start_workers : DispatchMode → Option ℕ → PortState → ℕ × PortState
unfolding worker_count
start_workers mode parallelism s =
    if s.workers_started then (0, s) else elim (worker_count mode parallelism) [
      | none ↦ (0, s)
      | some count ↦ (count, record s { workers_started = true })
    ]

-- The lock hold of `wait_for_task` that takes the head, if it is ready.
abbrev pub pop_front : List Task → ℕ → PortState → Option (Task × PortState)
pop_front [] now s = none
pop_front (task ∷ tasks) now s =
    if is_due task.due now
    then some (task, record s { tasks = tasks; in_flight = add64 s.in_flight 1 })
    else none

unfoldable pub take_ready : ℕ → PortState → Option (Task × PortState)
take_ready now s = pop_front s.tasks now s

-- The lock hold of `submit` before an inline callback.
unfoldable pub begin_inline : PortState → PortState
begin_inline s = record s { in_flight = add64 s.in_flight 1 }

unfoldable pub finish_one : ℕ → PortState → PortState
finish_one now_ms s = record s {
  dispatched = add64 s.dispatched 1;
  last_dispatch_ms = some now_ms;
  in_flight = sub64 s.in_flight 1;
}

-- The loop of `drain_ready`: the batch, what stays queued, and the count of callbacks in flight.
unfoldable pub drain_loop : ℕ → List Task → ℕ → List Task → List Task × List Task × ℕ
drain_loop now [] in_flight out = (out, [], in_flight)
drain_loop now (front ∷ tasks) in_flight out =
    if is_due front.due now
    then drain_loop now tasks (add64 in_flight 1) (out ++ front ∷ [])
    else (out, front ∷ tasks, in_flight)

unfoldable pub drain_ready : ℕ → PortState → List Task × PortState
unfolding drain_loop
drain_ready now s =
    let (out, tasks, in_flight) = drain_loop now s.tasks s.in_flight [] in
    (out, record s { tasks = tasks; in_flight = in_flight })

unfoldable pub finish_n : ℕ → ℕ → PortState → PortState
finish_n n now_ms s = if n == 0 then s else record s {
  dispatched = add64 s.dispatched n;
  last_dispatch_ms = some now_ms;
  in_flight = sub64 s.in_flight n;
}
