-- ===== src/TaskQueue/Traffic.antt =====
-- A port under any number of threads: every lock hold of the port's methods is one step, and the
-- steps of different threads interleave freely. Beside the port stand the callbacks that its
-- methods have in hand: `running` were taken to run, `sleeping` wait on threads of their own,
-- `finished` ran, and `canceled` were run as canceled. `accepted` are all whose submission
-- succeeded, and `ended` the contexts terminated so far.
pub mod Safety
mod Witnesses
use xgameruntime_rs.Base.{
  ℕ, ◌+◌, ◌≤◌, ◌<◌, ◌≡◌, ◌⊎◌, inl, inr, Option, none, some, Bool, true, false, List, [], ◌∷◌, ◌++◌,
  if◌then◌else◌, length,
}
use xgameruntime_rs.Base.Count.{count_if, Splits}
use xgameruntime_rs.TaskQueue.Modes.{DispatchMode}
use xgameruntime_rs.TaskQueue.Port.{
  Task, PortState, default, add_context, detach, drain_all, take_ready, finish_one, drain_ready,
  finish_n,
}
use xgameruntime_rs.TaskQueue.Port.Calls.{
  Outcome, inline, own_thread, queued, submit_locked, own_thread_canceled,
}

pub record Traffic : Type 0 where
  pub port : PortState
  pub running : List Task
  pub sleeping : List Task
  pub finished : List Task
  pub canceled : List Task
  pub accepted : List Task
  pub ended : List ℕ

unfoldable pub idle : Traffic
idle = record {
  port = default;
  running = [];
  sleeping = [];
  finished = [];
  canceled = [];
  accepted = [];
  ended = [];
}

-- A step of a thread on a port of the given mode.
pub data Step (mode : DispatchMode) : Traffic → Traffic → Type 0 where
  attach : (t : Traffic) → Step mode t (record t { port = add_context t.port })
  enqueues :
      (t : Traffic) (parallelism : Option ℕ) (owner context callback delay now workers : ℕ)
      (task : Task) (p : PortState)
      → submit_locked mode parallelism owner false context callback delay now t.port
        ≡ (queued task workers, p)
      → Step mode t (record t { port = p; accepted = task ∷ t.accepted })
  begins_inline :
      (t : Traffic) (parallelism : Option ℕ) (owner context callback delay now : ℕ) (task : Task)
      (p : PortState)
      → submit_locked mode parallelism owner false context callback delay now t.port
        ≡ (inline task, p)
      → Step mode t
          (record t { port = p; running = task ∷ t.running; accepted = task ∷ t.accepted })
  sleeps :
      (t : Traffic) (parallelism : Option ℕ) (owner context callback delay now : ℕ) (task : Task)
      (p : PortState)
      → submit_locked mode parallelism owner false context callback delay now t.port
        ≡ (own_thread task, p)
      → Step mode t
          (record t { port = p; sleeping = task ∷ t.sleeping; accepted = task ∷ t.accepted })
  wakes :
      (t : Traffic) (task : Task) (rest : List Task)
      → Splits t.sleeping (task ∷ []) rest
      → own_thread_canceled t.port ≡ false
      → Step mode t (record t { sleeping = rest; finished = task ∷ t.finished })
  wakes_canceled :
      (t : Traffic) (task : Task) (rest : List Task)
      → Splits t.sleeping (task ∷ []) rest
      → own_thread_canceled t.port ≡ true
      → Step mode t (record t { sleeping = rest; canceled = task ∷ t.canceled })
  takes :
      (t : Traffic) (now : ℕ) (task : Task) (p : PortState)
      → t.port.terminated ≡ false
      → take_ready now t.port ≡ some (task, p)
      → Step mode t (record t { port = p; running = task ∷ t.running })
  drains :
      (t : Traffic) (now : ℕ)
      → Step mode t (record t {
        port = (drain_ready now t.port).1;
        running = (drain_ready now t.port).0 ++ t.running;
      })
  finishes :
      (t : Traffic) (now_ms : ℕ) (task : Task) (rest : List Task)
      → Splits t.running (task ∷ []) rest
      → Step mode t (record t {
        port = finish_one now_ms t.port;
        running = rest;
        finished = task ∷ t.finished;
      })
  finishes_batch :
      (t : Traffic) (now_ms : ℕ) (batch rest : List Task)
      → Splits t.running batch rest
      → Step mode t (record t {
        port = finish_n (length batch) now_ms t.port;
        running = rest;
        finished = batch ++ t.finished;
      })
  terminates :
      (t : Traffic) (owner : ℕ)
      → Step mode t (record t {
        port = (detach owner t.port).2;
        canceled = (detach owner t.port).0 ++ t.canceled;
        ended = owner ∷ t.ended;
      })
  drains_dead :
      (t : Traffic)
      → t.port.terminated ≡ true
      → Step mode t
          (record t { port = (drain_all t.port).1; canceled = (drain_all t.port).0 ++ t.canceled })

pub data Reach (mode : DispatchMode) (s : Traffic) : Traffic → Type 0 where
  here : Reach mode s s
  next : {t u : Traffic} → Reach mode s t → Step mode t u → Reach mode s u
