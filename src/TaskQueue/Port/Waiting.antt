-- ===== src/TaskQueue/Port/Waiting.antt =====
-- What `wait_for_task` and `dispatch` give, whatever other threads do meanwhile.
use xgameruntime_rs.Base.{
  ℕ, ◌+◌, ◌%◌, ◌<◌, leb, ◌≡◌, refl, ap, ◌∙◌, Option, none, some, Bool, true, false, not, ◌||◌, List,
  [], ◌∷◌, if◌then◌else◌, arith, u64_mod, length, keep_if,
}
use xgameruntime_rs.TaskQueue.Port.{
  Task, PortState, take_ready, drain_ready, finish_n, pop_front, is_due,
}
use xgameruntime_rs.TaskQueue.Port.Calls.{
  Wake, Waited, took, gave_up, still_waiting, is_reached, earliest, next_due, wait_for_task, Pump,
  ran, dispatch, from_millis,
}
use xgameruntime_rs.TaskQueue.Port.Order.{IsSorted}
use xgameruntime_rs.TaskQueue.Port.Batches.{is_ready, drain_ready_lem}

-- Whether a moment has come: one that is not set is here for a callback, and never for a wait.
abbrev pub has_come : Bool → Option ℕ → ℕ → Bool
has_come unset none now = unset
has_come unset (some moment) now = leb moment now

-- The head of a queue, where its moment has come, and the port without it, which counts it as in
-- flight.
abbrev pub ready_head : ℕ → PortState → List Task → Option (Task × PortState)
ready_head now s [] = none
ready_head now s (front ∷ tasks) =
    if has_come true front.due now
    then some (front, record s { tasks = tasks; in_flight = (s.in_flight + 1) % u64_mod })
    else none

is_due-has_come : (due : Option ℕ) (now : ℕ) → is_due due now ≡ has_come true due now
is_due-has_come none now = refl
is_due-has_come (some due) now = refl

is_reached-has_come : (t : Option ℕ) (now : ℕ) → is_reached t now ≡ has_come false t now
is_reached-has_come none now = refl
is_reached-has_come (some t) now = refl

pop_front-ready_head :
    (now : ℕ) (s : PortState) (ts : List Task) → pop_front ts now s ≡ ready_head now s ts
pop_front-ready_head now s [] = refl
pop_front-ready_head now s (t ∷ ts) = rw (← is_due-has_come t.due now) refl

take_ready-ready_head : (now : ℕ) (s : PortState) → take_ready now s ≡ ready_head now s s.tasks
unfolding take_ready
take_ready-ready_head now s = pop_front-ready_head now s s.tasks

-- A wake-up ends the wait if the port is dead, its head is ready, or the deadline has passed.
abbrev pub ends : Option ℕ → Wake → Bool
ends deadline w = w.seen.terminated || elim (ready_head w.now w.seen w.seen.tasks) [
  | some _ ↦ true
  | none ↦ has_come false deadline w.now_again
]

abbrev pub first_end : Option ℕ → List Wake → Option Wake
first_end deadline [] = none
first_end deadline (w ∷ ws) = if ends deadline w then some w else first_end deadline ws

-- The head of a live port, if it is ready.
abbrev pub answer : Option Wake → Waited
answer none = still_waiting
answer (some w) =
    if w.seen.terminated then gave_up w.seen else elim (ready_head w.now w.seen w.seen.tasks) [
      | some (task, s) ↦ took task s
      | none ↦ gave_up w.seen
    ]

earliest_reached :
    (deadline due : Option ℕ) (now : ℕ)
    → is_reached deadline now ≡ true
    → is_reached (earliest deadline due) now ≡ true
earliest_reached none due now h = cc
earliest_reached (some d) none now h = h
earliest_reached (some d) (some e) now h = ground arith

-- A wait answers at the first wake-up that finds the port dead, the head ready or the deadline
-- passed, and not before: with the head of a live port, if that is ready, and with nothing
-- otherwise. While there is no such wake-up it goes on.
pub wait_for_task_lem :
    (deadline : Option ℕ) (ws : List Wake)
    → wait_for_task deadline ws ≡ answer (first_end deadline ws)
unfolding wait_for_task
wait_for_task_lem deadline [] = refl
wait_for_task_lem deadline (w ∷ ws) = ground (
  arith,
  wait_for_task_lem deadline ws,
  take_ready-ready_head w.now w.seen,
  is_reached-has_come deadline w.now_again,
  earliest_reached deadline (next_due w.seen.tasks) w.now_again,
)

answer_took :
    (o : Option Wake) (w : Wake) (first : Task) (s : PortState)
    → o ≡ some w
    → w.seen.terminated ≡ false
    → take_ready w.now w.seen ≡ some (first, s)
    → answer o ≡ took first s
answer_took none w first s e live got = cc
answer_took (some v) w first s e live got = ground (arith, take_ready-ready_head w.now w.seen)

-- One `dispatch` that obtains a callback runs it and then, in order, every callback that is ready
-- on the port once it has run, leaves the others queued, and counts the whole batch as done; the
-- thread's `IN_DISPATCH` is set for the callbacks and then as before. The port that the first
-- callback leaves is in order, and its count in flight has room for its queue.
pub dispatch_lem :
    (env : Pump) (entered timeout_ms : ℕ) (in_dispatch : Bool) (w : Wake) (first : Task)
    (s : PortState)
    → first_end (some (entered + from_millis timeout_ms)) env.wakes ≡ some w
    → w.seen.terminated ≡ false
    → take_ready w.now w.seen ≡ some (first, s)
    → let after = env.during_first true first s in
      IsSorted after.tasks
      → after.in_flight + length after.tasks < u64_mod
      → (drained : PortState) × (drained.tasks
          ≡ keep_if (λ t. not (is_ready env.drain_now t)) after.tasks)
        × (let batch = keep_if (is_ready env.drain_now) after.tasks in
            (drained.in_flight ≡ after.in_flight + length batch)
            × (dispatch env entered timeout_ms in_dispatch ≡ (
              ran
                  (first ∷ batch)
                  (finish_n (1 + length batch) env.done_ms (env.during_batch true batch drained)),
              in_dispatch,
            )))
unfolding dispatch
dispatch_lem env entered timeout_ms in_dispatch w first s e live got sorted small =
    let after = env.during_first true first s in
    let got_first : wait_for_task (some (entered + from_millis timeout_ms)) env.wakes
        ≡ took first s =
      wait_for_task_lem (some (entered + from_millis timeout_ms)) env.wakes
      ∙ answer_took _ w first s e live got in
    let (out, left, flight) = drain_ready_lem env.drain_now after sorted small in
    (
      (drain_ready env.drain_now after).1,
      left,
      (omega (arith, flight, ap length out), rw (got_first, dispatch, ← out) refl),
    )
