-- ===== src/TaskQueue/Traffic/Witnesses.antt =====
-- A run of a manual port: a callback is queued, taken, and done.
use xgameruntime_rs.Base.{refl, none, false, [], ◌∷◌, arith}
use xgameruntime_rs.TaskQueue.Modes.{manual}
use xgameruntime_rs.TaskQueue.Port.{Task, default, add_context, enqueue, start_workers}
use xgameruntime_rs.TaskQueue.Port.Calls.{submit_locked}
use xgameruntime_rs.TaskQueue.Traffic.{Traffic, idle, attach, enqueues, Reach, here, next}
use xgameruntime_rs.TaskQueue.Traffic.Safety.{Inv, Reach-Inv}

abbrev one_task : Task
one_task = record { context = 3; callback = 9; owner = 1; due = none }

attached : Traffic
attached = record idle { port = add_context idle.port }

held : Traffic
held = record attached {
  port = (submit_locked manual none 1 false 3 9 0 0 attached.port).1;
  accepted = one_task ∷ [];
}

held-Reach : Reach manual idle held
unfolding held attached idle default add_context submit_locked start_workers enqueue
held-Reach =
    next (next here (attach idle)) (enqueues attached none 1 3 9 0 0 0 one_task held.port refl)

Reach_example : Inv held
unfolding held
Reach_example = Reach-Inv manual held-Reach (omega arith)
