-- ===== src/XAsync/Engine/Sessions.antt =====
-- Sequences of the `XAsync*` exports of src/com/xasync/impl.rs and of the callbacks that the queues
-- run for the engine.
use xgameruntime_rs.Base.{ℕ, zero, suc, Bool, false, List, [], ◌∷◌}
use xgameruntime_rs.TaskQueue.Port.{Task}
use xgameruntime_rs.XAsync.Engine.{Engine, Environment, run_task, nested}
use xgameruntime_rs.XAsync.Engine.Exports.{
  xasync_begin, xasync_schedule, xasync_complete, xasync_get_status, xasync_get_result,
  xasync_cancel, xasync_run,
}
use xgameruntime_rs.XAsync.Engine.Invariant.{
  Inv, Later, Keeps, Respects, Keeps-refl, Keeps-trans, Keeps-if,
}
use xgameruntime_rs.XAsync.Engine.Progress.{completion_callback-Keeps, work_callback-Keeps}
use xgameruntime_rs.XAsync.Engine.Steps.{
  default_to, xasync_begin-Keeps, xasync_schedule-Keeps, xasync_complete-Keeps,
  xasync_get_status-Keeps, xasync_get_result-Keeps, xasync_cancel-Keeps, xasync_run-Keeps,
}

-- One call of an export, or one callback that a queue runs.
pub data Event : Type 0 where
  begins : (block context identity name provider now_ms : ℕ) → Event
  begins_run : (block work_fn now_ms : ℕ) → Event
  schedules : (block delay_in_ms : ℕ) → Event
  completes : (block result required_buffer_size : ℕ) → Event
  polls : (block : ℕ) (in_dispatch : Bool) → Event
  gets_result : (block identity buffer_size buffer : ℕ) → Event
  cancels : (block : ℕ) → Event
  runs : (task : Task) (canceled : Bool) → Event

module _ (env : Environment) where
  unfoldable pub perform : Event → Engine → Engine
  perform (begins block context identity name provider now_ms) w =
      (xasync_begin env block context identity name provider now_ms w).1
  perform (begins_run block work_fn now_ms) w = (xasync_run env block work_fn now_ms w).1
  perform (schedules block delay) w = (xasync_schedule env block delay w).1
  perform (completes block result size) w = xasync_complete env block result size w
  perform (polls block in_dispatch) w =
      default_to w (xasync_get_status env block false in_dispatch [] w)
  perform (gets_result block identity size buffer) w =
      (xasync_get_result env block identity size buffer w).2
  perform (cancels block) w = xasync_cancel env block w
  perform (runs task canceled) w = run_task env task canceled w

  unfoldable pub perform_all : List Event → Engine → Engine
  unfolding perform
  perform_all [] w = w
  perform_all (e ∷ es) w = perform_all es (perform e w)

run_task-Keeps :
    (env : Environment)
    → Respects env
    → (task : Task) (canceled : Bool) (w : Engine) → Keeps w (run_task env task canceled w)
unfolding run_task
run_task-Keeps env respects task canceled w =
    Keeps-if _ w _ _ (work_callback-Keeps env respects task.context canceled w) (
      Keeps-if _ w _ _ (completion_callback-Keeps env respects task.context w)
        (respects.run task canceled w))

nested-Respects : (depth : ℕ) (env : Environment) → Respects env → Respects (nested depth env)
unfolding nested
nested-Respects zero env r = r
nested-Respects (suc depth) env r = record {
  provider = r.provider;
  routine = r.routine;
  notify = r.notify;
  run = run_task-Keeps (nested depth env) (nested-Respects depth env r);
}

perform-Keeps :
    (env : Environment) → Respects env → (e : Event) (w : Engine) → Keeps w (perform env e w)
unfolding perform
perform-Keeps env r (begins b c i n p t) w = xasync_begin-Keeps env r b c i n p t w
perform-Keeps env r (begins_run b f t) w = xasync_run-Keeps env r b f t w
perform-Keeps env r (schedules b d) w = xasync_schedule-Keeps env r b d w
perform-Keeps env r (completes b h s) w = xasync_complete-Keeps env r b h s w
perform-Keeps env r (polls b d) w = xasync_get_status-Keeps env r b w d
perform-Keeps env r (gets_result b i s p) w = xasync_get_result-Keeps env r b i s p w
perform-Keeps env r (cancels b) w = xasync_cancel-Keeps env r b w
perform-Keeps env r (runs t c) w = run_task-Keeps env r t c w

perform_all_lem :
    (env : Environment)
    → Respects env
    → (es : List Event) (w : Engine) → Keeps w (perform_all env es w)
unfolding perform_all
perform_all_lem env r [] w = Keeps-refl w
perform_all_lem env r (e ∷ es) w =
    Keeps-trans w (perform env e w) _ (perform-Keeps env r e w)
      (perform_all_lem env r es (perform env e w))

-- Let the queues run the engine's own callbacks inline, to any depth, and let providers, routines,
-- monitors and the title's callbacks do whatever keeps the invariant and ages the calls, as the
-- exports do. Then, from an engine that satisfies the invariant, after any sequence of exports and
-- callbacks it does again: each call's provider has been sent
-- `Cleanup` once if the call is cleaned up and otherwise never, no block drives a call that does
-- not exist, and every call that there was keeps its block, queue and provider, its status and
-- size once the status is settled, and its marks of being canceled and cleaned up.
pub perform_all-Keeps :
    (depth : ℕ) (env : Environment)
    → Respects env
    → (es : List Event) (w : Engine) → Inv w
    → Inv (perform_all (nested depth env) es w)
      × Later w.next_state w (perform_all (nested depth env) es w)
perform_all-Keeps depth env r es w =
    perform_all_lem (nested depth env) (nested-Respects depth env r) es w
