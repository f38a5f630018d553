-- ===== src/TaskQueue/Queue/Frame.antt =====
-- A relation between program states that the monitors, a submitted callback and every change of
-- the queues respect is respected by its submission.
use xgameruntime_rs.Base.{ℕ, ◌≡◌, Option, none, some, Bool, false, List, [], ◌∷◌, arith}
use xgameruntime_rs.TaskQueue.Modes.{
  DispatchMode, manual, thread_pool, serialized_thread_pool, immediate, PortKind,
}
use xgameruntime_rs.TaskQueue.Port.{Task, PortState}
use xgameruntime_rs.TaskQueue.Port.Calls.{
  Outcome, refused, inline, own_thread, queued, submit_locked,
}
use xgameruntime_rs.TaskQueue.Queue.{Monitor, Process, set_queue, create_handle}
use xgameruntime_rs.TaskQueue.Queue.Calls.{
  Stage, port_state, settle, submit_port, submit_context, notify_all, canonical, call_monitors,
  notify_monitors, submit,
}

module _ {W : Type 0} (stage : Stage W) (R : W → W → Type 0) (R-refl : (w : W) → R w w)
    (R-trans : (u v w : W) → R u v → R v w → R u w)
    (R-process : (w : W) (p : Process) → R w (stage.with_process w p)) (ctx callback : ℕ)
    (R-run : (task : Task) (w : W)
      → task.context ≡ ctx
      → task.callback ≡ callback
      → R w (stage.run task false w))
    (R-notify : (m : Monitor) (handle port : ℕ) (w : W) → R w (stage.notify m handle port w)) where
  -- A callback that runs inline is the one submitted.
  abbrev IsSubmitted : Outcome → Type 0
  IsSubmitted (inline task) = (task.context ≡ ctx) × (task.callback ≡ callback)
  IsSubmitted refused = Unit
  IsSubmitted (own_thread task) = Unit
  IsSubmitted (queued task workers) = Unit

  submit_locked-IsSubmitted :
      (mode : DispatchMode) (parallelism : Option ℕ) (owner : ℕ) (owner_terminated : Bool)
      (delay now : ℕ) (s : PortState)
      → IsSubmitted
          (submit_locked mode parallelism owner owner_terminated ctx callback delay now s).0
  unfolding submit_locked
  submit_locked-IsSubmitted manual par owner ot delay now s = ground arith
  submit_locked-IsSubmitted thread_pool par owner ot delay now s = ground arith
  submit_locked-IsSubmitted serialized_thread_pool par owner ot delay now s = ground arith
  submit_locked-IsSubmitted immediate par owner ot delay now s = ground arith

  settle-R : (port : ℕ) (o : Outcome) (w : W) → IsSubmitted o → R w (settle stage port o w)
  unfolding settle
  settle-R port (inline task) w h =
      R-trans _ _ _ (R-run task w h.0 h.1) (R-process (stage.run task false w) _)
  settle-R port refused w h = R-refl w
  settle-R port (own_thread task) w h = R-refl w
  settle-R port (queued task workers) w h = R-refl w

  submit_port-R :
      (port owner : ℕ) (owner_terminated : Bool) (delay : ℕ) (w : W)
      → R w (submit_port stage port owner owner_terminated ctx callback delay w).1
  unfolding submit_port
  submit_port-R port owner owner_terminated delay w = R-trans _ _ _ (R-process w _) (
      settle-R port _ _ (
        submit_locked-IsSubmitted ((stage.process w).ports port).mode stage.parallelism owner
          owner_terminated delay (stage.now w) (port_state stage port w)))

  notify_all-R :
      (ms : List Monitor) (handle port : ℕ) (w : W) → R w (notify_all stage ms handle port w)
  unfolding notify_all
  notify_all-R [] handle port w = R-refl w
  notify_all-R (m ∷ ms) handle port w =
      R-trans _ _ _ (R-notify m handle port w) (notify_all-R ms handle port _)

  canonical-R : (queue : ℕ) (w : W) → R w (canonical stage queue w).1
  unfolding canonical
  canonical-R queue w = go ((stage.process w).queues queue).canonical_handle
    where
      made : ℕ × W
      made =
          let (handle, p) = create_handle queue (stage.process w) in
          (
            handle,
            stage.with_process w
                (set_queue queue (record (p.queues queue) { canonical_handle = some handle }) p),
          )

      go :
          (o : Option ℕ)
          → R w (elim o as (λ _. ℕ × W) [ some handle ↦ (handle, w) | none ↦ made ]).1
      go none = R-process w _
      go (some handle) = R-refl w

  call_monitors-R :
      (ms : List Monitor) (queue : ℕ) (kind : PortKind) (w : W)
      → R w (call_monitors stage ms queue kind w)
  unfolding call_monitors
  call_monitors-R [] queue kind w = R-refl w
  call_monitors-R (m ∷ ms) queue kind w =
      R-trans _ _ _ (canonical-R queue w) (notify_all-R (m ∷ ms) _ _ _)

  pub submit-R :
      (queue : ℕ) (kind : PortKind) (delay : ℕ) (w : W)
      → R w (submit stage queue kind ctx callback delay w).1
  unfolding submit notify_monitors submit_context
  submit-R queue kind delay w =
      R-trans _ _ _ (call_monitors-R ((stage.process w).queues queue).monitors queue kind w)
        (submit_port-R _ _ _ delay _)
