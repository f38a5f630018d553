-- ===== src/TaskQueue/Queue/Calls.antt =====
-- src/com/xasync/task_queue.rs, the methods of `Queue` and `PortContext` that call back into the
-- title: submission, monitors and termination. A `Stage` says what the whole program state is, of
-- which the queues' `Process` is a part, and what running a callback does to it.
use xgameruntime_rs.Base.{
  ℕ, ◌≡◌, refl, Option, none, some, Bool, true, false, List, [], ◌∷◌, if◌then◌else◌,
}
use xgameruntime_rs.TaskQueue.Modes.{PortKind, work, completion, as_raw}
use xgameruntime_rs.TaskQueue.Port.{Task, PortState, detach, drain_all, finish_one}
use xgameruntime_rs.TaskQueue.Port.Calls.{
  Outcome, refused, inline, own_thread, queued, submit_locked,
}
use xgameruntime_rs.TaskQueue.Queue.{
  PortContext, Monitor, Process, set_port, set_queue, context, set_context, create_handle,
}

-- `run` runs a callback, canceled or not; `notify` calls a monitor with a queue handle and the
-- port's number; `now` and `now_ms` read the two clocks.
pub record Stage (W : Type 0) : Type 0 where
  pub process : W → Process
  pub with_process : W → Process → W
  pub process-with_process : (w : W) (p : Process) → process (with_process w p) ≡ p
  pub run : Task → Bool → W → W
  pub notify : Monitor → ℕ → ℕ → W → W
  pub now : W → ℕ
  pub now_ms : W → ℕ
  pub parallelism : Option ℕ

-- The process alone, where nothing that is called back does anything.
unfoldable pub silent : Stage Process
silent = record {
  process = λ p. p;
  with_process = λ w p. p;
  process-with_process = λ w p. refl;
  run = λ task canceled w. w;
  notify = λ monitor handle port w. w;
  now = λ w. 0;
  now_ms = λ w. 0;
  parallelism = none;
}

module _ {W : Type 0} (stage : Stage W) where
  open stage use {process, with_process, run, notify, now, now_ms, parallelism}

  abbrev pub port_state : ℕ → W → PortState
  port_state port w = ((process w).ports port).state

  abbrev pub put_port : ℕ → PortState → W → W
  put_port port s w = with_process w (set_port port s (process w))

  -- The second lock hold of `submit`, after an inline callback.
  unfoldable pub settle : ℕ → Outcome → W → W
  settle port (inline task) w =
      let w' = run task false w in put_port port (finish_one (now_ms w') (port_state port w')) w'
  settle port refused w = w
  settle port (own_thread task) w = w
  settle port (queued task workers) w = w

  -- `Port::submit`.
  unfoldable pub submit_port : ℕ → ℕ → Bool → ℕ → ℕ → ℕ → W → Outcome × W
  submit_port port owner owner_terminated ctx callback delay w =
      let mode = ((process w).ports port).mode in
      let (outcome, s) =
        submit_locked mode parallelism owner owner_terminated ctx callback delay (now w)
          (port_state port w) in
      (outcome, settle port outcome (put_port port s w))

  -- `PortContext::submit`.
  unfoldable pub submit_context : PortContext → ℕ → ℕ → ℕ → W → Outcome × W
  submit_context c ctx callback delay w =
      submit_port c.port c.owner c.terminated ctx callback delay w

  unfoldable pub notify_all : List Monitor → ℕ → ℕ → W → W
  notify_all [] handle port w = w
  notify_all (m ∷ ms) handle port w = notify_all ms handle port (notify m handle port w)

  -- The handle of a queue that its monitors are given: made on the first use.
  unfoldable pub canonical : ℕ → W → ℕ × W
  canonical queue w = elim ((process w).queues queue).canonical_handle [
    | some handle ↦ (handle, w)
    | none ↦
        let (handle, p) = create_handle queue (process w) in
        (
          handle,
          with_process w
              (set_queue queue (record (p.queues queue) { canonical_handle = some handle }) p),
        )
  ]

  unfoldable pub call_monitors : List Monitor → ℕ → PortKind → W → W
  call_monitors [] queue kind w = w
  call_monitors (m ∷ ms) queue kind w =
      let (handle, w') = canonical queue w in notify_all (m ∷ ms) handle (as_raw kind) w'

  -- The list is locked for the whole call: a monitor cannot change it meanwhile.
  unfoldable pub notify_monitors : ℕ → PortKind → W → W
  notify_monitors queue kind w = call_monitors ((process w).queues queue).monitors queue kind w

  -- `Queue::submit`.
  unfoldable pub submit : ℕ → PortKind → ℕ → ℕ → ℕ → W → Outcome × W
  submit queue kind ctx callback delay w =
      let w' = notify_monitors queue kind w in
      submit_context (context kind ((process w').queues queue)) ctx callback delay w'

  -- The callbacks run one after the other, all canceled.
  unfoldable pub cancel_all : List Task → W → W
  cancel_all [] w = w
  cancel_all (t ∷ ts) w = cancel_all ts (run t true w)

  unfoldable pub drain_dead : ℕ → W → W
  drain_dead port w =
      let (rest, s) = drain_all (port_state port w) in cancel_all rest (put_port port s w)

  -- `Port::terminate_context`, less the wait at its end.
  unfoldable pub terminate_port : ℕ → ℕ → W → W
  terminate_port port owner w =
      let (pending, drain_rest, s) = detach owner (port_state port w) in
      let w₁ = cancel_all pending (put_port port s w) in
      if drain_rest then drain_dead port w₁ else w₁

  -- `PortContext::terminate`.
  unfoldable pub terminate_context : ℕ → PortKind → W → W
  terminate_context queue kind w =
      let p = process w in
      let q = p.queues queue in
      let c = context kind q in
      terminate_port c.port c.owner
        (with_process w (set_queue queue (set_context kind (record c { terminated = true }) q) p))

  -- `Queue::terminate`.
  unfoldable pub terminate : ℕ → W → W
  terminate queue w = terminate_context queue completion (terminate_context queue work w)
