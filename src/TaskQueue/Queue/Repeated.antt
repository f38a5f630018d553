-- ===== src/TaskQueue/Queue/Repeated.antt =====
-- A queue that is terminated a second time. Nothing in `PortContext::terminate` asks whether the
-- context has been terminated before, and each call takes one context off the port's count.
use xgameruntime_rs.Base.{
  ℕ, ◌-◌, ◌≤◌, ◌≡◌, ◌≢◌, sym, ap, subst, ◌∙◌, inl, Bool, true, false, if◌then◌else◌, arith,
}
use xgameruntime_rs.TaskQueue.Modes.{PortKind, work, completion}
use xgameruntime_rs.TaskQueue.Port.{PortState, detach, drain_all}
use xgameruntime_rs.TaskQueue.Port.Batches.{detach_lem}
use xgameruntime_rs.TaskQueue.Port.Termination.{detach-active_contexts}
use xgameruntime_rs.TaskQueue.Port.Calls.{refused, submit_locked}
use xgameruntime_rs.TaskQueue.Queue.{
  PortContext, Process, set_port, set_queue, context, set_context, port_of,
}
use xgameruntime_rs.TaskQueue.Queue.Calls.{
  Stage, port_state, put_port, submit_port, submit_context, cancel_all, drain_dead, terminate_port,
  terminate_context, terminate,
}
use xgameruntime_rs.TaskQueue.Queue.Isolation.{IsQuiet, cancel_all-process}

-- What terminating a context does to the process.
killed : ℕ → ℕ → Process → Process
killed port owner p =
    let p₁ = set_port port (detach owner (p.ports port).state).2 p in
    if (detach owner (p.ports port).state).1
    then set_port port (drain_all (p₁.ports port).state).1 p₁
    else p₁

killed_context : ℕ → PortKind → Process → Process
killed_context queue kind p =
    let q = p.queues queue in
    let c = context kind q in
    killed c.port c.owner (set_queue queue (set_context kind (record c { terminated = true }) q) p)

killed-other :
    (port owner other : ℕ) (p : Process)
    → other ≢ port
    → (killed port owner p).ports other ≡ p.ports other
unfolding killed
killed-other port owner other p ne = ground arith

killed-active_contexts :
    (port owner : ℕ) (p : Process)
    → ((killed port owner p).ports port).state.active_contexts
      ≡ (p.ports port).state.active_contexts - 1
unfolding killed drain_all
killed-active_contexts port owner p =
    ground (arith, detach-active_contexts owner (p.ports port).state)

killed-terminated :
    (port owner : ℕ) (p : Process)
    → ((killed port owner p).ports port).state.terminated
      ≡ (detach owner (p.ports port).state).2.terminated
unfolding killed drain_all
killed-terminated port owner p = ground arith

killed_context-port :
    (queue : ℕ) (done kind : PortKind) (p : Process)
    → port_of kind queue (killed_context queue done p) ≡ port_of kind queue p
unfolding killed_context killed
killed_context-port queue work work p = ground arith
killed_context-port queue work completion p = ground arith
killed_context-port queue completion work p = ground arith
killed_context-port queue completion completion p = ground arith

killed_context-other :
    (queue : ℕ) (kind : PortKind) (other : ℕ) (p : Process)
    → other ≢ port_of kind queue p
    → (killed_context queue kind p).ports other ≡ p.ports other
unfolding killed_context
killed_context-other queue kind other p ne = killed-other _ _ other _ ne

killed_context-active_contexts :
    (queue : ℕ) (kind : PortKind) (p : Process)
    → ((killed_context queue kind p).ports (port_of kind queue p)).state.active_contexts
      ≡ (p.ports (port_of kind queue p)).state.active_contexts - 1
unfolding killed_context
killed_context-active_contexts queue kind p = killed-active_contexts _ _ _

killed_context-terminated :
    (queue : ℕ) (kind : PortKind) (p : Process)
    → (p.ports (port_of kind queue p)).state.active_contexts ≤ 1
    → ((killed_context queue kind p).ports (port_of kind queue p)).state.terminated ≡ true
unfolding killed_context
killed_context-terminated queue kind p h =
    killed-terminated _ _ _ ∙ (detach_lem _ (p.ports (port_of kind queue p)).state).3.1 (inl h)

-- A process after one and after two terminations of a queue.
abbrev killed_queue : ℕ → Process → Process
killed_queue queue p = killed_context queue completion (killed_context queue work p)

killed_queue-port :
    (queue : ℕ) (kind : PortKind) (p : Process)
    → port_of kind queue (killed_queue queue p) ≡ port_of kind queue p
killed_queue-port queue kind p =
    killed_context-port queue completion kind (killed_context queue work p)
    ∙ killed_context-port queue work kind p

killed_queue-work :
    (queue : ℕ) (p : Process)
    → port_of work queue p ≢ port_of completion queue p
    → (killed_queue queue p).ports (port_of work queue p)
      ≡ (killed_context queue work p).ports (port_of work queue p)
killed_queue-work queue p apart =
    killed_context-other queue completion (port_of work queue p) (killed_context queue work p)
      (rw (killed_context-port queue work completion p) apart)

killed_twice :
    (queue : ℕ) (p : Process)
    → port_of work queue p ≢ port_of completion queue p
    → (p.ports (port_of work queue p)).state.active_contexts ≡ 2
    → ((killed_queue queue (killed_queue queue p)).ports (port_of work queue p)).state.terminated
      ≡ true
killed_twice queue p apart two =
    let p₂ = killed_queue queue p in
    let e = killed_queue-port queue work p in
    let small : (p₂.ports (port_of work queue p₂)).state.active_contexts ≤ 1 =
      subst (λ x. (p₂.ports x).state.active_contexts ≤ 1) (sym e)
        (omega (
          arith,
          two,
          ap (λ q. q.state.active_contexts) (killed_queue-work queue p apart),
          killed_context-active_contexts queue work p,
        )) in
    subst (λ x. ((killed_queue queue p₂).ports x).state.terminated ≡ true) e
      (ap (λ q. q.state.terminated)
          (killed_queue-work queue p₂ (rw (e, killed_queue-port queue completion p) apart))
        ∙ killed_context-terminated queue work p₂ small)

module _ {W : Type 0} (stage : Stage W) (quiet : IsQuiet stage) where
  drain_dead-process :
      (port : ℕ) (w : W)
      → stage.process (drain_dead stage port w)
        ≡ set_port port (drain_all (port_state stage port w)).1 (stage.process w)
  unfolding drain_dead
  drain_dead-process port w =
      cancel_all-process stage quiet (drain_all (port_state stage port w)).0
        (put_port stage port (drain_all (port_state stage port w)).1 w)
      ∙ stage.process-with_process w _

  terminate_port-killed :
      (port owner : ℕ) (w : W)
      → stage.process (terminate_port stage port owner w) ≡ killed port owner (stage.process w)
  unfolding terminate_port killed
  terminate_port-killed port owner w = go (detach owner s).1
    where
      s : PortState
      s = port_state stage port w

      w₁ : W
      w₁ = cancel_all stage (detach owner s).0 (put_port stage port (detach owner s).2 w)

      e : stage.process w₁ ≡ set_port port (detach owner s).2 (stage.process w)
      e =
          cancel_all-process stage quiet (detach owner s).0
            (put_port stage port (detach owner s).2 w)
          ∙ stage.process-with_process w _

      go :
          (last : Bool)
          → stage.process (if last then drain_dead stage port w₁ else w₁) ≡ (
              let p₁ = set_port port (detach owner s).2 (stage.process w) in
              if last then set_port port (drain_all (p₁.ports port).state).1 p₁ else p₁)
      go true =
          drain_dead-process port w₁
          ∙ ap (λ x. set_port port (drain_all (x.ports port).state).1 x) e
      go false = e

  terminate_context-killed :
      (queue : ℕ) (kind : PortKind) (w : W)
      → stage.process (terminate_context stage queue kind w)
        ≡ killed_context queue kind (stage.process w)
  unfolding terminate_context killed_context
  terminate_context-killed queue kind w =
      let p = stage.process w in
      let q = p.queues queue in
      let c = context kind q in
      let p' = set_queue queue (set_context kind (record c { terminated = true }) q) p in
      terminate_port-killed c.port c.owner (stage.with_process w p')
      ∙ ap (killed c.port c.owner) (stage.process-with_process w p')

  terminate-killed :
      (queue : ℕ) (w : W)
      → stage.process (terminate stage queue w)
        ≡ killed_context queue completion (killed_context queue work (stage.process w))
  unfolding terminate
  terminate-killed queue w =
      terminate_context-killed queue completion (terminate_context stage queue work w)
      ∙ ap (killed_context queue completion) (terminate_context-killed queue work w)

  submit_context-dead :
      (c : PortContext) (ctx callback delay : ℕ) (w : W)
      → (port_state stage c.port w).terminated ≡ true
      → (submit_context stage c ctx callback delay w).0 ≡ refused
  unfolding submit_context submit_port submit_locked
  submit_context-dead c ctx callback delay w h = ground arith

  -- A queue whose work and completion ports differ shares its work port with one other live queue,
  -- and canceled callbacks leave the queues alone. After the title has terminated it twice, a
  -- context of that port that was never terminated is refused all work on it.
  pub terminate-twice :
      (queue : ℕ) (w : W) (c : PortContext) (ctx callback delay : ℕ)
      → let p = stage.process w in
        port_of work queue p ≢ port_of completion queue p
        → (p.ports (port_of work queue p)).state.active_contexts ≡ 2
        → c.port ≡ port_of work queue p
        → c.terminated ≡ false
        → (submit_context stage c ctx callback delay
            (terminate stage queue (terminate stage queue w))).0
          ≡ refused
  terminate-twice queue w c ctx callback delay apart two same live =
      submit_context-dead c ctx callback delay (terminate stage queue (terminate stage queue w)) (
        subst (λ x. (x.ports c.port).state.terminated ≡ true)
          (sym (
            terminate-killed queue (terminate stage queue w)
            ∙ ap (killed_queue queue) (terminate-killed queue w)))
          (subst
            (λ r.
              ((killed_queue queue (killed_queue queue (stage.process w))).ports r).state.terminated
              ≡ true)
            (sym same) (killed_twice queue (stage.process w) apart two)))
