-- ===== src/TaskQueue/Queue/Isolation.antt =====
-- Queues that share ports: what terminating one does to the others.
use xgameruntime_rs.Base.{
  ℕ, ◌≤◌, ◌≡◌, ◌≢◌, refl, sym, ap, subst, ◌∙◌, true, false, not, ◌&&◌, List, [], ◌∷◌, ltb, arith,
  keep_if,
}
use xgameruntime_rs.TaskQueue.Modes.{PortKind, work, completion}
use xgameruntime_rs.TaskQueue.Port.{Task, PortState, detach}
use xgameruntime_rs.TaskQueue.Port.Batches.{is_mine, detach_lem}
use xgameruntime_rs.TaskQueue.Port.Termination.{drain_rest_lem}
use xgameruntime_rs.TaskQueue.Queue.{Process, set_port, set_queue, context, set_context, port_of}
use xgameruntime_rs.TaskQueue.Queue.Calls.{
  Stage, port_state, put_port, cancel_all, terminate_port, terminate_context, terminate,
}

-- The callbacks that are canceled leave the queues alone.
abbrev pub IsQuiet : {W : Type 0} → Stage W → Type 0
IsQuiet {W} stage = (task : Task) (w : W) → stage.process (stage.run task true w) ≡ stage.process w

not_last : (n : ℕ) → 2 ≤ n → ltb n 2 ≡ false
not_last n h = ground arith

abbrev pub after_terminate : ℕ → PortKind → Process → Process
after_terminate queue kind p =
    let q = p.queues queue in
    let c = context kind q in
    set_port c.port (detach c.owner (p.ports c.port).state).2
      (set_queue queue (set_context kind (record c { terminated = true }) q) p)

detach-tasks :
    (owner : ℕ) (s : PortState)
    → (detach owner s).2.tasks ≡ keep_if (λ t. not (is_mine owner t)) s.tasks
detach-tasks owner s = (detach_lem owner s).1

detach-alive :
    (owner : ℕ) (s : PortState)
    → 2 ≤ s.active_contexts
    → (detach owner s).2.terminated ≡ s.terminated
unfolding detach
detach-alive owner s h = ground arith

after_both-kind :
    (queue : ℕ) (p : Process) (kind : PortKind)
    → port_of work queue p ≢ port_of completion queue p
    → 2 ≤ (p.ports (port_of work queue p)).state.active_contexts
    → 2 ≤ (p.ports (port_of completion queue p)).state.active_contexts
    → let p' = after_terminate queue completion (after_terminate queue work p) in
      let c = context kind (p.queues queue) in
      ((p'.ports c.port).state.tasks
        ≡ keep_if (λ t. not (is_mine c.owner t)) (p.ports c.port).state.tasks)
      × ((p'.ports c.port).state.terminated ≡ (p.ports c.port).state.terminated)
      × ((context kind (p'.queues queue)).terminated ≡ true)
after_both-kind queue p work apart h k =
    let c = (p.queues queue).work_context in
    let s = (p.ports c.port).state in
    (ground (arith, detach-tasks c.owner s), ground (arith, detach-alive c.owner s), ground arith)
after_both-kind queue p completion apart h k =
    let c = (p.queues queue).completion_context in
    let s = (p.ports c.port).state in
    (ground (arith, detach-tasks c.owner s), ground (arith, detach-alive c.owner s), ground arith)

after_both-others :
    (queue : ℕ) (p : Process)
    → let p' = after_terminate queue completion (after_terminate queue work p) in
      ((other : ℕ) → other ≢ queue → p'.queues other ≡ p.queues other)
      × ((port : ℕ)
          → port ≢ port_of work queue p
          → port ≢ port_of completion queue p
          → p'.ports port ≡ p.ports port)
after_both-others queue p = (λ other ne. ground arith, λ port ne ne'. ground arith)

module _ {W : Type 0} (stage : Stage W) (quiet : IsQuiet stage) where
  pub cancel_all-process :
      (ts : List Task) (w : W) → stage.process (cancel_all stage ts w) ≡ stage.process w
  unfolding cancel_all
  cancel_all-process [] w = refl
  cancel_all-process (t ∷ ts) w = cancel_all-process ts (stage.run t true w) ∙ quiet t w

  terminate_port-process :
      (port owner : ℕ) (w : W)
      → 2 ≤ (port_state stage port w).active_contexts
      → stage.process (terminate_port stage port owner w)
        ≡ set_port port (detach owner (port_state stage port w)).2 (stage.process w)
  unfolding terminate_port
  terminate_port-process port owner w h =
      let s = port_state stage port w in
      let last =
        drain_rest_lem owner s ∙ ap (λ b. b && not s.terminated) (not_last s.active_contexts h) in
      rw last (
        cancel_all-process (detach owner s).0 (put_port stage port (detach owner s).2 w)
        ∙ stage.process-with_process w _)

  terminate_context-process :
      (queue : ℕ) (kind : PortKind) (w : W)
      → 2 ≤ ((stage.process w).ports (port_of kind queue (stage.process w))).state.active_contexts
      → stage.process (terminate_context stage queue kind w)
        ≡ after_terminate queue kind (stage.process w)
  unfolding terminate_context
  terminate_context-process queue kind w h =
      let p = stage.process w in
      let q = p.queues queue in
      let c = context kind q in
      let p' = set_queue queue (set_context kind (record c { terminated = true }) q) p in
      let e = stage.process-with_process w p' in
      terminate_port-process c.port c.owner (stage.with_process w p')
        (subst (λ x. 2 ≤ (x.ports c.port).state.active_contexts) (sym e) h)
      ∙ ap (λ x. set_port c.port (detach c.owner (x.ports c.port).state).2 x) e

  pub terminate-process :
      (queue : ℕ) (w : W)
      → let p = stage.process w in
        port_of work queue p ≢ port_of completion queue p
        → 2 ≤ (p.ports (port_of work queue p)).state.active_contexts
        → 2 ≤ (p.ports (port_of completion queue p)).state.active_contexts
        → stage.process (terminate stage queue w)
          ≡ after_terminate queue completion (after_terminate queue work p)
  unfolding terminate
  terminate-process queue w apart h k =
      let first = terminate_context-process queue work w h in
      terminate_context-process queue completion (terminate_context stage queue work w)
        (rw first (ground arith))
      ∙ ap (after_terminate queue completion) first

  -- Terminating a queue whose two ports are still held by other queues, where the canceled
  -- callbacks leave the queues alone, takes exactly the callbacks that it submitted off each of the
  -- two, in order, leaves them as alive as they were, marks its contexts, and changes no other
  -- queue and no other port.
  pub terminate-isolated :
      (queue : ℕ) (w : W) (kind : PortKind) (other port : ℕ)
      → let p = stage.process w in
        port_of work queue p ≢ port_of completion queue p
        → 2 ≤ (p.ports (port_of work queue p)).state.active_contexts
        → 2 ≤ (p.ports (port_of completion queue p)).state.active_contexts
        → other ≢ queue
        → port ≢ port_of work queue p
        → port ≢ port_of completion queue p
        → let p' = stage.process (terminate stage queue w) in
          let c = context kind (p.queues queue) in
          ((p'.ports c.port).state.tasks
            ≡ keep_if (λ t. not (is_mine c.owner t)) (p.ports c.port).state.tasks)
          × ((p'.ports c.port).state.terminated ≡ (p.ports c.port).state.terminated)
          × ((context kind (p'.queues queue)).terminated ≡ true)
          × (p'.queues other ≡ p.queues other)
          × (p'.ports port ≡ p.ports port)
  terminate-isolated queue w kind other port apart h k ne nw nc =
      rw (terminate-process queue w apart h k) (
        let (tasks, alive, marked) = after_both-kind queue (stage.process w) kind apart h k in
        let (queues, ports) = after_both-others queue (stage.process w) in
        (tasks, alive, marked, queues other ne, ports port nw nc))
