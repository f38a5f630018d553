-- ===== src/TaskQueue/Queue.antt =====
-- src/com/xasync/task_queue.rs, `PortContext`, `Queue`, the handle tables and the process queue.
-- `Process` is the process's shared state: the ports and queues that `Arc`s point at, the two
-- handle tables, the counter of contexts, and the two slots of the process queue.
pub mod Calls
pub mod Isolation
pub mod ProcessQueue
pub mod Repeated
mod Witnesses
pub mod Frame
use xgameruntime_rs.Base.{
  ℕ, suc, ◌+◌, Option, none, some, Bool, true, false, not, List, [], ◌∷◌, ◌++◌, ◌==◌, if◌then◌else◌,
  add64, keep_if,
}
use xgameruntime_rs.Base.Heap.{Heap, update}
use xgameruntime_rs.HandleTable
use xgameruntime_rs.HandleTable.{HandleTable}
use xgameruntime_rs.TaskQueue.Modes.{DispatchMode, thread_pool, PortKind, work, completion}
use xgameruntime_rs.TaskQueue.Port.{PortState, default, add_context}

pub record Port : Type 0 where
  pub mode : DispatchMode
  pub state : PortState

-- `port` is the reference to the port, which other contexts may share.
pub record PortContext : Type 0 where
  pub port : ℕ
  pub owner : ℕ
  pub terminated : Bool

pub record Monitor : Type 0 where
  pub token : ℕ
  pub context : ℕ
  pub callback : ℕ

pub record Queue : Type 0 where
  pub work_context : PortContext
  pub completion_context : PortContext
  pub monitors : List Monitor
  pub next_token : ℕ
  pub canonical_handle : Option ℕ

pub record Process : Type 0 where
  pub ports : Heap Port
  pub next_port : ℕ
  pub queues : Heap Queue
  pub next_queue : ℕ
  pub next_context_id : ℕ
  pub queue_handles : HandleTable ℕ
  pub port_handles : HandleTable ℕ
  pub process_queue : Option ℕ
  pub process_queue_handle : Option ℕ

abbrev pub set_port : ℕ → PortState → Process → Process
set_port ref s w = record w {
  ports = update w.ports ref (record { mode = (w.ports ref).mode; state = s });
}

abbrev pub set_queue : ℕ → Queue → Process → Process
set_queue ref q w = record w { queues = update w.queues ref q }

-- `Port::new`: the reference to a fresh port.
unfoldable pub new_port : DispatchMode → Process → ℕ × Process
unfolding default
new_port mode w = (
  w.next_port,
  record w {
    ports = update w.ports w.next_port (record { mode = mode; state = default });
    next_port = suc w.next_port;
  },
)

-- `PortContext::new`.
unfoldable pub new_context : ℕ → Process → PortContext × Process
unfolding add_context
new_context port w = (
  record { port = port; owner = w.next_context_id; terminated = false },
  set_port port (add_context (w.ports port).state)
      (record w { next_context_id = add64 w.next_context_id 1 }),
)

-- `Queue::composite`: the reference to a fresh queue over two ports.
unfoldable pub composite : ℕ → ℕ → Process → ℕ × Process
unfolding new_context
composite work_port completion_port w =
    let (work_context, w₁) = new_context work_port w in
    let (completion_context, w₂) = new_context completion_port w₁ in
    (
      w₂.next_queue,
      set_queue w₂.next_queue
          (record {
            work_context = work_context;
            completion_context = completion_context;
            monitors = [];
            next_token = 1;
            canonical_handle = none;
          })
          (record w₂ { next_queue = suc w₂.next_queue }),
    )

-- `Queue::new`.
unfoldable pub new_queue : DispatchMode → DispatchMode → Process → ℕ × Process
unfolding new_port composite
new_queue work_mode completion_mode w =
    let (work_port, w₁) = new_port work_mode w in
    let (completion_port, w₂) = new_port completion_mode w₁ in
    composite work_port completion_port w₂

abbrev pub context : PortKind → Queue → PortContext
context work q = q.work_context
context completion q = q.completion_context

abbrev pub set_context : PortKind → PortContext → Queue → Queue
set_context work c q = record q { work_context = c }
set_context completion c q = record q { completion_context = c }

-- `Queue::port`.
abbrev pub port_of : PortKind → ℕ → Process → ℕ
port_of kind queue w = (context kind (w.queues queue)).port

unfoldable pub register_monitor : ℕ → ℕ → ℕ → Process → ℕ × Process
register_monitor queue ctx callback w =
    let q = w.queues queue in
    let monitor : Monitor = record { token = q.next_token; context = ctx; callback = callback } in
    (
      q.next_token,
      set_queue queue
          (record q { next_token = add64 q.next_token 1; monitors = q.monitors ++ monitor ∷ [] }) w,
    )

unfoldable pub unregister_monitor : ℕ → ℕ → Process → Process
unregister_monitor queue token w =
    let q = w.queues queue in
    set_queue queue (record q { monitors = keep_if (λ m. not (m.token == token)) q.monitors }) w

-- `QueueHandle::create`, `get` and `close`.
unfoldable pub create_handle : ℕ → Process → ℕ × Process
create_handle queue w =
    let (handle, table) = HandleTable.create w.queue_handles queue in
    (handle, record w { queue_handles = table })

unfoldable pub get_handle : ℕ → Process → Option ℕ
get_handle handle w = HandleTable.get w.queue_handles handle

unfoldable pub close_handle : ℕ → Process → Process
close_handle handle w = record w { queue_handles = HandleTable.close w.queue_handles handle }

-- `PortHandle::create` and `get`.
unfoldable pub create_port_handle : ℕ → Process → ℕ × Process
create_port_handle port w =
    let (handle, table) = HandleTable.create w.port_handles port in
    (handle, record w { port_handles = table })

unfoldable pub get_port_handle : ℕ → Process → Option ℕ
get_port_handle handle w = HandleTable.get w.port_handles handle

unfoldable pub default_process_queue : Process → ℕ × Process
unfolding new_queue
default_process_queue w = elim w.process_queue [
  | some queue ↦ (queue, w)
  | none ↦
      let (queue, w') = new_queue thread_pool thread_pool w in
      (queue, record w' { process_queue = some queue })
]

unfoldable pub process_queue_handle : Process → ℕ × Process
process_queue_handle w = elim w.process_queue_handle [
  | some handle ↦ (handle, w)
  | none ↦
      let (queue, w₁) = default_process_queue w in
      let (handle, w₂) = create_handle queue w₁ in
      (handle, record w₂ { process_queue_handle = some handle })
]

unfoldable pub set_process_queue : Option ℕ → Process → Process
set_process_queue (some queue) w = record w { process_queue = some queue }
set_process_queue none w = record w { process_queue = none; process_queue_handle = none }

unfoldable pub is_process_queue : ℕ → Process → Bool × Process
is_process_queue queue w = let (current, w') = default_process_queue w in (queue == current, w')

unfoldable pub has_process_queue : Process → Bool
has_process_queue w = elim w.process_queue [ some _ ↦ true | none ↦ false ]
