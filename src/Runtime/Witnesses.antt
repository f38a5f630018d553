-- ===== src/Runtime/Witnesses.antt =====
-- The theorem on sessions, at a process that has just begun.
use xgameruntime_rs.Base.{ℕ, ◌≡◌, refl, some, none, true, false, [], ◌∷◌, arith}
use xgameruntime_rs.HandleTable
use xgameruntime_rs.Results.{e_notimpl}
use xgameruntime_rs.TaskQueue.Modes.{manual}
use xgameruntime_rs.TaskQueue.Port.{default}
use xgameruntime_rs.TaskQueue.Queue.{PortContext, has_process_queue}
use xgameruntime_rs.Runtime.{Runtime, own_handlers, initialize, uninitialize}
use xgameruntime_rs.Runtime.Sessions.{start, stop, perform, perform-session}

abbrev unused : PortContext
unused = record { port = 0; owner = 0; terminated = false }

abbrev begun : Runtime
begun = record {
  init_ref_count = 0;
  process = record {
    ports = λ _. record { mode = manual; state = default };
    next_port = 0;
    queues = λ _. record {
      work_context = unused;
      completion_context = unused;
      monitors = [];
      next_token = 1;
      canonical_handle = none;
    };
    next_queue = 0;
    next_context_id = 1;
    queue_handles = HandleTable.new;
    port_handles = HandleTable.new;
    process_queue = none;
    process_queue_handle = none;
  };
  handlers = none;
  closed = [];
}

perform-session_example :
    let opened = (initialize begun).1 in
    let now = perform (start ∷ stop ∷ []) opened in
    let stopped = (uninitialize now).1 in
    (has_process_queue now.process ≡ true)
    × (now.process ≡ opened.process)
    × (now.handlers ≡ some own_handlers)
    × (◌≡◌ {A = ℕ} 1 1
        → (stopped.init_ref_count ≡ 0)
          × (stopped.process.process_queue ≡ none)
          × (stopped.process.process_queue_handle ≡ none)
          × (uninitialize stopped ≡ (e_notimpl, stopped)))
perform-session_example = perform-session begun (start ∷ stop ∷ []) 1 refl (omega arith)
