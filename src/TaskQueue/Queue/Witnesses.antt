-- ===== src/TaskQueue/Queue/Witnesses.antt =====
-- The theorems on queues, at a process with two queues over the same two ports.
use xgameruntime_rs.Base.{◌≡◌, ◌≢◌, refl, none, some, true, false, [], arith}
use xgameruntime_rs.Base.Map.{insert, lookup}
use xgameruntime_rs.HandleTable
use xgameruntime_rs.HandleTable.{HandleTable}
use xgameruntime_rs.HandleTable.Laws.{new-IsValid}
use xgameruntime_rs.TaskQueue.Modes.{work, manual}
use xgameruntime_rs.TaskQueue.Port.{default, add_context}
use xgameruntime_rs.TaskQueue.Port.Calls.{refused}
use xgameruntime_rs.TaskQueue.Queue.{
  Process, PortContext, new_context, composite, new_port, new_queue, create_handle, get_handle,
  default_process_queue, process_queue_handle, set_process_queue,
}
use xgameruntime_rs.TaskQueue.Queue.Calls.{silent, submit_context, terminate}
use xgameruntime_rs.TaskQueue.Queue.Isolation.{IsQuiet, terminate-isolated}
use xgameruntime_rs.TaskQueue.Queue.Repeated.{terminate-twice}
use xgameruntime_rs.TaskQueue.Queue.ProcessQueue.{process_queue_handle_lem, set_process_queue-stale}

abbrev no_context : PortContext
no_context = record { port = 0; owner = 0; terminated = false }

boot : Process
boot = record {
  ports = λ _. record { mode = manual; state = default };
  next_port = 0;
  queues = λ _. record {
    work_context = no_context;
    completion_context = no_context;
    monitors = [];
    next_token = 1;
    canonical_handle = none;
  };
  next_queue = 0;
  next_context_id = 1;
  queue_handles = HandleTable.new;
  port_handles = HandleTable.new;
  process_queue = none;
  process_queue_handle = none;
}

-- Queue 1 is a composite of the two ports of queue 0.
two_queues : Process
two_queues = (composite 0 1 (new_queue manual manual boot).1).1

silent-IsQuiet : IsQuiet silent
unfolding silent
silent-IsQuiet task w = refl

terminate-isolated_example :
    let p' = terminate silent 1 two_queues in
    ((p'.ports 0).state.tasks ≡ [])
    × ((p'.ports 0).state.terminated ≡ false)
    × ((p'.queues 1).work_context.terminated ≡ true)
    × (p'.queues 0 ≡ two_queues.queues 0)
    × (p'.ports 7 ≡ two_queues.ports 7)
unfolding boot two_queues silent composite new_queue new_port new_context default add_context
terminate-isolated_example =
    terminate-isolated silent silent-IsQuiet 1 two_queues work 0 7 (ground arith) (omega arith)
      (omega arith) (ground arith) (ground arith) (ground arith)

terminate-twice_example :
    (submit_context silent
      (record { port = 0; owner = 1; terminated = false })
      3
      9
      0
      (terminate silent 1 (terminate silent 1 two_queues))).0
    ≡ refused
unfolding boot two_queues silent composite new_queue new_port new_context default add_context
terminate-twice_example =
    terminate-twice silent silent-IsQuiet 1 two_queues
      (record { port = 0; owner = 1; terminated = false }) 3 9 0 (ground arith) refl refl refl

process_queue_handle_example :
    (get_handle (process_queue_handle boot).0 (process_queue_handle boot).1
      ≡ some (default_process_queue (process_queue_handle boot).1).0)
    × ((process_queue_handle boot).0 ≢ 0)
    × (process_queue_handle (process_queue_handle boot).1 ≡ process_queue_handle boot)
unfolding boot
process_queue_handle_example = process_queue_handle_lem boot new-IsValid refl

-- The process queue is in use, under handle 1.
in_use : Process
in_use = (process_queue_handle boot).1

set_process_queue-stale_example :
    let p' = set_process_queue (some 5) in_use in
    ((default_process_queue p').0 ≡ 5)
    × ((process_queue_handle p').0 ≡ 1)
    × (get_handle 1 p' ≢ some (default_process_queue p').0)
unfolding in_use boot process_queue_handle default_process_queue create_handle get_handle new_queue
    new_port composite new_context default add_context HandleTable.create HandleTable.new
    HandleTable.get lookup insert
set_process_queue-stale_example = set_process_queue-stale in_use 1 0 5 refl refl (ground arith)
