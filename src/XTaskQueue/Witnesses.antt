-- ===== src/XTaskQueue/Witnesses.antt =====
-- The theorems on `XTaskQueue*` calls, at a process with one queue, of handle 1.
use xgameruntime_rs.Base.{ℕ, ◌≡◌, refl, none, some, true, false, [], arith}
use xgameruntime_rs.Base.Map.{insert, lookup}
use xgameruntime_rs.HandleTable
use xgameruntime_rs.HandleTable.Laws.{IsValid, new-IsValid, create-IsValid}
use xgameruntime_rs.Results.{e_invalidarg, e_pointer}
use xgameruntime_rs.TaskQueue.Modes.{manual, kind_from_raw}
use xgameruntime_rs.TaskQueue.Port.{default}
use xgameruntime_rs.TaskQueue.Queue.{
  Process, PortContext, composite, create_handle, get_handle, create_port_handle, get_port_handle,
}
use xgameruntime_rs.XTaskQueue.{
  create, create_composite, get_port, duplicate_handle, dispatch_target, register_queue_monitor,
  get_current_process_task_queue,
}
use xgameruntime_rs.XTaskQueue.Errors.{Replies, GivesCurrent, verdict-Replies}
use xgameruntime_rs.XTaskQueue.Handles.{composite-ports}

abbrev on_port : ℕ → PortContext
on_port port = record { port = port; owner = 1; terminated = false }

abbrev one_queue : Process
one_queue = record {
  ports = λ _. record { mode = manual; state = default };
  next_port = 2;
  queues = λ _. record {
    work_context = on_port 0;
    completion_context = on_port 1;
    monitors = [];
    next_token = 1;
    canonical_handle = none;
  };
  next_queue = 1;
  next_context_id = 3;
  queue_handles = (HandleTable.create HandleTable.new 0).1;
  port_handles = HandleTable.new;
  process_queue = none;
  process_queue_handle = none;
}

one_queue-IsValid : IsValid one_queue.queue_handles
unfolding HandleTable.new
one_queue-IsValid = create-IsValid HandleTable.new 0 new-IsValid (omega arith)

one_queue-handle : get_handle 1 one_queue ≡ some 0
unfolding get_handle HandleTable.get HandleTable.create HandleTable.new lookup insert
one_queue-handle = refl

replies_example :
    Replies one_queue e_invalidarg (create 9 0 true one_queue)
    × Replies one_queue e_invalidarg (create_composite 9 0 true one_queue)
    × Replies one_queue e_invalidarg (get_port 9 0 true one_queue)
    × Replies one_queue e_invalidarg (duplicate_handle 9 true one_queue)
    × Replies one_queue e_pointer (register_queue_monitor 9 0 0 true one_queue)
    × GivesCurrent one_queue true (get_current_process_task_queue true one_queue)
unfolding get_handle get_port_handle HandleTable.get HandleTable.create HandleTable.new lookup
    insert
replies_example = verdict-Replies one_queue 9 0 0 true

composite-ports_example :
    let w' =
      (create_composite 1 2 true
        (get_port 1 1 true (get_port 1 0 true one_queue).after).after).after in
    (dispatch_target 2 0 w' ≡ some 0) × (dispatch_target 2 1 w' ≡ some 1)
unfolding get_port create_composite create_port_handle get_port_handle create_handle get_handle
    kind_from_raw HandleTable.get HandleTable.create HandleTable.new lookup insert composite
composite-ports_example =
    composite-ports one_queue 1 0 1 2 2 new-IsValid one_queue-IsValid (omega arith) one_queue-handle
      refl refl refl
