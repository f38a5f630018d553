-- ===== src/XTaskQueue/Handles.antt =====
-- Queues through their handles.
use xgameruntime_rs.Base.{ℕ, ◌+◌, ◌<◌, ◌≡◌, ◌≢◌, refl, sym, ◌∙◌, none, some, true, arith, u64_mod}
use xgameruntime_rs.HandleTable
use xgameruntime_rs.HandleTable.Laws.{
  IsValid, create-IsValid, get-create, get-close, create_next, get-ne_next,
}
use xgameruntime_rs.TaskQueue.Modes.{work, completion, kind_from_raw}
use xgameruntime_rs.TaskQueue.Queue.{
  Process, port_of, composite, new_context, create_handle, get_handle, close_handle,
  create_port_handle, get_port_handle,
}
use xgameruntime_rs.XTaskQueue.{create_composite, get_port, duplicate_handle, dispatch_target}

-- Where the handle table is valid, duplicating a handle that resolves gives another handle, and
-- once the first is closed the copy still resolves to the queue and the first no more.
duplicate-close :
    (w : Process) (handle queue : ℕ)
    → IsValid w.queue_handles
    → get_handle handle w ≡ some queue
    → (copy : ℕ) × ((duplicate_handle handle true w).out ≡ some copy)
      × (copy ≢ handle)
      × (get_handle copy (close_handle handle (duplicate_handle handle true w).after) ≡ some queue)
      × (get_handle handle (close_handle handle (duplicate_handle handle true w).after) ≡ none)
unfolding duplicate_handle create_handle get_handle close_handle
duplicate-close w handle queue v e =
    let t = w.queue_handles in
    let copy = (HandleTable.create t queue).0 in
    let made = (HandleTable.create t queue).1 in
    let new = create_next t queue in
    let apart = get-ne_next t handle queue v e in
    (
      copy,
      rw e refl,
      λ same. apart (sym new ∙ same),
      ground (arith, e, new, apart, get-close made handle copy, get-create t queue copy v),
      ground (arith, e, get-close made handle handle),
    )

-- Where the handle tables are valid and the port handles not near their end: a title that fetches
-- the two ports of a queue and makes a composite of them, all successfully, gets a queue whose work
-- and completion reach exactly the ports of the first.
pub composite-ports :
    (w : Process) (handle queue work_port completion_port made : ℕ)
    → IsValid w.port_handles
    → IsValid w.queue_handles
    → w.port_handles.next + 1 < u64_mod
    → get_handle handle w ≡ some queue
    → (get_port handle 0 true w).out ≡ some work_port
    → (get_port handle 1 true (get_port handle 0 true w).after).out ≡ some completion_port
    → (create_composite work_port completion_port true
        (get_port handle 1 true (get_port handle 0 true w).after).after).out
      ≡ some made
    → let w' =
        (create_composite work_port completion_port true
          (get_port handle 1 true (get_port handle 0 true w).after).after).after in
      (dispatch_target made 0 w' ≡ some (port_of work queue w))
      × (dispatch_target made 1 w' ≡ some (port_of completion queue w))
unfolding get_port create_composite dispatch_target create_port_handle get_port_handle create_handle
    get_handle composite new_context kind_from_raw
composite-ports w handle queue work_port completion_port made pv qv small e r₁ r₂ r₃ =
    let p₀ = port_of work queue w in
    let p₁ = port_of completion queue w in
    let t₁ = (HandleTable.create w.port_handles p₀).1 in
    let v₁ = create-IsValid w.port_handles p₀ pv small in
    ground (
      arith,
      get-create w.port_handles p₀ work_port pv,
      create_next w.port_handles p₀,
      get-create t₁ p₁ work_port v₁,
      get-create t₁ p₁ completion_port v₁,
      create_next t₁ p₁,
      get-ne_next t₁ work_port p₀ v₁,
      get-create w.queue_handles w.next_queue made qv,
      create_next w.queue_handles w.next_queue,
    )
