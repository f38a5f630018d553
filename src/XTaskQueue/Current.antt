-- ===== src/XTaskQueue/Current.antt =====
-- The process's task queue, as a title sets and reads it.
use xgameruntime_rs.Base.{ℕ, ◌≡◌, refl, none, some, true, arith}
use xgameruntime_rs.HandleTable
use xgameruntime_rs.HandleTable.Laws.{IsValid, get-create, create_next}
use xgameruntime_rs.TaskQueue.Queue.{
  Process, create_handle, get_handle, default_process_queue, has_process_queue, set_process_queue,
}
use xgameruntime_rs.XTaskQueue.{get_current_process_task_queue, set_current_process_task_queue}

-- Where the handle table is valid: after a title sets the process queue by a good handle, reading
-- it succeeds and gives a handle for the same queue; after it sets it by a handle that does not
-- resolve, there is none, and reading writes 0, answers false and changes nothing.
set-get_current :
    (w : Process) (good bad queue : ℕ)
    → IsValid w.queue_handles
    → get_handle good w ≡ some queue
    → get_handle bad w ≡ none
    → let reads = get_current_process_task_queue true (set_current_process_task_queue good w) in
      let misses = get_current_process_task_queue true (set_current_process_task_queue bad w) in
      (reads.status ≡ 1)
      × ((handle : ℕ) × (reads.out ≡ some handle) × (get_handle handle reads.after ≡ some queue))
      × (misses.status ≡ 0)
      × (misses.out ≡ some 0)
      × (misses.after ≡ set_current_process_task_queue bad w)
unfolding get_current_process_task_queue set_current_process_task_queue set_process_queue
    has_process_queue default_process_queue create_handle get_handle
set-get_current w good bad queue v g b =
    let t = w.queue_handles in
    let handle = (HandleTable.create t queue).0 in
    rw (g, b)
      (
        refl,
        (handle, refl, ground (arith, get-create t queue handle v, create_next t queue)),
        refl,
        refl,
        refl,
      )
