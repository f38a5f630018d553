-- ===== src/TaskQueue/Queue/ProcessQueue.antt =====
-- The process queue and its cached handle.
use xgameruntime_rs.Base.{ℕ, ◌≡◌, ◌≢◌, refl, sym, subst, ◌∙◌, none, some, true, arith, ==_refl}
use xgameruntime_rs.HandleTable
use xgameruntime_rs.HandleTable.Laws.{IsValid, get-create}
use xgameruntime_rs.TaskQueue.Queue.{
  Process, create_handle, get_handle, default_process_queue, process_queue_handle,
  set_process_queue, is_process_queue, has_process_queue,
}

-- Once the process queue has been asked for there is one: a second call gives the same queue and
-- changes nothing, and that queue is told to be the process queue.
pub default_process_queue_lem :
    (p : Process)
    → let (queue, p') = default_process_queue p in
      (default_process_queue p' ≡ (queue, p'))
      × (has_process_queue p' ≡ true)
      × (is_process_queue queue p' ≡ (true, p'))
unfolding default_process_queue has_process_queue is_process_queue
default_process_queue_lem p = ground arith

default_installed :
    (p : Process)
    → ((default_process_queue p).1.process_queue ≡ some (default_process_queue p).0)
      × ((default_process_queue p).1.queue_handles ≡ p.queue_handles)
unfolding default_process_queue
default_installed p = ground arith

default_of_installed :
    (p : Process) (queue : ℕ) → p.process_queue ≡ some queue → default_process_queue p ≡ (queue, p)
unfolding default_process_queue
default_of_installed p queue e = ground arith

-- Where the handle table is valid and no handle is cached, asking for the process queue's handle
-- gives one that is not 0 and resolves to the process queue; the next call gives the same handle
-- and changes nothing.
pub process_queue_handle_lem :
    (p : Process)
    → IsValid p.queue_handles
    → p.process_queue_handle ≡ none
    → let (handle, p') = process_queue_handle p in
      (get_handle handle p' ≡ some (default_process_queue p').0)
      × (handle ≢ 0)
      × (process_queue_handle p' ≡ (handle, p'))
unfolding HandleTable.create create_handle get_handle
process_queue_handle_lem p v e =
    let queue = (default_process_queue p).0 in
    let p₁ = (default_process_queue p).1 in
    let (installed, same) = default_installed p in
    let handle = p₁.queue_handles.next in
    let table = (HandleTable.create p₁.queue_handles queue).1 in
    let p' : Process = record p₁ { queue_handles = table; process_queue_handle = some handle } in
    let made : process_queue_handle p ≡ (handle, p') = unfold process_queue_handle in rw e refl in
    let got = get-create p₁.queue_handles queue handle (subst IsValid (sym same) v) in
    rw (made, default_of_installed p' queue installed)
      (got.0 ∙ rw (==_refl handle) refl, got.1, unfold process_queue_handle in refl)

-- Where the cached handle resolves to a queue, installing another one keeps it: the process queue
-- is the new one, but the handle that is given in its name does not resolve to it.
pub set_process_queue-stale :
    (p : Process) (handle old queue : ℕ)
    → p.process_queue_handle ≡ some handle
    → get_handle handle p ≡ some old
    → old ≢ queue
    → let p' = set_process_queue (some queue) p in
      ((default_process_queue p').0 ≡ queue)
      × ((process_queue_handle p').0 ≡ handle)
      × (get_handle handle p' ≢ some (default_process_queue p').0)
unfolding set_process_queue default_process_queue process_queue_handle get_handle
set_process_queue-stale p handle old queue e g ne = ground arith
