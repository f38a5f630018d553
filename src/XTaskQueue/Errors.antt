-- ===== src/XTaskQueue/Errors.antt =====
-- How the `XTaskQueue*` calls that write a handle or a token succeed and fail.
use xgameruntime_rs.Base.{
  ℕ, ◌≡◌, ◌⊎◌, Option, none, some, Bool, true, false, not, ◌&&◌, leb, ◌==◌, if◌then◌else◌, arith,
}
use xgameruntime_rs.Results.{s_ok, e_pointer, e_invalidarg}
use xgameruntime_rs.TaskQueue.Modes.{mode_from_raw, kind_from_raw}
use xgameruntime_rs.TaskQueue.Queue.{Process, get_handle, get_port_handle, has_process_queue}
use xgameruntime_rs.XTaskQueue.{
  Reply, create, create_composite, get_port, duplicate_handle, register_queue_monitor,
  get_current_process_task_queue,
}

abbrev pub is_some : {A : Type 0} → Option A → Bool
is_some none = false
is_some (some a) = true

-- The status of a call with an out-pointer: a null pointer first, and then what the call names.
abbrev pub verdict : Bool → Bool → ℕ
verdict pointers named = if pointers then (if named then s_ok else e_invalidarg) else e_pointer

-- A call with this status wrote something if it succeeds, and otherwise nothing, and changed
-- nothing.
abbrev pub Replies : Process → ℕ → Reply Process → Type 0
Replies w status r =
    (r.status ≡ status) × (is_some r.out ≡ (status == s_ok)) × ((status ≡ s_ok) ⊎ (r.after ≡ w))

create-Replies :
    (w : Process) (a b : ℕ) (out : Bool)
    → Replies w (verdict out (leb a 3 && leb b 3)) (create a b out w)
unfolding create mode_from_raw
create-Replies w a b true = ground arith
create-Replies w a b false = ground arith

create_composite-Replies :
    (w : Process) (a b : ℕ) (out : Bool)
    → Replies w
        (verdict out (is_some (get_port_handle a w) && is_some (get_port_handle b w)))
        (create_composite a b out w)
unfolding create_composite
create_composite-Replies w a b out = ground arith

get_port-Replies :
    (w : Process) (a b : ℕ) (out : Bool)
    → Replies w (verdict out (is_some (get_handle a w) && leb b 1)) (get_port a b out w)
unfolding get_port kind_from_raw
get_port-Replies w a b out = ground arith

duplicate_handle-Replies :
    (w : Process) (a : ℕ) (out : Bool)
    → Replies w (verdict out (is_some (get_handle a w))) (duplicate_handle a out w)
unfolding duplicate_handle
duplicate_handle-Replies w a out = ground arith

register_queue_monitor-Replies :
    (w : Process) (a b c : ℕ) (out : Bool)
    → Replies w
        (verdict (out && not (c == 0)) (is_some (get_handle a w)))
        (register_queue_monitor a b c out w)
unfolding register_queue_monitor
register_queue_monitor-Replies w a b c out = ground arith

-- `XTaskQueueGetCurrentProcessTaskQueue` returns a `BOOL`: where it is false the handle written is 0.
abbrev pub GivesCurrent : Process → Bool → Reply Process → Type 0
GivesCurrent w out r =
    let there = out && has_process_queue w in
    (r.status ≡ (if there then 1 else 0))
    × (is_some r.out ≡ out)
    × ((there ≡ true) ⊎ (r.after ≡ w))
    × ((there ≡ true) ⊎ (out ≡ false) ⊎ (r.out ≡ some 0))

get_current_process-GivesCurrent :
    (w : Process) (out : Bool) → GivesCurrent w out (get_current_process_task_queue out w)
unfolding get_current_process_task_queue
get_current_process-GivesCurrent w out = ground arith

-- The calls that write a handle or a token. Each but the last gives `E_POINTER` where a pointer that
-- it needs is null (the out-pointer, and a monitor's callback), otherwise `E_INVALIDARG` where it
-- names a mode above 3, a port above 1, or a handle that does not resolve, and otherwise `S_OK`; it
-- writes just where it gives `S_OK`, and changes nothing where it does not. The last, for the
-- current process queue, returns true just where it has an out-pointer and there is such a queue;
-- otherwise it changes nothing, and writes 0 if it can.
pub verdict-Replies :
    (w : Process) (a b c : ℕ) (out : Bool)
    → Replies w (verdict out (leb a 3 && leb b 3)) (create a b out w)
      × Replies w
          (verdict out (is_some (get_port_handle a w) && is_some (get_port_handle b w)))
          (create_composite a b out w)
      × Replies w (verdict out (is_some (get_handle a w) && leb b 1)) (get_port a b out w)
      × Replies w (verdict out (is_some (get_handle a w))) (duplicate_handle a out w)
      × Replies w
          (verdict (out && not (c == 0)) (is_some (get_handle a w)))
          (register_queue_monitor a b c out w)
      × GivesCurrent w out (get_current_process_task_queue out w)
verdict-Replies w a b c out = (
  create-Replies w a b out,
  create_composite-Replies w a b out,
  get_port-Replies w a b out,
  duplicate_handle-Replies w a out,
  register_queue_monitor-Replies w a b c out,
  get_current_process-GivesCurrent w out,
)
