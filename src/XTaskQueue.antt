-- ===== src/XTaskQueue.antt =====
-- src/com/xasync/impl.rs, the `XTaskQueue*` methods of `IXAsync`: what a title calls, over handles.
-- An out-pointer is a flag, whether it was given, and the value written comes back as an option. A
-- callback pointer is null where it is 0. `XTaskQueueDispatch` gives the port that is dispatched;
-- `Port.Calls.dispatch` is the rest of it.
pub mod Errors
pub mod Handles
pub mod Current
mod Witnesses
use xgameruntime_rs.Base.{ℕ, Option, none, some, Bool, true, false, not, ◌==◌, if◌then◌else◌}
use xgameruntime_rs.Results.{s_ok, e_pointer, e_invalidarg, e_abort}
use xgameruntime_rs.TaskQueue.Modes.{DispatchMode, PortKind, mode_from_raw, kind_from_raw}
use xgameruntime_rs.TaskQueue.Port.Calls.{accepted, from_millis}
use xgameruntime_rs.TaskQueue.Queue.{
  Process, new_queue, composite, port_of, create_handle, get_handle, close_handle,
  create_port_handle, get_port_handle, register_monitor, unregister_monitor, default_process_queue,
  has_process_queue, set_process_queue,
}
use xgameruntime_rs.TaskQueue.Queue.Calls.{Stage, submit, terminate}

-- The status, what was written through the out-pointer, and the state.
pub record Reply (W : Type 0) : Type 0 where
  pub status : ℕ
  pub out : Option ℕ
  pub after : W

abbrev pub fails : {W : Type 0} → ℕ → W → Reply W
fails hr w = record { status = hr; out = none; after = w }

abbrev pub writes : {W : Type 0} → ℕ × W → Reply W
writes (value, w) = record { status = s_ok; out = some value; after = w }

-- Two lookups that must both succeed, as in `let (Some(a), Some(b)) = … else`.
abbrev pub both : {A B C : Type 0} → Option A → Option B → (A → B → C) → C → C
both (some a) (some b) f otherwise = f a b
both (some a) none f otherwise = otherwise
both none b f otherwise = otherwise

unfoldable pub create : ℕ → ℕ → Bool → Process → Reply Process
create work_mode completion_mode out w =
    if out
    then both (mode_from_raw work_mode) (mode_from_raw completion_mode)
        (λ work completion.
          let (queue, w') = new_queue work completion w in writes (create_handle queue w'))
        (fails e_invalidarg w)
    else fails e_pointer w

unfoldable pub create_composite : ℕ → ℕ → Bool → Process → Reply Process
create_composite work_port completion_port out w =
    if out
    then both (get_port_handle work_port w) (get_port_handle completion_port w)
        (λ work completion.
          let (queue, w') = composite work completion w in writes (create_handle queue w'))
        (fails e_invalidarg w)
    else fails e_pointer w

unfoldable pub get_port : ℕ → ℕ → Bool → Process → Reply Process
get_port handle port out w =
    if out
    then both (get_handle handle w) (kind_from_raw port)
        (λ queue kind. writes (create_port_handle (port_of kind queue w) w)) (fails e_invalidarg w)
    else fails e_pointer w

unfoldable pub duplicate_handle : ℕ → Bool → Process → Reply Process
duplicate_handle handle out w =
    if out
    then elim (get_handle handle w) [
      | none ↦ fails e_invalidarg w
      | some queue ↦ writes (create_handle queue w)
    ]
    else fails e_pointer w

-- `XTaskQueueDispatch`: the port that its call reaches, if the handle and the port are good.
unfoldable pub dispatch_target : ℕ → ℕ → Process → Option ℕ
dispatch_target handle port w =
    both (get_handle handle w) (kind_from_raw port) (λ queue kind. some (port_of kind queue w)) none

unfoldable pub register_queue_monitor : ℕ → ℕ → ℕ → Bool → Process → Reply Process
register_queue_monitor handle ctx callback out w =
    if out
    then if callback == 0 then fails e_pointer w else elim (get_handle handle w) [
      | none ↦ fails e_invalidarg w
      | some queue ↦ writes (register_monitor queue ctx callback w)
    ]
    else fails e_pointer w

unfoldable pub unregister_queue_monitor : ℕ → ℕ → Process → Process
unregister_queue_monitor handle token w = elim (get_handle handle w) [
  | none ↦ w
  | some queue ↦ unregister_monitor queue token w
]

-- The `BOOL` that it returns is the status.
unfoldable pub get_current_process_task_queue : Bool → Process → Reply Process
get_current_process_task_queue out w =
    if out
    then if has_process_queue w
      then (let (queue, w') = default_process_queue w in
          let (handle, w'') = create_handle queue w' in
          record { status = 1; out = some handle; after = w'' })
      else record { status = 0; out = some 0; after = w }
    else fails 0 w

unfoldable pub set_current_process_task_queue : ℕ → Process → Process
set_current_process_task_queue handle w = set_process_queue (get_handle handle w) w

module _ {W : Type 0} (stage : Stage W) where
  open stage use {process}

  unfoldable pub submit_delayed_callback : ℕ → ℕ → ℕ → ℕ → ℕ → W → ℕ × W
  submit_delayed_callback handle port delay_ms ctx callback w =
      if callback == 0
      then (e_pointer, w)
      else both (get_handle handle (process w)) (kind_from_raw port)
          (λ queue kind.
            let (outcome, w') = submit stage queue kind ctx callback (from_millis delay_ms) w in
            (if accepted outcome then s_ok else e_abort, w'))
          (e_invalidarg, w)

  unfoldable pub submit_callback : ℕ → ℕ → ℕ → ℕ → W → ℕ × W
  unfolding submit_delayed_callback
  submit_callback handle port ctx callback w = submit_delayed_callback handle port 0 ctx callback w

  -- `terminated` is what the termination callback does, if one was given. Without `wait` the same
  -- happens on a thread of its own, after the return.
  unfoldable pub terminate_queue : ℕ → Option (W → W) → W → ℕ × W
  terminate_queue handle terminated w = elim (get_handle handle (process w)) [
    | none ↦ (e_invalidarg, w)
    | some queue ↦
        let w' = terminate stage queue w in
        (s_ok, elim terminated [ none ↦ w' | some callback ↦ callback w' ])
  ]
