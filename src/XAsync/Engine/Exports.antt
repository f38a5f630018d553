-- ===== src/XAsync/Engine/Exports.antt =====
-- src/com/xasync/impl.rs, the `XAsync*` methods of `IXAsync`.
use xgameruntime_rs.Base.{
  ℕ, suc, Option, none, some, Bool, true, false, not, ◌||◌, ◌&&◌, List, [], ◌∷◌, ltb, ◌==◌,
  if◌then◌else◌,
}
use xgameruntime_rs.Results.{
  s_ok, e_pending, e_abort, e_pointer, e_invalidarg, e_illegal_method_call, e_not_sufficient_buffer,
}
use xgameruntime_rs.TaskQueue.Modes.{
  DispatchMode, manual, thread_pool, serialized_thread_pool, immediate, work,
}
use xgameruntime_rs.TaskQueue.Port.Calls.{accepted, from_millis}
use xgameruntime_rs.TaskQueue.Queue.{port_of, get_handle, process_queue_handle, is_process_queue}
use xgameruntime_rs.TaskQueue.Queue.Calls.{submit}
use xgameruntime_rs.XAsync.Block.{
  XAsyncOp, begin, do_work, get_result, cancel, cleanup, write_internal,
}
use xgameruntime_rs.XAsync.Engine.{
  AsyncState, Engine, Environment, XAsyncProviderData, stage_of, work_callback_fn, set_state,
  set_inner, set_block, inner_of, state_of, name_block, queue_for, invoke, cleanup_state,
  complete_state,
}

abbrev pub is_manual : DispatchMode → Bool
is_manual manual = true
is_manual thread_pool = false
is_manual serialized_thread_pool = false
is_manual immediate = false

-- `run_provider`, as the number of a provider function.
abbrev pub run_provider_fn : ℕ
run_provider_fn = 3

-- A block with no queue is given the process queue's handle. One whose queue has a manual work
-- port and is not the process queue is moved to the process queue. The queue to use, or a failure.
unfoldable pub route_block : ℕ → ℕ → Engine → Option ℕ × Engine
route_block block queue w =
    let b = w.blocks block in
    if b.queue == 0
    then (let (handle, p) = process_queue_handle w.process in
        (some queue, set_block block (record b { queue = handle }) (record w { process = p })))
    else if is_manual (w.process.ports (port_of work queue w.process)).mode
    then (let (is_current, p) = is_process_queue queue w.process in
        if is_current
        then (some queue, record w { process = p })
        else (let (handle, p') = process_queue_handle p in
            (
              get_handle handle p',
              set_block block (record b { queue = handle }) (record w { process = p' }),
            )))
    else (some queue, w)

-- A fresh call, attached to its block.
unfoldable pub new_state : ℕ → ℕ → ℕ → ℕ → ℕ → ℕ → Engine → ℕ × Engine
new_state provider context identity queue now_ms block w =
    let ref = w.next_state in
    let s : AsyncState = record {
      provider = provider;
      context = context;
      identity = identity;
      queue = queue;
      began_ms = now_ms;
      block = block;
      inner = record { status = e_pending; result_size = 0; canceled = false; cleaned_up = false };
    } in
    (
      ref,
      set_block block (write_internal (w.blocks block) ref)
          (record (set_state ref s w) { next_state = suc ref }),
    )

module _ (env : Environment) where
  -- Drives `Begin`; a call whose `Begin` fails is torn down here.
  unfoldable pub start : ℕ → Engine → ℕ × Engine
  start ref w =
      let (hr, w₁) = invoke env ref begin 0 0 w in
      if hr == s_ok
      then (s_ok, w₁)
      else (hr, cleanup_state env ref (set_inner ref (record (inner_of ref w₁) { status = hr }) w₁))

  unfoldable pub begin_on : ℕ → ℕ → ℕ → ℕ → ℕ → ℕ → Engine → ℕ × Engine
  begin_on block context identity provider now_ms queue w =
      let (routed, w₁) = route_block block queue w in
      elim routed [
        | none ↦ (e_illegal_method_call, w₁)
        | some target ↦
            let (ref, w₂) = new_state provider context identity target now_ms block w₁ in
            start ref w₂
      ]

  unfoldable pub begin_named : ℕ → ℕ → ℕ → ℕ → ℕ → Engine → ℕ × Engine
  begin_named block context identity provider now_ms w =
      if block == 0
      then (e_pointer, w)
      else if provider == 0
      then (e_pointer, w)
      else elim (state_of block w) [
        | some _ ↦ (e_invalidarg, w)
        | none ↦
            let (queue, w₁) = queue_for (w.blocks block) w in
            elim queue [
              | none ↦ (e_invalidarg, w₁)
              | some ref ↦ begin_on block context identity provider now_ms ref w₁
            ]
      ]

  -- `XAsyncBegin`. `name` is the interned name, 0 where none is given.
  unfoldable pub xasync_begin : ℕ → ℕ → ℕ → ℕ → ℕ → ℕ → Engine → ℕ × Engine
  unfolding begin_named
  xasync_begin block context identity name provider now_ms w =
      begin_named block context identity provider now_ms
        (if name == 0 then w else name_block block name w)

  -- A `DoWork` pass on the call's work port: whether the queue took it.
  unfoldable pub submit_work : ℕ → ℕ → Engine → Bool × Engine
  submit_work ref delay w =
      let (outcome, w₁) =
        submit (stage_of env) (w.states ref).queue work ref work_callback_fn delay w in
      (accepted outcome, w₁)

  -- `XAsyncSchedule`.
  unfoldable pub xasync_schedule : ℕ → ℕ → Engine → ℕ × Engine
  xasync_schedule block delay_in_ms w = elim (state_of block w) [
    | none ↦ (e_illegal_method_call, w)
    | some ref ↦
        let (taken, w₁) = submit_work ref (from_millis delay_in_ms) w in
        if taken then (s_ok, w₁) else (e_abort, complete_state env ref e_abort 0 w₁)
  ]

  -- `XAsyncComplete`.
  unfoldable pub xasync_complete : ℕ → ℕ → ℕ → Engine → Engine
  xasync_complete block result required_buffer_size w = elim (state_of block w) [
    | none ↦ w
    | some ref ↦ complete_state env ref result required_buffer_size w
  ]

  -- `while inner.status == E_PENDING`, over the engines that the waits return with.
  unfoldable pub wait_completed : ℕ → Engine → List Engine → Option Engine
  wait_completed ref w [] = if (inner_of ref w).status == e_pending then none else some w
  wait_completed ref w (woken ∷ later) =
      let rest = wait_completed ref woken later in
      if (inner_of ref w).status == e_pending then rest else some w

  -- A call without a result payload is over once its status is known.
  unfoldable pub report_status : ℕ → Engine → ℕ × Engine
  report_status ref w =
      let i = inner_of ref w in
      (
        i.status,
        if not (i.status == e_pending) && i.result_size == 0 then cleanup_state env ref w else w,
      )

  -- `XAsyncGetStatus`; `none` while it waits. Inside a dispatch it never waits.
  unfoldable pub xasync_get_status : ℕ → Bool → Bool → List Engine → Engine → Option (ℕ × Engine)
  unfolding report_status wait_completed
  xasync_get_status block wait in_dispatch wakes w = elim (state_of block w) [
    | none ↦ some (e_illegal_method_call, w)
    | some ref ↦
        if wait && not in_dispatch
        then elim (wait_completed ref w wakes) [
          | none ↦ none
          | some woken ↦ some (report_status ref woken)
        ]
        else some (report_status ref w)
  ]

  -- `XAsyncGetResultSize`: the status, and the size if it is written.
  unfoldable pub xasync_get_result_size : ℕ → Bool → Engine → ℕ × Option ℕ
  xasync_get_result_size block out w =
      if out
      then elim (state_of block w) [
        | none ↦ (e_illegal_method_call, none)
        | some ref ↦
            let i = inner_of ref w in
            if i.status == e_pending then (e_pending, none) else (i.status, some i.result_size)
      ]
      else (e_pointer, none)

  -- The end of `XAsyncGetResult`: the provider fills the buffer, and the call is over.
  unfoldable pub hand_over_result : ℕ → ℕ → ℕ → Engine → ℕ × Option ℕ × Engine
  hand_over_result ref buffer_size buffer w =
      let (hr, w₁) = invoke env ref get_result buffer buffer_size w in
      (hr, some (inner_of ref w).result_size, cleanup_state env ref w₁)

  -- `XAsyncGetResult`: the status, the size if it is written to `buffer_used`, and the state.
  unfoldable pub xasync_get_result : ℕ → ℕ → ℕ → ℕ → Engine → ℕ × Option ℕ × Engine
  xasync_get_result block identity buffer_size buffer w = elim (state_of block w) [
    | none ↦ (e_illegal_method_call, none, w)
    | some ref ↦
        let i = inner_of ref w in
        if i.status == e_pending
        then (e_pending, none, w)
        else if not (i.status == s_ok)
        then (i.status, none, cleanup_state env ref w)
        else if not (identity == 0) && not (identity == (w.states ref).identity)
        then (e_invalidarg, none, w)
        else if ltb buffer_size i.result_size
        then (e_not_sufficient_buffer, none, w)
        else hand_over_result ref buffer_size buffer w
  ]

  -- The pass in which a canceled provider is to complete itself.
  unfoldable pub nudge : ℕ → Engine → Engine
  unfolding submit_work
  nudge ref w =
      if (inner_of ref w).status == e_pending
      then (let (taken, w₁) = submit_work ref 0 w in
          if taken then w₁ else complete_state env ref e_abort 0 w₁)
      else w

  -- `XAsyncCancel`.
  unfoldable pub xasync_cancel : ℕ → Engine → Engine
  unfolding nudge
  xasync_cancel block w = elim (state_of block w) [
    | none ↦ w
    | some ref ↦
        let i = inner_of ref w in
        if not (i.status == e_pending) || i.canceled
        then w
        else nudge ref
            (invoke env ref cancel 0 0 (set_inner ref (record i { canceled = true }) w)).1
  ]

  -- `run_provider`, the provider of `XAsyncRun`: `work` is what the title's function does.
  unfoldable pub run_provider :
      (Engine → ℕ × Engine) → XAsyncOp → XAsyncProviderData → Engine → ℕ × Engine
  unfolding submit_work
  run_provider work_fn begin given w = elim (state_of given.async_block w) [
    | none ↦ (e_illegal_method_call, w)
    | some ref ↦ let (taken, w₁) = submit_work ref 0 w in (if taken then s_ok else e_abort, w₁)
  ]
  run_provider work_fn do_work given w = work_fn w
  run_provider work_fn get_result given w = (s_ok, w)
  run_provider work_fn cancel given w = (s_ok, w)
  run_provider work_fn cleanup given w = (s_ok, w)

  -- `XAsyncRun`: `work_fn` is the title's function, which the provider finds as its context.
  unfoldable pub xasync_run : ℕ → ℕ → ℕ → Engine → ℕ × Engine
  unfolding xasync_begin
  xasync_run block work_fn now_ms w =
      if work_fn == 0
      then (e_pointer, w)
      else xasync_begin block work_fn 0 0 run_provider_fn now_ms w
