-- ===== src/Picker.antt =====
-- src/com/pickers/async_op.rs: the operation that a file pick hands back. A path is a number, a
-- completion handler too; `calls` is the observer's list of the handlers that were invoked, with the
-- status that each was given, newest first. `finish` and `set_completed` are each a lock hold and the
-- invocation that follows it.
pub mod Completion
pub mod Deferred
mod Witnesses
use xgameruntime_rs.Base.{
  ℕ, Option, none, some, Bool, true, false, not, List, [], ◌∷◌, if◌then◌else◌,
}
use xgameruntime_rs.Results.{Result, ok, err, s_ok, e_fail, e_illegal_method_call}

-- `AsyncStatus`.
pub data AsyncStatus : Type 0 where
  started completed canceled failed : AsyncStatus

-- `PickOperation`, with its `OperationState` and the observer's list.
pub record PickOperation : Type 0 where
  pub status : AsyncStatus
  pub error : ℕ
  pub picked : Option ℕ
  pub handler : Option ℕ
  pub calls : List (ℕ × AsyncStatus)

-- `OperationState::default`.
unfoldable pub new_operation : PickOperation
new_operation = record { status = started; error = s_ok; picked = none; handler = none; calls = [] }

abbrev pub is_started : AsyncStatus → Bool
is_started started = true
is_started completed = false
is_started canceled = false
is_started failed = false

-- The lock hold of `finish`: what is recorded.
unfoldable pub record_outcome : Result (Option ℕ) → PickOperation → PickOperation
record_outcome (ok picked) op = record op { status = completed; picked = picked }
record_outcome (err hr) op = record op { status = failed; error = hr }

-- `invoke`: the status is read when the handler is called.
unfoldable pub invoke_handler : ℕ → PickOperation → PickOperation
invoke_handler handler op = record op { calls = (handler, op.status) ∷ op.calls }

abbrev pub invoke_if_any : Option ℕ → PickOperation → PickOperation
invoke_if_any none op = op
invoke_if_any (some handler) op = invoke_handler handler op

unfoldable pub finish_pick : Result (Option ℕ) → PickOperation → PickOperation
unfolding record_outcome invoke_handler
finish_pick outcome op = let done = record_outcome outcome op in invoke_if_any done.handler done

unfoldable pub set_completed : Option ℕ → PickOperation → PickOperation
unfolding invoke_handler
set_completed handler op =
    let kept = record op { handler = handler } in
    if not (is_started op.status) then invoke_if_any handler kept else kept

-- What `GetResults` and `Completed` report: `none` is a null result with `S_OK`.
unfoldable pub get_results : PickOperation → Result (Option ℕ)
get_results op = elim op.status [
  | started ↦ err e_illegal_method_call
  | completed ↦ ok op.picked
  | canceled ↦ err e_illegal_method_call
  | failed ↦ err op.error
]

unfoldable pub error_code : PickOperation → ℕ
error_code op = op.error

-- `start`: `run_later` says whether the job was queued, and the job's end is `finish`, later.
unfoldable pub start_pick : Bool → PickOperation
unfolding new_operation finish_pick
start_pick queued = if not queued then finish_pick (err e_fail) new_operation else new_operation

-- `completed`: an operation that has finished already.
unfoldable pub completed_operation : Result (Option ℕ) → PickOperation
unfolding new_operation finish_pick
completed_operation outcome = finish_pick outcome new_operation
