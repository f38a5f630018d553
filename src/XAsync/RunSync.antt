-- ===== src/XAsync/RunSync.antt =====
-- src/com/xasync/mod.rs, `run_sync_helper`: the provider that runs the blocking body of the crate's
-- own calls on a worker. Whether `RUN_SYNC_QUEUE` takes a job is an argument, and so is what the
-- body returns, its payload as the bytes of `T`. The interface that `complete` looks up is found: it
-- is this library's own.
pub mod Completing
pub mod Handover
pub mod Outcome
pub mod Polling
pub mod Routing
pub mod Start
pub mod Witnesses
use xgameruntime_rs.Base.{
  ℕ, Option, none, some, Bool, true, false, List, [], ◌∷◌, ◌++◌, ◌==◌, if◌then◌else◌,
}
use xgameruntime_rs.Base.Heap.{Heap, update}
use xgameruntime_rs.Base.Memory.{write_bytes}
use xgameruntime_rs.Results.{Result, ok, err, s_ok, e_abort, e_pointer}
use xgameruntime_rs.XAsync.Block.{XAsyncOp, begin, do_work, get_result, cancel, cleanup}
use xgameruntime_rs.XAsync.Engine.{ContextHelper, Engine, Environment, XAsyncProviderData}
use xgameruntime_rs.XAsync.Engine.Exports.{xasync_begin, xasync_complete}

-- The context that `run_sync` makes.
unfoldable pub new_helper : ContextHelper
new_helper = record { result = e_abort; canceled = false; payload = none }

-- `run_sync_helper`, as the number of a provider function.
abbrev pub run_sync_helper_fn : ℕ
run_sync_helper_fn = 4

-- What the body returned, in the context.
unfoldable pub record_result : Result (List ℕ) → ContextHelper → ContextHelper
record_result (ok value) h = record h { result = s_ok; payload = some value }
record_result (err hr) h = record h { result = hr }

-- What the worker leaves in the context, canceled or not.
unfoldable pub settle_helper : Bool → Result (List ℕ) → ContextHelper → ContextHelper
unfolding record_result
settle_helper true outcome h = record h { result = e_abort }
settle_helper false outcome h = record_result outcome h

abbrev pub put_helper : ℕ → Option ContextHelper → Engine → Engine
put_helper context h w = record w { helpers = update w.helpers context h }

-- The bytes that `GetResult` copies, if it copies any.
abbrev pub copied : ContextHelper → Option (List ℕ)
copied h = if h.result == s_ok then h.payload else none

abbrev pub copy_to : Option (List ℕ) → ℕ → Heap ℕ → Heap ℕ
copy_to none buffer m = m
copy_to (some bytes) buffer m = write_bytes bytes buffer m

-- `size` is `size_of::<T>()`.
module _ (env : Environment) (size : ℕ) where
  abbrev pub finish_call : ℕ → ℕ → ContextHelper → Engine → Engine
  finish_call context block h w =
      xasync_complete env block h.result size (put_helper context (some h) w)

  -- The body of a job. Its context outlives it.
  unfoldable pub run_sync_worker : Bool → Result (List ℕ) → ℕ → ℕ → Engine → Engine
  unfolding settle_helper xasync_complete
  run_sync_worker canceled outcome context block w = elim (w.helpers context) [
    | none ↦ w
    | some h ↦ finish_call context block (settle_helper canceled outcome h) w
  ]

  unfoldable pub begin_helper : Bool → Result (List ℕ) → ℕ → ℕ → ContextHelper → Engine → ℕ × Engine
  unfolding record_result xasync_complete
  begin_helper submitted outcome context block h w =
      if submitted
      then (s_ok, record w { jobs = w.jobs ++ ((context, block) ∷ []) })
      else (s_ok, finish_call context block (record_result outcome h) w)

  abbrev pub step_helper :
      Bool → Result (List ℕ) → XAsyncOp → XAsyncProviderData → ContextHelper → Engine → ℕ × Engine
  step_helper submitted outcome begin given h w =
      begin_helper submitted outcome given.context given.async_block h w
  step_helper submitted outcome do_work given h w = (s_ok, w)
  step_helper submitted outcome get_result given h w =
      (s_ok, record w { memory = copy_to (copied h) given.buffer w.memory })
  step_helper submitted outcome cancel given h w =
      (s_ok, put_helper given.context (some (record h { canceled = true })) w)
  step_helper submitted outcome cleanup given h w = (s_ok, put_helper given.context none w)

  unfoldable pub run_sync_helper :
      Bool → Result (List ℕ) → XAsyncOp → XAsyncProviderData → Engine → ℕ × Engine
  unfolding begin_helper
  run_sync_helper submitted outcome op given w = elim (w.helpers given.context) [
    | none ↦ (e_pointer, w)
    | some h ↦ step_helper submitted outcome op given h w
  ]

  -- The environment in which `run_sync_helper` is the provider.
  abbrev pub run_sync_env : Bool → Result (List ℕ) → Environment
  run_sync_env submitted outcome = record env {
    provider = λ f op given w. run_sync_helper submitted outcome op given w;
  }

  -- `run_sync`, which boxes a context at the address `context`. `name` is that of all these calls.
  unfoldable pub run_sync : Bool → Result (List ℕ) → ℕ → ℕ → ℕ → ℕ → Engine → ℕ × Engine
  unfolding new_helper
  run_sync submitted outcome block context name now_ms w =
      let (hr, w₁) =
        xasync_begin (run_sync_env submitted outcome) block context 0 name run_sync_helper_fn now_ms
          (put_helper context (some new_helper) w) in
      if block == 0
      then (s_ok, w)
      else if hr == s_ok
      then (s_ok, w₁)
      else (hr, put_helper context none w₁)
