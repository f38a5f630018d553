-- ===== src/XAsync/Engine.antt =====
-- src/com/xasync/core.rs: the state of each asynchronous call, and what completes it, hands it
-- back and cleans it up. `log` is the observer's: each invocation of a provider, with its call,
-- newest first. Provider and title code enter through an `Environment`.
pub mod Exports
pub mod Invariant
pub mod Late
pub mod Progress
pub mod Sessions
pub mod Steps
use xgameruntime_rs.Base.{
  ℕ, zero, suc, refl, Option, none, some, Bool, true, false, not, ◌||◌, ◌&&◌, List, [], ◌∷◌, ◌==◌,
  if◌then◌else◌,
}
use xgameruntime_rs.Base.Heap.{Heap, update}
use xgameruntime_rs.Base.Map.{Map, lookup, insert}
use xgameruntime_rs.Results.{s_ok, e_pending, e_abort}
use xgameruntime_rs.TaskQueue.Modes.{PortKind, work, completion}
use xgameruntime_rs.TaskQueue.Port.Calls.{accepted}
use xgameruntime_rs.TaskQueue.Port.{Task}
use xgameruntime_rs.TaskQueue.Queue.{Process, Monitor, default_process_queue, get_handle}
use xgameruntime_rs.TaskQueue.Queue.Calls.{Stage, submit}
use xgameruntime_rs.XAsync.Block.{
  XAsyncOp, do_work, cleanup, XAsyncBlock, signature, read_internal, clear_internal,
}

pub record Inner : Type 0 where
  pub status : ℕ
  pub result_size : ℕ
  pub canceled : Bool
  pub cleaned_up : Bool

-- `queue` is a reference, `block` the title's pointer.
pub record AsyncState : Type 0 where
  pub provider : ℕ
  pub context : ℕ
  pub identity : ℕ
  pub queue : ℕ
  pub began_ms : ℕ
  pub block : ℕ
  pub inner : Inner

-- `XsyncContextHelper` of src/com/xasync/mod.rs, less the body.
pub record ContextHelper : Type 0 where
  pub result : ℕ
  pub canceled : Bool
  pub payload : Option (List ℕ)

-- `names` is `BLOCK_NAMES`, with a name as the number that it is interned as, and `current` the
-- thread's `CURRENT_IDENTITY`. `boxes` are the `Completion`s that wait on completion ports: the
-- call, and the routine read from its block. `helpers` are the contexts of the crate's own calls,
-- `none` once freed, and `jobs` the submissions to `RUN_SYNC_QUEUE`, oldest first, each with its
-- context and block. `memory` is the title's.
pub record Engine : Type 0 where
  pub process : Process
  pub states : Heap AsyncState
  pub next_state : ℕ
  pub blocks : Heap XAsyncBlock
  pub names : Map ℕ
  pub current : Option ℕ
  pub boxes : Heap (ℕ × ℕ)
  pub next_box : ℕ
  pub log : List (ℕ × XAsyncOp)
  pub helpers : Heap (Option ContextHelper)
  pub jobs : List (ℕ × ℕ)
  pub memory : Heap ℕ

-- `XAsyncProviderData`.
pub record XAsyncProviderData : Type 0 where
  pub async_block : ℕ
  pub buffer_size : ℕ
  pub buffer : ℕ
  pub context : ℕ

-- `provider` runs a provider function, `routine` a completion routine, `run` a callback of a queue
-- and `notify` a monitor, whatever they do to the engine; `now` and `now_ms` are the clocks.
pub record Environment : Type 0 where
  pub provider : ℕ → XAsyncOp → XAsyncProviderData → Engine → ℕ × Engine
  pub routine : ℕ → ℕ → Engine → Engine
  pub run : Task → Bool → Engine → Engine
  pub notify : Monitor → ℕ → ℕ → Engine → Engine
  pub now : Engine → ℕ
  pub now_ms : Engine → ℕ
  pub parallelism : Option ℕ

-- The queues' part of the engine, and what they call back.
abbrev pub stage_of : Environment → Stage Engine
stage_of env = record {
  process = λ w. w.process;
  with_process = λ w p. record w { process = p };
  process-with_process = λ w p. refl;
  run = env.run;
  notify = env.notify;
  now = env.now;
  now_ms = env.now_ms;
  parallelism = env.parallelism;
}

-- The queues' callbacks that are the engine's own, as callback numbers.
abbrev pub work_callback_fn : ℕ
work_callback_fn = 1

abbrev pub completion_callback_fn : ℕ
completion_callback_fn = 2

abbrev pub set_state : ℕ → AsyncState → Engine → Engine
set_state ref s w = record w { states = update w.states ref s }

abbrev pub set_inner : ℕ → Inner → Engine → Engine
set_inner ref i w = set_state ref (record (w.states ref) { inner = i }) w

abbrev pub set_block : ℕ → XAsyncBlock → Engine → Engine
set_block ptr b w = record w { blocks = update w.blocks ptr b }

abbrev pub inner_of : ℕ → Engine → Inner
inner_of ref w = (w.states ref).inner

-- `state_of`: the call that a block drives, if any.
unfoldable pub state_of : ℕ → Engine → Option ℕ
state_of block w =
    let (sig, pointer) = read_internal (w.blocks block) in
    if block == 0
    then none
    else if not (sig == signature) || pointer == 0
    then none
    else some pointer

-- `take_state`: as `state_of`, and the block is cleared.
unfoldable pub take_state : ℕ → Engine → Option ℕ × Engine
unfolding state_of
take_state block w = elim (state_of block w) [
  | none ↦ (none, w)
  | some ref ↦ (some ref, set_block block (clear_internal (w.blocks block)) w)
]

abbrev pub name_block : ℕ → ℕ → Engine → Engine
name_block block name w = record w { names = insert block name w.names }

abbrev pub block_name : ℕ → Engine → Option ℕ
block_name block w = lookup block w.names

-- `queue_for`: the queue that a block names, or the process queue.
unfoldable pub queue_for : XAsyncBlock → Engine → Option ℕ × Engine
queue_for block w =
    if block.queue == 0
    then (let (queue, p) = default_process_queue w.process in
        (some queue, record w { process = p }))
    else (get_handle block.queue w.process, w)

module _ (env : Environment) where
  open env use {provider, routine}

  -- `AsyncState::invoke`.
  unfoldable pub invoke : ℕ → XAsyncOp → ℕ → ℕ → Engine → ℕ × Engine
  invoke ref op buffer buffer_size w =
      let s = w.states ref in
      provider s.provider op
        (record {
          async_block = s.block;
          buffer_size = buffer_size;
          buffer = buffer;
          context = s.context;
        })
        (record w { log = (ref, op) ∷ w.log })

  unfoldable pub cleanup_state : ℕ → Engine → Engine
  cleanup_state ref w =
      let i = inner_of ref w in
      if i.cleaned_up
      then w
      else (let w₁ =
            (invoke ref cleanup 0 0 (set_inner ref (record i { cleaned_up = true }) w)).1 in
          (take_state (w₁.states ref).block w₁).1)

  -- `completion_callback`: the completion routine of a call, with the thread's identity set.
  unfoldable pub completion_callback : ℕ → Engine → Engine
  completion_callback box w =
      let (ref, callback) = w.boxes box in
      let block = (w.states ref).block in
      let w₁ = routine callback block (record w { current = block_name block w }) in
      record w₁ { current = w.current }

  -- Hands a completion to the call's completion port, or runs it here if the port is gone.
  unfoldable pub deliver : ℕ → ℕ → Engine → Engine
  deliver ref callback w =
      let box = w.next_box in
      let boxed = record w { boxes = update w.boxes box (ref, callback); next_box = suc box } in
      let (outcome, w₁) =
        submit (stage_of env) (w.states ref).queue completion box completion_callback_fn 0 boxed in
      if accepted outcome then w₁ else completion_callback box w₁

  -- The first completion of a call settles it; a later one is ignored.
  unfoldable pub complete_state : ℕ → ℕ → ℕ → Engine → Engine
  complete_state ref result required_buffer_size w =
      let i = inner_of ref w in
      let block = (w.states ref).block in
      let callback = (w.blocks block).callback in
      if i.status == e_pending
      then (let w₁ =
            set_inner ref (record i { status = result; result_size = required_buffer_size }) w in
          if block == 0 || callback == 0 then w₁ else deliver ref callback w₁)
      else w

  -- One `DoWork` pass.
  unfoldable pub work_callback : ℕ → Bool → Engine → Engine
  work_callback ref true w = complete_state ref e_abort 0 w
  work_callback ref false w =
      let name = block_name (w.states ref).block w in
      let (hr, w₁) = invoke ref do_work 0 0 (record w { current = name }) in
      let w₂ = record w₁ { current = w.current } in
      if hr == e_pending then w₂ else complete_state ref hr 0 w₂

  -- A callback that a queue runs: one of the engine's own, or the title's.
  unfoldable pub run_task : Task → Bool → Engine → Engine
  run_task task canceled w =
      if task.callback == work_callback_fn
      then work_callback task.context canceled w
      else if task.callback == completion_callback_fn
      then completion_callback task.context w
      else env.run task canceled w

-- The environment in which the queues run the engine's own callbacks, to a depth of inline calls
-- within inline calls.
unfoldable pub nested : ℕ → Environment → Environment
nested zero env = env
nested (suc depth) env = let inner = nested depth env in record env { run = run_task inner }
