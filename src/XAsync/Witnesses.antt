-- ===== src/XAsync/Witnesses.antt =====
-- The theorems on asynchronous calls, at an engine whose providers only answer.
use xgameruntime_rs.Base.{ℕ, ◌≡◌, refl, inl, none, some, Bool, true, false, List, [], ◌∷◌, arith}
use xgameruntime_rs.HandleTable
use xgameruntime_rs.Results.{s_ok}
use xgameruntime_rs.TaskQueue.Modes.{manual}
use xgameruntime_rs.TaskQueue.Port.{default}
use xgameruntime_rs.TaskQueue.Queue.{PortContext}
use xgameruntime_rs.XAsync.Block.{
  XAsyncOp, do_work, get_result, cleanup, XAsyncBlock, signature, read_internal, write_internal,
  clear_internal, zeros, to_ne_bytes, from_ne_bytes,
}
use xgameruntime_rs.XAsync.Block.RoundTrip.{read_internal-write_internal}
use xgameruntime_rs.XAsync.Engine.{
  AsyncState, Engine, Environment, XAsyncProviderData, inner_of, state_of, work_callback, nested,
}
use xgameruntime_rs.XAsync.Engine.Exports.{xasync_get_result}
use xgameruntime_rs.XAsync.Engine.Invariant.{Inv, Later, Respects, Keeps-refl}
use xgameruntime_rs.XAsync.Engine.Late.{passive, work_after_cleanup, cleared-no_state}
use xgameruntime_rs.XAsync.Engine.Sessions.{
  Event, begins, schedules, completes, polls, gets_result, cancels, perform_all, perform_all-Keeps,
}

abbrev answers : ℕ → XAsyncOp → XAsyncProviderData → ℕ
answers f op given = 0

abbrev pub still : Environment
still = record {
  provider = λ f op given w. (0, w);
  routine = λ f block w. w;
  run = λ task canceled w. w;
  notify = λ m handle port w. w;
  now = λ w. 0;
  now_ms = λ w. 0;
  parallelism = none;
}

still-Respects : Respects still
still-Respects = record {
  provider = λ f op given w. Keeps-refl w;
  routine = λ f block w. Keeps-refl w;
  notify = λ m handle port w. Keeps-refl w;
  run = λ task canceled w. Keeps-refl w;
}

abbrev unused : PortContext
unused = record { port = 0; owner = 0; terminated = false }

abbrev pub empty_block : XAsyncBlock
empty_block = record { queue = 0; context = 0; callback = 0; internal = zeros 32 }

abbrev pub succeeded : Bool → AsyncState
succeeded cleaned_up = record {
  provider = 7;
  context = 0;
  identity = 0;
  queue = 0;
  began_ms = 0;
  block = 5;
  inner = record { status = s_ok; result_size = 4; canceled = false; cleaned_up = cleaned_up };
}

abbrev pub boot : Engine
boot = record {
  process = record {
    ports = λ _. record { mode = manual; state = default };
    next_port = 0;
    queues = λ _. record {
      work_context = unused;
      completion_context = unused;
      monitors = [];
      next_token = 1;
      canonical_handle = none;
    };
    next_queue = 0;
    next_context_id = 1;
    queue_handles = HandleTable.new;
    port_handles = HandleTable.new;
    process_queue = none;
    process_queue_handle = none;
  };
  states = λ _. succeeded false;
  next_state = 1;
  blocks = λ _. empty_block;
  names = [];
  current = none;
  boxes = λ _. (0, 0);
  next_box = 0;
  log = [];
  helpers = λ context. none;
  jobs = [];
  memory = λ address. 0;
}

boot-no_state : (block : ℕ) → state_of block boot ≡ none
unfolding clear_internal
boot-no_state block = cleared-no_state block empty_block boot refl

boot-Inv : Inv boot
boot-Inv = record {
  once = λ ref h. refl;
  fresh = λ ref h. refl;
  attached = λ block ref e. cc (boot-no_state block);
}

abbrev session : List Event
session =
    begins 5 0 0 0 7 0
    ∷ schedules 5 0
    ∷ completes 5 0 4
    ∷ polls 5 false
    ∷ gets_result 5 0 4 8
    ∷ cancels 5
    ∷ []

perform_all_example :
    Inv (perform_all (nested 3 still) session boot)
    × Later boot.next_state boot (perform_all (nested 3 still) session boot)
perform_all_example = perform_all-Keeps 3 still still-Respects session boot boot-Inv

read_internal_example :
    (read_internal (write_internal empty_block 77) ≡ (signature, 77))
    × (read_internal (clear_internal empty_block) ≡ (0, 0))
read_internal_example = read_internal-write_internal empty_block 77 (omega arith)

-- Block 5 drives call 3, which has succeeded.
abbrev pub driven : Engine
driven = record boot { next_state = 9; blocks = λ _. write_internal empty_block 3 }

pub driven-state : state_of 5 driven ≡ some 3
unfolding state_of read_internal write_internal to_ne_bytes from_ne_bytes
driven-state = refl

work_after_cleanup_example :
    let done = (xasync_get_result (passive answers still) 5 0 4 8 driven).2 in
    let late = work_callback (passive answers still) 3 false done in
    (state_of 5 done ≡ none)
    × ((inner_of 3 done).cleaned_up ≡ true)
    × ((inner_of 3 done).status ≡ s_ok)
    × (late.log ≡ (3, do_work) ∷ (3, cleanup) ∷ (3, get_result) ∷ [])
    × (late.states ≡ done.states)
work_after_cleanup_example =
    work_after_cleanup still answers 5 0 4 8 3 driven driven-state refl refl refl (omega arith)
      (inl refl)
