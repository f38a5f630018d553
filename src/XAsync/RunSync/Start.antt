-- ===== src/XAsync/RunSync/Start.antt =====
-- `run_sync` begins a call.
use xgameruntime_rs.Base.{
  ℕ, ◌≤◌, ◌<◌, subst, ◌≡◌, ◌≢◌, refl, ap, ◌∙◌, none, some, Bool, true, false, List, [], ◌∷◌, ◌++◌,
  ◌==◌, if◌then◌else◌, Bool-cases, inl, inr, arith, ==_refl, u64_mod,
}
use xgameruntime_rs.Base.Map.{Map, insert}
use xgameruntime_rs.Results.{Result, s_ok, e_pending, e_abort}
use xgameruntime_rs.XAsync.Block.{begin, write_internal}
use xgameruntime_rs.XAsync.Block.RoundTrip.{read_internal-write_internal}
use xgameruntime_rs.XAsync.Engine.{
  ContextHelper, Engine, Environment, inner_of, name_block, state_of, invoke,
}
use xgameruntime_rs.XAsync.Engine.Exports.{
  new_state, start, begin_named, xasync_begin, xasync_get_result,
}
use xgameruntime_rs.XAsync.RunSync.{
  copy_to, new_helper, put_helper, run_sync_helper, run_sync_env, run_sync_helper_fn,
  run_sync_worker, run_sync,
}
use xgameruntime_rs.XAsync.RunSync.Handover.{bytes_of, result_of, unrun}
use xgameruntime_rs.XAsync.RunSync.Outcome.{Settles, Ends, get_result-run_sync_worker}
use xgameruntime_rs.XAsync.RunSync.Polling.{Drives}
use xgameruntime_rs.XAsync.RunSync.Routing.{Ready, begin_named-routed}

module _ (env : Environment) (size : ℕ) (outcome : Result (List ℕ)) where
  abbrev own : Environment
  own = run_sync_env env size true outcome

  invoke-begin :
      (ref : ℕ) (h : ContextHelper) (w : Engine)
      → w.helpers (w.states ref).context ≡ some h
      → invoke own ref begin 0 0 w ≡ (
        s_ok,
        record w {
          log = (ref, begin) ∷ w.log;
          jobs = w.jobs ++ ((w.states ref).context, (w.states ref).block) ∷ [];
        },
      )
  unfolding invoke run_sync_helper
  invoke-begin ref h w held = rw held refl

  start-begun :
      (ref : ℕ) (h : ContextHelper) (w : Engine)
      → w.helpers (w.states ref).context ≡ some h
      → start own ref w ≡ (
        s_ok,
        record w {
          log = (ref, begin) ∷ w.log;
          jobs = w.jobs ++ ((w.states ref).context, (w.states ref).block) ∷ [];
        },
      )
  unfolding start
  start-begun ref h w held = rw (invoke-begin ref h w held) refl

-- The engine that `XAsyncBegin` finds, whatever the names, and the one with the new call.
abbrev boxed : ℕ → Map ℕ → Engine → Engine
boxed context names w = record (put_helper context (some new_helper) w) { names = names }

abbrev made : ℕ → ℕ → ℕ → ℕ → Engine → Engine
made block context queue now_ms w = (new_state run_sync_helper_fn context 0 queue now_ms block w).1

abbrev begun : ℕ → ℕ → ℕ → ℕ → Map ℕ → Engine → Engine
begun block context queue now_ms names w =
    let ref = w.next_state in
    let new = made block context queue now_ms (boxed context names w) in
    record new {
      log = (ref, begin) ∷ w.log;
      jobs = w.jobs ++ ((new.states ref).context, (new.states ref).block) ∷ [];
    }

Ready-boxed :
    (block context queue : ℕ) (names : Map ℕ) (w : Engine)
    → Ready block queue w
    → Ready block queue (boxed context names w)
unfolding state_of
Ready-boxed block context queue names w r = record {
  given = r.given;
  idle = r.idle;
  named = r.named;
  live = r.live;
  pooled = r.pooled;
  polled = r.polled;
}

begun-found :
    (block context queue now_ms : ℕ) (names : Map ℕ) (w : Engine)
    → block ≢ 0
    → w.next_state ≢ 0
    → w.next_state < u64_mod
    → state_of block (begun block context queue now_ms names w) ≡ some w.next_state
unfolding state_of new_state
begun-found block context queue now_ms names w given real small =
    let b : (block == 0) ≡ false = ground (arith, given) in
    let n : (w.next_state == 0) ≡ false = ground (arith, real) in
    let read = (read_internal-write_internal (w.blocks block) w.next_state small).0 in
    rw (==_refl block, b, ap (λ x. x.0) read, ap (λ x. x.1) read, n) refl

begun-Drives :
    (block context queue now_ms : ℕ) (names : Map ℕ) (w : Engine)
    → Ready block queue w
    → w.next_state ≢ 0
    → w.next_state < u64_mod
    → Drives block w.next_state (unrun e_abort false) (begun block context queue now_ms names w)
unfolding new_state new_helper write_internal
begun-Drives block context queue now_ms names w r real small = record {
  found = begun-found block context queue now_ms names w r.given real small;
  same = rw (==_refl w.next_state) refl;
  open_ = rw (inner_of, ==_refl w.next_state) refl;
  held = rw (==_refl w.next_state, ==_refl context) refl;
  polled = rw (==_refl block) r.polled;
}

begin_named-begun :
    (env : Environment) (size : ℕ) (outcome : Result (List ℕ)) (block context queue now_ms : ℕ)
    (names : Map ℕ) (w : Engine)
    → Ready block queue w
    → begin_named
        (run_sync_env env size true outcome)
        block
        context
        0
        run_sync_helper_fn
        now_ms
        (boxed context names w)
      ≡ (s_ok, begun block context queue now_ms names w)
unfolding new_state
begin_named-begun env size outcome block context queue now_ms names w r =
    let x = boxed context names w in
    let new = made block context queue now_ms x in
    let held : new.helpers (new.states w.next_state).context ≡ some new_helper =
      rw (==_refl w.next_state, ==_refl context) refl in
    begin_named-routed (run_sync_env env size true outcome) block context 0 run_sync_helper_fn
      now_ms queue x (Ready-boxed block context queue names w r) (ground arith)
    ∙ start-begun env size outcome w.next_state new_helper new held

-- The names once the call's is interned.
abbrev naming : ℕ → ℕ → Map ℕ → Map ℕ
naming block name names = if name == 0 then names else insert block name names

name_block-boxed :
    (block context name : ℕ) (w : Engine)
    → (if name == 0
        then put_helper context (some new_helper) w
        else name_block block name (put_helper context (some new_helper) w))
      ≡ boxed context (naming block name w.names) w
name_block-boxed block context name w = elim (Bool-cases (name == 0)) [
  | inl e ↦ rw e refl
  | inr e ↦ rw e refl
]

xasync_begin-named :
    (env : Environment) (block context name provider now_ms : ℕ) (w : Engine)
    → xasync_begin env block context 0 name provider now_ms (put_helper context (some new_helper) w)
      ≡ begin_named env block context 0 provider now_ms
          (boxed context (naming block name w.names) w)
unfolding xasync_begin
xasync_begin-named env block context name provider now_ms w =
    ap (begin_named env block context 0 provider now_ms) (name_block-boxed block context name w)

run_sync-begun :
    (env : Environment) (size : ℕ) (outcome : Result (List ℕ)) (block context name now_ms queue : ℕ)
    (w : Engine)
    → Ready block queue w
    → run_sync env size true outcome block context name now_ms w
      ≡ (s_ok, begun block context queue now_ms (naming block name w.names) w)
unfolding run_sync
run_sync-begun env size outcome block context name now_ms queue w r =
    let given : (block == 0) ≡ false = ground (arith, r.given) in
    let named =
      xasync_begin-named (run_sync_env env size true outcome) block context name run_sync_helper_fn
        now_ms w in
    let b =
      named
      ∙ begin_named-begun env size outcome block context queue now_ms (naming block name w.names) w
          r in
    rw (given, ap (λ x. x.0) b, ap (λ x. x.1) b) refl

-- `run_sync` on a block that is ready, where `RUN_SYNC_QUEUE` takes the job: it succeeds, and the
-- block drives a new call with a context of its own, which is pending, while its job waits as the
-- last. The next call's number is a pointer, so it is not 0 and below 2^64.
run_sync-Drives :
    (env : Environment) (size : ℕ) (outcome : Result (List ℕ)) (block context name now_ms queue : ℕ)
    (w : Engine)
    → Ready block queue w
    → w.next_state ≢ 0
    → w.next_state < u64_mod
    → let ref = w.next_state in
      let begun = run_sync env size true outcome block context name now_ms w in
      (begun.0 ≡ s_ok)
      × Drives block ref (unrun e_abort false) begun.1
      × ((inner_of ref begun.1).status ≡ e_pending)
      × ((begun.1.states ref).context ≡ context)
      × (begun.1.jobs ≡ w.jobs ++ (context, block) ∷ [])
unfolding new_state
run_sync-Drives env size outcome block context name now_ms queue w r real small =
    let ref = w.next_state in
    let names = naming block name w.names in
    rw (run_sync-begun env size outcome block context name now_ms queue w r) (
      refl,
      begun-Drives block context queue now_ms names w r real small,
      rw (inner_of, ==_refl ref) refl,
      rw (==_refl ref) refl,
      rw (==_refl ref) refl,
    )

-- `run_sync` on a block that is ready, where `RUN_SYNC_QUEUE` takes the job, the buffer has room for
-- the payload, and a body that fails gives a code that is neither `S_OK` nor `E_PENDING`; the next
-- call's number is not 0 and below 2^64. It succeeds and its job waits as the last. When a worker
-- has taken the job and until it is done, `XAsyncGetResult` says that the call is pending and changes
-- nothing. Then it gives the status that the body ended with, `E_ABORT` where the worker was
-- canceled; it copies what the body returned to the title's buffer, and nothing where there is
-- nothing; the context is freed; and asking again is an illegal call.
pub run_sync-Ends :
    (env : Environment) (size : ℕ) (outcome : Result (List ℕ)) (canceled : Bool)
    (block context name now_ms queue buffer_size buffer : ℕ) (w : Engine)
    → Ready block queue w
    → w.next_state ≢ 0
    → w.next_state < u64_mod
    → size ≤ buffer_size
    → Settles outcome
    → let provided = run_sync_env env size true outcome in
      let begun = run_sync env size true outcome block context name now_ms w in
      let taken = record begun.1 { jobs = w.jobs } in
      (begun.0 ≡ s_ok)
      × (begun.1.jobs ≡ w.jobs ++ (context, block) ∷ [])
      × (xasync_get_result provided block 0 buffer_size buffer taken ≡ (e_pending, none, taken))
      × Ends env size true outcome block context buffer_size buffer
          (result_of canceled outcome)
          w
          (run_sync_worker env size canceled outcome context block taken)
unfolding state_of new_state
run_sync-Ends env size outcome canceled block context name now_ms queue buffer_size buffer w r real
      small fits settles =
    let ref = w.next_state in
    let whole = run_sync-Drives env size outcome block context name now_ms queue w r real small in
    let begun = (run_sync env size true outcome block context name now_ms w).1 in
    let taken = record begun { jobs = w.jobs } in
    let d : Drives block ref (unrun e_abort false) taken = record {
      found = whole.1.found;
      same = whole.1.same;
      open_ = whole.1.open_;
      held = whole.1.held;
      polled = whole.1.polled;
    } in
    let kept : begun.memory ≡ w.memory =
      ap (λ x. x.1.memory) (run_sync-begun env size outcome block context name now_ms queue w r) in
    let (pending, ends) =
      get_result-run_sync_worker env size true canceled outcome block ref buffer_size buffer e_abort
        false taken d whole.2 fits settles in
    (
      whole.0,
      whole.4,
      pending,
      subst
          (λ c.
            Ends env size true outcome block c buffer_size buffer (result_of canceled outcome) w
              (run_sync_worker env size canceled outcome c block taken))
          whole.3
          (
            ends.0,
            ends.1 ∙ ap (copy_to (bytes_of (result_of canceled outcome)) buffer) kept,
            ends.2,
            ends.3,
          ),
    )
