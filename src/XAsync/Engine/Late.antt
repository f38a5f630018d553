-- ===== src/XAsync/Engine/Late.antt =====
-- What an asynchronous call does at and after its end, src/com/xasync/core.rs and
-- src/com/xasync/impl.rs.
use xgameruntime_rs.Base.{
  ℕ, ◌≤◌, ◌≡◌, ◌≢◌, ◌⊎◌, refl, ap, ◌∙◌, none, some, Bool, true, false, not, ◌&&◌, ◌∷◌, ltb, ◌==◌,
  if◌then◌else◌, arith, ==_refl,
}
use xgameruntime_rs.Results.{s_ok, e_pending}
use xgameruntime_rs.XAsync.Block.{
  XAsyncOp, do_work, get_result, cleanup, XAsyncBlock, read_internal, clear_internal, from_ne_bytes,
}
use xgameruntime_rs.XAsync.Engine.{
  Engine, Environment, XAsyncProviderData, inner_of, state_of, set_block, set_inner, take_state,
  invoke, cleanup_state, complete_state, work_callback,
}
use xgameruntime_rs.XAsync.Engine.Exports.{hand_over_result, xasync_get_result}

-- The environment with providers that only answer.
abbrev pub passive : (ℕ → XAsyncOp → XAsyncProviderData → ℕ) → Environment → Environment
passive reply env = record env { provider = λ f op given w. (reply f op given, w) }

-- A `DoWork` pass of a call whose status is settled.
work_callback-settled :
    (env : Environment) (reply : ℕ → XAsyncOp → XAsyncProviderData → ℕ) (ref : ℕ) (w : Engine)
    → (inner_of ref w).status ≢ e_pending
    → ((work_callback (passive reply env) ref false w).log ≡ (ref, do_work) ∷ w.log)
      × ((work_callback (passive reply env) ref false w).states ≡ w.states)
unfolding work_callback complete_state invoke
work_callback-settled env reply ref w settled = ground (arith, settled)

pub cleared-no_state :
    (block : ℕ) (b : XAsyncBlock) (w : Engine)
    → w.blocks block ≡ clear_internal b
    → state_of block w ≡ none
unfolding state_of read_internal clear_internal from_ne_bytes
cleared-no_state block b w e = rw e (ground arith)

-- `take_state` of a block that drives a call.
pub take_state-taken :
    (block ref : ℕ) (w : Engine)
    → state_of block w ≡ some ref
    → take_state block w ≡ (some ref, set_block block (clear_internal (w.blocks block)) w)
unfolding take_state
take_state-taken block ref w e = rw (e, take_state) refl

pub if-false : (b : Bool) (x y : Engine) → b ≡ false → (if b then x else y) ≡ y
if-false b x y e = rw e refl

-- A call that is marked as cleaned up, with its provider told.
abbrev pub cleaned : ℕ → Engine → Engine
cleaned ref w = record (set_inner ref (record (inner_of ref w) { cleaned_up = true }) w) {
  log = (ref, cleanup) ∷ w.log;
}

pub state_of-cleaned :
    (block ref : ℕ) (w : Engine) → state_of block (cleaned ref w) ≡ state_of block w
unfolding state_of
state_of-cleaned block ref w = refl

-- Cleaning up a call that is attached to its block.
cleanup-attached :
    (env : Environment) (reply : ℕ → XAsyncOp → XAsyncProviderData → ℕ) (block ref : ℕ) (w : Engine)
    → state_of block w ≡ some ref
    → (w.states ref).block ≡ block
    → (inner_of ref w).cleaned_up ≡ false
    → cleanup_state (passive reply env) ref w
      ≡ set_block block (clear_internal (w.blocks block)) (cleaned ref w)
unfolding cleanup_state invoke
cleanup-attached env reply block ref w e same open_ =
    if-false (inner_of ref w).cleaned_up w _ open_
    ∙ ap (λ b. (take_state b (cleaned ref w)).1) block_of
    ∙ ap (λ r. r.1) (take_state-taken block ref (cleaned ref w) (state_of-cleaned block ref w ∙ e))
  where
    block_of : ((cleaned ref w).states ref).block ≡ block
    block_of = rw (==_refl ref) same

cleanup-ends :
    (env : Environment) (reply : ℕ → XAsyncOp → XAsyncProviderData → ℕ) (block ref : ℕ) (w : Engine)
    → state_of block w ≡ some ref
    → (w.states ref).block ≡ block
    → (inner_of ref w).cleaned_up ≡ false
    → let done = cleanup_state (passive reply env) ref w in
      (done.log ≡ (ref, cleanup) ∷ w.log)
      × ((inner_of ref done).cleaned_up ≡ true)
      × (state_of block done ≡ none)
      × ((inner_of ref done).status ≡ (inner_of ref w).status)
cleanup-ends env reply block ref w e same open_ =
    rw (cleanup-attached env reply block ref w e same open_) (
      refl,
      ground arith,
      cleared-no_state block (w.blocks block) _ (rw (==_refl block) refl),
      ground arith,
    )

hand_over-ends :
    (env : Environment) (reply : ℕ → XAsyncOp → XAsyncProviderData → ℕ) (block size buffer ref : ℕ)
    (w : Engine)
    → state_of block w ≡ some ref
    → (w.states ref).block ≡ block
    → (inner_of ref w).cleaned_up ≡ false
    → let done = hand_over_result (passive reply env) ref size buffer w in
      (done.2.log ≡ (ref, cleanup) ∷ (ref, get_result) ∷ w.log)
      × (done.1 ≡ some (inner_of ref w).result_size)
      × ((inner_of ref done.2).cleaned_up ≡ true)
      × (state_of block done.2 ≡ none)
      × ((inner_of ref done.2).status ≡ (inner_of ref w).status)
unfolding hand_over_result invoke state_of
hand_over-ends env reply block size buffer ref w e same open_ =
    let logged = record w { log = (ref, get_result) ∷ w.log } in
    let (log, marked, gone, status) = cleanup-ends env reply block ref logged e same open_ in
    (log, refl, marked, gone, status)

-- Once the result of a call that succeeded is handed over, where its block drives it and is the
-- call's own, it was not cleaned up, the buffer is large enough, and the identity is 0 or the
-- call's: the provider was sent `GetResult` and then `Cleanup`, the size was reported, the call is
-- cleaned up with its status as it was, and the block drives no call. The providers here only
-- answer.
get_result-ends :
    (env : Environment) (reply : ℕ → XAsyncOp → XAsyncProviderData → ℕ)
    (block identity size buffer ref : ℕ) (w : Engine)
    → state_of block w ≡ some ref
    → (w.states ref).block ≡ block
    → (inner_of ref w).status ≡ s_ok
    → (inner_of ref w).cleaned_up ≡ false
    → (inner_of ref w).result_size ≤ size
    → (identity ≡ 0) ⊎ (identity ≡ (w.states ref).identity)
    → let done = xasync_get_result (passive reply env) block identity size buffer w in
      (done.2.log ≡ (ref, cleanup) ∷ (ref, get_result) ∷ w.log)
      × (done.1 ≡ some (inner_of ref w).result_size)
      × ((inner_of ref done.2).cleaned_up ≡ true)
      × (state_of block done.2 ≡ none)
      × ((inner_of ref done.2).status ≡ s_ok)
unfolding xasync_get_result
get_result-ends env reply block identity size buffer ref w e same ok open_ fits who =
    let (log, told, marked, gone, status) =
      hand_over-ends env reply block size buffer ref w e same open_ in
    rw (e, xasync_get_result, ok, own, enough) (log, told, marked, gone, status ∙ ok)
  where
    own : (not (identity == 0) && not (identity == (w.states ref).identity)) ≡ false
    own = ground (arith, who)

    enough : ltb size (inner_of ref w).result_size ≡ false
    enough = ground (arith, fits)

-- A result is handed over as in `get_result-ends`, and a `DoWork` pass of the call, that was queued
-- before, runs then: the provider is sent `DoWork` after its `Cleanup`, though the call is cleaned
-- up, its status is still `S_OK` and its block drives no call; and the pass changes no call. The
-- block drives the call and is its own, the call succeeded and was not cleaned up, the buffer is
-- large enough, and the identity is 0 or the call's. The providers here only answer.
pub work_after_cleanup :
    (env : Environment) (reply : ℕ → XAsyncOp → XAsyncProviderData → ℕ)
    (block identity size buffer ref : ℕ) (w : Engine)
    → state_of block w ≡ some ref
    → (w.states ref).block ≡ block
    → (inner_of ref w).status ≡ s_ok
    → (inner_of ref w).cleaned_up ≡ false
    → (inner_of ref w).result_size ≤ size
    → (identity ≡ 0) ⊎ (identity ≡ (w.states ref).identity)
    → let done = (xasync_get_result (passive reply env) block identity size buffer w).2 in
      let late = work_callback (passive reply env) ref false done in
      (state_of block done ≡ none)
      × ((inner_of ref done).cleaned_up ≡ true)
      × ((inner_of ref done).status ≡ s_ok)
      × (late.log ≡ (ref, do_work) ∷ (ref, cleanup) ∷ (ref, get_result) ∷ w.log)
      × (late.states ≡ done.states)
work_after_cleanup env reply block identity size buffer ref w e same ok open_ fits who =
    let done = (xasync_get_result (passive reply env) block identity size buffer w).2 in
    let ends =
      get_result-ends env reply block identity size buffer ref w e same ok open_ fits who in
    let status = ends.4 in
    let (log, states) = work_callback-settled env reply ref done (ground (arith, status)) in
    (ends.3, ends.2, status, log ∙ ap (λ l. (ref, do_work) ∷ l) ends.0, states)
