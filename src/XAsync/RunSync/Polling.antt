-- ===== src/XAsync/RunSync/Polling.antt =====
-- The crate's own calls through the engine: the title polls for the result, without a completion
-- routine.
use xgameruntime_rs.Base.{
  ℕ, ◌≤◌, ◌≡◌, ◌≢◌, refl, ap, ◌∙◌, none, some, Bool, true, false, List, ◌∷◌, ◌||◌, ltb, ◌==◌, arith,
  ==_refl,
}
use xgameruntime_rs.Results.{Result, s_ok, e_pending, e_illegal_method_call}
use xgameruntime_rs.XAsync.Block.{XAsyncOp, get_result, cleanup, clear_internal}
use xgameruntime_rs.XAsync.Engine.{
  ContextHelper, Engine, Environment, inner_of, set_inner, set_block, state_of, take_state, invoke,
  cleanup_state, complete_state,
}
use xgameruntime_rs.XAsync.Engine.Exports.{xasync_get_result, hand_over_result}
use xgameruntime_rs.XAsync.Engine.Late.{
  cleaned, if-false, take_state-taken, state_of-cleaned, cleared-no_state,
}
use xgameruntime_rs.XAsync.RunSync.{copied, copy_to, put_helper, run_sync_helper, run_sync_env}

-- A call of the crate that has begun and is not over: its block, its provider's context, and no
-- completion routine.
pub record Drives (block ref : ℕ) (h : ContextHelper) (w : Engine) : Type 0 where
  pub found : state_of block w ≡ some ref
  pub same : (w.states ref).block ≡ block
  pub open_ : (inner_of ref w).cleaned_up ≡ false
  pub held : w.helpers (w.states ref).context ≡ some h
  pub polled : (w.blocks block).callback ≡ 0

-- A call with its status and size known.
abbrev pub completed : ℕ → ℕ → ℕ → Engine → Engine
completed ref hr size w =
    set_inner ref (record (inner_of ref w) { status = hr; result_size = size }) w

pub complete_state-completed :
    (env : Environment) (block ref hr size : ℕ) (h : ContextHelper) (w : Engine)
    → Drives block ref h w
    → (inner_of ref w).status ≡ e_pending
    → complete_state env ref hr size w ≡ completed ref hr size w
unfolding complete_state
complete_state-completed env block ref hr size h w d pending =
    let silent : (((w.states ref).block == 0) || ((w.blocks (w.states ref).block).callback == 0))
        ≡ true =
      ground (arith, d.same, d.polled) in
    rw (pending, silent) refl

pub Drives-put_helper :
    (block ref : ℕ) (h h' : ContextHelper) (w : Engine)
    → Drives block ref h w
    → Drives block ref h' (put_helper (w.states ref).context (some h') w)
unfolding state_of
Drives-put_helper block ref h h' w d = record {
  found = d.found;
  same = d.same;
  open_ = d.open_;
  held = rw (==_refl (w.states ref).context) refl;
  polled = d.polled;
}

pub Drives-log :
    (block ref : ℕ) (op : XAsyncOp) (h : ContextHelper) (w : Engine)
    → Drives block ref h w
    → Drives block ref h (record w { log = (ref, op) ∷ w.log })
unfolding state_of
Drives-log block ref op h w d = record {
  found = d.found;
  same = d.same;
  open_ = d.open_;
  held = d.held;
  polled = d.polled;
}

pub Drives-completed :
    (block ref hr size : ℕ) (h : ContextHelper) (w : Engine)
    → Drives block ref h w
    → Drives block ref h (completed ref hr size w)
unfolding state_of
Drives-completed block ref hr size h w d = record {
  found = d.found;
  same = rw (==_refl ref) d.same;
  open_ = rw (inner_of, ==_refl ref) d.open_;
  held = rw (==_refl ref) d.held;
  polled = d.polled;
}

module _ (env : Environment) (size : ℕ) (submitted : Bool) (outcome : Result (List ℕ)) where
  abbrev own : Environment
  own = run_sync_env env size submitted outcome

  -- The engine once the call is cleaned up.
  abbrev pub freed : ℕ → ℕ → Engine → Engine
  freed block ref w =
      set_block block (clear_internal (w.blocks block))
        (put_helper (w.states ref).context none (cleaned ref w))

  invoke-cleanup :
      (ref : ℕ) (h : ContextHelper) (w : Engine)
      → w.helpers (w.states ref).context ≡ some h
      → invoke own ref cleanup 0 0 w
        ≡ (s_ok, put_helper (w.states ref).context none (record w { log = (ref, cleanup) ∷ w.log }))
  unfolding invoke run_sync_helper
  invoke-cleanup ref h w held = rw held refl

  invoke-get_result :
      (ref buffer buffer_size : ℕ) (h : ContextHelper) (w : Engine)
      → w.helpers (w.states ref).context ≡ some h
      → invoke own ref get_result buffer buffer_size w ≡ (
        s_ok,
        record w { log = (ref, get_result) ∷ w.log; memory = copy_to (copied h) buffer w.memory },
      )
  unfolding invoke run_sync_helper
  invoke-get_result ref buffer buffer_size h w held = rw held refl

  cleanup_state-freed :
      (block ref : ℕ) (h : ContextHelper) (w : Engine)
      → Drives block ref h w
      → cleanup_state own ref w ≡ freed block ref w
  unfolding cleanup_state state_of
  cleanup_state-freed block ref h w d =
      let marked = set_inner ref (record (inner_of ref w) { cleaned_up = true }) w in
      let context_of : (marked.states ref).context ≡ (w.states ref).context =
        rw (==_refl ref) refl in
      let block_of : (marked.states ref).block ≡ block = rw (==_refl ref) d.same in
      let sent = put_helper (w.states ref).context none (cleaned ref w) in
      let told : (invoke own ref cleanup 0 0 marked).1 ≡ sent =
        ap (λ r. r.1) (invoke-cleanup ref h marked (ap w.helpers context_of ∙ d.held))
        ∙ ap (λ c. put_helper c none (cleaned ref w)) context_of in
      if-false (inner_of ref w).cleaned_up w _ d.open_
      ∙ ap (λ x. (take_state (x.states ref).block x).1) told
      ∙ ap (λ b. (take_state b sent).1) block_of
      ∙ ap (λ r. r.1) (take_state-taken block ref sent (state_of-cleaned block ref w ∙ d.found))

  hand_over_result-freed :
      (block ref buffer_size buffer : ℕ) (h : ContextHelper) (w : Engine)
      → Drives block ref h w
      → hand_over_result own ref buffer_size buffer w ≡ (
        s_ok,
        some (inner_of ref w).result_size,
        freed block ref (record w {
          log = (ref, get_result) ∷ w.log;
          memory = copy_to (copied h) buffer w.memory;
        }),
      )
  unfolding hand_over_result state_of
  hand_over_result-freed block ref buffer_size buffer h w d =
      let filled = record w {
        log = (ref, get_result) ∷ w.log;
        memory = copy_to (copied h) buffer w.memory;
      } in
      let still : Drives block ref h filled = record {
        found = d.found;
        same = d.same;
        open_ = d.open_;
        held = d.held;
        polled = d.polled;
      } in
      ap (λ r. (r.0, some (inner_of ref w).result_size, cleanup_state own ref r.1))
        (invoke-get_result ref buffer buffer_size h w d.held)
      ∙ ap (λ x. (s_ok, some (inner_of ref w).result_size, x))
          (cleanup_state-freed block ref h filled still)

  pub get_result-ok :
      (block ref buffer_size buffer : ℕ) (h : ContextHelper) (w : Engine)
      → Drives block ref h w
      → (inner_of ref w).status ≡ s_ok
      → (inner_of ref w).result_size ≤ buffer_size
      → xasync_get_result own block 0 buffer_size buffer w ≡ (
        s_ok,
        some (inner_of ref w).result_size,
        freed block ref (record w {
          log = (ref, get_result) ∷ w.log;
          memory = copy_to (copied h) buffer w.memory;
        }),
      )
  unfolding xasync_get_result
  get_result-ok block ref buffer_size buffer h w d settled fits =
      let enough : ltb buffer_size (inner_of ref w).result_size ≡ false = ground (arith, fits) in
      let f : ((inner_of ref w).status == s_ok) ≡ true = ground (arith, settled) in
      let p : ((inner_of ref w).status == e_pending) ≡ false = ground (arith, settled) in
      rw (d.found, xasync_get_result, p, f, enough)
        (hand_over_result-freed block ref buffer_size buffer h w d)

  pub get_result-err :
      (block ref buffer_size buffer : ℕ) (h : ContextHelper) (w : Engine)
      → Drives block ref h w
      → (inner_of ref w).status ≢ s_ok
      → (inner_of ref w).status ≢ e_pending
      → xasync_get_result own block 0 buffer_size buffer w
        ≡ ((inner_of ref w).status, none, freed block ref w)
  unfolding xasync_get_result
  get_result-err block ref buffer_size buffer h w d failed settled =
      let f : ((inner_of ref w).status == s_ok) ≡ false = ground (arith, failed) in
      let p : ((inner_of ref w).status == e_pending) ≡ false = ground (arith, settled) in
      rw (d.found, xasync_get_result, p, f, cleanup_state-freed block ref h w d) refl

  -- Nothing is left of the call.
  pub freed-over :
      (block ref buffer_size buffer : ℕ) (w : Engine)
      → ((freed block ref w).helpers (w.states ref).context ≡ none)
        × ((xasync_get_result own block 0 buffer_size buffer (freed block ref w)).0
            ≡ e_illegal_method_call)
  unfolding xasync_get_result
  freed-over block ref buffer_size buffer w =
      let gone =
        cleared-no_state block (w.blocks block) (freed block ref w) (rw (==_refl block) refl) in
      (rw (==_refl (w.states ref).context) refl, rw (gone, xasync_get_result) refl)
