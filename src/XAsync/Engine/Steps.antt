-- ===== src/XAsync/Engine/Steps.antt =====
-- Every `XAsync*` export keeps the engine's invariant and ages its calls.
use xgameruntime_rs.Base.{
  ℕ, suc, ◌≤◌, ◌<◌, ◌≡◌, ◌⊎◌, refl, sym, subst, ◌∙◌, Option, none, some, Bool, true, false, not,
  ◌&&◌, [], ltb, ◌==◌, if◌then◌else◌, arith, Bool-cases, Option-cases, inl, inr, ==_iff, ==_refl,
}
use xgameruntime_rs.Results.{s_ok, e_pending, e_abort}
use xgameruntime_rs.TaskQueue.Modes.{work}
use xgameruntime_rs.TaskQueue.Port.Calls.{from_millis}
use xgameruntime_rs.TaskQueue.Queue.{Process, process_queue_handle, is_process_queue, port_of}
use xgameruntime_rs.XAsync.Block.{
  XAsyncOp, begin, do_work, get_result, cancel, cleanup, XAsyncBlock, read_internal, write_internal,
}
use xgameruntime_rs.XAsync.Engine.{
  AsyncState, Engine, Environment, XAsyncProviderData, work_callback_fn, inner_of, state_of,
  set_inner, set_block, set_state, name_block, queue_for, invoke,
}
use xgameruntime_rs.XAsync.Engine.Exports.{
  route_block, is_manual, new_state, start, begin_on, begin_named, xasync_begin, submit_work,
  xasync_schedule, xasync_complete, report_status, xasync_get_status, hand_over_result,
  xasync_get_result, nudge, xasync_cancel, xasync_run, run_provider, run_provider_fn,
}
use xgameruntime_rs.XAsync.Engine.Invariant.{
  Inv, Later, Keeps, Respects, Ages-refl, Ages-trans, Later-trans, Keeps-refl, Keeps-trans,
  Keeps-process, Keeps-if,
}
use xgameruntime_rs.XAsync.Engine.Progress.{
  set_inner-Keeps, invoke-Keeps, cleanup_state-Keeps, complete_state-Keeps, submit_lem,
}

-- As `Keeps`, for the calls below a bound.
abbrev KeepsBelow : ℕ → Engine → Engine → Type 0
KeepsBelow n w w' = Inv w → Inv w' × Later n w w'

Later-trans_below : (n : ℕ) (u v w : Engine) → Later n u v → Later n v w → Later n u w
Later-trans_below n u v w a b = record {
  grows = omega (arith, a.grows, b.grows);
  ages = λ ref l.
      Ages-trans (u.states ref) (v.states ref) (w.states ref) (a.ages ref l) (b.ages ref l);
}

Later-restrict : (n m : ℕ) (u v : Engine) → n ≤ m → Later m u v → Later n u v
Later-restrict n m u v h a = record { grows = a.grows; ages = λ ref l. a.ages ref (omega arith) }

name_block-Keeps : (block name : ℕ) (w : Engine) → Keeps w (name_block block name w)
unfolding state_of
name_block-Keeps block name w h = (
  record { once = h.once; fresh = h.fresh; attached = h.attached },
  record { grows = omega arith; ages = λ ref l. Ages-refl (w.states ref) },
)

state_of-requeued :
    (block queue b : ℕ) (w : Engine)
    → state_of b w ≡ state_of b (set_block block (record (w.blocks block) { queue = queue }) w)
unfolding state_of read_internal
state_of-requeued block queue b w = elim (Bool-cases (block == b)) [
  | inl e ↦
      subst
        (λ x.
          state_of x w ≡ state_of x (set_block block (record (w.blocks block) { queue = queue }) w))
        ((==_iff block b).0 e) (rw (==_refl block) refl)
  | inr e ↦ rw e refl
]

-- The runtime gives a block another queue, and leaves its private bytes.
requeue-Keeps :
    (block queue : ℕ) (w : Engine)
    → Keeps w (set_block block (record (w.blocks block) { queue = queue }) w)
requeue-Keeps block queue w h = (
  record {
    once = h.once;
    fresh = h.fresh;
    attached = λ b r found. h.attached b r (state_of-requeued block queue b w ∙ found);
  },
  record { grows = omega arith; ages = λ ref l. Ages-refl (w.states ref) },
)

pointer_le : (b : XAsyncBlock) (n : ℕ) → (read_internal (write_internal b n)).1 ≤ n
unfolding read_internal write_internal
pointer_le b n = omega arith

state_of-written :
    (block b r n : ℕ) (w : Engine)
    → state_of b (set_block block (write_internal (w.blocks block) n) w) ≡ some r
    → (r ≤ n) ⊎ (state_of b w ≡ some r)
unfolding state_of
state_of-written block b r n w e = elim (Bool-cases (block == b)) [
  | inl same ↦ inl (ground (arith, pointer_le (w.blocks block) n, same, e))
  | inr other ↦ inr (ground (arith, other, e))
]

-- The engine with a fresh call that no block drives yet.
abbrev allocated : AsyncState → Engine → Engine
allocated s w = record (set_state w.next_state s w) { next_state = suc w.next_state }

state_of-allocated :
    (s : AsyncState) (b : ℕ) (w : Engine) → state_of b (allocated s w) ≡ state_of b w
unfolding state_of
state_of-allocated s b w = refl

==-above : (r n : ℕ) → r < n → (n == r) ≡ false
==-above r n h = ground arith

new_state-Keeps :
    (provider context identity queue now_ms block : ℕ) (w : Engine)
    → Keeps w (new_state provider context identity queue now_ms block w).1
unfolding new_state
new_state-Keeps p c i q n block w h = (
  record {
    once = λ r l. ground (arith, h.once r, h.fresh w.next_state);
    fresh = λ r l. h.fresh r (omega arith);
    attached = λ b r found. elim (state_of-written block b r w.next_state (allocated s w) found) [
      | inl le ↦ omega arith
      | inr old ↦ omega (arith, h.attached b r (sym (state_of-allocated s b w) ∙ old))
    ];
  },
  record {
    grows = omega arith;
    ages = λ r l. rw (==-above r w.next_state l) (Ages-refl (w.states r));
  },
)
  where
    s : AsyncState
    s = record {
      provider = p;
      context = c;
      identity = i;
      queue = q;
      began_ms = n;
      block = block;
      inner = record { status = e_pending; result_size = 0; canceled = false; cleaned_up = false };
    }

route_block-Keeps : (block queue : ℕ) (w : Engine) → Keeps w (route_block block queue w).1
unfolding route_block
route_block-Keeps block queue w = elim (Bool-cases ((w.blocks block).queue == 0)) [
  | inl e ↦ rw e (requeued (process_queue_handle w.process).1 (process_queue_handle w.process).0)
  | inr e ↦ elim (Bool-cases (is_manual (w.process.ports (port_of work queue w.process)).mode)) [
    | inr m ↦ rw (e, m) (Keeps-refl w)
    | inl m ↦ elim (Bool-cases (is_process_queue queue w.process).0) [
      | inl c ↦ rw (e, m, c) (Keeps-process w _)
      | inr c ↦ rw (e, m, c) (requeued _ _)
    ]
  ]
]
  where
    requeued :
        (p : Process) (handle : ℕ)
        → Keeps w (
            set_block block (record (w.blocks block) { queue = handle }) (record w { process = p }))
    requeued p handle =
        Keeps-trans w (record w { process = p }) _ (Keeps-process w p)
          (requeue-Keeps block handle (record w { process = p }))

queue_for-Keeps : (b : XAsyncBlock) (w : Engine) → Keeps w (queue_for b w).1
unfolding queue_for
queue_for-Keeps b w = elim (Bool-cases (b.queue == 0)) [
  | inl e ↦ rw e (Keeps-process w _)
  | inr e ↦ rw e (Keeps-refl w)
]

-- A call that has just begun may have its status overwritten: it is not below the bound.
restatus-KeepsBelow :
    (n ref hr : ℕ) (w : Engine)
    → n ≤ ref
    → KeepsBelow n w (set_inner ref (record (inner_of ref w) { status = hr }) w)
unfolding state_of
restatus-KeepsBelow n ref hr w l h = (
  record { once = λ r k. ground (arith, h.once r k); fresh = h.fresh; attached = h.attached },
  record {
    grows = omega arith;
    ages = λ r k. rw (==-above r ref (omega arith)) (Ages-refl (w.states r));
  },
)

-- A reply by cases: the engine stands first or second after the status.
if-Keeps₁ :
    (b : Bool) (w : Engine) (x y : ℕ × Engine)
    → Keeps w x.1
    → Keeps w y.1
    → Keeps w (if b then x else y).1
if-Keeps₁ true w x y p q = p
if-Keeps₁ false w x y p q = q

if-Keeps₂ :
    (b : Bool) (w : Engine) (x y : ℕ × Option ℕ × Engine)
    → Keeps w x.2
    → Keeps w y.2
    → Keeps w (if b then x else y).2
if-Keeps₂ true w x y p q = p
if-Keeps₂ false w x y p q = q

-- The engine after a status query.
abbrev pub default_to : Engine → Option (ℕ × Engine) → Engine
default_to w none = w
default_to w (some (_, w')) = w'

module _ (env : Environment) (respects : Respects env) where
  start-KeepsBelow :
      (n ref : ℕ) (w : Engine) → n ≤ ref → ref < w.next_state → KeepsBelow n w (start env ref w).1
  unfolding start
  start-KeepsBelow n ref w l k h =
      let w₁ = (invoke env ref begin 0 0 w).1 in
      let (h₁, a) = invoke-Keeps env respects ref begin 0 0 w refl h in
      let b = Later-restrict n w.next_state w w₁ (omega arith) a in
      elim (Bool-cases ((invoke env ref begin 0 0 w).0 == s_ok)) [
        | inl e ↦ rw e (h₁, b)
        | inr e ↦
            let hr = (invoke env ref begin 0 0 w).0 in
            let w₂ = set_inner ref (record (inner_of ref w₁) { status = hr }) w₁ in
            let (h₂, c) = restatus-KeepsBelow n ref hr w₁ l h₁ in
            let (h₃, d) = cleanup_state-Keeps env respects ref w₂ (omega (arith, a.grows)) h₂ in
            rw e (
              h₃,
              Later-trans_below n w w₂ _ (Later-trans_below n w w₁ w₂ b c)
                  (Later-restrict n w₂.next_state w₂ _ (omega (arith, a.grows)) d),
            )
      ]

  begin_on-Keeps :
      (block context identity provider now_ms queue : ℕ) (w : Engine)
      → Keeps w (begin_on env block context identity provider now_ms queue w).1
  unfolding begin_on new_state
  begin_on-Keeps block context identity provider now_ms queue w =
      elim (Option-cases (route_block block queue w).0) [
        | inl e ↦ rw (e, begin_on) (route_block-Keeps block queue w)
        | inr (target, e) ↦
            rw (e, begin_on)
              λ h.
                let w₁ = (route_block block queue w).1 in
                let w₂ = (new_state provider context identity target now_ms block w₁).1 in
                let (h₁, a) = route_block-Keeps block queue w h in
                let (h₂, b) = new_state-Keeps provider context identity target now_ms block w₁ h₁ in
                let (h₃, c) =
                  start-KeepsBelow w.next_state w₁.next_state w₂ a.grows (omega arith) h₂ in
                (
                  h₃,
                  Later-trans_below w.next_state w w₂ _
                      (Later-trans w.next_state w w₁ w₂ (omega arith) a b) c,
                )
      ]

  begin_named-Keeps :
      (block context identity provider now_ms : ℕ) (w : Engine)
      → Keeps w (begin_named env block context identity provider now_ms w).1
  unfolding begin_named
  begin_named-Keeps block context identity provider now_ms w =
      if-Keeps₁ (block == 0) w _ _ (Keeps-refl w) (
        if-Keeps₁ (provider == 0) w _ _ (Keeps-refl w) (elim (Option-cases (state_of block w)) [
          | inr (ref, e) ↦ rw e (Keeps-refl w)
          | inl e ↦ rw e (elim (Option-cases (queue_for (w.blocks block) w).0) [
            | inl f ↦ rw f (queue_for-Keeps (w.blocks block) w)
            | inr (queue, f) ↦ rw f (
                Keeps-trans w _ _ (queue_for-Keeps (w.blocks block) w)
                  (begin_on-Keeps block context identity provider now_ms queue _))
          ])
        ]))

  pub xasync_begin-Keeps :
      (block context identity name provider now_ms : ℕ) (w : Engine)
      → Keeps w (xasync_begin env block context identity name provider now_ms w).1
  unfolding xasync_begin
  xasync_begin-Keeps block context identity name provider now_ms w =
      Keeps-trans w _ _ (Keeps-if (name == 0) _ _ _ (Keeps-refl w) (name_block-Keeps block name w))
        (begin_named-Keeps block context identity provider now_ms _)

  submit_work-Keeps : (ref delay : ℕ) (w : Engine) → Keeps w (submit_work env ref delay w).1
  unfolding submit_work
  submit_work-Keeps ref delay w =
      submit_lem env respects (w.states ref).queue work ref work_callback_fn delay w

  pub xasync_schedule-Keeps :
      (block delay : ℕ) (w : Engine) → Keeps w (xasync_schedule env block delay w).1
  unfolding xasync_schedule
  xasync_schedule-Keeps block delay w = elim (Option-cases (state_of block w)) [
    | inl e ↦ rw (e, xasync_schedule) (Keeps-refl w)
    | inr (ref, e) ↦
        rw (e, xasync_schedule)
          (Keeps-trans w _ _ (submit_work-Keeps ref (from_millis delay) w)
            (if-Keeps₁ _ _ _ _ (Keeps-refl _) (complete_state-Keeps env respects ref e_abort 0 _)))
  ]

  pub xasync_complete-Keeps :
      (block result size : ℕ) (w : Engine) → Keeps w (xasync_complete env block result size w)
  unfolding xasync_complete
  xasync_complete-Keeps block result size w = elim (Option-cases (state_of block w)) [
    | inl e ↦ rw (e, xasync_complete) (Keeps-refl w)
    | inr (ref, e) ↦ rw (e, xasync_complete) (complete_state-Keeps env respects ref result size w)
  ]

  report_status-Keeps :
      (ref : ℕ) (w : Engine) → ref < w.next_state → Keeps w (report_status env ref w).1
  unfolding report_status
  report_status-Keeps ref w l =
      Keeps-if _ _ _ _ (cleanup_state-Keeps env respects ref w l) (Keeps-refl w)

  hand_over_result-Keeps :
      (ref size buffer : ℕ) (w : Engine)
      → ref < w.next_state
      → Keeps w (hand_over_result env ref size buffer w).2
  unfolding hand_over_result
  hand_over_result-Keeps ref size buffer w l h =
      let (h₁, a) = invoke-Keeps env respects ref get_result buffer size w refl h in
      Keeps-trans w _ _ (invoke-Keeps env respects ref get_result buffer size w refl)
        (cleanup_state-Keeps env respects ref _ (omega (arith, a.grows))) h

  pub xasync_get_result-Keeps :
      (block identity size buffer : ℕ) (w : Engine)
      → Keeps w (xasync_get_result env block identity size buffer w).2
  unfolding xasync_get_result
  xasync_get_result-Keeps block identity size buffer w h = elim (Option-cases (state_of block w)) [
    | inl e ↦ rw (e, xasync_get_result) (Keeps-refl w h)
    | inr (ref, e) ↦
        let l = h.attached block ref e in
        let i = inner_of ref w in
        rw (e, xasync_get_result)
          (if-Keeps₂ (i.status == e_pending) w _ _ (Keeps-refl w)
            (if-Keeps₂ (not (i.status == s_ok)) w _ _ (cleanup_state-Keeps env respects ref w l) (
              if-Keeps₂ (not (identity == 0) && not (identity == (w.states ref).identity)) w _ _
                (Keeps-refl w)
                (if-Keeps₂ (ltb size i.result_size) w _ _ (Keeps-refl w)
                  (hand_over_result-Keeps ref size buffer w l))))
            h)
  ]

  nudge-Keeps : (ref : ℕ) (w : Engine) → Keeps w (nudge env ref w)
  unfolding nudge
  nudge-Keeps ref w =
      Keeps-if _ w _ _
        (Keeps-trans w _ _ (submit_work-Keeps ref 0 w)
          (Keeps-if _ _ _ _ (Keeps-refl _) (complete_state-Keeps env respects ref e_abort 0 _)))
        (Keeps-refl w)

  pub xasync_cancel-Keeps : (block : ℕ) (w : Engine) → Keeps w (xasync_cancel env block w)
  unfolding xasync_cancel
  xasync_cancel-Keeps block w = elim (Option-cases (state_of block w)) [
    | inl e ↦ rw (e, xasync_cancel) (Keeps-refl w)
    | inr (ref, e) ↦
        rw (e, xasync_cancel)
          (Keeps-if _ w _ _ (Keeps-refl w) (
            Keeps-trans w _ _
              (Keeps-trans w _ _
                (set_inner-Keeps ref (record (inner_of ref w) { canceled = true }) w refl
                  (ground arith))
                (invoke-Keeps env respects ref cancel 0 0 _ refl))
              (nudge-Keeps ref _)))
  ]

  pub xasync_get_status-Keeps :
      (block : ℕ) (w : Engine) (in_dispatch : Bool)
      → Keeps w (default_to w (xasync_get_status env block false in_dispatch [] w))
  unfolding xasync_get_status
  xasync_get_status-Keeps block w in_dispatch h = elim (Option-cases (state_of block w)) [
    | inl e ↦ rw (e, xasync_get_status) (Keeps-refl w h)
    | inr (ref, e) ↦
        rw (e, xasync_get_status) (report_status-Keeps ref w (h.attached block ref e) h)
  ]

  pub xasync_run-Keeps :
      (block work_fn now_ms : ℕ) (w : Engine) → Keeps w (xasync_run env block work_fn now_ms w).1
  unfolding xasync_run
  xasync_run-Keeps block work_fn now_ms w =
      if-Keeps₁ (work_fn == 0) w _ _ (Keeps-refl w)
        (xasync_begin-Keeps block work_fn 0 0 run_provider_fn now_ms w)

  -- The provider of `XAsyncRun` does what the engine expects of a provider, if the title's
  -- function does.
  pub run_provider-Keeps :
      (work_fn : Engine → ℕ × Engine) (op : XAsyncOp) (given : XAsyncProviderData) (w : Engine)
      → ((v : Engine) → Keeps v (work_fn v).1)
      → Keeps w (run_provider env work_fn op given w).1
  unfolding run_provider
  run_provider-Keeps work_fn begin given w title =
      elim (Option-cases (state_of given.async_block w)) [
        | inl e ↦ rw (e, run_provider) (Keeps-refl w)
        | inr (ref, e) ↦ rw (e, run_provider) (submit_work-Keeps ref 0 w)
      ]
  run_provider-Keeps work_fn do_work given w title = title w
  run_provider-Keeps work_fn get_result given w title = Keeps-refl w
  run_provider-Keeps work_fn cancel given w title = Keeps-refl w
  run_provider-Keeps work_fn cleanup given w title = Keeps-refl w
