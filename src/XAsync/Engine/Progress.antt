-- ===== src/XAsync/Engine/Progress.antt =====
-- The engine's own operations keep its invariant, and age its calls.
use xgameruntime_rs.Base.{
  ℕ, suc, ◌<◌, ◌≡◌, refl, subst, none, Bool, true, false, ◌∷◌, ◌==◌, if◌then◌else◌, arith,
  Bool-cases, Option-cases, inl, inr, ==_iff,
}
use xgameruntime_rs.Base.Heap.{Heap, update}
use xgameruntime_rs.Results.{e_pending, e_abort}
use xgameruntime_rs.TaskQueue.Modes.{PortKind, completion}
use xgameruntime_rs.TaskQueue.Queue.Calls.{submit}
use xgameruntime_rs.TaskQueue.Queue.Frame.{submit-R}
use xgameruntime_rs.XAsync.Block.{XAsyncOp, do_work, cleanup, clear_internal, read_internal}
use xgameruntime_rs.XAsync.Engine.{
  Inner, AsyncState, Engine, Environment, stage_of, inner_of, state_of, take_state, set_inner,
  set_block, completion_callback_fn, invoke, cleanup_state, completion_callback, deliver,
  complete_state, work_callback,
}
use xgameruntime_rs.XAsync.Engine.Invariant.{
  Ages, Keeps, Respects, is_cleanup_op, Ages-refl, Keeps-refl, Keeps-trans, Keeps-process,
  Keeps-current, Keeps-if, Keeps-boxes,
}

update-Ages :
    (states : Heap AsyncState) (ref : ℕ) (s : AsyncState) (r : ℕ)
    → Ages (states ref) s
    → Ages (states r) (update states ref s r)
update-Ages states ref s r h = elim (Bool-cases (ref == r)) [
  | inl e ↦ rw e (subst (λ x. Ages (states x) s) ((==_iff ref r).0 e) h)
  | inr e ↦ rw e (Ages-refl (states r))
]

-- A change of one call's marks that keeps what is settled.
pub set_inner-Keeps :
    (ref : ℕ) (i : Inner) (w : Engine)
    → i.cleaned_up ≡ (inner_of ref w).cleaned_up
    → Ages (w.states ref) (record (w.states ref) { inner = i })
    → Keeps w (set_inner ref i w)
unfolding state_of
set_inner-Keeps ref i w same older h = (
  record { once = λ r l. ground (arith, h.once r l, same); fresh = h.fresh; attached = h.attached },
  record { grows = omega arith; ages = λ r l. update-Ages w.states ref _ r older },
)

log-Keeps :
    (ref : ℕ) (op : XAsyncOp) (w : Engine)
    → is_cleanup_op op ≡ false
    → Keeps w (record w { log = (ref, op) ∷ w.log })
unfolding state_of
log-Keeps ref op w other h = (
  record {
    once = λ r l. ground (arith, other, h.once r l);
    fresh = λ r l. ground (arith, other, h.fresh r l);
    attached = h.attached;
  },
  record { grows = omega arith; ages = λ r l. Ages-refl (w.states r) },
)

-- The mark and the message of a cleanup go together.
mark-Keeps :
    (ref : ℕ) (w : Engine)
    → ref < w.next_state
    → (inner_of ref w).cleaned_up ≡ false
    → Keeps w (record (set_inner ref (record (inner_of ref w) { cleaned_up = true }) w) {
      log = (ref, cleanup) ∷ w.log;
    })
unfolding state_of
mark-Keeps ref w l clean h = (
  record {
    once = λ r k. ground (arith, h.once r k, clean);
    fresh = λ r k. ground (arith, h.fresh r k, clean);
    attached = h.attached;
  },
  record { grows = omega arith; ages = λ r k. update-Ages w.states ref _ r (ground arith) },
)

state_of-cleared :
    (block b : ℕ) (w : Engine)
    → state_of b (set_block block (clear_internal (w.blocks block)) w)
      ≡ (if block == b then none else state_of b w)
unfolding state_of read_internal clear_internal
state_of-cleared block b w = ground arith

take_state-Keeps : (block : ℕ) (w : Engine) → Keeps w (take_state block w).1
unfolding take_state
take_state-Keeps block w h = elim (Option-cases (state_of block w)) [
  | inl e ↦ rw (e, take_state) (Keeps-refl w h)
  | inr (ref, e) ↦
      rw (e, take_state)
        (
          record {
            once = h.once;
            fresh = h.fresh;
            attached =
                λ b r found. ground (arith, state_of-cleared block b w, found, h.attached b r);
          },
          record { grows = omega arith; ages = λ r l. Ages-refl (w.states r) },
        )
]

module _ (env : Environment) (respects : Respects env) where
  pub invoke-Keeps :
      (ref : ℕ) (op : XAsyncOp) (buffer buffer_size : ℕ) (w : Engine)
      → is_cleanup_op op ≡ false
      → Keeps w (invoke env ref op buffer buffer_size w).1
  unfolding invoke
  invoke-Keeps ref op buffer buffer_size w other =
      Keeps-trans _ _ _ (log-Keeps ref op w other) (respects.provider _ op _ _)

  pub cleanup_state-Keeps :
      (ref : ℕ) (w : Engine) → ref < w.next_state → Keeps w (cleanup_state env ref w)
  unfolding cleanup_state invoke
  cleanup_state-Keeps ref w l = elim (Bool-cases (inner_of ref w).cleaned_up) [
    | inl e ↦ rw e (Keeps-refl w)
    | inr e ↦ rw e (
        Keeps-trans _ _ _
          (Keeps-trans _ _ _ (mark-Keeps ref w l e) (respects.provider _ cleanup _ _))
          (take_state-Keeps _ _))
  ]

  pub completion_callback-Keeps : (box : ℕ) (w : Engine) → Keeps w (completion_callback env box w)
  unfolding completion_callback
  completion_callback-Keeps box w =
      Keeps-trans _ _ _ (Keeps-trans _ _ _ (Keeps-current w _) (respects.routine _ _ _))
        (Keeps-current _ w.current)

  pub submit_lem :
      (queue : ℕ) (kind : PortKind) (ctx callback delay : ℕ) (w : Engine)
      → Keeps w (submit (stage_of env) queue kind ctx callback delay w).1
  submit_lem queue kind ctx callback delay w =
      submit-R (stage_of env) Keeps Keeps-refl Keeps-trans Keeps-process ctx callback
        (λ task u _ _. respects.run task false u) respects.notify queue kind delay w

  deliver-Keeps : (ref callback : ℕ) (w : Engine) → Keeps w (deliver env ref callback w)
  unfolding deliver
  deliver-Keeps ref callback w =
      let box = w.next_box in
      let boxed = record w { boxes = update w.boxes box (ref, callback); next_box = suc box } in
      let sent = submit_lem (w.states ref).queue completion box completion_callback_fn 0 boxed in
      Keeps-trans w boxed _ (Keeps-boxes w _ _) (
        Keeps-trans boxed _ _ sent
          (Keeps-if _ _ _ _ (Keeps-refl _) (completion_callback-Keeps box _)))

  pub complete_state-Keeps :
      (ref result size : ℕ) (w : Engine) → Keeps w (complete_state env ref result size w)
  unfolding complete_state
  complete_state-Keeps ref result size w =
      elim (Bool-cases ((inner_of ref w).status == e_pending)) [
        | inl e ↦ rw e (
            Keeps-trans w _ _ (set_inner-Keeps ref _ w refl (ground arith))
              (Keeps-if _ _ _ _ (Keeps-refl _) (deliver-Keeps ref _ _)))
        | inr e ↦ rw e (Keeps-refl w)
      ]

  pub work_callback-Keeps :
      (ref : ℕ) (canceled : Bool) (w : Engine) → Keeps w (work_callback env ref canceled w)
  unfolding work_callback
  work_callback-Keeps ref true w = complete_state-Keeps ref e_abort 0 w
  work_callback-Keeps ref false w =
      Keeps-trans w _ _
        (Keeps-trans w _ _
          (Keeps-trans w _ _ (Keeps-current w _) (invoke-Keeps ref do_work 0 0 _ refl))
          (Keeps-current _ w.current))
        (Keeps-if _ _ _ _ (Keeps-refl _) (complete_state-Keeps ref _ 0 _))
