-- ===== src/XAsync/RunSync/Completing.antt =====
-- Completing a call leaves the crate's contexts and the title's memory alone, where what it calls does.
use xgameruntime_rs.Base.{
  ℕ, suc, ◌≡◌, refl, ◌∙◌, Bool, true, false, ◌==◌, if◌then◌else◌, Bool-cases, Option-cases, inl,
  inr,
}
use xgameruntime_rs.Base.Heap.{update}
use xgameruntime_rs.Results.{e_pending}
use xgameruntime_rs.TaskQueue.Modes.{completion}
use xgameruntime_rs.TaskQueue.Port.{Task}
use xgameruntime_rs.TaskQueue.Queue.{Monitor}
use xgameruntime_rs.TaskQueue.Queue.Frame.{submit-R}
use xgameruntime_rs.XAsync.Engine.{
  Engine, Environment, stage_of, inner_of, set_inner, state_of, block_name, completion_callback_fn,
  completion_callback, deliver, complete_state,
}
use xgameruntime_rs.XAsync.Engine.Exports.{xasync_complete}

pub record Leaves (w w' : Engine) : Type 0 where
  pub helpers : w'.helpers ≡ w.helpers
  pub memory : w'.memory ≡ w.memory

Leaves-refl : (w : Engine) → Leaves w w
Leaves-refl w = record { helpers = refl; memory = refl }

Leaves-trans : (u v w : Engine) → Leaves u v → Leaves v w → Leaves u w
Leaves-trans u v w a b = record { helpers = b.helpers ∙ a.helpers; memory = b.memory ∙ a.memory }

Leaves-if : (b : Bool) (w u v : Engine) → Leaves w u → Leaves w v → Leaves w (if b then u else v)
Leaves-if true w u v p q = p
Leaves-if false w u v p q = q

-- Completion routines, callbacks and monitors that do not reach the contexts or this memory.
pub record StaysOut (env : Environment) : Type 0 where
  pub routine : (f block : ℕ) (w : Engine) → Leaves w (env.routine f block w)
  pub notify : (m : Monitor) (handle port : ℕ) (w : Engine) → Leaves w (env.notify m handle port w)
  pub run : (task : Task) (canceled : Bool) (w : Engine) → Leaves w (env.run task canceled w)

module _ (env : Environment) (out : StaysOut env) where
  completion_callback-Leaves : (box : ℕ) (w : Engine) → Leaves w (completion_callback env box w)
  unfolding completion_callback
  completion_callback-Leaves box w =
      let (ref, callback) = w.boxes box in
      let block = (w.states ref).block in
      let named = record w { current = block_name block w } in
      let ran = out.routine callback block named in
      record { helpers = ran.helpers; memory = ran.memory }

  deliver-Leaves : (ref callback : ℕ) (w : Engine) → Leaves w (deliver env ref callback w)
  unfolding deliver
  deliver-Leaves ref callback w =
      let box = w.next_box in
      let boxed = record w { boxes = update w.boxes box (ref, callback); next_box = suc box } in
      let sent =
        submit-R (stage_of env) Leaves Leaves-refl Leaves-trans
          (λ u p. (record { helpers = refl; memory = refl })) box completion_callback_fn
          (λ task u _ _. out.run task false u) out.notify (w.states ref).queue completion 0 boxed in
      Leaves-trans w boxed _ (record { helpers = refl; memory = refl })
        (Leaves-trans boxed _ _ sent
          (Leaves-if _ _ _ _ (Leaves-refl _) (completion_callback-Leaves box _)))

  complete_state-Leaves :
      (ref result size : ℕ) (w : Engine) → Leaves w (complete_state env ref result size w)
  unfolding complete_state
  complete_state-Leaves ref result size w =
      elim (Bool-cases ((inner_of ref w).status == e_pending)) [
        | inl e ↦ rw e (
            Leaves-trans w
              (set_inner ref (record (inner_of ref w) { status = result; result_size = size }) w) _
              (record { helpers = refl; memory = refl })
              (Leaves-if _ _ _ _ (Leaves-refl _) (deliver-Leaves ref _ _)))
        | inr e ↦ rw e (Leaves-refl w)
      ]

  pub xasync_complete-Leaves :
      (block result size : ℕ) (w : Engine) → Leaves w (xasync_complete env block result size w)
  unfolding xasync_complete
  xasync_complete-Leaves block result size w = elim (Option-cases (state_of block w)) [
    | inl e ↦ rw (e, xasync_complete) (Leaves-refl w)
    | inr (ref, e) ↦ rw (e, xasync_complete) (complete_state-Leaves ref result size w)
  ]
