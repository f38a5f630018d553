-- ===== src/TaskQueue/Port/Batches.antt =====
-- What the loops of `terminate_context` and `drain_ready` take off a port, and what they leave.
use mathlib.Core.List.{append_assoc, append-nil}
use native.Mathlib.Nat.{add-zero}
use xgameruntime_rs.Base.{
  ℕ, ◌+◌, ◌≤◌, ◌<◌, ◌≡◌, refl, ap, ◌∙◌, ◌↔◌, ◌⊎◌, Option, none, some, Bool, true, false, not, List,
  [], ◌∷◌, ◌++◌, ◌==◌, arith, add64, u64_mod, length, keep_if, All, Bool-cases, inl, inr,
}
use xgameruntime_rs.TaskQueue.Port.{
  Task, PortState, is_due, split_owner, detach, drain_loop, drain_ready,
}
use xgameruntime_rs.TaskQueue.Port.Order.{NotAfter, IsSorted}

abbrev pub is_mine : ℕ → Task → Bool
is_mine owner t = t.owner == owner

abbrev pub is_ready : ℕ → Task → Bool
is_ready now t = is_due t.due now

split_owner_lem :
    (owner : ℕ) (keep pending tasks : List Task)
    → split_owner owner keep pending tasks ≡ (
      pending ++ keep_if (is_mine owner) keep,
      tasks ++ keep_if (λ t. not (is_mine owner t)) keep,
    )
unfolding split_owner
split_owner_lem owner [] pending tasks = simp append-nil
split_owner_lem owner (t ∷ keep) pending tasks = elim (Bool-cases (t.owner == owner)) [
  | inl e ↦ rw e (split_owner_lem owner keep (pending ++ t ∷ []) tasks ∙ simp append_assoc)
  | inr e ↦ rw e (split_owner_lem owner keep pending (tasks ++ t ∷ []) ∙ simp append_assoc)
]

-- Terminating a context takes exactly its callbacks off the port, in order, and leaves those of
-- every other context as they stood; the port dies when the last context goes.
pub detach_lem :
    (owner : ℕ) (s : PortState)
    → let (pending, drain_rest, t) = detach owner s in
      (pending ≡ keep_if (is_mine owner) s.tasks)
      × (t.tasks ≡ keep_if (λ u. not (is_mine owner u)) s.tasks)
      × (drain_rest ≡ true ↔ (s.active_contexts ≤ 1) × (s.terminated ≡ false))
      × (t.terminated ≡ true ↔ (s.active_contexts ≤ 1) ⊎ (s.terminated ≡ true))
unfolding detach
detach_lem owner s =
    rw (split_owner_lem owner s.tasks [] [])
      (refl, refl, (λ h. ground arith, λ h. ground arith), (λ h. ground arith, λ h. ground arith))

is_due_mono :
    (now : ℕ) (d e : Option ℕ) → is_due d now ≡ false → NotAfter d e → is_due e now ≡ false
is_due_mono now none e p q = cc
is_due_mono now (some d) none p q = absurd q
is_due_mono now (some d) (some e) p q = ground arith

none_ready :
    (now : ℕ) (d : Option ℕ) (ts : List Task)
    → is_due d now ≡ false
    → All (λ u. NotAfter d u.due) ts
    → (keep_if (is_ready now) ts ≡ []) × (keep_if (λ u. not (is_ready now u)) ts ≡ ts)
none_ready now d [] e h = (refl, refl)
none_ready now d (t ∷ ts) e h =
    let (kept, dropped) = none_ready now d ts e h.1 in
    rw (is_due_mono now d t.due e h.0) (kept, ap (◌∷◌ t) dropped)

drained_eq :
    {out out' tasks : List Task} {n n' : ℕ}
    → out ≡ out'
    → n ≡ n'
    → ◌≡◌ {A = List Task × List Task × ℕ} (out, tasks, n) (out', tasks, n')
drained_eq {tasks} p q = λ i. (p i, tasks, q i)

drain_loop_lem :
    (now : ℕ) (ts : List Task) (n : ℕ) (out : List Task)
    → IsSorted ts
    → n + length ts < u64_mod
    → drain_loop now ts n out ≡ (
      out ++ keep_if (is_ready now) ts,
      keep_if (λ u. not (is_ready now u)) ts,
      n + length (keep_if (is_ready now) ts),
    )
unfolding drain_loop
drain_loop_lem now [] n out h r = rw (append-nil, add-zero) refl
drain_loop_lem now (t ∷ ts) n out h r = elim (Bool-cases (is_due t.due now)) [
  | inl e ↦ rw e (
      drain_loop_lem now ts (add64 n 1) (out ++ t ∷ []) h.1 (omega arith)
      ∙ drained_eq (append_assoc out (t ∷ []) (keep_if (is_ready now) ts)) (omega arith))
  | inr e ↦
      let (kept, dropped) = none_ready now t.due ts e h.0 in
      rw (e, kept, dropped, append-nil, add-zero) refl
]

-- On a port in order, a drain takes exactly the callbacks that are ready, in order, leaves the
-- others, and counts each one taken as in flight.
pub drain_ready_lem :
    (now : ℕ) (s : PortState)
    → IsSorted s.tasks
    → s.in_flight + length s.tasks < u64_mod
    → let (batch, t) = drain_ready now s in
      (batch ≡ keep_if (is_ready now) s.tasks)
      × (t.tasks ≡ keep_if (λ u. not (is_ready now u)) s.tasks)
      × (t.in_flight ≡ s.in_flight + length batch)
unfolding drain_ready
drain_ready_lem now s h r = rw (drain_loop_lem now s.tasks s.in_flight [] h r) (refl, refl, refl)
