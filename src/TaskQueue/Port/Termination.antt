-- ===== src/TaskQueue/Port/Termination.antt =====
-- What `terminate_context` cancels and when it returns, whatever other threads do meanwhile.
use xgameruntime_rs.Base.{
  ℕ, zero, suc, ◌-◌, ◌<◌, ◌≡◌, ◌≢◌, refl, ap, sym, subst, ◌∙◌, inl, inr, Option, none, some, Bool,
  true, false, not, ◌&&◌, List, [], ◌∷◌, ◌++◌, ltb, ◌==◌, if◌then◌else◌, arith, keep_if, All,
  length, leb, u64_mod, Bool-cases, ==_iff,
}
use xgameruntime_rs.TaskQueue.Port.{Task, PortState, detach, drain_all, finish_one}
use xgameruntime_rs.TaskQueue.Port.Calls.{Termination, wait_drained, terminate_context}
use xgameruntime_rs.TaskQueue.Port.Batches.{is_mine, detach_lem}

-- What a wait returns with is one of the states that it sees: the first in which no callback is in
-- flight. It goes on where every state has one.
abbrev pub Returns : Option PortState → List PortState → Type 0
Returns none seen = All (λ s. s.in_flight ≢ 0) seen
Returns (some u) seen =
    (before : List PortState) × (later : List PortState) × (seen ≡ before ++ u ∷ later)
    × All (λ s. s.in_flight ≢ 0) before
    × (u.in_flight ≡ 0)

Returns-busy :
    (o : Option PortState) (s : PortState) (seen : List PortState)
    → s.in_flight ≢ 0
    → Returns o seen
    → Returns o (s ∷ seen)
Returns-busy none s seen h r = (h, r)
Returns-busy (some u) s seen h (before, later, e, busy, idle) =
    (s ∷ before, later, ap (λ ss. s ∷ ss) e, (h, busy), idle)

wait_drained-Returns :
    (s : PortState) (wakes : List PortState) → Returns (wait_drained s wakes) (s ∷ wakes)
unfolding wait_drained
wait_drained-Returns s [] = elim (Bool-cases (s.in_flight == 0)) [
  | inl e ↦ rw e ([], [], refl, tt, (==_iff s.in_flight 0).0 e)
  | inr e ↦ rw e ((λ z. absurd (ground (arith, e, z))), tt)
]
wait_drained-Returns s (w ∷ ws) = elim (Bool-cases (s.in_flight == 0)) [
  | inl e ↦ rw e ([], w ∷ ws, refl, tt, (==_iff s.in_flight 0).0 e)
  | inr e ↦ rw e (
      Returns-busy (wait_drained w ws) s (w ∷ ws) (λ z. absurd (ground (arith, e, z)))
        (wait_drained-Returns w ws))
]

-- The port as its callbacks in flight end one after the other, at these times: the states on the
-- way, and the last.
abbrev pub finishing : List ℕ → PortState → List PortState
finishing [] s = []
finishing (ms ∷ times) s = finish_one ms s ∷ finishing times (finish_one ms s)

abbrev pub finished : ℕ → List ℕ → PortState → PortState
finished zero times s = s
finished (suc n) [] s = s
finished (suc n) (ms ∷ times) s = finished n times (finish_one ms s)

finish_one-in_flight :
    (ms n : ℕ) (s : PortState)
    → s.in_flight ≡ suc n
    → suc n < u64_mod
    → (finish_one ms s).in_flight ≡ n
unfolding finish_one
finish_one-in_flight ms n s e h = rw e (omega (arith, h))

wait_drained-finishing :
    (n : ℕ) (times : List ℕ) (s : PortState)
    → s.in_flight ≡ n
    → n < u64_mod
    → (wait_drained s (finishing times s)
        ≡ (if leb n (length times) then some (finished n times s) else none))
      × ((finished n times s).in_flight ≡ n - length times)
unfolding wait_drained
wait_drained-finishing zero [] s e h = (rw e refl, omega (arith, e))
wait_drained-finishing zero (ms ∷ times) s e h = (ground (arith, e), omega (arith, e))
wait_drained-finishing (suc n) [] s e h = (ground (arith, e), omega (arith, e))
wait_drained-finishing (suc n) (ms ∷ times) s e h =
    let (r, left) =
      wait_drained-finishing n times (finish_one ms s) (finish_one-in_flight ms n s e h)
        (omega (arith, h)) in
    (ground (arith, r, e), omega (arith, left))

pub drain_rest_lem :
    (owner : ℕ) (s : PortState) → (detach owner s).1 ≡ (ltb s.active_contexts 2 && not s.terminated)
unfolding detach
drain_rest_lem owner s = ground arith

pub detach-active_contexts :
    (owner : ℕ) (s : PortState) → (detach owner s).2.active_contexts ≡ s.active_contexts - 1
unfolding detach
detach-active_contexts owner s = ground arith

-- The callbacks that a termination cancels are those of its context, in order, and then, if it was
-- the last one on a live port, all that is queued by then, whether it waits or not.
pub terminate_context_lem :
    (env : Termination) (owner : ℕ) (wait : Bool) (s : PortState)
    → let (pending, drain_rest, detached) = detach owner s in
      (terminate_context env owner wait s).0
      ≡ keep_if (is_mine owner) s.tasks
        ++ (if (ltb s.active_contexts 2 && not s.terminated)
            then (env.during_cancel pending detached).tasks
            else [])
unfolding terminate_context
terminate_context_lem env owner wait s =
    rw (← (detach_lem owner s).0, ← drain_rest_lem owner s)
      (go (detach owner s).0 (detach owner s).1
        (env.during_cancel (detach owner s).0 (detach owner s).2))
  where
    go :
        (pending : List Task) (drain_rest : Bool) (p : PortState)
        → pending ++ (if drain_rest then drain_all p else ([], p)).0
          ≡ pending ++ (if drain_rest then p.tasks else [])
    go pending true p = refl
    go pending false p = refl

-- What a termination that waits returns with, of what the other leaves.
abbrev waited : List PortState → Option PortState → Option PortState
waited wakes none = none
waited wakes (some t) = wait_drained t wakes

terminate_context-waited :
    (env : Termination) (owner : ℕ) (s : PortState)
    → (terminate_context env owner true s).1
      ≡ waited env.wakes (terminate_context env owner false s).1
unfolding terminate_context
terminate_context-waited env owner s = refl

-- A termination that waits, from a state that one that does not wait would leave as `t`: it returns
-- with the first state, of `t` and those that it wakes up to, in which no callback is in flight, and
-- goes on while there is none. Where nothing happens meanwhile but that callbacks in flight end, one
-- at each wake-up, it returns once all that were in flight in `t` have ended, and not before.
pub terminate_context-wait :
    (env : Termination) (owner : ℕ) (s t : PortState) (times : List ℕ)
    → (terminate_context env owner false s).1 ≡ some t
    → t.in_flight < u64_mod
    → Returns (terminate_context env owner true s).1 (t ∷ env.wakes)
      × ((terminate_context (record env { wakes = finishing times t }) owner true s).1
          ≡ (if leb t.in_flight (length times) then some (finished t.in_flight times t) else none))
      × ((finished t.in_flight times t).in_flight ≡ t.in_flight - length times)
unfolding terminate_context
terminate_context-wait env owner s t times e h =
    let (ends, left) = wait_drained-finishing t.in_flight times t refl h in
    (
      subst (λ o. Returns o (t ∷ env.wakes))
          (sym (terminate_context-waited env owner s ∙ ap (waited env.wakes) e))
          (wait_drained-Returns t env.wakes),
      ap (waited (finishing times t)) e ∙ ends,
      left,
    )

-- A context is terminated so many times in a row.
abbrev pub terminations : ℕ → ℕ → PortState → PortState
terminations zero owner s = s
terminations (suc n) owner s = terminations n owner (detach owner s).2

terminations_absorb :
    (n owner : ℕ) (s : PortState) → s.terminated ≡ true → (terminations n owner s).terminated ≡ true
terminations_absorb zero owner s h = h
terminations_absorb (suc n) owner s h =
    terminations_absorb n owner (detach owner s).2 ((detach_lem owner s).3.1 (inr h))

-- On a port with so many contexts, as many terminations of one context as there are contexts kill
-- the port: each takes one off the count, also a second one of the same context.
terminations-dead :
    (n owner : ℕ) (s : PortState)
    → s.active_contexts ≡ suc n
    → (terminations (suc n) owner s).terminated ≡ true
terminations-dead zero owner s h = (detach_lem owner s).3.1 (inl (omega arith))
terminations-dead (suc n) owner s h =
    terminations-dead n owner (detach owner s).2 (omega (arith, detach-active_contexts owner s))
