-- ===== src/TaskQueue/Traffic/Safety.antt =====
-- Over every interleaving, a port loses no callback and runs none twice, its count of callbacks in
-- flight is exact, and its list stays in order.
use xgameruntime_rs.Base.{
  ℕ, ◌+◌, ◌-◌, ◌%◌, ◌≤◌, ◌<◌, ◌≡◌, ◌⊎◌, refl, ap, subst, inl, inr, Option, some, Bool, true, false,
  ◌||◌, List, [], ◌∷◌, ◌++◌, ◌==◌, length, length-append, arith, u64_mod, keep_if, All, All-append,
  Bool-cases,
}
use xgameruntime_rs.Base.Count.{
  count_if, count_if-append, count_if-keep_if, count_if-length, Splits-length,
}
use xgameruntime_rs.TaskQueue.Modes.{
  DispatchMode, manual, thread_pool, serialized_thread_pool, immediate,
}
use xgameruntime_rs.TaskQueue.Port.{
  Task, PortState, default, enqueue, add_context, detach, drain_all, pop_front, take_ready,
  begin_inline, finish_one, drain_ready, finish_n,
}
use xgameruntime_rs.TaskQueue.Port.Calls.{
  inline, own_thread, queued, submit_locked, own_thread_canceled,
}
use xgameruntime_rs.TaskQueue.Port.Order.{
  IsSorted, place, enqueue-eq-place, enqueue_lem, keep_if-IsSorted,
}
use xgameruntime_rs.TaskQueue.Port.Batches.{is_mine, is_ready, detach_lem, drain_ready_lem}
use xgameruntime_rs.TaskQueue.Traffic.{
  Traffic, idle, Step, attach, enqueues, begins_inline, sleeps, wakes, wakes_canceled, takes,
  drains, finishes, finishes_batch, terminates, drains_dead, Reach, here, next,
}

abbrev pub has_owner : ℕ → List ℕ → Bool
has_owner owner [] = false
has_owner owner (o ∷ os) = (o == owner) || has_owner owner os

pub record Inv (t : Traffic) : Type 0 where
  -- Every accepted callback is queued, in hand, run or canceled, exactly once.
  pub conserved :
      (p : Task → Bool)
      → count_if p t.accepted
        ≡ count_if p t.port.tasks
          + (count_if p t.running + count_if p t.sleeping)
          + (count_if p t.finished + count_if p t.canceled)
  pub counted : t.port.in_flight ≡ length t.running
  pub sorted : IsSorted t.port.tasks
  -- While the port lives, only callbacks of terminated contexts have been canceled.
  pub blamed : (t.port.terminated ≡ true) ⊎ All (λ u. has_owner u.owner t.ended ≡ true) t.canceled

pub idle-Inv : Inv idle
unfolding idle default
idle-Inv = record { conserved = λ p. refl; counted = refl; sorted = tt; blamed = inr tt }

count_if-enqueue :
    (p : Task → Bool) (task : Task) (ts : List Task)
    → count_if p (enqueue task ts) ≡ count_if p (task ∷ ts)
count_if-enqueue p task ts = rw (enqueue-eq-place task ts) (go ts)
  where
    go : (us : List Task) → count_if p (place task us) ≡ count_if p (task ∷ us)
    go [] = refl
    go (u ∷ us) = ground (arith, go us)

pub submit-queued :
    (mode : DispatchMode) (parallelism : Option ℕ) (owner context callback delay now : ℕ)
    (s p : PortState) (task : Task) (workers : ℕ)
    → submit_locked mode parallelism owner false context callback delay now s
      ≡ (queued task workers, p)
    → (p.tasks ≡ enqueue task s.tasks)
      × (p.in_flight ≡ s.in_flight)
      × (p.terminated ≡ false)
      × (s.terminated ≡ false)
unfolding submit_locked
submit-queued manual par o c k d n s p task w e = ground arith
submit-queued thread_pool par o c k d n s p task w e = ground arith
submit-queued serialized_thread_pool par o c k d n s p task w e = ground arith
submit-queued immediate par o c k d n s p task w e = ground arith

submit-inline :
    (mode : DispatchMode) (parallelism : Option ℕ) (owner context callback delay now : ℕ)
    (s p : PortState) (task : Task)
    → submit_locked mode parallelism owner false context callback delay now s ≡ (inline task, p)
    → p ≡ begin_inline s
unfolding submit_locked
submit-inline manual par o c k d n s p task e = ground arith
submit-inline thread_pool par o c k d n s p task e = ground arith
submit-inline serialized_thread_pool par o c k d n s p task e = ground arith
submit-inline immediate par o c k d n s p task e = ground arith

submit-own_thread :
    (mode : DispatchMode) (parallelism : Option ℕ) (owner context callback delay now : ℕ)
    (s p : PortState) (task : Task)
    → submit_locked mode parallelism owner false context callback delay now s ≡ (own_thread task, p)
    → p ≡ s
unfolding submit_locked
submit-own_thread manual par o c k d n s p task e = ground arith
submit-own_thread thread_pool par o c k d n s p task e = ground arith
submit-own_thread serialized_thread_pool par o c k d n s p task e = ground arith
submit-own_thread immediate par o c k d n s p task e = ground arith

-- What is queued or running was accepted.
in_hand_le : (t : Traffic) → Inv t → length t.running + length t.port.tasks ≤ length t.accepted
in_hand_le t v = omega (
  arith,
  v.conserved (λ _. true),
  count_if-length t.accepted,
  count_if-length t.port.tasks,
  count_if-length t.running,
)

All-mono_ended :
    (owner : ℕ) (os : List ℕ) (ts : List Task)
    → All (λ u. has_owner u.owner os ≡ true) ts
    → All (λ u. has_owner u.owner (owner ∷ os) ≡ true) ts
All-mono_ended owner os [] h = tt
All-mono_ended owner os (t ∷ ts) h = (ground arith, All-mono_ended owner os ts h.1)

All-mine :
    (owner : ℕ) (os : List ℕ) (ts : List Task)
    → All (λ u. has_owner u.owner (owner ∷ os) ≡ true) (keep_if (is_mine owner) ts)
All-mine owner os [] = tt
All-mine owner os (t ∷ ts) = elim (Bool-cases (t.owner == owner)) [
  | inl e ↦ rw e (ground arith, All-mine owner os ts)
  | inr e ↦ rw e (All-mine owner os ts)
]

take_ready_lem :
    (now : ℕ) (s p : PortState) (task : Task)
    → take_ready now s ≡ some (task, p)
    → (s.tasks ≡ task ∷ p.tasks)
      × (p.in_flight ≡ (s.in_flight + 1) % 18446744073709551616)
      × (p.terminated ≡ s.terminated)
unfolding take_ready
take_ready_lem now s p task e = go s.tasks refl e
  where
    go :
        (ts : List Task)
        → s.tasks ≡ ts
        → pop_front ts now s ≡ some (task, p)
        → (s.tasks ≡ task ∷ p.tasks)
          × (p.in_flight ≡ (s.in_flight + 1) % 18446744073709551616)
          × (p.terminated ≡ s.terminated)
    go [] q e = cc
    go (t ∷ ts) q e = ground arith

finish_n_lem :
    (n now_ms : ℕ) (s : PortState)
    → let p = finish_n n now_ms s in
      (p.tasks ≡ s.tasks)
      × (s.in_flight < u64_mod → n ≤ s.in_flight → p.in_flight ≡ s.in_flight - n)
      × (p.terminated ≡ s.terminated)
unfolding finish_n
finish_n_lem n now_ms s = (ground arith, λ b h. ground arith, ground arith)

drain_ready-terminated : (now : ℕ) (s : PortState) → (drain_ready now s).1.terminated ≡ s.terminated
unfolding drain_ready
drain_ready-terminated now s = refl

detach-in_flight : (owner : ℕ) (s : PortState) → (detach owner s).2.in_flight ≡ s.in_flight
unfolding detach
detach-in_flight owner s = refl

alive_blamed :
    (t : Traffic)
    → Inv t
    → t.port.terminated ≡ false
    → All (λ u. has_owner u.owner t.ended ≡ true) t.canceled
alive_blamed t v alive = elim v.blamed [ inl dead ↦ cc | inr h ↦ h ]

terminates-blamed :
    (t : Traffic) (owner : ℕ)
    → Inv t
    → ((detach owner t.port).2.terminated ≡ true)
      ⊎ All
          (λ u. has_owner u.owner (owner ∷ t.ended) ≡ true)
          ((detach owner t.port).0 ++ t.canceled)
terminates-blamed t owner v =
    let (out, left, last, dead) = detach_lem owner t.port in
    elim v.blamed [
      | inl was ↦ inl (dead.1 (inr was))
      | inr h ↦ inr (
          rw out (
            All-append _ (keep_if (is_mine owner) t.port.tasks) t.canceled
              (All-mine owner t.ended t.port.tasks) (All-mono_ended owner t.ended t.canceled h)))
    ]

Step-Inv :
    (mode : DispatchMode) {t u : Traffic}
    → Step mode t u
    → length u.accepted < u64_mod
    → Inv t
    → Inv u
unfolding own_thread_canceled
Step-Inv mode (attach t) r v =
    unfold add_context in
    record { conserved = v.conserved; counted = v.counted; sorted = v.sorted; blamed = v.blamed }
Step-Inv mode (enqueues t par o c k d n w task p e) r v =
    let (queue, flight, alive, was) = submit-queued mode par o c k d n t.port p task w e in
    record {
      conserved = λ q.
          ground
            (arith, v.conserved q, ap (count_if q) queue, count_if-enqueue q task t.port.tasks);
      counted = ground (arith, v.counted);
      sorted = rw queue (enqueue_lem task t.port.tasks v.sorted).0;
      blamed = inr (alive_blamed t v was);
    }
Step-Inv mode (begins_inline t par o c k d n task p e) r v =
    let same = submit-inline mode par o c k d n t.port p task e in
    unfold begin_inline in
    record {
      conserved = λ q. ground (arith, v.conserved q, same);
      counted = ground (arith, v.counted, in_hand_le t v, same);
      sorted = rw same v.sorted;
      blamed = rw same v.blamed;
    }
Step-Inv mode (sleeps t par o c k d n task p e) r v =
    let same = submit-own_thread mode par o c k d n t.port p task e in
    record {
      conserved = λ q. ground (arith, v.conserved q, same);
      counted = ground (arith, v.counted, same);
      sorted = rw same v.sorted;
      blamed = rw same v.blamed;
    }
Step-Inv mode (wakes t task rest split live) r v = record {
  conserved = λ q. ground (arith, v.conserved q, split q);
  counted = v.counted;
  sorted = v.sorted;
  blamed = v.blamed;
}
Step-Inv mode (wakes_canceled t task rest split dead) r v = record {
  conserved = λ q. ground (arith, v.conserved q, split q);
  counted = v.counted;
  sorted = v.sorted;
  blamed = inl dead;
}
Step-Inv mode (takes t now task p alive e) r v =
    let (front, flight, same) = take_ready_lem now t.port p task e in
    record {
      conserved = λ q. ground (arith, v.conserved q, ap (count_if q) front);
      counted = omega (arith, v.counted, flight, ap length front, in_hand_le t v);
      sorted = (subst IsSorted front v.sorted).1;
      blamed = rw same v.blamed;
    }
Step-Inv mode (drains t now) r v =
    let (out, left, flight) =
      drain_ready_lem now t.port v.sorted (omega (arith, v.counted, in_hand_le t v)) in
    record {
      conserved = λ q. omega (
        arith,
        v.conserved q,
        count_if-append q (drain_ready now t.port).0 t.running,
        ap (count_if q) out,
        ap (count_if q) left,
        count_if-keep_if q (is_ready now) t.port.tasks,
      );
      counted =
          omega (arith, v.counted, flight, length-append (drain_ready now t.port).0 t.running);
      sorted = rw left (keep_if-IsSorted _ t.port.tasks v.sorted);
      blamed = rw (drain_ready-terminated now t.port) v.blamed;
    }
Step-Inv mode (finishes t m task rest split) r v =
    unfold finish_one in
    record {
      conserved = λ q. ground (arith, v.conserved q, split q);
      counted =
          omega (arith, v.counted, Splits-length t.running (task ∷ []) rest split, in_hand_le t v);
      sorted = v.sorted;
      blamed = v.blamed;
    }
Step-Inv mode (finishes_batch t m batch rest split) r v =
    let (queue, flight, same) = finish_n_lem (length batch) m t.port in
    record {
      conserved = λ q. omega (
        arith,
        v.conserved q,
        split q,
        count_if-append q batch t.finished,
        ap (count_if q) queue,
      );
      counted =
          omega
            (arith, v.counted, flight, Splits-length t.running batch rest split, in_hand_le t v);
      sorted = rw queue v.sorted;
      blamed = rw same v.blamed;
    }
Step-Inv mode (terminates t owner) r v =
    let (out, left, last, dead) = detach_lem owner t.port in
    record {
      conserved = λ q. omega (
        arith,
        v.conserved q,
        count_if-append q (detach owner t.port).0 t.canceled,
        ap (count_if q) out,
        ap (count_if q) left,
        count_if-keep_if q (is_mine owner) t.port.tasks,
      );
      counted = rw (detach-in_flight owner t.port) v.counted;
      sorted = rw left (keep_if-IsSorted _ t.port.tasks v.sorted);
      blamed = terminates-blamed t owner v;
    }
Step-Inv mode (drains_dead t dead) r v =
    unfold drain_all in
    record {
      conserved = λ q. omega (arith, v.conserved q, count_if-append q t.port.tasks t.canceled);
      counted = v.counted;
      sorted = tt;
      blamed = inl dead;
    }

Step-accepted :
    (mode : DispatchMode) {t u : Traffic} → Step mode t u → length t.accepted ≤ length u.accepted
Step-accepted mode (attach t) = omega arith
Step-accepted mode (enqueues t par o c k d n w task p e) = omega arith
Step-accepted mode (begins_inline t par o c k d n task p e) = omega arith
Step-accepted mode (sleeps t par o c k d n task p e) = omega arith
Step-accepted mode (wakes t task rest split live) = omega arith
Step-accepted mode (wakes_canceled t task rest split dead) = omega arith
Step-accepted mode (takes t now task p alive e) = omega arith
Step-accepted mode (drains t now) = omega arith
Step-accepted mode (finishes t m task rest split) = omega arith
Step-accepted mode (finishes_batch t m batch rest split) = omega arith
Step-accepted mode (terminates t owner) = omega arith
Step-accepted mode (drains_dead t dead) = omega arith

-- From an idle port, after any interleaving of steps that accepts fewer than 2^64 callbacks: each
-- accepted callback is queued, in a thread's hands, run, or canceled, in exactly one of these
-- places; `in_flight` is the number of callbacks taken and not yet accounted for; the queue is in
-- order; and while the port lives, every canceled callback is one of a terminated context.
pub Reach-Inv :
    (mode : DispatchMode) {t : Traffic} → Reach mode idle t → length t.accepted < u64_mod → Inv t
Reach-Inv mode here r = idle-Inv
Reach-Inv mode (next before s) r =
    Step-Inv mode s r (Reach-Inv mode before (omega (arith, Step-accepted mode s, r)))
