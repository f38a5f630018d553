-- ===== src/TaskQueue/Port/Order.antt =====
-- The order of a port's callbacks: by deadline, those without one first, and by submission among
-- equals.
use xgameruntime_rs.Base.{
  ℕ, zero, suc, ◌≤◌, ◌≡◌, refl, ap, sym, ◌∙◌, Option, none, some, Bool, true, false, not, List, [],
  ◌∷◌, ◌++◌, if◌then◌else◌, leb, arith, length, keep_if, All, Bool-cases, inl, inr, Option-cases,
}
use xgameruntime_rs.TaskQueue.Port.{Task, goes_after, position, insert_at, enqueue}

-- `due ≤ due'`, where no deadline comes before all deadlines.
abbrev pub NotAfter : Option ℕ → Option ℕ → Type 0
NotAfter none e = Unit
NotAfter (some d) none = ⊥
NotAfter (some d) (some e) = d ≤ e

abbrev pub IsSorted : List Task → Type 0
IsSorted [] = Unit
IsSorted (t ∷ ts) = All (λ u. NotAfter t.due u.due) ts × IsSorted ts

-- Whether one deadline comes after another; none comes before all.
abbrev pub is_later : Option ℕ → Option ℕ → Bool
is_later none e = false
is_later (some d) none = true
is_later (some d) (some e) = not (leb d e)

goes_after-eq-is_later : (d e : Option ℕ) → goes_after d e ≡ is_later d e
unfolding goes_after
goes_after-eq-is_later none e = refl
goes_after-eq-is_later (some d) none = refl
goes_after-eq-is_later (some d) (some e) = ground arith

abbrev pub waits_behind : Task → Task → Bool
waits_behind task queued = is_later queued.due task.due

-- The abstract queue: a new callback goes behind every one that is due no later.
abbrev pub place : Task → List Task → List Task
place task [] = task ∷ []
place task (queued ∷ tasks) =
    if is_later queued.due task.due then task ∷ queued ∷ tasks else queued ∷ place task tasks

insert_at_end :
    (task : Task) (tasks : List Task) → insert_at (length tasks) task tasks ≡ tasks ++ task ∷ []
unfolding insert_at
insert_at_end task [] = refl
insert_at_end task (t ∷ ts) = ap (◌∷◌ t) (insert_at_end task ts)

position-none :
    (task : Task) (tasks : List Task)
    → position task.due tasks ≡ none
    → place task tasks ≡ tasks ++ task ∷ []
unfolding position
position-none task [] e = refl
position-none task (t ∷ ts) e =
    ground (arith, goes_after-eq-is_later t.due task.due, position-none task ts)

position-some :
    (task : Task) (tasks : List Task) (i : ℕ)
    → position task.due tasks ≡ some i
    → insert_at i task tasks ≡ place task tasks
unfolding position insert_at
position-some task [] i e = cc
position-some task (t ∷ ts) zero e = ground (arith, goes_after-eq-is_later t.due task.due)
position-some task (t ∷ ts) (suc i) e =
    ground (arith, goes_after-eq-is_later t.due task.due, position-some task ts i)

-- The code's search for a position and its insertion there are the abstract placement.
pub enqueue-eq-place : (task : Task) (tasks : List Task) → enqueue task tasks ≡ place task tasks
unfolding enqueue
enqueue-eq-place task tasks = elim (Option-cases (position task.due tasks)) [
  | inl e ↦ rw (e, enqueue) (insert_at_end task tasks ∙ sym (position-none task tasks e))
  | inr (i, e) ↦ rw (e, enqueue) (position-some task tasks i e)
]

place-All :
    (P : Task → Type 0) (task : Task) (tasks : List Task)
    → P task
    → All P tasks
    → All P (place task tasks)
place-All P task [] p h = (p, tt)
place-All P task (t ∷ ts) p h = ground (arith, place-All P task ts p h.1)

NotAfter-of_is_later : (d e : Option ℕ) → is_later d e ≡ true → NotAfter e d
NotAfter-of_is_later none e h = cc
NotAfter-of_is_later (some d) none h = tt
NotAfter-of_is_later (some d) (some e) h = ground arith

NotAfter-of_not_is_later : (d e : Option ℕ) → is_later d e ≡ false → NotAfter d e
NotAfter-of_not_is_later none e h = tt
NotAfter-of_not_is_later (some d) none h = cc
NotAfter-of_not_is_later (some d) (some e) h = ground arith

NotAfter-trans : (a b c : Option ℕ) → NotAfter a b → NotAfter b c → NotAfter a c
NotAfter-trans none b c h k = tt
NotAfter-trans (some a) none c h k = absurd h
NotAfter-trans (some a) (some b) none h k = absurd k
NotAfter-trans (some a) (some b) (some c) h k = omega arith

All-NotAfter :
    (a b : Option ℕ) (ts : List Task)
    → NotAfter a b
    → All (λ u. NotAfter b u.due) ts
    → All (λ u. NotAfter a u.due) ts
All-NotAfter a b [] h k = tt
All-NotAfter a b (t ∷ ts) h k = (NotAfter-trans a b t.due h k.0, All-NotAfter a b ts h k.1)

place-IsSorted : (task : Task) (tasks : List Task) → IsSorted tasks → IsSorted (place task tasks)
place-IsSorted task [] h = (tt, tt)
place-IsSorted task (t ∷ ts) h = elim (Bool-cases (is_later t.due task.due)) [
  | inl e ↦
      let before = NotAfter-of_is_later t.due task.due e in
      rw e ((before, All-NotAfter task.due t.due ts before h.0), h)
  | inr e ↦ rw e (
    place-All (λ u. NotAfter t.due u.due) task ts (NotAfter-of_not_is_later t.due task.due e) h.0,
    place-IsSorted task ts h.1,
  )
]

is_later_mono : (a b c : Option ℕ) → is_later a c ≡ true → NotAfter a b → is_later b c ≡ true
is_later_mono none b c p q = cc
is_later_mono (some a) none c p q = absurd q
is_later_mono (some a) (some b) none p q = refl
is_later_mono (some a) (some b) (some c) p q = ground arith

All-behind :
    (task : Task) (ts : List Task) (d : Option ℕ)
    → is_later d task.due ≡ true
    → All (λ u. NotAfter d u.due) ts
    → (keep_if (waits_behind task) ts ≡ ts) × (keep_if (λ u. not (waits_behind task u)) ts ≡ [])
All-behind task [] d e h = (refl, refl)
All-behind task (t ∷ ts) d e h =
    let (kept, dropped) = All-behind task ts d e h.1 in
    rw (is_later_mono d t.due task.due e h.0) (ap (◌∷◌ t) kept, dropped)

place_lem :
    (task : Task) (ts : List Task)
    → IsSorted ts
    → place task ts
      ≡ keep_if (λ u. not (waits_behind task u)) ts ++ task ∷ keep_if (waits_behind task) ts
place_lem task [] h = refl
place_lem task (t ∷ ts) h = elim (Bool-cases (is_later t.due task.due)) [
  | inl e ↦ let (kept, dropped) = All-behind task ts t.due e h.0 in rw (e, dropped, kept) refl
  | inr e ↦ rw e (ap (◌∷◌ t) (place_lem task ts h.1))
]

-- A submission keeps a port's callbacks in order. The new one goes behind all that are due no
-- later, in the order in which these stood, and ahead of all that are due later.
pub enqueue_lem :
    (task : Task) (tasks : List Task)
    → IsSorted tasks
    → IsSorted (enqueue task tasks)
      × (enqueue task tasks
          ≡ keep_if (λ u. not (waits_behind task u)) tasks
            ++ task ∷ keep_if (waits_behind task) tasks)
enqueue_lem task tasks h =
    rw (enqueue-eq-place task tasks) (place-IsSorted task tasks h, place_lem task tasks h)

keep_if-All :
    (P : Task → Type 0) (p : Task → Bool) (ts : List Task) → All P ts → All P (keep_if p ts)
keep_if-All P p [] h = tt
keep_if-All P p (t ∷ ts) h = ground (arith, keep_if-All P p ts h.1)

pub keep_if-IsSorted : (p : Task → Bool) (ts : List Task) → IsSorted ts → IsSorted (keep_if p ts)
keep_if-IsSorted p [] h = tt
keep_if-IsSorted p (t ∷ ts) h = elim (Bool-cases (p t)) [
  | inl e ↦ rw e (keep_if-All (λ u. NotAfter t.due u.due) p ts h.0, keep_if-IsSorted p ts h.1)
  | inr e ↦ rw e (keep_if-IsSorted p ts h.1)
]
