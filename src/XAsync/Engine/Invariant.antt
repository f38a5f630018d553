-- ===== src/XAsync/Engine/Invariant.antt =====
-- What holds of the engine between calls, and how a call may change it. A provider, a completion
-- routine or a monitor that acts on the engine through its exports keeps both.
use xgameruntime_rs.Base.{
  ℕ, ◌≤◌, ◌<◌, ◌≡◌, ◌≢◌, Option, some, Bool, true, false, ◌&&◌, ◌==◌, if◌then◌else◌, arith,
}
use xgameruntime_rs.Base.Heap.{Heap}
use xgameruntime_rs.Base.Count.{count_if}
use xgameruntime_rs.Results.{e_pending}
use xgameruntime_rs.TaskQueue.Port.{Task}
use xgameruntime_rs.TaskQueue.Queue.{Process, Monitor}
use xgameruntime_rs.XAsync.Block.{XAsyncOp, begin, do_work, get_result, cancel, cleanup, XAsyncOp}
use xgameruntime_rs.XAsync.Engine.{
  AsyncState, Engine, Environment, XAsyncProviderData, inner_of, state_of,
}

abbrev pub is_cleanup_op : XAsyncOp → Bool
is_cleanup_op cleanup = true
is_cleanup_op begin = false
is_cleanup_op do_work = false
is_cleanup_op get_result = false
is_cleanup_op cancel = false

abbrev pub is_cleanup_of : ℕ → ℕ × XAsyncOp → Bool
is_cleanup_of ref (r, op) = (r == ref) && is_cleanup_op op

-- How often a call's provider has been sent `Cleanup`.
abbrev pub cleanups : ℕ → Engine → ℕ
cleanups ref w = count_if (is_cleanup_of ref) w.log

abbrev pub flag : Bool → ℕ
flag true = 1
flag false = 0

pub record Inv (w : Engine) : Type 0 where
  -- A provider has been sent `Cleanup` once if its call is cleaned up, and otherwise never.
  pub once : (ref : ℕ) → ref < w.next_state → cleanups ref w ≡ flag (inner_of ref w).cleaned_up
  pub fresh : (ref : ℕ) → w.next_state ≤ ref → cleanups ref w ≡ 0
  -- A block drives only calls that exist.
  pub attached : (block ref : ℕ) → state_of block w ≡ some ref → ref < w.next_state

-- From one moment to a later one, for one call: it is the same call, a settled status stays, and
-- so do its marks.
pub record Ages (s t : AsyncState) : Type 0 where
  pub same_block : t.block ≡ s.block
  pub same_queue : t.queue ≡ s.queue
  pub same_provider : t.provider ≡ s.provider
  pub settled :
      s.inner.status ≢ e_pending
      → (t.inner.status ≡ s.inner.status) × (t.inner.result_size ≡ s.inner.result_size)
  pub canceled : s.inner.canceled ≡ true → t.inner.canceled ≡ true
  pub cleaned_up : s.inner.cleaned_up ≡ true → t.inner.cleaned_up ≡ true

pub record Later (bound : ℕ) (w w' : Engine) : Type 0 where
  pub grows : w.next_state ≤ w'.next_state
  pub ages : (ref : ℕ) → ref < bound → Ages (w.states ref) (w'.states ref)

-- The invariant is kept, and all calls that there were age.
abbrev pub Keeps : Engine → Engine → Type 0
Keeps w w' = Inv w → Inv w' × Later w.next_state w w'

pub record Respects (env : Environment) : Type 0 where
  pub provider :
      (f : ℕ) (op : XAsyncOp) (given : XAsyncProviderData) (w : Engine)
      → Keeps w (env.provider f op given w).1
  pub routine : (f block : ℕ) (w : Engine) → Keeps w (env.routine f block w)
  pub notify : (m : Monitor) (handle port : ℕ) (w : Engine) → Keeps w (env.notify m handle port w)
  pub run : (task : Task) (canceled : Bool) (w : Engine) → Keeps w (env.run task canceled w)

pub Ages-refl : (s : AsyncState) → Ages s s
Ages-refl s = ground arith

pub Ages-trans : (s t u : AsyncState) → Ages s t → Ages t u → Ages s u
Ages-trans s t u a b = ground arith

pub Later-refl : (n : ℕ) (w : Engine) → Later n w w
Later-refl n w = record { grows = omega arith; ages = λ ref h. Ages-refl (w.states ref) }

pub Later-trans :
    (n : ℕ) (u v w : Engine) → n ≤ u.next_state → Later n u v → Later v.next_state v w → Later n u w
Later-trans n u v w h a b = record {
  grows = omega (arith, a.grows, b.grows);
  ages = λ ref l.
      Ages-trans (u.states ref) (v.states ref) (w.states ref) (a.ages ref l)
        (b.ages ref (omega (arith, a.grows)));
}

pub Keeps-refl : (w : Engine) → Keeps w w
Keeps-refl w h = (h, Later-refl w.next_state w)

pub Keeps-trans : (u v w : Engine) → Keeps u v → Keeps v w → Keeps u w
Keeps-trans u v w p q h =
    let (hv, a) = p h in
    let (hw, b) = q hv in (hw, Later-trans u.next_state u v w (omega arith) a b)

-- A change elsewhere keeps everything.
pub Keeps-process : (w : Engine) (p : Process) → Keeps w (record w { process = p })
unfolding state_of
Keeps-process w p h = (
  record { once = h.once; fresh = h.fresh; attached = h.attached },
  record { grows = omega arith; ages = λ ref l. Ages-refl (w.states ref) },
)

pub Keeps-current : (w : Engine) (c : Option ℕ) → Keeps w (record w { current = c })
unfolding state_of
Keeps-current w c h = (
  record { once = h.once; fresh = h.fresh; attached = h.attached },
  record { grows = omega arith; ages = λ ref l. Ages-refl (w.states ref) },
)

pub Keeps-if : (b : Bool) (w u v : Engine) → Keeps w u → Keeps w v → Keeps w (if b then u else v)
Keeps-if true w u v p q = p
Keeps-if false w u v p q = q

pub Keeps-boxes :
    (w : Engine) (boxes : Heap (ℕ × ℕ)) (n : ℕ) → Keeps w (record w { boxes = boxes; next_box = n })
unfolding state_of
Keeps-boxes w boxes n h = (
  record { once = h.once; fresh = h.fresh; attached = h.attached },
  record { grows = omega arith; ages = λ ref l. Ages-refl (w.states ref) },
)
