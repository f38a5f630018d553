-- ===== src/Runtime/Sessions.antt =====
-- From the first start of the runtime to its last stop.
use xgameruntime_rs.Base.{ℕ, ◌+◌, ◌-◌, ◌<◌, ◌≡◌, refl, ap, none, some, true, List, [], ◌∷◌, arith}
use xgameruntime_rs.Results.{e_notimpl}
use xgameruntime_rs.TaskQueue.Queue.{has_process_queue}
use xgameruntime_rs.Runtime.{Runtime, own_handlers, initialize, uninitialize}

-- Starts and stops, in any order.
pub data Call : Type 0 where
  start stop : Call

abbrev pub perform : List Call → Runtime → Runtime
perform [] r = r
perform (start ∷ calls) r = perform calls (initialize r).1
perform (stop ∷ calls) r = perform calls (uninitialize r).1

-- How many starts are open after some calls, where that many are open and the last one never closes.
abbrev pub StaysOpen : ℕ → List Call → ℕ → Type 0
StaysOpen n [] m = (n ≡ m) × (0 < m)
StaysOpen n (start ∷ calls) m = StaysOpen (n + 1) calls m
StaysOpen n (stop ∷ calls) m = (1 < n) × StaysOpen (n - 1) calls m

again :
    (r : Runtime)
    → 0 < r.init_ref_count
    → (initialize r).1 ≡ record r { init_ref_count = r.init_ref_count + 1 }
unfolding initialize
again r h = ground (arith, h)

closes_one :
    (r : Runtime)
    → 1 < r.init_ref_count
    → (uninitialize r).1 ≡ record r { init_ref_count = r.init_ref_count - 1 }
unfolding uninitialize
closes_one r h = ground (arith, h)

perform-StaysOpen :
    (calls : List Call) (r : Runtime) (m : ℕ)
    → 0 < r.init_ref_count
    → StaysOpen r.init_ref_count calls m
    → perform calls r ≡ record r { init_ref_count = m }
perform-StaysOpen [] r m h stays = ap (λ n. record r { init_ref_count = n }) stays.0
perform-StaysOpen (start ∷ calls) r m h stays = rw (again r h) (
    perform-StaysOpen calls (record r { init_ref_count = r.init_ref_count + 1 }) m (omega arith)
      stays)
perform-StaysOpen (stop ∷ calls) r m h (more, stays) = rw (closes_one r more) (
    perform-StaysOpen calls (record r { init_ref_count = r.init_ref_count - 1 }) m
      (omega (arith, more)) stays)

first_start :
    (r : Runtime)
    → r.init_ref_count ≡ 0
    → ((initialize r).1.init_ref_count ≡ 1)
      × ((initialize r).1.handlers ≡ some own_handlers)
      × (has_process_queue (initialize r).1.process ≡ true)
unfolding initialize has_process_queue
first_start r h = ground (arith, h)

last_stop :
    (r : Runtime)
    → r.init_ref_count ≡ 1
    → let stopped = (uninitialize r).1 in
      (stopped.init_ref_count ≡ 0)
      × (stopped.process.process_queue ≡ none)
      × (stopped.process.process_queue_handle ≡ none)
      × (uninitialize stopped ≡ (e_notimpl, stopped))
unfolding uninitialize
last_stop r h = ground (arith, h)

-- From the first start on, whatever starts and stops follow, as long as a start stays open: there is
-- a process queue, the process is as the first start left it, and the handlers for remote sign-in are
-- the runtime's own. When one start is open, its stop uninstalls the process queue with its cached
-- handle, and a stop after that is refused and changes nothing. The title changes nothing in between.
pub perform-session :
    (r : Runtime) (calls : List Call) (m : ℕ)
    → r.init_ref_count ≡ 0
    → StaysOpen 1 calls m
    → let opened = (initialize r).1 in
      let now = perform calls opened in
      let stopped = (uninitialize now).1 in
      (has_process_queue now.process ≡ true)
      × (now.process ≡ opened.process)
      × (now.handlers ≡ some own_handlers)
      × (m ≡ 1
          → (stopped.init_ref_count ≡ 0)
            × (stopped.process.process_queue ≡ none)
            × (stopped.process.process_queue_handle ≡ none)
            × (uninitialize stopped ≡ (e_notimpl, stopped)))
perform-session r calls m h stays =
    let opened = (initialize r).1 in
    let (one, own, queued) = first_start r h in
    let same = perform-StaysOpen calls opened m (omega (arith, one)) (rw one stays) in
    (
      rw same queued,
      rw same refl,
      rw same own,
      λ e. rw same (last_stop (record opened { init_ref_count = m }) e),
    )
