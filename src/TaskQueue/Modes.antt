-- ===== src/TaskQueue/Modes.antt =====
-- src/com/xasync/task_queue.rs, `DispatchMode` and `PortKind`: the numbers that stand for them at
-- the interface.
use xgameruntime_rs.Base.{ℕ, ◌≡◌, ◌↔◌, Option, none, some, ◌==◌, if◌then◌else◌, arith}

pub data DispatchMode : Type 0 where
  manual thread_pool serialized_thread_pool immediate : DispatchMode

pub data PortKind : Type 0 where
  work completion : PortKind

unfoldable pub mode_from_raw : ℕ → Option DispatchMode
mode_from_raw value =
    if value == 0
    then some manual
    else if value == 1
    then some thread_pool
    else if value == 2
    then some serialized_thread_pool
    else if value == 3
    then some immediate
    else none

unfoldable pub kind_from_raw : ℕ → Option PortKind
kind_from_raw value = if value == 0 then some work else if value == 1 then some completion else none

unfoldable pub as_raw : PortKind → ℕ
as_raw work = 0
as_raw completion = 1

-- A number names a kind of port exactly if it is that kind's number.
pub kind_from_raw-as_raw : (v : ℕ) (k : PortKind) → kind_from_raw v ≡ some k ↔ (as_raw k ≡ v)
unfolding kind_from_raw as_raw
kind_from_raw-as_raw v work = (λ e. ground arith, λ e. ground arith)
kind_from_raw-as_raw v completion = (λ e. ground arith, λ e. ground arith)
