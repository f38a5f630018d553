-- ===== src/Picker/Deferred.antt =====
-- src/com/pickers/deferred.rs: work that runs when the thread is back in its message loop. The system
-- is a parameter: whether a window is made, and whether a message to it is posted. It delivers the
-- messages in the order in which they were posted. A job is a number; `ran` are the jobs that ran,
-- newest first.
pub mod Order
use xgameruntime_rs.Base.{
  ℕ, zero, suc, ◌+◌, Option, none, some, Bool, true, false, not, List, [], ◌∷◌, ◌++◌, ◌==◌,
  if◌then◌else◌,
}
use xgameruntime_rs.Base.Heap.{Heap, update}

-- `WM_APP`.
abbrev pub wm_run_deferred : ℕ
wm_run_deferred = 0x8000

-- The thread's windows with their `GWLP_USERDATA`, and its messages: the window and the message.
pub record MessageLoop : Type 0 where
  pub exists : Heap Bool
  pub user_data : Heap (Option ℕ)
  pub next_window : ℕ
  pub messages : List (ℕ × ℕ)
  pub ran : List ℕ

abbrev create_window : MessageLoop → MessageLoop
create_window s = record s {
  exists = update s.exists s.next_window true;
  user_data = update s.user_data s.next_window none;
  next_window = suc s.next_window;
}

abbrev destroy_window : ℕ → MessageLoop → MessageLoop
destroy_window window s = record s { exists = update s.exists window false }

abbrev set_user_data : ℕ → Option ℕ → MessageLoop → MessageLoop
set_user_data window stored s = record s { user_data = update s.user_data window stored }

-- `run_later`: `created` is whether the window is made, `posted` whether the message is.
unfoldable pub run_later : Bool → Bool → ℕ → MessageLoop → Bool × MessageLoop
run_later created posted work s =
    let window = s.next_window in
    let stored = set_user_data window (some work) (create_window s) in
    if not created
    then (false, s)
    else if posted
    then (true, record stored { messages = stored.messages ++ ((window, wm_run_deferred) ∷ []) })
    else (false, destroy_window window stored)

abbrev run_work : Option ℕ → MessageLoop → MessageLoop
run_work none s = s
run_work (some work) s = record s { ran = work ∷ s.ran }

-- `deferred_wnd_proc`. Any other message is the system's.
unfoldable pub deferred_wnd_proc : ℕ → ℕ → MessageLoop → MessageLoop
deferred_wnd_proc window message s =
    if not (message == wm_run_deferred)
    then s
    else run_work (s.user_data window) (destroy_window window (set_user_data window none s))

-- The title's loop: one message, to a window that is still there.
unfoldable pub pump_one : MessageLoop → MessageLoop
unfolding deferred_wnd_proc
pump_one s = elim s.messages [
  | [] ↦ s
  | (window, message) ∷ messages ↦
      let taken = record s { messages = messages } in
      let delivered = deferred_wnd_proc window message taken in
      if s.exists window then delivered else taken
]

abbrev pub pump : ℕ → MessageLoop → MessageLoop
pump zero s = s
pump (suc n) s = pump n (pump_one s)
