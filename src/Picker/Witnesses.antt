-- ===== src/Picker/Witnesses.antt =====
-- The theorem on picks at a cancelled pick: it succeeds, with no file. The theorem on deferred work
-- at three jobs, of which the system refuses one.
use xgameruntime_rs.Base.{◌≡◌, refl, List, length, none, some, true, false, [], ◌∷◌}
use xgameruntime_rs.Results.{err, ok, e_illegal_method_call}
use xgameruntime_rs.Picker.{AsyncStatus, finish_pick, set_completed, get_results, start_pick}
use xgameruntime_rs.Picker.Deferred.{MessageLoop, pump}
use xgameruntime_rs.Picker.Deferred.Order.{Request, defer_all, pump-defer_all}
use xgameruntime_rs.Picker.Completion.{finish_pick-set_completed}

finish_pick-set_completed_example :
    let early = finish_pick (ok none) (set_completed (some 5) (start_pick true)) in
    let late = set_completed (some 5) (finish_pick (ok none) (start_pick true)) in
    (early ≡ late)
    × (early.calls ≡ (5, AsyncStatus.completed) ∷ [])
    × (get_results early ≡ ok none)
    × (get_results (set_completed (some 5) (start_pick true)) ≡ err e_illegal_method_call)
    × ((set_completed (some 5) (start_pick false)).calls ≡ (5, AsyncStatus.failed) ∷ [])
finish_pick-set_completed_example = finish_pick-set_completed (ok none) 5

abbrev idle_loop : MessageLoop
idle_loop = record {
  exists = λ window. false;
  user_data = λ window. none;
  next_window = 1;
  messages = [];
  ran = [];
}

abbrev three_requests : List Request
three_requests =
    record { work = 7; created = true; posted = true }
    ∷ record { work = 8; created = true; posted = false }
    ∷ record { work = 9; created = true; posted = true }
    ∷ []

pump-defer_all_example :
    let waiting = defer_all three_requests idle_loop in
    let done = pump (length waiting.messages) waiting in
    (length waiting.messages ≡ 2) × (done.ran ≡ 9 ∷ 7 ∷ []) × (done.messages ≡ [])
pump-defer_all_example = pump-defer_all three_requests idle_loop refl
