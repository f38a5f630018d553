-- ===== src/Picker/Completion.antt =====
-- The completion handler and the end of a pick, in either order.
use xgameruntime_rs.Base.{ℕ, ◌≡◌, refl, Option, some, true, false, [], ◌∷◌}
use xgameruntime_rs.Results.{Result, ok, err, e_illegal_method_call}
use xgameruntime_rs.Picker.{AsyncStatus, finish_pick, set_completed, get_results, start_pick}

-- The status of an operation that ended so.
abbrev pub status_of : Result (Option ℕ) → AsyncStatus
status_of (ok picked) = AsyncStatus.completed
status_of (err hr) = AsyncStatus.failed

-- The end of a pick and the title's registration of a handler can come in either order: the
-- operation is the same after both, the handler has been called once, with the status that the pick
-- ended with, and the results are the pick's. Until the pick ends, asking for the results gives
-- `E_ILLEGAL_METHOD_CALL`. A pick that could not be queued ends as a failure, and its handler is
-- called all the same.
pub finish_pick-set_completed :
    (outcome : Result (Option ℕ)) (handler : ℕ)
    → let early = finish_pick outcome (set_completed (some handler) (start_pick true)) in
      let late = set_completed (some handler) (finish_pick outcome (start_pick true)) in
      (early ≡ late)
      × (early.calls ≡ (handler, status_of outcome) ∷ [])
      × (get_results early ≡ outcome)
      × (get_results (set_completed (some handler) (start_pick true)) ≡ err e_illegal_method_call)
      × ((set_completed (some handler) (start_pick false)).calls
          ≡ (handler, AsyncStatus.failed) ∷ [])
unfolding finish_pick set_completed get_results start_pick
finish_pick-set_completed (ok picked) handler = (refl, refl, refl, refl, refl)
finish_pick-set_completed (err hr) handler = (refl, refl, refl, refl, refl)
