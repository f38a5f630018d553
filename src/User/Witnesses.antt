-- ===== src/User/Witnesses.antt =====
-- The theorems on users at concrete states.
use xgameruntime_rs.Base.{ℕ, ◌≡◌, ◌↔◌, refl, some, false, List, [], ◌∷◌, arith}
use xgameruntime_rs.Base.Map.{lookup, insert}
use xgameruntime_rs.HandleTable.{create, get}
use xgameruntime_rs.Results.{Result, ok, s_ok}
use xgameruntime_rs.User.{
  Users, UserState, XUserState, UserInfo, Notify, no_users, parse_u64, find_user,
  user_handle_from_info,
}
use xgameruntime_rs.User.Exports.{compare_users, duplicate_user_handle, sign_out, get_state}
use xgameruntime_rs.User.Steps.{compare_users-user_id}
use xgameruntime_rs.User.Runs.{IsTame, Run, no_users-Run, duplicate-Run, user_handle_from_info-Run}
use xgameruntime_rs.User.SignIn.{user_handle_from_info-live}
use xgameruntime_rs.User.Buffers.{
  Signed, PendingMap, token_and_signature_result, token_and_signature_size,
}
use xgameruntime_rs.User.Buffers.Layout.{Holds, token_and_signature_result-size}

abbrev nobody : ℕ → UserState
nobody ref = record {
  local_id = 0;
  user_id = 0;
  is_guest = false;
  state = XUserState.signed_out;
  gamertag = [];
  gamertag_modern = [];
  age_group = 0;
}

-- A title whose callbacks do nothing here.
abbrev quiet : Notify
quiet e local_id event s = s

-- "42".
abbrev account : UserInfo
account = record {
  xuid = 52 ∷ 50 ∷ [];
  gamertag = 65 ∷ [];
  gamertag_modern = [];
  age_group = 67 ∷ 104 ∷ 105 ∷ 108 ∷ 100 ∷ [];
}

abbrev signed : Users
signed = (user_handle_from_info quiet account (no_users nobody)).1

abbrev twice : Users
twice = (duplicate_user_handle 1 false signed).1

-- A title whose callbacks do nothing here.
quiet-IsTame : IsTame quiet
quiet-IsTame = record { runs = λ e l ev s r. r; holds = λ e l ev s. refl }

-- A sign-in, and a duplicate of its handle.
twice-Run : Run twice
twice-Run =
    duplicate-Run 1 false signed
      (user_handle_from_info-Run quiet quiet-IsTame account (no_users nobody) (no_users-Run nobody))

compare_users-user_id_example :
    (compare_users 1 2 twice ≡ 0) ↔ ((twice.users 0).user_id ≡ (twice.users 0).user_id)
unfolding get lookup duplicate_user_handle user_handle_from_info no_users insert
compare_users-user_id_example =
    compare_users-user_id (record { users = twice; missed = twice-Run.missed }) 1 2 0 0
      twice-Run.reached twice-Run.apart refl refl

abbrev gone : Users
gone = sign_out quiet 0 signed

user_handle_from_info-live_example :
    let r = user_handle_from_info quiet account gone in
    (r.0 ≡ ok gone.handles.next)
    × (get r.1.handles gone.handles.next ≡ some 0)
    × ((gone.users 0).user_id ≡ 42)
    × (r.1 ≡ record gone { handles = (create gone.handles 0).1 })
    × (get_state gone.handles.next false r.1 ≡ ok (gone.users 0).state)
unfolding get lookup parse_u64 find_user sign_out user_handle_from_info no_users insert
user_handle_from_info-live_example =
    user_handle_from_info-live quiet account gone 42 0 refl refl (record {
      positive = omega arith;
      in_range = omega arith;
      issued = (omega arith, omega arith, tt);
    })

abbrev answer : Signed
answer = record { token = 1 ∷ 2 ∷ []; signature = 3 ∷ [] }

abbrev answers : PendingMap Signed
answers = record { key = 9; value = ok answer } ∷ []

token_and_signature_result-size_example :
    let w = token_and_signature_result answers 9 40 500 false false (λ a. 0) in
    (token_and_signature_size answers 9 false ≡ ok 37)
    × (w.status ≡ s_ok)
    × (w.pointer ≡ some 500)
    × Holds answer 500 40 537 w.memory (λ a. 0)
unfolding lookup
token_and_signature_result-size_example =
    token_and_signature_result-size answers 9 40 500 false (λ a. 0) answer 537 refl (ground arith)
      (omega arith)

-- A service that answers with the body it gets.
abbrev echo : List ℕ → List ℕ → List ℕ → Result Signed
echo method url body = ok (record { token = body; signature = 3 ∷ [] })

abbrev echoed : Signed
echoed = record { token = 7 ∷ 7 ∷ []; signature = 3 ∷ [] }
