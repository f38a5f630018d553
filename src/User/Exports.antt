-- ===== src/User/Exports.antt =====
-- src/com/xuser/impl.rs: the exports on users and handles. Of an out pointer only whether it is
-- null matters; what is written through it is in the result. Of an Async export the model has the
-- body that it hands to `run_sync`; what the service answers is an argument.
use xgameruntime_rs.Base.{
  ℕ, ◌/◌, ◌%◌, Option, none, some, Bool, true, false, ◌||◌, ◌&&◌, ◌==◌, if◌then◌else◌, add64,
}
use xgameruntime_rs.Base.Heap.{update}
use xgameruntime_rs.HandleTable.{get, close}
use xgameruntime_rs.Results.{Result, ok, err, s_ok, e_abort, e_invalidarg, e_pointer}
use xgameruntime_rs.User.{
  XUserState, signed_in, signing_out, signed_out, UserState, ChangeEventRegistration, Users, Notify,
  UserInfo, find_user, has_id, create_user_handle, fire_change_event, change_event_signing_out,
  change_event_signed_out, hold, release, handed_out, user_handle_from_info, register_change_event,
}

unfoldable pub duplicate_user_handle : ℕ → Bool → Users → Result ℕ × Users
unfolding get create_user_handle
duplicate_user_handle handle true s = (err e_pointer, s)
duplicate_user_handle handle false s = elim (get s.handles handle) [
  | none ↦ (err e_invalidarg, s)
  | some ref ↦ handed_out (create_user_handle ref s)
]

unfoldable pub close_user_handle : ℕ → Users → Users
unfolding close
close_user_handle user s = record s { handles = close s.handles user }

-- `XUserCompare` of what two handles resolve to.
abbrev pub compare_refs : Option ℕ → Option ℕ → ℕ
compare_refs none none = 0
compare_refs none (some b) = 1
compare_refs (some a) none = 1
compare_refs (some a) (some b) = if a == b then 0 else 1

unfoldable pub compare_users : ℕ → ℕ → Users → ℕ
unfolding get
compare_users user1 user2 s = compare_refs (get s.handles user1) (get s.handles user2)

unfoldable pub get_max_users : Bool → Result ℕ
get_max_users no_out = if no_out then err e_pointer else ok 1

-- What the body of `XUserAddAsync` and `XUserAddByIdWithUiAsync` makes of the sign-in window.
unfoldable pub from_window : Notify → Result (Option UserInfo) → Users → Result ℕ × Users
unfolding user_handle_from_info
from_window notify (err hr) s = (err hr, s)
from_window notify (ok none) s = (err e_abort, s)
from_window notify (ok (some info)) s = user_handle_from_info notify info s

-- `options & 0b101 == 0`, and `options & 0x04 != 0`.
unfoldable pub is_rejected : ℕ → Bool
is_rejected options = (options % 2 == 0) && (options / 4 % 2 == 0)

unfoldable pub allows_ui : ℕ → Bool
allows_ui options = options / 4 % 2 == 1

-- `silent` is what `get_user_info` answers, `window` what `interactive_sign_in` does.
unfoldable pub add_user_async :
    Notify → ℕ → Result UserInfo → Result (Option UserInfo) → Users → Result ℕ × Users
unfolding is_rejected allows_ui from_window user_handle_from_info
add_user_async notify options (ok info) window s =
    if is_rejected options then (err e_abort, s) else user_handle_from_info notify info s
add_user_async notify options (err hr) window s =
    if is_rejected options
    then (err e_abort, s)
    else if allows_ui options
    then from_window notify window s
    else (err hr, s)

-- The shape of the getters.
unfoldable pub get_field : {A : Type 0} → (UserState → A) → ℕ → Bool → Users → Result A
unfolding get
get_field field user true s = err e_pointer
get_field field user false s = elim (get s.handles user) [
  | none ↦ err e_invalidarg
  | some ref ↦ ok (field (s.users ref))
]

unfoldable pub get_local_id : ℕ → Bool → Users → Result ℕ
unfolding get_field
get_local_id user no_out s = get_field (λ u. u.local_id) user no_out s

unfoldable pub get_id : ℕ → Bool → Users → Result ℕ
unfolding get_field
get_id user no_out s = get_field (λ u. u.user_id) user no_out s

unfoldable pub get_is_guest : ℕ → Bool → Users → Result Bool
unfolding get_field
get_is_guest user no_out s = get_field (λ u. u.is_guest) user no_out s

unfoldable pub get_state : ℕ → Bool → Users → Result XUserState
unfolding get_field
get_state user no_out s = get_field (λ u. u.state) user no_out s

unfoldable pub get_age_group : ℕ → Bool → Users → Result ℕ
unfolding get_field
get_age_group user no_out s = get_field (λ u. u.age_group) user no_out s

-- The lookup behind `XUserFindUserById`, `XUserFindUserByLocalId` and `XUserFindForDevice`: the
-- status, the handle written, and the state.
unfoldable pub find_with : (UserState → Bool) → Users → (ℕ × ℕ) × Users
unfolding find_user create_user_handle
find_with test s = elim (find_user test s) [
  | none ↦ ((e_invalidarg, 0), s)
  | some ref ↦ ((s_ok, (create_user_handle ref s).0), (create_user_handle ref s).1)
]

unfoldable pub find_user_by_id : ℕ → Bool → Users → (ℕ × Option ℕ) × Users
unfolding find_with
find_user_by_id user_id true s = ((e_pointer, none), s)
find_user_by_id user_id false s = let r = find_with (has_id user_id) s in ((r.0.0, some r.0.1), r.1)

unfoldable pub find_user_by_local_id : ℕ → Bool → Users → (ℕ × Option ℕ) × Users
unfolding find_with
find_user_by_local_id local_id true s = ((e_pointer, none), s)
find_user_by_local_id local_id false s =
    let r = find_with (λ u. u.local_id == local_id) s in ((r.0.0, some r.0.1), r.1)

abbrev pub is_signed_in : XUserState → Bool
is_signed_in signed_in = true
is_signed_in signing_out = false
is_signed_in signed_out = false

unfoldable pub find_for_device : Bool → Bool → Users → (ℕ × Option ℕ) × Users
unfolding find_with
find_for_device true no_out s = ((e_pointer, none), s)
find_for_device false true s = ((e_pointer, none), s)
find_for_device false false s =
    let r = find_with (λ u. is_signed_in u.state) s in ((r.0.0, some r.0.1), r.1)

-- `XUserCheckPrivilege`, with what it writes: every privilege is granted to an open handle.
unfoldable pub check_privilege : ℕ → Bool → Users → Result (Bool × ℕ)
unfolding get
check_privilege user true s = err e_pointer
check_privilege user false s = elim (get s.handles user) [
  | none ↦ err e_invalidarg
  | some ref ↦ ok (true, 0)
]

unfoldable pub is_store_user : ℕ → Users → Bool
unfolding get
is_store_user user s = elim (get s.handles user) [ none ↦ false | some ref ↦ true ]

unfoldable pub user_id_for_handle : ℕ → Users → Option ℕ
unfolding get
user_id_for_handle handle s = elim (get s.handles handle) [
  | none ↦ none
  | some ref ↦ some (s.users ref).user_id
]

unfoldable pub register_for_change_event :
    Option ChangeEventRegistration → Bool → Users → Result ℕ × Users
unfolding register_change_event
register_for_change_event none no_out s = (err e_pointer, s)
register_for_change_event (some registration) true s = (err e_pointer, s)
register_for_change_event (some registration) false s =
    handed_out (register_change_event registration s)

-- `XUserRegisterForDeviceAssociationChanged`: a token, and no registration.
unfoldable pub register_for_device : Bool → Bool → Users → Result ℕ × Users
register_for_device no_callback no_out s =
    if no_callback || no_out
    then (err e_pointer, s)
    else (ok s.next_token, record s { next_token = add64 s.next_token 1 })

unfoldable pub set_user_state : ℕ → XUserState → Users → Users
set_user_state ref state s = record s {
  users = update s.users ref (record (s.users ref) { state = state });
}

-- The body of `XUserSignOutAsync`, which holds the user.
unfoldable pub sign_out : Notify → ℕ → Users → Users
unfolding set_user_state fire_change_event
sign_out notify ref s =
    let s₁ = set_user_state ref signing_out (hold ref s) in
    let s₂ = fire_change_event notify (s₁.users ref).local_id change_event_signing_out s₁ in
    let s₃ = set_user_state ref signed_out s₂ in
    release (fire_change_event notify (s₃.users ref).local_id change_event_signed_out s₃)

unfoldable pub sign_out_async : Notify → ℕ → Users → ℕ × Users
unfolding get sign_out
sign_out_async notify user s = elim (get s.handles user) [
  | none ↦ (e_invalidarg, s)
  | some ref ↦ (s_ok, sign_out notify ref s)
]
