-- ===== src/User/SignIn.antt =====
-- Adding a user who is there already.
use xgameruntime_rs.Base.{ℕ, ◌≡◌, refl, ap, ◌∙◌, some, false, ==_refl, ==_iff, arith}
use xgameruntime_rs.Results.{ok}
use xgameruntime_rs.HandleTable.{get, create}
use xgameruntime_rs.HandleTable.Laws.{IsValid, get-create}
use xgameruntime_rs.User.{
  Users, UserInfo, Notify, find_user, has_id, parse_u64, user_handle_from_info, create_user_handle,
}
use xgameruntime_rs.User.Exports.{get_state, get_field}
use xgameruntime_rs.User.Steps.{is_alive-find_user}

get_state_open :
    (h ref : ℕ) (s : Users)
    → get s.handles h ≡ some ref
    → get_state h false s ≡ ok (s.users ref).state
unfolding get_state get_field
get_state_open h ref s e = ground (arith, e)

-- An account that the service names, and of which a live user is registered, with a valid handle
-- table: no user is made and no callback runs, the new handle resolves to a user of that id, and
-- every user is left as it is. So a user who signed out while a handle was open stays signed out.
pub user_handle_from_info-live :
    (notify : Notify) (info : UserInfo) (s : Users) (user_id ref : ℕ)
    → parse_u64 info.xuid ≡ some user_id
    → find_user (has_id user_id) s ≡ some ref
    → IsValid s.handles
    → let r = user_handle_from_info notify info s in
      (r.0 ≡ ok s.handles.next)
      × (get r.1.handles s.handles.next ≡ some ref)
      × ((s.users ref).user_id ≡ user_id)
      × (r.1 ≡ record s { handles = (create s.handles ref).1 })
      × (get_state s.handles.next false r.1 ≡ ok (s.users ref).state)
unfolding create_user_handle user_handle_from_info
user_handle_from_info-live notify info s user_id ref e found valid =
    let whole : user_handle_from_info notify info s
        ≡ (ok s.handles.next, record s { handles = (create s.handles ref).1 }) =
      rw (user_handle_from_info, e, found) refl in
    let there : get (create s.handles ref).1 s.handles.next ≡ some ref =
      (get-create s.handles ref s.handles.next valid).0 ∙ rw (==_refl s.handles.next) refl in
    (
      ap (λ r. r.0) whole,
      ap (λ r. get r.1.handles s.handles.next) whole ∙ there,
      (==_iff (s.users ref).user_id user_id).0 (is_alive-find_user (has_id user_id) s ref found).1,
      ap (λ r. r.1) whole,
      ap (λ r. get_state s.handles.next false r.1) whole
          ∙ get_state_open s.handles.next ref (record s { handles = (create s.handles ref).1 })
              there,
    )
