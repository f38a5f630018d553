-- ===== src/User/Runs.antt =====
-- Calls on users that nothing interrupts are runs of steps: src/com/xuser/core.rs and
-- src/com/xuser/impl.rs, taken apart as in User/Steps.antt.
use xgameruntime_rs.Base.{
  ℕ, ◌+◌, ◌≡◌, refl, sym, ap, subst, ◌∙◌, none, Bool, true, false, List, [], ◌∷◌, is_listed, arith,
  Option-cases, inl, inr, ==_refl,
}
use xgameruntime_rs.Base.Heap.{Heap, update}
use xgameruntime_rs.Base.Map.{Map}
use xgameruntime_rs.HandleTable.{get}
use xgameruntime_rs.User.{
  XUserState, UserState, ChangeEventRegistration, Users, UserInfo, Notify, is_alive, find_user,
  has_id, create_user_handle, fire_each, fire_change_event, register_user, add_user, sign_in_new,
  user_handle_from_info, hold, release, tail, no_users, parse_u64,
}
use xgameruntime_rs.User.Exports.{
  duplicate_user_handle, close_user_handle, find_with, sign_out, set_user_state,
}
use xgameruntime_rs.User.Invariant.{is_alive-get}
use xgameruntime_rs.User.Steps.{
  Call, grab, issue, let_go, close_one, set_state, Signing, miss, enrol, act, Reachable, start,
  next, AllApart, is_alive-find_user,
}

-- A state that steps reach with sign-ins apart, and with none of them between its search and its
-- registering.
pub record Run (s : Users) : Type 0 where
  pub missed : Heap ℕ
  pub reached : Reachable (record { users = s; missed = missed })
  pub apart : AllApart reached
  pub idle : (id : ℕ) → missed id ≡ 0

-- What a callback of the title may do: calls, which give back what they hold.
pub record IsTame (notify : Notify) : Type 0 where
  pub runs :
      (e : ChangeEventRegistration) (local_id event : ℕ) (s : Users)
      → Run s
      → Run (notify e local_id event s)
  pub holds :
      (e : ChangeEventRegistration) (local_id event : ℕ) (s : Users)
      → (notify e local_id event s).held ≡ s.held

pub no_users-Run : (users : Heap UserState) → Run (no_users users)
no_users-Run users = record {
  missed = λ id. 0;
  reached = start users;
  apart = tt;
  idle = λ id. refl;
}

call-Run : (s t : Users) → Run s → Call s t → Run t
call-Run s t r call = record {
  missed = r.missed;
  reached =
      next (record { users = s; missed = r.missed }) (record { users = t; missed = r.missed })
        r.reached (act (record { users = s; missed = r.missed }) t call);
  apart = (r.apart, tt);
  idle = r.idle;
}

-- The search that finds nobody, and then the registering.
register-Run :
    (id : ℕ) (info : UserInfo) (s : Users)
    → Run s
    → find_user (has_id id) s ≡ none
    → Run (register_user s.next_user (add_user id info s))
register-Run id info s r e =
    let s₀ : Signing = record { users = s; missed = r.missed } in
    let s₁ : Signing = record s₀ { missed = update r.missed id (r.missed id + 1) } in
    let s₂ : Signing = record {
      users = register_user s.next_user (add_user id info s);
      missed = update s₁.missed id (r.missed id);
    } in
    record {
      missed = s₂.missed;
      reached =
          next s₁ s₂ (next s₀ s₁ r.reached (miss id s₀ e))
            (enrol id (r.missed id) info s₁ (rw (==_refl id) refl));
      apart = ((r.apart, r.idle id), tt);
      idle = λ other. ground (arith, r.idle other, r.idle id);
    }

release-Run : (ref : ℕ) (rest : List ℕ) (s : Users) → s.held ≡ ref ∷ rest → Run s → Run (release s)
release-Run ref rest s e r =
    subst (λ held. Run (record s { held = held })) (sym (ap tail e))
      (call-Run s (record s { held = rest }) r (let_go [] rest ref s e))

-- A call that resolves a user makes a handle of it.
hand_out-Run :
    (ref : ℕ) (s : Users) → is_alive ref s ≡ true → Run s → Run (create_user_handle ref s).1
unfolding create_user_handle
hand_out-Run ref s a r =
    let held = hold ref s in
    let issued = (create_user_handle ref held).1 in
    release-Run ref s.held issued refl (
      call-Run held issued (call-Run s held r (grab ref s a))
        (issue ref held (rw (==_refl ref) refl)))

pub duplicate-Run :
    (handle : ℕ) (no_out : Bool) (s : Users) → Run s → Run (duplicate_user_handle handle no_out s).1
unfolding duplicate_user_handle
duplicate-Run handle true s r = r
duplicate-Run handle false s r = elim (Option-cases (get s.handles handle)) [
  | inl e ↦ rw (duplicate_user_handle, e) r
  | inr (ref, e) ↦
      rw (duplicate_user_handle, e) (hand_out-Run ref s (is_alive-get handle ref s e) r)
]

close_user_handle-Run : (user : ℕ) (s : Users) → Run s → Run (close_user_handle user s)
close_user_handle-Run user s r = call-Run s (close_user_handle user s) r (close_one user s)

find_with-Run : (test : UserState → Bool) (s : Users) → Run s → Run (find_with test s).1
unfolding find_with
find_with-Run test s r = elim (Option-cases (find_user test s)) [
  | inl e ↦ rw (find_with, e) r
  | inr (ref, e) ↦ rw (find_with, e) (hand_out-Run ref s (is_alive-find_user test s ref e).0 r)
]

module _ (notify : Notify) (tame : IsTame notify) where
  fire_each-Run :
      (local_id event : ℕ) (m : Map ChangeEventRegistration) (s : Users)
      → Run s
      → Run (fire_each notify local_id event m s)
        × ((fire_each notify local_id event m s).held ≡ s.held)
  unfolding fire_each
  fire_each-Run local_id event [] s r = (r, refl)
  fire_each-Run local_id event (e ∷ m) s r =
      let one = notify e.value local_id event s in
      let (w, h) = fire_each-Run local_id event m one (tame.runs e.value local_id event s r) in
      (w, h ∙ tame.holds e.value local_id event s)

  fire-Run :
      (local_id event : ℕ) (s : Users)
      → Run s
      → Run (fire_change_event notify local_id event s)
        × ((fire_change_event notify local_id event s).held ≡ s.held)
  unfolding fire_change_event
  fire-Run local_id event s r = fire_each-Run local_id event s.registrations s r

  sign_in_new-Run :
      (id : ℕ) (info : UserInfo) (s : Users)
      → Run s
      → find_user (has_id id) s ≡ none
      → Run (sign_in_new notify id info s).1
  unfolding sign_in_new register_user add_user create_user_handle
  sign_in_new-Run id info s r e =
      let registered = register_user s.next_user (add_user id info s) in
      let told = fire_change_event notify id 0 registered in
      let (w, h) = fire-Run id 0 registered (register-Run id info s r e) in
      let issued = (create_user_handle s.next_user told).1 in
      release-Run s.next_user s.held issued h (
        call-Run told issued w
          (issue s.next_user told (ap (is_listed s.next_user) h ∙ rw (==_refl s.next_user) refl)))

  pub user_handle_from_info-Run :
      (info : UserInfo) (s : Users) → Run s → Run (user_handle_from_info notify info s).1
  unfolding user_handle_from_info
  user_handle_from_info-Run info s r = elim (Option-cases (parse_u64 info.xuid)) [
    | inl e ↦ rw (user_handle_from_info, e) r
    | inr (id, e) ↦ elim (Option-cases (find_user (has_id id) s)) [
      | inl e₁ ↦ rw (user_handle_from_info, e, e₁) (sign_in_new-Run id info s r e₁)
      | inr (ref, e₁) ↦
          rw (user_handle_from_info, e, e₁)
            (hand_out-Run ref s (is_alive-find_user (has_id id) s ref e₁).0 r)
    ]
  ]

  -- One half of a sign-out: a new state, of which the title is told.
  set_state-Run :
      (ref event : ℕ) (x : XUserState) (s : Users)
      → is_listed ref s.held ≡ true
      → Run s
      → let set = set_user_state ref x s in
        let told = fire_change_event notify (set.users ref).local_id event set in
        Run told × (told.held ≡ s.held)
  unfolding set_user_state
  set_state-Run ref event x s a r =
      let set = set_user_state ref x s in
      fire-Run (set.users ref).local_id event set (call-Run s set r (set_state ref x s a))

  sign_out-Run : (ref : ℕ) (s : Users) → is_alive ref s ≡ true → Run s → Run (sign_out notify ref s)
  unfolding sign_out
  sign_out-Run ref s a r =
      let s₁ = hold ref s in
      let (w₁, h₁) =
        set_state-Run ref 1 XUserState.signing_out s₁ (rw (==_refl ref) refl)
          (call-Run s s₁ r (grab ref s a)) in
      let (w₂, h₂) =
        set_state-Run ref 2 XUserState.signed_out _ (ap (is_listed ref) h₁ ∙ rw (==_refl ref) refl)
          w₁ in
      release-Run ref s.held _ (h₂ ∙ h₁) w₂
