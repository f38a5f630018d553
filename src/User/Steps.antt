-- ===== src/User/Steps.antt =====
-- The calls on users as steps between which any other call may run, and what holds in every state
-- that they reach. A step is what a call does under one lock. A sign-in searches the registry, and
-- registers a new user later, under the lock again; a search that finds, and the lookup of a handle,
-- hold the user until the call ends. A callback of the title is the steps of the calls that it makes.
use xgameruntime_rs.Base.{
  ℕ, ◌+◌, ◌≤◌, ◌≡◌, ◌≢◌, refl, sym, ap, ◌∙◌, none, some, Bool, true, false, List, [], ◌∷◌, ◌++◌,
  ◌==◌, is_listed, arith, Bool-cases, inl, inr, ◌↔◌, ==_iff, ==_refl,
}
use xgameruntime_rs.Base.Heap.{Heap, update}
use xgameruntime_rs.HandleTable.{get}
use xgameruntime_rs.User.{
  XUserState, UserState, ChangeEventRegistration, Users, UserInfo, is_alive, find_user, has_id,
  create_user_handle, register_user, add_user, hold, no_users, register_change_event,
  unregister_change_event,
}
use xgameruntime_rs.User.Exports.{close_user_handle, compare_users, set_user_state}
use xgameruntime_rs.User.Invariant.{
  IsValid, shrink-IsValid, register-IsValid, no_users-IsValid, is_alive-get, is_listed-remove,
  is_listed-insert, find_in-some, other_id, user_id-register, registered_alive,
}

-- Steps of calls that make no user. `grab` is a handle or a search that a call resolves, `issue` the
-- handle that a call makes of a user it holds, and `let_go` the end of such a call.
pub data Call : Users → Users → Type 0 where
  grab : (ref : ℕ) (s : Users) → is_alive ref s ≡ true → Call s (hold ref s)
  issue : (ref : ℕ) (s : Users) → is_listed ref s.held ≡ true → Call s (create_user_handle ref s).1
  let_go :
      (before after : List ℕ) (ref : ℕ) (s : Users)
      → s.held ≡ before ++ ref ∷ after
      → Call s (record s { held = before ++ after })
  close_one : (user : ℕ) (s : Users) → Call s (close_user_handle user s)
  set_state :
      (ref : ℕ) (x : XUserState) (s : Users)
      → is_listed ref s.held ≡ true
      → Call s (set_user_state ref x s)
  watch : (e : ChangeEventRegistration) (s : Users) → Call s (register_change_event e s).1
  unwatch : (token : ℕ) (s : Users) → Call s (unregister_change_event token s).1

-- `missed` counts, for a user id, the sign-ins that have searched in vain and not yet registered.
pub record Signing : Type 0 where
  pub users : Users
  pub missed : Heap ℕ

-- `miss` is the search of a sign-in that finds nobody, `enrol` that it registers the new user, which
-- it holds.
pub data Step : Signing → Signing → Type 0 where
  miss :
      (id : ℕ) (s : Signing)
      → find_user (has_id id) s.users ≡ none
      → Step s (record s { missed = update s.missed id (s.missed id + 1) })
  enrol :
      (id others : ℕ) (info : UserInfo) (s : Signing)
      → s.missed id ≡ others + 1
      → Step s (record {
        users = register_user s.users.next_user (add_user id info s.users);
        missed = update s.missed id others;
      })
  act : (s : Signing) (t : Users) → Call s.users t → Step s (record s { users = t })

pub data Reachable : Signing → Type 0 where
  start : (users : Heap UserState) → Reachable (record { users = no_users users; missed = λ id. 0 })
  next : (s t : Signing) → Reachable s → Step s t → Reachable t

-- A step that is no search of a sign-in while another of the same user id is yet to register.
abbrev pub IsApart : {s t : Signing} → Step s t → Type 0
IsApart (miss id s none_found) = s.missed id ≡ 0
IsApart (enrol id others info s e) = Unit {0}
IsApart (act s t call) = Unit {0}

abbrev pub AllApart : {s : Signing} → Reachable s → Type 0
AllApart (start users) = Unit {0}
AllApart (next s t h step) = AllApart h × IsApart step

pub is_alive-find_user :
    (test : UserState → Bool) (s : Users) (r : ℕ)
    → find_user test s ≡ some r
    → (is_alive r s ≡ true) × (test (s.users r) ≡ true)
unfolding find_user
is_alive-find_user test s r e = find_in-some test s.registry s r e

-- From one state to the next no user comes to live, and none changes its id.
record Shrinks (s t : Users) : Type 0 where
  registry : t.registry ≡ s.registry
  next_user : t.next_user ≡ s.next_user
  ids : (r : ℕ) → (t.users r).user_id ≡ (s.users r).user_id
  alive : (r : ℕ) → is_alive r t ≡ true → is_alive r s ≡ true

is_listed-middle :
    (r ref : ℕ) (before after : List ℕ)
    → is_listed r (before ++ after) ≡ true
    → is_listed r (before ++ ref ∷ after) ≡ true
is_listed-middle r ref [] after e = ground (arith, e)
is_listed-middle r ref (x ∷ before) after e = ground (arith, e, is_listed-middle r ref before after)

call-Shrinks : (s t : Users) → Call s t → Shrinks s t
unfolding is_alive create_user_handle close_user_handle set_user_state register_change_event
    unregister_change_event
call-Shrinks _ _ (grab ref s a) = record {
  registry = refl;
  next_user = refl;
  ids = λ r. refl;
  alive = λ r live. ground (arith, a, live);
}
call-Shrinks _ _ (issue ref s a) = record {
  registry = refl;
  next_user = refl;
  ids = λ r. refl;
  alive =
      λ r live. ground (arith, a, live, is_listed-insert r s.handles.next ref s.handles.entries);
}
call-Shrinks _ _ (let_go before after ref s e) = record {
  registry = refl;
  next_user = refl;
  ids = λ r. refl;
  alive = λ r live. rw e (ground (arith, live, is_listed-middle r ref before after));
}
call-Shrinks _ _ (close_one user s) = record {
  registry = refl;
  next_user = refl;
  ids = λ r. refl;
  alive = λ r live. ground (arith, live, is_listed-remove r user s.handles.entries);
}
call-Shrinks _ _ (set_state ref x s a) = record {
  registry = refl;
  next_user = refl;
  ids = λ r. elim (Bool-cases (ref == r)) [
    | inl e ↦ rw ((==_iff ref r).0 e, ==_refl r) refl
    | inr e ↦ rw e refl
  ];
  alive = λ r live. live;
}
call-Shrinks _ _ (watch e s) = record {
  registry = refl;
  next_user = refl;
  ids = λ r. refl;
  alive = λ r live. live;
}
call-Shrinks _ _ (unwatch token s) = record {
  registry = refl;
  next_user = refl;
  ids = λ r. refl;
  alive = λ r live. live;
}

-- The users are valid, and of an account that a sign-in is about to register there is none.
record IsSound (s : Signing) : Type 0 where
  valid : IsValid s.users
  once : (id : ℕ) → s.missed id ≤ 1
  absent :
      (id r : ℕ)
      → s.missed id ≢ 0
      → is_alive r s.users ≡ true
      → ((s.users.users r).user_id == id) ≡ false

act-IsSound :
    (s : Signing) (t : Users) → IsSound s → Shrinks s.users t → IsSound (record s { users = t })
act-IsSound s t v k = record {
  valid = shrink-IsValid s.users t v.valid k.registry k.next_user k.ids k.alive;
  once = v.once;
  absent = λ id r busy live. ap (λ n. n == id) (k.ids r) ∙ v.absent id r busy (k.alive r live);
}

miss-IsSound :
    (id : ℕ) (s : Signing)
    → IsSound s
    → find_user (has_id id) s.users ≡ none
    → s.missed id ≡ 0
    → IsSound (record s { missed = update s.missed id (s.missed id + 1) })
miss-IsSound id s v e alone = record {
  valid = v.valid;
  once = λ other. ground (arith, alone, v.once other);
  absent = λ other r busy live. elim (Bool-cases (id == other)) [
    | inl same ↦ rw (sym ((==_iff id other).0 same)) (other_id id s.users r v.valid e live)
    | inr differs ↦ v.absent other r (ground (arith, busy, differs)) live
  ];
}

enrol-IsSound :
    (id others : ℕ) (info : UserInfo) (s : Signing)
    → IsSound s
    → s.missed id ≡ others + 1
    → IsSound (record {
      users = register_user s.users.next_user (add_user id info s.users);
      missed = update s.missed id others;
    })
enrol-IsSound id others info s v e =
    let none_left : others ≡ 0 = omega (arith, e, v.once id) in
    record {
      valid =
          register-IsValid id info s.users v.valid
            (λ r live. v.absent id r (ground (arith, e)) live);
      once = λ other. ground (arith, none_left, v.once other);
      absent = λ other r busy live. ground (
        arith,
        busy,
        live,
        none_left,
        registered_alive id info s.users r,
        user_id-register id info s.users r,
        v.absent other r,
      );
    }

apart-IsSound : (s t : Signing) (step : Step s t) → IsApart step → IsSound s → IsSound t
apart-IsSound _ _ (miss id s e) alone v = miss-IsSound id s v e alone
apart-IsSound _ _ (enrol id others info s e) _ v = enrol-IsSound id others info s v e
apart-IsSound _ _ (act s t call) _ v = act-IsSound s t v (call-Shrinks s.users t call)

reachable-IsSound : (s : Signing) (h : Reachable s) → AllApart h → IsSound s
reachable-IsSound _ (start users) _ = record {
  valid = no_users-IsValid users;
  once = λ id. omega arith;
  absent = λ id r busy live. absurd (busy refl);
}
reachable-IsSound _ (next s t h step) (apart, alone) =
    apart-IsSound s t step alone (reachable-IsSound s h apart)

-- In every state that the steps of any calls reach, in any order, where no sign-in searches for a
-- user id while another, that searched for the same id in vain, is yet to register it: two handles
-- that resolve compare equal just when they are of users with the same user id. Between a sign-in's
-- search and its registering, any other call may run, sign-ins of other ids and closes included.
pub compare_users-user_id :
    (s : Signing) (user1 user2 ref1 ref2 : ℕ) (h : Reachable s)
    → AllApart h
    → get s.users.handles user1 ≡ some ref1
    → get s.users.handles user2 ≡ some ref2
    → (compare_users user1 user2 s.users ≡ 0)
      ↔ ((s.users.users ref1).user_id ≡ (s.users.users ref2).user_id)
unfolding compare_users
compare_users-user_id s user1 user2 ref1 ref2 h apart e₁ e₂ = (
  λ same. ap (λ r. (s.users.users r).user_id) (ground (arith, same, e₁, e₂)),
  λ same. ground (
    arith,
    e₁,
    e₂,
    (reachable-IsSound s h apart).valid.unique ref1 ref2 (is_alive-get user1 ref1 s.users e₁)
        (is_alive-get user2 ref2 s.users e₂) same,
  ),
)
