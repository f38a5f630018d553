-- ===== src/User.antt =====
-- src/com/xuser/core.rs: who is signed in, the handles onto them, the registry that finds them, and
-- the change events. Strings are lists of bytes. `users` is the heap of `UserState`s; a `Weak` of
-- the registry upgrades while a handle, or a call that is under way, holds its user. The functions
-- are calls that no other thread interrupts, with what a callback of the title does as a parameter;
-- User/Steps.antt has what is done under one lock, and User/Runs.antt takes the calls apart into it.
pub mod Exports
pub mod Invariant
pub mod Steps
pub mod Runs
pub mod SignIn
pub mod Buffers
pub mod Requests
mod Witnesses
use xgameruntime_rs.Base.{
  ℕ, zero, suc, ◌+◌, ◌-◌, ◌*◌, Option, none, some, Bool, true, false, not, ◌||◌, ◌&&◌, List, [],
  ◌∷◌, ◌++◌, ◌==◌, if◌then◌else◌, keep_if, add64, ltb, leb, u64_mod, is_listed,
}
use xgameruntime_rs.Base.Heap.{Heap, update}
use xgameruntime_rs.Base.Map.{Map, lookup, insert, remove}
use xgameruntime_rs.HandleTable.{HandleTable, new, create, get, close}
use xgameruntime_rs.Results.{Result, ok, err, e_fail}

-- `XUserStateValue`.
pub data XUserState : Type 0 where
  signed_in signing_out signed_out : XUserState

pub record UserState : Type 0 where
  pub local_id : ℕ
  pub user_id : ℕ
  pub is_guest : Bool
  pub state : XUserState
  pub gamertag : List ℕ
  pub gamertag_modern : List ℕ
  pub age_group : ℕ

pub record ChangeEventRegistration : Type 0 where
  pub context : ℕ
  pub callback : ℕ

-- `handles` is `USER_HANDLES`, `registry` is `USER_REGISTRY`, oldest first, `registrations` is
-- `CHANGE_EVENT_REGISTRY` and `next_token` its counter. `held` are the `Arc`s of calls under way.
pub record Users : Type 0 where
  pub users : Heap UserState
  pub next_user : ℕ
  pub handles : HandleTable ℕ
  pub registry : List ℕ
  pub held : List ℕ
  pub registrations : Map ChangeEventRegistration
  pub next_token : ℕ

-- What the callback of a registration does, given the user's local id and the event.
abbrev pub Notify : Type 0
Notify = ChangeEventRegistration → ℕ → ℕ → Users → Users

-- The process when it starts.
unfoldable pub no_users : Heap UserState → Users
unfolding new
no_users users = record {
  users = users;
  next_user = 0;
  handles = new;
  registry = [];
  held = [];
  registrations = [];
  next_token = 1;
}

-- The values of a map.
abbrev pub values : Map ℕ → List ℕ
values [] = []
values (e ∷ m) = e.value ∷ values m

-- Whether `strong_count` is above 0.
unfoldable pub is_alive : ℕ → Users → Bool
is_alive ref s = is_listed ref (values s.handles.entries) || is_listed ref s.held

unfoldable pub register_user : ℕ → Users → Users
unfolding is_alive
register_user ref s = record s { registry = keep_if (λ r. is_alive r s) s.registry ++ ref ∷ [] }

-- "Adult", "Teen" and "Child".
abbrev pub adult : List ℕ
adult = 65 ∷ 100 ∷ 117 ∷ 108 ∷ 116 ∷ []

abbrev pub teen : List ℕ
teen = 84 ∷ 101 ∷ 101 ∷ 110 ∷ []

abbrev pub child : List ℕ
child = 67 ∷ 104 ∷ 105 ∷ 108 ∷ 100 ∷ []

abbrev pub same_bytes : List ℕ → List ℕ → Bool
same_bytes [] [] = true
same_bytes [] (c ∷ cs) = false
same_bytes (b ∷ bs) [] = false
same_bytes (b ∷ bs) (c ∷ cs) = (b == c) && same_bytes bs cs

unfoldable pub parse_age_group : List ℕ → ℕ
parse_age_group agg =
    if same_bytes agg adult
    then 3
    else if same_bytes agg teen
    then 2
    else if same_bytes agg child
    then 1
    else 0

-- The value of a text of decimal digits, below 2^64: what `str::parse::<u64>` reads after a sign.
unfoldable pub parse_digits : ℕ → List ℕ → Option ℕ
parse_digits acc [] = some acc
parse_digits acc (c ∷ cs) =
    let value = acc * 10 + (c - 48) in
    let rest = parse_digits value cs in
    if leb 48 c && leb c 57 && ltb value u64_mod then rest else none

abbrev pub some_digits : List ℕ → Option ℕ
some_digits [] = none
some_digits (c ∷ cs) = parse_digits 0 (c ∷ cs)

-- `str::parse::<u64>`: a plus sign may come first, and there is a digit.
unfoldable pub parse_u64 : List ℕ → Option ℕ
unfolding parse_digits
parse_u64 [] = none
parse_u64 (c ∷ cs) = if c == 43 then some_digits cs else some_digits (c ∷ cs)

-- `registry.iter().filter_map(Weak::upgrade).find(…)`.
unfoldable pub find_in : (UserState → Bool) → List ℕ → Users → Option ℕ
unfolding is_alive
find_in test [] s = none
find_in test (ref ∷ refs) s =
    let rest = find_in test refs s in
    if is_alive ref s && test (s.users ref) then some ref else rest

unfoldable pub find_user : (UserState → Bool) → Users → Option ℕ
unfolding find_in
find_user test s = find_in test s.registry s

abbrev pub has_id : ℕ → UserState → Bool
has_id id u = u.user_id == id

-- `UserHandleTable::create`.
unfoldable pub create_user_handle : ℕ → Users → ℕ × Users
unfolding create
create_user_handle ref s =
    let (handle, table) = create s.handles ref in (handle, record s { handles = table })

abbrev pub change_event_signed_in_again : ℕ
change_event_signed_in_again = 0

abbrev pub change_event_signing_out : ℕ
change_event_signing_out = 1

abbrev pub change_event_signed_out : ℕ
change_event_signed_out = 2

-- The loop of `fire_change_event`. The registrations are those of its start: the lock is held
-- throughout.
unfoldable pub fire_each : Notify → ℕ → ℕ → Map ChangeEventRegistration → Users → Users
fire_each notify local_id event [] s = s
fire_each notify local_id event (e ∷ m) s =
    fire_each notify local_id event m (notify e.value local_id event s)

unfoldable pub fire_change_event : Notify → ℕ → ℕ → Users → Users
unfolding fire_each
fire_change_event notify local_id event s = fire_each notify local_id event s.registrations s

unfoldable pub register_change_event : ChangeEventRegistration → Users → ℕ × Users
register_change_event registration s = (
  s.next_token,
  record s {
    next_token = add64 s.next_token 1;
    registrations = insert s.next_token registration s.registrations;
  },
)

unfoldable pub unregister_change_event : ℕ → Users → Bool × Users
unregister_change_event token s = (
  elim (lookup token s.registrations) [ none ↦ false | some registration ↦ true ],
  record s { registrations = remove token s.registrations },
)

-- What the service tells of an account.
pub record UserInfo : Type 0 where
  pub xuid : List ℕ
  pub gamertag : List ℕ
  pub gamertag_modern : List ℕ
  pub age_group : List ℕ

abbrev pub hold : ℕ → Users → Users
hold ref s = record s { held = ref ∷ s.held }

abbrev pub tail : List ℕ → List ℕ
tail [] = []
tail (x ∷ xs) = xs

-- The end of a call that holds a user.
abbrev pub release : Users → Users
release s = record s { held = tail s.held }

-- `Arc::new(UserState { … })`: the reference, which the call holds.
unfoldable pub add_user : ℕ → UserInfo → Users → Users
unfolding parse_age_group
add_user user_id info s = hold s.next_user (record s {
  users = update s.users s.next_user (record {
    local_id = user_id;
    user_id = user_id;
    is_guest = false;
    state = signed_in;
    gamertag = info.gamertag;
    gamertag_modern = info.gamertag_modern;
    age_group = parse_age_group info.age_group;
  });
  next_user = s.next_user + 1;
})

abbrev pub handed_out : ℕ × Users → Result ℕ × Users
handed_out r = (ok r.0, r.1)

-- The arm of `user_handle_from_info` that makes a user.
unfoldable pub sign_in_new : Notify → ℕ → UserInfo → Users → Result ℕ × Users
unfolding add_user register_user fire_change_event create_user_handle
sign_in_new notify user_id info s =
    let registered = register_user s.next_user (add_user user_id info s) in
    let told = fire_change_event notify user_id change_event_signed_in_again registered in
    let (handle, t) = create_user_handle s.next_user told in (ok handle, release t)

unfoldable pub user_handle_from_info : Notify → UserInfo → Users → Result ℕ × Users
unfolding parse_u64 find_user sign_in_new create_user_handle
user_handle_from_info notify info s = elim (parse_u64 info.xuid) [
  | none ↦ (err e_fail, s)
  | some user_id ↦ elim (find_user (has_id user_id) s) [
    | some ref ↦ handed_out (create_user_handle ref s)
    | none ↦ sign_in_new notify user_id info s
  ]
]
