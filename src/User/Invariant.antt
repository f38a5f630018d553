-- ===== src/User/Invariant.antt =====
-- What holds of the users between calls: who is alive is in the registry, and no two live users
-- have the same user id.
use xgameruntime_rs.Base.{
  ℕ, ◌+◌, ◌<◌, ◌≡◌, refl, sym, ap, ◌∙◌, none, some, Bool, true, false, ◌||◌, ◌&&◌, List, [], ◌∷◌,
  ◌==◌, if◌then◌else◌, keep_if, is_listed, is_listed-append, arith, Bool-cases, inl, inr, ==_iff,
  ==_refl,
}
use xgameruntime_rs.Base.Heap.{Heap}
use xgameruntime_rs.Base.Map.{Map, lookup, insert, remove}
use xgameruntime_rs.HandleTable.{get}
use xgameruntime_rs.User.{
  UserState, Users, UserInfo, values, is_alive, find_in, find_user, has_id, register_user, add_user,
  no_users,
}

pub record IsValid (s : Users) : Type 0 where
  pub fresh : (r : ℕ) → is_listed r s.registry ≡ true → r < s.next_user
  pub registered : (r : ℕ) → is_alive r s ≡ true → is_listed r s.registry ≡ true
  pub unique :
      (r q : ℕ)
      → is_alive r s ≡ true
      → is_alive q s ≡ true
      → (s.users r).user_id ≡ (s.users q).user_id
      → r ≡ q

pub lookup-is_listed : (k v : ℕ) (m : Map ℕ) → lookup k m ≡ some v → is_listed v (values m) ≡ true
unfolding lookup
lookup-is_listed k v [] e = absurd (ground (arith, e))
lookup-is_listed k v (x ∷ m) e = ground (arith, e, lookup-is_listed k v m)

pub is_listed-remove :
    (r k : ℕ) (m : Map ℕ) → is_listed r (values (remove k m)) ≡ true → is_listed r (values m) ≡ true
unfolding remove
is_listed-remove r k [] e = e
is_listed-remove r k (x ∷ m) e = ground (arith, e, is_listed-remove r k m)

pub is_listed-insert :
    (r k v : ℕ) (m : Map ℕ)
    → is_listed r (values (insert k v m)) ≡ true
    → ((v == r) || is_listed r (values m)) ≡ true
unfolding insert
is_listed-insert r k v m e = ground (arith, e, is_listed-remove r k m)

pub is_alive-get : (h ref : ℕ) (s : Users) → get s.handles h ≡ some ref → is_alive ref s ≡ true
unfolding get is_alive
is_alive-get h ref s e = ground (arith, e, lookup-is_listed h ref s.handles.entries)

pub find_in-some :
    (test : UserState → Bool) (refs : List ℕ) (s : Users) (r : ℕ)
    → find_in test refs s ≡ some r
    → (is_alive r s ≡ true) × (test (s.users r) ≡ true)
unfolding find_in
find_in-some test [] s r e = absurd (ground (arith, e))
find_in-some test (ref ∷ refs) s r e = ground (arith, e, find_in-some test refs s r)

pub find_in-none :
    (test : UserState → Bool) (refs : List ℕ) (s : Users) (r : ℕ)
    → find_in test refs s ≡ none
    → is_listed r refs ≡ true
    → is_alive r s ≡ true
    → test (s.users r) ≡ false
unfolding find_in
find_in-none test [] s r e l a = absurd (ground (arith, l))
find_in-none test (ref ∷ refs) s r e l a = ground (arith, e, l, a, find_in-none test refs s r)

-- A step that lets no user live that did not, and changes no user id, keeps the invariant.
pub shrink-IsValid :
    (s t : Users)
    → IsValid s
    → t.registry ≡ s.registry
    → t.next_user ≡ s.next_user
    → ((r : ℕ) → (t.users r).user_id ≡ (s.users r).user_id)
    → ((r : ℕ) → is_alive r t ≡ true → is_alive r s ≡ true)
    → IsValid t
shrink-IsValid s t v registry next ids alive = record {
  fresh = λ r l. rw next (v.fresh r (ap (is_listed r) (sym registry) ∙ l));
  registered = λ r a. ap (is_listed r) registry ∙ v.registered r (alive r a);
  unique = λ r q a b e. v.unique r q (alive r a) (alive q b) (sym (ids r) ∙ e ∙ ids q);
}

pub no_users-IsValid : (users : Heap UserState) → IsValid (no_users users)
unfolding no_users is_alive
no_users-IsValid users = record {
  fresh = λ r l. absurd (ground (arith, l));
  registered = λ r a. absurd (ground (arith, a));
  unique = λ r q a b e. absurd (ground (arith, a));
}

is_listed-keep_alive :
    (test : ℕ → Bool) (r : ℕ) (refs : List ℕ)
    → is_listed r (keep_if test refs) ≡ (test r && is_listed r refs)
is_listed-keep_alive test r [] = ground arith
is_listed-keep_alive test r (x ∷ refs) = elim (Bool-cases (x == r)) [
  | inl same ↦
      rw (same, (==_iff x r).0 same) (ground (arith, ==_refl r, is_listed-keep_alive test r refs))
  | inr other ↦ ground (arith, other, is_listed-keep_alive test r refs)
]

is_alive-add_user :
    (user_id : ℕ) (info : UserInfo) (s : Users) (r : ℕ)
    → is_alive r (add_user user_id info s) ≡ ((s.next_user == r) || is_alive r s)
unfolding add_user is_alive
is_alive-add_user user_id info s r = ground arith

is_alive-register_user :
    (ref : ℕ) (s : Users) (r : ℕ) → is_alive r (register_user ref s) ≡ is_alive r s
unfolding register_user is_alive
is_alive-register_user ref s r = refl

registry-register :
    (user_id : ℕ) (info : UserInfo) (s : Users) (r : ℕ)
    → let t = register_user s.next_user (add_user user_id info s) in
      is_listed r t.registry
      ≡ ((s.next_user == r) || (is_alive r (add_user user_id info s) && is_listed r s.registry))
unfolding register_user add_user
registry-register user_id info s r =
    rw
      (
        is_listed-append r (keep_if (λ q. is_alive q (add_user user_id info s)) s.registry)
            s.next_user,
        is_listed-keep_alive (λ q. is_alive q (add_user user_id info s)) r s.registry,
      )
      refl

pub user_id-register :
    (user_id : ℕ) (info : UserInfo) (s : Users) (r : ℕ)
    → let t = register_user s.next_user (add_user user_id info s) in
      (t.users r).user_id ≡ (if s.next_user == r then user_id else (s.users r).user_id)
unfolding register_user add_user
user_id-register user_id info s r = ground arith

pub registered_alive :
    (user_id : ℕ) (info : UserInfo) (s : Users) (r : ℕ)
    → is_alive r (register_user s.next_user (add_user user_id info s))
      ≡ ((s.next_user == r) || is_alive r s)
registered_alive user_id info s r =
    is_alive-register_user s.next_user (add_user user_id info s) r
    ∙ is_alive-add_user user_id info s r

next_user-register :
    (user_id : ℕ) (info : UserInfo) (s : Users)
    → (register_user s.next_user (add_user user_id info s)).next_user ≡ s.next_user + 1
unfolding register_user add_user
next_user-register user_id info s = refl

-- A live user that a search does not find has another id.
pub other_id :
    (user_id : ℕ) (s : Users) (r : ℕ)
    → IsValid s
    → find_user (has_id user_id) s ≡ none
    → is_alive r s ≡ true
    → ((s.users r).user_id == user_id) ≡ false
unfolding find_user
other_id user_id s r v e a = find_in-none (has_id user_id) s.registry s r e (v.registered r a) a

-- A new user with an id that no live user has.
pub register-IsValid :
    (user_id : ℕ) (info : UserInfo) (s : Users)
    → IsValid s
    → ((r : ℕ) → is_alive r s ≡ true → ((s.users r).user_id == user_id) ≡ false)
    → IsValid (register_user s.next_user (add_user user_id info s))
register-IsValid user_id info s v absent = record {
  fresh = λ r l.
      ground (
        arith,
        l,
        registry-register user_id info s r,
        v.fresh r,
        next_user-register user_id info s,
      );
  registered = λ r a. ground (
    arith,
    a,
    registered_alive user_id info s r,
    is_alive-add_user user_id info s r,
    registry-register user_id info s r,
    v.registered r,
  );
  unique = λ r q a b same. ground (
    arith,
    a,
    b,
    same,
    registered_alive user_id info s r,
    registered_alive user_id info s q,
    user_id-register user_id info s r,
    user_id-register user_id info s q,
    v.unique r q,
    absent r,
    absent q,
  );
}
