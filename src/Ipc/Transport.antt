-- ===== src/Ipc/Transport.antt =====
-- src/ipc/unixlib.rs, `resolve`, with `publish_handle` of unixlib/src/lib.rs; and src/ipc.rs,
-- `request_with_timeout`, which chooses the transport. The environment is a parameter: a variable is
-- missing where it is not set. So is what ntdll exports and answers.
use xgameruntime_rs.Base.{
  ℕ, ◌^◌, ◌<◌, ◌≡◌, ◌≢◌, refl, Option, none, some, false, not, ◌||◌, List, ◌==◌, if◌then◌else◌,
  length, is_listed, arith,
}
use xgameruntime_rs.Base.Text.{trim, from_str_radix_16, lower_hex, from_str_radix_16-lower_hex}

-- `Transport`: `call` is the address of the entry point.
pub record Transport : Type 0 where
  pub call : ℕ
  pub handle : ℕ
  pub socket_path : List ℕ

-- ntdll, where it is loaded: the function, if it is exported, and what the pointer that is exported
-- under the other name holds.
pub record Ntdll : Type 0 where
  pub wine_unix_call : Option ℕ
  pub dispatcher : Option ℕ

abbrev dereferenced : Option ℕ → Option ℕ
dereferenced none = none
dereferenced (some dispatcher) = if dispatcher == 0 then none else some dispatcher

-- `wine_unix_call`.
unfoldable pub entry_point : Option Ntdll → Option ℕ
entry_point none = none
entry_point (some ntdll) = elim ntdll.wine_unix_call [
  | some proc ↦ some proc
  | none ↦ dereferenced ntdll.dispatcher
]

abbrev nonzero : Option ℕ → Option ℕ
nonzero none = none
nonzero (some handle) = if handle == 0 then none else some handle

unfoldable pub handle_from_env : Option (List ℕ) → Option ℕ
handle_from_env none = none
handle_from_env (some raw) = nonzero (from_str_radix_16 (2 ^ 64) (trim raw))

-- `handle_from_builtin_query`, by what the query answers: a status and a handle, where this module
-- and the query are found.
unfoldable pub handle_from_builtin_query : Option (ℕ × ℕ) → Option ℕ
handle_from_builtin_query none = none
handle_from_builtin_query (some (status, handle)) =
    if not (status == 0) || (handle == 0) then none else some handle

abbrev or_else : Option ℕ → Option ℕ → Option ℕ
or_else (some handle) other = some handle
or_else none other = other

abbrev with_handle : ℕ → List ℕ → Option ℕ → Option Transport
with_handle call path none = none
with_handle call path (some handle) =
    some (record { call = call; handle = handle; socket_path = path })

abbrev with_call : Option ℕ → List ℕ → Option ℕ → Option Transport
with_call none path handle = none
with_call (some call) path handle = with_handle call path handle

-- `resolve`, by the two variables. A path with a NUL in it is no C string.
unfoldable pub resolve :
    Option (List ℕ) → Option (List ℕ) → Option Ntdll → Option (ℕ × ℕ) → Option Transport
unfolding entry_point handle_from_env handle_from_builtin_query
resolve none handle ntdll query = none
resolve (some path) handle ntdll query =
    if (length path == 0) || is_listed 0 path
    then none
    else with_call (entry_point ntdll) path
        (or_else (handle_from_env handle) (handle_from_builtin_query query))

-- What `publish_handle` sets the variable to.
unfoldable pub publish_handle : ℕ → Option (List ℕ)
unfolding lower_hex
publish_handle table = some (lower_hex table)

-- `request_with_timeout` of src/ipc.rs, over the two transports.
unfoldable pub request_with_timeout :
    {A : Type 0}
    → Option Transport
    → (Transport → ℕ → List ℕ → A)
    → (ℕ → List ℕ → A)
    → ℕ
    → List ℕ
    → A
request_with_timeout (some transport) over_unixlib over_tcp msg_type payload =
    over_unixlib transport msg_type payload
request_with_timeout none over_unixlib over_tcp msg_type payload = over_tcp msg_type payload

handle_from_env-publish_handle :
    (table : ℕ) → table ≢ 0 → table < 2 ^ 64 → handle_from_env (publish_handle table) ≡ some table
unfolding handle_from_env publish_handle
handle_from_env-publish_handle table h k =
    rw (from_str_radix_16-lower_hex table h k) (ground (arith, h))

-- Where the launcher names the socket by a path that is not empty and has no NUL, and the native half
-- has published the 64-bit address of its table, requests go through that table, whether ntdll
-- exports the function or only the pointer to one, and whatever a query for a builtin would answer.
-- Without the path, or without an entry point, they go over TCP.
pub resolve-publish_handle :
    {A : Type 0}
    → (path : List ℕ) (table call : ℕ) (ntdll : Ntdll) (query : Option (ℕ × ℕ))
      (over_unixlib : Transport → ℕ → List ℕ → A) (over_tcp : ℕ → List ℕ → A) (msg_type : ℕ)
      (payload : List ℕ)
    → 0 < length path
    → is_listed 0 path ≡ false
    → table ≢ 0
    → table < 2 ^ 64
    → call ≢ 0
    → let handle = publish_handle table in
      let request =
        λ (t : Option Transport). request_with_timeout t over_unixlib over_tcp msg_type payload in
      let transport : Transport = record { call = call; handle = table; socket_path = path } in
      let exported : Ntdll = record ntdll { wine_unix_call = some call } in
      let pointed : Ntdll = record { wine_unix_call = none; dispatcher = some call } in
      let bare : Ntdll = record { wine_unix_call = none; dispatcher = none } in
      (request (resolve (some path) handle (some exported) query)
        ≡ over_unixlib transport msg_type payload)
      × (request (resolve (some path) handle (some pointed) query)
          ≡ over_unixlib transport msg_type payload)
      × (request (resolve none handle (some exported) query) ≡ over_tcp msg_type payload)
      × (request (resolve (some path) handle (some bare) query) ≡ over_tcp msg_type payload)
      × (request (resolve (some path) handle none query) ≡ over_tcp msg_type payload)
unfolding resolve request_with_timeout entry_point
resolve-publish_handle path table call ntdll query over_unixlib over_tcp msg_type payload hp hn ht
      h64 hc =
    let full : (length path == 0) ≡ false = ground (arith, hp) in
    let direct : (call == 0) ≡ false = ground (arith, hc) in
    let back = handle_from_env-publish_handle table ht h64 in
    (
      rw (full, hn, back) refl,
      rw (full, hn, back, direct) refl,
      refl,
      rw (full, hn) refl,
      rw (full, hn) refl,
    )
