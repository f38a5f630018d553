-- ===== src/Runtime.antt =====
-- src/lib.rs: starting and stopping the runtime, and the registry of its objects in src/com/mod.rs; with
-- the event handlers for remote sign-in of src/com/xuser/impl.rs, which starting it sets. A count of
-- more than 64 bits is left out.
pub mod Sessions
mod Witnesses
use xgameruntime_rs.Base.{
  ℕ, zero, suc, ◌+◌, ◌-◌, Option, none, some, Bool, true, false, not, ◌||◌, List, [], ◌∷◌, ◌==◌,
  if◌then◌else◌, ltb,
}
use xgameruntime_rs.Results.{s_ok, e_pointer, e_notimpl, e_nointerface}
use xgameruntime_rs.TaskQueue.Modes.{thread_pool}
use xgameruntime_rs.TaskQueue.Queue.{Process, new_queue, set_process_queue, has_process_queue}

-- `RemoteConnectHandlers`: a callback is a number, if there is one.
pub record RemoteConnectHandlers : Type 0 where
  pub show : Option ℕ
  pub close : Option ℕ
  pub context : ℕ

-- The process-wide state. `closed` are the `close` callbacks that were called, newest first.
pub record Runtime : Type 0 where
  pub init_ref_count : ℕ
  pub process : Process
  pub handlers : Option RemoteConnectHandlers
  pub closed : List ℕ

-- `XUserPlatformRemoteConnectSetEventHandlers`: `none` is a null pointer.
unfoldable pub set_event_handlers : Option RemoteConnectHandlers → Runtime → ℕ × Runtime
set_event_handlers none r = (e_pointer, r)
set_event_handlers (some handlers) r = (s_ok, record r { handlers = some handlers })

abbrev call_close : Option ℕ → Runtime → Runtime
call_close none r = r
call_close (some close) r = record r { closed = close ∷ r.closed }

-- `XUserPlatformRemoteConnectCancelPrompt`.
unfoldable pub cancel_prompt : Runtime → ℕ × Runtime
cancel_prompt r = elim r.handlers [
  | none ↦ (s_ok, r)
  | some handlers ↦ (s_ok, call_close handlers.close r)
]

-- `show` and `hide`, as callbacks.
abbrev pub own_handlers : RemoteConnectHandlers
own_handlers = record { show = some 1; close = some 2; context = 0 }

abbrev install_queue : Process → Process
install_queue p =
    let (queue, p') = new_queue thread_pool thread_pool p in
    if not (has_process_queue p) then set_process_queue (some queue) p' else p

-- `initialize`. The user object is found: it is this library's own.
unfoldable pub initialize : Runtime → ℕ × Runtime
unfolding new_queue set_process_queue has_process_queue set_event_handlers
initialize r =
    let counted = record r { init_ref_count = r.init_ref_count + 1 } in
    if ltb 1 (r.init_ref_count + 1) then (s_ok, counted) else (
      s_ok,
      (set_event_handlers (some own_handlers)
          (record counted { process = install_queue r.process })).1,
    )

-- `uninitialize`.
unfoldable pub uninitialize : Runtime → ℕ × Runtime
unfolding set_process_queue
uninitialize r =
    if r.init_ref_count == 0
    then (e_notimpl, r)
    else if r.init_ref_count - 1 == 0
    then (
      s_ok,
      record r {
        init_ref_count = r.init_ref_count - 1;
        process = set_process_queue none r.process;
      },
    )
    else (s_ok, record r { init_ref_count = r.init_ref_count - 1 })

-- The objects behind the `…_singleton` functions.
pub data ApiObject : Type 0 where
  xfeature xstore xnetworking xpersistent_local_storage xpackage xasync xuser xuser_device xgamesave
        xsystem xgame xgame_invite xgame_protocol xerror xsystem_analytics xaccessibility
        xappcapture xappcapturemetadata xdisplay xlauncher xgameactivation xgameevent xgamestreaming
        xgameui :
      ApiObject

-- The arms of the `match` on the class, in their order.
abbrev pub classes : List (ℕ × ApiObject)
classes =
    (0x8836fe87edb94fe38dad05f0d2cd5b40, ApiObject.xfeature)
    ∷ (0x0dd112ac7c24448cb92b3960fb5bd30c, ApiObject.xstore)
    ∷ (0x37e569072f1041e8b72f36edb185331a, ApiObject.xnetworking)
    ∷ (0xf4faf4d42d044fceb3e0474a713a3e84, ApiObject.xpersistent_local_storage)
    ∷ (0xaf406016e8504aa8a88d2f3dcb9dac7e, ApiObject.xpackage)
    ∷ (0x073b7dcb1fcf403094bee3c9eb623428, ApiObject.xasync)
    ∷ (0x01acd17791f94763a38eccbb55ce32e0, ApiObject.xuser)
    ∷ (0x7d82499710dc45ab86b72737767c0bf1, ApiObject.xuser_device)
    ∷ (0x704c3f58e6294cc2b19730511b996fe2, ApiObject.xgamesave)
    ∷ (0xe349bd1afc204e40b99c4178cc6b409f, ApiObject.xsystem)
    ∷ (0x973a344e24bf4d0f845756c534892b29, ApiObject.xgame)
    ∷ (0x0651aae240124077bf848b9097090e2c, ApiObject.xgame_invite)
    ∷ (0x95fd18d274dd4d7caa1b0b51827665d6, ApiObject.xgame_protocol)
    ∷ (0x8ca467f722e840968456bb8aa13f79d8, ApiObject.xerror)
    ∷ (0xb884675db7384a9c815d9a9a1e0c6c9b, ApiObject.xsystem_analytics)
    ∷ (0x3e241977623741e98559102c2d9983f1, ApiObject.xaccessibility)
    ∷ (0xa4f1aee24bf14485b008a7c26d52ac27, ApiObject.xappcapture)
    ∷ (0x186d5592a72d45fb956011aed0e6647a, ApiObject.xappcapturemetadata)
    ∷ (0x03f0fe74fdd94e5cb630f9339c47acc5, ApiObject.xdisplay)
    ∷ (0x1b339674328d4283a2003171f18d3639, ApiObject.xlauncher)
    ∷ (0x7f0fe8b8e07549ab9aa7a1e065489a9e, ApiObject.xgameactivation)
    ∷ (0xbbfbdcc7bfe7409ba5caedf054960b4d, ApiObject.xgameevent)
    ∷ (0x0a2192aab2d54d5883be383b6d80799e, ApiObject.xgamestreaming)
    ∷ (0xdfcd46494ff84043ba0735d607df98b0, ApiObject.xgameui)
    ∷ []

unfoldable pub class_of : List (ℕ × ApiObject) → ℕ → Option ApiObject
class_of [] class_id = none
class_of ((id, object) ∷ arms) class_id =
    let later = class_of arms class_id in if id == class_id then some object else later

-- What is written to `out`: nothing, a null pointer, or an interface of an object.
pub data Written : Type 0 where
  untouched null : Written
  interface_of : ApiObject → ℕ → Written

-- `query`: `supports` is whether the object has the interface.
unfoldable pub query : (ApiObject → ℕ → Bool) → ApiObject → ℕ → ℕ × Written
query supports object interface_id =
    if supports object interface_id
    then (s_ok, interface_of object interface_id)
    else (e_nointerface, null)

abbrev query_class : (ApiObject → ℕ → Bool) → Option ApiObject → ℕ → ℕ × Written
query_class supports none interface_id = (e_notimpl, null)
query_class supports (some object) interface_id = query supports object interface_id

-- `query_api_impl`: an identifier is missing where its pointer is null.
unfoldable pub query_api_impl : (ApiObject → ℕ → Bool) → Option ℕ → Option ℕ → Bool → ℕ × Written
unfolding class_of query
query_api_impl supports none interface_id has_out = (e_pointer, untouched)
query_api_impl supports (some class_id) none has_out = (e_pointer, untouched)
query_api_impl supports (some class_id) (some interface_id) false = (e_pointer, untouched)
query_api_impl supports (some class_id) (some interface_id) true =
    query_class supports (class_of classes class_id) interface_id
