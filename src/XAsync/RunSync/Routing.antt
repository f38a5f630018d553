-- ===== src/XAsync/RunSync/Routing.antt =====
-- Where `XAsyncBegin` routes a block that is ready.
use xgameruntime_rs.Base.{ℕ, ◌≡◌, ◌≢◌, refl, ap, none, some, false, ◌==◌, arith}
use xgameruntime_rs.TaskQueue.Modes.{work}
use xgameruntime_rs.TaskQueue.Queue.{port_of, get_handle}
use xgameruntime_rs.XAsync.Engine.{Engine, Environment, state_of, queue_for}
use xgameruntime_rs.XAsync.Engine.Exports.{
  is_manual, route_block, new_state, start, begin_on, begin_named,
}

-- A block that a title may begin a call with: its own, with no call, on a queue whose work a pool
-- runs, and with no completion routine.
pub record Ready (block queue : ℕ) (w : Engine) : Type 0 where
  pub given : block ≢ 0
  pub idle : state_of block w ≡ none
  pub named : (w.blocks block).queue ≢ 0
  pub live : get_handle (w.blocks block).queue w.process ≡ some queue
  pub pooled : is_manual (w.process.ports (port_of work queue w.process)).mode ≡ false
  pub polled : (w.blocks block).callback ≡ 0

route_block-kept :
    (block queue : ℕ) (w : Engine)
    → Ready block queue w
    → route_block block queue w ≡ (some queue, w)
unfolding route_block
route_block-kept block queue w r =
    let named : ((w.blocks block).queue == 0) ≡ false = ground (arith, r.named) in
    rw (named, r.pooled) refl

queue_for-live :
    (block queue : ℕ) (w : Engine)
    → Ready block queue w
    → queue_for (w.blocks block) w ≡ (some queue, w)
unfolding queue_for
queue_for-live block queue w r =
    let named : ((w.blocks block).queue == 0) ≡ false = ground (arith, r.named) in
    rw (named, r.live) refl

begin_on-routed :
    (env : Environment) (block context identity provider now_ms queue : ℕ) (w : Engine)
    → Ready block queue w
    → begin_on env block context identity provider now_ms queue w ≡ (
        let made = new_state provider context identity queue now_ms block w in
        start env made.0 made.1)
unfolding begin_on
begin_on-routed env block context identity provider now_ms queue w r =
    let k = route_block-kept block queue w r in rw (ap (λ x. x.0) k, begin_on, ap (λ x. x.1) k) refl

pub begin_named-routed :
    (env : Environment) (block context identity provider now_ms queue : ℕ) (w : Engine)
    → Ready block queue w
    → provider ≢ 0
    → begin_named env block context identity provider now_ms w ≡ (
        let made = new_state provider context identity queue now_ms block w in
        start env made.0 made.1)
unfolding begin_named
begin_named-routed env block context identity provider now_ms queue w r real =
    let given : (block == 0) ≡ false = ground (arith, r.given) in
    let p : (provider == 0) ≡ false = ground (arith, real) in
    let q = queue_for-live block queue w r in
    rw (given, p, r.idle, ap (λ x. x.0) q, ap (λ x. x.1) q)
      (begin_on-routed env block context identity provider now_ms queue w r)
