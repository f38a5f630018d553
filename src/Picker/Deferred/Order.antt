-- ===== src/Picker/Deferred/Order.antt =====
-- Deferred work runs once, in the order in which it was queued.
use xgameruntime_rs.Base.{
  ℕ, suc, ◌≤◌, ◌<◌, ◌≡◌, refl, ap, sym, ◌∙◌, subst, Option, none, some, Bool, true, false, List, [],
  ◌∷◌, ◌++◌, if◌then◌else◌, length, arith,
}
use mathlib.Core.List.{append-nil, append_assoc}
use xgameruntime_rs.Base.Heap.{Heap, update}
use xgameruntime_rs.Picker.Deferred.{
  MessageLoop, wm_run_deferred, run_later, deferred_wnd_proc, pump_one, pump,
}

-- A request: the job, and what the system does about it.
pub record Request : Type 0 where
  pub work : ℕ
  pub created : Bool
  pub posted : Bool

abbrev pub defer_all : List Request → MessageLoop → MessageLoop
defer_all [] s = s
defer_all (r ∷ rs) s = defer_all rs (run_later r.created r.posted r.work s).1

-- The jobs that `run_later` took, in order.
abbrev pub accepted : List Request → List ℕ
accepted [] = []
accepted (r ∷ rs) =
    if r.created then (if r.posted then r.work ∷ accepted rs else accepted rs) else accepted rs

-- The jobs that wait: each in a window of its own, with its message; the windows rise from `low`.
abbrev Waits : Heap Bool → Heap (Option ℕ) → ℕ → ℕ → List (ℕ × ℕ) → List ℕ → Type 0
Waits exists data_of low bound [] [] = Unit {0}
Waits exists data_of low bound [] (w ∷ ws) = ⊥
Waits exists data_of low bound (m ∷ ms) [] = ⊥
Waits exists data_of low bound ((window, message) ∷ ms) (w ∷ ws) =
    (message ≡ wm_run_deferred)
    × (exists window ≡ true)
    × (data_of window ≡ some w)
    × (low ≤ window)
    × (window < bound)
    × Waits exists data_of (suc window) bound ms ws

-- Other windows may change, and more may be made.
Waits-same :
    (exists exists' : Heap Bool) (data_of data_of' : Heap (Option ℕ)) (low bound bound' : ℕ)
    (ms : List (ℕ × ℕ)) (ws : List ℕ)
    → ((x : ℕ) → low ≤ x → x < bound → (exists' x ≡ exists x) × (data_of' x ≡ data_of x))
    → bound ≤ bound'
    → Waits exists data_of low bound ms ws
    → Waits exists' data_of' low bound' ms ws
Waits-same exists exists' data_of data_of' low bound bound' [] [] same b waits = tt
Waits-same exists exists' data_of data_of' low bound bound' [] (w ∷ ws) same b waits = waits
Waits-same exists exists' data_of data_of' low bound bound' (m ∷ ms) [] same b waits = waits
Waits-same exists exists' data_of data_of' low bound bound' ((window, message) ∷ ms) (w ∷ ws) same b
      waits =
    let (e, d) = same window waits.3 waits.4 in
    (
      waits.0,
      e ∙ waits.1,
      d ∙ waits.2,
      waits.3,
      omega (arith, b, waits.4),
      Waits-same exists exists' data_of data_of' (suc window) bound bound' ms ws
          (λ x h k. same x (omega (arith, h, waits.3)) k) b waits.5,
    )

Waits-append :
    (exists : Heap Bool) (data_of : Heap (Option ℕ)) (low bound : ℕ) (work : ℕ) (ms : List (ℕ × ℕ))
    (ws : List ℕ)
    → low ≤ bound
    → exists bound ≡ true
    → data_of bound ≡ some work
    → Waits exists data_of low bound ms ws
    → Waits exists data_of low (suc bound) (ms ++ (bound, wm_run_deferred) ∷ []) (ws ++ work ∷ [])
Waits-append exists data_of low bound work [] [] h e d waits = (refl, e, d, h, omega arith, tt)
Waits-append exists data_of low bound work [] (w ∷ ws) h e d waits = absurd waits
Waits-append exists data_of low bound work (m ∷ ms) [] h e d waits = absurd waits
Waits-append exists data_of low bound work ((window, message) ∷ ms) (w ∷ ws) h e d waits = (
  waits.0,
  waits.1,
  waits.2,
  waits.3,
  omega (arith, waits.4),
  Waits-append exists data_of (suc window) bound work ms ws (omega (arith, waits.4)) e d waits.5,
)

-- Jobs that ran one after the other, before what ran already.
abbrev pub after : List ℕ → List ℕ → List ℕ
after [] ran = ran
after (w ∷ ws) ran = after ws (w ∷ ran)

pump-Waits :
    (ms : List (ℕ × ℕ)) (ws : List ℕ) (low : ℕ) (s : MessageLoop)
    → s.messages ≡ ms
    → Waits s.exists s.user_data low s.next_window ms ws
    → ((pump (length ms) s).ran ≡ after ws s.ran) × ((pump (length ms) s).messages ≡ [])
unfolding pump_one deferred_wnd_proc
pump-Waits [] [] low s e waits = (refl, e)
pump-Waits [] (w ∷ ws) low s e waits = absurd waits
pump-Waits (m ∷ ms) [] low s e waits = absurd waits
pump-Waits ((window, message) ∷ ms) (w ∷ ws) low s e waits =
    let next : MessageLoop = record s {
      exists = update s.exists window false;
      user_data = update s.user_data window none;
      messages = ms;
      ran = w ∷ s.ran;
    } in
    let step : pump_one s ≡ next = rw (e, waits.0, waits.1, waits.2) refl in
    let rest =
      Waits-same s.exists next.exists s.user_data next.user_data (suc window) s.next_window
        s.next_window ms ws (λ x h k. (ground (arith, h), ground (arith, h))) (omega arith)
        waits.5 in
    subst
      (λ t.
        ((pump (length ms) t).ran ≡ after ws (w ∷ s.ran)) × ((pump (length ms) t).messages ≡ []))
      (sym step) (pump-Waits ms ws (suc window) next refl rest)

-- The jobs that wait in a loop.
abbrev InLine : MessageLoop → List ℕ → Type 0
InLine s ws = Waits s.exists s.user_data 0 s.next_window s.messages ws

run_later-InLine :
    (created posted : Bool) (work : ℕ) (s : MessageLoop) (ws : List ℕ)
    → InLine s ws
    → InLine
        (run_later created posted work s).1
        (if created then (if posted then ws ++ work ∷ [] else ws) else ws)
      × ((run_later created posted work s).1.ran ≡ s.ran)
unfolding run_later
run_later-InLine false posted work s ws h = (h, refl)
run_later-InLine true true work s ws h =
    let s' = (run_later true true work s).1 in
    (
      Waits-append s'.exists s'.user_data 0 s.next_window work s.messages ws (omega arith)
          (ground arith) (ground arith)
          (Waits-same s.exists s'.exists s.user_data s'.user_data 0 s.next_window s.next_window
            s.messages ws (λ x h k. (ground (arith, k), ground (arith, k))) (omega arith) h),
      refl,
    )
run_later-InLine true false work s ws h =
    let s' = (run_later true false work s).1 in
    (
      Waits-same s.exists s'.exists s.user_data s'.user_data 0 s.next_window (suc s.next_window)
          s.messages ws (λ x h k. (ground (arith, k), ground (arith, k))) (omega arith) h,
      refl,
    )

taken-append :
    (created posted : Bool) (work : ℕ) (ws later : List ℕ)
    → (if created then (if posted then ws ++ work ∷ [] else ws) else ws) ++ later
      ≡ ws ++ (if created then (if posted then work ∷ later else later) else later)
taken-append false posted work ws later = refl
taken-append true true work ws later = append_assoc ws (work ∷ []) later
taken-append true false work ws later = refl

defer_all-InLine :
    (rs : List Request) (s : MessageLoop) (ws : List ℕ)
    → InLine s ws
    → InLine (defer_all rs s) (ws ++ accepted rs) × ((defer_all rs s).ran ≡ s.ran)
defer_all-InLine [] s ws h = (rw (append-nil ws) h, refl)
defer_all-InLine (r ∷ rs) s ws h =
    let (step, same) = run_later-InLine r.created r.posted r.work s ws h in
    let next = (run_later r.created r.posted r.work s).1 in
    let taken = if r.created then (if r.posted then ws ++ r.work ∷ [] else ws) else ws in
    let (rest, still) = defer_all-InLine rs next taken step in
    (
      subst (InLine (defer_all rs next)) (taken-append r.created r.posted r.work ws (accepted rs))
          rest,
      still ∙ same,
    )

length-Waits :
    (exists : Heap Bool) (data_of : Heap (Option ℕ)) (low bound : ℕ) (ms : List (ℕ × ℕ))
    (ws : List ℕ)
    → Waits exists data_of low bound ms ws
    → length ms ≡ length ws
length-Waits exists data_of low bound [] [] h = refl
length-Waits exists data_of low bound [] (w ∷ ws) h = absurd h
length-Waits exists data_of low bound (m ∷ ms) [] h = absurd h
length-Waits exists data_of low bound ((window, message) ∷ ms) (w ∷ ws) h =
    ap suc (length-Waits exists data_of (suc window) bound ms ws h.5)

-- Requests to an idle message loop, and then the loop: it gets one message for each job that
-- `run_later` took, runs just those jobs, each once and in the order of the requests, and is idle
-- again. A job that was refused does not run.
pub pump-defer_all :
    (rs : List Request) (s : MessageLoop)
    → s.messages ≡ []
    → let waiting = defer_all rs s in
      let done = pump (length waiting.messages) waiting in
      (length waiting.messages ≡ length (accepted rs))
      × (done.ran ≡ after (accepted rs) s.ran)
      × (done.messages ≡ [])
pump-defer_all rs s idle =
    let (waits, same) = defer_all-InLine rs s [] (rw idle tt) in
    let waiting = defer_all rs s in
    let (ran, empty) = pump-Waits waiting.messages (accepted rs) 0 waiting refl waits in
    (
      length-Waits waiting.exists waiting.user_data 0 waiting.next_window waiting.messages
          (accepted rs) waits,
      ran ∙ ap (after (accepted rs)) same,
      empty,
    )
