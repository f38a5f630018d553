-- ===== src/HandleTable/History.antt =====
-- The handle table over a history of calls, by any threads in any order: each call is one step.
use xgameruntime_rs.Base.{
  ℕ, suc, ◌+◌, ◌<◌, ◌≡◌, refl, ◌∙◌, none, List, [], ◌∷◌, ◌==◌, ◌||◌, Bool, false, if◌then◌else◌,
  arith, u64_mod,
}
use xgameruntime_rs.HandleTable.{HandleTable, create, get, close}
use xgameruntime_rs.HandleTable.Laws.{IsValid, create-IsValid, close-IsValid, get-create, get-close}

pub data Op {ℓ} (T : Type ℓ) : Type ℓ where
  creates : T → Op T
  closes : ℕ → Op T

module _ {ℓ} {T : Type ℓ} where
  unfoldable pub step : HandleTable T → Op T → HandleTable T
  step t (creates v) = (create t v).1
  step t (closes k) = close t k

  unfoldable pub run : HandleTable T → List (Op T) → HandleTable T
  run t [] = t
  run t (op ∷ ops) = run (step t op) ops

  -- How many handles a history issues.
  abbrev pub creations : List (Op T) → ℕ
  creations [] = 0
  creations (creates v ∷ ops) = suc (creations ops)
  creations (closes k ∷ ops) = creations ops

  -- Whether a history closes a handle.
  abbrev pub is_closed : ℕ → List (Op T) → Bool
  is_closed h [] = false
  is_closed h (creates v ∷ ops) = is_closed h ops
  is_closed h (closes k ∷ ops) = (k == h) || is_closed h ops

  -- A handle issued before a history resolves after it exactly as before, unless the history
  -- closes it: then it does not resolve, whatever handles were issued since. The history must
  -- not bring the 64-bit counter to its end.
  pub get-run :
      (t : HandleTable T) (ops : List (Op T)) (h : ℕ)
      → IsValid t
      → t.next + creations ops < u64_mod
      → h < t.next
      → get (run t ops) h ≡ (if is_closed h ops then none else get t h)
  unfolding run step
  get-run t [] h v r l = refl
  get-run t (creates x ∷ ops) h v r l =
      get-run (create t x).1 ops h (create-IsValid t x v (omega arith))
        (unfold create in omega arith) (unfold create in omega arith)
      ∙ ground (arith, get-create t x h v)
  get-run t (closes k ∷ ops) h v r l =
      get-run (close t k) ops h (close-IsValid t k v) (unfold close in ground arith)
        (unfold close in ground arith)
      ∙ ground (arith, get-close t k h)
