-- ===== src/GameSave/Update/Batch.antt =====
-- A batch of blob changes as a map: for each blob, the last change that the title submitted.
use xgameruntime_rs.Base.{
  ℕ, ◌≡◌, refl, Option, none, some, not, List, [], ◌∷◌, ◌++◌, ◌==◌, if◌then◌else◌, keep_if, arith,
  is_listed, is_listed-append, is_listed-keep_if,
}
use xgameruntime_rs.GameSave.Update.{BlobWrite, UpdateState, add_write, add_delete}

-- A change of one blob, as the title submits it.
pub data Change : Type 0 where
  sets : List ℕ → Change
  deletes : Change

-- `XGameSaveSubmitBlobWrite` and `XGameSaveSubmitBlobDelete`, after their checks.
abbrev pub submit_change : ℕ → Change → UpdateState → UpdateState
submit_change name (sets bytes) u = add_write name bytes u
submit_change name deletes u = add_delete name u

abbrev pub submit_changes : List (ℕ × Change) → UpdateState → UpdateState
submit_changes [] u = u
submit_changes ((name, c) ∷ cs) u = submit_changes cs (submit_change name c u)

-- The specification: of the changes submitted for a blob, the last counts.
abbrev pub last_change : ℕ → Option Change → List (ℕ × Change) → Option Change
last_change name before [] = before
last_change name before ((n, c) ∷ cs) = last_change name (if n == name then some c else before) cs

abbrev pub last_write : ℕ → List BlobWrite → Option (List ℕ)
last_write name [] = none
last_write name (w ∷ ws) = elim (last_write name ws) [
  | some content ↦ some content
  | none ↦ if w.name == name then some w.content else none
]

-- What the batch holds for a blob.
abbrev pub pending : ℕ → UpdateState → Option Change
pending name u =
    if is_listed name u.deletes
    then some deletes
    else elim (last_write name u.writes) [ some content ↦ some (sets content) | none ↦ none ]

last_write-append :
    (name : ℕ) (ws : List BlobWrite) (w : BlobWrite)
    → last_write name (ws ++ w ∷ [])
      ≡ (if w.name == name then some w.content else last_write name ws)
last_write-append name [] w = ground arith
last_write-append name (v ∷ ws) w = ground (arith, last_write-append name ws w)

last_write-keep_if :
    (name gone : ℕ) (ws : List BlobWrite)
    → last_write name (keep_if (λ w. not (w.name == gone)) ws)
      ≡ (if gone == name then none else last_write name ws)
last_write-keep_if name gone [] = ground arith
last_write-keep_if name gone (w ∷ ws) = ground (arith, last_write-keep_if name gone ws)

pending-submit_change :
    (name n : ℕ) (c : Change) (u : UpdateState)
    → pending name (submit_change n c u) ≡ (if n == name then some c else pending name u)
unfolding add_write add_delete
pending-submit_change name n (sets bytes) u =
    rw
      (
        is_listed-keep_if name n u.deletes,
        last_write-append name (keep_if (λ w. not (w.name == n)) u.writes)
            (record { name = n; content = bytes }),
        last_write-keep_if name n u.writes,
      )
      (ground arith)
pending-submit_change name n deletes u =
    rw (is_listed-append name u.deletes n, last_write-keep_if name n u.writes) (ground arith)

pub pending-submit_changes :
    (name : ℕ) (cs : List (ℕ × Change)) (u : UpdateState)
    → pending name (submit_changes cs u) ≡ last_change name (pending name u) cs
pending-submit_changes name [] u = refl
pending-submit_changes name ((n, c) ∷ cs) u =
    rw (← pending-submit_change name n c u) (pending-submit_changes name cs (submit_change n c u))
