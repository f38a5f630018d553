-- ===== src/HandleTable/Witnesses.antt =====
-- Runs of the handle table, and its theorems at concrete tables.
use xgameruntime_rs.Base.{ℕ, ◌≡◌, refl, none, some, List, [], ◌∷◌, arith}
use xgameruntime_rs.Base.Map.{lookup, insert, remove}
use xgameruntime_rs.HandleTable.{HandleTable, new, create, get, close}
use xgameruntime_rs.HandleTable.Laws.{IsValid, new-IsValid, create-IsValid}
use xgameruntime_rs.HandleTable.History.{Op, creates, closes, run, step, get-run}

one_entry : HandleTable ℕ
one_entry = (create new 70).1

one_entry-IsValid : IsValid one_entry
unfolding one_entry new
one_entry-IsValid = create-IsValid new 70 new-IsValid (omega arith)

abbrev later : List (Op ℕ)
later = creates 80 ∷ closes 1 ∷ creates 90 ∷ closes 7 ∷ []

duplicates : get (run one_entry (creates 80 ∷ closes 1 ∷ [])) 2 ≡ some 80
unfolding one_entry run step create close get new lookup insert remove
duplicates = refl

get-run_example : get (run one_entry later) 1 ≡ none
unfolding one_entry create new
get-run_example = get-run one_entry later 1 one_entry-IsValid (omega arith) (omega arith)
