-- ===== src/Title.antt =====
-- src/com/xgame.rs and src/ipc.rs: the title's identity, read from its MicrosoftGame.config. A text
-- is the list of its bytes.
pub mod Config
mod Witnesses
use xgameruntime_rs.Base.{
  ℕ, zero, suc, ◌+◌, ◌-◌, ◌^◌, Option, none, some, Bool, true, false, not, ◌&&◌, List, [], ◌∷◌,
  ◌++◌, ◌==◌, if◌then◌else◌, length, ltb,
}
use xgameruntime_rs.Base.Heap.{Heap, update}
use xgameruntime_rs.Base.Text.{trim, from_str_radix_16}
use xgameruntime_rs.Results.{s_ok, e_pointer, e_notimpl}
use xgameruntime_rs.XAsync.Block.{take, drop}

abbrev pub starts_with : List ℕ → List ℕ → Bool
starts_with [] text = true
starts_with (n ∷ needle) [] = false
starts_with (n ∷ needle) (c ∷ text) = (n == c) && starts_with needle text

abbrev pub one_more : Option ℕ → Option ℕ
one_more none = none
one_more (some at) = some (suc at)

-- `str::find`: where the needle first stands.
unfoldable pub find : List ℕ → List ℕ → Option ℕ
find needle [] = if starts_with needle [] then some 0 else none
find needle (c ∷ text) =
    let later = find needle text in if starts_with needle (c ∷ text) then some 0 else one_more later

abbrev pub plus : ℕ → Option ℕ → Option ℕ
plus n none = none
plus n (some at) = some (at + n)

abbrev between : ℕ → Option ℕ → List ℕ → Option (List ℕ)
between open_end none contents = none
between open_end (some close) contents =
    some (trim (take (close - open_end) (drop open_end contents)))

abbrev element_end : List ℕ → Option ℕ → List ℕ → Option (List ℕ)
element_end closing none contents = none
element_end closing (some open_end) contents =
    between open_end (plus open_end (find closing (drop open_end contents))) contents

abbrev element_start : List ℕ → Option ℕ → List ℕ → Option (List ℕ)
element_start closing none contents = none
element_start closing (some start) contents =
    element_end closing (plus (suc start) (find (62 ∷ []) (drop start contents))) contents

-- The text of an element, trimmed: from the first `>` after the opening to the closing that follows.
unfoldable pub element_text : List ℕ → List ℕ → List ℕ → Option (List ℕ)
unfolding find
element_text opening closing contents = element_start closing (find opening contents) contents

-- "<TitleId" and "</TitleId>".
abbrev pub title_id_opening : List ℕ
title_id_opening = 60 ∷ 84 ∷ 105 ∷ 116 ∷ 108 ∷ 101 ∷ 73 ∷ 100 ∷ []

abbrev pub title_id_closing : List ℕ
title_id_closing = 60 ∷ 47 ∷ 84 ∷ 105 ∷ 116 ∷ 108 ∷ 101 ∷ 73 ∷ 100 ∷ 62 ∷ []

abbrev pub eight_digits : Option (List ℕ) → Option ℕ
eight_digits none = none
eight_digits (some text) = if not (length text == 8) then none else from_str_radix_16 (2 ^ 32) text

unfoldable pub parse_title_id_from_config : List ℕ → Option ℕ
unfolding element_text
parse_title_id_from_config contents =
    eight_digits (element_text title_id_opening title_id_closing contents)

-- "<MSAAppId" and "</MSAAppId>".
abbrev pub msa_app_id_opening : List ℕ
msa_app_id_opening = 60 ∷ 77 ∷ 83 ∷ 65 ∷ 65 ∷ 112 ∷ 112 ∷ 73 ∷ 100 ∷ []

abbrev pub msa_app_id_closing : List ℕ
msa_app_id_closing = 60 ∷ 47 ∷ 77 ∷ 83 ∷ 65 ∷ 65 ∷ 112 ∷ 112 ∷ 73 ∷ 100 ∷ 62 ∷ []

abbrev pub not_empty : Option (List ℕ) → Option (List ℕ)
not_empty none = none
not_empty (some text) = if length text == 0 then none else some text

unfoldable pub parse_msa_app_id_from_config : List ℕ → Option (List ℕ)
unfolding element_text
parse_msa_app_id_from_config contents =
    not_empty (element_text msa_app_id_opening msa_app_id_closing contents)

module _ {A : Type 0} (parse : List ℕ → Option A) where
  abbrev pub or_next : Option A → Option A → Option A
  or_next (some id) next = some id
  or_next none next = next

  abbrev pub parsed : Option (List ℕ) → Option A
  parsed none = none
  parsed (some contents) = parse contents

  -- The loops of `read_game_title_id` and of `read_game_msa_app_id`: the directories from the
  -- executable's up, each with what its two files hold, where they can be read.
  unfoldable pub read_upwards : List (Option (List ℕ) × Option (List ℕ)) → Option A
  read_upwards [] = none
  read_upwards ((first, second) ∷ dirs) =
      let next = read_upwards dirs in or_next (parsed first) (or_next (parsed second) next)

abbrev dirs_of :
    Option (List (Option (List ℕ) × Option (List ℕ))) → List (Option (List ℕ) × Option (List ℕ))
dirs_of none = []
dirs_of (some dirs) = dirs

-- `exe` is missing where the executable's directory is not known.
unfoldable pub read_game_title_id : Option (List (Option (List ℕ) × Option (List ℕ))) → Option ℕ
unfolding read_upwards parse_title_id_from_config
read_game_title_id exe = read_upwards parse_title_id_from_config (dirs_of exe)

unfoldable pub read_game_msa_app_id :
    Option (List (Option (List ℕ) × Option (List ℕ))) → Option (List ℕ)
unfolding read_upwards parse_msa_app_id_from_config
read_game_msa_app_id exe = read_upwards parse_msa_app_id_from_config (dirs_of exe)

-- "000000004424da1f".
abbrev pub xbox_live_client_id : List ℕ
xbox_live_client_id =
    48 ∷ 48 ∷ 48 ∷ 48 ∷ 48 ∷ 48 ∷ 48 ∷ 48 ∷ 52 ∷ 52 ∷ 50 ∷ 52 ∷ 100 ∷ 97 ∷ 49 ∷ 102 ∷ []

abbrev or_default : Option (List ℕ) → List ℕ → List ℕ
or_default none text = text
or_default (some text) other = text

unfoldable pub title_client_id : Option (List (Option (List ℕ) × Option (List ℕ))) → List ℕ
unfolding read_game_msa_app_id
title_client_id exe = or_default (read_game_msa_app_id exe) xbox_live_client_id

-- `XGameGetXboxTitleId`: the status, and what `value` points at.
unfoldable pub get_xbox_title_id : Option ℕ → ℕ → Heap ℕ → ℕ × Heap ℕ
get_xbox_title_id title value m =
    if value == 0
    then (e_pointer, m)
    else elim title [ some id ↦ (s_ok, update m value id) | none ↦ (e_notimpl, update m value 0) ]
