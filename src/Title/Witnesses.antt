-- ===== src/Title/Witnesses.antt =====
-- The theorems on the title's config, at `<G><TitleId>12aB34cD</TitleId>` with a no-break space before
-- the digits, under the second file name.
use xgameruntime_rs.Base.{ℕ, ◌≡◌, refl, some, none, List, [], ◌∷◌, ◌++◌, inr, arith}
use xgameruntime_rs.Title.{
  find, read_game_title_id, title_id_opening, title_id_closing, parse_title_id_from_config,
}
use xgameruntime_rs.Title.Config.{Element, read_game_title_id-Element}
use xgameruntime_rs.Base.Text.{trim, from_str_radix_16}

abbrev id_text : List ℕ
id_text = 0xC2 ∷ 0xA0 ∷ 49 ∷ 50 ∷ 97 ∷ 66 ∷ 51 ∷ 52 ∷ 99 ∷ 68 ∷ []

abbrev game : List ℕ
game = 60 ∷ 71 ∷ 62 ∷ []

abbrev config : List ℕ
config = game ++ ((title_id_opening ++ []) ++ (62 ∷ (id_text ++ (title_id_closing ++ []))))

config-Element : Element title_id_opening title_id_closing config id_text
unfolding find
config-Element = record {
  before = game;
  attributes = [];
  rest = [];
  c = 60;
  losing = 47 ∷ 84 ∷ 105 ∷ 116 ∷ 108 ∷ 101 ∷ 73 ∷ 100 ∷ 62 ∷ [];
  closes = refl;
  lies = refl;
  is_first = refl;
  no_bracket = ground arith;
  no_closing = ground arith;
}

read_game_title_id_example :
    read_game_title_id (some ((none, some []) ∷ (some game, some config) ∷ [])) ≡ some 0x12ab34cd
unfolding parse_title_id_from_config trim from_str_radix_16
read_game_title_id_example =
    read_game_title_id-Element ((none, some []) ∷ []) [] config id_text (some game, some config)
      0x12ab34cd ((refl, refl), tt) (inr (refl, refl)) config-Element refl refl
