-- ===== src/Title/Config.antt =====
-- Reading an element of a config, and the search upwards.
use xgameruntime_rs.Base.{
  ℕ, suc, ◌+◌, ◌-◌, ◌^◌, ◌<◌, ◌≡◌, refl, ap, ◌∙◌, Option, none, some, true, false, List, [], ◌∷◌,
  ◌⊎◌, inl, inr, ◌++◌, ◌==◌, length, length-append, All, arith,
}
use mathlib.Core.List.{append_assoc}
use xgameruntime_rs.Base.Text.{trim, from_str_radix_16}
use xgameruntime_rs.XAsync.Block.{take, drop}
use xgameruntime_rs.Title.{
  starts_with, find, element_text, parsed, read_upwards, read_game_title_id,
  parse_title_id_from_config, title_id_opening, title_id_closing, read_game_msa_app_id,
  parse_msa_app_id_from_config, msa_app_id_opening, msa_app_id_closing, title_client_id,
  xbox_live_client_id,
}

starts_with-append : (needle rest : List ℕ) → starts_with needle (needle ++ rest) ≡ true
starts_with-append [] rest = refl
starts_with-append (n ∷ needle) rest = ground (arith, starts_with-append needle rest)

-- Where the needle begins with a byte that the text before it does not have.
find_after :
    (b : ℕ) (needle before rest : List ℕ)
    → All (λ c. (b == c) ≡ false) before
    → find (b ∷ needle) (before ++ ((b ∷ needle) ++ rest)) ≡ some (length before)
unfolding find
find_after b needle [] rest h = ground (arith, starts_with-append needle rest)
find_after b needle (c ∷ before) rest h = ground (arith, h.0, find_after b needle before rest h.1)

drop-append : (xs ys : List ℕ) → drop (length xs) (xs ++ ys) ≡ ys
drop-append [] ys = refl
drop-append (x ∷ xs) ys = drop-append xs ys

take-append : (xs ys : List ℕ) → take (length xs) (xs ++ ys) ≡ xs
take-append [] ys = refl
take-append (x ∷ xs) ys = ap (λ zs. x ∷ zs) (take-append xs ys)

drop_past : (n : ℕ) (xs ys : List ℕ) → n ≡ length xs → drop n (xs ++ ys) ≡ ys
drop_past n xs ys e = rw e (drop-append xs ys)

regroup :
    (xs ys : List ℕ) (z : ℕ) (zs : List ℕ) → xs ++ (ys ++ (z ∷ zs)) ≡ (xs ++ (ys ++ (z ∷ []))) ++ zs
regroup xs ys z zs = simp append_assoc

-- What is left after two texts and a byte.
drop_two :
    (xs ys : List ℕ) (z : ℕ) (zs : List ℕ)
    → drop (length ys + suc (length xs)) (xs ++ (ys ++ (z ∷ zs))) ≡ zs
drop_two xs ys z zs = rw (regroup xs ys z zs) (
    drop_past (length ys + suc (length xs)) (xs ++ (ys ++ (z ∷ []))) zs
      (omega (arith, length-append xs (ys ++ (z ∷ [])), length-append ys (z ∷ []))))

-- A config in which the opening first stands after some text, with attributes and an element's text
-- after it: neither `>` in the attributes, nor what the closing begins with in the text.
pub record Element (opening closing contents text : List ℕ) : Type 0 where
  pub before : List ℕ
  pub attributes : List ℕ
  pub rest : List ℕ
  pub c : ℕ
  pub losing : List ℕ
  pub closes : closing ≡ c ∷ losing
  pub lies : contents ≡ before ++ ((opening ++ attributes) ++ (62 ∷ (text ++ (closing ++ rest))))
  pub is_first : find opening contents ≡ some (length before)
  pub no_bracket : All (λ b. (62 == b) ≡ false) (opening ++ attributes)
  pub no_closing : All (λ b. (c == b) ≡ false) text

element_text-Element :
    {opening closing contents text : List ℕ}
    → Element opening closing contents text
    → element_text opening closing contents ≡ some (trim text)
unfolding element_text
element_text-Element {opening} {closing} {contents} {text} e =
    let head = opening ++ e.attributes in
    let tail = text ++ ((e.c ∷ e.losing) ++ e.rest) in
    let started : drop (length e.before) contents ≡ head ++ (62 ∷ tail) =
      rw (e.lies, e.closes) (drop-append e.before (head ++ (62 ∷ tail))) in
    let opened : find (62 ∷ []) (drop (length e.before) contents) ≡ some (length head) =
      rw started (find_after 62 [] head tail e.no_bracket) in
    let open_end = length head + suc (length e.before) in
    let inside : drop open_end contents ≡ tail =
      rw (e.lies, e.closes) (drop_two e.before head 62 tail) in
    let closed : find closing (drop open_end contents) ≡ some (length text) =
      rw (inside, e.closes) (find_after e.c e.losing text e.rest e.no_closing) in
    let width : length text + open_end - open_end ≡ length text = omega arith in
    rw (e.is_first, opened, closed, width, inside)
      (ap (λ bs. some (trim bs)) (take-append text ((e.c ∷ e.losing) ++ e.rest)))

-- A directory in which neither file can be read as a config with such an element.
abbrev pub HasNone : {A : Type 0} → (List ℕ → Option A) → Option (List ℕ) × Option (List ℕ) → Type 0
HasNone parse (first, second) = (parsed parse first ≡ none) × (parsed parse second ≡ none)

read_upwards-append :
    {A : Type 0} (parse : List ℕ → Option A)
    (nearer dirs : List (Option (List ℕ) × Option (List ℕ)))
    → All (HasNone parse) nearer
    → read_upwards parse (nearer ++ dirs) ≡ read_upwards parse dirs
unfolding read_upwards
read_upwards-append parse [] dirs h = refl
read_upwards-append parse ((first, second) ∷ nearer) dirs h =
    rw (h.0.0, h.0.1) (read_upwards-append parse nearer dirs h.1)

-- A directory in which the config is the first file, or the second where no such element is read
-- from the first.
abbrev pub HasConfig :
    {A : Type 0} → (List ℕ → Option A) → List ℕ → Option (List ℕ) × Option (List ℕ) → Type 0
HasConfig parse contents (first, second) =
    (first ≡ some contents) ⊎ ((parsed parse first ≡ none) × (second ≡ some contents))

-- Past the directories without an id, that config decides.
read_upwards-HasConfig :
    {A : Type 0} (parse : List ℕ → Option A)
    (nearer farther : List (Option (List ℕ) × Option (List ℕ))) (contents : List ℕ)
    (files : Option (List ℕ) × Option (List ℕ)) (id : A)
    → All (HasNone parse) nearer
    → HasConfig parse contents files
    → parse contents ≡ some id
    → read_upwards parse (nearer ++ (files ∷ farther)) ≡ some id
unfolding read_upwards
read_upwards-HasConfig parse nearer farther contents (first, second) id none_nearer has e =
    read_upwards-append parse nearer ((first, second) ∷ farther) none_nearer ∙ elim has [
      | inl is_first ↦ rw (is_first, e) refl
      | inr (no_first, k) ↦ rw (no_first, k, e) refl
    ]

-- The nearest directory, from the executable's upwards, with a config whose `<TitleId>` is a number
-- decides, whichever of the two file names that config has, where the file of the first name, if it
-- is another one, gives no title id: where that config has the element after some text, with
-- attributes that hold no `>` and a text that holds no `<`, and the text, trimmed, is eight digits,
-- the title id is what they read as in radix 16; what the directories above hold does not matter.
pub read_game_title_id-Element :
    (nearer farther : List (Option (List ℕ) × Option (List ℕ))) (contents text : List ℕ)
    (files : Option (List ℕ) × Option (List ℕ)) (id : ℕ)
    → All (HasNone parse_title_id_from_config) nearer
    → HasConfig parse_title_id_from_config contents files
    → Element title_id_opening title_id_closing contents text
    → length (trim text) ≡ 8
    → from_str_radix_16 (2 ^ 32) (trim text) ≡ some id
    → read_game_title_id (some (nearer ++ (files ∷ farther))) ≡ some id
unfolding read_game_title_id parse_title_id_from_config
read_game_title_id-Element nearer farther contents text files id none_nearer has e eight digits =
    read_upwards-HasConfig parse_title_id_from_config nearer farther contents files id none_nearer
      has (rw (element_text-Element e, eight, digits) refl)

read_upwards-none :
    {A : Type 0} (parse : List ℕ → Option A) (dirs : List (Option (List ℕ) × Option (List ℕ)))
    → All (HasNone parse) dirs
    → read_upwards parse dirs ≡ none
unfolding read_upwards
read_upwards-none parse [] h = refl
read_upwards-none parse ((first, second) ∷ dirs) h =
    rw (h.0.0, h.0.1) (read_upwards-none parse dirs h.1)

-- The same for the client id and `<MSAAppId>`, whose text may be any but white space; and the client
-- id is the shared one where no directory has such a config.
pub title_client_id-Element :
    (nearer farther : List (Option (List ℕ) × Option (List ℕ))) (contents text : List ℕ)
    (files : Option (List ℕ) × Option (List ℕ))
    → All (HasNone parse_msa_app_id_from_config) nearer
    → HasConfig parse_msa_app_id_from_config contents files
    → Element msa_app_id_opening msa_app_id_closing contents text
    → 0 < length (trim text)
    → (title_client_id (some (nearer ++ (files ∷ farther))) ≡ trim text)
      × (title_client_id (some nearer) ≡ xbox_live_client_id)
unfolding title_client_id read_game_msa_app_id read_upwards parse_msa_app_id_from_config
title_client_id-Element nearer farther contents text files none_nearer has e some_text =
    let filled : (length (trim text) == 0) ≡ false = ground (arith, some_text) in
    (
      rw
          (read_upwards-HasConfig parse_msa_app_id_from_config nearer farther contents files
            (trim text) none_nearer has (rw (element_text-Element e, filled) refl))
          refl,
      rw (read_upwards-none parse_msa_app_id_from_config nearer none_nearer) refl,
    )
