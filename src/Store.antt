-- ===== src/Store.antt =====
-- src/com/xstore.rs: the game license, the product queries and their handles, and the opaque
-- strings. Strings are lists of bytes. Amounts are 32-bit floats in the code; here they are any type
-- with the operations that the code calls on them. The service's answers are arguments, and of an
-- Async export the model has the body that it hands to `run_sync`. Fields that are always empty or
-- zero are left out.
pub mod Queries
pub mod Opaque
pub mod Exports
mod Witnesses
use xgameruntime_rs.Base.{
  ℕ, zero, suc, ◌+◌, Option, none, some, Bool, true, false, not, ◌||◌, ◌&&◌, List, [], ◌∷◌, ◌++◌,
  map, ◌==◌, if◌then◌else◌, length, leb, ltb, add64, is_listed,
}
use xgameruntime_rs.Base.Heap.{Heap}
use xgameruntime_rs.Base.Map.{lookup}
use xgameruntime_rs.HandleTable.{HandleTable, create, get, close}
use xgameruntime_rs.Results.{
  Result, ok, err, s_ok, e_invalidarg, e_pointer, e_not_sufficient_buffer,
}
use xgameruntime_rs.User.{same_bytes}
use xgameruntime_rs.User.Buffers.{
  PendingMap, Written, failed_with, sized, delivered, keep_result, write_c_string,
}
use xgameruntime_rs.GameSave.Object.Folder.{copied}

-- `XStoreGameLicense`.
pub record GameLicense : Type 0 where
  pub is_active : Bool
  pub is_trial : Bool
  pub expiration_date : ℕ

unfoldable pub build_full_game_license : GameLicense
build_full_game_license = record { is_active = true; is_trial = false; expiration_date = 0 }

-- An answer is whether the license is active, and when it expires.
unfoldable pub query_game_license : Result (Bool × ℕ) → GameLicense
unfolding build_full_game_license
query_game_license (ok (is_active, expiration_date)) = record {
  is_active = is_active;
  is_trial = false;
  expiration_date = expiration_date;
}
query_game_license (err hr) = build_full_game_license

-- "Consumable", "Durable", "Game", "Pass" and "UnmanagedConsumable", in small letters.
abbrev consumable : List ℕ
consumable = 99 ∷ 111 ∷ 110 ∷ 115 ∷ 117 ∷ 109 ∷ 97 ∷ 98 ∷ 108 ∷ 101 ∷ []

abbrev durable : List ℕ
durable = 100 ∷ 117 ∷ 114 ∷ 97 ∷ 98 ∷ 108 ∷ 101 ∷ []

abbrev game : List ℕ
game = 103 ∷ 97 ∷ 109 ∷ 101 ∷ []

abbrev pass : List ℕ
pass = 112 ∷ 97 ∷ 115 ∷ 115 ∷ []

abbrev unmanaged_consumable : List ℕ
unmanaged_consumable = 117 ∷ 110 ∷ 109 ∷ 97 ∷ 110 ∷ 97 ∷ 103 ∷ 101 ∷ 100 ∷ consumable

abbrev lower : ℕ → ℕ
lower c = if leb 65 c && leb c 90 then c + 32 else c

-- `kind.eq_ignore_ascii_case(name)`.
abbrev is_kind : List ℕ → List ℕ → Bool
is_kind kind name = same_bytes (map lower kind) name

unfoldable pub product_kind_flag : List ℕ → ℕ
product_kind_flag kind =
    if is_kind kind consumable
    then 1
    else if is_kind kind durable
    then 2
    else if is_kind kind game
    then 4
    else if is_kind kind pass
    then 8
    else if is_kind kind unmanaged_consumable
    then 16
    else 0

-- What the code does with amounts: `<`, the default, and `format!("{amount:.2}")`.
pub record Amounts (P : Type 0) : Type 0 where
  pub less : P → P → Bool
  pub default_amount : P
  pub to_text : P → List ℕ

-- The service's entries, as far as they are read.
pub record CatalogEntry (P : Type 0) : Type 0 where
  pub store_id : List ℕ
  pub title : List ℕ
  pub product_kind : List ℕ
  pub base_price : P
  pub price : P
  pub recurrence_price : P
  pub currency_code : List ℕ
  pub sale_end_date : ℕ

pub record EntitledProduct : Type 0 where
  pub store_id : List ℕ
  pub title : List ℕ
  pub product_kind : List ℕ

-- `XStorePrice`.
pub record StorePrice (P : Type 0) : Type 0 where
  pub base_price : P
  pub price : P
  pub recurrence_price : P
  pub currency_code : List ℕ
  pub formatted_base_price : List ℕ
  pub formatted_price : List ℕ
  pub formatted_recurrence_price : List ℕ
  pub is_on_sale : Bool
  pub sale_end_date : ℕ

-- `XStoreProduct`, whose strings are what its pointers point at.
pub record Product (P : Type 0) : Type 0 where
  pub store_id : List ℕ
  pub title : List ℕ
  pub product_kind : ℕ
  pub price : StorePrice P
  pub is_in_user_collection : Bool

-- `PRODUCT_QUERY_HANDLES`, `LICENSE_CHANGE_TOKENS`, and the strings that were fetched.
pub record Store (P : Type 0) : Type 0 where
  pub queries : HandleTable (List (Product P))
  pub license_change_tokens : ℕ
  pub collections_ids : PendingMap (List ℕ)
  pub license_tokens : PendingMap (List ℕ)
  pub purchase_ids : PendingMap (List ℕ)

-- `CString::new(…).unwrap_or_default()`: empty where there is a NUL in it.
abbrev c_text : List ℕ → List ℕ
c_text bs = if is_listed 0 bs then [] else bs

-- The first entries of a list.
abbrev pub first : ℕ → List ℕ → List ℕ
first zero bs = []
first (suc n) [] = []
first (suc n) (b ∷ bs) = b ∷ first n bs

abbrev usd : List ℕ
usd = 85 ∷ 83 ∷ 68 ∷ []

-- The text of `format_price`, given the amount's.
abbrev price_text : List ℕ → List ℕ → List ℕ
price_text amount [] = []
price_text amount (c ∷ cs) = if same_bytes (c ∷ cs) usd then 36 ∷ amount else amount ++ 32 ∷ c ∷ cs

module _ {P : Type 0} (amounts : Amounts P) where
  open amounts use {less, default_amount, to_text}

  unfoldable pub format_price : P → List ℕ → List ℕ
  unfolding copied
  format_price amount currency_code =
      copied (first 15 (price_text (to_text amount) currency_code)) 16

  unfoldable pub store_price : CatalogEntry P → StorePrice P
  unfolding format_price
  store_price e = record {
    base_price = e.base_price;
    price = e.price;
    recurrence_price = e.recurrence_price;
    currency_code = c_text e.currency_code;
    formatted_base_price = format_price e.base_price e.currency_code;
    formatted_price = format_price e.price e.currency_code;
    formatted_recurrence_price = format_price e.recurrence_price e.currency_code;
    is_on_sale = less e.price e.base_price;
    sale_end_date = e.sale_end_date;
  }

  unfoldable pub listed : CatalogEntry P → Product P
  unfolding store_price product_kind_flag
  listed e = record {
    store_id = c_text e.store_id;
    title = c_text e.title;
    product_kind = product_kind_flag e.product_kind;
    price = store_price e;
    is_in_user_collection = false;
  }

  abbrev zeros : List ℕ
  zeros = copied [] 16

  unfoldable pub entitled : EntitledProduct → Product P
  unfolding product_kind_flag
  entitled e = record {
    store_id = c_text e.store_id;
    title = c_text e.title;
    product_kind = product_kind_flag e.product_kind;
    price = record {
      base_price = default_amount;
      price = default_amount;
      recurrence_price = default_amount;
      currency_code = [];
      formatted_base_price = zeros;
      formatted_price = zeros;
      formatted_recurrence_price = zeros;
      is_on_sale = false;
      sale_end_date = 0;
    };
    is_in_user_collection = true;
  }

  -- `unwrap_or_default`.
  abbrev or_default : {A : Type 0} → Result (List A) → List A
  or_default (ok xs) = xs
  or_default (err hr) = []

  abbrev add_query : List (Product P) → Store P → ℕ × Store P
  add_query products s =
      let (handle, table) = create s.queries products in (handle, record s { queries = table })

  unfoldable pub build_product_query : List (CatalogEntry P) → Store P → ℕ × Store P
  unfolding create listed
  build_product_query products s = add_query (map listed products) s

  unfoldable pub query_products : Result (List (CatalogEntry P)) → Store P → ℕ × Store P
  unfolding build_product_query
  query_products answer s = build_product_query (or_default answer) s

  unfoldable pub query_entitled_products : Result (List EntitledProduct) → Store P → ℕ × Store P
  unfolding create entitled
  query_entitled_products answer s = add_query (map entitled (or_default answer)) s

-- The strings of an array, nulls skipped; no strings where the array is null.
unfoldable pub skip_nulls : List (Option (List ℕ)) → List (List ℕ)
skip_nulls [] = []
skip_nulls (none ∷ entries) = skip_nulls entries
skip_nulls (some text ∷ entries) = text ∷ skip_nulls entries

unfoldable pub read_string_array : Option (List (Option (List ℕ))) → List (List ℕ)
unfolding skip_nulls
read_string_array none = []
read_string_array (some entries) = skip_nulls entries

module _ {P : Type 0} where
  unfoldable pub close_products_query : ℕ → Store P → Store P
  unfolding close
  close_products_query handle s = record s { queries = close s.queries handle }

  unfoldable pub register_game_license_changed : ℕ → Bool → Bool → Store P → Result ℕ × Store P
  register_game_license_changed context no_callback no_out s =
      if (context == 0) || no_callback || no_out then (err e_pointer, s) else (
        ok s.license_change_tokens,
        record s { license_change_tokens = add64 s.license_change_tokens 1 },
      )

  unfoldable pub unregister_game_license_changed : ℕ → Store P → Bool
  unregister_game_license_changed token s = not ((token == 0) || leb s.license_change_tokens token)

  -- The loop of `XStoreEnumerateProductsQuery`: a callback says whether to go on.
  unfoldable pub each_product : {W : Type 0} → (Product P → W → Bool × W) → List (Product P) → W → W
  each_product callback [] w = w
  each_product callback (p ∷ ps) w =
      let (keep_going, w₁) = callback p w in
      let rest = each_product callback ps w₁ in if keep_going then rest else w₁

  -- `callback` is what the title's callback makes of the process, or null. `store` is the part of
  -- the process that is here.
  unfoldable pub enumerate_products_query :
      {W : Type 0} → (W → Store P) → ℕ → Option (Product P → W → Bool × W) → W → ℕ × W
  unfolding each_product get
  enumerate_products_query store handle none w = (e_pointer, w)
  enumerate_products_query store handle (some callback) w = elim (get (store w).queries handle) [
    | none ↦ (e_invalidarg, w)
    | some products ↦ (s_ok, each_product callback products w)
  ]

unfoldable pub store_opaque_result :
    ℕ → Result (List ℕ) → PendingMap (List ℕ) → Option ℕ × PendingMap (List ℕ)
unfolding keep_result
store_opaque_result key result results = keep_result key result results

unfoldable pub opaque_result_size : PendingMap (List ℕ) → ℕ → Bool → Result ℕ
unfolding lookup
opaque_result_size results key no_out =
    if no_out then err e_pointer else sized (λ value. length value + 1) (lookup key results)

unfoldable pub opaque_result : PendingMap (List ℕ) → ℕ → ℕ → ℕ → Heap ℕ → Written
unfolding lookup write_c_string
opaque_result results key size result m =
    delivered
      (λ value.
        if ltb size (length value + 1)
        then failed_with e_not_sufficient_buffer m
        else if result == 0
        then failed_with e_pointer m
        else record {
          status = s_ok;
          memory = write_c_string value result m;
          pointer = none;
          used = none;
        })
      (lookup key results) m
