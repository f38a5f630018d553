-- ===== src/Store/Exports.antt =====
-- src/com/xstore.rs: the Async and Result exports on top of Store.antt. An Async export gives the
-- status that it refuses with, or the body that it hands to `run_sync`. A title's string is `none`
-- where its pointer is null; how its bytes become a string is an argument, and so is each service.
pub mod Fetches
use xgameruntime_rs.Base.{
  ℕ, Option, none, some, Bool, true, false, ◌||◌, List, [], map, ◌==◌, if◌then◌else◌,
}
use xgameruntime_rs.Base.Heap.{Heap}
use xgameruntime_rs.Results.{Result, ok, err, e_pointer}
use xgameruntime_rs.User.Buffers.{PendingMap, Written}
use xgameruntime_rs.Store.{
  Amounts, CatalogEntry, EntitledProduct, GameLicense, Store, query_game_license, query_products,
  query_entitled_products, read_string_array, store_opaque_result, opaque_result_size,
  opaque_result,
}

-- `COLLECTIONS_ID_RESULTS`, `LICENSE_TOKEN_RESULTS` and `PURCHASE_ID_RESULTS`.
pub record OpaqueResults : Type 0 where
  pub collections_ids : PendingMap (List ℕ)
  pub license_tokens : PendingMap (List ℕ)
  pub purchase_ids : PendingMap (List ℕ)

-- A body that files a string; it ends with a failure or with none.
abbrev pub Filing : Type 0
Filing = OpaqueResults → Option ℕ × OpaqueResults

-- Every Async export wants a context.
abbrev pub for_context : {B : Type 0} → ℕ → B → Result B
for_context context body = if context == 0 then err e_pointer else ok body

unfoldable pub c_string_or_empty : (List ℕ → List ℕ) → Option (List ℕ) → List ℕ
c_string_or_empty to_string_lossy none = []
c_string_or_empty to_string_lossy (some text) = to_string_lossy text

unfoldable pub file_collections_id : ℕ → Result (List ℕ) → Filing
unfolding store_opaque_result
file_collections_id key result rs =
    let (failure, kept) = store_opaque_result key result rs.collections_ids in
    (failure, record rs { collections_ids = kept })

unfoldable pub file_purchase_id : ℕ → Result (List ℕ) → Filing
unfolding store_opaque_result
file_purchase_id key result rs =
    let (failure, kept) = store_opaque_result key result rs.purchase_ids in
    (failure, record rs { purchase_ids = kept })

unfoldable pub file_license_token : ℕ → Result (List ℕ) → Filing
unfolding store_opaque_result
file_license_token key result rs =
    let (failure, kept) = store_opaque_result key result rs.license_tokens in
    (failure, record rs { license_tokens = kept })

module _ (to_string_lossy : List ℕ → List ℕ) where
  unfoldable pub get_user_collections_id_async :
      (List ℕ → List ℕ → Result (List ℕ))
      → ℕ
      → Option (List ℕ)
      → Option (List ℕ)
      → ℕ
      → Result Filing
  unfolding c_string_or_empty
  get_user_collections_id_async service context service_ticket publisher_user_id key =
      for_context context (
        file_collections_id key (
          service (c_string_or_empty to_string_lossy service_ticket)
            (c_string_or_empty to_string_lossy publisher_user_id)))

  unfoldable pub get_user_purchase_id_async :
      (List ℕ → List ℕ → Result (List ℕ))
      → ℕ
      → Option (List ℕ)
      → Option (List ℕ)
      → ℕ
      → Result Filing
  unfolding c_string_or_empty
  get_user_purchase_id_async service context service_ticket publisher_user_id key =
      for_context context (
        file_purchase_id key (
          service (c_string_or_empty to_string_lossy service_ticket)
            (c_string_or_empty to_string_lossy publisher_user_id)))

  abbrev product_ids_of : Option (List (Option (List ℕ))) → List (List ℕ)
  product_ids_of none = []
  product_ids_of (some entries) = map (c_string_or_empty to_string_lossy) entries

  unfoldable pub query_license_token_async :
      (List (List ℕ) → List ℕ → Result (List ℕ))
      → ℕ
      → Option (List (Option (List ℕ)))
      → Option (List ℕ)
      → ℕ
      → Result Filing
  unfolding c_string_or_empty
  query_license_token_async service context product_ids custom_developer_string key =
      for_context context (
        file_license_token key (
          service (product_ids_of product_ids)
            (c_string_or_empty to_string_lossy custom_developer_string)))

unfoldable pub collections_id_size : OpaqueResults → ℕ → Bool → Result ℕ
unfolding opaque_result_size
collections_id_size rs key no_out = opaque_result_size rs.collections_ids key no_out

unfoldable pub collections_id_result : OpaqueResults → ℕ → ℕ → ℕ → Heap ℕ → Written
unfolding opaque_result
collections_id_result rs key size result m = opaque_result rs.collections_ids key size result m

unfoldable pub purchase_id_size : OpaqueResults → ℕ → Bool → Result ℕ
unfolding opaque_result_size
purchase_id_size rs key no_out = opaque_result_size rs.purchase_ids key no_out

unfoldable pub purchase_id_result : OpaqueResults → ℕ → ℕ → ℕ → Heap ℕ → Written
unfolding opaque_result
purchase_id_result rs key size result m = opaque_result rs.purchase_ids key size result m

unfoldable pub license_token_size : OpaqueResults → ℕ → Bool → Result ℕ
unfolding opaque_result_size
license_token_size rs key no_out = opaque_result_size rs.license_tokens key no_out

unfoldable pub license_token_result : OpaqueResults → ℕ → ℕ → ℕ → Heap ℕ → Written
unfolding opaque_result
license_token_result rs key size result m = opaque_result rs.license_tokens key size result m

unfoldable pub query_game_license_async : ℕ → Result (Bool × ℕ) → Result GameLicense
unfolding query_game_license
query_game_license_async context answer = for_context context (query_game_license answer)

-- The Result exports of a payload of fixed size: `answer` is what `XAsyncGetResult` gives.
unfoldable pub query_game_license_result : Bool → Bool → Result GameLicense → Result GameLicense
query_game_license_result no_async no_out answer =
    if no_async || no_out then err e_pointer else answer

unfoldable pub query_products_result : Bool → Bool → Result ℕ → Result ℕ
query_products_result no_async no_out answer = if no_async || no_out then err e_pointer else answer

module _ {P : Type 0} (amounts : Amounts P) where
  -- `service` answers for the ids that the title names.
  unfoldable pub query_products_async :
      (List (List ℕ) → Result (List (CatalogEntry P)))
      → ℕ
      → Option (List (Option (List ℕ)))
      → Result (Store P → ℕ × Store P)
  unfolding query_products read_string_array
  query_products_async service context store_ids =
      for_context context (query_products amounts (service (read_string_array store_ids)))

  unfoldable pub query_entitled_products_async :
      Result (List EntitledProduct) → ℕ → Result (Store P → ℕ × Store P)
  unfolding query_entitled_products
  query_entitled_products_async answer context =
      for_context context (query_entitled_products amounts answer)
