-- ===== src/Store/Witnesses.antt =====
-- The theorems on the store at concrete states. Amounts are cents here.
use xgameruntime_rs.Base.{ℕ, Bool, true, List, [], ◌∷◌, ltb}
use xgameruntime_rs.HandleTable.{new}
use xgameruntime_rs.Results.{Result, ok}
use xgameruntime_rs.User.Buffers.{PendingMap}
use xgameruntime_rs.Store.{
  Amounts, CatalogEntry, Product, Store, query_products, close_products_query,
}
use xgameruntime_rs.Store.Exports.{OpaqueResults}

abbrev cents : Amounts ℕ
cents = record { less = ltb; default_amount = 0; to_text = λ n. 55 ∷ 46 ∷ 57 ∷ 57 ∷ [] }

abbrev realms : CatalogEntry ℕ
realms = record {
  store_id = 57 ∷ [];
  title = 82 ∷ [];
  product_kind = 68 ∷ 117 ∷ 114 ∷ 97 ∷ 98 ∷ 108 ∷ 101 ∷ [];
  base_price = 799;
  price = 799;
  recurrence_price = 799;
  currency_code = 85 ∷ 83 ∷ 68 ∷ [];
  sale_end_date = 0;
}

abbrev shop : Store ℕ
shop = record {
  queries = new;
  license_change_tokens = 1;
  collections_ids = [];
  license_tokens = [];
  purchase_ids = [];
}

abbrev noted : Product ℕ → Store ℕ × List ℕ → Bool × (Store ℕ × List ℕ)
noted p w = (true, (w.0, p.product_kind ∷ w.1))

abbrev answer : Result (List (CatalogEntry ℕ))
answer = ok (realms ∷ [])

abbrev open_query : Store ℕ × List ℕ
open_query = ((query_products cents answer shop).1, [])

abbrev closed_query : Store ℕ × List ℕ
closed_query = (close_products_query shop.queries.next (query_products cents answer shop).1, [])

abbrev no_results : PendingMap (List ℕ)
no_results = []

abbrev no_opaque_results : OpaqueResults
no_opaque_results = record {
  collections_ids = no_results;
  license_tokens = no_results;
  purchase_ids = no_results;
}
