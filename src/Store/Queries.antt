-- ===== src/Store/Queries.antt =====
-- Product queries: what a query keeps is what enumeration reports.
use xgameruntime_rs.Base.{List, [], map}
use xgameruntime_rs.Results.{Result, ok, err}
use xgameruntime_rs.Store.{Amounts, CatalogEntry, Product, Store, listed}

-- The products that a query's answer lists.
abbrev pub answered : {P : Type 0} → Amounts P → Result (List (CatalogEntry P)) → List (Product P)
answered amounts (ok entries) = map (listed amounts) entries
answered amounts (err hr) = []
