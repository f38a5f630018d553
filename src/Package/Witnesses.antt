-- ===== src/Package/Witnesses.antt =====
-- The theorem on mounts at a buffer that is too small for the path.
use xgameruntime_rs.Base.{◌+◌, ◌≡◌, refl, [], ◌∷◌, false, arith}
use xgameruntime_rs.Base.Map.{lookup}
use xgameruntime_rs.HandleTable.{get}
use xgameruntime_rs.Results.{ok, s_ok}
use xgameruntime_rs.Store.Opaque.{HoldsText}
use xgameruntime_rs.Package.{Mounts, get_mount_path, get_mount_path_size}
use xgameruntime_rs.Package.Paths.{fitting, get_mount_path_lem}

-- "/s" under handle 1.
abbrev mounted : Mounts Unit
mounted = record {
  disk = tt;
  handles = record { next = 2; entries = record { key = 1; value = 47 ∷ 115 ∷ [] } ∷ [] };
}

get_mount_path_example :
    ((get_mount_path 1 2 500 mounted (λ a. 7)).0 ≡ s_ok)
    × HoldsText
        (fitting (47 ∷ 115 ∷ []) 2)
        500
        2
        502
        (get_mount_path 1 2 500 mounted (λ a. 7)).1
        (λ a. 7)
    × (get_mount_path_size 1 false mounted ≡ ok 3)
    × (fitting (47 ∷ 115 ∷ []) (2 + 1) ≡ 47 ∷ 115 ∷ [])
unfolding get lookup
get_mount_path_example =
    get_mount_path_lem mounted 1 2 500 502 (47 ∷ 115 ∷ []) (λ a. 7) refl (ground arith)
      (omega arith)
