-- ===== src/GameSave/Storage/Quota.antt =====
-- The quota that is reported: what is left of a fixed budget.
use xgameruntime_rs.Base.{ℕ, ◌+◌, ◌≤◌, ◌≡◌, if◌then◌else◌, ltb, arith}
use xgameruntime_rs.GameSave.Files.{FileSystem}
use xgameruntime_rs.GameSave.Storage.{
  or_empty, containers_dir, sum_containers, quota_left, remaining_quota, placeholder_quota_bytes,
  i64_max,
}

-- What the containers of a provider hold.
abbrev pub used_bytes : {D : Type 0} → FileSystem D → ℕ → D → ℕ
used_bytes fs root d = sum_containers fs (or_empty (fs.read_dir (containers_dir fs root) d)) d

quota_left_lem :
    (used : ℕ)
    → used ≤ i64_max
    → (quota_left used ≤ placeholder_quota_bytes)
      × (quota_left used + used
          ≡ (if ltb used placeholder_quota_bytes then placeholder_quota_bytes else used))
unfolding quota_left
quota_left_lem used h = ground arith

-- While what the containers of a provider hold, summed modulo 2^64, fits a signed 64-bit integer,
-- the remaining quota is at most 1 GiB; together with what is held it makes exactly 1 GiB while
-- less than that is held, and from there on it is 0.
remaining_quota_bounds :
    {D : Type 0} (fs : FileSystem D) (root : ℕ) (d : D)
    → used_bytes fs root d ≤ i64_max
    → (remaining_quota fs root d ≤ placeholder_quota_bytes)
      × (remaining_quota fs root d + used_bytes fs root d ≡ (
          if ltb (used_bytes fs root d) placeholder_quota_bytes
          then placeholder_quota_bytes
          else used_bytes fs root d))
unfolding remaining_quota
remaining_quota_bounds fs root d h = quota_left_lem (used_bytes fs root d) h
