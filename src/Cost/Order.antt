-- ===== src/Cost/Order.antt =====
-- How the default costs of crates/quillcache-core/src/lib.rs order the tiers.
use quillcache.Prelude.{ℕ, ◌*◌, ◌^◌, ◌≤◌, ◌<◌, ◌≡◌, true, arith}
use quillcache.BlockStore.{CacheTier, hbm, cpu_dram, local_ssd, object_store}
use quillcache.Cost.{default_cost, megabytes, transfer_cost_us}

-- At least one megabyte, and so few that no cost can wrap.
megabytes-le : (bytes : ℕ) → bytes ≤ 2 ^ 60 → (1 ≤ megabytes bytes) × (megabytes bytes ≤ 2 ^ 41)
unfolding megabytes
megabytes-le bytes small = (omega arith, omega arith)

-- With the default model, for every block of at most 2 ^ 60 bytes and on the worker that reads it, the
-- tiers cost more the further down they are: HBM, memory, SSD, object store; and no product wraps.
pub default_cost-ordered :
    (bytes : ℕ)
    → bytes ≤ 2 ^ 60
    → let cost = λ (tier : CacheTier). transfer_cost_us default_cost tier bytes true true in
      (cost hbm < cost cpu_dram)
      × (cost cpu_dram < cost local_ssd)
      × (cost local_ssd < cost object_store)
      × (cost object_store ≡ 1800 * megabytes bytes)
unfolding transfer_cost_us default_cost
default_cost-ordered bytes small =
    let (low, high) = megabytes-le bytes small in
    (
      omega (arith, low, high),
      omega (arith, low, high),
      omega (arith, low, high),
      omega (arith, low, high),
    )
