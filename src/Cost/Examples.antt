-- ===== src/Cost/Examples.antt =====
-- The default costs of a block of three megabytes.
use quillcache.Prelude.{◌*◌, ◌<◌, ◌≡◌, true, arith}
use quillcache.BlockStore.{CacheTier, hbm, cpu_dram, local_ssd, object_store}
use quillcache.Cost.{default_cost, megabytes, transfer_cost_us}
use quillcache.Cost.Order.{default_cost-ordered}

default_cost-ordered_example :
    let cost = λ (tier : CacheTier). transfer_cost_us default_cost tier 3000000 true true in
    (cost hbm < cost cpu_dram)
    × (cost cpu_dram < cost local_ssd)
    × (cost local_ssd < cost object_store)
    × (cost object_store ≡ 1800 * megabytes 3000000)
default_cost-ordered_example = default_cost-ordered 3000000 (omega arith)
