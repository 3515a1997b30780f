-- ===== src/Cost.antt =====
-- crates/quillcache-core/src/lib.rs: CostModel, the integer costs of prefill, decode and transfer.
mod Examples
pub mod Order
use quillcache.Prelude.{
  ℕ, zero, suc, ◌+◌, ◌-◌, ◌*◌, ◌/◌, ◌%◌, ◌^◌, ◌≤◌, ◌<◌, min, max, String, ◌≡◌, refl, sym, ap, ◌∙◌,
  subst, ◌≢◌, ◌↔◌, ◌⊎◌, inl, inr, Bool, true, false, not, ◌&&◌, ◌||◌, false≢true, Option, none,
  some, List, [], ◌∷◌, ◌++◌, map, arith, str_eq, eq_iff, ltb, leb, ◌==◌, if◌then◌else◌, ltb→lt,
  lt→ltb, leb→le, ==_iff, Bool-cases, Option-cases, length, get_elem?, set, get_or, take, drop,
  replicate, remove_at, keep, any, All, length-append, length-set, length-keep-le, length-map,
  length-take-le, take-append, drop-append, All-append, u64_mod, u64_max, u32_mod, add64, sub64,
  mul64, add32, sub32,
}
use quillcache.BlockStore.{CacheTier, hbm, remote_hbm, cpu_dram, local_ssd, object_store}

pub record CostModel : Type 0 where
  pub prefill_us_per_token : ℕ
  pub decode_us_per_token : ℕ
  pub queue_us_per_prefill_token : ℕ
  pub running_decode_penalty_us : ℕ
  pub hbm_hit_us : ℕ
  pub remote_hbm_us_per_mb : ℕ
  pub cpu_dram_us_per_mb : ℕ
  pub local_ssd_us_per_mb : ℕ
  pub object_store_us_per_mb : ℕ
  pub cross_domain_penalty_us : ℕ

unfoldable pub default_cost : CostModel
default_cost = record {
  prefill_us_per_token = 45;
  decode_us_per_token = 80;
  queue_us_per_prefill_token = 4;
  running_decode_penalty_us = 1500;
  hbm_hit_us = 5;
  remote_hbm_us_per_mb = 20;
  cpu_dram_us_per_mb = 55;
  local_ssd_us_per_mb = 280;
  object_store_us_per_mb = 1800;
  cross_domain_penalty_us = 350;
}

unfoldable pub prefill_cost_us : CostModel → ℕ → ℕ
prefill_cost_us c tokens = mul64 c.prefill_us_per_token tokens

unfoldable pub decode_cost_us : CostModel → ℕ → ℕ → ℕ
decode_cost_us c tokens running_decodes =
    add64 (mul64 c.decode_us_per_token tokens) (mul64 c.running_decode_penalty_us running_decodes)

-- `bytes.div_ceil(1024 * 1024).max(1)`.
unfoldable pub megabytes : ℕ → ℕ
megabytes bytes = max ((bytes + 1048575) / 1048576) 1

abbrev pub us_per_mb : CostModel → CacheTier → ℕ
us_per_mb c hbm = c.remote_hbm_us_per_mb
us_per_mb c remote_hbm = c.remote_hbm_us_per_mb
us_per_mb c cpu_dram = c.cpu_dram_us_per_mb
us_per_mb c local_ssd = c.local_ssd_us_per_mb
us_per_mb c object_store = c.object_store_us_per_mb

abbrev pub is_hbm : CacheTier → Bool
is_hbm hbm = true
is_hbm remote_hbm = false
is_hbm cpu_dram = false
is_hbm local_ssd = false
is_hbm object_store = false

unfoldable pub transfer_cost_us : CostModel → CacheTier → ℕ → Bool → Bool → ℕ
unfolding megabytes
transfer_cost_us c tier bytes same_worker same_locality_domain =
    if same_worker && is_hbm tier
    then c.hbm_hit_us
    else (let base = mul64 (us_per_mb c tier) (megabytes bytes) in
        if same_worker || same_locality_domain then base else add64 base c.cross_domain_penalty_us)
