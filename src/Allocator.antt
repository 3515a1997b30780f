-- ===== src/Allocator.antt =====
-- crates/quillcache-store/src/allocator.rs: the buffer type and the allocators behind it.
pub mod Interface
pub mod Ordered
pub mod FirstFit
use quillcache.Prelude.{
  ℕ, zero, suc, ◌+◌, ◌-◌, ◌*◌, ◌/◌, ◌%◌, ◌^◌, ◌≤◌, ◌<◌, min, max, String, ◌≡◌, refl, sym, ap, ◌∙◌,
  subst, ◌≢◌, ◌↔◌, ◌⊎◌, inl, inr, Bool, true, false, not, ◌&&◌, ◌||◌, false≢true, Option, none,
  some, List, [], ◌∷◌, ◌++◌, map, arith, str_eq, eq_iff, ltb, leb, ◌==◌, if◌then◌else◌, ltb→lt,
  lt→ltb, leb→le, ==_iff, Bool-cases, Option-cases, length, get_elem?, set, get_or, take, drop,
  replicate, remove_at, keep, any, All, length-append, length-set, length-keep-le, length-map,
  length-take-le, take-append, drop-append, All-append, u64_mod, u64_max, u32_mod, add64, sub64,
  mul64, add32, sub32,
}

-- `AllocatedBuffer`: where an object's bytes live.
pub record AllocatedBuffer : Type 0 where
  pub segment_name : String
  pub offset : ℕ
  pub size : ℕ
