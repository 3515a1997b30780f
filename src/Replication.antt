-- ===== src/Replication.antt =====
-- crates/quillcache-core/src/replication.rs: which hot prefixes are copied to which workers, and the
-- count of the accesses that makes a prefix hot.
pub mod Plan
pub mod Sound
pub mod Hotness
mod Examples
use quillcache.Prelude.{
  ℕ, zero, suc, ◌+◌, ◌-◌, ◌*◌, ◌/◌, ◌%◌, ◌^◌, ◌≤◌, ◌<◌, min, max, String, ◌≡◌, refl, sym, ap, ◌∙◌,
  subst, ◌≢◌, ◌↔◌, ◌⊎◌, inl, inr, Bool, true, false, not, ◌&&◌, ◌||◌, false≢true, Option, none,
  some, List, [], ◌∷◌, ◌++◌, map, arith, str_eq, eq_iff, ltb, leb, ◌==◌, if◌then◌else◌, ltb→lt,
  lt→ltb, leb→le, ==_iff, Bool-cases, Option-cases, length, get_elem?, set, get_or, take, drop,
  replicate, remove_at, keep, any, All, length-append, length-set, length-keep-le, length-map,
  length-take-le, take-append, drop-append, All-append, u64_mod, u64_max, u32_mod, add64, sub64,
  mul64, add32, sub32,
}
use quillcache.Identity.{KvBlockKey, IdentityScope}

pub record ReplicationConfig : Type 0 where
  pub target_replicas : ℕ
  pub hotness_threshold : ℕ
  pub max_actions : ℕ

pub record PrefixResidency : Type 0 where
  pub scope : IdentityScope
  pub prefix_hash : String
  pub holders : List String
  pub accesses : ℕ

pub record WorkerLoad : Type 0 where
  pub id : String
  pub load : ℕ

pub record ReplicationAction : Type 0 where
  pub scope : IdentityScope
  pub prefix_hash : String
  pub from_worker : String
  pub to_worker : String
  pub accesses : ℕ
