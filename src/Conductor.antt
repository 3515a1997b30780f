-- ===== src/Conductor.antt =====
-- crates/quillcache-core/src/conductor.rs: which serving instances hold which prefix blocks. A
-- `HashSet` of instances is a list, and the outer `HashMap` a list of contexts with their tables.
pub mod Contexts
pub mod Holds
pub mod Cached
pub mod Overlap
mod Examples
use quillcache.Prelude.{
  ℕ, zero, suc, ◌+◌, ◌-◌, ◌*◌, ◌/◌, ◌%◌, ◌^◌, ◌≤◌, ◌<◌, min, max, String, ◌≡◌, refl, sym, ap, ◌∙◌,
  subst, ◌≢◌, ◌↔◌, ◌⊎◌, inl, inr, Bool, true, false, not, ◌&&◌, ◌||◌, false≢true, Option, none,
  some, List, [], ◌∷◌, ◌++◌, map, arith, str_eq, eq_iff, ltb, leb, ◌==◌, if◌then◌else◌, ltb→lt,
  lt→ltb, leb→le, ==_iff, Bool-cases, Option-cases, length, get_elem?, set, get_or, take, drop,
  replicate, remove_at, keep, any, All, length-append, length-set, length-keep-le, length-map,
  length-take-le, take-append, drop-append, All-append, u64_mod, u64_max, u32_mod, add64, sub64,
  mul64, add32, sub32,
}
use quillcache.Identity.{IdentityScope, opt_eq}
use quillcache.StrMap.{StrMap, lookup, insert, remove}

pub record ModelContext : Type 0 where
  pub tenant_id : String
  pub model_id : String
  pub tokenizer_id : String
  pub lora_id : Option String
  pub block_size : ℕ
  pub salt : Option String

unfoldable pub from_scope : IdentityScope → ℕ → ModelContext
from_scope scope block_size = record {
  tenant_id = scope.tenant_id;
  model_id = scope.model_id;
  tokenizer_id = scope.tokenizer_id;
  lora_id = scope.adapter_id;
  block_size = block_size;
  salt = none;
}

-- The derived `==` of contexts.
unfoldable pub context_eq : ModelContext → ModelContext → Bool
context_eq a b =
    str_eq a.tenant_id b.tenant_id
    && str_eq a.model_id b.model_id
    && str_eq a.tokenizer_id b.tokenizer_id
    && opt_eq a.lora_id b.lora_id
    && (a.block_size == b.block_size)
    && opt_eq a.salt b.salt

abbrev pub Instances : Type 0
Instances = List String

abbrev pub Table : Type 0
Table = StrMap Instances

pub record PrefixCacheTable : Type 0 where
  pub tables : List (ModelContext × Table)

abbrev pub contains : String → Instances → Bool
contains instance_id set = any (λ x. str_eq x instance_id) set

-- `HashSet::insert` and `HashSet::remove`.
unfoldable pub add_instance : String → Instances → Instances
add_instance instance_id set = if contains instance_id set then set else instance_id ∷ set

unfoldable pub drop_instance : String → Instances → Instances
drop_instance instance_id set = keep (λ x. not (str_eq x instance_id)) set

unfoldable pub table_of : ModelContext → List (ModelContext × Table) → Option Table
unfolding context_eq
table_of ctx [] = none
table_of ctx ((c, table) ∷ ts) = if context_eq c ctx then some table else table_of ctx ts

unfoldable pub put_table :
    ModelContext → Table → List (ModelContext × Table) → List (ModelContext × Table)
unfolding context_eq
put_table ctx table [] = (ctx, table) ∷ []
put_table ctx table ((c, old) ∷ ts) =
    if context_eq c ctx then (c, table) ∷ ts else (c, old) ∷ put_table ctx table ts

-- `entry(key).or_default()`.
abbrev pub or_default : {X : Type 0} → Option (List X) → List X
or_default none = []
or_default (some xs) = xs

-- The loop of `insert` over the prefix hashes.
unfoldable pub insert_each : String → List String → Table → Table
unfolding add_instance insert lookup
insert_each instance_id [] table = table
insert_each instance_id (p ∷ ps) table =
    insert_each instance_id ps
      (insert p (add_instance instance_id (or_default (lookup p table))) table)

unfoldable pub store_blocks :
    ModelContext → List String → String → PrefixCacheTable → PrefixCacheTable
unfolding table_of put_table insert_each
store_blocks ctx prefix_hashes instance_id t = record {
  tables =
      put_table ctx (insert_each instance_id prefix_hashes (or_default (table_of ctx t.tables)))
        t.tables;
}

-- A set that is empty after the removal goes with its key.
unfoldable pub put_or_remove : String → Instances → Table → Table
unfolding insert remove
put_or_remove p [] table = remove p table
put_or_remove p (x ∷ set) table = insert p (x ∷ set) table

unfoldable pub remove_block : ModelContext → String → String → PrefixCacheTable → PrefixCacheTable
unfolding table_of put_table put_or_remove drop_instance lookup
remove_block ctx prefix_hash instance_id t = elim (table_of ctx t.tables) [
  | none ↦ t
  | some table ↦ elim (lookup prefix_hash table) [
    | none ↦ t
    | some set ↦ record {
      tables =
          put_table ctx (put_or_remove prefix_hash (drop_instance instance_id set) table) t.tables;
    }
  ]
]

abbrev pub is_empty : {X : Type 0} → List X → Bool
is_empty [] = true
is_empty (x ∷ xs) = false

unfoldable pub drop_from_table : String → Table → Table
unfolding drop_instance
drop_from_table instance_id [] = []
drop_from_table instance_id ((p, set) ∷ table) =
    let rest = drop_from_table instance_id table in
    let set' = drop_instance instance_id set in if is_empty set' then rest else (p, set') ∷ rest

unfoldable pub drop_from_tables : String → List (ModelContext × Table) → List (ModelContext × Table)
unfolding drop_from_table
drop_from_tables instance_id [] = []
drop_from_tables instance_id ((c, table) ∷ ts) =
    let rest = drop_from_tables instance_id ts in
    let table' = drop_from_table instance_id table in
    if is_empty table' then rest else (c, table') ∷ rest

unfoldable pub remove_instance : String → PrefixCacheTable → PrefixCacheTable
unfolding drop_from_tables
remove_instance instance_id t = record { tables = drop_from_tables instance_id t.tables }

abbrev pub holds : String → String → Table → Bool
holds p instance_id table = contains instance_id (or_default (lookup p table))

-- The `while` of `query_overlap`: how many of the hashes, from the first on, the instance holds.
unfoldable pub walk : Table → String → List String → ℕ
unfolding lookup
walk table instance_id [] = 0
walk table instance_id (p ∷ ps) =
    let rest = walk table instance_id ps in if holds p instance_id table then suc rest else 0

unfoldable pub overlap_each : Table → List String → Instances → StrMap ℕ
unfolding walk insert
overlap_each table rest [] = []
overlap_each table rest (i ∷ is) = insert i (suc (walk table i rest)) (overlap_each table rest is)

unfoldable pub query_overlap : ModelContext → List String → PrefixCacheTable → StrMap ℕ
unfolding table_of lookup overlap_each
query_overlap ctx [] t = []
query_overlap ctx (p ∷ ps) t = elim (table_of ctx t.tables) [
  | none ↦ []
  | some table ↦ elim (lookup p table) [ none ↦ [] | some first ↦ overlap_each table ps first ]
]

pub data KvCacheEvent : Type 0 where
  block_stored : ModelContext → List String → String → KvCacheEvent
  block_removed : ModelContext → String → String → KvCacheEvent
  instance_gone : String → KvCacheEvent

unfoldable pub handle : KvCacheEvent → PrefixCacheTable → PrefixCacheTable
unfolding store_blocks remove_block remove_instance
handle (block_stored ctx prefix_hashes instance_id) t = store_blocks ctx prefix_hashes instance_id t
handle (block_removed ctx prefix_hash instance_id) t = remove_block ctx prefix_hash instance_id t
handle (instance_gone instance_id) t = remove_instance instance_id t
