-- ===== src/Allocator/FirstFit.antt =====
-- `FirstFitBufferAllocator` of crates/quillcache-store/src/allocator.rs: a first-fit free list with
-- coalescing on free. A `BTreeMap` is a list of entries in ascending key order.
pub mod Free
pub mod Carve
pub mod Release
pub mod Reserve
pub mod Lifecycle
pub mod Ownership
pub mod Instance
mod Examples
use quillcache.Prelude.{
  ℕ, zero, suc, ◌+◌, ◌-◌, ◌*◌, ◌/◌, ◌%◌, ◌^◌, ◌≤◌, ◌<◌, min, max, String, ◌≡◌, refl, sym, ap, ◌∙◌,
  subst, ◌≢◌, ◌↔◌, ◌⊎◌, inl, inr, Bool, true, false, not, ◌&&◌, ◌||◌, false≢true, Option, none,
  some, List, [], ◌∷◌, ◌++◌, map, arith, str_eq, eq_iff, ltb, leb, ◌==◌, if◌then◌else◌, ltb→lt,
  lt→ltb, leb→le, ==_iff, Bool-cases, Option-cases, length, get_elem?, set, get_or, take, drop,
  replicate, remove_at, keep, any, All, length-append, length-set, length-keep-le, length-map,
  length-take-le, take-append, drop-append, All-append, u64_mod, u64_max, u32_mod, add64, sub64,
  mul64, add32, sub32,
}
use quillcache.Allocator.Ordered.{
  Regions, insert_key, remove_key, find_fit, last_below, last_upto, first_from, max_value,
}
use quillcache.Allocator.{AllocatedBuffer}

pub record FirstFit : Type 0 where
  pub segment_name : String
  pub capacity : ℕ
  pub free : Regions
  pub allocated : ℕ

unfoldable pub create : String → ℕ → FirstFit
create segment_name capacity = record {
  segment_name = segment_name;
  capacity = capacity;
  free = if ltb 0 capacity then (0, capacity) ∷ [] else [];
  allocated = 0;
}

-- The free list once `size` bytes at the start of its region `(offset, region_len)` are taken.
unfoldable pub carve : ℕ → ℕ → ℕ → Regions → Regions
unfolding insert_key remove_key
carve size offset region_len free =
    let rest = remove_key offset free in
    if ltb size region_len
    then insert_key (add64 offset size) (sub64 region_len size) rest
    else rest

unfoldable pub allocate : FirstFit → ℕ → Option (AllocatedBuffer × FirstFit)
unfolding find_fit
allocate a size = if size == 0 then none else elim (find_fit size a.free) [
  | none ↦ none
  | some (offset, region_len) ↦ some (
    record { segment_name = a.segment_name; offset = offset; size = size },
    record a { free = carve size offset region_len a.free; allocated = add64 a.allocated size },
  )
]

-- The second half of `deallocate`: coalesce `[start, end)` with the region after it.
unfoldable pub give_next : ℕ → ℕ → Regions → Regions
unfolding first_from insert_key remove_key
give_next start end free = elim (first_from end free) [
  | none ↦ insert_key start (sub64 end start) free
  | some (n_off, n_len) ↦
      if n_off == end
      then insert_key start (sub64 (add64 n_off n_len) start) (remove_key n_off free)
      else insert_key start (sub64 end start) free
]

-- The free list of `deallocate`: coalesce with the region before, then with the one after.
unfoldable pub give_back : ℕ → ℕ → Regions → Regions
unfolding last_below remove_key give_next
give_back offset size free = elim (last_below offset free) [
  | none ↦ give_next offset (add64 offset size) free
  | some (p_off, p_len) ↦
      if add64 p_off p_len == offset
      then give_next p_off (add64 offset size) (remove_key p_off free)
      else give_next offset (add64 offset size) free
]

unfoldable pub deallocate : FirstFit → AllocatedBuffer → FirstFit
deallocate a buffer = record a {
  free = give_back buffer.offset buffer.size a.free;
  allocated = a.allocated - buffer.size;
}

unfoldable pub largest_free_region : FirstFit → ℕ
unfolding max_value
largest_free_region a = max_value a.free

-- The free list once `[offset, end)` is cut out of its region `(r_off, r_len)`.
unfoldable pub cut : ℕ → ℕ → ℕ → ℕ → Regions → Regions
unfolding insert_key remove_key
cut offset end r_off r_len free =
    let rest = remove_key r_off free in
    let before = if ltb r_off offset then insert_key r_off (sub64 offset r_off) rest else rest in
    if ltb end (add64 r_off r_len)
    then insert_key end (sub64 (add64 r_off r_len) end) before
    else before

-- `none` is the answer `false`, which changes nothing.
unfoldable pub reserve : FirstFit → ℕ → ℕ → Option FirstFit
unfolding last_upto
reserve a offset size =
    let end = add64 offset size in
    if size == 0 then none else elim (last_upto offset a.free) [
      | none ↦ none
      | some (r_off, r_len) ↦
          if leb end (add64 r_off r_len)
          then some (record a {
            free = cut offset end r_off r_len a.free;
            allocated = add64 a.allocated size;
          })
          else none
    ]
