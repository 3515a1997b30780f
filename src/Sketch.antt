-- ===== src/Sketch.antt =====
-- crates/quillcache-store/src/count_min_sketch.rs: the approximate access counts. `DefaultHasher` is
-- the parameter `base_hash`, the 64-bit hash of a key.
pub mod Estimate
mod Examples
use Prim.Native.Nat.{bit_xor}
use quillcache.Prelude.{
  ℕ, zero, suc, ◌+◌, ◌-◌, ◌*◌, ◌/◌, ◌%◌, ◌^◌, ◌≤◌, ◌<◌, min, max, String, ◌≡◌, refl, sym, ap, ◌∙◌,
  subst, ◌≢◌, ◌↔◌, ◌⊎◌, inl, inr, Bool, true, false, not, ◌&&◌, ◌||◌, false≢true, Option, none,
  some, List, [], ◌∷◌, ◌++◌, map, arith, str_eq, eq_iff, ltb, leb, ◌==◌, if◌then◌else◌, ltb→lt,
  lt→ltb, leb→le, ==_iff, Bool-cases, Option-cases, length, get_elem?, set, get_or, take, drop,
  replicate, remove_at, keep, any, All, length-append, length-set, length-keep-le, length-map,
  length-take-le, take-append, drop-append, All-append, u64_mod, u64_max, u32_mod, add64, sub64,
  mul64, add32, sub32,
}

pub record CountMinSketch : Type 0 where
  pub width : ℕ
  pub depth : ℕ
  pub table : List (List ℕ)
  pub total_increments : ℕ

abbrev pub default_width : ℕ
default_width = 4096

abbrev pub default_depth : ℕ
default_depth = 4

unfoldable pub create : ℕ → ℕ → CountMinSketch
create width depth =
    let w = if ltb 0 width then width else default_width in
    let d = if ltb 0 depth then depth else default_depth in
    record { width = w; depth = d; table = replicate d (replicate w 0); total_increments = 0 }

-- `saturating_add(1)` on a `u8`.
abbrev pub bump : ℕ → ℕ
bump c = min (c + 1) 255

-- `decay` on the counters: each is shifted right by one.
unfoldable pub halve_row : List ℕ → List ℕ
halve_row [] = []
halve_row (c ∷ cs) = (c / 2) ∷ halve_row cs

unfoldable pub halve_rows : List (List ℕ) → List (List ℕ)
unfolding halve_row
halve_rows [] = []
halve_rows (row ∷ rows) = halve_row row ∷ halve_rows rows

unfoldable pub decay : CountMinSketch → CountMinSketch
unfolding halve_rows
decay s = record s { table = halve_rows s.table; total_increments = 0 }

module _ (base_hash : String → ℕ) where
  -- The hash of one row: the key's hash mixed with the row's seed, in 64-bit arithmetic.
  unfoldable pub hash : String → ℕ → ℕ
  hash key seed =
      let h0 = bit_xor (base_hash key) (add64 (mul64 seed 0x9e3779b97f4a7c15) 0x517cc1b727220a95) in
      let h1 = mul64 (bit_xor h0 (h0 / 2 ^ 33)) 0xff51afd7ed558ccd in bit_xor h1 (h1 / 2 ^ 33)

  -- The loop of `increment` over the rows from `i` on: the rows, and the least new counter.
  unfoldable pub bump_rows : String → ℕ → ℕ → List (List ℕ) → List (List ℕ)
  unfolding hash
  bump_rows key width i [] = []
  bump_rows key width i (row ∷ rows) =
      let idx = hash key i % width in
      set row idx (bump (get_or row idx 0)) ∷ bump_rows key width (i + 1) rows

  -- The loop of `count` over the rows from `i` on.
  unfoldable pub least : String → ℕ → ℕ → ℕ → List (List ℕ) → ℕ
  unfolding hash
  least key width min_val i [] = min_val
  least key width min_val i (row ∷ rows) =
      least key width (min min_val (get_or row (hash key i % width) 0)) (i + 1) rows

  unfoldable pub count : String → CountMinSketch → ℕ
  unfolding least
  count key s = least key s.width 255 0 s.table

  -- The answer is read from the bumped rows, before any decay.
  unfoldable pub increment : String → CountMinSketch → ℕ × CountMinSketch
  unfolding bump_rows least decay
  increment key s =
      let rows = bump_rows key s.width 0 s.table in
      let s' = record s { table = rows; total_increments = s.total_increments + 1 } in
      (
        least key s.width 255 0 rows,
        if leb (s.width * s.depth) (s.total_increments + 1) then decay s' else s',
      )
