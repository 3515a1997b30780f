-- ===== src/Sketch/Estimate.antt =====
-- What the estimates of crates/quillcache-store/src/count_min_sketch.rs promise.
use quillcache.Prelude.{
  ℕ, zero, suc, ◌+◌, ◌*◌, ◌/◌, ◌%◌, ◌≤◌, ◌<◌, min, String, ◌≡◌, refl, ap, ◌∙◌, inl, inr, Bool, true,
  false, List, [], ◌∷◌, arith, str_eq, eq_iff, leb, ◌==◌, if◌then◌else◌, Bool-cases, length, set,
  get_or, replicate, All, length-set,
}
use quillcache.Sketch.{
  CountMinSketch, create, bump, halve_row, halve_rows, decay, hash, bump_rows, least, count,
  increment,
}

-- Every row has `width` counters, each a `u8`.
abbrev pub Counters : List ℕ → Type 0
Counters = All (λ c. c ≤ 255)

abbrev pub Rows : ℕ → List (List ℕ) → Type 0
Rows width = All (λ row. (length row ≡ width) × Counters row)

pub record IsValid (s : CountMinSketch) : Type 0 where
  pub wide : 0 < s.width
  pub deep : length s.table ≡ s.depth
  pub rows : Rows s.width s.table

get_or-set :
    (row : List ℕ) (i j v : ℕ)
    → i < length row
    → get_or (set row i v) j 0 ≡ (if i == j then v else get_or row j 0)
get_or-set [] i j v h = elim h [ ]
get_or-set (x ∷ row) zero zero v h = refl
get_or-set (x ∷ row) zero (suc j) v h = ground arith
get_or-set (x ∷ row) (suc i) zero v h = ground arith
get_or-set (x ∷ row) (suc i) (suc j) v h = ground (arith, get_or-set row i j v (omega arith))

get_or-halve_row : (row : List ℕ) (i : ℕ) → get_or (halve_row row) i 0 ≡ get_or row i 0 / 2
unfolding halve_row
get_or-halve_row [] i = refl
get_or-halve_row (x ∷ row) zero = refl
get_or-halve_row (x ∷ row) (suc i) = get_or-halve_row row i

get_or-Counters : (row : List ℕ) (i : ℕ) → Counters row → get_or row i 0 ≤ 255
get_or-Counters [] i h = omega arith
get_or-Counters (x ∷ row) zero h = h.0
get_or-Counters (x ∷ row) (suc i) h = get_or-Counters row i h.1

set-Counters : (row : List ℕ) (i v : ℕ) → Counters row → v ≤ 255 → Counters (set row i v)
set-Counters [] i v h k = tt
set-Counters (x ∷ row) zero v h k = (k, h.1)
set-Counters (x ∷ row) (suc i) v h k = (h.0, set-Counters row i v h.1 k)

halve_row-Counters : (row : List ℕ) → Counters row → Counters (halve_row row)
unfolding halve_row
halve_row-Counters [] h = tt
halve_row-Counters (x ∷ row) h = (omega arith, halve_row-Counters row h.1)

length-halve_row : (row : List ℕ) → length (halve_row row) ≡ length row
unfolding halve_row
length-halve_row [] = refl
length-halve_row (x ∷ row) = ap suc (length-halve_row row)

halve_rows-Rows :
    (width : ℕ) (rows : List (List ℕ)) → Rows width rows → Rows width (halve_rows rows)
unfolding halve_rows
halve_rows-Rows width [] h = tt
halve_rows-Rows width (row ∷ rows) h = (
  (omega (arith, length-halve_row row), halve_row-Counters row h.0.1),
  halve_rows-Rows width rows h.1,
)

length-halve_rows : (rows : List (List ℕ)) → length (halve_rows rows) ≡ length rows
unfolding halve_rows
length-halve_rows [] = refl
length-halve_rows (row ∷ rows) = ap suc (length-halve_rows rows)

replicate-Counters : (n : ℕ) → Counters (replicate n 0)
replicate-Counters zero = tt
replicate-Counters (suc n) = (omega arith, replicate-Counters n)

length-replicate : {A : Type 0} (n : ℕ) (a : A) → length (replicate n a) ≡ n
length-replicate zero a = refl
length-replicate (suc n) a = ap suc (length-replicate n a)

replicate-Rows : (d w : ℕ) → Rows w (replicate d (replicate w 0))
replicate-Rows zero w = tt
replicate-Rows (suc d) w = ((length-replicate w 0, replicate-Counters w), replicate-Rows d w)

-- A new sketch is valid, whatever sizes are asked for.
pub create-IsValid : (width depth : ℕ) → IsValid (create width depth)
unfolding create
create-IsValid width depth = record {
  wide = ground arith;
  deep = length-replicate _ _;
  rows = replicate-Rows _ _;
}

unfoldable pub occurrences : String → List String → ℕ
occurrences key [] = 0
occurrences key (k ∷ ks) = let rest = occurrences key ks in if str_eq k key then suc rest else rest

module _ (base_hash : String → ℕ) where
  least-halve_rows :
      (key : String) (width : ℕ) (rows : List (List ℕ)) (m m' i : ℕ)
      → m' ≡ m / 2
      → least base_hash key width m' i (halve_rows rows) ≡ least base_hash key width m i rows / 2
  unfolding least halve_rows
  least-halve_rows key width [] m m' i e = e
  least-halve_rows key width (row ∷ rows) m m' i e =
      least-halve_rows key width rows _ _ (i + 1)
        (omega (arith, get_or-halve_row row (hash base_hash key i % width)))

  -- A valid table's least counter is at most 255, so the start of the loop can be 510 as well.
  least-start :
      (key : String) (width i : ℕ) (rows : List (List ℕ))
      → Rows width rows
      → 0 < length rows
      → least base_hash key width 510 i rows ≡ least base_hash key width 255 i rows
  unfolding least
  least-start key width i [] r h = elim h [ ]
  least-start key width i (row ∷ rows) r h =
      let c : ℕ = get_or row (hash base_hash key i % width) 0 in
      let e : min 510 c ≡ min 255 c =
        omega (arith, get_or-Counters row (hash base_hash key i % width) r.0.1) in
      ap (λ n. least base_hash key width n (i + 1) rows) e

  -- Aging halves every estimate, rounding down.
  pub count-decay :
      (key : String) (s : CountMinSketch)
      → IsValid s
      → 0 < s.depth
      → count base_hash key (decay s) ≡ count base_hash key s / 2
  unfolding count decay
  count-decay key s v d =
      least-halve_rows key s.width s.table 510 255 0 refl
      ∙ ap (λ n. n / 2) (least-start key s.width 0 s.table v.rows (omega (arith, v.deep)))

  -- The row of the other key's index grows at most.
  least-bump_rows :
      (key : String) (width : ℕ) (rows : List (List ℕ)) (m m' i : ℕ)
      → 0 < width
      → Rows width rows
      → m' ≡ bump m
      → least base_hash key width m' i (bump_rows base_hash key width i rows)
        ≡ bump (least base_hash key width m i rows)
  unfolding least bump_rows
  least-bump_rows key width [] m m' i w r e = e
  least-bump_rows key width (row ∷ rows) m m' i w r e =
      let idx : ℕ = hash base_hash key i % width in
      least-bump_rows key width rows _ _ (i + 1) w r.1
        (ground (arith, get_or-set row idx idx (bump (get_or row idx 0)) (omega (arith, r.0.0)), e))

  least-bump_rows-le :
      (key other : String) (width : ℕ) (rows : List (List ℕ)) (m m' i : ℕ)
      → 0 < width
      → Rows width rows
      → m ≤ m'
      → least base_hash other width m i rows
        ≤ least base_hash other width m' i (bump_rows base_hash key width i rows)
  unfolding least bump_rows
  least-bump_rows-le key other width [] m m' i w r e = e
  least-bump_rows-le key other width (row ∷ rows) m m' i w r e =
      let idx : ℕ = hash base_hash key i % width in
      let at : ℕ = hash base_hash other i % width in
      least-bump_rows-le key other width rows _ _ (i + 1) w r.1 (
        ground (
          arith,
          get_or-set row idx at (bump (get_or row idx 0)) (omega (arith, r.0.0)),
          get_or-Counters row at r.0.1,
        ))

  bump_rows-Rows :
      (key : String) (width i : ℕ) (rows : List (List ℕ))
      → Rows width rows
      → Rows width (bump_rows base_hash key width i rows)
  unfolding bump_rows
  bump_rows-Rows key width i [] r = tt
  bump_rows-Rows key width i (row ∷ rows) r = (
    (
      omega (
        arith,
        length-set row (hash base_hash key i % width)
            (bump (get_or row (hash base_hash key i % width) 0)),
        r.0.0,
      ),
      set-Counters row _ _ r.0.1 (omega arith),
    ),
    bump_rows-Rows key width (i + 1) rows r.1,
  )

  length-bump_rows :
      (key : String) (width i : ℕ) (rows : List (List ℕ))
      → length (bump_rows base_hash key width i rows) ≡ length rows
  unfolding bump_rows
  length-bump_rows key width i [] = refl
  length-bump_rows key width i (row ∷ rows) = ap suc (length-bump_rows key width (i + 1) rows)

  aged-IsValid :
      (s : CountMinSketch) (aged : Bool) → IsValid s → IsValid (if aged then decay s else s)
  unfolding decay
  aged-IsValid s false v = v
  aged-IsValid s true v = record {
    wide = v.wide;
    deep = omega (arith, length-halve_rows s.table, v.deep);
    rows = halve_rows-Rows s.width s.table v.rows;
  }

  -- An increment answers the saturated successor of the key's estimate, and keeps the sketch valid.
  pub increment-bump :
      (key : String) (s : CountMinSketch)
      → IsValid s
      → ((increment base_hash key s).0 ≡ bump (count base_hash key s))
        × IsValid (increment base_hash key s).1
  unfolding increment count
  increment-bump key s v = (
    least-bump_rows key s.width s.table 255 255 0 v.wide v.rows refl,
    aged-IsValid _ (leb (s.width * s.depth) (s.total_increments + 1)) (record {
      wide = v.wide;
      deep = omega (arith, length-bump_rows key s.width 0 s.table, v.deep);
      rows = bump_rows-Rows key s.width 0 s.table v.rows;
    }),
  )

  -- The counts of a run of accesses.
  unfoldable pub run : List String → CountMinSketch → CountMinSketch
  unfolding increment
  run [] s = s
  run (key ∷ keys) s = run keys (increment base_hash key s).1

  -- Until the sketch ages, an access is not lost on the estimates of any key.
  increment_young :
      (key other : String) (s : CountMinSketch)
      → IsValid s
      → s.total_increments + 1 < s.width * s.depth
      → (count base_hash other s ≤ count base_hash other (increment base_hash key s).1)
        × (count base_hash key (increment base_hash key s).1 ≡ bump (count base_hash key s))
        × ((increment base_hash key s).1.total_increments ≡ s.total_increments + 1)
        × ((increment base_hash key s).1.width * (increment base_hash key s).1.depth
            ≡ s.width * s.depth)
  unfolding increment count
  increment_young key other s v h =
      let young : leb (s.width * s.depth) (s.total_increments + 1) ≡ false = ground arith in
      rw young (
        least-bump_rows-le key other s.width s.table 255 255 0 v.wide v.rows (omega arith),
        least-bump_rows key s.width s.table 255 255 0 v.wide v.rows refl,
        refl,
        refl,
      )

  -- The estimate never under-counts: after a run of accesses that ends before the sketch ages, the
  -- estimate of a key is at least what it was plus the accesses to it, up to 255.
  pub run-occurrences :
      (key : String) (keys : List String) (s : CountMinSketch)
      → IsValid s
      → s.total_increments + length keys < s.width * s.depth
      → min 255 (count base_hash key s + occurrences key keys) ≤ count base_hash key (run keys s)
  unfolding run occurrences
  run-occurrences key [] s v h = omega arith
  run-occurrences key (k ∷ keys) s v h =
      let (grows, bumps, total, size) = increment_young k key s v (omega arith) in
      let rest =
        run-occurrences key keys (increment base_hash k s).1 (increment-bump k s v).1
          (omega arith) in
      elim (Bool-cases (str_eq k key)) [
        | inr other ↦ rw other (omega arith)
        | inl same ↦
            let e : k ≡ key = (eq_iff k key).0 same in
            rw same (
              omega (
                arith,
                ap (λ x. count base_hash x s) e,
                ap (λ x. count base_hash x (increment base_hash k s).1) e,
              ))
      ]
