-- ===== src/LayerPipeline/Slices.antt =====
-- How crates/quillcache-transfer-engine/src/slice_pool.rs cuts a transfer: slices and layer_slices.
use quillcache.Prelude.{
  ℕ, zero, suc, ◌+◌, ◌-◌, ◌*◌, ◌%◌, ◌≤◌, ◌<◌, min, max, ◌≡◌, refl, ap, ◌∙◌, subst, inl, inr, List,
  [], ◌∷◌, arith, ltb, if◌then◌else◌, ltb→lt, Bool-cases, u64_mod, add64, mul64,
}

-- The slices from the `i`-th on, up to the first offset that is not below the length. The offset
-- is a product at 64 bits. While no product wraps there are no more slices than bytes.
unfoldable pub slices_from : ℕ → ℕ → ℕ → ℕ → List (ℕ × ℕ)
slices_from zero i step total_len = []
slices_from (suc fuel) i step total_len =
    let off = mul64 i step in
    let rest = slices_from fuel (i + 1) step total_len in
    if ltb off total_len then (off, min step (total_len - off)) ∷ rest else []

unfoldable pub slices : ℕ → ℕ → List (ℕ × ℕ)
unfolding slices_from
slices total_len slice_size = slices_from total_len 0 (max slice_size 1) total_len

unfoldable pub layers_from : ℕ → ℕ → List ℕ → List (ℕ × ℕ × ℕ)
layers_from i off [] = []
layers_from i off (len ∷ sizes) = (i, off, len) ∷ layers_from (i + 1) (add64 off len) sizes

unfoldable pub layer_slices : List ℕ → List (ℕ × ℕ × ℕ)
unfolding layers_from
layer_slices sizes = layers_from 0 0 sizes

-- Slices that follow each other from one offset to another, each of at most a step and not empty.
abbrev pub Tiles : ℕ → ℕ → ℕ → List (ℕ × ℕ) → Type 0
Tiles step here there [] = here ≡ there
Tiles step here there ((off, len) ∷ rest) =
    (off ≡ here) × (1 ≤ len) × (len ≤ step) × Tiles step (here + len) there rest

-- Layers that follow each other, numbered from one index on.
abbrev pub Layers : ℕ → ℕ → List ℕ → List (ℕ × ℕ × ℕ) → Type 0
Layers i here [] [] = Unit {0}
Layers i here [] (s ∷ rest) = ⊥
Layers i here (len ∷ sizes) [] = ⊥
Layers i here (len ∷ sizes) ((j, off, l) ∷ rest) =
    (j ≡ i) × (off ≡ here) × (l ≡ len) × Layers (i + 1) (here + len) sizes rest

unfoldable pub sum : List ℕ → ℕ
sum [] = 0
sum (n ∷ ns) = n + sum ns

mul64-exact : (i step off : ℕ) → i * step ≡ off → off < u64_mod → mul64 i step ≡ off
mul64-exact i step off e l = ap (λ x. x % u64_mod) e ∙ omega (arith, l)

slices_from-Tiles :
    (fuel i off step total_len : ℕ)
    → i * step ≡ off
    → off < total_len + step
    → total_len + step ≤ u64_mod
    → 1 ≤ step
    → total_len ≤ off + fuel
    → Tiles step (min off total_len) total_len (slices_from fuel i step total_len)
unfolding slices_from
slices_from-Tiles zero i off step total_len e h b s l = omega arith
slices_from-Tiles (suc fuel) i off step total_len e h b s l =
    let exact = mul64-exact i step off e (omega (arith, h, b)) in
    elim (Bool-cases (ltb off total_len)) [
      | inr n ↦ rw exact (rw (n, slices_from) (ground arith))
      | inl y ↦
          let below = ltb→lt off total_len y in
          let next : min (off + step) total_len ≡ min off total_len + min step (total_len - off) =
            omega arith in
          rw exact (
            rw (y, slices_from)
              (
                omega arith,
                omega arith,
                omega arith,
                subst (λ x. Tiles step x total_len (slices_from fuel (i + 1) step total_len)) next
                    (slices_from-Tiles fuel (i + 1) (off + step) step total_len (omega (arith, e))
                      (omega arith) b s (omega arith)),
              ))
    ]

-- The slices of a transfer whose length and slice size (one byte where it is zero) add up to at most
-- 2 ^ 64 follow each other from 0 to its length without a gap or an overlap, and none is empty or
-- longer than the slice size.
pub slices-Tiles :
    (total_len slice_size : ℕ)
    → total_len + max slice_size 1 ≤ u64_mod
    → Tiles (max slice_size 1) 0 total_len (slices total_len slice_size)
unfolding slices
slices-Tiles total_len slice_size b =
    subst
      (λ x.
        Tiles (max slice_size 1) x total_len (slices_from total_len 0 (max slice_size 1) total_len))
      (omega arith)
      (slices_from-Tiles total_len 0 0 (max slice_size 1) total_len (omega arith) (omega arith) b
        (omega arith) (omega arith))

layers_from-Layers :
    (i off : ℕ) (sizes : List ℕ)
    → off + sum sizes < u64_mod
    → Layers i off sizes (layers_from i off sizes)
unfolding layers_from sum
layers_from-Layers i off [] l = tt
layers_from-Layers i off (len ∷ sizes) l =
    let exact : off + len ≡ add64 off len = omega arith in
    (
      refl,
      refl,
      refl,
      subst (λ x. Layers (i + 1) (off + len) sizes (layers_from (i + 1) x sizes)) exact
          (layers_from-Layers (i + 1) (off + len) sizes (omega arith)),
    )

-- The slices of layers whose sizes add up to less than 2 ^ 64 are one for each layer, in order, each
-- starting where the layer before it ends.
layer_slices-Layers : (sizes : List ℕ) → sum sizes < u64_mod → Layers 0 0 sizes (layer_slices sizes)
unfolding layer_slices
layer_slices-Layers sizes l = layers_from-Layers 0 0 sizes (omega arith)
