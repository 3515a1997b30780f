-- ===== src/Sketch/Examples.antt =====
-- The theorems on the sketch at a small sketch with two accesses.
use quillcache.Prelude.{
  ℕ, ◌+◌, ◌/◌, ◌≤◌, min, String, ◌≡◌, refl, [], ◌∷◌, arith, str_eq, if◌then◌else◌,
}
use quillcache.Sketch.{CountMinSketch, create, bump, decay, count, increment}
use quillcache.Sketch.Estimate.{
  IsValid, create-IsValid, increment-bump, run, occurrences, run-occurrences, count-decay,
}

abbrev key_hash : String → ℕ
key_hash s = if str_eq s "hot" then 11 else 23

abbrev small : CountMinSketch
small = create 8 2

small-IsValid : IsValid small
small-IsValid = create-IsValid 8 2

increment-bump_example :
    ((increment key_hash "hot" small).0 ≡ bump (count key_hash "hot" small))
    × IsValid (increment key_hash "hot" small).1
increment-bump_example = increment-bump key_hash "hot" small small-IsValid

count-decay_example : count key_hash "hot" (decay small) ≡ count key_hash "hot" small / 2
count-decay_example = count-decay key_hash "hot" small small-IsValid (unfold create in omega arith)

run-occurrences_example :
    min 255 (count key_hash "hot" small + occurrences "hot" ("hot" ∷ "cold" ∷ "hot" ∷ []))
    ≤ count key_hash "hot" (run key_hash ("hot" ∷ "cold" ∷ "hot" ∷ []) small)
run-occurrences_example =
    run-occurrences key_hash "hot" ("hot" ∷ "cold" ∷ "hot" ∷ []) small small-IsValid
      (unfold create in omega arith)

hot_counts : count key_hash "hot" (run key_hash ("hot" ∷ "cold" ∷ "hot" ∷ []) small) ≡ 2
unfolding run count create
hot_counts = refl
