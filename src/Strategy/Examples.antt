-- ===== src/Strategy/Examples.antt =====
-- Both strategies on two first-fit segments.
use quillcache.Prelude.{Bool, false≢true, some, List, [], ◌∷◌, map, arith, eq_iff, ltb}
use quillcache.Allocator.FirstFit.Instance.{Segment, first_fit, first_fit-Laws}
use quillcache.Strategy.{allocate_random, allocate_free_ratio}
use quillcache.Strategy.Sort.{NoDup}
use quillcache.Strategy.Distinct.{Outcome, allocate-Outcome}

abbrev fleet : List Segment
fleet = first_fit.mount "seg-0" 100 ∷ first_fit.mount "seg-1" 200 ∷ []

abbrev freer : Segment → Segment → Bool
freer a b = ltb (first_fit.capacity a) (first_fit.capacity b)

fleet-NoDup : NoDup (map first_fit.segment_name fleet)
fleet-NoDup =
    rw (first_fit-Laws.name_mount "seg-0" 100, first_fit-Laws.name_mount "seg-1" 200)
      (((λ same. false≢true ((eq_iff "seg-0" "seg-1").1 same)), tt), (tt, tt))

allocate-Outcome_example :
    Outcome first_fit first_fit-Laws 40 2 [] fleet
      (allocate_random first_fit fleet 40 2 (some "seg-1") [])
    × Outcome first_fit first_fit-Laws 40 2 [] fleet
        (allocate_free_ratio first_fit freer fleet 40 2 (some "seg-1") [])
allocate-Outcome_example =
    allocate-Outcome first_fit first_fit-Laws freer 40 2 (some "seg-1") [] fleet fleet-NoDup
      (omega arith)
