-- ===== src/Replication/Sound.antt =====
-- What a plan of crates/quillcache-core/src/replication.rs may hold: plan_replications.
use quillcache.Prelude.{
  ℕ, ◌+◌, ◌-◌, ◌≤◌, String, ◌≡◌, refl, ◌⊎◌, inl, inr, Bool, true, false, ◌||◌, List, [], ◌∷◌, ◌++◌,
  arith, eq_iff, ltb, leb, Bool-cases, length, keep, All, length-append, All-append,
}
use quillcache.Strategy.{sort_stable}
use quillcache.Strategy.Sort.{All-weaken, sort_stable-All}
use quillcache.Replication.{ReplicationConfig, PrefixResidency, WorkerLoad, ReplicationAction}
use quillcache.Replication.Plan.{
  lighter, hotter, holds, eligible, source, copy_each, plan_each, plan_replications,
}

abbrev pub Among : {A : Type 0} → A → List A → Type 0
Among x [] = ⊥
Among x (y ∷ ys) = (x ≡ y) ⊎ Among x ys

all-Among : {A : Type 0} (xs : List A) → All (λ x. Among x xs) xs
all-Among [] = tt
all-Among (x ∷ xs) = (
  inl refl,
  All-weaken (λ y. Among y xs) (λ y. Among y (x ∷ xs)) (λ y a. inr a) xs (all-Among xs),
)

keep-passes :
    {A : Type 0} (P : A → Type 0) (q : A → Bool) (xs : List A)
    → All P xs
    → All (λ x. P x × (q x ≡ true)) (keep q xs)
keep-passes P q [] a = tt
keep-passes P q (x ∷ xs) a = elim (Bool-cases (q x)) [
  | inl y ↦ rw y ((a.0, y), keep-passes P q xs a.1)
  | inr n ↦ rw n (keep-passes P q xs a.1)
]

-- A copy of an eligible prefix from a holder to a worker that does not hold it.
abbrev pub Copies : ReplicationConfig → PrefixResidency → ReplicationAction → Type 0
Copies cfg p a =
    (eligible cfg p ≡ true)
    × (a.scope ≡ p.scope)
    × (a.prefix_hash ≡ p.prefix_hash)
    × (a.accesses ≡ p.accesses)
    × (holds p.holders a.from_worker ≡ true)
    × (holds p.holders a.to_worker ≡ false)

abbrev pub Justified :
    ReplicationConfig → List PrefixResidency → List WorkerLoad → ReplicationAction → Type 0
Justified cfg prefixes workers a =
    ((p : PrefixResidency) × Among p prefixes × Copies cfg p a)
    × ((w : WorkerLoad) × Among w workers × (w.id ≡ a.to_worker))

source-holds :
    (cfg : ReplicationConfig) (p : PrefixResidency) (ws : List WorkerLoad)
    → eligible cfg p ≡ true
    → holds p.holders (source p ws) ≡ true
unfolding source eligible
source-holds cfg p [] e = first p.holders (ground arith)
  where
    first :
        (hs : List String)
        → ltb 0 (length hs) ≡ true
        → holds hs (elim hs [ [] ↦ "" | h ∷ t ↦ h ]) ≡ true
    first [] l = absurd (ground (arith, l))
    first (h ∷ t) l = rw ((eq_iff h h).1 refl) refl
source-holds cfg p (w ∷ ws) e = elim (Bool-cases (holds p.holders w.id)) [
  | inl y ↦ rw (y, source) y
  | inr n ↦ rw (n, source) (source-holds cfg p ws e)
]

module _ (cfg : ReplicationConfig) where
  module _ (P : ReplicationAction → Type 0) (Q : WorkerLoad → Type 0) (p : PrefixResidency)
      (from_id : String) where
    abbrev copy_to : WorkerLoad → ReplicationAction
    copy_to w = record {
      scope = p.scope;
      prefix_hash = p.prefix_hash;
      from_worker = from_id;
      to_worker = w.id;
      accesses = p.accesses;
    }

    copy_each-All :
        (added : ℕ) (actions : List ReplicationAction) (ws : List WorkerLoad)
        → ((w : WorkerLoad) → Q w → holds p.holders w.id ≡ false → P (copy_to w))
        → All P actions
        → All Q ws
        → length actions ≤ cfg.max_actions
        → All P (copy_each cfg p from_id added actions ws)
          × (length (copy_each cfg p from_id added actions ws) ≤ cfg.max_actions)
    unfolding copy_each
    copy_each-All added actions [] f a q l = (a, l)
    copy_each-All added actions (w ∷ ws) f a q l =
        elim (Bool-cases (
          leb (cfg.target_replicas - length p.holders) added
          || leb cfg.max_actions (length actions))) [
            | inl y ↦ rw (y, copy_each) (a, l)
            | inr n ↦ elim (Bool-cases (holds p.holders w.id)) [
              | inl y ↦ rw (n, copy_each) (rw y (copy_each-All added actions ws f a q.1 l))
              | inr m ↦
                  let more = length-append actions (copy_to w ∷ []) in
                  let room : leb cfg.max_actions (length actions) ≡ false = ground arith in
                  rw (n, copy_each)
                    (rw m (
                      copy_each-All (added + 1) (actions ++ copy_to w ∷ []) ws f
                        (All-append P actions (copy_to w ∷ []) a (f w q.0 m, tt)) q.1
                        (ground (arith, more))))
            ]
          ]

  module _ (prefixes : List PrefixResidency) (workers : List WorkerLoad) where
    abbrev Given : PrefixResidency → Type 0
    Given p = Among p prefixes × (eligible cfg p ≡ true)

    plan_each-All :
        (by_load : List WorkerLoad) (actions : List ReplicationAction) (ps : List PrefixResidency)
        → All (λ w. Among w workers) by_load
        → All Given ps
        → All (Justified cfg prefixes workers) actions
        → length actions ≤ cfg.max_actions
        → (length (plan_each cfg by_load actions ps) ≤ cfg.max_actions)
          × All (Justified cfg prefixes workers) (plan_each cfg by_load actions ps)
    unfolding plan_each
    plan_each-All by_load actions [] q g a l = (l, a)
    plan_each-All by_load actions (p ∷ ps) q g a l =
        elim (Bool-cases (leb cfg.max_actions (length actions))) [
          | inl y ↦ rw (y, plan_each) (l, a)
          | inr n ↦
              let from_id = source p by_load in
              let (a', l') =
                copy_each-All (Justified cfg prefixes workers) (λ w. Among w workers) p from_id 0
                  actions by_load
                  (λ w among free. (
                    (p, g.0.0, (g.0.1, refl, refl, refl, source-holds cfg p by_load g.0.1, free)),
                    (w, among, refl),
                  ))
                  a q l in
              rw (n, plan_each)
                (plan_each-All by_load (copy_each cfg p from_id 0 actions by_load) ps q g.1 a' l')
        ]

    -- At most `max_actions` copies are planned, and each is of an eligible prefix that was given, from a
    -- worker that holds it to a given worker that does not.
    pub plan_replications-Justified :
        (length (plan_replications cfg prefixes workers) ≤ cfg.max_actions)
        × All (Justified cfg prefixes workers) (plan_replications cfg prefixes workers)
    unfolding plan_replications
    plan_replications-Justified =
        plan_each-All (sort_stable lighter workers) []
          (sort_stable hotter (keep (eligible cfg) prefixes))
          (sort_stable-All lighter (λ w. Among w workers) workers (all-Among workers))
          (sort_stable-All hotter Given (keep (eligible cfg) prefixes)
            (keep-passes (λ p. Among p prefixes) (eligible cfg) prefixes (all-Among prefixes)))
          tt (omega arith)
