-- ===== src/Replication/Plan.antt =====
-- The planner of crates/quillcache-core/src/replication.rs: plan_replications.
use Prim.Native.String.{compare}
use text.Mathlib.Text.{is_lt}
use quillcache.Prelude.{
  ℕ, ◌+◌, ◌-◌, String, Bool, ◌&&◌, ◌||◌, List, [], ◌∷◌, ◌++◌, str_eq, ltb, leb, ◌==◌, if◌then◌else◌,
  length, keep, any,
}
use quillcache.Strategy.{sort_stable}
use quillcache.Replication.{ReplicationConfig, PrefixResidency, WorkerLoad, ReplicationAction}

abbrev pub text_lt : String → String → Bool
text_lt a b = is_lt (compare a b)

-- Whether the second worker sorts before the first: less load, then the smaller id.
abbrev pub lighter : WorkerLoad → WorkerLoad → Bool
lighter a b = ltb b.load a.load || ((a.load == b.load) && text_lt b.id a.id)

-- Whether the second prefix sorts before the first: more accesses, then the smaller hash.
abbrev pub hotter : PrefixResidency → PrefixResidency → Bool
hotter a b =
    ltb a.accesses b.accesses || ((a.accesses == b.accesses) && text_lt b.prefix_hash a.prefix_hash)

abbrev pub holds : List String → String → Bool
holds holders id = any (λ h. str_eq h id) holders

-- Hot, held somewhere, and by too few.
unfoldable pub eligible : ReplicationConfig → PrefixResidency → Bool
eligible cfg p =
    leb cfg.hotness_threshold p.accesses
    && ltb 0 (length p.holders)
    && ltb (length p.holders) cfg.target_replicas

-- The least loaded holder, or the first one that is named when none is a worker.
unfoldable pub source : PrefixResidency → List WorkerLoad → String
source p [] = elim p.holders [ [] ↦ "" | h ∷ hs ↦ h ]
source p (w ∷ ws) = let rest = source p ws in if holds p.holders w.id then w.id else rest

module _ (cfg : ReplicationConfig) where
  -- The loop over the workers, with how many copies of this prefix there are and all actions so far.
  unfoldable pub copy_each :
      PrefixResidency
      → String
      → ℕ
      → List ReplicationAction
      → List WorkerLoad
      → List ReplicationAction
  copy_each p source_id added actions [] = actions
  copy_each p source_id added actions (w ∷ ws) =
      let skipped = copy_each p source_id added actions ws in
      let copied =
        copy_each p source_id (added + 1)
          (actions
            ++ (record {
              scope = p.scope;
              prefix_hash = p.prefix_hash;
              from_worker = source_id;
              to_worker = w.id;
              accesses = p.accesses;
            })
              ∷ [])
          ws in
      if leb (cfg.target_replicas - length p.holders) added || leb cfg.max_actions (length actions)
      then actions
      else if holds p.holders w.id
      then skipped
      else copied

  unfoldable pub plan_each :
      List WorkerLoad → List ReplicationAction → List PrefixResidency → List ReplicationAction
  unfolding copy_each source
  plan_each by_load actions [] = actions
  plan_each by_load actions (p ∷ ps) =
      let next = plan_each by_load (copy_each p (source p by_load) 0 actions by_load) ps in
      if leb cfg.max_actions (length actions) then actions else next

  unfoldable pub plan_replications : List PrefixResidency → List WorkerLoad → List ReplicationAction
  unfolding plan_each sort_stable eligible
  plan_replications prefixes workers =
      plan_each (sort_stable lighter workers) [] (sort_stable hotter (keep (eligible cfg) prefixes))
