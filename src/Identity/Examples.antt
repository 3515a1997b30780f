-- ===== src/Identity/Examples.antt =====
-- Runs of the guard and of the block chain, and the theorems at concrete inputs.
use quillcache.Prelude.{◌≡◌, refl, ◌↔◌, true, not, none, some, [], ◌∷◌, get_elem?}
use quillcache.Identity.{
  IdentityScope, RequestKvHints, KvBlockKey, adapter, tenant, reuse_violation_against,
  is_correctness, is_privacy, hinted_scope, to_blocks,
}
use quillcache.Identity.Guard.{violation_kind, reuse_violation_against-eq-none_iff}
use quillcache.Identity.Chain.{Linked, to_blocks-Linked}

abbrev alice : IdentityScope
alice = record { model_id = "m"; tokenizer_id = "t"; adapter_id = none; tenant_id = "alice" }

abbrev bob : IdentityScope
bob = record alice { tenant_id = "bob" }

abbrev tuned : IdentityScope
tuned = record bob { adapter_id = some "lora" }

guard_runs :
    (reuse_violation_against alice bob ≡ some tenant)
    × (reuse_violation_against alice tuned ≡ some adapter)
unfolding reuse_violation_against
guard_runs = (refl, refl)

violation_kind_example :
    (is_correctness tenant ≡ not (is_privacy tenant))
    × ((is_privacy tenant ≡ true) ↔ (
        (alice.model_id ≡ bob.model_id)
        × (alice.tokenizer_id ≡ bob.tokenizer_id)
        × (alice.adapter_id ≡ bob.adapter_id)))
violation_kind_example = violation_kind alice bob tenant guard_runs.0

abbrev hints : RequestKvHints
hints = record {
  request_id = none;
  model_id = some "m";
  tokenizer_id = none;
  adapter_id = none;
  tenant_id = some "alice";
  session_id = none;
  block_hashes = "h0" ∷ "h1" ∷ [];
  block_tokens = none;
  estimated_decode_tokens = none;
  block_bytes = none;
}

to_blocks-Linked_example :
    (k : KvBlockKey) × (get_elem? (to_blocks hints "fm" "t" "ft") 1 ≡ some k)
    × Linked (hinted_scope hints "fm" "t" "ft") (some "h0") "h1" 1 k
to_blocks-Linked_example = to_blocks-Linked hints "fm" "t" "ft" "h1" 1 refl

guard_iff_example : (reuse_violation_against alice bob ≡ none) ↔ (alice ≡ bob)
guard_iff_example = reuse_violation_against-eq-none_iff alice bob
