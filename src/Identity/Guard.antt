-- ===== src/Identity/Guard.antt =====
-- What the reuse guard of crates/quillcache-core/src/lib.rs decides.
use quillcache.Prelude.{String, ◌≡◌, refl, ◌↔◌, true, not, Option, none, some, arith, eq_iff}
use quillcache.Identity.{
  KvBlockKey, IdentityScope, ReuseViolation, opt_eq, from_key, is_correctness, is_privacy,
  reuse_violation, reuse_violation_against, scope_matches,
}

pub opt_eq_iff : (a b : Option String) → (opt_eq a b ≡ true) ↔ (a ≡ b)
opt_eq_iff none none = ground arith
opt_eq_iff none (some b) = ground arith
opt_eq_iff (some a) none = ground arith
opt_eq_iff (some a) (some b) = ground (arith, eq_iff a b)

-- The guard over two scopes lets a read through exactly when the scopes are equal: model,
-- tokenizer, adapter (its absence included) and tenant all agree.
pub reuse_violation_against-eq-none_iff :
    (s t : IdentityScope) → (reuse_violation_against s t ≡ none) ↔ (s ≡ t)
unfolding reuse_violation_against
reuse_violation_against-eq-none_iff s t = ground (
  arith,
  eq_iff s.model_id t.model_id,
  eq_iff s.tokenizer_id t.tokenizer_id,
  opt_eq_iff s.adapter_id t.adapter_id,
  eq_iff s.tenant_id t.tenant_id,
)

-- The guard over a block key is the guard over the scope of that key.
pub reuse_violation-eq-against :
    (s : IdentityScope) (k : KvBlockKey)
    → reuse_violation s k ≡ reuse_violation_against s (from_key k)
unfolding reuse_violation reuse_violation_against from_key
reuse_violation-eq-against s k = refl

-- A key matches a scope exactly when the scope of the key is that scope.
pub scope_matches_iff :
    (s : IdentityScope) (k : KvBlockKey) → (scope_matches s k ≡ true) ↔ (s ≡ from_key k)
unfolding scope_matches from_key
scope_matches_iff s k = ground (
  arith,
  eq_iff s.model_id k.model_id,
  eq_iff s.tokenizer_id k.tokenizer_id,
  opt_eq_iff s.adapter_id k.adapter_id,
  eq_iff s.tenant_id k.tenant_id,
)

-- A reported violation is either a correctness or a privacy violation and not both, and it is a
-- privacy one exactly when the two scopes differ in the tenant alone.
pub violation_kind :
    (s t : IdentityScope) (v : ReuseViolation)
    → reuse_violation_against s t ≡ some v
    → (is_correctness v ≡ not (is_privacy v))
      × ((is_privacy v ≡ true) ↔ (
          (s.model_id ≡ t.model_id)
          × (s.tokenizer_id ≡ t.tokenizer_id)
          × (s.adapter_id ≡ t.adapter_id)))
unfolding reuse_violation_against is_correctness is_privacy
violation_kind s t v h = ground (
  arith,
  eq_iff s.model_id t.model_id,
  eq_iff s.tokenizer_id t.tokenizer_id,
  opt_eq_iff s.adapter_id t.adapter_id,
  eq_iff s.tenant_id t.tenant_id,
)
