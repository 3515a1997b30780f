-- ===== src/Identity.antt =====
-- crates/quillcache-core/src/lib.rs: block keys, identity scopes, the reuse guard and the request
-- hints that are turned into a chain of block keys.
pub mod Guard
pub mod Chain
mod Examples
use quillcache.Prelude.{
  ℕ, zero, suc, ◌+◌, ◌-◌, ◌*◌, ◌/◌, ◌%◌, ◌^◌, ◌≤◌, ◌<◌, min, max, String, ◌≡◌, refl, sym, ap, ◌∙◌,
  subst, ◌≢◌, ◌↔◌, ◌⊎◌, inl, inr, Bool, true, false, not, ◌&&◌, ◌||◌, false≢true, Option, none,
  some, List, [], ◌∷◌, ◌++◌, map, arith, str_eq, eq_iff, ltb, leb, ◌==◌, if◌then◌else◌, ltb→lt,
  lt→ltb, leb→le, ==_iff, Bool-cases, Option-cases, length, get_elem?, set, get_or, take, drop,
  replicate, remove_at, keep, any, All, length-append, length-set, length-keep-le, length-map,
  length-take-le, take-append, drop-append, All-append, u64_mod, u64_max, u32_mod, add64, sub64,
  mul64, add32, sub32,
}

pub record KvBlockKey : Type 0 where
  pub model_id : String
  pub tokenizer_id : String
  pub adapter_id : Option String
  pub tenant_id : String
  pub prefix_hash : String
  pub block_hash : String
  pub block_index : ℕ
  pub token_count : ℕ

pub record IdentityScope : Type 0 where
  pub model_id : String
  pub tokenizer_id : String
  pub adapter_id : Option String
  pub tenant_id : String

-- `==` of `Option<String>`.
abbrev pub opt_eq : Option String → Option String → Bool
opt_eq none none = true
opt_eq none (some b) = false
opt_eq (some a) none = false
opt_eq (some a) (some b) = str_eq a b

unfoldable pub from_key : KvBlockKey → IdentityScope
from_key key = record {
  model_id = key.model_id;
  tokenizer_id = key.tokenizer_id;
  adapter_id = key.adapter_id;
  tenant_id = key.tenant_id;
}

pub data ReuseViolation : Type 0 where
  model tokenizer adapter tenant : ReuseViolation

unfoldable pub is_correctness : ReuseViolation → Bool
is_correctness model = true
is_correctness tokenizer = true
is_correctness adapter = true
is_correctness tenant = false

unfoldable pub is_privacy : ReuseViolation → Bool
is_privacy model = false
is_privacy tokenizer = false
is_privacy adapter = false
is_privacy tenant = true

unfoldable pub as_str : ReuseViolation → String
as_str model = "cross_model"
as_str tokenizer = "cross_tokenizer"
as_str adapter = "cross_adapter"
as_str tenant = "cross_tenant"

unfoldable pub reuse_violation : IdentityScope → KvBlockKey → Option ReuseViolation
reuse_violation s key =
    if not (str_eq s.model_id key.model_id)
    then some model
    else if not (str_eq s.tokenizer_id key.tokenizer_id)
    then some tokenizer
    else if not (opt_eq s.adapter_id key.adapter_id)
    then some adapter
    else if not (str_eq s.tenant_id key.tenant_id)
    then some tenant
    else none

unfoldable pub scope_matches : IdentityScope → KvBlockKey → Bool
unfolding reuse_violation
scope_matches s key = elim (reuse_violation s key) [ none ↦ true | some v ↦ false ]

unfoldable pub reuse_violation_against : IdentityScope → IdentityScope → Option ReuseViolation
reuse_violation_against s other =
    if not (str_eq s.model_id other.model_id)
    then some model
    else if not (str_eq s.tokenizer_id other.tokenizer_id)
    then some tokenizer
    else if not (opt_eq s.adapter_id other.adapter_id)
    then some adapter
    else if not (str_eq s.tenant_id other.tenant_id)
    then some tenant
    else none

pub record RequestKvHints : Type 0 where
  pub request_id : Option String
  pub model_id : Option String
  pub tokenizer_id : Option String
  pub adapter_id : Option String
  pub tenant_id : Option String
  pub session_id : Option String
  pub block_hashes : List String
  pub block_tokens : Option ℕ
  pub estimated_decode_tokens : Option ℕ
  pub block_bytes : Option ℕ

abbrev pub unwrap_or {ℓ} : {A : Type ℓ} → Option A → A → A
unwrap_or none d = d
unwrap_or (some a) d = a

-- The closure of `to_blocks` over its running `parent`, from the index `idx` on.
unfoldable pub chain_blocks : IdentityScope → ℕ → String → ℕ → List String → List KvBlockKey
chain_blocks s token_count parent idx [] = []
chain_blocks s token_count parent idx (h ∷ hs) =
    record {
      model_id = s.model_id;
      tokenizer_id = s.tokenizer_id;
      adapter_id = s.adapter_id;
      tenant_id = s.tenant_id;
      prefix_hash = parent;
      block_hash = h;
      block_index = idx % u32_mod;
      token_count = token_count;
    }
    ∷ chain_blocks s token_count h (idx + 1) hs

-- The identity that the hints name, with the fallbacks.
unfoldable pub hinted_scope : RequestKvHints → String → String → String → IdentityScope
hinted_scope r fallback_model_id fallback_tokenizer_id fallback_tenant_id = record {
  model_id = unwrap_or r.model_id fallback_model_id;
  tokenizer_id = unwrap_or r.tokenizer_id fallback_tokenizer_id;
  adapter_id = r.adapter_id;
  tenant_id = unwrap_or r.tenant_id fallback_tenant_id;
}

unfoldable pub to_blocks : RequestKvHints → String → String → String → List KvBlockKey
unfolding chain_blocks hinted_scope
to_blocks r fallback_model_id fallback_tokenizer_id fallback_tenant_id =
    chain_blocks (hinted_scope r fallback_model_id fallback_tokenizer_id fallback_tenant_id)
      (unwrap_or r.block_tokens 64) (unwrap_or r.session_id "root") 0 r.block_hashes
