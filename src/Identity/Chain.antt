-- ===== src/Identity/Chain.antt =====
-- The chain of block keys that `RequestKvHints::to_blocks` builds.
use quillcache.Prelude.{
  ℕ, zero, suc, ◌+◌, ◌%◌, String, ◌≡◌, refl, Option, some, List, [], ◌∷◌, arith, get_elem?, u32_mod,
}
use quillcache.Identity.{
  KvBlockKey, IdentityScope, RequestKvHints, from_key, chain_blocks, hinted_scope, to_blocks,
  unwrap_or,
}

-- What the position `i` of a chain must hold: its own hash, its predecessor's as the prefix.
abbrev pub predecessor : String → List String → ℕ → Option String
predecessor parent hs zero = some parent
predecessor parent hs (suc i) = get_elem? hs i

pub record Linked (s : IdentityScope) (prev : Option String) (h : String) (i : ℕ) (k : KvBlockKey)
    : Type 0 where
  pub scope : from_key k ≡ s
  pub linked : prev ≡ some k.prefix_hash
  pub hash : k.block_hash ≡ h
  pub index : k.block_index ≡ i

chain_blocks-Linked :
    (s : IdentityScope) (n idx : ℕ) (parent h : String) (hs : List String) (i : ℕ)
    → get_elem? hs i ≡ some h
    → (k : KvBlockKey) × (get_elem? (chain_blocks s n parent idx hs) i ≡ some k)
      × Linked s (predecessor parent hs i) h ((idx + i) % u32_mod) k
unfolding chain_blocks from_key
chain_blocks-Linked s n idx parent h [] i e = cc
chain_blocks-Linked s n idx parent h (x ∷ hs) zero e =
    (_, refl, record { scope = refl; linked = refl; hash = ground arith; index = omega arith })
chain_blocks-Linked s n idx parent h (x ∷ hs) (suc zero) e =
    let (k, there, l) = chain_blocks-Linked s n (idx + 1) x h hs zero e in
    (
      k,
      there,
      record { scope = l.scope; linked = l.linked; hash = l.hash; index = omega (arith, l.index) },
    )
chain_blocks-Linked s n idx parent h (x ∷ hs) (suc (suc i)) e =
    let (k, there, l) = chain_blocks-Linked s n (idx + 1) x h hs (suc i) e in
    (
      k,
      there,
      record { scope = l.scope; linked = l.linked; hash = l.hash; index = omega (arith, l.index) },
    )

-- The `i`-th block of the chain carries the hinted identity and the `i`-th hash, names its
-- predecessor's hash (the session for the first block) as its prefix, and has index `i`, wrapped
-- to 32 bits.
pub to_blocks-Linked :
    (r : RequestKvHints) (m t n h : String) (i : ℕ)
    → get_elem? r.block_hashes i ≡ some h
    → (k : KvBlockKey) × (get_elem? (to_blocks r m t n) i ≡ some k)
      × Linked
          (hinted_scope r m t n)
          (predecessor (unwrap_or r.session_id "root") r.block_hashes i)
          h
          (i % u32_mod)
          k
unfolding to_blocks
to_blocks-Linked r m t n h i e =
    let (k, there, l) =
      chain_blocks-Linked (hinted_scope r m t n) (unwrap_or r.block_tokens 64) 0
        (unwrap_or r.session_id "root") h r.block_hashes i e in
    (
      k,
      there,
      record { scope = l.scope; linked = l.linked; hash = l.hash; index = omega (arith, l.index) },
    )
