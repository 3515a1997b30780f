-- ===== src/ShardedMap/Routing.antt =====
-- The shards of crates/quillcache-store/src/sharded_map.rs against one map.
use native.Mathlib.Nat.{mod-lt}
use quillcache.Prelude.{
  ℕ, zero, suc, ◌%◌, ◌<◌, String, ◌≡◌, refl, sym, ap, ◌∙◌, ◌≢◌, inl, inr, true, false≢true, Option,
  none, some, List, [], ◌∷◌, arith, str_eq, eq_iff, ◌==◌, if◌then◌else◌, ==_iff, Bool-cases, length,
  get_elem?, set, length-set,
}
use quillcache.StrMap.{StrMap, lookup}
use quillcache.EndpointStore.Hand.{get_elem?-below}
use quillcache.ShardedMap.{ShardedMap, shard_idx, with_shard}

-- What a key's shard holds under the key.
abbrev pub found_in : {V : Type 0} → String → Option (StrMap V) → Option V
found_in key none = none
found_in key (some shard) = lookup key shard

abbrev pub get : {V : Type 0} → (String → ℕ) → String → ShardedMap V → Option V
get hash key shards = found_in key (get_elem? shards (shard_idx hash key shards))

get_elem?-set :
    {X : Type 0} (xs : List X) (i j : ℕ) (x v : X)
    → get_elem? xs i ≡ some x
    → get_elem? (set xs i v) j ≡ (if i == j then some v else get_elem? xs j)
get_elem?-set [] i j x v e = ground arith
get_elem?-set (y ∷ xs) zero zero x v e = refl
get_elem?-set (y ∷ xs) zero (suc j) x v e = ground arith
get_elem?-set (y ∷ xs) (suc i) zero x v e = ground arith
get_elem?-set (y ∷ xs) (suc i) (suc j) x v e = ground (arith, get_elem?-set xs i j x v e)

shard_idx-lt :
    {V : Type 0} (hash : String → ℕ) (key : String) (shards : ShardedMap V)
    → 0 < length shards
    → shard_idx hash key shards < length shards
unfolding shard_idx
shard_idx-lt hash key shards z = mod-lt (hash key) z

-- A call that changes its shard under its own key only.
abbrev pub Local : {V R : Type 0} → String → (StrMap V → R × StrMap V) → Type 0
Local {V} key f = (j : String) (shard : StrMap V) → key ≢ j → lookup j (f shard).1 ≡ lookup j shard

module _ {V R : Type 0} (hash : String → ℕ) (key : String) (f : StrMap V → R × StrMap V) (out : R)
    (shards : ShardedMap V) where
  with_shard-runs :
      (shard : StrMap V)
      → get_elem? shards (shard_idx hash key shards) ≡ some shard
      → with_shard hash key f out shards
        ≡ ((f shard).0, set shards (shard_idx hash key shards) (f shard).1)
  unfolding with_shard
  with_shard-runs shard e = rw (e, with_shard) refl

  get-set :
      (shard : StrMap V) (j : String)
      → Local key f
      → get_elem? shards (shard_idx hash key shards) ≡ some shard
      → get hash j (set shards (shard_idx hash key shards) (f shard).1)
        ≡ (if str_eq key j then lookup key (f shard).1 else get hash j shards)
  get-set shard j only e =
      let i = shard_idx hash key shards in
      let shards' = set shards i (f shard).1 in
      let same_idx : shard_idx hash j shards' ≡ shard_idx hash j shards =
        unfold shard_idx in ap (λ n. hash j % n) (length-set shards i (f shard).1) in
      let at = get_elem?-set shards i (shard_idx hash j shards) shard (f shard).1 e in
      ap (λ n. found_in j (get_elem? shards' n)) same_idx
      ∙ ap (found_in j) at
      ∙ (elim (Bool-cases (str_eq key j)) [
        | inl y ↦
            let named = (eq_iff key j).0 y in
            let here : (i == shard_idx hash j shards) ≡ true =
              (==_iff i (shard_idx hash j shards)).1 (ap (λ k. shard_idx hash k shards) named) in
            rw (here, y) (ap (λ k. lookup k (f shard).1) (sym named))
        | inr n ↦
            let differs : key ≢ j = λ same. false≢true (sym n ∙ (eq_iff key j).1 same) in
            elim (Bool-cases (i == shard_idx hash j shards)) [
              | inr apart ↦ rw (apart, n) refl
              | inl together ↦
                  let there : get_elem? shards (shard_idx hash j shards) ≡ some shard =
                    ap (get_elem? shards) (sym ((==_iff i (shard_idx hash j shards)).0 together))
                    ∙ e in
                  rw (together, n, there) (only j shard differs)
            ]
      ])

  -- With at least one shard, a call on a key runs on the shard at the key's hash modulo the number of
  -- shards, answers what it gives on that shard, and puts the shard that it leaves in that place. The
  -- shard at every other place, and the number of shards, stay. If it also changes that shard under
  -- the key alone, the shards then hold under every key what one map would: the new value under the
  -- key, the old one elsewhere.
  pub with_shard-Routed :
      0 < length shards
      → (shard : StrMap V) × (get_elem? shards (hash key % length shards) ≡ some shard)
        × ((with_shard hash key f out shards).0 ≡ (f shard).0)
        × (length (with_shard hash key f out shards).1 ≡ length shards)
        × ((i : ℕ)
            → get_elem? (with_shard hash key f out shards).1 i
              ≡ (if (hash key % length shards) == i then some (f shard).1 else get_elem? shards i))
        × (Local key f
            → (j : String)
            → get hash j (with_shard hash key f out shards).1
              ≡ (if str_eq key j then lookup key (f shard).1 else get hash j shards))
  unfolding shard_idx
  with_shard-Routed z =
      let i = shard_idx hash key shards in
      let (shard, e) = get_elem?-below shards i (shard_idx-lt hash key shards z) in
      let runs = with_shard-runs shard e in
      (
        shard,
        e,
        ap (λ r. r.0) runs,
        ap (λ r. length r.1) runs ∙ length-set shards i (f shard).1,
        (λ j. ap (λ r. get_elem? r.1 j) runs ∙ get_elem?-set shards i j shard (f shard).1 e),
        (λ only j. ap (λ r. get hash j r.1) runs ∙ get-set shard j only e),
      )
