-- ===== src/DataPlane/Rounds.antt =====
-- One round and one loop of StoreDataPlane::enforce_capacity in crates/quillcache-store/src/lib.rs.
use quillcache.Prelude.{
  ℕ, zero, suc, ◌+◌, ◌≤◌, ◌<◌, String, ◌≡◌, refl, sym, ap, ◌∙◌, inl, inr, Bool, true, false, Option,
  none, some, [], ◌∷◌, arith, ltb, ◌==◌, if◌then◌else◌, Bool-cases, Option-cases, u64_mod,
}
use quillcache.Identity.{KvBlockKey}
use quillcache.StrMap.{lookup}
use quillcache.KeyMap.{KeyMap, find, put, delete}
use quillcache.KeyMap.Laws.{
  find-delete_self, Unique, put-Unique, delete-Unique, total, total-put, total-delete, weight,
}
use quillcache.BlockStore.{
  CacheTier, hbm, remote_hbm, cpu_dram, local_ssd, object_store, is_ssd, Bytes, block_key,
  LocalKvStore, DiskWrite,
}
use quillcache.BlockStore.Coldest.{coldest-some, coldest-none}
use quillcache.BlockStore.Policy.{coldest}
use quillcache.MemoryIndex.{tier_eq, tier_index}
use quillcache.DataPlane.{TierEntry, StoreDataPlane, capacity, lower_tier}
use quillcache.DataPlane.Ops.{
  in_tier, size_in, tier_bytes, coldest_in_tier, Sweep, with_pool, push_down, tier_loop,
}

abbrev pub Entries : Type 0
Entries = KeyMap KvBlockKey TierEntry

-- A victim leaves its entry to another.
total-replaced :
    (f : TierEntry → ℕ) (k : KvBlockKey) (v v' : TierEntry) (m : Entries)
    → Unique m
    → find k m ≡ some v
    → total f (put k v' (delete k m)) + f v ≡ total f m + f v'
total-replaced f k v v' m u e =
    let one_less = total-delete f k m u in
    let one_more = total-put f k v' (delete k m) in
    let size : weight f (find k m) ≡ f v = ap (weight f) e in
    let gone : weight f (find k (delete k m)) ≡ 0 = ap (weight f) (find-delete_self k m) in
    omega (arith, one_less, one_more, size, gone)

lower_tier-other : (tier next : CacheTier) → lower_tier tier ≡ some next → tier_eq next tier ≡ false
unfolding lower_tier
lower_tier-other hbm next e = ground (arith, e)
lower_tier-other remote_hbm next e = absurd (ground (arith, e))
lower_tier-other cpu_dram next e = ground (arith, e)
lower_tier-other local_ssd next e = absurd (ground (arith, e))
lower_tier-other object_store next e = absurd (ground (arith, e))

-- A measure of an entry by its tier and its size, and what it is of the next tier down.
abbrev pub measure : (CacheTier → ℕ → ℕ) → TierEntry → ℕ
measure f e = f e.residency.tier e.residency.bytes

abbrev pub below : (CacheTier → ℕ → ℕ) → Option CacheTier → ℕ → ℕ
below f none bytes = 0
below f (some next) bytes = f next bytes

module _ (crc32 : Bytes → ℕ) (write : String → ℕ → DiskWrite) (logged : KvBlockKey → Bool)
    (worker_id : String) where
  with_pool-config :
      (f : LocalKvStore → LocalKvStore) (plane : StoreDataPlane)
      → (with_pool worker_id f plane).config ≡ plane.config
  unfolding with_pool
  with_pool-config f plane = elim (Option-cases (lookup worker_id plane.byte_pools)) [
    | inl o ↦ rw (o, with_pool) refl
    | inr (pool, o) ↦ rw (o, with_pool) refl
  ]

  module _ (tier : CacheTier) (key : KvBlockKey) (victim : TierEntry) (w : Sweep) where
    abbrev pushed : Sweep
    pushed = push_down crc32 write logged worker_id tier key victim w

    push_down-config : pushed.plane.config ≡ w.plane.config
    unfolding push_down
    push_down-config = elim (Option-cases (lower_tier tier)) [
      | inl o ↦ rw (o, push_down) (with_pool-config _ _)
      | inr (next, o) ↦ elim (Bool-cases (is_ssd next)) [
        | inl y ↦ rw (o, push_down) (rw y (with_pool-config _ _))
        | inr n ↦ rw (o, push_down) (rw n refl)
      ]
    ]

    pub push_down-Unique : Unique w.worker.entries → Unique pushed.worker.entries
    unfolding push_down
    push_down-Unique u = elim (Option-cases (lower_tier tier)) [
      | inl o ↦ rw (o, push_down) (delete-Unique key w.worker.entries u)
      | inr (next, o) ↦
          rw (o, push_down)
            (put-Unique key _ (delete key w.worker.entries) (delete-Unique key w.worker.entries u))
    ]

    push_down-total :
        (f : CacheTier → ℕ → ℕ)
        → Unique w.worker.entries
        → find key w.worker.entries ≡ some victim
        → total (measure f) pushed.worker.entries + measure f victim
          ≡ total (measure f) w.worker.entries + below f (lower_tier tier) victim.residency.bytes
    unfolding push_down
    push_down-total f u e = elim (Option-cases (lower_tier tier)) [
      | inl o ↦
          let size : weight (measure f) (find key w.worker.entries) ≡ measure f victim =
            ap (weight (measure f)) e in
          rw (o, push_down) (omega (arith, total-delete (measure f) key w.worker.entries u, size))
      | inr (next, o) ↦
          rw (o, push_down) (total-replaced (measure f) key victim _ w.worker.entries u e)
    ]

abbrev pub counts : CacheTier → CacheTier → ℕ → ℕ
counts tier t bytes = if tier_eq t tier then 1 else 0

abbrev pub sizes : CacheTier → CacheTier → ℕ → ℕ
sizes tier t bytes = if tier_eq t tier then bytes else 0

below-counts : (tier : CacheTier) (bytes : ℕ) → below (counts tier) (lower_tier tier) bytes ≡ 0
below-counts tier bytes = elim (Option-cases (lower_tier tier)) [
  | inl o ↦ rw o refl
  | inr (next, o) ↦ rw o (rw (lower_tier-other tier next o) refl)
]

pub chosen :
    (tier : CacheTier) (entries : Entries) (key : KvBlockKey)
    → Unique entries
    → coldest_in_tier tier entries ≡ some key
    → (victim : TierEntry) × (find key entries ≡ some victim) × (in_tier tier victim ≡ true)
unfolding coldest_in_tier
chosen tier entries key u e =
    elim (Option-cases (coldest (in_tier tier) (λ x. x.last_access) entries)) [
      | inl o ↦
          let nothing : coldest_in_tier tier entries ≡ none = rw (o, coldest_in_tier) refl in
          absurd (ground (arith, sym nothing ∙ e))
      | inr ((k', a), o) ↦
          let found : coldest_in_tier tier entries ≡ some k' = rw (o, coldest_in_tier) refl in
          let same : k' ≡ key = ground (arith, sym found ∙ e) in
          coldest-some (in_tier tier) (λ x. x.last_access) entries key a u
            (o ∙ ap (λ x. some (x, a)) same)
    ]

-- The bytes of an entry, whatever tier it is in.
abbrev pub every : CacheTier → ℕ → ℕ
every t bytes = bytes

below-every : (tier : CacheTier) (bytes : ℕ) → below every (lower_tier tier) bytes ≤ bytes
below-every tier bytes = elim (Option-cases (lower_tier tier)) [
  | inl o ↦ rw o (omega arith)
  | inr (next, o) ↦ rw o (omega arith)
]

total-size_in-le :
    (tier : CacheTier) (entries : Entries)
    → total (size_in tier) entries ≤ total (measure every) entries
unfolding total
total-size_in-le tier [] = omega arith
total-size_in-le tier ((k, e) ∷ entries) = elim (Bool-cases (in_tier tier e)) [
  | inl y ↦ rw y (omega (arith, total-size_in-le tier entries))
  | inr n ↦ rw n (omega (arith, total-size_in-le tier entries))
]

-- Below 2 ^ 64 bytes the sum of a tier does not wrap.
tier_bytes-exact :
    (tier : CacheTier) (entries : Entries)
    → total (measure every) entries < u64_mod
    → tier_bytes tier entries ≡ total (size_in tier) entries
unfolding tier_bytes
tier_bytes-exact tier entries small = omega (arith, small, total-size_in-le tier entries)

none_left :
    (tier : CacheTier) (entries : Entries)
    → Unique entries
    → coldest_in_tier tier entries ≡ none
    → total (size_in tier) entries ≡ 0
unfolding coldest_in_tier
none_left tier entries u e =
    elim (Option-cases (coldest (in_tier tier) (λ x. x.last_access) entries)) [
      | inl o ↦
          coldest-none (in_tier tier) (λ x. x.last_access) (size_in tier) entries u
            (λ k m f n. rw n refl) o
      | inr ((k', a), o) ↦
          let found : coldest_in_tier tier entries ≡ some k' = rw (o, coldest_in_tier) refl in
          absurd (ground (arith, sym found ∙ e))
    ]

module _ (crc32 : Bytes → ℕ) (write : String → ℕ → DiskWrite) (logged : KvBlockKey → Bool)
    (worker_id : String) (tier : CacheTier) where
  -- The loop ends with the tier within its capacity, if it has more rounds than the tier has entries.
  pub tier_loop-fits :
      (fuel : ℕ) (w : Sweep)
      → Unique w.worker.entries
      → total (measure (counts tier)) w.worker.entries < fuel
      → total (measure every) w.worker.entries < u64_mod
      → let w' = tier_loop crc32 write logged worker_id tier fuel w in
        Unique w'.worker.entries
        × (w'.plane.config ≡ w.plane.config)
        × (total (size_in tier) w'.worker.entries ≤ capacity w.plane.config tier)
        × (total (measure every) w'.worker.entries ≤ total (measure every) w.worker.entries)
  unfolding tier_loop
  tier_loop-fits zero w u lt small = absurd (omega arith)
  tier_loop-fits (suc fuel) w u lt small =
      elim (Bool-cases (ltb (capacity w.plane.config tier) (tier_bytes tier w.worker.entries))) [
        | inr n ↦
            let exact = tier_bytes-exact tier w.worker.entries small in
            rw (n, tier_loop) (u, refl, ground (arith, exact), omega arith)
        | inl y ↦ elim (Option-cases (coldest_in_tier tier w.worker.entries)) [
          | inl e ↦
              rw (y, tier_loop)
                (rw e (u, refl, omega (arith, none_left tier w.worker.entries u e), omega arith))
          | inr (key, e) ↦
              let (victim, f, inside) = chosen tier w.worker.entries key u e in
              let w1 = push_down crc32 write logged worker_id tier key victim w in
              let sum =
                push_down-total crc32 write logged worker_id tier key victim w (counts tier) u f in
              let lighter =
                push_down-total crc32 write logged worker_id tier key victim w every u f in
              let no_more = below-every tier victim.residency.bytes in
              let nothing = below-counts tier victim.residency.bytes in
              let this : measure (counts tier) victim ≡ 1 = rw inside refl in
              let same = push_down-config crc32 write logged worker_id tier key victim w in
              let (u2, c2, le, less) =
                tier_loop-fits fuel w1
                  (push_down-Unique crc32 write logged worker_id tier key victim w u)
                  (omega (arith, sum, nothing, this)) (omega (arith, lighter, no_more, small)) in
              rw (y, tier_loop)
                (rw e (
                  rw f (
                    u2,
                    c2 ∙ same,
                    omega (arith, le, ap (λ c. capacity c tier) same),
                    omega (arith, less, lighter, no_more),
                  )))
        ]
      ]

  -- A tier that the loop takes nothing from and moves nothing to keeps its size.
  pub tier_loop-apart :
      (other : CacheTier) (fuel : ℕ) (w : Sweep)
      → Unique w.worker.entries
      → tier_eq tier other ≡ false
      → ((bytes : ℕ) → below (sizes other) (lower_tier tier) bytes ≡ 0)
      → total (size_in other) (tier_loop crc32 write logged worker_id tier fuel w).worker.entries
        ≡ total (size_in other) w.worker.entries
  unfolding tier_loop
  tier_loop-apart other zero w u d b = refl
  tier_loop-apart other (suc fuel) w u d b =
      elim (Bool-cases (ltb (capacity w.plane.config tier) (tier_bytes tier w.worker.entries))) [
        | inr n ↦ rw (n, tier_loop) refl
        | inl y ↦ elim (Option-cases (coldest_in_tier tier w.worker.entries)) [
          | inl e ↦ rw (y, tier_loop) (rw e refl)
          | inr (key, e) ↦
              let (victim, f, inside) = chosen tier w.worker.entries key u e in
              let w1 = push_down crc32 write logged worker_id tier key victim w in
              let sum =
                push_down-total crc32 write logged worker_id tier key victim w (sizes other) u f in
              let nothing = b victim.residency.bytes in
              let index : tier_index victim.residency.tier ≡ tier_index tier = ground arith in
              let outside : tier_eq victim.residency.tier other ≡ false =
                ap (λ i. i == tier_index other) index ∙ d in
              let this : measure (sizes other) victim ≡ 0 = rw outside refl in
              let rest =
                tier_loop-apart other fuel w1
                  (push_down-Unique crc32 write logged worker_id tier key victim w u) d b in
              rw (y, tier_loop) (rw e (rw f (rest ∙ omega (arith, sum, nothing, this))))
        ]
      ]
