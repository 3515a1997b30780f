-- ===== src/DataPlane/Kept.antt =====
-- A placement in crates/quillcache-store/src/lib.rs loses nothing in silence: StoreDataPlane::place.
use quillcache.Prelude.{
  ℕ, zero, suc, ◌+◌, String, ◌≡◌, refl, sym, ap, ◌∙◌, inl, inr, Bool, true, false, ◌||◌, none, some,
  List, [], ◌∷◌, arith, ltb, if◌then◌else◌, Bool-cases, Option-cases, length, any,
}
use quillcache.Identity.{KvBlockKey}
use quillcache.KeyMap.{find, put, delete}
use quillcache.KeyMap.Laws.{find-put, find-delete, Unique, put-Unique, delete-Unique}
use quillcache.BlockStore.{
  CacheTier, hbm, cpu_dram, local_ssd, Bytes, block_key, block_key_eq, block_key_eq_iff, DiskWrite,
}
use quillcache.MemoryIndex.{CacheResidency}
use quillcache.MemoryIndex.Loops.{is_some}
use quillcache.MemoryIndex.Reverse.{any-append}
use quillcache.DataPlane.{TierEntry, StoreDataPlane, capacity, lower_tier}
use quillcache.DataPlane.Ops.{
  tier_bytes, coldest_in_tier, Sweep, push_down, tier_loop, sweep_tier, enforce_capacity,
}
use quillcache.DataPlane.Place.{cache_of, admitted, place}
use quillcache.DataPlane.Rounds.{Entries, chosen, push_down-Unique}
use quillcache.DataPlane.Fits.{place-cache}

-- An entry carries its key.
abbrev pub Keyed : Entries → Type 0
Keyed entries = (k : KvBlockKey) (e : TierEntry) → find k entries ≡ some e → e.residency.key ≡ k

-- Whether a key has an entry, or a residency that was reported as removed.
abbrev pub accounted : KvBlockKey → Entries → List CacheResidency → Bool
accounted k entries removed = is_some (find k entries) || any (λ r. block_key_eq r.key k) removed

put-Keyed :
    (key : KvBlockKey) (e : TierEntry) (m : Entries)
    → e.residency.key ≡ key
    → Keyed m
    → Keyed (put key e (delete key m))
put-Keyed key e m own keyed k x q = elim (Bool-cases (block_key_eq key k)) [
  | inl y ↦
      let same : some e ≡ some x =
        sym (
          find-put key k e (delete key m) ∙ ap (λ b. if b then some e else find k (delete key m)) y)
        ∙ q in
      let it : e ≡ x = ground (arith, same) in
      sym (ap (λ z. z.residency.key) it) ∙ own ∙ (block_key_eq_iff key k).0 y
  | inr n ↦ keyed k x (
      sym (find-delete key k m ∙ ap (λ b. if b then none else find k m) n)
      ∙ sym (
          find-put key k e (delete key m) ∙ ap (λ b. if b then some e else find k (delete key m)) n)
      ∙ q)
]

delete-Keyed : (key : KvBlockKey) (m : Entries) → Keyed m → Keyed (delete key m)
delete-Keyed key m keyed k x q = elim (Bool-cases (block_key_eq key k)) [
  | inl y ↦
      absurd
        (ground (arith, sym (find-delete key k m ∙ ap (λ b. if b then none else find k m) y) ∙ q))
  | inr n ↦ keyed k x (sym (find-delete key k m ∙ ap (λ b. if b then none else find k m) n) ∙ q)
]

held_after :
    (key k : KvBlockKey) (e : TierEntry) (m : Entries)
    → is_some (find k (put key e (delete key m))) ≡ (block_key_eq key k || is_some (find k m))
held_after key k e m = elim (Bool-cases (block_key_eq key k)) [
  | inl y ↦ rw y (
      ap is_some
        (find-put key k e (delete key m) ∙ ap (λ b. if b then some e else find k (delete key m)) y))
  | inr n ↦ rw n (
      ap is_some (
        find-put key k e (delete key m)
        ∙ ap (λ b. if b then some e else find k (delete key m)) n
        ∙ find-delete key k m
        ∙ ap (λ b. if b then none else find k m) n))
]

module _ (crc32 : Bytes → ℕ) (write : String → ℕ → DiskWrite) (logged : KvBlockKey → Bool)
    (worker_id : String) where
  module _ (tier : CacheTier) (key : KvBlockKey) (victim : TierEntry) (w : Sweep)
      (keyed : Keyed w.worker.entries) (f : find key w.worker.entries ≡ some victim) where
    push_down-Keyed :
        Keyed (push_down crc32 write logged worker_id tier key victim w).worker.entries
    unfolding push_down
    push_down-Keyed = elim (Option-cases (lower_tier tier)) [
      | inl o ↦ rw (o, push_down) (delete-Keyed key w.worker.entries keyed)
      | inr (next, o) ↦
          rw (o, push_down) (put-Keyed key _ w.worker.entries (keyed key victim f) keyed)
    ]

    push_down-accounted :
        (k : KvBlockKey)
        → accounted k w.worker.entries w.removed ≡ true
        → let w' = push_down crc32 write logged worker_id tier key victim w in
          accounted k w'.worker.entries w'.removed ≡ true
    unfolding push_down
    push_down-accounted k t = elim (Option-cases (lower_tier tier)) [
      | inr (next, o) ↦
          rw (o, push_down)
            (ap (λ b. b || any (λ r. block_key_eq r.key k) w.removed)
                (held_after key k _ w.worker.entries)
              ∙ ground (arith, t))
      | inl o ↦
          rw (o, push_down)
            (ap (λ b. is_some (find k (delete key w.worker.entries)) || b)
                (any-append (λ r. block_key_eq r.key k) w.removed (victim.residency ∷ []))
              ∙ elim (Bool-cases (block_key_eq key k)) [
                | inl y ↦
                    let own : block_key_eq victim.residency.key k ≡ true =
                      ap (λ x. block_key_eq x k) (keyed key victim f) ∙ y in
                    rw own (ground arith)
                | inr n ↦
                    let same : find k (delete key w.worker.entries) ≡ find k w.worker.entries =
                      find-delete key k w.worker.entries
                      ∙ ap (λ b. if b then none else find k w.worker.entries) n in
                    rw same (ground (arith, t))
              ])
    ]

  module _ (k : KvBlockKey) where
    abbrev Accounted : Sweep → Type 0
    Accounted w =
        Unique w.worker.entries
        × Keyed w.worker.entries
        × (accounted k w.worker.entries w.removed ≡ true)

    tier_loop-Accounted :
        (tier : CacheTier) (fuel : ℕ) (w : Sweep)
        → Accounted w
        → Accounted (tier_loop crc32 write logged worker_id tier fuel w)
    unfolding tier_loop
    tier_loop-Accounted tier zero w a = a
    tier_loop-Accounted tier (suc fuel) w a =
        elim (Bool-cases (ltb (capacity w.plane.config tier) (tier_bytes tier w.worker.entries))) [
          | inr n ↦ rw (n, tier_loop) a
          | inl y ↦ elim (Option-cases (coldest_in_tier tier w.worker.entries)) [
            | inl e ↦ rw (y, tier_loop) (rw e a)
            | inr (key, e) ↦
                let (victim, f, inside) = chosen tier w.worker.entries key a.0 e in
                rw (y, tier_loop)
                  (rw e (
                    rw f (
                      tier_loop-Accounted tier fuel
                        (push_down crc32 write logged worker_id tier key victim w)
                        (
                          push_down-Unique crc32 write logged worker_id tier key victim w a.0,
                          push_down-Keyed tier key victim w a.1 f,
                          push_down-accounted tier key victim w a.1 f k a.2,
                        ))))
          ]
        ]

    enforce_capacity-Accounted :
        (w : Sweep) → Accounted w → Accounted (enforce_capacity crc32 write logged worker_id w)
    unfolding enforce_capacity
    enforce_capacity-Accounted w a =
        let w1 = sweep_tier crc32 write logged worker_id hbm w in
        let w2 = sweep_tier crc32 write logged worker_id cpu_dram w1 in
        tier_loop-Accounted local_ssd (length w2.worker.entries + 1) w2 (
          tier_loop-Accounted cpu_dram (length w1.worker.entries + 1) w1
            (tier_loop-Accounted hbm (length w.worker.entries + 1) w a))

-- Where the cache of a worker has one entry under each key, and each entry carries its key: after a
-- placement, the placed key and every key that had an entry has one still, or is in the update among
-- what was removed.
pub place-accounted :
    (crc32 : Bytes → ℕ) (write : String → ℕ → DiskWrite) (logged : KvBlockKey → Bool)
    (r : CacheResidency) (plane : StoreDataPlane) (k : KvBlockKey)
    → Unique (cache_of r.worker_id plane).entries
    → Keyed (cache_of r.worker_id plane).entries
    → (block_key_eq r.key k || is_some (find k (cache_of r.worker_id plane).entries)) ≡ true
    → let (update, plane') = place crc32 write logged r plane in
      accounted k (cache_of r.worker_id plane').entries update.removed ≡ true
unfolding place admitted
place-accounted crc32 write logged r plane k u keyed t =
    let cache = cache_of r.worker_id plane in
    let start = admitted r plane in
    let w = enforce_capacity crc32 write logged r.worker_id start in
    let a = enforce_capacity-Accounted crc32 write logged r.worker_id k start (
      put-Unique r.key _ _ (delete-Unique r.key cache.entries u),
      put-Keyed r.key _ cache.entries refl keyed,
      ap (λ b. b || false) (held_after r.key k _ cache.entries) ∙ ground (arith, t),
    ) in
    ap (λ c. accounted k c.entries w.removed) (place-cache crc32 write logged r plane) ∙ a.2
