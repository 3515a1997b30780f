-- ===== src/BlockStore/Held.antt =====
-- A block enters the byte pool of crates/quillcache-store/src/lib.rs: LocalKvStore::put_dram.
use quillcache.Prelude.{
  ℕ, ◌+◌, ◌≡◌, refl, subst, inl, inr, Option, none, some, List, arith, Bool-cases, Option-cases,
  length,
}
use quillcache.Identity.{KvBlockKey}
use quillcache.StrMap.{StrMap}
use quillcache.KeyMap.{KeyMap, nat_key, find, put}
use quillcache.KeyMap.Laws.{find-put, find-delete_self, put-Unique, total-put}
use quillcache.BlockStore.{
  cpu_dram, block_key_eq, block_key_eq_iff, block_key, Bytes, BlockMeta, LocalKvStore,
}
use quillcache.BlockStore.Ops.{track, remove_internal, put_dram}
use quillcache.BlockStore.Valid.{dram_size, ssd_size, Home, InMemory, IsValid}
use quillcache.BlockStore.Remove.{remove_internal-IsValid}

Home-absent :
    (files : KeyMap ℕ Bytes) (d : Option Bytes) (p : Option ℕ)
    → Home files none d p
    → (d ≡ none) × (p ≡ none)
Home-absent files none none h = (refl, refl)
Home-absent files none (some id) h = absurd h
Home-absent files (some bytes) none h = absurd h
Home-absent files (some bytes) (some id) h = absurd h

pub Home-held :
    (files : KeyMap ℕ Bytes) (o : Option BlockMeta) (bytes : Bytes) (p : Option ℕ)
    → Home files o (some bytes) p
    → (m : BlockMeta) × (o ≡ some m) × (p ≡ none) × InMemory m bytes
Home-held files none bytes none h = absurd h
Home-held files none bytes (some id) h = absurd h
Home-held files (some m) bytes none h = (m, refl, refl, h)
Home-held files (some m) bytes (some id) h = absurd h

remove_internal-absent :
    (k : KvBlockKey) (s : LocalKvStore) → find k (remove_internal k s).meta ≡ none
unfolding remove_internal
remove_internal-absent k s = elim (Option-cases (find k s.meta)) [
  | inl e ↦ rw (e, remove_internal) e
  | inr (m, e) ↦ rw (e, remove_internal) (find-delete_self k s.meta)
]

module _ (crc32 : Bytes → ℕ) (k : KvBlockKey) (s : LocalKvStore) (v : IsValid crc32 s) where
  -- The block of an absent key, in memory.
  abbrev held : Bytes → ℕ → StrMap (List KvBlockKey) → ℕ → LocalKvStore
  held bytes now h n = record s {
    dram = put k bytes s.dram;
    dram_bytes = s.dram_bytes + length bytes;
    meta = put k (record { tier = cpu_dram; bytes = length bytes; last_access = now }) s.meta;
    by_hash = h;
    admits = n;
  }

  held-homes :
      (bytes : Bytes) (m : BlockMeta) (j : KvBlockKey)
      → InMemory m bytes
      → find k s.meta ≡ none
      → Home s.disk.files (find j (put k m s.meta)) (find j (put k bytes s.dram)) (find j s.ssd)
  held-homes bytes m j inside e = elim (Bool-cases (block_key_eq k j)) [
    | inl y ↦
        let away =
          Home-absent s.disk.files (find k s.dram) (find k s.ssd)
            (subst (λ o. Home s.disk.files o (find k s.dram) (find k s.ssd)) e (v.homes k)) in
        let gone : find j s.ssd ≡ none =
          subst (λ x. find x s.ssd ≡ none) ((block_key_eq_iff k j).0 y) away.1 in
        rw (find-put k j m s.meta, find-put k j bytes s.dram, y, gone) inside
    | inr x ↦ rw (find-put k j m s.meta, find-put k j bytes s.dram, x) (v.homes j)
  ]

  held-IsValid :
      (bytes : Bytes) (now : ℕ) (h : StrMap (List KvBlockKey)) (n : ℕ)
      → find k s.meta ≡ none
      → IsValid crc32 (held bytes now h n)
  held-IsValid bytes now h n e =
      let m : BlockMeta = record { tier = cpu_dram; bytes = length bytes; last_access = now } in
      let dram_total = total-put dram_size k m s.meta in
      let ssd_total = total-put ssd_size k m s.meta in
      record {
        homes = λ j. held-homes bytes m j (refl, refl) e;
        durable = v.durable;
        fresh = v.fresh;
        single = v.single;
        unique = put-Unique k m s.meta v.unique;
        deletable = v.deletable;
        dram_sum = ground (arith, v.dram_sum, dram_total, e);
        ssd_sum = ground (arith, v.ssd_sum, ssd_total, e);
      }

  ticked : (now : ℕ) → IsValid crc32 (record s { clock = now })
  ticked now = record {
    homes = v.homes;
    durable = v.durable;
    fresh = v.fresh;
    single = v.single;
    unique = v.unique;
    deletable = v.deletable;
    dram_sum = v.dram_sum;
    ssd_sum = v.ssd_sum;
  }

pub put_dram-IsValid :
    (crc32 : Bytes → ℕ) (k : KvBlockKey) (bytes : Bytes) (s : LocalKvStore)
    → IsValid crc32 s
    → IsValid crc32 (put_dram k bytes s)
unfolding put_dram
put_dram-IsValid crc32 k bytes s v =
    let s0 = record s { clock = s.clock + 1 } in
    let s1 = remove_internal k s0 in
    let v1 = remove_internal-IsValid crc32 k s0 (ticked crc32 k s v (s.clock + 1)) in
    held-IsValid crc32 k s1 v1 bytes (s.clock + 1) (track k s1.by_hash) (s1.admits + 1)
      (remove_internal-absent k s0)
