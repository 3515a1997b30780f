-- ===== src/BlockStore/Survival.antt =====
-- What a crash costs the byte pool of crates/quillcache-store/src/lib.rs: LocalKvStore::recover after
-- any operation.
use quillcache.Prelude.{
  ℕ, ◌≡◌, refl, sym, ap, ◌∙◌, subst, inl, inr, Bool, true, false, Option, none, some, arith,
  if◌then◌else◌, Bool-cases, Option-cases,
}
use quillcache.Identity.{KvBlockKey}
use quillcache.KeyMap.{nat_key, find}
use quillcache.KeyMap.Laws.{find-put_self}
use quillcache.BlockStore.Ops.{put_dram}
use quillcache.BlockStore.{local_ssd, block_key, Bytes, BlockMeta, LocalKvStore, is_ssd}
use quillcache.BlockStore.Serve.{Commit, intact, recover, get_raw, bytes_of, tier_of}
use quillcache.BlockStore.Valid.{Home, committed, live, IsValid, Home-cases}
use quillcache.BlockStore.Recovery.{
  readmitted, readmitted_file, recover-meta, recover-ssd, recover-disk,
}

-- Whether the block of a key is in a file.
abbrev pub on_ssd : KvBlockKey → LocalKvStore → Bool
on_ssd k s = elim (tier_of k s) [ none ↦ false | some t ↦ is_ssd t ]

-- A put leaves its bytes in memory.
pub stored_bytes :
    (k : KvBlockKey) (bytes : Bytes) (s : LocalKvStore)
    → find k (put_dram k bytes s).dram ≡ some bytes
unfolding put_dram
stored_bytes k bytes s = find-put_self k bytes _

get_raw-absent : (k : KvBlockKey) (s : LocalKvStore) → find k s.meta ≡ none → get_raw k s ≡ none
unfolding get_raw
get_raw-absent k s e = rw (e, get_raw) refl

get_raw-file :
    (k : KvBlockKey) (s : LocalKvStore) (m : BlockMeta) (id : ℕ) (bytes : Bytes)
    → find k s.meta ≡ some m
    → m.tier ≡ local_ssd
    → find k s.ssd ≡ some id
    → find id s.disk.files ≡ some bytes
    → get_raw k s ≡ some bytes
get_raw-file k s m id bytes e t p f = unfold get_raw bytes_of in ground (arith, e, t, p, f)

on_ssd-file :
    (k : KvBlockKey) (s : LocalKvStore) (m : BlockMeta)
    → find k s.meta ≡ some m
    → on_ssd k s ≡ is_ssd m.tier
unfolding tier_of
on_ssd-file k s m e = rw (e, on_ssd, tier_of) refl

on_ssd-absent : (k : KvBlockKey) (s : LocalKvStore) → find k s.meta ≡ none → on_ssd k s ≡ false
unfolding tier_of
on_ssd-absent k s e = rw (e, on_ssd, tier_of) refl

module _ (crc32 : Bytes → ℕ) (k : KvBlockKey) (s : LocalKvStore) (v : IsValid crc32 s) where
  home :
      (m : BlockMeta)
      → find k s.meta ≡ some m
      → Home s.disk.files (some m) (find k s.dram) (find k s.ssd)
  home m e = subst (λ o. Home s.disk.files o (find k s.dram) (find k s.ssd)) e (v.homes k)

  memory_only : find k s.ssd ≡ none → on_ssd k s ≡ false
  memory_only p = elim (Option-cases (find k s.meta)) [
    | inl e ↦ on_ssd-absent k s e
    | inr (m, e) ↦ elim (Home-cases s.disk.files m (find k s.dram) (find k s.ssd) (home m e)) [
      | inl (bytes, d, q, inside) ↦ on_ssd-file k s m e ∙ ap is_ssd inside.0
      | inr (id, d, q, inside) ↦ absurd (ground arith)
    ]
  ]

  pub in_file :
      (id : ℕ)
      → find k s.ssd ≡ some id
      → (on_ssd k s ≡ true)
        × (bytes : Bytes) × (find id s.disk.files ≡ some bytes)
        × (get_raw k s ≡ some bytes)
  in_file id p = elim (Option-cases (find k s.meta)) [
    | inl e ↦ absurd (
        nowhere (find k s.dram) (
          subst (λ o. Home s.disk.files none (find k s.dram) o) p
            (subst (λ o. Home s.disk.files o (find k s.dram) (find k s.ssd)) e (v.homes k))))
    | inr (m, e) ↦ elim (Home-cases s.disk.files m (find k s.dram) (find k s.ssd) (home m e)) [
      | inl (bytes, d, q, inside) ↦ absurd (ground arith)
      | inr (i, d, q, (t, bytes, f, size)) ↦
          let same : find id s.disk.files ≡ some bytes = ground (arith, p, q, f) in
          (on_ssd-file k s m e ∙ ap is_ssd t, bytes, same, get_raw-file k s m id bytes e t p same)
    ]
  ]
    where
      nowhere : (d : Option Bytes) → Home s.disk.files none d (some id) → ⊥
      nowhere none h = h
      nowhere (some bytes) h = h

  module _ (dram ssd : ℕ) where
    recovered :
        (o : Option Commit)
        → find k (live s) ≡ o
        → find k (recover crc32 s.disk dram ssd).meta ≡ readmitted crc32 s.disk.files o none
    recovered o e =
        recover-meta crc32 k s.disk dram ssd ∙ ap (λ x. readmitted crc32 s.disk.files x none) e

    held_by :
        (o : Option Commit) → find k (live s) ≡ o → committed crc32 s.disk.files o ≡ find k s.ssd
    held_by o e = ap (committed crc32 s.disk.files) (sym e) ∙ v.durable k

    gone :
        find k s.ssd ≡ none
        → find k (recover crc32 s.disk dram ssd).meta ≡ none
        → get_raw k (recover crc32 s.disk dram ssd) ≡ (if on_ssd k s then get_raw k s else none)
    gone p e =
        get_raw-absent k (recover crc32 s.disk dram ssd) e
        ∙ ap (λ b. if b then get_raw k s else none) (sym (memory_only p))

    -- After a crash of a valid pool, on a disk on which no deletion of a file fails, whatever the state
    -- of its tiers, the recovered pool has exactly the blocks that were in files, each with the same bytes: a block that was in memory, or
    -- nowhere, is absent.
    pub recover-get_raw :
        get_raw k (recover crc32 s.disk dram ssd) ≡ (if on_ssd k s then get_raw k s else none)
    recover-get_raw = elim (Option-cases (find k (live s))) [
      | inl o ↦ gone (sym (held_by none o)) (recovered none o)
      | inr (c, o) ↦ elim (Bool-cases (intact crc32 s.disk.files c)) [
        | inr n ↦ gone (sym (held_by (some c) o) ∙ ap (λ b. if b then some c.0 else none) n) (
            recovered (some c) o
            ∙ ap
                (λ b.
                  if b
                  then some (record { tier = local_ssd; bytes = c.1; last_access = 0 })
                  else none)
                n)
        | inl y ↦
            let p : find k s.ssd ≡ some c.0 =
              sym (held_by (some c) o) ∙ ap (λ b. if b then some c.0 else none) y in
            let (there, bytes, f, raw) = in_file c.0 p in
            let m : BlockMeta = record { tier = local_ssd; bytes = c.1; last_access = 0 } in
            let e : find k (recover crc32 s.disk dram ssd).meta ≡ some m =
              recovered (some c) o ∙ ap (λ b. if b then some m else none) y in
            let q : find k (recover crc32 s.disk dram ssd).ssd ≡ some c.0 =
              recover-ssd crc32 k s.disk dram ssd
              ∙ ap (λ x. readmitted_file crc32 s.disk.files x none) o
              ∙ ap (λ b. if b then some c.0 else none) y in
            let g : find c.0 (recover crc32 s.disk dram ssd).disk.files ≡ some bytes =
              ap (λ x. find c.0 x.files) (recover-disk crc32 s.disk dram ssd) ∙ f in
            get_raw-file k (recover crc32 s.disk dram ssd) m c.0 bytes e refl q g
            ∙ sym (ap (λ b. if b then get_raw k s else none) there ∙ raw)
      ]
    ]
