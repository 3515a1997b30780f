-- ===== src/BlockStore/Examples.antt =====
-- A pool with two blocks, on a disk that works and on one that does not.
use quillcache.Prelude.{
  ℕ, ◌+◌, ◌*◌, ◌%◌, ◌^◌, ◌≤◌, String, ◌≡◌, refl, true, false, none, some, List, [], ◌∷◌, arith,
  if◌then◌else◌,
}
use quillcache.Identity.{KvBlockKey}
use quillcache.BlockStore.{
  cpu_dram, Bytes, block_key, Disk, LocalKvStore, written, log_failed, create,
}
use quillcache.BlockStore.Ops.{done, failed, put_dram, demote_to_ssd}
use quillcache.BlockStore.Policy.{landed, put_block}
use quillcache.BlockStore.Serve.{recover, get_raw, tier_of}
use quillcache.BlockStore.Valid.{IsValid}
use quillcache.BlockStore.Reached.{Reached, created, stored, demoted, Reached-IsValid}
use quillcache.BlockStore.Survival.{stored_bytes, on_ssd, recover-get_raw}
use quillcache.BlockStore.Capacity.{put_block-fits}
use quillcache.BlockStore.Lost.{demote_to_ssd-failed}

abbrev crc : Bytes → ℕ
crc [] = 7
crc (b ∷ bs) = (b + 31 * crc bs) % 2 ^ 32

abbrev block : String → KvBlockKey
block hash = record {
  model_id = "m";
  tokenizer_id = "t";
  adapter_id = none;
  tenant_id = "a";
  prefix_hash = "";
  block_hash = hash;
  block_index = 0;
  token_count = 16;
}

abbrev no_disk : Disk
no_disk = record { undeletable = λ id. false; files = []; wal = [] }

abbrev empty : LocalKvStore
empty = create no_disk 3 4

abbrev one_block : LocalKvStore
one_block = put_dram (block "b0") (1 ∷ 2 ∷ []) empty

abbrev on_disk : LocalKvStore
on_disk = (demote_to_ssd crc (λ id. written) (block "b0") one_block).1

abbrev two_blocks : LocalKvStore
two_blocks = put_dram (block "b1") (3 ∷ []) on_disk

abbrev one_block-Reached : Reached crc one_block
one_block-Reached = stored empty (block "b0") (1 ∷ 2 ∷ []) (created no_disk 3 4 (λ id. refl))

abbrev two_blocks-Reached : Reached crc two_blocks
two_blocks-Reached =
    stored on_disk (block "b1") (3 ∷ [])
      (demoted one_block (block "b0") (λ id. written) one_block-Reached refl)

Reached-IsValid_example : IsValid crc two_blocks
Reached-IsValid_example = Reached-IsValid crc two_blocks two_blocks-Reached

two_blocks-IsValid : IsValid crc two_blocks
two_blocks-IsValid = Reached-IsValid crc two_blocks two_blocks-Reached

recover-get_raw_example :
    get_raw (block "b0") (recover crc two_blocks.disk 3 4)
    ≡ (if on_ssd (block "b0") two_blocks then get_raw (block "b0") two_blocks else none)
recover-get_raw_example = recover-get_raw crc (block "b0") two_blocks two_blocks-IsValid 3 4

put_block-fits_example :
    let s' =
      (put_block crc (λ id. written) (λ k. true) (block "b2") (4 ∷ 5 ∷ 6 ∷ []) two_blocks).1 in
    ((evicted : List KvBlockKey) × ((put_block crc
          (λ id. written)
          (λ k. true)
          (block "b2")
          (4 ∷ 5 ∷ 6 ∷ [])
          two_blocks).0
        ≡ done (landed (block "b2") s', evicted)))
    × IsValid crc s'
    × (s'.dram_bytes ≤ two_blocks.dram_capacity)
    × (s'.ssd_bytes ≤ two_blocks.ssd_capacity)
put_block-fits_example =
    put_block-fits crc (λ id. written) (λ k. true) (λ id. refl) (block "b2") (4 ∷ 5 ∷ 6 ∷ [])
      two_blocks two_blocks-IsValid

demote_to_ssd-failed_example :
    let s' = (demote_to_ssd crc (λ id. log_failed) (block "b0") one_block).1 in
    ((demote_to_ssd crc (λ id. log_failed) (block "b0") one_block).0 ≡ failed)
    × (get_raw (block "b0") s' ≡ none)
    × (tier_of (block "b0") s' ≡ some cpu_dram)
    × (demote_to_ssd crc (λ id. written) (block "b0") s' ≡ (done false, s'))
demote_to_ssd-failed_example =
    demote_to_ssd-failed crc (λ id. log_failed) (λ id. written) (block "b0") one_block (1 ∷ 2 ∷ [])
      (Reached-IsValid crc one_block one_block-Reached)
      (stored_bytes (block "b0") (1 ∷ 2 ∷ []) empty) (λ e. ground arith)

-- The block on the disk comes back, and the one in memory does not.
survivors :
    (get_raw (block "b0") (recover crc two_blocks.disk 3 4) ≡ some (1 ∷ 2 ∷ []))
    × (get_raw (block "b1") (recover crc two_blocks.disk 3 4) ≡ none)
unfolding recover get_raw demote_to_ssd put_dram create
survivors = (refl, refl)
