-- ===== src/DiskTier/Examples.antt =====
-- An object of two tenants on a fresh disk.
use quillcache.Prelude.{String, ◌≡◌, refl, false, none, [], ◌∷◌, length, u64_max}
use quillcache.Identity.{IdentityScope}
use quillcache.BlockStore.{Bytes, Disk, written}
use quillcache.BlockStore.Valid.{IsValid, create-IsValid}
use quillcache.Types.{ok}
use quillcache.DiskTier.{open_tier, recover_tier, put_object, get_object}
use quillcache.DiskTier.Durable.{put_object-recover_tier}

abbrev no_disk : Disk
no_disk = record { undeletable = λ id. false; files = []; wal = [] }

abbrev tenant : String → IdentityScope
tenant id = record { model_id = "m"; tokenizer_id = "t"; adapter_id = none; tenant_id = id }

abbrev data_bytes : Bytes
data_bytes = 9 ∷ 8 ∷ 7 ∷ []

open_tier-IsValid : IsValid length (open_tier no_disk).store
unfolding open_tier
open_tier-IsValid = create-IsValid length no_disk 0 u64_max (λ id. refl)

put_object-recover_tier_example :
    let t' =
      (put_object length
        (λ id. written)
        "disk full"
        "obj"
        (tenant "a")
        data_bytes
        (open_tier no_disk)).1 in
    ((get_object "obj" (tenant "a") t').0 ≡ ok data_bytes)
    × ((get_object "obj" (tenant "a") (recover_tier length t'.store.disk)).0 ≡ ok data_bytes)
put_object-recover_tier_example =
    put_object-recover_tier length (λ id. written) (λ id. refl) "disk full" "obj" (tenant "a")
      data_bytes (open_tier no_disk) open_tier-IsValid
