-- ===== src/OpLog/Examples.antt =====
-- A log whose entries are the removals of two keys, each encoded as one byte.
use quillcache.Prelude.{
  ℕ, ◌+◌, ◌*◌, ◌%◌, ◌≡◌, refl, Option, none, some, List, [], ◌∷◌, ◌++◌, arith, str_eq, ◌==◌,
  if◌then◌else◌, take,
}
use quillcache.Master.{OpLogEntry, removed, segment_mounted, segment_unmounted, put_committed}
use quillcache.OpLog.{append_all, read_back, frame}
use quillcache.OpLog.Torn.{read_back-torn}

abbrev to_vec : OpLogEntry → List ℕ
to_vec (removed key) = (if str_eq key "a" then 97 else 98) ∷ []
to_vec (segment_mounted name capacity) = 1 ∷ []
to_vec (segment_unmounted name) = 2 ∷ []
to_vec (put_committed key identity replicas soft hard) = 3 ∷ []

abbrev from_slice : List ℕ → Option OpLogEntry
from_slice [] = none
from_slice (b ∷ bs) =
    if b == 97 then some (removed "a") else if b == 98 then some (removed "b") else none

abbrev crc32 : List ℕ → ℕ
crc32 [] = 0
crc32 (b ∷ bs) = (b * 31 + 7) % 4294967296

abbrev log : List OpLogEntry
log = removed "a" ∷ removed "b" ∷ []

-- Five bytes of the third frame reach the disk.
read_back-torn_example :
    (read_back to_vec from_slice crc32 (some (append_all to_vec from_slice crc32 [] log)) ≡ log)
    × (read_back to_vec from_slice crc32 (
          some (
            append_all to_vec from_slice crc32 [] log
            ++ take 5 (frame to_vec from_slice crc32 (removed "a"))))
        ≡ log)
read_back-torn_example =
    read_back-torn to_vec from_slice crc32 log (removed "a") 5
      ((refl, omega arith, omega arith), ((refl, omega arith, omega arith), tt)) (omega arith)
      (unfold frame in omega arith)
