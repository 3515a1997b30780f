-- ===== src/OpLog/Frames.antt =====
-- One frame of crates/quillcache-store/src/op_log.rs, written and read.
use quillcache.Prelude.{
  ℕ, zero, suc, ◌+◌, ◌/◌, ◌%◌, ◌<◌, ◌≡◌, refl, none, some, List, ◌++◌, arith, length, take,
  length-append, length-take-le, take-append, drop-append,
}
use quillcache.OpLog.{to_le_bytes, from_le_bytes, header, next_frame}

le_bytes :
    (n : ℕ)
    → n < 4294967296
    → from_le_bytes (n % 256) (n / 256 % 256) (n / 65536 % 256) (n / 16777216 % 256) ≡ n
le_bytes n h = omega arith

-- A frame whose length and checksum fit 32 bits is read back, with what stands behind it.
pub next_frame-frame :
    (payload tail : List ℕ) (crc : ℕ)
    → length payload < 4294967296
    → crc < 4294967296
    → next_frame (to_le_bytes (length payload) ++ (to_le_bytes crc ++ (payload ++ tail)))
      ≡ some (payload, crc, tail)
unfolding next_frame header
next_frame-frame payload tail crc l c =
    rw (le_bytes (length payload) l, le_bytes crc c)
      (ground
        (arith, length-append payload tail, take-append payload tail, drop-append payload tail))

-- A proper prefix of a frame is not read.
pub next_frame-torn :
    (payload : List ℕ) (crc k : ℕ)
    → length payload < 4294967296
    → k < length payload + 8
    → next_frame (take k (to_le_bytes (length payload) ++ (to_le_bytes crc ++ payload))) ≡ none
unfolding next_frame header
next_frame-torn payload crc zero l h = refl
next_frame-torn payload crc (suc zero) l h = refl
next_frame-torn payload crc (suc (suc zero)) l h = refl
next_frame-torn payload crc (suc (suc (suc zero))) l h = refl
next_frame-torn payload crc (suc (suc (suc (suc zero)))) l h = refl
next_frame-torn payload crc (suc (suc (suc (suc (suc zero))))) l h = refl
next_frame-torn payload crc (suc (suc (suc (suc (suc (suc zero)))))) l h = refl
next_frame-torn payload crc (suc (suc (suc (suc (suc (suc (suc zero))))))) l h = refl
next_frame-torn payload crc (suc (suc (suc (suc (suc (suc (suc (suc j)))))))) l h =
    rw (le_bytes (length payload) l, next_frame) (ground (arith, length-take-le j payload))
