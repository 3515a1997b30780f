-- ===== src/OpLog/Torn.antt =====
-- Replay of the log of crates/quillcache-store/src/op_log.rs, whole or torn by a crash.
use mathlib.Core.List.{append_assoc, append-nil}
use quillcache.Prelude.{
  ℕ, zero, suc, ◌+◌, ◌≤◌, ◌<◌, ◌≡◌, refl, sym, ◌∙◌, subst, Option, none, some, List, [], ◌∷◌, ◌++◌,
  arith, ==_iff, length, take, All, length-append,
}
use quillcache.Master.{OpLogEntry}
use quillcache.OpLog.{header, next_frame, frame, append, append_all, replay_loop, read_back}
use quillcache.OpLog.Frames.{next_frame-frame, next_frame-torn}

module _ (to_vec : OpLogEntry → List ℕ) (from_slice : List ℕ → Option OpLogEntry)
    (crc32 : List ℕ → ℕ) where
  -- The entry's JSON is read back, and its length and checksum fit 32 bits.
  abbrev pub Encodes : OpLogEntry → Type 0
  Encodes entry =
      (from_slice (to_vec entry) ≡ some entry)
      × (length (to_vec entry) < 4294967296)
      × (crc32 (to_vec entry) < 4294967296)

  abbrev frames : List OpLogEntry → List ℕ
  frames [] = []
  frames (entry ∷ entries) = frame to_vec from_slice crc32 entry ++ frames entries

  append_all-frames :
      (file : List ℕ) (entries : List OpLogEntry)
      → append_all to_vec from_slice crc32 file entries ≡ file ++ frames entries
  unfolding append_all append
  append_all-frames file [] = sym (append-nil file)
  append_all-frames file (entry ∷ entries) =
      append_all-frames (file ++ frame to_vec from_slice crc32 entry) entries
      ∙ append_assoc file (frame to_vec from_slice crc32 entry) (frames entries)

  frame-tail :
      (entry : OpLogEntry) (tail : List ℕ)
      → Encodes entry
      → next_frame (frame to_vec from_slice crc32 entry ++ tail)
        ≡ some (to_vec entry, crc32 (to_vec entry), tail)
  unfolding frame
  frame-tail entry tail e = next_frame-frame (to_vec entry) tail (crc32 (to_vec entry)) e.1 e.2

  length-frame :
      (entry : OpLogEntry)
      → length (frame to_vec from_slice crc32 entry) ≡ length (to_vec entry) + 8
  unfolding frame
  length-frame entry = omega arith

  replay_loop-frames :
      (entries : List OpLogEntry) (tail : List ℕ) (fuel : ℕ)
      → All Encodes entries
      → next_frame tail ≡ none
      → length entries ≤ fuel
      → replay_loop to_vec from_slice crc32 fuel (frames entries ++ tail) ≡ entries
  unfolding replay_loop
  replay_loop-frames [] tail zero h t f = refl
  replay_loop-frames [] tail (suc fuel) h t f = rw (t, replay_loop) refl
  replay_loop-frames (entry ∷ entries) tail zero h t f = absurd (omega arith)
  replay_loop-frames (entry ∷ entries) tail (suc fuel) h t f =
      let rest = replay_loop-frames entries tail fuel h.1 t (omega arith) in
      ground (
        arith,
        h.0.0,
        append_assoc (frame to_vec from_slice crc32 entry) (frames entries) tail,
        frame-tail entry (frames entries ++ tail) h.0,
        ==_iff (crc32 (to_vec entry)) (crc32 (to_vec entry)),
      )

  length-frames : (entries : List OpLogEntry) → length entries ≤ length (frames entries)
  length-frames [] = omega arith
  length-frames (entry ∷ entries) = omega (
    arith,
    length-frames entries,
    length-frame entry,
    length-append (frame to_vec from_slice crc32 entry) (frames entries),
  )

  read_back-frames :
      (entries : List OpLogEntry) (tail : List ℕ)
      → All Encodes entries
      → next_frame tail ≡ none
      → read_back to_vec from_slice crc32
          (some (append_all to_vec from_slice crc32 [] entries ++ tail))
        ≡ entries
  unfolding read_back
  read_back-frames entries tail h t = rw (append_all-frames [] entries) (
      replay_loop-frames entries tail (length (frames entries ++ tail)) h t
        (omega (arith, length-append (frames entries) tail, length-frames entries)))

  -- What is appended to an empty log is replayed in order. A crash in the middle of one more append
  -- leaves a proper prefix of its frame behind, however long, and then replay still gives exactly
  -- the entries before it. The JSON of every entry must be read back, and the lengths and checksums
  -- must fit 32 bits.
  pub read_back-torn :
      (entries : List OpLogEntry) (lost : OpLogEntry) (k : ℕ)
      → All Encodes entries
      → length (to_vec lost) < 4294967296
      → k < length (frame to_vec from_slice crc32 lost)
      → (read_back to_vec from_slice crc32 (some (append_all to_vec from_slice crc32 [] entries))
          ≡ entries)
        × (read_back to_vec from_slice crc32 (
              some (
                append_all to_vec from_slice crc32 [] entries
                ++ take k (frame to_vec from_slice crc32 lost)))
            ≡ entries)
  read_back-torn entries lost k h l f = (
    subst (λ file. read_back to_vec from_slice crc32 (some file) ≡ entries)
        (append-nil (append_all to_vec from_slice crc32 [] entries))
        (read_back-frames entries [] h (unfold next_frame header in refl)),
    read_back-frames entries (take k (frame to_vec from_slice crc32 lost)) h (
        unfold frame in
        next_frame-torn (to_vec lost) (crc32 (to_vec lost)) k l (omega (arith, length-frame lost))),
  )
