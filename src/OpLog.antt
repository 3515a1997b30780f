-- ===== src/OpLog.antt =====
-- crates/quillcache-store/src/op_log.rs: the append-only log file, as its bytes. The JSON of an
-- entry and the checksum are other libraries' and are the parameters of the section.
pub mod Frames
pub mod Torn
mod Examples
use quillcache.Prelude.{
  ℕ, zero, suc, ◌+◌, ◌-◌, ◌*◌, ◌/◌, ◌%◌, ◌^◌, ◌≤◌, ◌<◌, min, max, String, ◌≡◌, refl, sym, ap, ◌∙◌,
  subst, ◌≢◌, ◌↔◌, ◌⊎◌, inl, inr, Bool, true, false, not, ◌&&◌, ◌||◌, false≢true, Option, none,
  some, List, [], ◌∷◌, ◌++◌, map, arith, str_eq, eq_iff, ltb, leb, ◌==◌, if◌then◌else◌, ltb→lt,
  lt→ltb, leb→le, ==_iff, Bool-cases, Option-cases, length, get_elem?, set, get_or, take, drop,
  replicate, remove_at, keep, any, All, length-append, length-set, length-keep-le, length-map,
  length-take-le, take-append, drop-append, All-append, u64_mod, u64_max, u32_mod, add64, sub64,
  mul64, add32, sub32,
}
use quillcache.Master.{OpLogEntry}

-- `u32::to_le_bytes`, with the `as u32` before it, and `u32::from_le_bytes`.
abbrev pub to_le_bytes : ℕ → List ℕ
to_le_bytes n = (n % 256) ∷ (n / 256 % 256) ∷ (n / 65536 % 256) ∷ (n / 16777216 % 256) ∷ []

abbrev pub from_le_bytes : ℕ → ℕ → ℕ → ℕ → ℕ
from_le_bytes a b c d = a + 256 * b + 65536 * c + 16777216 * d

-- What `replay` reads at one position: the length, the checksum and the bytes that follow, or
-- nothing where fewer than eight bytes are left.
unfoldable pub header : List ℕ → Option (ℕ × ℕ × List ℕ)
header (a ∷ b ∷ c ∷ d ∷ e ∷ f ∷ g ∷ h ∷ rest) =
    some (from_le_bytes a b c d, from_le_bytes e f g h, rest)
header bytes = none

-- The payload at one position with its checksum and the bytes behind it; nothing for a torn tail.
-- A 32-bit length added to a position does not overflow 64 bits.
unfoldable pub next_frame : List ℕ → Option (List ℕ × ℕ × List ℕ)
unfolding header
next_frame bytes = elim (header bytes) [
  | none ↦ none
  | some (len, crc, rest) ↦
      if ltb (length rest) len then none else some (take len rest, crc, drop len rest)
]

module _ (to_vec : OpLogEntry → List ℕ) (from_slice : List ℕ → Option OpLogEntry)
    (crc32 : List ℕ → ℕ) where
  unfoldable pub frame : OpLogEntry → List ℕ
  frame entry =
      let payload = to_vec entry in
      to_le_bytes (length payload) ++ (to_le_bytes (crc32 payload) ++ payload)

  unfoldable pub append : List ℕ → OpLogEntry → List ℕ
  unfolding frame
  append file entry = file ++ frame entry

  -- The loop of `replay`; every round takes at least eight bytes.
  unfoldable pub replay_loop : ℕ → List ℕ → List OpLogEntry
  unfolding next_frame
  replay_loop zero bytes = []
  replay_loop (suc fuel) bytes = elim (next_frame bytes) [
    | none ↦ []
    | some (payload, crc, rest) ↦ elim (crc32 payload == crc) [
      | false ↦ []
      | true ↦ elim (from_slice payload) [ none ↦ [] | some entry ↦ entry ∷ replay_loop fuel rest ]
    ]
  ]

  -- A missing file replays to no entries.
  unfoldable pub read_back : Option (List ℕ) → List OpLogEntry
  unfolding replay_loop
  read_back none = []
  read_back (some bytes) = replay_loop (length bytes) bytes

  unfoldable pub append_all : List ℕ → List OpLogEntry → List ℕ
  unfolding append
  append_all file [] = file
  append_all file (entry ∷ entries) = append_all (append file entry) entries
