-- ===== src/Replication/Hotness.antt =====
-- The access counts of crates/quillcache-core/src/replication.rs: HotnessTracker.
use quillcache.Prelude.{
  ℕ, ◌/◌, ◌≡◌, refl, sym, ap, ◌∙◌, inl, inr, Bool, true, false, not, ◌&&◌, Option, none, some, List,
  [], ◌∷◌, arith, ltb, leb, ◌==◌, if◌then◌else◌, Bool-cases, keep, any, add32,
}
use quillcache.Identity.{KvBlockKey, from_key}
use quillcache.KeyMap.{KeyMap, find, put}
use quillcache.KeyMap.Laws.{find-put, Unique}
use quillcache.MemoryIndex.{ScopedHash, scoped_hash_key, scoped_hash_eq, scoped_hash_eq_iff}
use quillcache.MemoryIndex.Buckets.{has_key}

abbrev pub Counts : Type 0
Counts = KeyMap ScopedHash ℕ

abbrev pub touched : KvBlockKey → ScopedHash
touched block = (from_key block, block.prefix_hash)

abbrev pub count_or_zero : Option ℕ → ℕ
count_or_zero none = 0
count_or_zero (some n) = n

unfoldable pub count_of : ScopedHash → Counts → ℕ
unfolding find
count_of key counts = count_or_zero (find key counts)

-- The loop over the blocks, with the pairs that it has seen. A count wraps at 32 bits.
unfoldable pub record_each : List KvBlockKey → List ScopedHash → Counts → Counts
unfolding count_of put
record_each [] seen counts = counts
record_each (block ∷ blocks) seen counts =
    let key = touched block in
    let again = record_each blocks seen counts in
    let first_time =
      record_each blocks (key ∷ seen) (put key (add32 (count_of key counts) 1) counts) in
    if has_key key seen then again else first_time

unfoldable pub record_request : List KvBlockKey → Counts → Counts
unfolding record_each
record_request blocks counts = record_each blocks [] counts

unfoldable pub decay : Counts → Counts
decay [] = []
decay ((key, n) ∷ counts) =
    let rest = decay counts in if ltb 0 (n / 2) then (key, n / 2) ∷ rest else rest

unfoldable pub hot : ℕ → Counts → List (ScopedHash × ℕ)
hot threshold counts = keep (λ e. leb threshold e.1) counts

abbrev pub touches : ScopedHash → List KvBlockKey → Bool
touches key blocks = any (λ b. scoped_hash_eq (touched b) key) blocks

count_of-put :
    (key other : ScopedHash) (n : ℕ) (counts : Counts)
    → count_of key (put other n counts)
      ≡ (if scoped_hash_eq other key then n else count_of key counts)
unfolding count_of
count_of-put key other n counts =
    ap count_or_zero (find-put other key n counts)
    ∙ elim (Bool-cases (scoped_hash_eq other key)) [ inl y ↦ rw y refl | inr m ↦ rw m refl ]

-- A block whose pair was seen, and one whose pair is new: `b` says that it is the pair in question,
-- `t` that a later block has it, `h` that it was seen.
seen_round :
    (b t h : Bool) (a c : ℕ)
    → (b ≡ true → h ≡ true)
    → (if t && not h then a else c) ≡ (if (if b then true else t) && not h then a else c)
seen_round true t h a c e = rw (e refl) (ground arith)
seen_round false t h a c e = refl

new_round :
    (b t h : Bool) (c c' : ℕ)
    → (b ≡ true → h ≡ false)
    → c' ≡ (if b then add32 c 1 else c)
    → (if t && not (if b then true else h) then add32 c' 1 else c')
      ≡ (if (if b then true else t) && not h then add32 c 1 else c)
new_round true t h c c' e f = rw (e refl, f) (ground arith)
new_round false t h c c' e f = rw f refl

same_branch :
    (b : Bool) (x y c : ℕ) → (b ≡ true → x ≡ y) → (if b then x else c) ≡ (if b then y else c)
same_branch true x y c e = e refl
same_branch false x y c e = refl

record_each-count :
    (key : ScopedHash) (blocks : List KvBlockKey) (seen : List ScopedHash) (counts : Counts)
    → count_of key (record_each blocks seen counts) ≡ (
        if touches key blocks && not (has_key key seen)
        then add32 (count_of key counts) 1
        else count_of key counts)
unfolding record_each
record_each-count key [] seen counts = refl
record_each-count key (block ∷ blocks) seen counts =
    let this = touched block in
    let c = count_of key counts in
    let same : scoped_hash_eq this key ≡ true → this ≡ key = (scoped_hash_eq_iff this key).0 in
    elim (Bool-cases (has_key this seen)) [
      | inl y ↦
          rw (y, record_each)
            (record_each-count key blocks seen counts
              ∙ seen_round (scoped_hash_eq this key) (touches key blocks) (has_key key seen)
                  (add32 c 1) c (λ b. ap (λ x. has_key x seen) (sym (same b)) ∙ y))
      | inr n ↦
          let counts' = put this (add32 (count_of this counts) 1) counts in
          rw (n, record_each)
            (record_each-count key blocks (this ∷ seen) counts'
              ∙ new_round (scoped_hash_eq this key) (touches key blocks) (has_key key seen) c
                  (count_of key counts') (λ b. ap (λ x. has_key x seen) (sym (same b)) ∙ n)
                  (count_of-put key this (add32 (count_of this counts) 1) counts
                    ∙ same_branch (scoped_hash_eq this key) (add32 (count_of this counts) 1)
                        (add32 c 1) c (λ b. ap (λ x. add32 (count_of x counts) 1) (same b))))
    ]

-- A request adds one, at 32 bits, to the count of every pair of an identity and a prefix that some of
-- its blocks has, however many of them have it, and changes no other count.
pub record_request-count :
    (key : ScopedHash) (blocks : List KvBlockKey) (counts : Counts)
    → count_of key (record_request blocks counts)
      ≡ (if touches key blocks then add32 (count_of key counts) 1 else count_of key counts)
unfolding record_request
record_request-count key blocks counts =
    record_each-count key blocks [] counts
    ∙ ap (λ b. if b then add32 (count_of key counts) 1 else count_of key counts) (ground arith)

find-cons :
    (key k : ScopedHash) (n : ℕ) (counts : Counts)
    → find key ((k, n) ∷ counts) ≡ (if scoped_hash_eq k key then some n else find key counts)
unfolding find
find-cons key k n counts = refl

-- The half of a count, or nothing where the half is zero.
abbrev pub half : ℕ → Option ℕ
half n = if n / 2 == 0 then none else some (n / 2)

abbrev pub halved : Option ℕ → Option ℕ
halved none = none
halved (some n) = half n

-- An entry that is kept, and one that decays to nothing.
kept_entry :
    (b : Bool) (n : ℕ) (o o' : Option ℕ)
    → ltb 0 (n / 2) ≡ true
    → o' ≡ halved o
    → (if b then some (n / 2) else o') ≡ halved (if b then some n else o)
kept_entry true n o o' y e = ground arith
kept_entry false n o o' y e = e

gone_entry :
    (b : Bool) (n : ℕ) (o o' : Option ℕ)
    → (b ≡ true → o ≡ none)
    → ltb 0 (n / 2) ≡ false
    → o' ≡ halved o
    → o' ≡ halved (if b then some n else o)
gone_entry true n o o' z h e = e ∙ ap halved (z refl) ∙ (ground arith)
gone_entry false n o o' z h e = e

-- A decay of counts in which no pair occurs twice puts half the count, rounding down, in the place
-- of each count, and drops exactly the pairs whose half is zero. A pair without a count gets none.
pub decay-count :
    (key : ScopedHash) (counts : Counts)
    → Unique counts
    → find key (decay counts) ≡ halved (find key counts)
unfolding decay
decay-count key [] u = unfold find in refl
decay-count key ((k, n) ∷ counts) u =
    let b = scoped_hash_eq k key in
    let o = find key counts in
    let o' = find key (decay counts) in
    let rest = decay-count key counts u.1 in
    let whole : halved (if b then some n else o) ≡ halved (find key ((k, n) ∷ counts)) =
      sym (ap halved (find-cons key k n counts)) in
    let absent : b ≡ true → o ≡ none =
      λ y. ap (λ x. find x counts) (sym ((scoped_hash_eq_iff k key).0 y)) ∙ u.0 in
    elim (Bool-cases (ltb 0 (n / 2))) [
      | inl y ↦
          rw (y, decay)
            (find-cons key k (n / 2) (decay counts) ∙ kept_entry b n o o' y rest ∙ whole)
      | inr m ↦ rw (m, decay) (gone_entry b n o o' absent m rest ∙ whole)
    ]
