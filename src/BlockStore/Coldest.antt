-- ===== src/BlockStore/Coldest.antt =====
-- The victims that crates/quillcache-store/src/lib.rs chooses: LocalKvStore::coldest_in.
use quillcache.Prelude.{
  ℕ, ◌≤◌, ◌≡◌, refl, sym, ap, ◌∙◌, subst, inl, inr, Bool, true, false, none, some, [], ◌∷◌, arith,
  ltb, if◌then◌else◌, Bool-cases, Option-cases, length,
}
use quillcache.Identity.{KvBlockKey}
use quillcache.KeyMap.{KeyMap, nat_key, find}
use quillcache.KeyMap.Laws.{total, find-first, find-later, Unique}
use quillcache.BlockStore.{CacheTier, block_key, BlockMeta, LocalKvStore}
use quillcache.BlockStore.Policy.{coldest, coldest_in}

-- How many blocks pass a test.
abbrev pub one : {V : Type 0} → (V → Bool) → V → ℕ
one is m = if is m then 1 else 0

pub total-one-le :
    {V : Type 0} (is : V → Bool) (l : KeyMap KvBlockKey V) → total (one is) l ≤ length l
unfolding total
total-one-le is [] = omega arith
total-one-le is ((k, m) ∷ l) = ground (arith, total-one-le is l)

pub coldest-none :
    {V : Type 0} (is : V → Bool) (access : V → ℕ) (size : V → ℕ) (l : KeyMap KvBlockKey V)
    → Unique l
    → ((k : KvBlockKey) (m : V) → find k l ≡ some m → is m ≡ false → size m ≡ 0)
    → coldest is access l ≡ none
    → total size l ≡ 0
unfolding coldest total
coldest-none is access size [] u z e = refl
coldest-none is access size ((k, m) ∷ l) u z e = elim (Bool-cases (is m)) [
  | inl y ↦ elim (Option-cases (coldest is access l)) [
    | inl o ↦ absurd (ground arith)
    | inr ((k', a), o) ↦ absurd (ground arith)
  ]
  | inr n ↦
      let rest : coldest is access l ≡ none = ground arith in
      let own = z k m (find-first k m l) n in
      let others =
        coldest-none is access size l u.1 (λ j w f x. z j w (find-later k j m w l u.0 f) x) rest in
      omega (arith, own, others)
]

-- What is chosen is an entry that passes the test.
pub coldest-some :
    {V : Type 0} (is : V → Bool) (access : V → ℕ) (l : KeyMap KvBlockKey V) (k : KvBlockKey) (a : ℕ)
    → Unique l
    → coldest is access l ≡ some (k, a)
    → (m : V) × (find k l ≡ some m) × (is m ≡ true)
unfolding coldest
coldest-some is access [] k a u e = absurd (ground arith)
coldest-some is access ((j, m0) ∷ l) k a u e = elim (Bool-cases (is m0)) [
  | inr n ↦
      let (m, f, y) = coldest-some is access l k a u.1 (ground arith) in
      (m, find-later j k m0 m l u.0 f, y)
  | inl y ↦ elim (Option-cases (coldest is access l)) [
    | inl o ↦
        let same : j ≡ k = ground arith in
        (m0, subst (λ x. find x ((j, m0) ∷ l) ≡ some m0) same (find-first j m0 l), y)
    | inr ((k', a'), o) ↦ elim (Bool-cases (ltb a' (access m0))) [
      | inl t ↦
          let (m, f, z) = coldest-some is access l k a u.1 (ground arith) in
          (m, find-later j k m0 m l u.0 f, z)
      | inr t ↦
          let same : j ≡ k = ground arith in
          (m0, subst (λ x. find x ((j, m0) ∷ l) ≡ some m0) same (find-first j m0 l), y)
    ]
  ]
]

-- What `coldest_in` finds, and what it means that it finds nothing.
pub coldest_in-some :
    (is : CacheTier → Bool) (s : LocalKvStore) (k : KvBlockKey)
    → Unique s.meta
    → coldest_in is s ≡ some k
    → (m : BlockMeta) × (find k s.meta ≡ some m) × (is m.tier ≡ true)
unfolding coldest_in
coldest_in-some is s k u e =
    elim (Option-cases (coldest (λ m. is m.tier) (λ m. m.last_access) s.meta)) [
      | inl o ↦ absurd (unfold coldest_in in ground arith)
      | inr ((k', a), o) ↦
          let found : coldest_in is s ≡ some k' = rw (o, coldest_in) refl in
          let same : k' ≡ k = ground (arith, sym found ∙ e) in
          coldest-some (λ m. is m.tier) (λ m. m.last_access) s.meta k a u
            (o ∙ ap (λ x. some (x, a)) same)
    ]

pub coldest_in-none :
    (is : CacheTier → Bool) (size : BlockMeta → ℕ) (s : LocalKvStore)
    → Unique s.meta
    → ((k : KvBlockKey) (m : BlockMeta) → find k s.meta ≡ some m → is m.tier ≡ false → size m ≡ 0)
    → coldest_in is s ≡ none
    → total size s.meta ≡ 0
coldest_in-none is size s u z e =
    elim (Option-cases (coldest (λ m. is m.tier) (λ m. m.last_access) s.meta)) [
      | inl o ↦ coldest-none (λ m. is m.tier) (λ m. m.last_access) size s.meta u z o
      | inr ((k', a), o) ↦ absurd (unfold coldest_in in ground arith)
    ]
