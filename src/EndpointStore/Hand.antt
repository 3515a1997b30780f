-- ===== src/EndpointStore/Hand.antt =====
-- The victims of crates/quillcache-transfer-engine/src/endpoint_store.rs and the SIEVE scan.
use quillcache.Prelude.{
  ℕ, zero, suc, ◌+◌, ◌*◌, ◌≤◌, ◌<◌, String, ◌≡◌, refl, sym, ◌∙◌, subst, inl, inr, Bool, true, false,
  Option, none, some, List, [], ◌∷◌, arith, str_eq, eq_iff, if◌then◌else◌, Bool-cases, length,
  get_elem?, remove_at,
}
use quillcache.StrMap.{StrMap, insert}
use quillcache.StrMap.Laws.{lookup-insert}
use quillcache.EndpointStore.{
  EndpointStore, EvictionPolicy, fifo, sieve, is_visited, wrap, sieve_scan, sieve_victim, pop_front,
  victim,
}

pub get_elem?-below :
    {X : Type 0} (xs : List X) (i : ℕ) → i < length xs → (x : X) × (get_elem? xs i ≡ some x)
get_elem?-below [] i h = absurd (omega arith)
get_elem?-below (x ∷ xs) zero h = (x, refl)
get_elem?-below (x ∷ xs) (suc i) h = get_elem?-below xs i (omega arith)

-- The second chances that are left.
chances : StrMap Bool → List String → ℕ
chances visited [] = 0
chances visited (k ∷ ks) =
    let rest = chances visited ks in if is_visited visited k then suc rest else rest

clears :
    (key k : String) (visited : StrMap Bool)
    → is_visited (insert key false visited) k
      ≡ (if str_eq key k then false else is_visited visited k)
clears key k visited = ground (arith, lookup-insert key k false visited)

chances-le :
    (key : String) (visited : StrMap Bool) (ks : List String)
    → chances (insert key false visited) ks ≤ chances visited ks
unfolding chances
chances-le key visited [] = omega arith
chances-le key visited (k ∷ ks) =
    rw (clears key k visited) (ground (arith, chances-le key visited ks))

chances-lt :
    (key : String) (visited : StrMap Bool) (ks : List String) (i : ℕ)
    → get_elem? ks i ≡ some key
    → is_visited visited key ≡ true
    → chances (insert key false visited) ks < chances visited ks
unfolding chances
chances-lt key visited [] i e v = ground arith
chances-lt key visited (k ∷ ks) zero e v =
    let same : k ≡ key = ground arith in
    rw (clears key k visited) (
      ground (
        arith,
        chances-le key visited ks,
        eq_iff key k,
        subst (λ x. is_visited visited x ≡ true) (sym same) v,
      ))
chances-lt key visited (k ∷ ks) (suc i) e v =
    rw (clears key k visited) (ground (arith, chances-lt key visited ks i e v))

chances-le-length : (visited : StrMap Bool) (ks : List String) → chances visited ks ≤ length ks
unfolding chances
chances-le-length visited [] = omega arith
chances-le-length visited (k ∷ ks) = ground (arith, chances-le-length visited ks)

abbrev Found : List String → Option (String × ℕ × StrMap Bool) → Type 0
Found order none = ⊥
Found order (some (key, at, visited)) = get_elem? order at ≡ some key

sieve_scan-Found :
    (fuel : ℕ) (order : List String) (hand : ℕ) (visited : StrMap Bool)
    → 0 < length order
    → chances visited order < fuel
    → Found order (sieve_scan fuel order hand visited)
unfolding sieve_scan
sieve_scan-Found zero order hand visited z f = absurd (omega arith)
sieve_scan-Found (suc fuel) order hand visited z f =
    let (key, e) = get_elem?-below order (wrap order hand) (ground arith) in
    elim (Bool-cases (is_visited visited key)) [
      | inr v ↦ rw (e, sieve_scan) (rw v e)
      | inl v ↦
          rw (e, sieve_scan)
            (rw v (
              sieve_scan-Found fuel order (wrap order hand + 1) (insert key false visited) z
                (omega (arith, f, chances-lt key visited order (wrap order hand) e v))))
    ]

-- The victim of a policy, the first of the order under FIFO, and what it leaves as it was.
abbrev pub Chosen : {V : Type 0} → EndpointStore V → Option String × EndpointStore V → Type 0
Chosen s (none, s') = ⊥
Chosen s (some key, s') =
    (at : ℕ) × (get_elem? s.order at ≡ some key)
    × (s'.order ≡ remove_at s.order at)
    × (s'.map ≡ s.map)
    × (s'.max_size ≡ s.max_size)
    × (s'.waiting ≡ s.waiting)
    × (s'.policy ≡ s.policy)
    × (s.policy ≡ fifo → at ≡ 0)

sieve_victim-Chosen :
    {V : Type 0} (s : EndpointStore V)
    → s.policy ≡ sieve
    → 0 < length s.order
    → Chosen s (sieve_victim s)
unfolding sieve_victim
sieve_victim-Chosen s by z =
    go (sieve_scan (2 * length s.order + 1) s.order s.hand s.visited) refl (
      sieve_scan-Found (2 * length s.order + 1) s.order s.hand s.visited z
        (omega (arith, chances-le-length s.visited s.order)))
  where
    go :
        (r : Option (String × ℕ × StrMap Bool))
        → sieve_scan (2 * length s.order + 1) s.order s.hand s.visited ≡ r
        → Found s.order r
        → Chosen s (sieve_victim s)
    go none e f = absurd f
    go (some (key, at, visited)) e f =
        let same : sieve_victim s
            ≡ (some key, record s { order = remove_at s.order at; hand = at; visited = visited }) =
          ground arith in
        subst (λ x. Chosen s x) (sym same)
          (at, f, refl, refl, refl, refl, refl, (λ q. absurd (ground (arith, sym by ∙ q))))

pop_front-Chosen :
    {V : Type 0} (s : EndpointStore V) (order : List String)
    → s.order ≡ order
    → 0 < length order
    → Chosen s (pop_front s)
unfolding pop_front
pop_front-Chosen s [] e z = absurd (omega arith)
pop_front-Chosen s (key ∷ rest) e z =
    let same : pop_front s ≡ (some key, record s { order = rest }) = ground arith in
    subst (λ x. Chosen s x) (sym same)
      (0, ground arith, ground arith, refl, refl, refl, refl, (λ q. refl))

by_fifo : {V : Type 0} (s : EndpointStore V) → s.policy ≡ fifo → victim s ≡ pop_front s
unfolding victim
by_fifo s e = ground arith

by_sieve : {V : Type 0} (s : EndpointStore V) → s.policy ≡ sieve → victim s ≡ sieve_victim s
unfolding victim
by_sieve s e = ground arith

-- Where there is an entry, either policy takes one out of the order.
pub victim-Chosen : {V : Type 0} (s : EndpointStore V) → 0 < length s.order → Chosen s (victim s)
unfolding victim
victim-Chosen s z = go s.policy refl
  where
    go : (p : EvictionPolicy) → s.policy ≡ p → Chosen s (victim s)
    go fifo e = subst (λ x. Chosen s x) (sym (by_fifo s e)) (pop_front-Chosen s s.order refl z)
    go sieve e = subst (λ x. Chosen s x) (sym (by_sieve s e)) (sieve_victim-Chosen s e z)
