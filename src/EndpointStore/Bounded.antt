-- ===== src/EndpointStore/Bounded.antt =====
-- The bound of the cache of crates/quillcache-transfer-engine/src/endpoint_store.rs.
use quillcache.Prelude.{
  ℕ, ◌+◌, ◌≤◌, ◌<◌, String, ◌≡◌, refl, sym, ap, ◌∙◌, subst, ◌≢◌, ◌⊎◌, inl, inr, Bool, true, Option,
  none, some, [], ◌∷◌, ◌++◌, arith, str_eq, eq_iff, leb, if◌then◌else◌, leb→le, Bool-cases,
  Option-cases, length, get_elem?, remove_at, All, length-append, All-append,
}
use quillcache.StrMap.{lookup, insert, remove, contains_key}
use quillcache.StrMap.Laws.{
  Distinct, lookup-insert, lookup-remove, lookup-insert_self, length-insert_absent, insert-Distinct,
  remove-Distinct,
}
use quillcache.Strategy.Sort.{NoDup, All-weaken}
use quillcache.EndpointStore.{
  fifo, EndpointStore, discard, victim, evict_one, add_entry, get_or_insert,
}
use quillcache.EndpointStore.Hand.{Chosen, victim-Chosen}
use quillcache.EndpointStore.Removal.{
  length-remove_at, remove_at-All, get_elem?-All, remove_at-NoDup, remove_at-apart, All-both,
  length-remove_once, NoDup-append,
}

-- The order lists the keys of the map, each once, and the map is not larger than allowed.
pub record IsValid {V : Type 0} (s : EndpointStore V) : Type 0 where
  pub positive : 0 < s.max_size
  pub distinct : Distinct s.map
  pub bounded : length s.map ≤ s.max_size
  pub unique : NoDup s.order
  pub listed : All (λ k. contains_key k s.map ≡ true) s.order
  pub counted : length s.order ≡ length s.map

-- What makes room: one listed key leaves, the first of the order under FIFO, its connection waits
-- while it is in use, and nothing else changes in the map, the order or what waits.
pub record Evicted {V : Type 0} (in_use : V → Bool) (s s' : EndpointStore V) : Type 0 where
  pub key : String
  pub conn : V
  pub at : ℕ
  pub listed : get_elem? s.order at ≡ some key
  pub first : s.policy ≡ fifo → at ≡ 0
  pub held : lookup key s.map ≡ some conn
  pub map : (j : String) → lookup j s'.map ≡ (if str_eq key j then none else lookup j s.map)
  pub fewer : length s'.map + 1 ≡ length s.map
  pub order : s'.order ≡ remove_at s.order at
  pub waiting : s'.waiting ≡ (if in_use conn then s.waiting ++ conn ∷ [] else s.waiting)
  pub kept : (s'.max_size ≡ s.max_size) × (s'.policy ≡ s.policy)

module _ {V : Type 0} (in_use : V → Bool) where
  abbrev Shrunk : EndpointStore V → EndpointStore V → Type 0
  Shrunk s s' = IsValid s' × Evicted in_use s s'

  discard-Shrunk :
      (s s' : EndpointStore V) (key : String)
      → Chosen s (some key, s')
      → IsValid s
      → Shrunk s (discard in_use (some key, s'))
  unfolding discard
  discard-Shrunk s s' key (at, e, o, m, mx, w, pol, first) v =
      elim (Option-cases (lookup key s'.map)) [
        | inl n ↦ absurd (missing n)
        | inr (conn, n) ↦ subst (λ x. Shrunk s x) (sym (result conn n)) (shrunk conn n)
      ]
    where
      missing : lookup key s'.map ≡ none → ⊥
      missing n =
          let absent : lookup key s.map ≡ none = subst (λ x. lookup key x ≡ none) m n in
          let inside = get_elem?-All (λ k. contains_key k s.map ≡ true) s.order at key e v.listed in
          ground arith

      left : V → EndpointStore V
      left conn = record s' {
        visited = remove key s'.visited;
        map = remove key s'.map;
        waiting = if in_use conn then s'.waiting ++ conn ∷ [] else s'.waiting;
      }

      result :
          (conn : V) → lookup key s'.map ≡ some conn → discard in_use (some key, s') ≡ left conn
      result conn n = ground arith

      shrunk : (conn : V) → lookup key s'.map ≡ some conn → Shrunk s (left conn)
      shrunk conn n =
          let d : Distinct s'.map = subst Distinct (sym m) v.distinct in
          let less = length-remove_once key conn s'.map d n in
          let same : length s'.map ≡ length s.map = ap length m in
          let shorter = length-remove_at s.order at key e in
          let same_order : length s'.order ≡ length (remove_at s.order at) = ap length o in
          let apart = remove_at-apart s.order at key e v.unique in
          let kept = remove_at-All (λ k. contains_key k s.map ≡ true) s.order at v.listed in
          let there =
            subst (λ x. All (λ k. (key ≢ k) × (contains_key k x ≡ true)) (remove_at s.order at))
              (sym m)
              (All-both (λ k. key ≢ k) (λ k. contains_key k s.map ≡ true) (remove_at s.order at)
                apart kept) in
          (
            record {
              positive = omega (arith, v.positive, mx);
              distinct = remove-Distinct key s'.map d;
              bounded = omega (arith, less, same, v.bounded, mx);
              unique = subst NoDup (sym o) (remove_at-NoDup s.order at v.unique);
              listed = subst (All (λ k. contains_key k (remove key s'.map) ≡ true)) (sym o) (
                  All-weaken (λ k. (key ≢ k) × (contains_key k s'.map ≡ true))
                    (λ k. contains_key k (remove key s'.map) ≡ true)
                    (λ k h. ground (arith, h.0, h.1, lookup-remove key k s'.map, eq_iff key k))
                    (remove_at s.order at) there);
              counted = omega (arith, less, same, shorter, same_order, v.counted);
            },
            record {
              key = key;
              conn = conn;
              at = at;
              listed = e;
              first = first;
              held = subst (λ x. lookup key x ≡ some conn) m n;
              map = λ j.
                  lookup-remove key j s'.map
                  ∙ ap (λ x. if str_eq key j then none else lookup j x) m;
              fewer = omega (arith, less, same);
              order = o;
              waiting = ap (λ x. if in_use conn then x ++ conn ∷ [] else x) w;
              kept = (mx, pol);
            },
          )

  evict_one-Shrunk :
      (s : EndpointStore V) → IsValid s → 0 < length s.order → Shrunk s (evict_one in_use s)
  unfolding evict_one
  evict_one-Shrunk s v z = go (victim s) refl (victim-Chosen s z)
    where
      go :
          (r : Option String × EndpointStore V)
          → victim s ≡ r
          → Chosen s r
          → Shrunk s (discard in_use (victim s))
      go (none, s') e c = absurd c
      go (some key, s') e c =
          subst (λ x. Shrunk s (discard in_use x)) (sym e) (discard-Shrunk s s' key c v)

  add_entry-IsValid :
      (key : String) (conn : V) (s : EndpointStore V)
      → IsValid s
      → lookup key s.map ≡ none
      → length s.map < s.max_size
      → IsValid (add_entry in_use key conn s)
  unfolding add_entry
  add_entry-IsValid key conn s v n room =
      let longer = length-insert_absent key conn s.map n in
      let grown = length-append s.order (key ∷ []) in
      record {
        positive = v.positive;
        distinct = insert-Distinct key conn s.map v.distinct;
        bounded = omega (arith, longer);
        unique =
            NoDup-append s.order key
              (All-weaken (λ k. contains_key k s.map ≡ true) (λ k. k ≢ key)
                (λ k h same. ground (arith, h, n, subst (λ x. contains_key x s.map ≡ true) same h))
                s.order v.listed)
              v.unique;
        listed =
            All-append (λ k. contains_key k (insert key conn s.map) ≡ true) s.order (key ∷ [])
              (All-weaken (λ k. contains_key k s.map ≡ true)
                (λ k. contains_key k (insert key conn s.map) ≡ true)
                (λ k h. ground (arith, h, lookup-insert key k conn s.map)) s.order v.listed)
              (ground (arith, lookup-insert_self key conn s.map), tt);
        counted = omega (arith, longer, grown, v.counted);
      }

  -- What a miss leaves: the new entry at the end, in a store that had room or has been given room.
  abbrev pub Kept : String → V → EndpointStore V → EndpointStore V → Type 0
  Kept key conn s s' =
      (roomy : EndpointStore V) × (((length s.map < s.max_size) × (roomy ≡ s))
        ⊎ ((s.max_size ≤ length s.map) × Evicted in_use s roomy))
      × ((j : String) → lookup j s'.map ≡ (if str_eq key j then some conn else lookup j roomy.map))
      × (s'.order ≡ roomy.order ++ key ∷ [])
      × (s'.waiting ≡ roomy.waiting)
      × (s'.max_size ≡ s.max_size)
      × (s'.policy ≡ s.policy)

  -- A hit changes the mark of the key alone.
  abbrev pub Marked : EndpointStore V → EndpointStore V → Type 0
  Marked s s' = s' ≡ record s { visited = s'.visited }

  -- What the answer is, and what the store then holds.
  abbrev pub Answer : String → Option V → EndpointStore V → Option V × EndpointStore V → Type 0
  Answer key made s (none, s') = (s' ≡ s) × (lookup key s.map ≡ none) × (made ≡ none)
  Answer key made s (some conn, s') =
      (lookup key s'.map ≡ some conn)
      × (((lookup key s.map ≡ some conn) × Marked s s')
          ⊎ ((lookup key s.map ≡ none) × (made ≡ some conn) × Kept key conn s s'))

  with_room :
      (s : EndpointStore V) (key : String)
      → IsValid s
      → lookup key s.map ≡ none
      → let s' = if leb s.max_size (length s.map) then evict_one in_use s else s in
        IsValid s'
        × (lookup key s'.map ≡ none)
        × (length s'.map < s'.max_size)
        × (((length s.map < s.max_size) × (s' ≡ s))
            ⊎ ((s.max_size ≤ length s.map) × Evicted in_use s s'))
        × (s'.max_size ≡ s.max_size)
        × (s'.policy ≡ s.policy)
  with_room s key v n = elim (Bool-cases (leb s.max_size (length s.map))) [
    | inr e ↦ rw e (v, n, ground arith, inl (ground arith, refl), refl, refl)
    | inl e ↦
        let (ok, gone) = evict_one-Shrunk s v (ground (arith, v.positive, v.counted)) in
        rw e (
          ok,
          ground (arith, gone.map key, n),
          omega (arith, gone.fewer, gone.kept.0, v.bounded),
          inr (leb→le _ _ e, gone),
          gone.kept.0,
          gone.kept.1,
        )
  ]

  -- From a valid cache, whatever is asked for: the cache never holds more than `max_size` entries and
  -- its order lists each of them once. A hit answers the connection that is there and changes only
  -- what is marked as visited. A miss answers and keeps the one that `make` gives, at the end of the
  -- order: where there was room no other entry changes, and where the cache was full exactly one
  -- other entry leaves, under FIFO the first of the order, whose connection waits if it is in use.
  -- Where `make` fails nothing changes.
  pub get_or_insert-Bounded :
      (key : String) (made : Option V) (s : EndpointStore V)
      → IsValid s
      → IsValid (get_or_insert in_use key made s).1
        × Answer key made s (get_or_insert in_use key made s)
  unfolding get_or_insert
  get_or_insert-Bounded key made s v = elim (Option-cases (lookup key s.map)) [
    | inr (conn, e) ↦
        rw (e, get_or_insert)
          (
            record {
              positive = v.positive;
              distinct = v.distinct;
              bounded = v.bounded;
              unique = v.unique;
              listed = v.listed;
              counted = v.counted;
            },
            (e, inl (e, refl)),
          )
    | inl e ↦ miss made e
  ]
    where
      miss :
          (o : Option V)
          → lookup key s.map ≡ none
          → IsValid (get_or_insert in_use key o s).1 × Answer key o s (get_or_insert in_use key o s)
      miss none e = rw (e, get_or_insert) (v, (refl, e, refl))
      miss (some conn) e =
          let s' = if leb s.max_size (length s.map) then evict_one in_use s else s in
          let (ok, absent, room, how, size, policy) = with_room s key v e in
          rw (e, get_or_insert)
            (
              add_entry-IsValid key conn s' ok absent room,
              (
                (unfold add_entry in lookup-insert_self key conn s'.map),
                inr (
                  e,
                  refl,
                  (
                    s',
                    how,
                    (λ j. unfold add_entry in lookup-insert key j conn s'.map),
                    (unfold add_entry in refl),
                    (unfold add_entry in refl),
                    (unfold add_entry in size),
                    (unfold add_entry in policy),
                  ),
                ),
              ),
            )
