-- ===== src/EndpointStore.antt =====
-- crates/quillcache-transfer-engine/src/endpoint_store.rs: the bounded cache of connections. The
-- count of references of an `Arc` is the parameter `in_use`, which says whether anyone else holds
-- the connection, and `make` has been run when its result is handed in.
pub mod Hand
pub mod Removal
pub mod Bounded
mod Examples
use quillcache.Prelude.{
  ℕ, zero, suc, ◌+◌, ◌-◌, ◌*◌, ◌/◌, ◌%◌, ◌^◌, ◌≤◌, ◌<◌, min, max, String, ◌≡◌, refl, sym, ap, ◌∙◌,
  subst, ◌≢◌, ◌↔◌, ◌⊎◌, inl, inr, Bool, true, false, not, ◌&&◌, ◌||◌, false≢true, Option, none,
  some, List, [], ◌∷◌, ◌++◌, map, arith, str_eq, eq_iff, ltb, leb, ◌==◌, if◌then◌else◌, ltb→lt,
  lt→ltb, leb→le, ==_iff, Bool-cases, Option-cases, length, get_elem?, set, get_or, take, drop,
  replicate, remove_at, keep, any, All, length-append, length-set, length-keep-le, length-map,
  length-take-le, take-append, drop-append, All-append, u64_mod, u64_max, u32_mod, add64, sub64,
  mul64, add32, sub32,
}
use quillcache.StrMap.{StrMap, lookup, insert, remove}

pub data EvictionPolicy : Type 0 where
  fifo sieve : EvictionPolicy

pub record EndpointStore (V : Type 0) : Type 0 where
  pub max_size : ℕ
  pub policy : EvictionPolicy
  pub map : StrMap V
  pub visited : StrMap Bool
  pub order : List String
  pub hand : ℕ
  pub waiting : List V

abbrev pub is_visited : StrMap Bool → String → Bool
is_visited visited key = elim (lookup key visited) [ none ↦ false | some b ↦ b ]

-- A turn of the loop of `sieve_victim`: the hand back at the front, and the key under it.
abbrev pub wrap : List String → ℕ → ℕ
wrap order hand = if leb (length order) hand then 0 else hand

-- The loop, on fuel: the victim with the hand and the bits that the scan leaves.
unfoldable pub sieve_scan : ℕ → List String → ℕ → StrMap Bool → Option (String × ℕ × StrMap Bool)
unfolding lookup insert
sieve_scan zero order hand visited = none
sieve_scan (suc fuel) order hand visited =
    let at = wrap order hand in
    elim (get_elem? order at) [
      | none ↦ none
      | some key ↦ elim (is_visited visited key) [
        | true ↦ sieve_scan fuel order (at + 1) (insert key false visited)
        | false ↦ some (key, at, visited)
      ]
    ]

module _ {V : Type 0} where
  unfoldable pub create : ℕ → EvictionPolicy → EndpointStore V
  create max_size policy = record {
    max_size = max max_size 1;
    policy = policy;
    map = [];
    visited = [];
    order = [];
    hand = 0;
    waiting = [];
  }

  -- Every entry has one second chance, so two turns around the order are enough.
  unfoldable pub sieve_victim : EndpointStore V → Option String × EndpointStore V
  unfolding sieve_scan
  sieve_victim s = elim (sieve_scan (2 * length s.order + 1) s.order s.hand s.visited) [
    | none ↦ (none, s)
    | some (key, hand, visited) ↦
        (some key, record s { order = remove_at s.order hand; hand = hand; visited = visited })
  ]

  unfoldable pub pop_front : EndpointStore V → Option String × EndpointStore V
  pop_front s = elim s.order [ [] ↦ (none, s) | key ∷ rest ↦ (some key, record s { order = rest }) ]

  unfoldable pub victim : EndpointStore V → Option String × EndpointStore V
  unfolding sieve_victim pop_front
  victim s = elim s.policy [ fifo ↦ pop_front s | sieve ↦ sieve_victim s ]

module _ {V : Type 0} (in_use : V → Bool) where
  -- The victim leaves the map; while it is in use it waits to be reclaimed.
  unfoldable pub discard : Option String × EndpointStore V → EndpointStore V
  unfolding lookup remove
  discard (none, s) = s
  discard (some key, s) = elim (lookup key s.map) [
    | none ↦ record s { visited = remove key s.visited }
    | some conn ↦ record s {
      visited = remove key s.visited;
      map = remove key s.map;
      waiting = if in_use conn then s.waiting ++ conn ∷ [] else s.waiting;
    }
  ]

  unfoldable pub evict_one : EndpointStore V → EndpointStore V
  unfolding victim discard
  evict_one s = discard (victim s)

  -- `push_back` and the two inserts on a miss.
  unfoldable pub add_entry : String → V → EndpointStore V → EndpointStore V
  unfolding insert
  add_entry key conn s = record s {
    map = insert key conn s.map;
    visited = insert key false s.visited;
    order = s.order ++ key ∷ [];
  }

  -- `made` is what `make` answers on a miss; `none` is its error, which changes nothing.
  unfoldable pub get_or_insert : String → Option V → EndpointStore V → Option V × EndpointStore V
  unfolding lookup insert evict_one add_entry
  get_or_insert key made s = elim (lookup key s.map) [
    | some conn ↦ (some conn, record s { visited = insert key true s.visited })
    | none ↦ elim made [
      | none ↦ (none, s)
      | some conn ↦
          (some conn, add_entry key conn (if leb s.max_size (length s.map) then evict_one s else s))
    ]
  ]

  unfoldable pub reclaim : EndpointStore V → EndpointStore V
  reclaim s = record s { waiting = keep in_use s.waiting }
