-- ===== src/EndpointStore/Examples.antt =====
-- A full SIEVE cache of two connections.
use quillcache.Prelude.{
  ℕ, ◌≡◌, refl, Bool, true, false, false≢true, some, [], ◌∷◌, arith, eq_iff, leb,
}
use quillcache.StrMap.{lookup}
use quillcache.EndpointStore.{EndpointStore, sieve, get_or_insert}
use quillcache.EndpointStore.Bounded.{IsValid, Answer, get_or_insert-Bounded}

abbrev full : EndpointStore ℕ
full = record {
  max_size = 2;
  policy = sieve;
  map = ("a", 1) ∷ ("b", 2) ∷ [];
  visited = ("a", true) ∷ ("b", false) ∷ [];
  order = "a" ∷ "b" ∷ [];
  hand = 0;
  waiting = [];
}

abbrev in_use : ℕ → Bool
in_use n = leb 2 n

full-IsValid : IsValid full
unfolding lookup
full-IsValid = record {
  positive = omega arith;
  distinct = (refl, (refl, tt));
  bounded = omega arith;
  unique = (((λ same. false≢true ((eq_iff "a" "b").1 same)), tt), (tt, tt));
  listed = (refl, (refl, tt));
  counted = refl;
}

-- "a" has its second chance, "b" leaves, and its connection is still in use.
get_or_insert-Bounded_example :
    IsValid (get_or_insert in_use "c" (some 3) full).1
    × Answer in_use "c" (some 3) full (get_or_insert in_use "c" (some 3) full)
get_or_insert-Bounded_example = get_or_insert-Bounded in_use "c" (some 3) full full-IsValid

second_chance :
    ((get_or_insert in_use "c" (some 3) full).1.order ≡ "a" ∷ "c" ∷ [])
    × ((get_or_insert in_use "c" (some 3) full).1.waiting ≡ 2 ∷ [])
unfolding get_or_insert
second_chance = (refl, refl)
