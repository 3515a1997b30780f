-- ===== src/Allocator/Ordered.antt =====
-- The operations of `BTreeMap<u64, u64>` that the allocators of
-- crates/quillcache-store/src/allocator.rs use, on a list of entries in ascending key order.
use quillcache.Prelude.{ℕ, max, Option, none, some, List, [], ◌∷◌, ltb, leb, ◌==◌, if◌then◌else◌}

abbrev pub Regions : Type 0
Regions = List (ℕ × ℕ)

-- `insert`: overwrites the value of a present key.
unfoldable pub insert_key : ℕ → ℕ → Regions → Regions
insert_key k v [] = (k, v) ∷ []
insert_key k v ((j, w) ∷ m) =
    if ltb k j
    then (k, v) ∷ (j, w) ∷ m
    else if k == j
    then (k, v) ∷ m
    else (j, w) ∷ insert_key k v m

unfoldable pub remove_key : ℕ → Regions → Regions
remove_key k [] = []
remove_key k ((j, w) ∷ m) = if k == j then m else (j, w) ∷ remove_key k m

-- `iter().find(|(_, &len)| len >= size)`.
unfoldable pub find_fit : ℕ → Regions → Option (ℕ × ℕ)
find_fit size [] = none
find_fit size ((o, l) ∷ m) = if leb size l then some (o, l) else find_fit size m

abbrev pub or_else {ℓ} : {A : Type ℓ} → Option A → A → Option A
or_else none a = some a
or_else (some b) a = some b

-- `range(..k).next_back()`.
unfoldable pub last_below : ℕ → Regions → Option (ℕ × ℕ)
last_below k [] = none
last_below k ((o, l) ∷ m) =
    let later = last_below k m in if ltb o k then or_else later (o, l) else none

-- `range(..=k).next_back()`.
unfoldable pub last_upto : ℕ → Regions → Option (ℕ × ℕ)
last_upto k [] = none
last_upto k ((o, l) ∷ m) =
    let later = last_upto k m in if leb o k then or_else later (o, l) else none

-- `range(k..).next()`.
unfoldable pub first_from : ℕ → Regions → Option (ℕ × ℕ)
first_from k [] = none
first_from k ((o, l) ∷ m) = if leb k o then some (o, l) else first_from k m

-- `values().max().unwrap_or(0)`.
unfoldable pub max_value : Regions → ℕ
max_value [] = 0
max_value ((o, l) ∷ m) = max l (max_value m)
