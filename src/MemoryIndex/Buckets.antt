-- ===== src/MemoryIndex/Buckets.antt =====
-- A reverse index of crates/quillcache-core/src/lib.rs: sets of block keys under a key, where a set
-- that becomes empty is dropped.
use quillcache.Prelude.{
  ◌≡◌, refl, ap, ◌∙◌, inl, inr, Bool, true, false, not, ◌&&◌, ◌||◌, Option, none, some, List, [],
  ◌∷◌, arith, if◌then◌else◌, Option-cases, keep, any,
}
use quillcache.KeyMap.{KeyEq, KeyMap, find, put, delete}
use quillcache.KeyMap.Laws.{find-put, find-delete}

abbrev pub bucket_of : {K : Type 0} → Option (List K) → List K
bucket_of none = []
bucket_of (some ks) = ks

-- A `HashSet` as a list.
module _ {K : Type 0} ⦃f : KeyEq K⦄ where
  abbrev pub has_key : K → List K → Bool
  has_key k ks = any (λ x. f.beq x k) ks

  abbrev pub insert_key : K → List K → List K
  insert_key k ks = if has_key k ks then ks else k ∷ ks

  -- A set without the keys of a list.
  abbrev pub without_keys : List K → List K → List K
  without_keys gone ks = keep (λ x. not (has_key x gone)) ks

  has_key-same : (x a : K) (ks : List K) → f.beq x a ≡ true → has_key x ks ≡ has_key a ks
  has_key-same x a ks y = ap (λ k. has_key k ks) ((f.beq_iff x a).0 y)

  has_key-insert_key :
      (a k : K) (ks : List K) → has_key a (insert_key k ks) ≡ (f.beq k a || has_key a ks)
  has_key-insert_key a k ks = ground (arith, has_key-same k a ks)

  has_key-without_keys :
      (a : K) (gone ks : List K)
      → has_key a (without_keys gone ks) ≡ (has_key a ks && not (has_key a gone))
  has_key-without_keys a gone [] = refl
  has_key-without_keys a gone (x ∷ ks) =
      ground (arith, has_key-same x a gone, has_key-without_keys a gone ks)

module _ {J K : Type 0} ⦃e : KeyEq J⦄ ⦃f : KeyEq K⦄ where
  abbrev pub bucket : J → KeyMap J (List K) → List K
  bucket j m = bucket_of (find j m)

  abbrev pub put_bucket : J → List K → KeyMap J (List K) → KeyMap J (List K)
  put_bucket j [] m = delete j m
  put_bucket j (k ∷ ks) m = put j (k ∷ ks) m

  unfoldable pub add_key : J → K → KeyMap J (List K) → KeyMap J (List K)
  unfolding find put
  add_key j k m = put j (insert_key k (bucket j m)) m

  unfoldable pub discard_keys : J → List K → KeyMap J (List K) → KeyMap J (List K)
  unfolding find put delete
  discard_keys j gone m = elim (find j m) [
    | none ↦ m
    | some ks ↦ put_bucket j (without_keys gone ks) m
  ]

  -- Whether a key is listed under another.
  abbrev pub lists : J → K → KeyMap J (List K) → Bool
  lists j k m = has_key k (bucket j m)

  found :
      (o : Option (List K)) (i : J) (a : K) (m : KeyMap J (List K)) (b : Bool)
      (m' : KeyMap J (List K))
      → find i m' ≡ (if b then o else find i m)
      → lists i a m' ≡ (if b then has_key a (bucket_of o) else lists i a m)
  found o i a m b m' q = ap (λ x. has_key a (bucket_of x)) q ∙ ground arith

  put_bucket-lists :
      (i j : J) (a : K) (ks : List K) (m : KeyMap J (List K))
      → lists i a (put_bucket j ks m) ≡ (if e.beq j i then has_key a ks else lists i a m)
  put_bucket-lists i j a [] m = found none i a m (e.beq j i) (delete j m) (find-delete j i m)
  put_bucket-lists i j a (k ∷ ks) m =
      found (some (k ∷ ks)) i a m (e.beq j i) (put j (k ∷ ks) m) (find-put j i (k ∷ ks) m)

  lists-same :
      (i j : J) (a : K) (m : KeyMap J (List K)) → e.beq j i ≡ true → lists j a m ≡ lists i a m
  lists-same i j a m y = ap (λ x. lists x a m) ((e.beq_iff j i).0 y)

  pub lists-add_key :
      (i j : J) (a k : K) (m : KeyMap J (List K))
      → lists i a (add_key j k m) ≡ ((e.beq j i && f.beq k a) || lists i a m)
  unfolding add_key
  lists-add_key i j a k m =
      found (some (insert_key k (bucket j m))) i a m (e.beq j i) (add_key j k m)
        (find-put j i (insert_key k (bucket j m)) m)
      ∙ ground (arith, has_key-insert_key a k (bucket j m), lists-same i j a m)

  pub lists-discard_keys :
      (i j : J) (a : K) (gone : List K) (m : KeyMap J (List K))
      → lists i a (discard_keys j gone m) ≡ (lists i a m && not (e.beq j i && has_key a gone))
  unfolding discard_keys
  lists-discard_keys i j a gone m = elim (Option-cases (find j m)) [
    | inl o ↦
        let here : lists j a m ≡ false = ap (λ x. has_key a (bucket_of x)) o in
        rw (o, discard_keys) (ground (arith, here, lists-same i j a m))
    | inr (ks, o) ↦
        let here : lists j a m ≡ has_key a ks = ap (λ x. has_key a (bucket_of x)) o in
        rw (o, discard_keys)
          (put_bucket-lists i j a (without_keys gone ks) m
            ∙ ground (arith, has_key-without_keys a gone ks, here, lists-same i j a m))
  ]
