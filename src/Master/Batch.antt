-- ===== src/Master/Batch.antt =====
-- The batch Put of crates/quillcache-store/src/master_service.rs.
use mathlib.Core.List.{append_assoc, append-nil}
use quillcache.Prelude.{
  ℕ, String, ◌≡◌, refl, sym, ap, ◌∙◌, subst, inl, inr, none, List, [], ◌∷◌, ◌++◌, map, arith, All,
}
use quillcache.Identity.{IdentityScope}
use quillcache.StrMap.{lookup}
use quillcache.StrMap.Laws.{lookup-remove, lookup-remove_self}
use quillcache.Allocator.{AllocatedBuffer}
use quillcache.Types.{ErrorCode, Result, ok, err, ReplicateConfig, Result-cases}
use quillcache.Master.{Master, Deps}
use quillcache.Master.Rewrite.{revoke_each, batch_from, batch_put_start}
use quillcache.Master.Objects.{put_revoke, put_start}

abbrev pub Item : Type 0
Item = String × IdentityScope × ℕ

module _ {A : Type 0} (D : Deps A) where
  abbrev pub Absent : Master A → String → Type 0
  Absent m k = lookup k m.objects ≡ none

  put_revoke-Absent : (m : Master A) (k j : String) → Absent m j → Absent (put_revoke D.ops k m).1 j
  unfolding put_revoke
  put_revoke-Absent m k j h = ground (arith, lookup-remove k j m.objects)

  put_revoke-Absent_self : (m : Master A) (k : String) → Absent (put_revoke D.ops k m).1 k
  unfolding put_revoke
  put_revoke-Absent_self m k = ground (arith, lookup-remove_self k m.objects)

  revoke_each-Absent :
      (m : Master A) (ks : List String) (j : String) → Absent m j → Absent (revoke_each D ks m) j
  unfolding revoke_each
  revoke_each-Absent m [] j h = h
  revoke_each-Absent m (k ∷ ks) j h =
      revoke_each-Absent (put_revoke D.ops k m).1 ks j (put_revoke-Absent m k j h)

  revoke_each-All : (m : Master A) (ks : List String) → All (Absent (revoke_each D ks m)) ks
  unfolding revoke_each
  revoke_each-All m [] = tt
  revoke_each-All m (k ∷ ks) = (
    revoke_each-Absent _ ks k (put_revoke-Absent_self m k),
    revoke_each-All (put_revoke D.ops k m).1 ks,
  )

  abbrev pub key_of : Item → String
  key_of it = it.0

  abbrev pub put_item : ReplicateConfig → Item → Master A → Result (List AllocatedBuffer) × Master A
  put_item config (key, identity, size) m = put_start D key identity size config m

  -- The Puts of the items, in order, each on what the one before it left, all succeed.
  abbrev pub Ran :
      ReplicateConfig → List Item → List (List AllocatedBuffer) → Master A → Master A → Type 0
  Ran config [] [] m m' = m' ≡ m
  Ran config [] (b ∷ bs) m m' = ⊥
  Ran config (it ∷ items) [] m m' = ⊥
  Ran config (it ∷ items) (b ∷ bs) m m' =
      ((put_item config it m).0 ≡ ok b) × Ran config items bs (put_item config it m).1 m'

  -- The keys revoked in order, each on what the one before it left.
  abbrev pub Revoked : List String → Master A → Master A → Type 0
  Revoked [] m m' = m' ≡ m
  Revoked (k ∷ ks) m m' = Revoked ks (put_revoke D.ops k m).1 m'

  revoke_each-Revoked : (ks : List String) (m : Master A) → Revoked ks m (revoke_each D ks m)
  unfolding revoke_each
  revoke_each-Revoked [] m = refl
  revoke_each-Revoked (k ∷ ks) m = revoke_each-Revoked ks (put_revoke D.ops k m).1

  -- Where a batch stopped: the Puts before the one that failed have run, that one fails on what
  -- they left, and on what it leaves their keys are revoked and are then all absent.
  abbrev pub Stopped :
      ReplicateConfig → List String → List Item → Master A → ErrorCode → Master A → Type 0
  Stopped config started items m e m' =
      (pre : List Item) × (bad : Item) × (post : List Item) × (bs : List (List AllocatedBuffer))
      × (m1 : Master A) × (items ≡ pre ++ bad ∷ post)
      × Ran config pre bs m m1
      × ((put_item config bad m1).0 ≡ err e)
      × Revoked (started ++ map key_of pre) (put_item config bad m1).1 m'
      × All (Absent m') (started ++ map key_of pre)

  abbrev pub Outcome :
      ReplicateConfig
      → List String
      → List (List AllocatedBuffer)
      → List Item
      → Master A
      → Result (List (List AllocatedBuffer)) × Master A
      → Type 0
  Outcome config started out items m (ok all, m') =
      (bs : List (List AllocatedBuffer)) × (all ≡ out ++ bs) × Ran config items bs m m'
  Outcome config started out items m (err e, m') = Stopped config started items m e m'

  append-one : {X : Type 0} (xs ys : List X) (x : X) → (xs ++ x ∷ []) ++ ys ≡ xs ++ x ∷ ys
  append-one xs ys x = append_assoc xs (x ∷ []) ys

  extend :
      (config : ReplicateConfig) (started : List String) (it : Item)
      (out : List (List AllocatedBuffer)) (buffers : List AllocatedBuffer) (items : List Item)
      (m : Master A) (r : Result (List (List AllocatedBuffer))) (m' : Master A)
      → (put_item config it m).0 ≡ ok buffers
      → Outcome config
          (started ++ key_of it ∷ [])
          (out ++ buffers ∷ [])
          items
          (put_item config it m).1
          (r, m')
      → Outcome config started out (it ∷ items) m (r, m')
  extend config started it out buffers items m (ok all) m' e (bs, same, ran) =
      (buffers ∷ bs, same ∙ append-one out bs buffers, (e, ran))
  extend config started it out buffers items m (err c) m' e
        (pre, bad, post, bs, m1, same, ran, fails, revoked, absent) =
      (
        it ∷ pre,
        bad,
        post,
        buffers ∷ bs,
        m1,
        ap (◌∷◌ it) same,
        (e, ran),
        fails,
        subst (λ ks. Revoked ks (put_item config bad m1).1 m')
            (append-one started (map key_of pre) (key_of it)) revoked,
        subst (All (Absent m')) (append-one started (map key_of pre) (key_of it)) absent,
      )

  batch_from-Outcome :
      (config : ReplicateConfig) (items : List Item) (started : List String)
      (out : List (List AllocatedBuffer)) (m : Master A)
      → Outcome config started out items m (batch_from D config started out items m)
  unfolding batch_from
  batch_from-Outcome config [] started out m = ([], sym (append-nil out), refl)
  batch_from-Outcome config ((key, identity, size) ∷ items) started out m =
      let m' = (put_start D key identity size config m).1 in
      elim (Result-cases (put_start D key identity size config m).0) [
        | inl (buffers, e) ↦
            let rest =
              batch_from-Outcome config items (started ++ key ∷ []) (out ++ buffers ∷ []) m' in
            let x = batch_from D config (started ++ key ∷ []) (out ++ buffers ∷ []) items m' in
            rw (e, batch_from)
              (extend config started (key, identity, size) out buffers items m x.0 x.1 e rest)
        | inr (c, e) ↦
            rw (e, batch_from)
              (
                [],
                (key, identity, size),
                items,
                [],
                m,
                refl,
                refl,
                e,
                subst (λ ks. Revoked ks m' (revoke_each D started m')) (sym (append-nil started))
                    (revoke_each-Revoked started m'),
                subst (All (Absent (revoke_each D started m'))) (sym (append-nil started))
                    (revoke_each-All m' started),
              )
      ]

  -- A batch Put runs the Puts of its items in order, each on what the one before it left. Where all
  -- of them succeed it answers their buffers and leaves what they leave. Otherwise it answers the
  -- error of the first that fails, and `put_revoke` then runs on the keys of the items before that
  -- one, in order, after which none of them is left in the object map.
  pub batch_put_start-atomic :
      (config : ReplicateConfig) (items : List Item) (m : Master A)
      → Outcome config [] [] items m (batch_put_start D items config m)
  unfolding batch_put_start
  batch_put_start-atomic config items m = batch_from-Outcome config items [] [] m
