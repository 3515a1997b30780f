-- ===== src/Master/Rewrite.antt =====
-- The batch Put and the upsert of crates/quillcache-store/src/master_service.rs.
use quillcache.Prelude.{ℕ, String, not, none, some, List, [], ◌∷◌, ◌++◌, ltb, ◌==◌, if◌then◌else◌}
use quillcache.Identity.{IdentityScope}
use quillcache.StrMap.{lookup, insert}
use quillcache.Allocator.{AllocatedBuffer}
use quillcache.Types.{Result, ok, err, ReplicateConfig, object_not_ready}
use quillcache.Replica.{initialized, data_size}
use quillcache.Master.{Master, Deps, ObjectMetadata, has_complete_replica}
use quillcache.Master.Objects.{put_start, put_revoke, with_status, buffers_of, first_size}

module _ {A : Type 0} (D : Deps A) where
  -- The keys already started are revoked, whatever each revoke answers.
  unfoldable pub revoke_each : List String → Master A → Master A
  unfolding put_revoke
  revoke_each [] m = m
  revoke_each (k ∷ ks) m = revoke_each ks (put_revoke D.ops k m).1

  unfoldable pub batch_from :
      ReplicateConfig
      → List String
      → List (List AllocatedBuffer)
      → List (String × IdentityScope × ℕ)
      → Master A
      → Result (List (List AllocatedBuffer)) × Master A
  unfolding put_start revoke_each
  batch_from config started out [] m = (ok out, m)
  batch_from config started out ((key, identity, size) ∷ items) m =
      let (r, m') = put_start D key identity size config m in
      elim r [
        | err e ↦ (err e, revoke_each started m')
        | ok buffers ↦ batch_from config (started ++ key ∷ []) (out ++ buffers ∷ []) items m'
      ]

  unfoldable pub batch_put_start :
      List (String × IdentityScope × ℕ)
      → ReplicateConfig
      → Master A
      → Result (List (List AllocatedBuffer)) × Master A
  unfolding batch_from
  batch_put_start items config m = batch_from config [] [] items m

  -- The in-place branch: the same buffers, open for writing again.
  unfoldable pub reopen :
      String → IdentityScope → ObjectMetadata → Master A → Result (List AllocatedBuffer) × Master A
  unfolding insert buffers_of
  reopen key identity o m = (
    ok (buffers_of o.replicas),
    record m {
      objects =
          insert key
            (record o {
              identity = identity;
              last_access = m.clock;
              replicas = with_status initialized o.replicas;
            })
            m.objects;
    },
  )

  unfoldable pub upsert_start :
      String
      → IdentityScope
      → ℕ
      → ReplicateConfig
      → Master A
      → Result (List AllocatedBuffer) × Master A
  unfolding lookup has_complete_replica data_size put_start reopen put_revoke
  upsert_start key identity size config m = elim (lookup key m.objects) [
    | none ↦ put_start D key identity size config m
    | some o ↦
        if not (has_complete_replica o)
        then put_start D key identity size config m
        else if ltb m.clock o.lease_until
        then (err object_not_ready, m)
        else if first_size o.replicas == size
        then reopen key identity o m
        else put_start D key identity size config (put_revoke D.ops key m).1
  ]
