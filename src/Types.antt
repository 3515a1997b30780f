-- ===== src/Types.antt =====
-- crates/quillcache-store/src/types.rs: replication settings and the store's error codes, with the
-- result type of the operations that return them.
use quillcache.Prelude.{ℕ, max, String, ◌≡◌, refl, ◌⊎◌, inl, inr, Bool, false, Option, none}
use quillcache.Identity.{ReuseViolation}

pub record ReplicateConfig : Type 0 where
  pub replica_num : ℕ
  pub with_soft_pin : Bool
  pub with_hard_pin : Bool
  pub preferred_segment : Option String

-- `ReplicateConfig::replicas`: at least one replica, no pin.
unfoldable pub replicas_of : ℕ → ReplicateConfig
replicas_of n = record {
  replica_num = max n 1;
  with_soft_pin = false;
  with_hard_pin = false;
  preferred_segment = none;
}

pub data ErrorCode : Type 0 where
  object_not_found object_already_exists object_not_ready segment_not_found : ErrorCode
  no_available_segment buffer_overflow invalid_replica : ErrorCode
  io : String → ErrorCode
  unsafe_reuse : ReuseViolation → ErrorCode

pub data Result {ℓ} (A : Type ℓ) : Type ℓ where
  ok : A → Result A
  err : ErrorCode → Result A

pub Result-cases {ℓ} :
    {A : Type ℓ} (r : Result A) → ((a : A) × (r ≡ ok a)) ⊎ ((e : ErrorCode) × (r ≡ err e))
Result-cases (ok a) = inl (a, refl)
Result-cases (err e) = inr (e, refl)
