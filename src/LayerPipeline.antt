-- ===== src/LayerPipeline.antt =====
-- crates/quillcache-transfer-engine/src/slice_pool.rs: run_layers_with_notify, which moves the layers of
-- a block with a bounded number in flight and reports them in order. A state is what the function
-- holds between two completions; the tasks complete in any order.
pub mod Release
pub mod Valid
pub mod Order
pub mod Runs
pub mod Slices
mod Examples
use quillcache.Prelude.{
  ℕ, zero, suc, ◌+◌, ◌-◌, ◌*◌, ◌/◌, ◌%◌, ◌^◌, ◌≤◌, ◌<◌, min, max, String, ◌≡◌, refl, sym, ap, ◌∙◌,
  subst, ◌≢◌, ◌↔◌, ◌⊎◌, inl, inr, Bool, true, false, not, ◌&&◌, ◌||◌, false≢true, Option, none,
  some, List, [], ◌∷◌, ◌++◌, map, arith, str_eq, eq_iff, ltb, leb, ◌==◌, if◌then◌else◌, ltb→lt,
  lt→ltb, leb→le, ==_iff, Bool-cases, Option-cases, length, get_elem?, set, get_or, take, drop,
  replicate, remove_at, keep, any, All, length-append, length-set, length-keep-le, length-map,
  length-take-le, take-append, drop-append, All-append, u64_mod, u64_max, u32_mod, add64, sub64,
  mul64, add32, sub32,
}

abbrev pub has : ℕ → List ℕ → Bool
has i xs = any (λ x. x == i) xs

abbrev pub without : ℕ → List ℕ → List ℕ
without i xs = keep (λ x. not (x == i)) xs

module _ (E : Type 0) where
  pub record Pipeline : Type 0 where
    pub next_idx : ℕ
    pub in_flight : List ℕ
    pub done : List ℕ
    pub watermark : ℕ
    pub notified : List ℕ
    pub first_err : Option E

module _ {E : Type 0} where
  abbrev pub is_healthy : Option E → Bool
  is_healthy none = true
  is_healthy (some e) = false

  -- `get_or_insert`.
  abbrev pub first_of : Option E → E → Option E
  first_of none e = some e
  first_of (some e0) e = some e0

  unfoldable pub launch : Pipeline E → Pipeline E
  launch s = record s { next_idx = s.next_idx + 1; in_flight = s.in_flight ++ s.next_idx ∷ [] }

  -- The first loop: as many tasks as may be in flight.
  unfoldable pub prime : ℕ → ℕ → Pipeline E → Pipeline E
  unfolding launch
  prime n zero s = s
  prime n (suc room) s = let s' = prime n room (launch s) in if ltb s.next_idx n then s' else s

  unfoldable pub start : ℕ → ℕ → Pipeline E
  unfolding prime
  start n max_inflight = prime n (max max_inflight 1) (record {
    next_idx = 0;
    in_flight = [];
    done = [];
    watermark = 0;
    notified = [];
    first_err = none;
  })

  -- `while done.remove(&watermark)`; a round takes an element out of `done`.
  unfoldable pub release : ℕ → Pipeline E → Pipeline E
  release zero s = s
  release (suc fuel) s =
      let s' = release fuel (record s {
        done = without s.watermark s.done;
        watermark = s.watermark + 1;
        notified = s.notified ++ s.watermark ∷ [];
      }) in
      if has s.watermark s.done then s' else s

  unfoldable pub refill : ℕ → Pipeline E → Pipeline E
  unfolding launch
  refill n s = if is_healthy s.first_err && ltb s.next_idx n then launch s else s

  -- A layer has landed, with the tasks that are left.
  unfoldable pub land : ℕ → ℕ → List ℕ → Pipeline E → Pipeline E
  unfolding release refill
  land n i rest s =
      let s' = record s { in_flight = rest; done = if has i s.done then s.done else i ∷ s.done } in
      refill n (if is_healthy s.first_err then release (length s'.done + 1) s' else s')

  -- A task has failed.
  unfoldable pub fail : ℕ → E → List ℕ → Pipeline E → Pipeline E
  unfolding refill
  fail n e rest s = refill n (record s { in_flight = rest; first_err = first_of s.first_err e })

  -- What `join_next` may give: any task that is in flight.
  pub data Completes (n : ℕ) : Pipeline E → Pipeline E → Type 0 where
    landed :
        (s : Pipeline E) (before after : List ℕ) (i : ℕ)
        → s.in_flight ≡ before ++ i ∷ after
        → Completes n s (land n i (before ++ after) s)
    broke :
        (s : Pipeline E) (before after : List ℕ) (i : ℕ) (e : E)
        → s.in_flight ≡ before ++ i ∷ after
        → Completes n s (fail n e (before ++ after) s)

  pub data Reached (n max_inflight : ℕ) : Pipeline E → Type 0 where
    primed : Reached n max_inflight (start n max_inflight)
    completed :
        (s s' : Pipeline E)
        → Reached n max_inflight s
        → Completes n s s'
        → Reached n max_inflight s'
