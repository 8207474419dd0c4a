-- ===== src/Repository/Batch/Keys.antt =====
-- The keys of a batch: equality, and the two ways to look one up among the entries.
use svcmetrics.Base.{
  ℕ, suc, ◌≡◌, ◌↔◌, true, Option, none, some, List, [], ◌∷◌, arith, eq_iff, if◌then◌else◌,
}
use svcmetrics.Model.{Metrics}
use svcmetrics.Repository.Batch.{BatchKey, key_eq, key_of, absorb, merged}

pub key_eq_iff : (a b : BatchKey) → (key_eq a b ≡ true) ↔ (a ≡ b)
unfolding key_eq
key_eq_iff a b = (
  λ h. ground (arith, eq_iff a.mtype b.mtype, eq_iff a.id b.id),
  λ h. ground (arith, eq_iff a.mtype b.mtype, eq_iff a.id b.id),
)

abbrev pub suc_option : Option ℕ → Option ℕ
suc_option none = none
suc_option (some n) = some (suc n)

module _ {F : Type 0} where
  -- The first entry for a key.
  unfoldable pub find : BatchKey → List (Metrics F) → Option (Metrics F)
  find q [] = none
  find q (m ∷ ms) = if key_eq (key_of m) q then some m else find q ms

  -- Its position.
  unfoldable pub position : BatchKey → List (Metrics F) → Option ℕ
  position q [] = none
  position q (m ∷ ms) = if key_eq (key_of m) q then some 0 else suc_option (position q ms)

  pub key_of-absorb : (m o : Metrics F) → key_of (absorb m o) ≡ key_of o
  unfolding absorb
  key_of-absorb m o = ground arith

  pub key_of-merged : (m : Metrics F) → key_of (merged m) ≡ key_of m
  unfolding merged
  key_of-merged m = ground arith
