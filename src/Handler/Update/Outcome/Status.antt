-- ===== src/Handler/Update/Outcome/Status.antt =====
-- internal/handler: the status of the answer to a storage error.
use svcmetrics.Base.{ℕ, ◌≡◌, refl, ◌⊎◌, inl, inr, true, false, arith, Bool-cases, ◌≤◌}
use svcmetrics.Errors.{Err, has, is_not_found, is_invalid_metric, is_deadline_exceeded}
use svcmetrics.Handler.{Codec, write_storage_error, storage_status}

-- The status of a storage error, by what is in its chain.
abbrev pub IsStatusOf : Err → ℕ → Type 0
IsStatusOf e code =
    ((has is_not_found e ≡ true) × (code ≡ 404))
    ⊎ ((has is_not_found e ≡ false) × (has is_invalid_metric e ≡ true) × (code ≡ 400))
    ⊎ ((has is_not_found e ≡ false)
        × (has is_invalid_metric e ≡ false)
        × (has is_deadline_exceeded e ≡ true)
        × (code ≡ 504))
    ⊎ ((has is_not_found e ≡ false)
        × (has is_invalid_metric e ≡ false)
        × (has is_deadline_exceeded e ≡ false)
        × (code ≡ 500))

module _ {F : Type 0} (c : Codec F) where
  -- The answer to a storage error is one of four statuses, none of them a success.
  pub write_storage_error_status :
      (e : Err)
      → ((write_storage_error c e).status ≡ storage_status e)
        × (400 ≤ (write_storage_error c e).status)
        × ((write_storage_error c e).status ≤ 504)
  unfolding write_storage_error
  write_storage_error_status e = ground arith

  pub write_storage_error-IsStatusOf : (e : Err) → IsStatusOf e (write_storage_error c e).status
  unfolding write_storage_error
  write_storage_error-IsStatusOf e = elim (Bool-cases (has is_not_found e)) [
    | inl a ↦ inl (a, rw a refl)
    | inr a ↦ elim (Bool-cases (has is_invalid_metric e)) [
      | inl b ↦ inr (inl (a, b, rw (a, b) refl))
      | inr b ↦ elim (Bool-cases (has is_deadline_exceeded e)) [
        | inl d ↦ inr (inr (inl (a, b, d, rw (a, b, d) refl)))
        | inr d ↦ inr (inr (inr (a, b, d, rw (a, b, d) refl)))
      ]
    ]
  ]
