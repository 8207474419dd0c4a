-- ===== src/Retry/Bounds.antt =====
-- How often an operation is called and how long its pauses last.
use svcmetrics.Base.{
  ℕ, suc, ◌+◌, ◌*◌, ◌/◌, ◌^◌, ◌≤◌, ◌<◌, ◌≡◌, sym, ap, Bool, true, false, Bool-cases, Option, none,
  some, List, [], ◌∷◌, length, inl, inr, arith, All,
}
use mathlib.Core.Path.{subst}
use svcmetrics.Base.Word.{Int64, add64, not_positive}
use svcmetrics.Errors.{Err}
use svcmetrics.Retry.{
  Config, Runtime, Operation, intervals, default_intervals, retriable, notify, with_jitter, wait,
  pause_after, after_pause, after_attempt, attempts, do_value, second,
}

-- rand.N(n) of a positive n is below n.
abbrev pub RandBelow : {S : Type 0} → Runtime S → Type 0
RandBelow rt = (n : Int64) (s : _) → 0 < n → (rt.rand_n n s).0 < n

module _ {S : Type 0} (rt : Runtime S) where
  -- Where rand.N stays below its bound, a positive pause that fits into an int64 with its quarter is
  -- stretched by at most a quarter, and never shortened.
  pub with_jitter_bounds :
      (d : Int64) (s : S)
      → RandBelow rt
      → 0 < d
      → d + d / 4 < 2 ^ 63
      → (d ≤ (with_jitter rt d s).0) × ((with_jitter rt d s).0 ≤ d + d / 4)
  unfolding with_jitter not_positive add64
  with_jitter_bounds d s below pos fits = ground (arith, below (add64 (d / 4) 1) s)

module _ {S A : Type 0} (rt : Runtime S) (c : Config S) (fn : Operation S A) where
  -- What holds of the world at each way out of a round holds of the world that it leaves.
  after_pause_world :
      (Q : S → Type 0) (again : Operation S A) (res : A) (e : Err) (p : Bool × S)
      → Q p.1
      → Q (again p.1).2
      → Q (after_pause rt c fn again res e p).2
  unfolding after_pause
  after_pause_world Q again res e (true, s) stop go = go
  after_pause_world Q again res e (false, s) stop go = stop

  after_attempt_world :
      (Q : S → Type 0) (k : ℕ) (d : Int64) (again : Operation S A) (r : A × Option Err × S)
      → Q r.2
      → ((e : Err) → Q (pause_after rt c e (k + 1) d r.2).1)
      → ((e : Err) → Q (again (pause_after rt c e (k + 1) d r.2).1).2)
      → Q (after_attempt rt c fn k d again r).2
  unfolding after_attempt
  after_attempt_world Q k d again (res, none, s) stop cut go = stop
  after_attempt_world Q k d again (res, some e, s) stop cut go = elim (Bool-cases (retriable c e)) [
    | inl more ↦ rw more (after_pause_world Q again res e _ (cut e) (go e))
    | inr last ↦ rw last stop
  ]

  -- A count `calls` that the operation raises by one and a pause leaves alone.
  module _ (calls : S → ℕ) (one_call : (s : S) → calls (fn s).2 ≡ suc (calls s))
      (no_call : (e : Err) (k : ℕ) (d : Int64) (s : S)
        → calls (pause_after rt c e k d s).1 ≡ calls s) where
    abbrev Between : ℕ → ℕ → ℕ → Type 0
    Between lo n hi = (lo ≤ n) × (n ≤ hi)

    attempts_calls :
        (k : ℕ) (ds : List Int64) (s : S)
        → Between (suc (calls s)) (calls (attempts rt c fn k ds s).2) (suc (calls s) + length ds)
    unfolding attempts
    attempts_calls k [] s = omega (arith, one_call s)
    attempts_calls k (d ∷ ds) s =
        after_attempt_world
          (λ t. Between (suc (calls s)) (calls t) (suc (calls s) + suc (length ds))) k d
          (attempts rt c fn (k + 1) ds) (fn s) (omega (arith, one_call s))
          (λ e. omega (arith, one_call s, no_call e (k + 1) d (fn s).2))
          (λ e.
            let t = (pause_after rt c e (k + 1) d (fn s).2).1 in
            omega (arith, one_call s, no_call e (k + 1) d (fn s).2, attempts_calls (k + 1) ds t))

    -- Where a call of the operation raises a count by one and a pause leaves it, DoValue raises it by
    -- at least one, and by at most one more than its schedule has pauses.
    pub do_value_calls :
        (s : S)
        → (suc (calls s) ≤ calls (do_value rt c fn s).2)
          × (calls (do_value rt c fn s).2 ≤ suc (calls s) + length (intervals c))
    unfolding do_value
    do_value_calls s = attempts_calls 0 (intervals c) s

  -- A sum `slept` to which a call adds at most `call`, and the timer at most what it is set to: the time asked
  -- for.
  module _ (slept : S → ℕ) (call : ℕ) (quick : (s : S) → slept (fn s).2 ≤ slept s + call)
      (quiet : (e : Err) (k : ℕ) (d : Int64) (s : S) → slept (notify c e k d s) ≡ slept s)
      (timer : (d : Int64) (s : S) → slept (rt.select_timer d s).1 ≤ slept s + d)
      (random : (n : Int64) (s : S) → slept (rt.rand_n n s).1 ≡ slept s)
      (below : RandBelow rt) where
    abbrev Fits : Int64 → Type 0
    Fits d = (0 < d) × (d + d / 4 < 2 ^ 63)

    -- The longest that the calls and the pauses of a schedule can be.
    abbrev budget : List Int64 → ℕ
    budget [] = call
    budget (d ∷ ds) = call + (d + d / 4) + budget ds

    slept-with_jitter : (d : Int64) (s : S) → slept (with_jitter rt d s).1 ≡ slept s
    unfolding with_jitter
    slept-with_jitter d s = ground (arith, random (add64 (d / 4) 1) s)

    slept-pause_after :
        (e : Err) (k : ℕ) (d : Int64) (s : S)
        → Fits d
        → slept (pause_after rt c e k d s).1 ≤ slept s + (d + d / 4)
    unfolding pause_after wait
    slept-pause_after e k d s (pos, fits) =
        let (_, most) = with_jitter_bounds rt d s below pos fits in
        let (p, s₁) = with_jitter rt d s in
        omega (arith, most, timer p (notify c e k p s₁), quiet e k p s₁, slept-with_jitter d s)

    attempts_slept :
        (k : ℕ) (ds : List Int64) (s : S)
        → All Fits ds
        → slept (attempts rt c fn k ds s).2 ≤ slept s + budget ds
    unfolding attempts
    attempts_slept k [] s h = omega (arith, quick s)
    attempts_slept k (d ∷ ds) s (fits, h) =
        after_attempt_world (λ t. slept t ≤ slept s + budget (d ∷ ds)) k d
          (attempts rt c fn (k + 1) ds) (fn s) (omega (arith, quick s))
          (λ e. omega (arith, quick s, slept-pause_after e (k + 1) d (fn s).2 fits))
          (λ e.
            let t = (pause_after rt c e (k + 1) d (fn s).2).1 in
            omega (
              arith,
              quick s,
              slept-pause_after e (k + 1) d (fn s).2 fits,
              attempts_slept (k + 1) ds t h,
            ))

    -- Where a call adds at most `call` to the sum, the timer at most the pause that it is set to and
    -- nothing else does, and rand.N stays below its bound, one DoValue on the default schedule adds at most
    -- 11.25 seconds, jitter included, and four calls.
    pub do_value_slept :
        (s : S)
        → c.intervals ≡ none
        → 4 * slept (do_value rt c fn s).2 ≤ 4 * slept s + 45 * second + 16 * call
    unfolding do_value
    do_value_slept s h =
        let default : intervals c ≡ default_intervals = ground arith in
        let fits : All Fits (intervals c) = subst (λ l. All Fits l) (sym default) (omega arith) in
        omega (arith, ap budget default, attempts_slept 0 (intervals c) s fits)
