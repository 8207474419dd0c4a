-- ===== src/Retry/Runs.antt =====
-- How a run of `do_value` is made up: failed attempts with their pauses, and one last attempt.
use svcmetrics.Base.{
  ℕ, ◌+◌, ◌≡◌, refl, sym, ◌∙◌, ap, suc, Bool, true, false, Bool-cases, Option, none, some, List, [],
  ◌∷◌, ◌++◌, length, inl, inr, arith,
}
use mathlib.Core.Path.{subst}
use svcmetrics.Base.Word.{Int64}
use svcmetrics.Errors.{Err}
use svcmetrics.Retry.{
  Config, Runtime, Operation, intervals, retriable, pause_after, after_pause, after_attempt,
  attempts, do_value,
}

module _ {S A : Type 0} (rt : Runtime S) (c : Config S) (fn : Operation S A) where
  -- From `s` every attempt fails for a passing reason and its pause is slept through; the pauses
  -- are those of the list, and `t` is the world after the last one.
  abbrev pub FailsTo : ℕ → List Int64 → S → S → Type 0
  FailsTo k [] s t = s ≡ t
  FailsTo k (d ∷ ds) s t =
      (res : A) × (e : Err) × (s₁ : S) × (s₂ : S) × (fn s ≡ (res, some e, s₁))
      × (retriable c e ≡ true)
      × (pause_after rt c e (k + 1) d s₁ ≡ (true, s₂))
      × FailsTo (k + 1) ds s₂ t

  -- The last attempt, at `t` with the pauses `rest` left.
  pub data Ends (k : ℕ) (rest : List Int64) (t : S) (out : A × Option Err × S) : Type 0 where
    success : fn t ≡ out → out.1 ≡ none → Ends k rest t out
    permanent : (e : Err) → fn t ≡ out → out.1 ≡ some e → retriable c e ≡ false → Ends k rest t out
    exhausted : rest ≡ [] → fn t ≡ out → Ends k rest t out
    cancelled :
        (e : Err) (d : Int64) (ds : List Int64) (s₁ : S)
        → rest ≡ d ∷ ds
        → fn t ≡ (out.0, some e, s₁)
        → out.1 ≡ some e
        → retriable c e ≡ true
        → pause_after rt c e (k + 1) d s₁ ≡ (false, out.2)
        → Ends k rest t out

  -- One failed attempt with its pause.
  attempts_step :
      (k : ℕ) (d : Int64) (ds : List Int64) (s s₁ s₂ : S) (res : A) (e : Err)
      → fn s ≡ (res, some e, s₁)
      → retriable c e ≡ true
      → pause_after rt c e (k + 1) d s₁ ≡ (true, s₂)
      → attempts rt c fn k (d ∷ ds) s ≡ attempts rt c fn (k + 1) ds s₂
  unfolding attempts
  attempts_step k d ds s s₁ s₂ res e call again slept = rw call (rw again (rw slept))

  pub attempts-append :
      (k : ℕ) (done rest : List Int64) (s t : S)
      → FailsTo k done s t
      → attempts rt c fn k (done ++ rest) s ≡ attempts rt c fn (k + length done) rest t
  attempts-append k [] rest s t e = let same : k ≡ k + 0 = omega arith in rw (e, ← same)
  attempts-append k (d ∷ ds) rest s t (res, e, s₁, s₂, call, again, slept, more) =
      let shift : k + 1 + length ds ≡ k + suc (length ds) = omega arith in
      attempts_step k d (ds ++ rest) s s₁ s₂ res e call again slept
      ∙ attempts-append (k + 1) ds rest s₂ t more
      ∙ ap (λ n. attempts rt c fn n rest t) shift

  -- The parts of a run over the pauses `ds` that began at `s`.
  pub record Run (k : ℕ) (ds : List Int64) (s : S) (out : A × Option Err × S) : Type 0 where
    pub done : List Int64
    pub rest : List Int64
    pub last : S
    pub split : done ++ rest ≡ ds
    pub fails : FailsTo k done s last
    pub ends : Ends (k + length done) rest last out

  Run-now :
      (k : ℕ) (ds : List Int64) (s : S) (out : A × Option Err × S)
      → Ends k ds s out
      → Run k ds s out
  Run-now k ds s out e =
      let same : k ≡ k + 0 = omega arith in
      record {
        done = [];
        rest = ds;
        last = s;
        split = refl;
        fails = refl;
        ends = subst (λ n. Ends n ds s out) same e;
      }

  Run-later :
      (k : ℕ) (d : Int64) (ds : List Int64) (s s₁ s₂ : S) (res : A) (e : Err)
      {out : A × Option Err × S}
      → fn s ≡ (res, some e, s₁)
      → retriable c e ≡ true
      → pause_after rt c e (k + 1) d s₁ ≡ (true, s₂)
      → Run (k + 1) ds s₂ out
      → Run k (d ∷ ds) s out
  Run-later k d ds s s₁ s₂ res e {out} call again slept r =
      let shift : k + 1 + length r.done ≡ k + suc (length r.done) = omega arith in
      record {
        done = d ∷ r.done;
        rest = r.rest;
        last = r.last;
        split = ap (λ l. d ∷ l) r.split;
        fails = (res, e, s₁, s₂, call, again, slept, r.fails);
        ends = subst (λ n. Ends n r.rest r.last out) shift r.ends;
      }

  Run-paused :
      (k : ℕ) (d : Int64) (ds : List Int64) (s s₁ : S) (res : A) (e : Err) (p : Bool × S)
      → fn s ≡ (res, some e, s₁)
      → retriable c e ≡ true
      → pause_after rt c e (k + 1) d s₁ ≡ p
      → ((s₂ : S) → Run (k + 1) ds s₂ (attempts rt c fn (k + 1) ds s₂))
      → Run k (d ∷ ds) s (after_pause rt c fn (attempts rt c fn (k + 1) ds) res e p)
  unfolding after_pause
  Run-paused k d ds s s₁ res e (true, s₂) call again slept ih =
      Run-later k d ds s s₁ s₂ res e call again slept (ih s₂)
  Run-paused k d ds s s₁ res e (false, s₂) call again cut ih =
      Run-now k (d ∷ ds) s _ (cancelled e d ds s₁ refl call refl again cut)

  Run-attempted :
      (k : ℕ) (d : Int64) (ds : List Int64) (s : S) (r : A × Option Err × S)
      → fn s ≡ r
      → ((s₂ : S) → Run (k + 1) ds s₂ (attempts rt c fn (k + 1) ds s₂))
      → Run k (d ∷ ds) s (after_attempt rt c fn k d (attempts rt c fn (k + 1) ds) r)
  unfolding after_attempt
  Run-attempted k d ds s (res, none, s₁) call ih = Run-now k (d ∷ ds) s _ (success call refl)
  Run-attempted k d ds s (res, some e, s₁) call ih = elim (Bool-cases (retriable c e)) [
    | inl again ↦ rw again (Run-paused k d ds s s₁ res e _ call again refl ih)
    | inr final ↦ rw final (Run-now k (d ∷ ds) s _ (permanent e call refl final))
  ]

  pub attempts-Run : (k : ℕ) (ds : List Int64) (s : S) → Run k ds s (attempts rt c fn k ds s)
  unfolding attempts
  attempts-Run k [] s = Run-now k [] s _ (exhausted refl refl)
  attempts-Run k (d ∷ ds) s = Run-attempted k d ds s (fn s) refl (attempts-Run (k + 1) ds)

  -- Every run of DoValue is a row of attempts that failed for a passing reason, each with its
  -- pause slept through, on a first part of the schedule, and a last attempt: it succeeds, or fails
  -- for good, or the schedule is used up, or the pause behind it is cut short.
  pub do_value-Run : (s : S) → Run 0 (intervals c) s (do_value rt c fn s)
  unfolding do_value
  do_value-Run s = attempts-Run 0 (intervals c) s

  attempts_succeeds :
      (k : ℕ) (ds : List Int64) (t u : S) (res : A)
      → fn t ≡ (res, none, u)
      → attempts rt c fn k ds t ≡ (res, none, u)
  unfolding attempts
  attempts_succeeds k [] t u res call = call
  attempts_succeeds k (d ∷ ds) t u res call = rw call

  -- An operation that fails for a passing reason at most as often as the schedule has pauses, and
  -- then succeeds, succeeds under DoValue with the value and the world of that attempt.
  pub do_value_recovers :
      (done rest : List Int64) (s t u : S) (res : A)
      → done ++ rest ≡ intervals c
      → FailsTo 0 done s t
      → fn t ≡ (res, none, u)
      → do_value rt c fn s ≡ (res, none, u)
  unfolding do_value
  do_value_recovers done rest s t u res split fails last =
      rw (← split) (attempts-append 0 done rest s t fails)
      ∙ attempts_succeeds (0 + length done) rest t u res last

-- A property `P` of the world that the attempts keep until one ends the loop, and a property `Q` of what
-- the loop answers.
module _ {S A : Type 0} (rt : Runtime S) (c : Config S) (fn : Operation S A) (P : S → Type 0)
    (Q : A × Option Err × S → Type 0) (answers : (s : S) → P s → Q (fn s))
    (keeps : (s : S) (res : A) (e : Err) (t : S)
      → P s
      → fn s ≡ (res, some e, t)
      → retriable c e ≡ true
      → P t)
    (pauses : (e : Err) (k : ℕ) (d : Int64) (s : S) → P s → P (pause_after rt c e k d s).1)
    (cut : (res : A) (e : Err) (s : S) → retriable c e ≡ true → P s → Q (res, some e, s)) where
  FailsTo-keeps : (k : ℕ) (ds : List Int64) (s t : S) → P s → FailsTo rt c fn k ds s t → P t
  FailsTo-keeps k [] s t h e = subst P e h
  FailsTo-keeps k (d ∷ ds) s t h (res, e, s₁, s₂, call, again, slept, more) =
      FailsTo-keeps (k + 1) ds s₂ t
        (subst P (ap (λ p. p.1) slept) (pauses e (k + 1) d s₁ (keeps s res e s₁ h call again))) more

  Ends-answers :
      (k : ℕ) (rest : List Int64) (t : S) (out : A × Option Err × S)
      → P t
      → Ends rt c fn k rest t out
      → Q out
  Ends-answers k rest t out h (success call _) = subst Q call (answers t h)
  Ends-answers k rest t out h (permanent _ call _ _) = subst Q call (answers t h)
  Ends-answers k rest t out h (exhausted _ call) = subst Q call (answers t h)
  Ends-answers k rest t (res, o, u) h (cancelled e d ds s₁ _ call same again slept) =
      subst (λ p. Q (res, p, u)) (sym same)
        (cut res e u again
          (subst P (ap (λ p. p.1) slept) (pauses e (k + 1) d s₁ (keeps t res e s₁ h call again))))

  -- What holds at each way out holds of the answer of DoValue.
  pub do_value_induct : (s : S) → P s → Q (do_value rt c fn s)
  do_value_induct s h =
      let run = do_value-Run rt c fn s in
      Ends-answers _ run.rest run.last _ (FailsTo-keeps 0 run.done s run.last h run.fails) run.ends
