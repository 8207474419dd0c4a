-- ===== src/Agent/Report/Chunks.antt =====
-- The chunks of a report: what reaches the server, and what is left over.
use svcmetrics.Base.{
  ℕ, zero, suc, ◌≤◌, ◌<◌, ◌≡◌, refl, sym, ap, ◌∙◌, Bool, true, false, Option, none, some, List, [],
  ◌∷◌, ◌++◌, length, take, drop, take-append-drop, All, arith, inl, inr, Bool-cases,
}
use mathlib.Core.List.{append_assoc}
use mathlib.Core.Option.{some-injective, none-ne-some}
use svcmetrics.Errors.{Err}
use svcmetrics.Model.{Metrics}
use svcmetrics.Agent.Report.{send_batch, after_chunk, send_batches, after_offer, offer_batches}

abbrev pub concat : {A : Type 0} → List (List A) → List A
concat [] = []
concat (xs ∷ xss) = xs ++ concat xss

length-take : {A : Type 0} (n : ℕ) (xs : List A) → length (take n xs) ≤ n
length-take zero xs = omega arith
length-take (suc n) [] = omega arith
length-take (suc n) (x ∷ xs) = omega (arith, length-take n xs)

-- A round makes the list shorter.
drop_shorter :
    {A : Type 0} (n fuel : ℕ) (x : A) (xs : List A)
    → 0 < n
    → length (x ∷ xs) ≤ suc fuel
    → length (drop n (x ∷ xs)) ≤ fuel
drop_shorter zero fuel x xs pos h = omega arith
drop_shorter (suc n) fuel x xs pos h = omega (arith, length-drop n xs)
  where
    length-drop : {B : Type 0} (n : ℕ) (ys : List B) → length (drop n ys) ≤ length ys
    length-drop zero ys = omega arith
    length-drop (suc n) [] = omega arith
    length-drop (suc n) (y ∷ ys) = omega (arith, length-drop n ys)

rejoined :
    {A : Type 0} (n : ℕ) (xs : List A) (chunks : List (List A)) (left : List A)
    → concat chunks ++ left ≡ drop n xs
    → concat (take n xs ∷ chunks) ++ left ≡ xs
rejoined n xs chunks left h =
    append_assoc (take n xs) (concat chunks) left
    ∙ ap (λ r. take n xs ++ r) h
    ∙ take-append-drop n xs

module _ {S F : Type 0} (send : List (Metrics F) → S → Option Err × S) where
  -- The chunks that the server accepted, one after another, from one world to another.
  pub data Accepted : S → List (List (Metrics F)) → S → Type 0 where
    nothing : (s : S) → Accepted s [] s
    chunk :
        (c : List (Metrics F)) {cs : List (List (Metrics F))} {s s' s'' : S}
        → send_batch send c s ≡ (none, s')
        → Accepted s' cs s''
        → Accepted s (c ∷ cs) s''

  -- How a report ends behind its accepted chunks: with nothing left, or with the failure of the chunk
  -- that the unsent metrics begin with.
  pub data Ending (size : ℕ) (seen : S) : (List (Metrics F) × Option Err) × S → Type 0 where
    done : Ending size seen (([], none), seen)
    failed :
        (unsent : List (Metrics F)) (e : Err) (s' : S)
        → send_batch send (take size unsent) seen ≡ (some e, s')
        → Ending size seen ((unsent, some e), s')

  pub record Sent (size : ℕ) (metrics : List (Metrics F)) (s : S)
      (r : (List (Metrics F) × Option Err) × S) : Type 0 where
    pub chunks : List (List (Metrics F))
    pub seen : S
    pub accepted : Accepted s chunks seen
    pub ending : Ending size seen r
    pub whole : concat chunks ++ r.0.0 ≡ metrics
    pub within : All (λ (c : List (Metrics F)). length c ≤ size) chunks

  -- With a positive chunk size and as much fuel as there are metrics a report ends, and what it
  -- answers is right: the chunks that the server accepted, in order and each of at most `size`
  -- metrics, and then the unsent metrics are the report, and the answer is either no error and nothing
  -- unsent, or the error of the chunk that the unsent metrics begin with.
  pub send_batches-Sent :
      (fuel size : ℕ) (metrics : List (Metrics F)) (s : S)
      → 0 < size
      → length metrics ≤ fuel
      → (r : (List (Metrics F) × Option Err) × S) × (send_batches send fuel size metrics s ≡ some r)
        × Sent size metrics s r
  unfolding send_batches
  send_batches-Sent fuel size [] s pos enough = (
    (([], none), s),
    refl,
    record {
      chunks = [];
      seen = s;
      accepted = nothing s;
      ending = done;
      whole = refl;
      within = tt;
    },
  )
  send_batches-Sent zero size (m ∷ ms) s pos enough = absurd (omega arith)
  send_batches-Sent (suc fuel) size (m ∷ ms) s pos enough =
      sent_first (send_batch send (take size (m ∷ ms)) s) refl (λ s'.
        send_batches-Sent fuel size (drop size (m ∷ ms)) s' pos
          (drop_shorter size fuel m ms pos enough))
    where
      sent_first :
          (answer : Option Err × S)
          → send_batch send (take size (m ∷ ms)) s ≡ answer
          → ((s' : S)
              → (r : (List (Metrics F) × Option Err) × S) × (send_batches send fuel size
                    (drop size (m ∷ ms))
                    s'
                  ≡ some r)
                × Sent size (drop size (m ∷ ms)) s' r)
          → (r : (List (Metrics F) × Option Err) × S) × (after_chunk send
                (m ∷ ms)
                (send_batches send fuel size (drop size (m ∷ ms)))
                answer
              ≡ some r)
            × Sent size (m ∷ ms) s r
      sent_first (none, s') e next =
          let (r, runs, sent) = next s' in
          (
            r,
            runs,
            record {
              chunks = take size (m ∷ ms) ∷ sent.chunks;
              seen = sent.seen;
              accepted = chunk (take size (m ∷ ms)) e sent.accepted;
              ending = sent.ending;
              whole = rejoined size (m ∷ ms) sent.chunks r.0.0 sent.whole;
              within = (length-take size (m ∷ ms), sent.within);
            },
          )
      sent_first (some error, s') e next = (
        ((m ∷ ms, some error), s'),
        refl,
        record {
          chunks = [];
          seen = s;
          accepted = nothing s;
          ending = failed (m ∷ ms) error s' e;
          whole = refl;
          within = tt;
        },
      )

-- With a positive chunk size and as much fuel as there are metrics the offer ends, and the batches
-- that workers took, in order, each of at most `size` metrics, and the metrics that nobody took are
-- together the metrics that were offered.
pub offer_batches_whole :
    {F : Type 0} (fuel size round : ℕ) (taken : ℕ → Bool) (metrics : List (Metrics F))
    → 0 < size
    → length metrics ≤ fuel
    → (batches : List (List (Metrics F))) × (left : List (Metrics F)) × (offer_batches fuel size
          round taken metrics
        ≡ some (batches, left))
      × (concat batches ++ left ≡ metrics)
      × All (λ (c : List (Metrics F)). length c ≤ size) batches
unfolding offer_batches
offer_batches_whole fuel size round taken [] pos enough = ([], [], refl, refl, tt)
offer_batches_whole zero size round taken (m ∷ ms) pos enough = absurd (omega arith)
offer_batches_whole (suc fuel) size round taken (m ∷ ms) pos enough =
    let (batches, left, runs, whole, within) =
      offer_batches_whole fuel size (suc round) taken (drop size (m ∷ ms)) pos
        (drop_shorter size fuel m ms pos enough) in
    elim (Bool-cases (taken round)) [
      | inl t ↦ (
        take size (m ∷ ms) ∷ batches,
        left,
        rw (t, runs) refl,
        rejoined size (m ∷ ms) batches left whole,
        (length-take size (m ∷ ms), within),
      )
      | inr f ↦ ([], m ∷ ms, rw f refl, refl, tt)
    ]

offered-whole :
    {F : Type 0} (size : ℕ) (metrics : List (Metrics F)) (took : Bool)
    (rest : Option (List (List (Metrics F)) × List (Metrics F))) {batches : List (List (Metrics F))}
    {left : List (Metrics F)}
    → ((bs : List (List (Metrics F))) (l : List (Metrics F))
        → rest ≡ some (bs, l)
        → concat bs ++ l ≡ drop size metrics)
    → after_offer metrics size took rest ≡ some (batches, left)
    → concat batches ++ left ≡ metrics
offered-whole size metrics false rest next e =
    let p = some-injective _ _ e in sym (ap (λ r. concat r.0 ++ r.1) p)
offered-whole size metrics true none next e = absurd (none-ne-some _ e)
offered-whole size metrics true (some (bs, l)) next e =
    let p = some-injective _ _ e in
    sym (ap (λ r. concat r.0 ++ r.1) p) ∙ rejoined size metrics bs l (next bs l refl)

-- Whatever the fuel, what was taken and what was left are the metrics offered.
pub offer_batches_kept :
    {F : Type 0} (fuel size round : ℕ) (taken : ℕ → Bool) (metrics : List (Metrics F))
    (batches : List (List (Metrics F))) (left : List (Metrics F))
    → offer_batches fuel size round taken metrics ≡ some (batches, left)
    → concat batches ++ left ≡ metrics
unfolding offer_batches
offer_batches_kept fuel size round taken [] batches left e =
    let p = some-injective _ _ e in sym (ap (λ r. concat r.0 ++ r.1) p)
offer_batches_kept zero size round taken (m ∷ ms) batches left e = absurd (none-ne-some _ e)
offer_batches_kept (suc fuel) size round taken (m ∷ ms) batches left e =
    offered-whole size (m ∷ ms) (taken round) _
      (λ bs l h. offer_batches_kept fuel size (suc round) taken (drop size (m ∷ ms)) bs l h) e
