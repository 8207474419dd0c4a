-- ===== src/Agent/Collect/Owed.antt =====
-- What the agent still owes the server: the part of a counter that no batch has carried.
use svcmetrics.Base.{
  ℕ, ◌<◌, ◌≡◌, refl, sym, ap, ◌∙◌, String, Option, none, some, List, [], ◌∷◌, ◌++◌, map, length,
  take, drop, take-append-drop, ◌==◌, str_eq, if◌then◌else◌, get_or, Bool-cases, if_keeps, inl, inr,
  arith, eq_iff,
}
use Prim.Native.Nat.{Ordering}
use Prim.Native.String.{compare}
use svcmetrics.Base.Dict.{lookup-insert, lookup-insert_self}
use svcmetrics.Base.Word.{
  Int64, word_mod, add64, sub64, add64-lt, sub64-lt, add64_assoc, sub64_self, sub64-sub64-add64,
  add64_zero, zero_add64,
}
use svcmetrics.Model.{Metrics, is_counter}
use svcmetrics.Agent.{Agent}
use svcmetrics.Agent.Collect.{
  total, sent, gauge_metric, counter_metric, mark, take_counters, snapshot_batch, insert_by_id,
  sort_by_id, collect_batch, lower, give_back, return_one, return_counters,
}

add64_swap : (a b c : Int64) → add64 a (add64 b c) ≡ add64 b (add64 a c)
unfolding add64
add64_swap a b c = omega arith

module _ {F : Type 0} where
  abbrev pub owed : String → Agent F → Int64
  owed name a = sub64 (total name a) (sent name a)

  abbrev pub delta_of : String → Metrics F → Int64
  delta_of name m =
      if is_counter m.mtype then (if str_eq m.id name then get_or 0 m.delta else 0) else 0

  -- What a list of metrics carries of a counter, modulo 2 ^ 64.
  unfoldable pub carried : String → List (Metrics F) → Int64
  carried name [] = 0
  carried name (m ∷ ms) = add64 (delta_of name m) (carried name ms)

  pub carried-lt : (name : String) (ms : List (Metrics F)) → carried name ms < word_mod
  unfolding carried
  carried-lt name [] = omega arith
  carried-lt name (m ∷ ms) = add64-lt (delta_of name m) (carried name ms)

  pub carried-append :
      (name : String) (xs ys : List (Metrics F))
      → carried name (xs ++ ys) ≡ add64 (carried name xs) (carried name ys)
  unfolding carried
  carried-append name [] ys = sym (zero_add64 (carried name ys) (carried-lt name ys))
  carried-append name (x ∷ xs) ys =
      ap (add64 (delta_of name x)) (carried-append name xs ys)
      ∙ sym (add64_assoc (delta_of name x) (carried name xs) (carried name ys))

  owed_same : (name : String) (a : Agent F) → owed name a ≡ add64 (owed name a) 0
  owed_same name a = sym (add64_zero (owed name a) (sub64-lt (total name a) (sent name a)))

  owed-lower :
      (name id : String) (d : Int64) (a : Agent F)
      → owed name (lower id d a) ≡ add64 (owed name a) (if str_eq id name then d else 0)
  owed-lower name id d a = elim (Bool-cases (str_eq id name)) [
    | inl same ↦
        rw (lookup-insert id name (sub64 (sent id a) d) a.last_sent_counters, same)
          (sub64-sub64-add64 (total name a) (sent id a) d
            ∙ ap (λ i. add64 (sub64 (total name a) (sent i a)) d) ((eq_iff id name).0 same))
    | inr other ↦
        rw (lookup-insert id name (sub64 (sent id a) d) a.last_sent_counters, other)
          (owed_same name a)
  ]

  owed-give_back :
      (name id : String) (d : Option Int64) (a : Agent F)
      → owed name (give_back id d a)
        ≡ add64 (owed name a) (if str_eq id name then get_or 0 d else 0)
  owed-give_back name id none a =
      if_keeps (λ z. owed name a ≡ add64 (owed name a) z) (str_eq id name) (owed_same name a)
        (owed_same name a)
  owed-give_back name id (some d) a = owed-lower name id d a

  owed-return_one :
      (name : String) (m : Metrics F) (a : Agent F)
      → owed name (return_one m a) ≡ add64 (owed name a) (delta_of name m)
  unfolding return_one
  owed-return_one name m a = elim (Bool-cases (is_counter m.mtype)) [
    | inl c ↦ rw c (owed-give_back name m.id m.delta a)
    | inr c ↦ rw c (owed_same name a)
  ]

  -- Handing a batch back raises what the agent owes of every counter by what the batch carries of it.
  pub owed-return_counters :
      (name : String) (ms : List (Metrics F)) (a : Agent F)
      → owed name (return_counters ms a) ≡ add64 (owed name a) (carried name ms)
  unfolding return_counters carried
  owed-return_counters name [] a = owed_same name a
  owed-return_counters name (m ∷ ms) a =
      owed-return_counters name ms (return_one m a)
      ∙ ap (λ o. add64 o (carried name ms)) (owed-return_one name m a)
      ∙ add64_assoc (owed name a) (delta_of name m) (carried name ms)

  delta_of-gauge : (name id : String) (v : F) → delta_of name (gauge_metric (id, v)) ≡ 0
  delta_of-gauge name id v = refl

  carried-gauges : (name : String) (g : List (String × F)) → carried name (map gauge_metric g) ≡ 0
  unfolding carried
  carried-gauges name [] = refl
  carried-gauges name ((id, v) ∷ g) = rw (carried-gauges name g) (zero_add64 0 (omega arith))

  carried-insert_by_id :
      (name : String) (m : Metrics F) (xs : List (Metrics F))
      → carried name (insert_by_id m xs) ≡ add64 (delta_of name m) (carried name xs)
  unfolding carried insert_by_id
  carried-insert_by_id name m [] = refl
  carried-insert_by_id name m (x ∷ xs) = placed (compare m.id x.id) (carried-insert_by_id name m xs)
    where
      placed :
          (o : Ordering)
          → carried name (insert_by_id m xs) ≡ add64 (delta_of name m) (carried name xs)
          → carried name (elim o [ Ordering.gt ↦ x ∷ insert_by_id m xs | _ ↦ m ∷ x ∷ xs ])
            ≡ add64 (delta_of name m) (carried name (x ∷ xs))
      placed Ordering.lt _ = refl
      placed Ordering.eq _ = refl
      placed Ordering.gt rest =
          ap (add64 (delta_of name x)) rest
          ∙ add64_swap (delta_of name x) (delta_of name m) (carried name xs)

  carried-sort_by_id :
      (name : String) (ms : List (Metrics F)) → carried name (sort_by_id ms) ≡ carried name ms
  unfolding carried sort_by_id
  carried-sort_by_id name [] = refl
  carried-sort_by_id name (m ∷ ms) =
      carried-insert_by_id name m (sort_by_id ms)
      ∙ ap (add64 (delta_of name m)) (carried-sort_by_id name ms)

  carried-sorted_front :
      (name : String) (n : ℕ) (ms : List (Metrics F))
      → carried name (sort_by_id (take n ms) ++ drop n ms) ≡ carried name ms
  carried-sorted_front name n ms =
      carried-append name (sort_by_id (take n ms)) (drop n ms)
      ∙ ap (λ c. add64 c (carried name (drop n ms))) (carried-sort_by_id name (take n ms))
      ∙ sym (carried-append name (take n ms) (drop n ms))
      ∙ ap (carried name) (take-append-drop n ms)

  owed-mark : (name : String) (a : Agent F) → owed name (mark name a) ≡ 0
  owed-mark name a =
      rw (lookup-insert_self name (total name a) a.last_sent_counters) (sub64_self (total name a))

carried_delta :
    (G : Type 0) (d : Int64)
    → d < word_mod
    → carried "PollCount" (if d == 0 then [] else counter_metric {F = G} "PollCount" d ∷ []) ≡ d
unfolding carried
carried_delta G d h = elim (Bool-cases (d == 0)) [
  | inl z ↦ rw z (ground arith)
  | inr n ↦ rw n (add64_zero d h)
]

module _ {F : Type 0} where
  -- A batch carries exactly what the agent owed of the poll counter, and the agent owes nothing of it
  -- behind the batch.
  pub collect_batch-owed :
      (a : Agent F)
      → (carried "PollCount" (collect_batch a).0 ≡ owed "PollCount" a)
        × (owed "PollCount" (collect_batch a).1 ≡ 0)
  unfolding collect_batch snapshot_batch take_counters
  collect_batch-owed a =
      let d = owed "PollCount" a in
      let gauges = map gauge_metric a.gauges in
      let deltas = if d == 0 then [] else counter_metric "PollCount" d ∷ [] in
      (
        carried-sorted_front "PollCount" (length gauges) (gauges ++ deltas)
            ∙ carried-append "PollCount" gauges deltas
            ∙ ap (λ c. add64 c (carried "PollCount" deltas)) (carried-gauges "PollCount" a.gauges)
            ∙ zero_add64 _ (carried-lt "PollCount" deltas)
            ∙ carried_delta F d (sub64-lt (total "PollCount" a) (sent "PollCount" a)),
        owed-mark "PollCount" a,
      )
