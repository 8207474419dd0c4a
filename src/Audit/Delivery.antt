-- ===== src/Audit/Delivery.antt =====
-- What an observer receives, over every order of steps.
use svcmetrics.Base.{
  ℕ, zero, suc, ◌≤◌, ◌≡◌, refl, sym, ap, ◌∙◌, Bool, true, Option, some, List, [], ◌∷◌, ◌++◌, map,
  length, length-append, ltb, get_elem?, if_keeps, Bool-cases, ◌⊎◌, inl, inr, arith,
}
use mathlib.Core.Option.{some-injective, none-ne-some}
use mathlib.Core.List.{append-nil, append_assoc}
use svcmetrics.Audit.{
  Event, Worker, Publisher, register, publish, offer, deliver, deliver_at, deliver_one, hand_over,
  close, Action, registering, publishing, delivering, closing, act, run,
}

-- A list that leaves out elements of another, and keeps their order.
pub data IsSubseq {A : Type 0} : List A → List A → Type 0 where
  nil : (ys : List A) → IsSubseq [] ys
  keep : (x : A) {xs ys : List A} → IsSubseq xs ys → IsSubseq (x ∷ xs) (x ∷ ys)
  skip : (y : A) {xs ys : List A} → IsSubseq xs ys → IsSubseq xs (y ∷ ys)

-- The events that a list of actions publishes.
abbrev published_by : Action → List Event
published_by (publishing e) = e ∷ []
published_by _ = []

unfoldable pub published : List Action → List Event
published [] = []
published (a ∷ rest) = published_by a ++ published rest

-- The events that a worker was given or still holds, oldest first.
abbrev pub history : Worker → List Event
history w = w.received ++ w.queue

-- How a worker can have come from `w` while `es` were published.
pub record Follows (size : ℕ) (es : List Event) (w w' : Worker) : Type 0 where
  pub same_name : w'.name ≡ w.name
  pub added : List Event
  pub extends : history w' ≡ history w ++ added
  pub in_order : IsSubseq added es
  pub bounded : (length w'.queue ≤ size) ⊎ (length w'.queue ≤ length w.queue)

room_for_one :
    (size : ℕ) (e : Event) (w : Worker)
    → ltb (length w.queue) size ≡ true
    → length (w.queue ++ e ∷ []) ≤ size
room_for_one size e w room = ground (arith, length-append w.queue (e ∷ []))

offer-Follows : (size : ℕ) (e : Event) (w : Worker) → Follows size (e ∷ []) w (offer size e w)
unfolding offer
offer-Follows size e w = elim (Bool-cases (ltb (length w.queue) size)) [
  | inl room ↦ rw room (record {
    same_name = refl;
    added = e ∷ [];
    extends = sym (append_assoc w.received w.queue (e ∷ []));
    in_order = keep e (nil []);
    bounded = inl (room_for_one size e w room);
  })
  | inr full ↦ rw full (record {
    same_name = refl;
    added = [];
    extends = sym (append-nil _);
    in_order = nil (e ∷ []);
    bounded = inr (omega arith);
  })
]

Follows-refl : {size : ℕ} {es : List Event} {w : Worker} → Follows size es w w
Follows-refl {es = es} {w = w} = record {
  same_name = refl;
  added = [];
  extends = sym (append-nil (history w));
  in_order = nil es;
  bounded = inr (omega arith);
}

bounded_trans :
    {n m k size : ℕ} → (m ≤ size) ⊎ (m ≤ n) → (k ≤ size) ⊎ (k ≤ m) → (k ≤ size) ⊎ (k ≤ n)
bounded_trans f (inl h) = inl h
bounded_trans (inl f) (inr h) = inl (omega arith)
bounded_trans (inr f) (inr h) = inr (omega arith)

hand_over-Follows :
    (size : ℕ) (closed : Bool) (w : Worker) (es : List Event)
    → w.queue ≡ es
    → Follows size [] w (hand_over closed w es)
hand_over-Follows size closed w [] _ = record {
  same_name = refl;
  added = [];
  extends = sym (append-nil (history w));
  in_order = nil [];
  bounded = inr (omega arith);
}
hand_over-Follows size closed w (e ∷ es) held = record {
  same_name = refl;
  added = [];
  extends =
      append_assoc w.received (e ∷ []) es
      ∙ ap (λ q. w.received ++ q) (sym held)
      ∙ sym (append-nil (history w));
  in_order = nil [];
  bounded = inr (omega (arith, ap length held));
}

deliver_one-Follows :
    (size : ℕ) (closed : Bool) (w : Worker) → Follows size [] w (deliver_one closed w)
unfolding deliver_one
deliver_one-Follows size closed w =
    if_keeps (Follows size [] w) w.running (hand_over-Follows size closed w w.queue refl)
      Follows-refl

IsSubseq-append :
    {A : Type 0} {xs xs' ys ys' : List A}
    → IsSubseq xs ys
    → IsSubseq xs' ys'
    → IsSubseq (xs ++ xs') (ys ++ ys')
IsSubseq-append (nil []) t = t
IsSubseq-append (nil (y ∷ ys)) t = skip y (IsSubseq-append (nil ys) t)
IsSubseq-append (keep x s) t = keep x (IsSubseq-append s t)
IsSubseq-append (skip y s) t = skip y (IsSubseq-append s t)

Follows-trans :
    {size : ℕ} {es fs : List Event} {w w' w'' : Worker}
    → Follows size es w w'
    → Follows size fs w' w''
    → Follows size (es ++ fs) w w''
Follows-trans {w = w} f g = record {
  same_name = g.same_name ∙ f.same_name;
  added = f.added ++ g.added;
  extends =
      g.extends ∙ ap (λ xs. xs ++ g.added) f.extends ∙ append_assoc (history w) f.added g.added;
  in_order = IsSubseq-append f.in_order g.in_order;
  bounded = bounded_trans f.bounded g.bounded;
}

-- Where the list holds at a place a worker that came from `w`.
pub data Reached (size : ℕ) (es : List Event) (w : Worker) : Option Worker → Type 0 where
  reached : (w' : Worker) → Follows size es w w' → Reached size es w (some w')

map-Reached :
    (size : ℕ) (e : Event) (ws : List Worker) (i : ℕ) (w : Worker)
    → get_elem? ws i ≡ some w
    → Reached size (e ∷ []) w (get_elem? (map (offer size e) ws) i)
map-Reached size e [] i w found = absurd (none-ne-some w found)
map-Reached size e (v ∷ vs) zero w found =
    rw (some-injective _ _ found) (reached (offer size e w) (offer-Follows size e w))
map-Reached size e (v ∷ vs) (suc i) w found = map-Reached size e vs i w found

deliver_at-Reached :
    (size k : ℕ) (closed : Bool) (ws : List Worker) (i : ℕ) (w : Worker)
    → get_elem? ws i ≡ some w
    → Reached size [] w (get_elem? (deliver_at k closed ws) i)
unfolding deliver_at
deliver_at-Reached size k closed [] i w found = absurd (none-ne-some w found)
deliver_at-Reached size zero closed (v ∷ vs) zero w found =
    rw (some-injective _ _ found)
      (reached (deliver_one closed w) (deliver_one-Follows size closed w))
deliver_at-Reached size zero closed (v ∷ vs) (suc i) w found = rw found (reached w Follows-refl)
deliver_at-Reached size (suc k) closed (v ∷ vs) zero w found = rw found (reached w Follows-refl)
deliver_at-Reached size (suc k) closed (v ∷ vs) (suc i) w found =
    deliver_at-Reached size k closed vs i w found

stays :
    {size : ℕ} {es : List Event} {o : Option Worker} (w : Worker) → o ≡ some w → Reached size es w o
stays w found = rw found (reached w Follows-refl)

append-Reached :
    (size : ℕ) (ws more : List Worker) (i : ℕ) (w : Worker)
    → get_elem? ws i ≡ some w
    → Reached size [] w (get_elem? (ws ++ more) i)
append-Reached size [] more i w found = absurd (none-ne-some w found)
append-Reached size (v ∷ vs) more zero w found = stays w found
append-Reached size (v ∷ vs) more (suc i) w found = append-Reached size vs more i w found

abbrev at : ℕ → Publisher → Option Worker
at i p = get_elem? p.workers i

act-Reached :
    (a : Action) (p : Publisher) (i : ℕ) (w : Worker)
    → at i p ≡ some w
    → Reached p.queue_size (published_by a) w (at i (act a p))
unfolding act register publish deliver close
act-Reached (registering name) p i w found =
    if_keeps (λ q. Reached p.queue_size [] w (at i q)) p.closed (stays w found)
      (append-Reached p.queue_size p.workers _ i w found)
act-Reached (publishing e) p i w found =
    if_keeps (λ q. Reached p.queue_size (e ∷ []) w (at i q)) p.closed (stays w found)
      (map-Reached p.queue_size e p.workers i w found)
act-Reached (delivering k err) p i w found =
    deliver_at-Reached p.queue_size k p.closed p.workers i w found
act-Reached closing p i w found = stays w found

act-queue_size : (a : Action) (p : Publisher) → (act a p).queue_size ≡ p.queue_size
unfolding act register publish deliver close
act-queue_size (registering name) p =
    if_keeps (λ (q : Publisher). q.queue_size ≡ p.queue_size) p.closed refl refl
act-queue_size (publishing e) p =
    if_keeps (λ (q : Publisher). q.queue_size ≡ p.queue_size) p.closed refl refl
act-queue_size (delivering k err) p = refl
act-queue_size closing p = refl

Reached-then :
    {size : ℕ} {es fs : List Event} {w w' : Worker} {o : Option Worker}
    → Follows size es w w'
    → Reached size fs w' o
    → Reached size (es ++ fs) w o
Reached-then f (reached w'' g) = reached w'' (Follows-trans f g)

Reached-act :
    (rest : List Action) {size : ℕ} {es : List Event} (w : Worker) {o : Option Worker}
    (p : Publisher) (i : ℕ)
    → size ≡ p.queue_size
    → at i p ≡ o
    → ((w' : Worker)
        → at i p ≡ some w'
        → Reached p.queue_size (published rest) w' (at i (run rest p)))
    → Reached size es w o
    → Reached size (es ++ published rest) w (at i (run rest p))
Reached-act rest w p i same found next (reached w' f) = Reached-then f (rw same (next w' found))

-- A worker of the publisher keeps its place over every sequence of steps, in every order of
-- registrations, publications, deliveries and a close. What its observer was given and its queue holds
-- grows by a part of the events published meanwhile, in the order of their publication, each at most
-- once; nothing is taken back, and a queue longer than the limit has not grown.
pub run-Reached :
    (actions : List Action) (p : Publisher) (i : ℕ) (w : Worker)
    → get_elem? p.workers i ≡ some w
    → Reached p.queue_size (published actions) w (get_elem? (run actions p).workers i)
unfolding run published
run-Reached [] p i w found = stays w found
run-Reached (a ∷ rest) p i w found =
    Reached-act rest w (act a p) i (sym (act-queue_size a p)) refl
      (λ w' e. run-Reached rest (act a p) i w' e) (act-Reached a p i w found)
