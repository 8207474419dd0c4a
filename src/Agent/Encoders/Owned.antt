-- ===== src/Agent/Encoders/Owned.antt =====
-- The encoders of the calls that are under way are apart from each other and from the pool.
use svcmetrics.Base.{
  ℕ, zero, suc, ◌+◌, ◌≤◌, ◌<◌, ◌≡◌, refl, sym, ap, ◌∙◌, Option, none, some, List, [], ◌∷◌, ◌++◌,
  length, length-append, take-append_self, take, get_elem?, if◌then◌else◌, ◌==◌, ◌⊎◌, Bool-cases,
  true, false, inl, inr, arith,
}
use mathlib.Core.Path.{subst}
use mathlib.Core.List.{append_assoc}
use mathlib.Core.Option.{some-injective, none-ne-some}
use svcmetrics.Pool.{remove_at}
use svcmetrics.Agent.Encoders.{Buffer, buffer_write, Sender, Heap, at, same}

-- How often a pool holds an address.
unfoldable pub count : ℕ → List ℕ → ℕ
count a [] = 0
count a (x ∷ xs) = let rest = count a xs in if x == a then suc rest else rest

pub remove_at-count : (fresh a n : ℕ) (l : List ℕ) → count a (remove_at same fresh n l) ≤ count a l
unfolding count remove_at
remove_at-count fresh a n [] = omega arith
remove_at-count fresh a zero (x ∷ xs) = ground arith
remove_at-count fresh a (suc n) (x ∷ xs) =
    let ih = remove_at-count fresh a n xs in ground (arith, ih)

pub taken-count :
    (fresh a n x : ℕ) (l : List ℕ)
    → get_elem? l n ≡ some x
    → count a l ≡ (
        if x == a
        then suc (count a (remove_at same fresh n l))
        else count a (remove_at same fresh n l))
unfolding count remove_at
taken-count fresh a n x [] e = absurd (none-ne-some x e)
taken-count fresh a zero x (y ∷ ys) e = rw (some-injective _ _ e) refl
taken-count fresh a (suc n) x (y ∷ ys) e =
    let ih = taken-count fresh a n x ys e in ground (arith, ih)

-- A buffer that holds the output of its call.
pub record Holds (b : Buffer) (s : Sender) : Type 0 where
  pub len_output : b.len ≡ length s.output
  pub memory_output : take b.len b.memory ≡ s.output
  pub whole : (n : ℕ) → s.body ≡ some n → n ≡ b.len

pub buffer_write-Holds :
    (p : List ℕ) (b : Buffer) (s : Sender)
    → s.body ≡ none
    → Holds b s
    → Holds (buffer_write p b) (record s { output = s.output ++ p })
unfolding buffer_write
buffer_write-Holds p b s unsent h =
    let len' : b.len + length p ≡ length (s.output ++ p) =
      omega (arith, h.len_output, length-append s.output p) in
    record {
      len_output = len';
      memory_output =
          rw (len', h.memory_output)
            (ap (take (length (s.output ++ p))) (sym (append_assoc s.output p _))
              ∙ take-append_self (s.output ++ p) _);
      whole = λ n e. absurd (none-ne-some n (sym unsent ∙ e));
    }

pub record IsOwned (h : Heap) : Type 0 where
  pub holds : (k : ℕ) (s : Sender) → h.senders k ≡ some s → Holds (h.buffer s.encoder) s
  pub below : (k : ℕ) (s : Sender) → h.senders k ≡ some s → s.encoder < h.next
  pub apart :
      (j k : ℕ) (s t : Sender)
      → h.senders j ≡ some s
      → h.senders k ≡ some t
      → s.encoder ≡ t.encoder
      → j ≡ k
  pub out : (k : ℕ) (s : Sender) → h.senders k ≡ some s → count s.encoder h.pool ≡ 0
  pub once : (a : ℕ) → count a h.pool ≤ 1
  pub known : (a : ℕ) → h.next ≤ a → count a h.pool ≡ 0
  pub empty : (a : ℕ) → count a h.pool ≡ 1 → (h.buffer a).len ≡ 0
  pub unused : (a : ℕ) → h.next ≤ a → (h.buffer a).len ≡ 0

abbrev pub At : {A : Type 0} → ℕ → A → (ℕ → A) → ℕ → A → Type 0
At k x f j y = ((k ≡ j) × (x ≡ y)) ⊎ (((k == j) ≡ false) × (f j ≡ y))

pub at-At : {A : Type 0} (k : ℕ) (x : A) (f : ℕ → A) (j : ℕ) (y : A) → at k x f j ≡ y → At k x f j y
at-At k x f j y e = elim (Bool-cases (k == j)) [
  | inl same_place ↦ inl (ground (arith, same_place), sym (rw same_place refl) ∙ e)
  | inr other ↦ inr (other, sym (rw other refl) ∙ e)
]

pub at_self : {A : Type 0} (k : ℕ) (x : A) (f : ℕ → A) → at k x f k ≡ x
at_self k x f = let e : (k == k) ≡ true = ground arith in rw e refl

-- The calls of a heap behind a change of one of them that keeps its encoder.
replaced :
    (k : ℕ) (s s' : Sender) (f : ℕ → Option Sender) (j : ℕ) (t : Sender)
    → f k ≡ some s
    → s.encoder ≡ s'.encoder
    → at k (some s') f j ≡ some t
    → (u : Sender) × (f j ≡ some u) × (u.encoder ≡ t.encoder)
replaced k s s' f j t found keeps e = elim (at-At k (some s') f j (some t) e) [
  | inl (place, is_new) ↦
      (s, ap f (sym place) ∙ found, keeps ∙ ap (λ v. v.encoder) (some-injective _ _ is_new))
  | inr (other, old) ↦ (t, old, refl)
]

pub at-Holds :
    (a : ℕ) (b : Buffer) (f : ℕ → Buffer) (t : Sender)
    → (a ≡ t.encoder → Holds b t)
    → ((a == t.encoder) ≡ false → Holds (f t.encoder) t)
    → Holds (at a b f t.encoder) t
at-Holds a b f t h k = elim (Bool-cases (a == t.encoder)) [
  | inl e ↦ rw e (h (ground (arith, e)))
  | inr e ↦ rw e (k e)
]

pub at-len :
    (a : ℕ) (b : Buffer) (f : ℕ → Buffer) (c : ℕ)
    → (a ≡ c → b.len ≡ 0)
    → (f c).len ≡ 0
    → (at a b f c).len ≡ 0
at-len a b f c h k = elim (Bool-cases (a == c)) [
  | inl e ↦ rw e (h (ground (arith, e)))
  | inr e ↦ rw e k
]

pub replace-IsOwned :
    (k : ℕ) (s s' : Sender) (b : Buffer) (h : Heap)
    → h.senders k ≡ some s
    → s.encoder ≡ s'.encoder
    → Holds b s'
    → IsOwned h
    → IsOwned (record h { buffer = at s.encoder b h.buffer; senders = at k (some s') h.senders })
replace-IsOwned k s s' b h found keeps hb o = record {
  holds = λ j t e. elim (at-At k (some s') h.senders j (some t) e) [
    | inl (place, is_new) ↦
        subst (λ v. Holds (at s.encoder b h.buffer v.encoder) v) (some-injective _ _ is_new)
          (subst (λ a. Holds (at s.encoder b h.buffer a) s') keeps
            (subst (λ c. Holds c s') (sym (at_self s.encoder b h.buffer)) hb))
    | inr (other, old) ↦
        at-Holds s.encoder b h.buffer t
          (λ same_encoder. absurd (ground (arith, o.apart k j s t found old same_encoder)))
          (λ _. o.holds j t old)
  ];
  below = λ j t e.
      let (u, old, encoder) = replaced k s s' h.senders j t found keeps e in
      subst (λ a. a < h.next) encoder (o.below j u old);
  apart = λ i j t u e₁ e₂ c.
      let (t', old₁, encoder₁) = replaced k s s' h.senders i t found keeps e₁ in
      let (u', old₂, encoder₂) = replaced k s s' h.senders j u found keeps e₂ in
      o.apart i j t' u' old₁ old₂ (encoder₁ ∙ c ∙ sym encoder₂);
  out = λ j t e.
      let (u, old, encoder) = replaced k s s' h.senders j t found keeps e in
      subst (λ a. count a h.pool ≡ 0) encoder (o.out j u old);
  once = o.once;
  known = o.known;
  empty = λ a held.
      at-len s.encoder b h.buffer a
        (λ e. absurd (omega (arith, held, o.out k s found, ap (λ c. count c h.pool) e)))
        (o.empty a held);
  unused = λ a above.
      at-len s.encoder b h.buffer a (λ e. absurd (omega (arith, e, above, o.below k s found)))
        (o.unused a above);
}
