-- ===== src/Agent/Encoders/Steps.antt =====
-- Each step of a call of sendBatch keeps the encoders apart.
use svcmetrics.Base.{
  ℕ, suc, ◌≤◌, ◌<◌, ◌≡◌, refl, sym, ap, ◌∙◌, Option, none, some, List, [], ◌++◌, get_elem?, ◌==◌,
  Option-cases, Bool-cases, true, false, ltb, inl, inr, arith,
}
use mathlib.Core.Path.{subst, fun_ext}
use mathlib.Core.Option.{some-injective, none-ne-some}
use svcmetrics.Pool.{get, put, remove_at}
use svcmetrics.Agent.Encoders.{
  buffer_write, buffer_reset, Sender, Heap, at, same, get_encoder, write_encoder, request_body,
  put_encoder,
}
use svcmetrics.Agent.Encoders.Owned.{
  count, remove_at-count, taken-count, Holds, buffer_write-Holds, IsOwned, at-At, replace-IsOwned,
}

pub write_encoder-IsOwned :
    (k : ℕ) (p : List ℕ) (o : Option Sender) (h : Heap)
    → h.senders k ≡ o
    → IsOwned h
    → IsOwned (write_encoder k p o h)
unfolding write_encoder
write_encoder-IsOwned k p none h e w = w
write_encoder-IsOwned k p (some s) h e w = elim (Option-cases s.body) [
  | inl unsent ↦ rw unsent (
      replace-IsOwned k s (record s { output = s.output ++ p })
        (buffer_write p (h.buffer s.encoder)) h e refl
        (buffer_write-Holds p (h.buffer s.encoder) s unsent (w.holds k s e)) w)
  | inr (n, sent) ↦ rw sent w
]

at_same : {A : Type 0} (a : ℕ) (f : ℕ → A) → at a (f a) f ≡ f
at_same a f =
    fun_ext λ j. elim (Bool-cases (a == j)) [
      | inl e ↦ rw e (ap f (ground (arith, e)))
      | inr e ↦ rw e refl
    ]

pub request_body-IsOwned :
    (k : ℕ) (o : Option Sender) (h : Heap)
    → h.senders k ≡ o
    → IsOwned h
    → IsOwned (request_body k o h)
unfolding request_body
request_body-IsOwned k none h e w = w
request_body-IsOwned k (some s) h e w = elim (Option-cases s.body) [
  | inl unsent ↦ rw unsent (
      let s' : Sender = record s { body = some (h.buffer s.encoder).len } in
      let held = w.holds k s e in
      subst (λ f. IsOwned (record h { buffer = f; senders = at k (some s') h.senders }))
        (at_same s.encoder h.buffer)
        (replace-IsOwned k s s' (h.buffer s.encoder) h e refl
          (record {
            len_output = held.len_output;
            memory_output = held.memory_output;
            whole = λ n q. sym (some-injective _ _ q);
          })
          w))
  | inr (n, sent) ↦ rw sent w
]

-- The calls behind the end of one of them.
others :
    (k : ℕ) (f : ℕ → Option Sender) (j : ℕ) (t : Sender)
    → at k none f j ≡ some t
    → ((k == j) ≡ false) × (f j ≡ some t)
others k f j t e = elim (at-At k none f j (some t) e) [
  | inl (place, ended) ↦ absurd (none-ne-some t ended)
  | inr kept ↦ kept
]

pub put_encoder-IsOwned :
    (k : ℕ) (o : Option Sender) (h : Heap)
    → h.senders k ≡ o
    → IsOwned h
    → IsOwned (put_encoder k o h)
unfolding put_encoder put buffer_reset count
put_encoder-IsOwned k none h e w = w
put_encoder-IsOwned k (some s) h e w =
    let away : (j : ℕ) (t : Sender)
        → at k none h.senders j ≡ some t
        → (s.encoder == t.encoder) ≡ false =
      λ j t q. elim (Bool-cases (s.encoder == t.encoder)) [
        | inl alike ↦
            let (other, old) = others k h.senders j t q in
            absurd (ground (arith, other, w.apart k j s t e old (ground (arith, alike))))
        | inr apart ↦ apart
      ] in
    let low = w.below k s e in
    record {
      holds = λ j t q. rw (away j t q) (w.holds j t (others k h.senders j t q).1);
      below = λ j t q. w.below j t (others k h.senders j t q).1;
      apart = λ i j t u p q c.
          w.apart i j t u (others k h.senders i t p).1 (others k h.senders j u q).1 c;
      out = λ j t q. rw (away j t q) (w.out j t (others k h.senders j t q).1);
      once = λ a. elim (Bool-cases (s.encoder == a)) [
        | inl is_put ↦
            let here : s.encoder ≡ a = ground (arith, is_put) in
            rw is_put (omega (arith, w.out k s e, ap (λ c. count c h.pool) here))
        | inr other ↦ rw other (w.once a)
      ];
      known = λ a above.
          let other : (s.encoder == a) ≡ false = ground (arith, low, above) in
          rw other (w.known a above);
      empty = λ a held. elim (Bool-cases (s.encoder == a)) [
        | inl is_put ↦ rw is_put refl
        | inr other ↦ rw other (w.empty a (sym (rw other refl) ∙ held))
      ];
      unused = λ a above.
          let other : (s.encoder == a) ≡ false = ground (arith, low, above) in
          rw other (w.unused a above);
    }

-- A call that begins with an encoder that no other call and no longer the pool has.
begin-IsOwned :
    (k a next : ℕ) (pool : List ℕ) (h : Heap)
    → ((j : ℕ) (t : Sender) → h.senders j ≡ some t → (a == t.encoder) ≡ false)
    → (h.buffer a).len ≡ 0
    → ((b : ℕ) → count b pool ≤ count b h.pool)
    → count a pool ≡ 0
    → h.next ≤ next
    → a < next
    → IsOwned h
    → IsOwned (record h {
      next = next;
      pool = pool;
      senders = at k (some (record { encoder = a; output = []; body = none })) h.senders;
    })
begin-IsOwned k a next pool h free blank fewer gone grown low w =
    let s : Sender = record { encoder = a; output = []; body = none } in
    let blank_Holds : Holds (h.buffer a) s = record {
      len_output = blank;
      memory_output = rw blank refl;
      whole = λ n q. absurd (none-ne-some n q);
    } in
    let new_or_old = at-At k (some s) h.senders in
    record {
      holds = λ j t q. elim (new_or_old j (some t) q) [
        | inl (_, is_new) ↦
            subst (λ v. Holds (h.buffer v.encoder) v) (some-injective _ _ is_new) blank_Holds
        | inr (_, old) ↦ w.holds j t old
      ];
      below = λ j t q. elim (new_or_old j (some t) q) [
        | inl (_, is_new) ↦ subst (λ v. v.encoder < next) (some-injective _ _ is_new) low
        | inr (_, old) ↦ omega (arith, grown, w.below j t old)
      ];
      apart = λ i j t u p q c. elim (new_or_old i (some t) p) [
        | inl (k_i, t_new) ↦
            let here : a ≡ t.encoder = ap (λ v. v.encoder) (some-injective _ _ t_new) in
            elim (new_or_old j (some u) q) [
              | inl (k_j, _) ↦ sym k_i ∙ k_j
              | inr (_, old) ↦ absurd (ground (arith, free j u old, here ∙ c))
            ]
        | inr (_, old_t) ↦ elim (new_or_old j (some u) q) [
          | inl (_, u_new) ↦
              let here : a ≡ u.encoder = ap (λ v. v.encoder) (some-injective _ _ u_new) in
              absurd (ground (arith, free i t old_t, here ∙ sym c))
          | inr (_, old_u) ↦ w.apart i j t u old_t old_u c
        ]
      ];
      out = λ j t q. elim (new_or_old j (some t) q) [
        | inl (_, is_new) ↦ subst (λ v. count v.encoder pool ≡ 0) (some-injective _ _ is_new) gone
        | inr (_, old) ↦ omega (arith, fewer t.encoder, w.out j t old)
      ];
      once = λ b. omega (arith, fewer b, w.once b);
      known = λ b above. omega (arith, fewer b, w.known b (omega (arith, above, grown)));
      empty = λ b held. w.empty b (omega (arith, held, fewer b, w.once b));
      unused = λ b above. w.unused b (omega (arith, above, grown));
    }

pub get_encoder-IsOwned :
    (k pick : ℕ) (o : Option Sender) (h : Heap) → IsOwned h → IsOwned (get_encoder k o pick h)
unfolding get_encoder get
get_encoder-IsOwned k pick (some s) h w = w
get_encoder-IsOwned k pick none h w = elim (Option-cases (get_elem? h.pool pick)) [
  | inl none_left ↦
      let fresh : (h.next == h.next) ≡ true = ground arith in
      rw (none_left, get, fresh)
        (begin-IsOwned k h.next (suc h.next) h.pool h (λ j t old. ground (arith, w.below j t old))
          (w.unused h.next (omega arith)) (λ b. omega arith) (w.known h.next (omega arith))
          (omega arith) (omega arith) w)
  | inr (x, picked) ↦
      let taken = taken-count h.next x pick x h.pool picked in
      let here : (x == x) ≡ true = ground arith in
      let held : count x h.pool ≡ suc (count x (remove_at same h.next pick h.pool)) =
        taken ∙ rw here refl in
      let low : x < h.next = elim (Bool-cases (ltb x h.next)) [
        | inl e ↦ ground (arith, e)
        | inr e ↦
            let above : h.next ≤ x = ground (arith, e) in
            absurd (omega (arith, held, w.known x above))
      ] in
      let old : (x == h.next) ≡ false = ground (arith, low) in
      rw (picked, get, old)
        (begin-IsOwned k x h.next (remove_at same h.next pick h.pool) h
          (λ j t q. elim (Bool-cases (x == t.encoder)) [
            | inl alike ↦
                let same_encoder : t.encoder ≡ x = ground (arith, alike) in
                absurd (omega (arith, held, w.out j t q, ap (λ c. count c h.pool) same_encoder))
            | inr apart ↦ apart
          ])
          (w.empty x (omega (arith, held, w.once x))) (λ b. remove_at-count h.next b pick h.pool)
          (omega (arith, held, w.once x)) (omega arith) low w)
]
