-- ===== src/Agent/Collect/Stable.antt =====
-- The order in which a range meets the gauges does not show in a batch.
use mathlib.Core.Path.{subst}
use mathlib.Core.List.{Permᴰ}
use svcmetrics.Base.{
  ◌≡◌, ◌≢◌, refl, sym, ap, ◌∙◌, String, List, [], ◌∷◌, ◌++◌, map, take-append_self,
  drop-append_self, arith, All,
}
use svcmetrics.Base.Dict.{Dict}
use svcmetrics.Base.Text.{compare-flip, eq_of_compare, compare_trans}
use svcmetrics.Model.{Metrics}
use svcmetrics.Agent.{Agent}
use svcmetrics.Agent.Collect.{
  gauge_metric, take_counters, counter_metric_names, snapshot_batch, insert_by_id, sort_by_id,
  collect_batch,
}

module _ {F : Type 0} where
  insert_by_id_comm :
      (m n : Metrics F) (l : List (Metrics F))
      → m.id ≢ n.id
      → insert_by_id m (insert_by_id n l) ≡ insert_by_id n (insert_by_id m l)
  unfolding insert_by_id
  insert_by_id_comm m n [] apart = ground (arith, compare-flip m.id n.id, eq_of_compare m.id n.id)
  insert_by_id_comm m n (x ∷ xs) apart = ground (
    arith,
    insert_by_id_comm m n xs apart,
    compare-flip m.id n.id,
    eq_of_compare m.id n.id,
    eq_of_compare m.id x.id,
    eq_of_compare n.id x.id,
    compare-flip x.id m.id,
    compare-flip x.id n.id,
    compare_trans m.id x.id n.id,
    compare_trans n.id x.id m.id,
  )

  -- Two entries of a map have two names.
  abbrev IsApart : String × F → String × F → Type 0
  IsApart x y = x.0 ≢ y.0

  abbrev pub IsMap : Dict F → Type 0
  IsMap [] = Unit
  IsMap (x ∷ xs) = All (IsApart x) xs × IsMap xs

  All-perm : (P : String × F → Type 0) {g g' : Dict F} → Permᴰ g g' → All P g → All P g'
  All-perm P Permᴰ.nil h = h
  All-perm P (Permᴰ.cons same d) h = (subst P same h.0, All-perm P d h.1)
  All-perm P (Permᴰ.swap same₁ same₂) h = (subst P same₂ h.1.0, (subst P same₁ h.0, h.1.1))
  All-perm P (Permᴰ.trans d₁ d₂) h = All-perm P d₂ (All-perm P d₁ h)

  IsMap-perm : {g g' : Dict F} → Permᴰ g g' → IsMap g → IsMap g'
  IsMap-perm Permᴰ.nil h = h
  IsMap-perm (Permᴰ.cons {b = b} {l₁ = l} same d) (apart, h) =
      (All-perm (IsApart b) d (subst (λ x. All (IsApart x) l) same apart), IsMap-perm d h)
  IsMap-perm (Permᴰ.swap {a = a} {b = b} {a' = a'} {l = l} same₁ same₂) ((apart, a_l), (b_l, h)) = (
    (
      subst (IsApart a') same₁ (subst (λ x. IsApart x a) same₂ (λ e. apart (sym e))),
      subst (λ x. All (IsApart x) l) same₂ b_l,
    ),
    (subst (λ x. All (IsApart x) l) same₁ a_l, h),
  )
  IsMap-perm (Permᴰ.trans d₁ d₂) h = IsMap-perm d₂ (IsMap-perm d₁ h)

  sort_by_id-perm :
      {g g' : Dict F}
      → Permᴰ g g'
      → IsMap g
      → sort_by_id (map gauge_metric g) ≡ sort_by_id (map gauge_metric g')
  unfolding sort_by_id
  sort_by_id-perm Permᴰ.nil h = refl
  sort_by_id-perm (Permᴰ.cons {a = a} {b = b} {l₁ = l₁} same d) (_, h) =
      ap (λ x. insert_by_id (gauge_metric x) (sort_by_id (map gauge_metric l₁))) same
      ∙ ap (insert_by_id (gauge_metric b)) (sort_by_id-perm d h)
  sort_by_id-perm (Permᴰ.swap {a = a} {b = b} {a' = a'} {b' = b'} {l = l} same₁ same₂)
        ((apart, _), _) =
      let rest = sort_by_id (map gauge_metric l) in
      insert_by_id_comm (gauge_metric a) (gauge_metric b) rest apart
      ∙ ap (λ x. insert_by_id (gauge_metric b) (insert_by_id (gauge_metric x) rest)) same₁
      ∙ ap (λ x. insert_by_id (gauge_metric x) (insert_by_id (gauge_metric b') rest)) same₂
  sort_by_id-perm (Permᴰ.trans d₁ d₂) h =
      sort_by_id-perm d₁ h ∙ sort_by_id-perm d₂ (IsMap-perm d₁ h)

  collect_batch-sorted :
      (a : Agent F)
      → (collect_batch a).0
        ≡ sort_by_id (map gauge_metric a.gauges) ++ (take_counters counter_metric_names a).0
  unfolding collect_batch snapshot_batch
  collect_batch-sorted a =
      let gauges = map gauge_metric a.gauges in
      let deltas = (take_counters counter_metric_names a).0 in
      rw (take-append_self gauges deltas, drop-append_self gauges deltas) refl

  -- For a map of gauges, in which two entries have two names: in whatever order a range over it meets
  -- them, collectBatch gives the same batch.
  pub collect_batch-stable :
      (a : Agent F) (gauges : Dict F)
      → IsMap a.gauges
      → Permᴰ a.gauges gauges
      → (collect_batch (record a { gauges = gauges })).0 ≡ (collect_batch a).0
  unfolding take_counters
  collect_batch-stable a gauges h d =
      collect_batch-sorted (record a { gauges = gauges })
      ∙ ap (λ l. l ++ (take_counters counter_metric_names a).0) (sym (sort_by_id-perm d h))
      ∙ sym (collect_batch-sorted a)
