-- ===== src/Behavior/Mix.antt =====
-- internal/behavior/plan.go: the weighted mix of action templates, and the draw from it.
use phantom_traffic.Prelude.{
  ℕ, suc, ◌+◌, ◌≡◌, ◌∙◌, ◌⊎◌, inl, inr, refl, sym, ap, subst, Bool, ◌||◌, List, [], ◌∷◌, Option,
  none, some, String, arith, if◌then◌else◌, Bool-cases, get_elem?,
}
use phantom_traffic.Prelude.Float.{Float64, fzero, fle}
use phantom_traffic.Protocols.Action.{Cause, PacingMode, Ref}
use phantom_traffic.Behavior.{Rand, Math}

pub record Template (F : Type 0) : Type 0 where
  pub protocol : String
  pub verb : String
  pub cause : Cause
  pub pacing : PacingMode
  pub weight : F

abbrev pub ref : {F : Type 0} → Template F → Ref
ref t = record { protocol = t.protocol; verb = t.verb }

pub record TemplateMix (F : Type 0) : Type 0 where
  pub templates : List (Template F)
  pub cum_weights : List F
  pub total : F

pub data MixErr : Type 0 where
  empty_mix : MixErr
  bad_weight : ℕ → Ref → MixErr

module _ {R F : Type 0} (rng : Rand R F) (math : Math F) (ops : Float64 F) where
  open rng use {float64}
  open math use {is_nan, is_inf}
  open ops use {flt, fadd, fmul}

  unfoldable pub bad_weight? : F → Bool
  bad_weight? w = is_nan w || (is_inf w || fle ops w (fzero ops))

  unfoldable pub prepend : F → MixErr ⊎ (List F × F) → MixErr ⊎ (List F × F)
  prepend c (inl e) = inl e
  prepend c (inr (cum, sum)) = inr (c ∷ cum, sum)

  -- The loop from template `i` on, with the total so far.
  unfoldable pub cumulate : ℕ → F → List (Template F) → MixErr ⊎ (List F × F)
  unfolding bad_weight? prepend
  cumulate i total [] = inr ([], total)
  cumulate i total (t ∷ ts) =
      let total' = fadd total t.weight in
      let rest = cumulate (i + 1) total' ts in
      if bad_weight? t.weight then inl (bad_weight i (ref t)) else prepend total' rest

  unfoldable pub as_mix : List (Template F) → MixErr ⊎ (List F × F) → MixErr ⊎ TemplateMix F
  as_mix ts (inl e) = inl e
  as_mix ts (inr (cum, sum)) = inr (record { templates = ts; cum_weights = cum; total = sum })

  unfoldable pub new_template_mix : List (Template F) → MixErr ⊎ TemplateMix F
  unfolding cumulate as_mix
  new_template_mix [] = inl empty_mix
  new_template_mix (t ∷ ts) = as_mix (t ∷ ts) (cumulate 0 (fzero ops) (t ∷ ts))

  -- The index of the first cumulative weight above `x`.
  unfoldable pub pick_index : F → List F → Option ℕ
  pick_index x [] = none
  pick_index x (c ∷ cs) =
      let rest = pick_index x cs in
      if flt x c then some 0 else elim rest [ none ↦ none | some i ↦ some (suc i) ]

  unfoldable pub last_template : List (Template F) → Option (Template F)
  last_template [] = none
  last_template (t ∷ []) = some t
  last_template (t ∷ u ∷ ts) = last_template (u ∷ ts)

  unfoldable pub pick_at : List (Template F) → List F → F → Option (Template F)
  unfolding pick_index last_template
  pick_at ts cum x = elim (pick_index x cum) [ some i ↦ get_elem? ts i | none ↦ last_template ts ]

  -- `none` is the panic of an index out of range.
  unfoldable pub pick : TemplateMix F → R → Option (Template F) × R
  unfolding pick_at
  pick m r =
      let (draw, r') = float64 r in (pick_at m.templates m.cum_weights (fmul draw m.total), r')

  -- The wheel: walk the templates and add up their weights until the sum is above `x`; past the end
  -- it is the last one.
  unfoldable pub wheel : F → F → Template F → List (Template F) → Template F
  wheel x sum t [] = t
  wheel x sum t (u ∷ ts) = if flt x (fadd sum t.weight) then t else wheel x (fadd sum t.weight) u ts

  -- The whole weight, added up from the left.
  unfoldable pub whole : F → List (Template F) → F
  whole sum [] = sum
  whole sum (t ∷ ts) = whole (fadd sum t.weight) ts

  cumulate_cons :
      (i : ℕ) (sum total : F) (t : Template F) (ts : List (Template F)) (cum : List F)
      → cumulate i sum (t ∷ ts) ≡ inr (cum, total)
      → (cum' : List F) × (cum ≡ fadd sum t.weight ∷ cum')
        × (cumulate (i + 1) (fadd sum t.weight) ts ≡ inr (cum', total))
  unfolding cumulate
  cumulate_cons i sum total t ts cum e = elim (Bool-cases (bad_weight? t.weight)) [
    | inl bad ↦
        absurd
          (let e' : inl (bad_weight i (ref t)) ≡ inr (cum, total) = rw (bad, cumulate) at e in cc)
    | inr good ↦ tail (cumulate (i + 1) (fadd sum t.weight) ts) refl (rw (good, cumulate) at e)
  ]
    where
      tail :
          (rest : MixErr ⊎ (List F × F))
          → cumulate (i + 1) (fadd sum t.weight) ts ≡ rest
          → prepend (fadd sum t.weight) rest ≡ inr (cum, total)
          → (cum' : List F) × (cum ≡ fadd sum t.weight ∷ cum')
            × (cumulate (i + 1) (fadd sum t.weight) ts ≡ inr (cum', total))
      tail (inl x) h e = absurd (cc)
      tail (inr (cum', total')) h e = (cum', cc, cc)

  pick_at-cons :
      (x c : F) (cum : List F) (t u : Template F) (ts : List (Template F))
      → pick_at (t ∷ u ∷ ts) (c ∷ cum) x ≡ (if flt x c then some t else pick_at (u ∷ ts) cum x)
  unfolding pick_at
  pick_at-cons x c cum t u ts = ground (arith)

  cumulate-wheel :
      (i : ℕ) (sum x total : F) (t : Template F) (ts : List (Template F)) (cum : List F)
      → cumulate i sum (t ∷ ts) ≡ inr (cum, total)
      → (pick_at (t ∷ ts) cum x ≡ some (wheel x sum t ts)) × (total ≡ whole sum (t ∷ ts))
  unfolding cumulate wheel whole pick_at
  cumulate-wheel i sum x total t [] cum e =
      let (cum', head, rest) = cumulate_cons i sum total t [] cum e in
      let only : cum ≡ fadd sum t.weight ∷ [] = cc in
      (subst (λ k. pick_at (t ∷ []) k x ≡ some t) (sym only) (ground arith), cc)
  cumulate-wheel i sum x total t (u ∷ ts) cum e =
      let (cum', head, rest) = cumulate_cons i sum total t (u ∷ ts) cum e in
      let (picked, sums) = cumulate-wheel (i + 1) (fadd sum t.weight) x total u ts cum' rest in
      let c = fadd sum t.weight in
      (
        subst (λ k. pick_at (t ∷ u ∷ ts) k x ≡ some (wheel x sum t (u ∷ ts))) (sym head)
            (pick_at-cons x c cum' t u ts ∙ ground arith),
        sums,
      )

  new_template_mix_parts :
      (t : Template F) (ts : List (Template F)) (m : TemplateMix F)
      → new_template_mix (t ∷ ts) ≡ inr m
      → (m.templates ≡ t ∷ ts) × (cumulate 0 (fzero ops) (t ∷ ts) ≡ inr (m.cum_weights, m.total))
  unfolding new_template_mix
  new_template_mix_parts t ts m e = parts (cumulate 0 (fzero ops) (t ∷ ts)) refl e
    where
      parts :
          (o : MixErr ⊎ (List F × F))
          → cumulate 0 (fzero ops) (t ∷ ts) ≡ o
          → as_mix (t ∷ ts) o ≡ inr m
          → (m.templates ≡ t ∷ ts)
            × (cumulate 0 (fzero ops) (t ∷ ts) ≡ inr (m.cum_weights, m.total))
      parts (inl x) h e = absurd (cc)
      parts (inr (cum, sum)) h e =
          let same : record { templates = t ∷ ts; cum_weights = cum; total = sum } ≡ m = cc in
          (sym (ap (λ k. k.templates) same), h ∙ (λ i. inr ((same i).cum_weights, (same i).total)))

  -- A mix that NewTemplateMix accepts draws as from a wheel: Pick returns the first template at which
  -- the running sum of the weights is above the draw times the whole weight, and the last one where
  -- there is none. It never panics, and takes one draw.
  pub pick-wheel :
      (t : Template F) (ts : List (Template F)) (m : TemplateMix F) (r : R)
      → new_template_mix (t ∷ ts) ≡ inr m
      → pick m r ≡ (
        some (wheel (fmul (float64 r).0 (whole (fzero ops) (t ∷ ts))) (fzero ops) t ts),
        (float64 r).1,
      )
  unfolding new_template_mix pick
  pick-wheel t ts m r e =
      let (all, cumulated) = new_template_mix_parts t ts m e in
      let x = fmul (float64 r).0 m.total in
      let (picked, sum) = cumulate-wheel 0 (fzero ops) x m.total t ts m.cum_weights cumulated in
      let chosen : pick_at m.templates m.cum_weights x ≡ some (wheel x (fzero ops) t ts) =
        ap (λ k. pick_at k m.cum_weights x) all ∙ picked in
      λ i. (
        (chosen ∙ ap (λ s. some (wheel (fmul (float64 r).0 s) (fzero ops) t ts)) sum) i,
        (float64 r).1,
      )
