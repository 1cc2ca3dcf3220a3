-- ===== src/Mixing/Boost/Conserved.antt =====
-- Where the arithmetic is exact, boosting shifts volume and conserves the total.
use cocktail_maker.Prelude.{
  ◌≡◌, refl, sym, subst, ap, ap₂, ◌∙◌, List, [], ◌∷◌, map, true, false, some, arith, if◌then◌else◌,
  inl, inr,
}
use cocktail_maker.Quantity.{Double, IsExact, ◌⊕◌, ◌⊖◌, ◌⊗◌, ◌⊘◌}
use cocktail_maker.Quantity.Laws.{mul_unit_add, mul_unit_sub}
use cocktail_maker.Ingredient.{IngredientStore}
use cocktail_maker.Recipe.{Command, monostate, manual, dispense, Commands, leaves}
use cocktail_maker.Mixing.Boost.Cases.{boost_recipe_cases}
use cocktail_maker.Mixing.Boost.{
  VolumeSummary, ScaleFactors, compute_scale_factors, no_scaling, scale_commands, scale_command,
  volumes_of, boost_recipe,
}
use cocktail_maker.Mixing.Boost.Volumes.{
  in_boostable, in_reducible, in_total, sum_of, volumes_of-sum_of, leaves-scale_commands,
  sum_of-scale_boostable, sum_of-scale_reducible, sum_of-scale_rest, sum_of_split,
}

module _ {Q : Type 0} ⦃d : Double Q⦄ where
  -- The quotient that `compute_scale_factors` takes, where it is called and takes one, is exact.
  abbrev pub QuotientIsExact : VolumeSummary Q → Q → Type 0
  QuotientIsExact vol p =
      let v_b = vol.boostable_litres in
      let v_r = vol.reducible_litres in
      if d.lt (d.abs p) d.epsilon
      then Unit
      else if d.le d.nought p
      then (if d.le v_b d.nought then Unit else (v_b ⊗ (p ⊗ v_r ⊘ v_b) ≡ v_r ⊗ p))
      else if d.le v_r d.nought
      then Unit
      else (v_r ⊗ (p ⊗ v_b ⊘ v_r) ≡ v_b ⊗ p)

  -- The factors that conserve the volume of a split.
  abbrev pub Conserves : VolumeSummary Q → ScaleFactors Q → Type 0
  Conserves vol s =
      vol.boostable_litres ⊗ s.boostable ⊕ vol.reducible_litres ⊗ s.reducible
      ≡ vol.boostable_litres ⊕ vol.reducible_litres

module _ {Q : Type 0} ⦃d : Double Q⦄ (exact : IsExact Q) where
  move_share : (a b x y : Q) → y ⊕ x ≡ b → a ⊕ x ⊕ y ≡ a ⊕ b
  move_share a b x y h = exact.add_assoc a x y ∙ ap (◌⊕◌ a) (exact.add_comm x y ∙ h)

  unscaled-Conserves : (vol : VolumeSummary Q) → Conserves vol no_scaling
  unscaled-Conserves vol =
      ap₂ ◌⊕◌ (exact.mul_unit vol.boostable_litres) (exact.mul_unit vol.reducible_litres)

  -- The two ways to shift, `q` being the quotient.
  to_boostable-Conserves :
      (v_b v_r p q : Q) → v_b ⊗ q ≡ v_r ⊗ p → v_b ⊗ (d.unit ⊕ q) ⊕ v_r ⊗ (d.unit ⊖ p) ≡ v_b ⊕ v_r
  to_boostable-Conserves v_b v_r p q h =
      ap (λ t. t ⊕ v_r ⊗ (d.unit ⊖ p)) (mul_unit_add exact v_b q ∙ ap (◌⊕◌ v_b) h)
      ∙ move_share v_b v_r (v_r ⊗ p) (v_r ⊗ (d.unit ⊖ p)) (mul_unit_sub exact v_r p)

  to_reducible-Conserves :
      (v_b v_r p q : Q) → v_r ⊗ q ≡ v_b ⊗ p → v_b ⊗ (d.unit ⊕ p) ⊕ v_r ⊗ (d.unit ⊖ q) ≡ v_b ⊕ v_r
  to_reducible-Conserves v_b v_r p q h =
      ap (λ t. t ⊕ v_r ⊗ (d.unit ⊖ q)) (mul_unit_add exact v_b p)
      ∙ move_share v_b v_r (v_b ⊗ p) (v_r ⊗ (d.unit ⊖ q))
          (ap (◌⊕◌ (v_r ⊗ (d.unit ⊖ q))) (sym h) ∙ mul_unit_sub exact v_r q)

  compute_scale_factors-Conserves :
      (vol : VolumeSummary Q) (p : Q)
      → d.lt (d.abs p) d.epsilon ≡ false
      → QuotientIsExact vol p
      → Conserves vol (compute_scale_factors vol p)
  unfolding compute_scale_factors
  compute_scale_factors-Conserves vol p strong h = ground (
    arith,
    unscaled-Conserves vol,
    to_boostable-Conserves vol.boostable_litres vol.reducible_litres p
        (p ⊗ vol.reducible_litres ⊘ vol.boostable_litres),
    to_reducible-Conserves vol.boostable_litres vol.reducible_litres p
        (p ⊗ vol.boostable_litres ⊘ vol.reducible_litres),
  )

module _ {Q : Type 0} ⦃d : Double Q⦄ where
  -- The volume that a list of commands dispenses.
  abbrev pub total_volume : List (Command Q) → Q
  total_volume [] = d.nought
  total_volume (dispense c ∷ cs) = c.volume ⊕ total_volume cs
  total_volume (monostate ∷ cs) = d.nought ⊕ total_volume cs
  total_volume (manual m ∷ cs) = d.nought ⊕ total_volume cs

  total_volume-sum_of :
      (store : IngredientStore) (l : List (Command Q)) → total_volume l ≡ sum_of store in_total l
  total_volume-sum_of store [] = refl
  total_volume-sum_of store (dispense c ∷ cs) = ap (◌⊕◌ c.volume) (total_volume-sum_of store cs)
  total_volume-sum_of store (monostate ∷ cs) = ap (◌⊕◌ d.nought) (total_volume-sum_of store cs)
  total_volume-sum_of store (manual m ∷ cs) = ap (◌⊕◌ d.nought) (total_volume-sum_of store cs)

  module _ (exact : IsExact Q) (store : IngredientStore) (cs : Commands Q) where
    volumes_of-scale :
        (s : ScaleFactors Q)
        → volumes_of store (scale_commands store cs s) ≡ record {
          boostable_litres = (volumes_of store cs).boostable_litres ⊗ s.boostable;
          reducible_litres = (volumes_of store cs).reducible_litres ⊗ s.reducible;
        }
    volumes_of-scale s = ground (
      arith,
      volumes_of-sum_of store exact cs,
      volumes_of-sum_of store exact (scale_commands store cs s),
      ap (sum_of store in_boostable) (leaves-scale_commands store cs s),
      ap (sum_of store in_reducible) (leaves-scale_commands store cs s),
      sum_of-scale_boostable store exact s (leaves cs),
      sum_of-scale_reducible store exact s (leaves cs),
    )

    total-scale :
        (s : ScaleFactors Q)
        → Conserves (volumes_of store cs) s
        → sum_of store in_total (leaves (scale_commands store cs s))
          ≡ sum_of store in_total (leaves cs)
    total-scale s conserves =
        let before = leaves cs in
        let after = leaves-scale_commands store cs s in
        let split = volumes_of-sum_of store exact cs in
        ap (sum_of store in_total) after
        ∙ sum_of_split store exact (scaled before)
        ∙ ap₂ ◌⊕◌
            (ap₂ ◌⊕◌ (sum_of-scale_boostable store exact s before)
                (sum_of-scale_reducible store exact s before)
              ∙ subst (λ v. Conserves v s) split conserves)
            (sum_of-scale_rest store exact s before)
        ∙ sym (sum_of_split store exact before)
      where
        scaled : List (Command Q) → List (Command Q)
        scaled = map (scale_command store s)

    module _ (pct : Q) (out : Commands Q) (done : boost_recipe cs pct store ≡ some out) where
      -- Where sums and products are exact, and the quotient of volumes is exact where the code takes
      -- one, boost_recipe at any strength leaves the total dispensed volume of the recipe as it was.
      pub boost_recipe-total :
          QuotientIsExact (volumes_of store cs) (pct ⊘ d.hundred)
          → total_volume (leaves out) ≡ total_volume (leaves cs)
      boost_recipe-total h = elim (boost_recipe_cases cs out pct store done) [
        | inl (_, same) ↦ ap (λ l. total_volume (leaves l)) same
        | inr (strong, scaled) ↦
            ap (λ l. total_volume (leaves l)) scaled
            ∙ total_volume-sum_of store _
            ∙ total-scale _ (compute_scale_factors-Conserves exact (volumes_of store cs) _ strong h)
            ∙ sym (total_volume-sum_of store (leaves cs))
      ]

      abbrev before : VolumeSummary Q
      before = volumes_of store cs

      abbrev after : VolumeSummary Q
      after = volumes_of store out

      scaled_volumes :
          (s : ScaleFactors Q)
          → d.lt (d.abs (pct ⊘ d.hundred)) d.epsilon ≡ false
          → compute_scale_factors before (pct ⊘ d.hundred) ≡ s
          → (after.boostable_litres ≡ before.boostable_litres ⊗ s.boostable)
            × (after.reducible_litres ≡ before.reducible_litres ⊗ s.reducible)
      scaled_volumes s strong factors = elim (boost_recipe_cases cs out pct store done) [
        | inl (weak, _) ↦ cc
        | inr (_, scaled) ↦
            let e : after ≡ _ =
              ap (volumes_of store) (scaled ∙ ap (scale_commands store cs) factors)
              ∙ volumes_of-scale s in
            (ap (λ v. v.boostable_litres) e, ap (λ v. v.reducible_litres) e)
      ]

      -- With exact arithmetic, a positive boost of a recipe with boostable volume moves the share
      -- p of the reducible volume to the boostable volume.
      pub boost_recipe_up :
          d.le d.nought (pct ⊘ d.hundred) ≡ true
          → d.lt (d.abs (pct ⊘ d.hundred)) d.epsilon ≡ false
          → d.le before.boostable_litres d.nought ≡ false
          → QuotientIsExact before (pct ⊘ d.hundred)
          → (after.boostable_litres
              ≡ before.boostable_litres ⊕ before.reducible_litres ⊗ (pct ⊘ d.hundred))
            × (after.reducible_litres ⊕ before.reducible_litres ⊗ (pct ⊘ d.hundred)
                ≡ before.reducible_litres)
      unfolding compute_scale_factors
      boost_recipe_up up strong some_volume h =
          let p = pct ⊘ d.hundred in
          let q = p ⊗ before.reducible_litres ⊘ before.boostable_litres in
          let s : ScaleFactors Q = record { boostable = d.unit ⊕ q; reducible = d.unit ⊖ p } in
          let (b, r) = scaled_volumes s strong (rw (up, some_volume)) in
          (
            b
                ∙ mul_unit_add exact before.boostable_litres q
                ∙ ap (◌⊕◌ before.boostable_litres) (rw (strong, up, some_volume) at h),
            ap (λ t. t ⊕ before.reducible_litres ⊗ p) r
                ∙ mul_unit_sub exact before.reducible_litres p,
          )

      -- With exact arithmetic, a negative boost of a recipe with reducible volume moves the share
      -- |p| of the boostable volume to the reducible volume.
      pub boost_recipe_down :
          d.le d.nought (pct ⊘ d.hundred) ≡ false
          → d.lt (d.abs (pct ⊘ d.hundred)) d.epsilon ≡ false
          → d.le before.reducible_litres d.nought ≡ false
          → QuotientIsExact before (pct ⊘ d.hundred)
          → (after.boostable_litres
              ≡ before.boostable_litres ⊕ before.boostable_litres ⊗ (pct ⊘ d.hundred))
            × (after.reducible_litres ⊕ before.boostable_litres ⊗ (pct ⊘ d.hundred)
                ≡ before.reducible_litres)
      unfolding compute_scale_factors
      boost_recipe_down down strong some_volume h =
          let p = pct ⊘ d.hundred in
          let q = p ⊗ before.boostable_litres ⊘ before.reducible_litres in
          let s : ScaleFactors Q = record { boostable = d.unit ⊕ p; reducible = d.unit ⊖ q } in
          let (b, r) = scaled_volumes s strong (rw (down, some_volume)) in
          (
            b ∙ mul_unit_add exact before.boostable_litres p,
            ap₂ ◌⊕◌ r (sym (rw (strong, down, some_volume) at h))
                ∙ mul_unit_sub exact before.reducible_litres q,
          )
