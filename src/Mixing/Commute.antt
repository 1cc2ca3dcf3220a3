-- ===== src/Mixing/Commute.antt =====
-- The claim of `recipe_scale.cppm` that scaling and boosting commute.
use cocktail_maker.Prelude.{
  ◌≡◌, refl, sym, ap, ap₂, ◌∙◌, List, [], ◌∷◌, map, some, none, Option, arith, not, if◌then◌else◌,
  and_then,
}
use cocktail_maker.Quantity.{Double, IsExact, ◌⊕◌, ◌⊗◌, ◌⊘◌}
use cocktail_maker.Quantity.Laws.{nought_mul, add_mul}
use cocktail_maker.Ingredient.{BoostCategory, fixed, boostable, reducible, IngredientStore}
use cocktail_maker.Recipe.{Command, monostate, manual, dispense, single, parallel, Commands, leaves}
use cocktail_maker.Mixing.Boost.Volumes.{in_boostable, in_reducible, sum_of, volumes_of-sum_of}
use cocktail_maker.Mixing.Scale.Total.{leaves-scale_uniformly}
use cocktail_maker.Mixing.Scale.{scale_command_volume, scale_commands_uniformly, scale_recipe}
use cocktail_maker.Mixing.Boost.{
  VolumeSummary, category_of, ScaleFactors, scale_command, scale_commands, compute_scale_factors,
  volumes_of, boost_recipe,
}

module _ {Q : Type 0} ⦃d : Double Q⦄ (store : IngredientStore) where
  boost_recipe_lem :
      (cs : Commands Q) (pct : Q)
      → boost_recipe cs pct store ≡ (
          if not (d.le (d.abs pct) d.hundred)
          then none
          else if d.lt (d.abs (pct ⊘ d.hundred)) d.epsilon
          then some cs
          else some (
              scale_commands store cs
                (compute_scale_factors (volumes_of store cs) (pct ⊘ d.hundred))))
  unfolding boost_recipe
  boost_recipe_lem cs pct = refl

  -- The volumes of a recipe, each times a factor.
  abbrev pub times : VolumeSummary Q → Q → VolumeSummary Q
  times vol f = record {
    boostable_litres = vol.boostable_litres ⊗ f;
    reducible_litres = vol.reducible_litres ⊗ f;
  }

  -- Scaling both volumes by `f` changes neither which of them count as none nor their ratio.
  pub record KeepsRatio (vol : VolumeSummary Q) (p f : Q) : Type 0 where
    pub boostable_sign :
        d.le (vol.boostable_litres ⊗ f) d.nought ≡ d.le vol.boostable_litres d.nought
    pub reducible_sign :
        d.le (vol.reducible_litres ⊗ f) d.nought ≡ d.le vol.reducible_litres d.nought
    pub up :
        p ⊗ (vol.reducible_litres ⊗ f) ⊘ (vol.boostable_litres ⊗ f)
        ≡ p ⊗ vol.reducible_litres ⊘ vol.boostable_litres
    pub down :
        p ⊗ (vol.boostable_litres ⊗ f) ⊘ (vol.reducible_litres ⊗ f)
        ≡ p ⊗ vol.boostable_litres ⊘ vol.reducible_litres

  compute_scale_factors-times :
      (vol : VolumeSummary Q) (p f : Q)
      → KeepsRatio vol p f
      → compute_scale_factors (times vol f) p ≡ compute_scale_factors vol p
  unfolding compute_scale_factors
  compute_scale_factors-times vol p f k = ground arith

  module _ (exact : IsExact Q) (f : Q) where
    -- A share that is a volume or nothing grows by the factor.
    abbrev Scales : (Option BoostCategory → Q → Q) → Type 0
    Scales part =
        (category : Option BoostCategory) (v : Q) → part category (v ⊗ f) ≡ part category v ⊗ f

    in_boostable-Scales : Scales in_boostable
    in_boostable-Scales none v = sym (nought_mul exact f)
    in_boostable-Scales (some boostable) v = refl
    in_boostable-Scales (some reducible) v = sym (nought_mul exact f)
    in_boostable-Scales (some fixed) v = sym (nought_mul exact f)

    in_reducible-Scales : Scales in_reducible
    in_reducible-Scales none v = sym (nought_mul exact f)
    in_reducible-Scales (some boostable) v = sym (nought_mul exact f)
    in_reducible-Scales (some reducible) v = refl
    in_reducible-Scales (some fixed) v = sym (nought_mul exact f)

    sum_of-scale_volume :
        (part : Option BoostCategory → Q → Q)
        → Scales part
        → (l : List (Command Q))
        → sum_of store part (map (scale_command_volume f) l) ≡ sum_of store part l ⊗ f
    unfolding scale_command_volume
    sum_of-scale_volume part h [] = sym (nought_mul exact f)
    sum_of-scale_volume part h (dispense c ∷ cs) =
        ap₂ ◌⊕◌ (h (category_of store c.ingredient) c.volume) (sum_of-scale_volume part h cs)
        ∙ sym (add_mul exact _ (sum_of store part cs) f)
    sum_of-scale_volume part h (monostate ∷ cs) =
        ap₂ ◌⊕◌ (sym (nought_mul exact f)) (sum_of-scale_volume part h cs)
        ∙ sym (add_mul exact d.nought (sum_of store part cs) f)
    sum_of-scale_volume part h (manual m ∷ cs) =
        ap₂ ◌⊕◌ (sym (nought_mul exact f)) (sum_of-scale_volume part h cs)
        ∙ sym (add_mul exact d.nought (sum_of store part cs) f)

    volumes_of-scale_uniformly :
        (cs : Commands Q)
        → volumes_of store (scale_commands_uniformly cs f) ≡ times (volumes_of store cs) f
    volumes_of-scale_uniformly cs = ground (
      arith,
      volumes_of-sum_of store exact cs,
      volumes_of-sum_of store exact (scale_commands_uniformly cs f),
      ap (sum_of store in_boostable) (leaves-scale_uniformly cs f),
      ap (sum_of store in_reducible) (leaves-scale_uniformly cs f),
      sum_of-scale_volume in_boostable in_boostable-Scales (leaves cs),
      sum_of-scale_volume in_reducible in_reducible-Scales (leaves cs),
    )

    module _ (s : ScaleFactors Q) where
      mul_swap : (v a : Q) → v ⊗ f ⊗ a ≡ v ⊗ a ⊗ f
      mul_swap v a =
          exact.mul_assoc v f a ∙ ap (◌⊗◌ v) (exact.mul_comm f a) ∙ sym (exact.mul_assoc v a f)

      scale_command-volume :
          (c : Command Q)
          → scale_command store s (scale_command_volume f c)
            ≡ scale_command_volume f (scale_command store s c)
      unfolding scale_command scale_command_volume
      scale_command-volume monostate = refl
      scale_command-volume (manual m) = refl
      scale_command-volume (dispense c) =
          ground (arith, mul_swap c.volume s.boostable, mul_swap c.volume s.reducible)

      scale_all-volume :
          (cs : List (Command Q))
          → map (scale_command store s) (map (scale_command_volume f) cs)
            ≡ map (scale_command_volume f) (map (scale_command store s) cs)
      scale_all-volume [] = refl
      scale_all-volume (c ∷ cs) = ap₂ ◌∷◌ (scale_command-volume c) (scale_all-volume cs)

      scale_commands-uniformly :
          (cs : Commands Q)
          → scale_commands store (scale_commands_uniformly cs f) s
            ≡ scale_commands_uniformly (scale_commands store cs s) f
      unfolding scale_commands scale_commands_uniformly
      scale_commands-uniformly [] = refl
      scale_commands-uniformly (single c ∷ rest) =
          ap₂ ◌∷◌ (ap single (scale_command-volume c)) (scale_commands-uniformly rest)
      scale_commands-uniformly (parallel cs ∷ rest) =
          ap₂ ◌∷◌ (ap parallel (scale_all-volume cs)) (scale_commands-uniformly rest)

  -- Where sums and products are exact and the factor keeps the signs and the ratio of the two
  -- volumes, scaling and boosting commute: both orders refuse the recipe or give the same
  -- commands.
  pub scale-boost_recipe :
      (exact : IsExact Q) (cs : Commands Q) (pct nominal target : Q)
      → KeepsRatio (volumes_of store cs) (pct ⊘ d.hundred) (target ⊘ nominal)
      → and_then (boost_recipe cs pct store) (λ boosted. scale_recipe boosted nominal target)
        ≡ and_then (scale_recipe cs nominal target) (λ scaled. boost_recipe scaled pct store)
  unfolding scale_recipe
  scale-boost_recipe exact cs pct nominal target k =
      let f = target ⊘ nominal in
      let p = pct ⊘ d.hundred in
      let factors = compute_scale_factors (volumes_of store cs) p in
      ground (
        arith,
        boost_recipe_lem cs pct,
        boost_recipe_lem (scale_commands_uniformly cs f) pct,
        scale_commands-uniformly exact f factors cs,
        volumes_of-scale_uniformly exact f cs,
        compute_scale_factors-times (volumes_of store cs) p f k,
      )
