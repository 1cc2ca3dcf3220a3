-- ===== src/Mixing/Scale/Total.antt =====
-- What scaling does to a recipe's volume, and when it is refused.
use cocktail_maker.Prelude.{
  ◌≡◌, ◌⊎◌, ◌↔◌, refl, sym, ap, ap₂, ◌∙◌, true, false, List, [], ◌∷◌, ◌++◌, map, some, none, arith,
  Bool-cases, inl, inr, some-injective,
}
use cocktail_maker.Quantity.{Double, IsExact, ◌⊕◌, ◌⊖◌, ◌⊗◌, ◌⊘◌}
use cocktail_maker.Quantity.Laws.{nought_mul, add_mul}
use cocktail_maker.Recipe.{Command, monostate, manual, dispense, single, parallel, Commands, leaves}
use cocktail_maker.Mixing.Scale.{
  scale_command_volume, scale_commands_uniformly, scale_epsilon, scale_recipe,
}
use cocktail_maker.Mixing.Boost.Conserved.{total_volume}

module _ {Q : Type 0} ⦃d : Double Q⦄ where
  map-append_commands :
      (f : Command Q → Command Q) (xs ys : List (Command Q))
      → map f (xs ++ ys) ≡ map f xs ++ map f ys
  map-append_commands f [] ys = refl
  map-append_commands f (x ∷ xs) ys = ap (◌∷◌ (f x)) (map-append_commands f xs ys)

  pub leaves-scale_uniformly :
      (cs : Commands Q) (factor : Q)
      → leaves (scale_commands_uniformly cs factor) ≡ map (scale_command_volume factor) (leaves cs)
  unfolding scale_commands_uniformly leaves
  leaves-scale_uniformly [] factor = refl
  leaves-scale_uniformly (single c ∷ rest) factor =
      ap (◌∷◌ (scale_command_volume factor c)) (leaves-scale_uniformly rest factor)
  leaves-scale_uniformly (parallel cs ∷ rest) factor =
      ap (◌++◌ (map (scale_command_volume factor) cs)) (leaves-scale_uniformly rest factor)
      ∙ sym (map-append_commands (scale_command_volume factor) cs (leaves rest))

  -- scale_recipe fails its assertions exactly when the nominal volume is not positive or the
  -- target is negative.
  pub scale_recipe-none_iff :
      (cs : Commands Q) (nominal target : Q)
      → (scale_recipe cs nominal target ≡ none)
        ↔ ((d.lt d.nought nominal ≡ false) ⊎ (d.le d.nought target ≡ false))
  unfolding scale_recipe
  scale_recipe-none_iff cs nominal target = (λ h. ground arith, λ h. ground arith)

  -- The total is multiplied by the factor, the recipe is unchanged or refused, and when.
  abbrev pub IsScaled : Commands Q → Q → Q → Type 0
  IsScaled cs nominal target =
      ((scale_recipe cs nominal target ≡ none)
        × ((d.lt d.nought nominal ≡ false) ⊎ (d.le d.nought target ≡ false)))
      ⊎ ((out : Commands Q) × ((scale_recipe cs nominal target ≡ some out)
            × ((d.lt d.nought nominal ≡ true)
                × ((d.le d.nought target ≡ true)
                    × (((d.le (d.abs (target ⊘ nominal ⊖ d.unit)) scale_epsilon ≡ true)
                          × (out ≡ cs))
                        ⊎ (total_volume (leaves out)
                            ≡ total_volume (leaves cs) ⊗ (target ⊘ nominal)))))))

  module _ (exact : IsExact Q) where
    total-scale_volume :
        (l : List (Command Q)) (factor : Q)
        → total_volume (map (scale_command_volume factor) l) ≡ total_volume l ⊗ factor
    unfolding scale_command_volume
    total-scale_volume [] factor = sym (nought_mul exact factor)
    total-scale_volume (dispense c ∷ cs) factor =
        ap (◌⊕◌ (c.volume ⊗ factor)) (total-scale_volume cs factor)
        ∙ sym (add_mul exact c.volume (total_volume cs) factor)
    total-scale_volume (monostate ∷ cs) factor =
        ap₂ ◌⊕◌ (sym (nought_mul exact factor)) (total-scale_volume cs factor)
        ∙ sym (add_mul exact d.nought (total_volume cs) factor)
    total-scale_volume (manual m ∷ cs) factor =
        ap₂ ◌⊕◌ (sym (nought_mul exact factor)) (total-scale_volume cs factor)
        ∙ sym (add_mul exact d.nought (total_volume cs) factor)

    -- With exact sums and products, scale_recipe multiplies the total of any recipe by
    -- target / nominal, unless that factor is so near to one that the recipe is unchanged; and it
    -- refuses exactly a nominal volume that is not positive or a negative target.
    pub scale_recipe-total : (cs : Commands Q) (nominal target : Q) → IsScaled cs nominal target
    unfolding scale_recipe
    scale_recipe-total cs nominal target = elim (Bool-cases (d.lt d.nought nominal)) [
      | inr n ↦ inl (rw (scale_recipe, n) refl, inl n)
      | inl n ↦ elim (Bool-cases (d.le d.nought target)) [
        | inr t ↦ inl (rw (scale_recipe, n, t) refl, inr t)
        | inl t ↦ elim (Bool-cases (d.le (d.abs (target ⊘ nominal ⊖ d.unit)) scale_epsilon)) [
          | inl near ↦ inr (cs, (rw (scale_recipe, n, t, near) refl, (n, (t, inl (near, refl)))))
          | inr far ↦ inr (
            scale_commands_uniformly cs (target ⊘ nominal),
            (
              rw (scale_recipe, n, t, far) refl,
              (
                n,
                (
                  t,
                  inr (
                      ap total_volume (leaves-scale_uniformly cs (target ⊘ nominal))
                      ∙ total-scale_volume (leaves cs) (target ⊘ nominal)),
                ),
              ),
            ),
          )
        ]
      ]
    ]

    -- Where the commands add up to the nominal volume and the factor is exact, the total of a scaled
    -- recipe is the target, unless the recipe is unchanged.
    pub scale_recipe-reaches :
        (cs out : Commands Q) (nominal target : Q)
        → scale_recipe cs nominal target ≡ some out
        → nominal ⊗ (target ⊘ nominal) ≡ target
        → total_volume (leaves cs) ≡ nominal
        → ((d.le (d.abs (target ⊘ nominal ⊖ d.unit)) scale_epsilon ≡ true) × (out ≡ cs))
          ⊎ (total_volume (leaves out) ≡ target)
    scale_recipe-reaches cs out nominal target h quotient adds_up =
        elim (scale_recipe-total cs nominal target) [
          | inl (refused, _) ↦ absurd cc
          | inr (out', (scaled, (_, (_, inl (near, same))))) ↦
              inl (near, some-injective out out' (sym h ∙ scaled) ∙ same)
          | inr (out', (scaled, (_, (_, inr total)))) ↦ inr (
              ap (λ l. total_volume (leaves l)) (some-injective out out' (sym h ∙ scaled))
              ∙ total
              ∙ ap (λ t. t ⊗ (target ⊘ nominal)) adds_up
              ∙ quotient)
        ]
