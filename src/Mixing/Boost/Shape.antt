-- ===== src/Mixing/Boost/Shape.antt =====
-- What a boost leaves alone, whatever the arithmetic does.
use cocktail_maker.Prelude.{
  ◌≡◌, refl, sym, subst, List, [], ◌∷◌, map, Option, none, some, arith, inl, inr,
}
use cocktail_maker.Quantity.{Double}
use cocktail_maker.Ingredient.{BoostCategory, boostable, reducible, fixed, IngredientStore}
use cocktail_maker.Recipe.{Command, monostate, manual, dispense, single, parallel, Commands}
use cocktail_maker.Mixing.Boost.Cases.{boost_recipe_cases}
use cocktail_maker.Mixing.Boost.{
  ScaleFactors, category_of, scale_command, scale_commands, boost_recipe,
}

module _ {Q : Type 0} (store : IngredientStore) where
  -- Only a volume that is boostable or reducible may differ.
  abbrev VolumeKept : Option BoostCategory → Q → Q → Type 0
  VolumeKept (some boostable) v w = Unit {0}
  VolumeKept (some reducible) v w = Unit {0}
  VolumeKept _ v w = v ≡ w

  abbrev pub Kept : Command Q → Command Q → Type 0
  Kept monostate monostate = Unit {0}
  Kept (manual m) (manual n) = m ≡ n
  Kept (dispense c) (dispense e) =
      (c.id ≡ e.id)
      × (c.ingredient ≡ e.ingredient)
      × VolumeKept (category_of store c.ingredient) c.volume e.volume
  Kept _ _ = ⊥

  abbrev AllKept : List (Command Q) → List (Command Q) → Type 0
  AllKept [] [] = Unit {0}
  AllKept (c ∷ cs) (e ∷ es) = Kept c e × AllKept cs es
  AllKept _ _ = ⊥

  abbrev pub StepsKept : Commands Q → Commands Q → Type 0
  StepsKept [] [] = Unit {0}
  StepsKept (single c ∷ rest) (single e ∷ more) = Kept c e × StepsKept rest more
  StepsKept (parallel cs ∷ rest) (parallel es ∷ more) = AllKept cs es × StepsKept rest more
  StepsKept _ _ = ⊥

  VolumeKept-self : (category : Option BoostCategory) (v : Q) → VolumeKept category v v
  VolumeKept-self (some boostable) v = tt
  VolumeKept-self (some reducible) v = tt
  VolumeKept-self (some fixed) v = refl
  VolumeKept-self none v = refl

  Kept-self : (c : Command Q) → Kept c c
  Kept-self monostate = tt
  Kept-self (manual m) = refl
  Kept-self (dispense c) = (refl, refl, VolumeKept-self (category_of store c.ingredient) c.volume)

  AllKept-self : (cs : List (Command Q)) → AllKept cs cs
  AllKept-self [] = tt
  AllKept-self (c ∷ cs) = (Kept-self c, AllKept-self cs)

  StepsKept-self : (cs : Commands Q) → StepsKept cs cs
  StepsKept-self [] = tt
  StepsKept-self (single c ∷ rest) = (Kept-self c, StepsKept-self rest)
  StepsKept-self (parallel cs ∷ rest) = (AllKept-self cs, StepsKept-self rest)

  module _ ⦃d : Double Q⦄ (scales : ScaleFactors Q) where
    Kept-scale : (c : Command Q) → Kept c (scale_command store scales c)
    unfolding scale_command
    Kept-scale monostate = tt
    Kept-scale (manual m) = refl
    Kept-scale (dispense c) = ground arith

    AllKept-scale : (cs : List (Command Q)) → AllKept cs (map (scale_command store scales) cs)
    AllKept-scale [] = tt
    AllKept-scale (c ∷ cs) = (Kept-scale c, AllKept-scale cs)

    StepsKept-scale : (cs : Commands Q) → StepsKept cs (scale_commands store cs scales)
    unfolding scale_commands
    StepsKept-scale [] = tt
    StepsKept-scale (single c ∷ rest) = (Kept-scale c, StepsKept-scale rest)
    StepsKept-scale (parallel cs ∷ rest) = (AllKept-scale cs, StepsKept-scale rest)

  -- A boosted recipe keeps its steps, grouping, manual commands, ids and ingredients; a volume
  -- differs at most where the ingredient is boostable or reducible.
  pub boost_recipe-StepsKept :
      ⦃d : Double Q⦄ (cs out : Commands Q) (pct : Q)
      → boost_recipe cs pct store ≡ some out
      → StepsKept cs out
  boost_recipe-StepsKept cs out pct h = elim (boost_recipe_cases cs out pct store h) [
    | inl (_, same) ↦ subst (StepsKept cs) (sym same) (StepsKept-self cs)
    | inr (_, scaled) ↦ subst (StepsKept cs) (sym scaled) (StepsKept-scale _ cs)
  ]
