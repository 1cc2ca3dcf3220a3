-- ===== src/Mixing/Boost/Volumes.antt =====
-- The volumes of a recipe, by category, and what scaling does to them.
use cocktail_maker.Prelude.{
  ◌≡◌, refl, sym, ap, ap₂, ◌∙◌, List, [], ◌∷◌, ◌++◌, map, foldl, Option, some, arith,
}
use cocktail_maker.Quantity.{Double, IsExact, ◌⊕◌, ◌⊗◌}
use cocktail_maker.Quantity.Laws.{nought_add, nought_mul, add_mul, add_swap}
use cocktail_maker.Ingredient.{BoostCategory, boostable, reducible, IngredientStore}
use cocktail_maker.Recipe.{Command, dispense, single, parallel, Commands, leaves}
use cocktail_maker.Mixing.Boost.{
  VolumeSummary, ScaleFactors, fold_commands, category_of, accumulate_volumes, scale_command,
  scale_commands, volumes_of,
}

foldl-append {ℓ κ} :
    {A : Type ℓ} {B : Type κ} (f : B → A → B) (xs ys : List A) (b : B)
    → foldl f b (xs ++ ys) ≡ foldl f (foldl f b xs) ys
foldl-append f [] ys b = refl
foldl-append f (x ∷ xs) ys b = foldl-append f xs ys (f b x)

-- A fold over the tree is a fold over its commands in order.
pub fold_commands-leaves {ℓ} :
    {Q : Type 0} {T : Type ℓ} (cs : Commands Q) (init : T) (fn : T → Command Q → T)
    → fold_commands cs init fn ≡ foldl fn init (leaves cs)
unfolding fold_commands leaves
fold_commands-leaves [] init fn = refl
fold_commands-leaves (single c ∷ rest) init fn = fold_commands-leaves rest (fn init c) fn
fold_commands-leaves (parallel cs ∷ rest) init fn =
    fold_commands-leaves rest (foldl fn init cs) fn ∙ sym (foldl-append fn cs (leaves rest) init)

-- The part of a volume that counts for a category; `rest` is what boosting leaves alone.
module _ {Q : Type 0} ⦃d : Double Q⦄ where
  abbrev pub in_boostable : Option BoostCategory → Q → Q
  in_boostable (some boostable) v = v
  in_boostable _ v = d.nought

  abbrev pub in_reducible : Option BoostCategory → Q → Q
  in_reducible (some reducible) v = v
  in_reducible _ v = d.nought

  abbrev pub in_rest : Option BoostCategory → Q → Q
  in_rest (some boostable) v = d.nought
  in_rest (some reducible) v = d.nought
  in_rest _ v = v

  abbrev pub in_total : Option BoostCategory → Q → Q
  in_total _ v = v

  abbrev pub share : IngredientStore → (Option BoostCategory → Q → Q) → Command Q → Q
  share store f (dispense c) = f (category_of store c.ingredient) c.volume
  share store f _ = d.nought

  abbrev pub sum_of : IngredientStore → (Option BoostCategory → Q → Q) → List (Command Q) → Q
  sum_of store f [] = d.nought
  sum_of store f (c ∷ cs) = share store f c ⊕ sum_of store f cs

module _ {Q : Type 0} ⦃d : Double Q⦄ (store : IngredientStore) where
  map-append_commands :
      (f : Command Q → Command Q) (xs ys : List (Command Q))
      → map f (xs ++ ys) ≡ map f xs ++ map f ys
  map-append_commands f [] ys = refl
  map-append_commands f (x ∷ xs) ys = ap (◌∷◌ (f x)) (map-append_commands f xs ys)

  pub leaves-scale_commands :
      (cs : Commands Q) (scales : ScaleFactors Q)
      → leaves (scale_commands store cs scales) ≡ map (scale_command store scales) (leaves cs)
  unfolding scale_commands leaves
  leaves-scale_commands [] scales = refl
  leaves-scale_commands (single c ∷ rest) scales =
      ap (◌∷◌ (scale_command store scales c)) (leaves-scale_commands rest scales)
  leaves-scale_commands (parallel cs ∷ rest) scales =
      ap (◌++◌ (map (scale_command store scales) cs)) (leaves-scale_commands rest scales)
      ∙ sym (map-append_commands (scale_command store scales) cs (leaves rest))

  module _ (exact : IsExact Q) where
    abbrev grown : VolumeSummary Q → Q → Q → VolumeSummary Q
    grown acc b r = record {
      boostable_litres = acc.boostable_litres ⊕ b;
      reducible_litres = acc.reducible_litres ⊕ r;
    }

    accumulate-share :
        (acc : VolumeSummary Q) (c : Command Q)
        → accumulate_volumes store acc c
          ≡ grown acc (share store in_boostable c) (share store in_reducible c)
    unfolding accumulate_volumes
    accumulate-share acc (dispense c) =
        ground (arith, exact.add_nought acc.boostable_litres, exact.add_nought acc.reducible_litres)
    accumulate-share acc _ =
        ground (arith, exact.add_nought acc.boostable_litres, exact.add_nought acc.reducible_litres)

    foldl-accumulate :
        (acc : VolumeSummary Q) (l : List (Command Q))
        → foldl (accumulate_volumes store) acc l
          ≡ grown acc (sum_of store in_boostable l) (sum_of store in_reducible l)
    foldl-accumulate acc [] =
        ground (arith, exact.add_nought acc.boostable_litres, exact.add_nought acc.reducible_litres)
    foldl-accumulate acc (c ∷ cs) =
        ap (λ a. foldl (accumulate_volumes store) a cs) (accumulate-share acc c)
        ∙ foldl-accumulate (grown acc (share store in_boostable c) (share store in_reducible c)) cs
        ∙ ground (
          arith,
          exact.add_assoc acc.boostable_litres (share store in_boostable c)
              (sum_of store in_boostable cs),
          exact.add_assoc acc.reducible_litres (share store in_reducible c)
              (sum_of store in_reducible cs),
        )

    -- The split that the program computes is the sum of each category.
    pub volumes_of-sum_of :
        (cs : Commands Q)
        → volumes_of store cs ≡ record {
          boostable_litres = sum_of store in_boostable (leaves cs);
          reducible_litres = sum_of store in_reducible (leaves cs);
        }
    unfolding volumes_of
    volumes_of-sum_of cs =
        fold_commands-leaves cs _ (accumulate_volumes store)
        ∙ foldl-accumulate _ (leaves cs)
        ∙ ground (
          arith,
          nought_add exact (sum_of store in_boostable (leaves cs)),
          nought_add exact (sum_of store in_reducible (leaves cs)),
        )

  module _ (exact : IsExact Q) (scales : ScaleFactors Q) where
    abbrev scaled : List (Command Q) → List (Command Q)
    scaled = map (scale_command store scales)

    share-scale_boostable :
        (c : Command Q)
        → share store in_boostable (scale_command store scales c)
          ≡ share store in_boostable c ⊗ scales.boostable
    unfolding scale_command
    share-scale_boostable (dispense c) = ground (arith, nought_mul exact scales.boostable)
    share-scale_boostable _ = sym (nought_mul exact scales.boostable)

    share-scale_reducible :
        (c : Command Q)
        → share store in_reducible (scale_command store scales c)
          ≡ share store in_reducible c ⊗ scales.reducible
    unfolding scale_command
    share-scale_reducible (dispense c) = ground (arith, nought_mul exact scales.reducible)
    share-scale_reducible _ = sym (nought_mul exact scales.reducible)

    share-scale_rest :
        (c : Command Q) → share store in_rest (scale_command store scales c) ≡ share store in_rest c
    unfolding scale_command
    share-scale_rest (dispense c) = ground arith
    share-scale_rest _ = refl

    -- Scaling multiplies the sum of each category by its factor and leaves the rest alone.
    pub sum_of-scale_boostable :
        (l : List (Command Q))
        → sum_of store in_boostable (scaled l) ≡ sum_of store in_boostable l ⊗ scales.boostable
    sum_of-scale_boostable [] = sym (nought_mul exact scales.boostable)
    sum_of-scale_boostable (c ∷ cs) =
        ap₂ ◌⊕◌ (share-scale_boostable c) (sum_of-scale_boostable cs)
        ∙ sym (add_mul exact (share store in_boostable c) (sum_of store in_boostable cs) _)

    pub sum_of-scale_reducible :
        (l : List (Command Q))
        → sum_of store in_reducible (scaled l) ≡ sum_of store in_reducible l ⊗ scales.reducible
    sum_of-scale_reducible [] = sym (nought_mul exact scales.reducible)
    sum_of-scale_reducible (c ∷ cs) =
        ap₂ ◌⊕◌ (share-scale_reducible c) (sum_of-scale_reducible cs)
        ∙ sym (add_mul exact (share store in_reducible c) (sum_of store in_reducible cs) _)

    pub sum_of-scale_rest :
        (l : List (Command Q)) → sum_of store in_rest (scaled l) ≡ sum_of store in_rest l
    sum_of-scale_rest [] = refl
    sum_of-scale_rest (c ∷ cs) = ap₂ ◌⊕◌ (share-scale_rest c) (sum_of-scale_rest cs)

  module _ (exact : IsExact Q) where
    share_split :
        (c : Command Q)
        → share store in_total c
          ≡ share store in_boostable c ⊕ share store in_reducible c ⊕ share store in_rest c
    share_split (dispense c) =
        ground
          (arith, exact.add_nought c.volume, exact.add_nought d.nought, nought_add exact c.volume)
    share_split _ = ground (arith, exact.add_nought d.nought)

    -- The whole volume is that of the categories and of the rest.
    pub sum_of_split :
        (l : List (Command Q))
        → sum_of store in_total l
          ≡ sum_of store in_boostable l ⊕ sum_of store in_reducible l ⊕ sum_of store in_rest l
    sum_of_split [] = ground (arith, exact.add_nought d.nought)
    sum_of_split (c ∷ cs) =
        ap₂ ◌⊕◌ (share_split c) (sum_of_split cs)
        ∙ add_swap exact (share store in_boostable c ⊕ share store in_reducible c) _ _ _
        ∙ ap (λ t. t ⊕ (share store in_rest c ⊕ sum_of store in_rest cs))
            (add_swap exact (share store in_boostable c) _ _ _)
