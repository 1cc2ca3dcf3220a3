-- ===== src/Recipe/Parse/Laws.antt =====
-- What a recipe that was read is known to hold.
use mathlib.Core.Option.{IsSome}
use cocktail_maker.Prelude.{
  ℕ, suc, ◌≡◌, refl, sym, subst, ap, ◌∙◌, List, [], ◌∷◌, String, String_eq, ◌==◌, Bool-cases, arith,
  All, inl, inr,
}
use cocktail_maker.Prelude.Expected.{value, or_throw, >>=-eq-value, value-injective}
use cocktail_maker.Json.{Json}
use cocktail_maker.Ingredient.{IngredientStore, find_by_id}
use cocktail_maker.Recipe.{
  Command, monostate, manual, dispense, DispenseCommand, Step, single, parallel, Commands, Recipe,
  assign_all, assign_steps, assign_unique_command_ids,
}
use cocktail_maker.Recipe.Parse.{
  tags_of, field, array_at, json_error, parse_tags, parse_dispense, parse_inner, parse_parallel,
  parse_kind, parse_step, parse_steps, parse_recipe,
}

module _ {Q : Type 0} (store : IngredientStore) where
  abbrev pub IsKnownDispense : Command Q → Type 0
  IsKnownDispense monostate = ⊥
  IsKnownDispense (manual m) = ⊥
  IsKnownDispense (dispense d) = IsSome (find_by_id store d.ingredient)

  -- A step that the machine can carry out: its ingredients are in the store, and a parallel group
  -- only dispenses.
  abbrev pub IsChecked : Step Q → Type 0
  IsChecked (single monostate) = ⊥
  IsChecked (single (manual m)) = Unit {0}
  IsChecked (single (dispense d)) = IsSome (find_by_id store d.ingredient)
  IsChecked (parallel cs) = All IsKnownDispense cs

module _ {Q : Type 0} (json : Json Q) (store : IngredientStore) where
  parse_dispense_lem :
      (id : ℕ) (obj : json.Node) (d : DispenseCommand Q)
      → parse_dispense json store id obj ≡ value d
      → (d.id ≡ id) × IsSome (find_by_id store d.ingredient)
  unfolding parse_dispense
  parse_dispense_lem id obj d h = ground arith

  parse_inner_lem :
      (id : ℕ) (node : json.Node) (d : DispenseCommand Q)
      → parse_inner json store id node ≡ value d
      → (d.id ≡ id) × IsSome (find_by_id store d.ingredient)
  unfolding parse_inner
  parse_inner_lem id node d h = ground arith

  -- A group that was read from `id` on would be numbered so again.
  abbrev Group : ℕ → List (Command Q) × ℕ → Type 0
  Group id (cs, last) = (assign_all id cs ≡ (cs, last)) × All (IsKnownDispense store) cs

  Group-cons :
      (id : ℕ) (d : DispenseCommand Q) (cs : List (Command Q)) (last : ℕ)
      → d.id ≡ id
      → IsSome (find_by_id store d.ingredient)
      → Group (suc id) (cs, last)
      → Group id (dispense d ∷ cs, last)
  unfolding assign_all
  Group-cons id d cs last e known (again, all) = (ground arith, (known, all))

  parse_parallel-Group :
      (id : ℕ) (nodes : List json.Node) (r : List (Command Q) × ℕ)
      → parse_parallel json store id nodes ≡ value r
      → Group id r
  unfolding parse_parallel assign_all
  parse_parallel-Group id [] r h = subst (Group id) (value-injective _ r h) (refl, tt)
  parse_parallel-Group id (node ∷ nodes) r h =
      let (d, inner, h') = >>=-eq-value (parse_inner json store id node) _ h in
      let (ds, outer, h'') = >>=-eq-value (parse_parallel json store (suc id) nodes) _ h' in
      let (e, known) = parse_inner_lem id node d inner in
      subst (Group id) (value-injective _ r h'')
        (Group-cons id d ds.0 ds.1 e known (parse_parallel-Group (suc id) nodes ds outer))

  -- So it is with a step.
  abbrev Numbered : ℕ → Step Q × ℕ → Type 0
  Numbered id (step, last) =
      ((rest : Commands Q)
        → assign_steps id (step ∷ rest)
          ≡ (step ∷ (assign_steps last rest).0, (assign_steps last rest).1))
      × IsChecked store step

  Numbered-dispense :
      (id : ℕ) (d : DispenseCommand Q)
      → d.id ≡ id
      → IsSome (find_by_id store d.ingredient)
      → Numbered id (single (dispense d), suc id)
  unfolding assign_steps
  Numbered-dispense id d e known = (λ rest. ground arith, known)

  Numbered-parallel :
      (id : ℕ) (r : List (Command Q) × ℕ) → Group id r → Numbered id (parallel r.0, r.1)
  unfolding assign_steps
  Numbered-parallel id r (again, all) = (
    λ rest. ap (λ g. (parallel g.0 ∷ (assign_steps g.1 rest).0, (assign_steps g.1 rest).1)) again,
    all,
  )

  module _ (id : ℕ) (obj : json.Node) (kind : String) (r : Step Q × ℕ) where
    parse_kind-Numbered : parse_kind json store id obj kind ≡ value r → Numbered id r
    unfolding parse_kind assign_steps
    parse_kind-Numbered h = elim (Bool-cases (kind == "dispense")) [
      | inl dispenses ↦
          let (d, p, h') = >>=-eq-value (parse_dispense json store id obj) _ (rw dispenses at h) in
          let (e, known) = parse_dispense_lem id obj d p in
          subst (Numbered id) (value-injective _ r h') (Numbered-dispense id d e known)
      | inr no_dispense ↦ elim (Bool-cases (kind == "manual")) [
        | inl is_manual ↦
            let (text, p, h') =
              >>=-eq-value (field json store obj "text") _ (rw (no_dispense, is_manual) at h) in
            subst (Numbered id) (value-injective _ r h') (λ rest. refl, tt)
        | inr no_manual ↦ elim (Bool-cases (kind == "parallel")) [
          | inl groups ↦
              let (nodes, p, h') =
                >>=-eq-value (or_throw (array_at json store obj "steps") json_error) _
                  (rw (no_dispense, no_manual, groups) at h) in
              let (g, q, h'') = >>=-eq-value (parse_parallel json store id nodes) _ h' in
              subst (Numbered id) (value-injective _ r h'')
                (Numbered-parallel id g (parse_parallel-Group id nodes g q))
          | inr neither ↦ cc (rw (no_dispense, no_manual, neither) at h)
        ]
      ]
    ]

  parse_step-Numbered :
      (id : ℕ) (node : json.Node) (r : Step Q × ℕ)
      → parse_step json store id node ≡ value r
      → Numbered id r
  unfolding parse_step
  parse_step-Numbered id node r h =
      let (obj, p, h') = >>=-eq-value (or_throw (json.get_object node) json_error) _ h in
      let (kind, q, h'') = >>=-eq-value (field json store obj "kind") _ h' in
      parse_kind-Numbered id obj kind r h''

  abbrev Readable : ℕ → Commands Q → Type 0
  Readable id steps = ((assign_steps id steps).0 ≡ steps) × All (IsChecked store) steps

  Readable-cons :
      (id : ℕ) (step : Step Q × ℕ) (rest : Commands Q)
      → Numbered id step
      → Readable step.1 rest
      → Readable id (step.0 ∷ rest)
  Readable-cons id step rest (again, checked) (same, all) =
      (ap (λ p. p.0) (again rest) ∙ ap (◌∷◌ step.0) same, (checked, all))

  parse_steps-Readable :
      (id : ℕ) (nodes : List json.Node) (steps : Commands Q)
      → parse_steps json store id nodes ≡ value steps
      → Readable id steps
  unfolding parse_steps assign_steps
  parse_steps-Readable id [] steps h = subst (Readable id) (value-injective _ steps h) (refl, tt)
  parse_steps-Readable id (node ∷ nodes) steps h =
      let (step, p, h') = >>=-eq-value (parse_step json store id node) _ h in
      let (rest, q, h'') = >>=-eq-value (parse_steps json store step.1 nodes) _ h' in
      subst (Readable id) (value-injective _ steps h'') (
        Readable-cons id step rest (parse_step-Numbered id node step p)
          (parse_steps-Readable step.1 nodes rest q))

  module _ (stem with_png : String → String) (no_volume : Q) where
    -- In a recipe that parse_recipe reads, every dispensed ingredient is in the ingredient store,
    -- a parallel group only dispenses, the id is the stem of the path, and the commands already
    -- have the ids that assign_unique_command_ids would give.
    pub parse_recipe-IsChecked :
        (doc : json.Node) (path : String) (r : Recipe Q)
        → parse_recipe json store stem with_png no_volume doc path ≡ value r
        → All (IsChecked store) r.commands × (assign_unique_command_ids r ≡ r) × (r.id ≡ stem path)
    unfolding parse_recipe assign_unique_command_ids
    parse_recipe-IsChecked doc path r h =
        let (obj, a, h₁) = >>=-eq-value (or_throw (json.get_object doc) json_error) _ h in
        let (name, b, h₂) = >>=-eq-value (field json store obj "name") _ h₁ in
        let (tags, c, h₃) = >>=-eq-value (parse_tags json store (tags_of json store obj)) _ h₂ in
        let (nodes, d, h₄) =
          >>=-eq-value (or_throw (array_at json store obj "steps") json_error) _ h₃ in
        let (steps, e, h₅) = >>=-eq-value (parse_steps json store 1 nodes) _ h₄ in
        let (same, all) = parse_steps-Readable 1 nodes steps e in
        let made = value-injective _ r h₅ in
        let again =
          subst (λ (q : Recipe Q). (assign_steps 1 q.commands).0 ≡ q.commands) made same in
        (
          subst (λ (q : Recipe Q). All (IsChecked store) q.commands) made all,
          (λ i. record r { commands = again i }),
          sym (ap (λ (q : Recipe Q). q.id) made),
        )
