-- ===== src/StationConfig/Laws.antt =====
-- Lookups in both directions, and an assignment that changes.
use cocktail_maker.Prelude.{
  ◌≡◌, ◌≢◌, inl, inr, refl, [], ◌∷◌, none, some, String, String_eq, ◌==◌, if◌then◌else◌, arith,
  Bool-cases,
}
use cocktail_maker.Prelude.Assoc.{find, Unique, Absent, find-insert_or_assign}
use cocktail_maker.Prelude.Expected.{value, unexpected}
use cocktail_maker.Json.{Json, Builder}
use cocktail_maker.Ingredient.{IngredientStore, find_by_id}
use cocktail_maker.StationConfig.{
  PodDispenser, same_dispenser_iff, PodDispenser_eq, Mapping, out_of_range,
  find_dispenser_for_ingredient, find_ingredient_by_dispenser, update_dispenser_ingredient_mapping,
}

find-Absent : (j : String) (m : Mapping) → Absent j m → find j m ≡ none
unfolding find
find-Absent j [] a = refl
find-Absent j ((i, d) ∷ m) a = ground (arith, String_eq.equal_iff i j, find-Absent j m a.1)

find-reverse :
    (m : Mapping) (d : PodDispenser) (id : String)
    → Unique m
    → find_ingredient_by_dispenser m d ≡ value id
    → find id m ≡ some d
unfolding find_ingredient_by_dispenser find
find-reverse [] d id u h = cc
find-reverse ((i, w) ∷ m) d id u h = elim (Bool-cases (w == d)) [
  | inl e ↦
      let same : value i ≡ value id = rw e at h in
      ground (arith, same, e, (same_dispenser_iff w d).0 e, String_eq.equal_iff i id)
  | inr n ↦
      let rest : find_ingredient_by_dispenser m d ≡ value id = rw n at h in
      ground (arith, find-reverse m d id u.1 rest, find-Absent i m u.0, String_eq.equal_iff i id)
]

-- In a mapping of distinct ingredients, the ingredient that the reverse lookup gives is assigned
-- to the dispenser that was asked for.
pub find_ingredient-dispenser :
    (m : Mapping) (d : PodDispenser) (id : String)
    → Unique m
    → find_ingredient_by_dispenser m d ≡ value id
    → find_dispenser_for_ingredient m id ≡ value d
unfolding find_dispenser_for_ingredient
find_ingredient-dispenser m d id u h = ground (arith, find-reverse m d id u h)

found_inv :
    (m : Mapping) (d : PodDispenser) (id : String)
    → find_dispenser_for_ingredient m id ≡ value d
    → find id m ≡ some d
unfolding find_dispenser_for_ingredient
found_inv m d id h = ground arith

find-none :
    (m : Mapping) (d : PodDispenser) (id : String)
    → find_ingredient_by_dispenser m d ≡ unexpected out_of_range
    → find id m ≢ some d
unfolding find_ingredient_by_dispenser find
find-none [] d id h p = cc
find-none ((i, w) ∷ m) d id h p = elim (Bool-cases (w == d)) [
  | inl e ↦ ground (arith, rw e at h)
  | inr n ↦ ground (arith, find-none m d id (rw n at h), same_dispenser_iff w d)
]

-- Where it has none, no ingredient is assigned to the dispenser.
pub find_ingredient-none :
    (m : Mapping) (d : PodDispenser) (id : String)
    → find_ingredient_by_dispenser m d ≡ unexpected out_of_range
    → find_dispenser_for_ingredient m id ≢ value d
find_ingredient-none m d id h p = find-none m d id h (found_inv m d id p)

module _ {ℓ} {Q : Type ℓ} (json : Json Q) (builder : Builder json) {Disk : Type 0}
    (write_file : json.Node → Disk → Disk) (store : IngredientStore) where
  -- Assigning an ingredient of the store makes the dispenser its answer and changes no other
  -- answer; for an unknown ingredient no answer changes.
  pub find_dispenser-update :
      (m : Mapping) (disk : Disk) (id j : String) (d : PodDispenser)
      → find_dispenser_for_ingredient
          (update_dispenser_ingredient_mapping json builder write_file store m disk id d).0
          j
        ≡ elim (find_by_id store id) [
          | some _ ↦ if id == j then value d else find_dispenser_for_ingredient m j
          | none ↦ find_dispenser_for_ingredient m j
        ]
  unfolding find_dispenser_for_ingredient update_dispenser_ingredient_mapping
  find_dispenser-update m disk id j d = ground (arith, find-insert_or_assign id j d m)
