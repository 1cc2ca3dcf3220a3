-- ===== src/Ingredient/Laws.antt =====
-- The store answers by id, and the names of the enumerators are read back.
use cocktail_maker.Prelude.{
  ◌≡◌, refl, sym, ap, ◌∙◌, Bool-cases, ◌↔◌, ◌≢◌, inl, inr, List, [], ◌∷◌, Option, none, some,
  String, ◌==◌, String_eq, if◌then◌else◌, arith, Option-cases, or_else,
}
use cocktail_maker.Prelude.Assoc.{find, emplace, find-emplace}
use cocktail_maker.Prelude.Expected.{Expected, value, value-injective}
use cocktail_maker.Ingredient.{
  IngredientError, Ingredient, IngredientStore, IngredientType, BoostCategory, alcohol, juice,
  syrup, soda, water, dairy, bitters, puree, other, fixed, boostable, reducible, emplace_all,
  init_ingredients, find_by_id, parse_ingredient_type, parse_boost_category,
}

-- The ingredient of a list with the given id.
abbrev pub with_id : String → List Ingredient → Option Ingredient
with_id id [] = none
with_id id (i ∷ is) = if i.id == id then some i else with_id id is

abbrev pub Fresh : String → List Ingredient → Type 0
Fresh id [] = Unit {0}
Fresh id (i ∷ is) = (i.id ≢ id) × Fresh id is

abbrev pub DistinctIds : List Ingredient → Type 0
DistinctIds [] = Unit {0}
DistinctIds (i ∷ is) = Fresh i.id is × DistinctIds is

find-emplace_all :
    (is : List Ingredient) (m n : IngredientStore) (id : String)
    → emplace_all is m ≡ some n
    → find id n ≡ or_else (find id m) (with_id id is)
unfolding emplace_all
find-emplace_all [] m n id h = ground arith
find-emplace_all (i ∷ is) m n id h = elim (Option-cases (find i.id m)) [
  | inl new ↦ ground (
    arith,
    find-emplace_all is (emplace i.id i m) n id,
    find-emplace i.id id i m,
    String_eq.equal_iff i.id id,
  )
  | inr (_, old) ↦ ground arith
]

-- After a successful init_ingredients, whatever the store held before, find_by_id finds the
-- ingredient of the list that has the id, and no other id finds one.
pub find_by_id-init_ingredients :
    (store new : IngredientStore) (is : List Ingredient) (id : String)
    → init_ingredients store is ≡ some new
    → find_by_id new id ≡ with_id id is
unfolding init_ingredients find_by_id find
find_by_id-init_ingredients store new is id h = find-emplace_all is [] new id h

AllAbsent : IngredientStore → List Ingredient → Type 0
AllAbsent m [] = Unit {0}
AllAbsent m (i ∷ is) = (find i.id m ≡ none) × AllAbsent m is

AllAbsent-emplace :
    (i : Ingredient) (is : List Ingredient) (m : IngredientStore)
    → Fresh i.id is
    → AllAbsent m is
    → AllAbsent (emplace i.id i m) is
unfolding AllAbsent
AllAbsent-emplace i [] m f a = tt
AllAbsent-emplace i (j ∷ is) m f a = (
  ground (arith, find-emplace i.id j.id i m, String_eq.equal_iff i.id j.id),
  AllAbsent-emplace i is m f.1 a.1,
)

emplace_all_distinct :
    (is : List Ingredient) (m : IngredientStore)
    → DistinctIds is
    → AllAbsent m is
    → (n : IngredientStore) × (emplace_all is m ≡ some n)
unfolding emplace_all AllAbsent
emplace_all_distinct [] m d a = (m, refl)
emplace_all_distinct (i ∷ is) m d a =
    let (n, e) =
      emplace_all_distinct is (emplace i.id i m) d.1 (AllAbsent-emplace i is m d.0 a.1) in
    (n, ground arith)

emplace_all_only :
    (is : List Ingredient) (m n : IngredientStore)
    → emplace_all is m ≡ some n
    → DistinctIds is × AllAbsent m is
unfolding emplace_all AllAbsent
emplace_all_only [] m n h = (tt, tt)
emplace_all_only (i ∷ is) m n h = elim (Option-cases (find i.id m)) [
  | inl new ↦
      let (d, a) = emplace_all_only is (emplace i.id i m) n (ground arith) in
      ((still_fresh is a, d), (new, still_absent is a))
  | inr (_, old) ↦ cc (rw (old, emplace_all) at h)
]
  where
    still_fresh : (js : List Ingredient) → AllAbsent (emplace i.id i m) js → Fresh i.id js
    still_fresh [] a = tt
    still_fresh (j ∷ js) a = (
      λ p. ground (arith, find-emplace i.id j.id i m, String_eq.equal_iff i.id j.id),
      still_fresh js a.1,
    )

    still_absent : (js : List Ingredient) → AllAbsent (emplace i.id i m) js → AllAbsent m js
    still_absent [] a = tt
    still_absent (j ∷ js) a = (ground (arith, find-emplace i.id j.id i m), still_absent js a.1)

absent_at_first : (is : List Ingredient) → AllAbsent [] is
unfolding AllAbsent find
absent_at_first [] = tt
absent_at_first (i ∷ is) = (refl, absent_at_first is)

-- init_ingredients passes its assertion exactly when the ids of the list are distinct.
pub init_ingredients_iff :
    (store : IngredientStore) (is : List Ingredient)
    → ((new : IngredientStore) × (init_ingredients store is ≡ some new)) ↔ DistinctIds is
unfolding init_ingredients
init_ingredients_iff store is = (
  λ (new, h). (emplace_all_only is [] new h).0,
  λ d. emplace_all_distinct is [] d (absent_at_first is),
)

-- The texts of `ingredient.cpp` for the enumerators.
abbrev pub type_name : IngredientType → String
type_name alcohol = "alcohol"
type_name juice = "juice"
type_name syrup = "syrup"
type_name soda = "soda"
type_name water = "water"
type_name dairy = "dairy"
type_name bitters = "bitters"
type_name puree = "puree"
type_name other = "other"

abbrev pub boost_name : BoostCategory → String
boost_name fixed = "fixed"
boost_name boostable = "boostable"
boost_name reducible = "reducible"

parse-type_name : (t : IngredientType) → parse_ingredient_type (type_name t) ≡ value t
unfolding parse_ingredient_type
parse-type_name alcohol = refl
parse-type_name _ = refl

parse-boost_name : (b : BoostCategory) → parse_boost_category (boost_name b) ≡ value b
unfolding parse_boost_category
parse-boost_name fixed = refl
parse-boost_name _ = refl

-- One test of the ladder.
read_as :
    (u : IngredientType) (name s : String) (t : IngredientType)
    (rest : Expected IngredientError IngredientType)
    → (if s == name then value u else rest) ≡ value t
    → type_name u ≡ name
    → (rest ≡ value t → s ≡ type_name t)
    → s ≡ type_name t
read_as u name s t rest h named below = elim (Bool-cases (s == name)) [
  | inl hit ↦
      (String_eq.equal_iff s name).0 hit
      ∙ sym named
      ∙ ap type_name (value-injective u t (rw hit at h))
  | inr miss ↦ below (rw miss at h)
]

type_name-parse :
    (s : String) (t : IngredientType) → parse_ingredient_type s ≡ value t → s ≡ type_name t
unfolding parse_ingredient_type
type_name-parse s t h = read_as alcohol "alcohol" s t _ h refl λ h.
    read_as juice "juice" s t _ h refl λ h. read_as syrup "syrup" s t _ h refl λ h.
      read_as soda "soda" s t _ h refl λ h. read_as water "water" s t _ h refl λ h.
        read_as dairy "dairy" s t _ h refl λ h.
          read_as bitters "bitters" s t _ h refl
            λ h. read_as puree "puree" s t _ h refl λ h. read_as other "other" s t _ h refl λ h. cc

boost_name-parse :
    (s : String) (b : BoostCategory) → parse_boost_category s ≡ value b → s ≡ boost_name b
unfolding parse_boost_category
boost_name-parse s b h = ground (
  arith,
  String_eq.equal_iff s "fixed",
  String_eq.equal_iff s "boostable",
  String_eq.equal_iff s "reducible",
)

-- The two parsers read exactly the texts of the enumerators: a text is read as an enumerator when
-- it is that enumerator's text, and as no enumerator otherwise.
pub parsers_iff :
    (s : String) (t : IngredientType) (b : BoostCategory)
    → ((parse_ingredient_type s ≡ value t) ↔ (s ≡ type_name t))
      × ((parse_boost_category s ≡ value b) ↔ (s ≡ boost_name b))
parsers_iff s t b = (
  (type_name-parse s t, λ p. rw p (parse-type_name t)),
  (boost_name-parse s b, λ p. rw p (parse-boost_name b)),
)
