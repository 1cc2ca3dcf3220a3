-- ===== src/Json/Tree.antt =====
-- Documents as trees, which meet the interface.
use cocktail_maker.Prelude.{
  ◌≡◌, refl, ap, List, [], ◌∷◌, Option, none, some, String, ◌==◌, String_eq, if◌then◌else◌,
}
use cocktail_maker.Prelude.Assoc.{find}
use cocktail_maker.Prelude.Int.{ℤ}
use cocktail_maker.Json.{Json, Builder}

mutual
  pub data Tree : Type 0 where
    text : String → Tree
    number : ℤ → Tree
    array : Trees → Tree
    object : Members → Tree

  pub data Trees : Type 0 where
    nil : Trees
    cons : Tree → Trees → Trees

  pub data Members : Type 0 where
    end : Members
    member : String → Tree → Members → Members

abbrev pub to_list : Trees → List Tree
to_list nil = []
to_list (cons t ts) = t ∷ to_list ts

abbrev pub member? : Members → String → Option Tree
member? end k = none
member? (member j t ms) k = if j == k then some t else member? ms k

abbrev tree_at : Tree → String → Option Tree
tree_at (object ms) k = member? ms k
tree_at _ k = none

abbrev as_text : Tree → Option String
as_text (text s) = some s
as_text _ = none

abbrev as_number {ℓ} : {Q : Type ℓ} → (ℤ → Q) → Tree → Option Q
as_number from (number n) = some (from n)
as_number from _ = none

abbrev as_int64 : Tree → Option ℤ
as_int64 (number n) = some n
as_int64 _ = none

abbrev as_array : Tree → Option (List Tree)
as_array (array ts) = some (to_list ts)
as_array _ = none

abbrev as_object : Tree → Option Tree
as_object (object ms) = some (object ms)
as_object _ = none

-- `from` reads a number of the document.
abbrev pub trees {ℓ} : {Q : Type ℓ} → (ℤ → Q) → Json Q
trees from = record {
  Node = Tree;
  at = tree_at;
  get_string = as_text;
  get_double = as_number from;
  get_int64 = as_int64;
  get_array = as_array;
  get_object = as_object;
}

abbrev pub from_list : List Tree → Trees
from_list [] = nil
from_list (t ∷ ts) = cons t (from_list ts)

abbrev pub from_members : List (String × Tree) → Members
from_members [] = end
from_members ((k, t) ∷ ms) = member k t (from_members ms)

pub to_list-from_list : (ts : List Tree) → to_list (from_list ts) ≡ ts
to_list-from_list [] = refl
to_list-from_list (t ∷ ts) = ap (◌∷◌ t) (to_list-from_list ts)

pub member?-from_members :
    (ms : List (String × Tree)) (k : String) → member? (from_members ms) k ≡ find k ms
unfolding find
member?-from_members [] k = refl
member?-from_members ((j, t) ∷ ms) k =
    ap (λ o. if j == k then some t else o) (member?-from_members ms k)

abbrev pub tree_builder {ℓ} :
    {Q : Type ℓ} (from : ℤ → Q) (to : Q → ℤ) → ((x : Q) → from (to x) ≡ x) → Builder (trees from)
tree_builder from to inverse = record {
  text_node = text;
  int_node = number;
  double_node = λ x. number (to x);
  array_node = λ l. array (from_list l);
  object_node = λ m. object (from_members m);
  get_string-text_node = λ s. refl;
  get_int64-int_node = λ i. refl;
  get_double-double_node = λ x. ap some (inverse x);
  get_array-array_node = λ l. ap some (to_list-from_list l);
  get_object-object_node = λ m. refl;
  at-object_node = member?-from_members;
}
