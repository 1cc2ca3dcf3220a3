-- ===== src/Examples/Glasses.antt =====
-- Glasses with their active volumes, in millilitres.
use cocktail_maker.Prelude.{
  ℕ, ◌≡◌, refl, true, List, map, [], ◌∷◌, some, String_eq, ℕ_eq, ltb, arith,
}
use cocktail_maker.Prelude.Assoc.{find, insert_or_assign}
use cocktail_maker.Prelude.Int.{ℤ, pos, pos_part}
use cocktail_maker.Json.Tree.{Tree, text, number, array, object, nil, cons, end, member, trees}
use cocktail_maker.Glass.{Glass, Glasses, add_active_volume}
use cocktail_maker.Glass.File.{load_glass_active_volumes, load_glass_entry}
use cocktail_maker.Glass.Volumes.{IsLinear, contains}
use cocktail_maker.Glass.Store.{active_of, AllSorted, load_glass_active_volumes-AllSorted}
use cocktail_maker.Glass.Calls.{contains-add_active_volume}
use cocktail_maker.Glass.Window.{
  Entry, UiCall, add_glass, remove_glass, add_volume_from_glass, remove_volume_from_glass, ui_calls,
  register_ui_callbacks,
}
use cocktail_maker.Glass.Window.Laws.{IsCurrent, registered-IsCurrent}

ltb-IsLinear : IsLinear ltb
ltb-IsLinear = record {
  irreflexive = λ a. ground arith;
  transitive = λ a b c h k. ground arith;
  connected = λ a b h k. ground arith;
}

abbrev highball : Glass ℕ ℕ
highball = record {
  id = "highball";
  display_name = "Highball";
  common_volumes = 250 ∷ 350 ∷ [];
  active_volumes = 250 ∷ 350 ∷ [];
  icon = record { viewbox_width = 10; viewbox_height = 20; outline = "M0"; rim = [] };
}

abbrev shelf : Glasses ℕ ℕ
shelf = ("highball", highball) ∷ []

abbrev shelf-AllSorted : AllSorted ltb ltb-IsLinear shelf
shelf-AllSorted = (((refl, tt), (tt, tt)), tt)

-- The disk is the last state that was saved.
abbrev keep : Glasses ℕ ℕ → Glasses ℕ ℕ → Glasses ℕ ℕ
keep new old = new

abbrev in_ml : ℤ → ℕ
in_ml z = pos_part z

-- The volume 300 is added twice and 250 removed, and the glass is taken off the list and put back.
abbrev user_calls : List UiCall
user_calls =
    add_volume_from_glass "highball" (pos 300)
    ∷ add_volume_from_glass "highball" (pos 300)
    ∷ remove_volume_from_glass "highball" (pos 250)
    ∷ remove_glass "highball"
    ∷ add_glass "highball"
    ∷ []

registered-IsCurrent_example :
    IsCurrent ltb ltb-IsLinear
      (λ v. "ml")
      in_ml
      keep
      (ui_calls ltb
        (λ v. "ml")
        in_ml
        keep
        (register_ui_callbacks ltb (λ v. "ml") shelf [])
        user_calls)
unfolding find
registered-IsCurrent_example =
    registered-IsCurrent ltb ltb-IsLinear (λ v. "ml") in_ml keep shelf [] user_calls shelf-AllSorted
      (refl, tt)

shown_volumes :
    map
      (λ (e : Entry ℕ ℕ). e.active_volumes)
      (ui_calls ltb
        (λ v. "ml")
        in_ml
        keep
        (register_ui_callbacks ltb (λ v. "ml") shelf [])
        user_calls).entries
    ≡ ((300 ∷ 350 ∷ []) ∷ [])
unfolding ui_calls register_ui_callbacks find insert_or_assign
shown_volumes = refl

contains-add_active_volume_example :
    ((add_active_volume ltb keep shelf [] "highball" 300).2 ≡ true)
    × (contains
          (active_of ltb ltb-IsLinear
            (add_active_volume ltb keep shelf [] "highball" 300).0
            "highball")
          300
        ≡ true)
unfolding find
contains-add_active_volume_example =
    contains-add_active_volume ltb ltb-IsLinear keep shelf [] "highball" "highball" 300 300 highball
      shelf-AllSorted refl

abbrev as_ml : ℤ → ℕ
as_ml z = pos_part z

abbrev stored : Tree
stored = object (
    member "glasses"
      (array (
        cons
          (object (
            member "glass_id" (text "highball") (
              member "active_volumes"
                (array (cons (number (pos 400)) (cons (number (pos 100)) nil))) end)))
          nil))
      end)

load_glass_active_volumes-AllSorted_example :
    AllSorted ltb ltb-IsLinear (load_glass_active_volumes ltb (trees as_ml) shelf (some stored))
load_glass_active_volumes-AllSorted_example =
    load_glass_active_volumes-AllSorted ltb ltb-IsLinear (trees as_ml) shelf (some stored)
      shelf-AllSorted

loaded_highball :
    active_of ltb ltb-IsLinear
      (load_glass_active_volumes ltb (trees as_ml) shelf (some stored))
      "highball"
    ≡ 100 ∷ 400 ∷ []
unfolding load_glass_active_volumes load_glass_entry find insert_or_assign
loaded_highball = refl
