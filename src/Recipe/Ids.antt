-- ===== src/Recipe/Ids.antt =====
-- The ids that `assign_unique_command_ids` gives.
use cocktail_maker.Prelude.{
  ℕ, zero, suc, ◌+◌, ◌≡◌, refl, sym, ap, ap₂, ◌∙◌, List, [], ◌∷◌, ◌++◌, map, arith,
}
use cocktail_maker.Recipe.{
  Command, monostate, manual, dispense, single, parallel, Commands, Recipe, leaves, assign_all,
  assign_steps, assign_unique_command_ids,
}

-- n, n + 1, …: `count` numbers.
abbrev pub count_from : ℕ → ℕ → List ℕ
count_from n zero = []
count_from n (suc count) = n ∷ count_from (suc n) count

count_from-append :
    (n a b m : ℕ) → m ≡ n + a → count_from n a ++ count_from m b ≡ count_from n (a + b)
count_from-append n zero b m h = ap₂ count_from (omega arith) (omega arith)
count_from-append n (suc a) b m h =
    let shorter : suc (a + b) ≡ suc a + b = omega arith in
    ap (◌∷◌ n) (count_from-append (suc n) a b m (omega arith)) ∙ ap (count_from n) shorter

module _ {Q : Type 0} where
  abbrev pub ids : List (Command Q) → List ℕ
  ids [] = []
  ids (monostate ∷ cs) = ids cs
  ids (manual m ∷ cs) = m.id ∷ ids cs
  ids (dispense d ∷ cs) = d.id ∷ ids cs

  -- How many commands carry an id.
  abbrev pub numbered : List (Command Q) → ℕ
  numbered [] = 0
  numbered (monostate ∷ cs) = numbered cs
  numbered (manual m ∷ cs) = suc (numbered cs)
  numbered (dispense d ∷ cs) = suc (numbered cs)

  abbrev strip : Command Q → Command Q
  strip monostate = monostate
  strip (manual m) = manual (record m { id = 0 })
  strip (dispense d) = dispense (record d { id = 0 })

  -- A recipe's commands without their ids.
  abbrev pub strip_steps : Commands Q → Commands Q
  strip_steps [] = []
  strip_steps (single c ∷ rest) = single (strip c) ∷ strip_steps rest
  strip_steps (parallel cs ∷ rest) = parallel (map strip cs) ∷ strip_steps rest

  pub ids-append : (cs ds : List (Command Q)) → ids (cs ++ ds) ≡ ids cs ++ ids ds
  ids-append [] ds = refl
  ids-append (monostate ∷ cs) ds = ids-append cs ds
  ids-append (manual m ∷ cs) ds = ap (◌∷◌ m.id) (ids-append cs ds)
  ids-append (dispense d ∷ cs) ds = ap (◌∷◌ d.id) (ids-append cs ds)

  numbered-append : (cs ds : List (Command Q)) → numbered (cs ++ ds) ≡ numbered cs + numbered ds
  numbered-append [] ds = omega arith
  numbered-append (monostate ∷ cs) ds = numbered-append cs ds
  numbered-append (manual m ∷ cs) ds = omega (arith, numbered-append cs ds)
  numbered-append (dispense d ∷ cs) ds = omega (arith, numbered-append cs ds)

  -- The ids given, the next id, and what is left alone.
  assign_all_lem :
      (n : ℕ) (cs : List (Command Q))
      → ((assign_all n cs).1 ≡ n + numbered cs) × (map strip (assign_all n cs).0 ≡ map strip cs)
  unfolding assign_all
  assign_all_lem n [] = (omega arith, refl)
  assign_all_lem n (monostate ∷ cs) = let (a, b) = assign_all_lem n cs in (a, ap (◌∷◌ monostate) b)
  assign_all_lem n (manual m ∷ cs) =
      let (a, b) = assign_all_lem (suc n) cs in
      (omega arith, ap (◌∷◌ (manual (record m { id = 0 }))) b)
  assign_all_lem n (dispense d ∷ cs) =
      let (a, b) = assign_all_lem (suc n) cs in
      (omega arith, ap (◌∷◌ (dispense (record d { id = 0 }))) b)

  ids-assign_all :
      (n : ℕ) (cs ds : List (Command Q))
      → ids ((assign_all n cs).0 ++ ds) ≡ count_from n (numbered cs) ++ ids ds
  unfolding assign_all
  ids-assign_all n [] ds = refl
  ids-assign_all n (monostate ∷ cs) ds = ids-assign_all n cs ds
  ids-assign_all n (manual m ∷ cs) ds = ap (◌∷◌ n) (ids-assign_all (suc n) cs ds)
  ids-assign_all n (dispense d ∷ cs) ds = ap (◌∷◌ n) (ids-assign_all (suc n) cs ds)

  ids-assign_steps :
      (n : ℕ) (steps : Commands Q)
      → ids (leaves (assign_steps n steps).0) ≡ count_from n (numbered (leaves steps))
  unfolding assign_steps leaves
  ids-assign_steps n [] = refl
  ids-assign_steps n (single monostate ∷ rest) = ids-assign_steps n rest
  ids-assign_steps n (single (manual m) ∷ rest) = ap (◌∷◌ n) (ids-assign_steps (suc n) rest)
  ids-assign_steps n (single (dispense d) ∷ rest) = ap (◌∷◌ n) (ids-assign_steps (suc n) rest)
  ids-assign_steps n (parallel cs ∷ rest) =
      let (after, _) = assign_all_lem n cs in
      ids-assign_all n cs _
      ∙ ap (◌++◌ (count_from n (numbered cs))) (ids-assign_steps (assign_all n cs).1 rest)
      ∙ count_from-append n (numbered cs) (numbered (leaves rest)) _ after
      ∙ ap (count_from n) (sym (numbered-append cs (leaves rest)))

  strip-assign_steps :
      (n : ℕ) (steps : Commands Q) → strip_steps (assign_steps n steps).0 ≡ strip_steps steps
  unfolding assign_steps
  strip-assign_steps n [] = refl
  strip-assign_steps n (single monostate ∷ rest) =
      ap (◌∷◌ (single monostate)) (strip-assign_steps n rest)
  strip-assign_steps n (single (manual m) ∷ rest) =
      ap (◌∷◌ (single (manual (record m { id = 0 })))) (strip-assign_steps (suc n) rest)
  strip-assign_steps n (single (dispense d) ∷ rest) =
      ap (◌∷◌ (single (dispense (record d { id = 0 })))) (strip-assign_steps (suc n) rest)
  strip-assign_steps n (parallel cs ∷ rest) =
      let (_, kept) = assign_all_lem n cs in
      ap₂ (λ ds steps. parallel ds ∷ steps) kept (strip-assign_steps (assign_all n cs).1 rest)

  -- Manual and dispense commands, parallel groups included, get the ids 1, 2, … in visiting order,
  -- and nothing but the ids changes.
  pub ids-assign_unique_command_ids :
      (r : Recipe Q)
      → let r' = assign_unique_command_ids r in
        (ids (leaves r'.commands) ≡ count_from 1 (numbered (leaves r.commands)))
        × (strip_steps r'.commands ≡ strip_steps r.commands)
        × (record r' { commands = r.commands } ≡ r)
  unfolding assign_unique_command_ids
  ids-assign_unique_command_ids r =
      (ids-assign_steps 1 r.commands, strip-assign_steps 1 r.commands, refl)
