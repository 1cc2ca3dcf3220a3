-- ===== src/Pods/Dispatch.antt =====
-- Which dispenser an ingredient is poured from, and why there may be none.
use cocktail_maker.Prelude.{
  ℕ, ◌≡◌, ◌⊎◌, inl, inr, refl, ap, Bool, true, false, List, [], ◌∷◌, ◌++◌, Option, none, some,
  String, ◌==◌, String_eq, All, Bool-cases, Option-cases,
}
use cocktail_maker.Prelude.Assoc.{find}
use cocktail_maker.Prelude.Expected.{Expected, value, unexpected}
use cocktail_maker.Prelude.Int.{ℤ, ◌+ℤ◌, ltb_ℤ}
use cocktail_maker.StationConfig.{PodDispenser, Mapping, find_dispenser_for_ingredient}
use cocktail_maker.Pods.{
  PodInfo, Dispenser, pump, valve, DispenserError, dispenser_not_found, not_assigned,
  create_dispenser, PodRegistry, dispenser_of_pod, create_dispenser_for_ingredient,
}

-- What the number k stands for on a pod: the pumps come first, then the valves.
abbrev pub IsNumbered : PodInfo → ℤ → Expected DispenserError Dispenser → Type 0
IsNumbered info k r =
    ((ltb_ℤ k (info.num_pumps +ℤ info.num_valves) ≡ false)
      × (r ≡ unexpected (dispenser_not_found info.id k)))
    ⊎ ((ltb_ℤ k (info.num_pumps +ℤ info.num_valves) ≡ true)
        × (((ltb_ℤ k info.num_pumps ≡ true) × (r ≡ value (pump k)))
            ⊎ ((ltb_ℤ k info.num_pumps ≡ false) × (r ≡ value (valve k)))))

create_dispenser-IsNumbered : (info : PodInfo) (k : ℤ) → IsNumbered info k (create_dispenser info k)
unfolding create_dispenser
create_dispenser-IsNumbered info k =
    elim (Bool-cases (ltb_ℤ k (info.num_pumps +ℤ info.num_valves))) [
      | inr over ↦ inl (over, rw (create_dispenser, over) refl)
      | inl known ↦ elim (Bool-cases (ltb_ℤ k info.num_pumps)) [
        | inl low ↦ inr (known, inl (low, rw (create_dispenser, known, low) refl))
        | inr high ↦ inr (known, inr (high, rw (create_dispenser, known, high) refl))
      ]
    ]

module _ (lock : ℕ → Option PodInfo) where
  -- The handle leads to a living pod of that id.
  abbrev pub is_pod : String → ℕ → Bool
  is_pod pod_id p = elim (lock p) [ none ↦ false | some info ↦ info.id == pod_id ]

  abbrev pub NonePresent : String → List ℕ → Type 0
  NonePresent pod_id = All (λ p. is_pod pod_id p ≡ false)

  -- The first living pod of that id among the registered ones.
  abbrev pub IsFirst : PodRegistry → String → PodInfo → Type 0
  IsFirst pods pod_id info =
      (front : List ℕ) × (p : ℕ) × (back : List ℕ) × ((pods ≡ front ++ (p ∷ back))
        × (NonePresent pod_id front × ((lock p ≡ some info) × (info.id ≡ pod_id))))

  abbrev pub IsFound : PodRegistry → String → ℤ → Expected DispenserError Dispenser → Type 0
  IsFound pods pod_id k r =
      (NonePresent pod_id pods × (r ≡ unexpected (dispenser_not_found pod_id k)))
      ⊎ ((info : PodInfo) × (IsFirst pods pod_id info × IsNumbered info k r))

  skip :
      (p : ℕ) (pods : PodRegistry) (pod_id : String) (k : ℤ) (r : Expected DispenserError Dispenser)
      → is_pod pod_id p ≡ false
      → IsFound pods pod_id k r
      → IsFound (p ∷ pods) pod_id k r
  skip p pods pod_id k r other (inl (absent, e)) = inl ((other, absent), e)
  skip p pods pod_id k r other (inr (info, ((front, q, back, (at, (before, rest))), numbered))) =
      inr (info, ((p ∷ front, q, back, (ap (◌∷◌ p) at, ((other, before), rest))), numbered))

  dispenser_of_pod-IsFound :
      (pods : PodRegistry) (pod_id : String) (k : ℤ)
      → IsFound pods pod_id k (dispenser_of_pod lock pods pod_id k)
  unfolding dispenser_of_pod
  dispenser_of_pod-IsFound [] pod_id k = inl (tt, refl)
  dispenser_of_pod-IsFound (p ∷ pods) pod_id k = elim (Option-cases (lock p)) [
    | inl gone ↦
        rw (dispenser_of_pod, gone)
          (skip p pods pod_id k (dispenser_of_pod lock pods pod_id k) (rw (is_pod, gone) refl)
            (dispenser_of_pod-IsFound pods pod_id k))
    | inr (info, alive) ↦ elim (Bool-cases (info.id == pod_id)) [
      | inl same ↦
          rw (dispenser_of_pod, alive, same)
            (inr (
              info,
              (
                ([], p, pods, (refl, (tt, (alive, (String_eq.equal_iff info.id pod_id).0 same)))),
                create_dispenser-IsNumbered info k,
              ),
            ))
      | inr other ↦
          rw (dispenser_of_pod, alive, other)
            (skip p pods pod_id k (dispenser_of_pod lock pods pod_id k)
              (rw (is_pod, alive, other) refl) (dispenser_of_pod-IsFound pods pod_id k))
    ]
  ]

  abbrev pub IsDispatched :
      PodRegistry → Mapping → String → Expected DispenserError Dispenser → Type 0
  IsDispatched pods m i r =
      ((find i m ≡ none) × (r ≡ unexpected (not_assigned i)))
      ⊎ ((d : PodDispenser) × ((find i m ≡ some d) × IsFound pods d.pod_id d.dispenser_id r))

  -- The dispatcher refuses an ingredient exactly if it is not assigned, no living pod has the
  -- assigned id, or the number is not less than the pumps and valves of the first such pod; else
  -- the number gives a pump of that pod if it is less than its pumps, and a valve if it is not.
  pub create_dispenser_for_ingredient_lem :
      (pods : PodRegistry) (m : Mapping) (i : String)
      → IsDispatched pods m i (create_dispenser_for_ingredient lock pods m i)
  unfolding create_dispenser_for_ingredient find_dispenser_for_ingredient
  create_dispenser_for_ingredient_lem pods m i = elim (Option-cases (find i m)) [
    | inl missing ↦
        inl (
          missing,
          rw (create_dispenser_for_ingredient, find_dispenser_for_ingredient, missing) refl,
        )
    | inr (d, assigned) ↦ inr (
      d,
      (
        assigned,
        rw (create_dispenser_for_ingredient, find_dispenser_for_ingredient, assigned)
            (dispenser_of_pod-IsFound pods d.pod_id d.dispenser_id),
      ),
    )
  ]
