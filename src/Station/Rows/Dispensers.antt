-- ===== src/Station/Rows/Dispensers.antt =====
-- The dispensers that a row offers, against those that the pod creates.
use cocktail_maker.Prelude.{
  ℕ, zero, suc, ◌+◌, ◌-◌, ◌<◌, ◌≤◌, ◌≡◌, inl, inr, refl, ap, sym, ◌∙◌, List, [], ◌∷◌, ◌++◌, some,
  String, arith, length, get_elem?, ltb, Bool-cases,
}
use cocktail_maker.Prelude.Expected.{value}
use cocktail_maker.Prelude.Int.{ℤ, pos, ◌+ℤ◌}
use cocktail_maker.Pods.{PodInfo, Dispenser, pump, valve, create_dispenser}
use cocktail_maker.Station.Rows.{
  UiDispenser, DispenserType, pump_type, valve_type, push_dispensers, dispenser_rows,
}

-- What the pod creates for a dispenser of the row.
abbrev pub created : UiDispenser → Dispenser
created d = elim d.type [ pump_type ↦ pump d.id | valve_type ↦ valve d.id ]

length-push_dispensers :
    (type : DispenserType) (first : ℤ) (i n : ℕ) → length (push_dispensers type first i n) ≡ n
unfolding push_dispensers
length-push_dispensers type first i zero = refl
length-push_dispensers type first i (suc n) = ap suc (length-push_dispensers type first (suc i) n)

push_dispensers_at :
    (type : DispenserType) (f i n k : ℕ)
    → k < n
    → get_elem? (push_dispensers type (pos f) i n) k
      ≡ some (record { id = pos (f + (i + k)); type = type })
unfolding push_dispensers ◌+ℤ◌
push_dispensers_at type f i zero k h = absurd (omega arith)
push_dispensers_at type f i (suc n) zero h =
    let e : (pos f +ℤ pos i) ≡ pos (f + (i + 0)) = ground arith in
    ap (λ z. some (record { id = z; type = type })) e
push_dispensers_at type f i (suc n) (suc k) h =
    let e : f + (suc i + k) ≡ f + (i + suc k) = omega arith in
    push_dispensers_at type f (suc i) n k (omega arith)
    ∙ ap (λ z. some (record { id = pos z; type = type })) e

get_elem?-append_left :
    (xs ys : List UiDispenser) (k : ℕ) → k < length xs → get_elem? (xs ++ ys) k ≡ get_elem? xs k
get_elem?-append_left [] ys k h = absurd (omega arith)
get_elem?-append_left (x ∷ xs) ys zero h = refl
get_elem?-append_left (x ∷ xs) ys (suc k) h = get_elem?-append_left xs ys k (omega arith)

get_elem?-append_right :
    (xs ys : List UiDispenser) (k : ℕ) → get_elem? (xs ++ ys) (length xs + k) ≡ get_elem? ys k
get_elem?-append_right [] ys k = let e : 0 + k ≡ k = omega arith in ap (λ j. get_elem? ys j) e
get_elem?-append_right (x ∷ xs) ys k =
    let e : suc (length xs) + k ≡ suc (length xs + k) = omega arith in
    ap (λ j. get_elem? (x ∷ (xs ++ ys)) j) e ∙ get_elem?-append_right xs ys k

-- On a pod with n pumps and m valves, the dispenser of the row at place k < n + m has the number
-- k, and create_dispenser of that number gives a dispenser of the type that the row shows.
pub dispenser_rows-create_dispenser :
    (id : String) (n m k : ℕ)
    → k < n + m
    → let info : PodInfo = record { id = id; num_pumps = pos n; num_valves = pos m } in
      (d : UiDispenser) × ((get_elem? (dispenser_rows info) k ≡ some d)
        × ((d.id ≡ pos k) × (create_dispenser info d.id ≡ value (created d))))
unfolding dispenser_rows create_dispenser ◌+ℤ◌
dispenser_rows-create_dispenser id n m k h =
    let pumps = push_dispensers pump_type (pos 0) 0 n in
    let valves = push_dispensers valve_type (pos n) 0 m in
    let many : length pumps ≡ n = length-push_dispensers pump_type (pos 0) 0 n in
    elim (Bool-cases (ltb k n)) [
      | inl low ↦
          let less : k < n = ground arith in
          let e : 0 + (0 + k) ≡ k = omega arith in
          (
            record { id = pos k; type = pump_type },
            (
              get_elem?-append_left pumps valves k (rw many less)
                  ∙ push_dispensers_at pump_type 0 0 n k less
                  ∙ ap (λ z. some (record { id = pos z; type = pump_type })) e,
              (refl, ground (arith, less)),
            ),
          )
      | inr high ↦
          let most : n ≤ k = ground arith in
          let e : n + (0 + (k - n)) ≡ k = omega arith in
          let there : length pumps + (k - n) ≡ k = omega (arith, many) in
          (
            record { id = pos k; type = valve_type },
            (
              ap (λ j. get_elem? (pumps ++ valves) j) (sym there)
                  ∙ get_elem?-append_right pumps valves (k - n)
                  ∙ push_dispensers_at valve_type n 0 m (k - n) (omega arith)
                  ∙ ap (λ z. some (record { id = pos z; type = valve_type })) e,
              (refl, ground (arith, most, h)),
            ),
          )
    ]
