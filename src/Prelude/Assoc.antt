-- ===== src/Prelude/Assoc.antt =====
-- `std::map` and `std::unordered_map` as association lists. Iteration follows the list; the order of
-- an `unordered_map` is not fixed by the language, so no statement leans on it.
use mathlib.Core.Path.{◌≡◌, refl}
use mathlib.Core.List.{List, [], ◌∷◌, map}
use mathlib.Core.Option.{Option, none, some}
use mathlib.Core.Logic.{◌≢◌, inl, inr}
use native.Mathlib.Omega.{arith}
use cocktail_maker.Prelude.Tests.{Comparable, ◌==◌, if◌then◌else◌, Bool-cases}

module _ {ℓ κ} {K : Type ℓ} {V : Type κ} ⦃e : Comparable K⦄ where
  -- `m.find(k)`
  unfoldable pub find : K → List (K × V) → Option V
  find k [] = none
  find k ((j, v) ∷ m) = if j == k then some v else find k m

  -- `m.insert_or_assign(k, v)`
  unfoldable pub insert_or_assign : K → V → List (K × V) → List (K × V)
  insert_or_assign k v [] = (k, v) ∷ []
  insert_or_assign k v ((j, w) ∷ m) = if j == k then (j, v) ∷ m else (j, w) ∷ insert_or_assign k v m

  -- `m.emplace(k, v)` and `m.try_emplace(k, v)`: a key that is present keeps its value.
  unfoldable pub emplace : K → V → List (K × V) → List (K × V)
  emplace k v [] = (k, v) ∷ []
  emplace k v ((j, w) ∷ m) = if j == k then (j, w) ∷ m else (j, w) ∷ emplace k v m

  -- `m.erase(k)`
  unfoldable pub erase : K → List (K × V) → List (K × V)
  erase k [] = []
  erase k ((j, w) ∷ m) = if j == k then erase k m else (j, w) ∷ erase k m

  abbrev pub keys : List (K × V) → List K
  keys = map (λ p. p.0)

  -- Every key stands once.
  abbrev pub Absent : K → List (K × V) → Type ℓ
  Absent k [] = Unit
  Absent k (p ∷ m) = (p.0 ≢ k) × Absent k m

  abbrev pub Unique : List (K × V) → Type ℓ
  Unique [] = Unit
  Unique (p ∷ m) = Absent p.0 m × Unique m

  pub find-insert_or_assign :
      (k j : K) (v : V) (m : List (K × V))
      → find j (insert_or_assign k v m) ≡ (if k == j then some v else find j m)
  unfolding find insert_or_assign
  find-insert_or_assign k j v [] = refl
  find-insert_or_assign k j v ((i, w) ∷ m) =
      ground
        (arith, e.equal_iff k j, e.equal_iff i k, e.equal_iff i j, find-insert_or_assign k j v m)

  pub find-emplace :
      (k j : K) (v : V) (m : List (K × V))
      → find j (emplace k v m)
        ≡ elim (find j m) [ some w ↦ some w | none ↦ if k == j then some v else none ]
  unfolding find emplace
  find-emplace k j v [] = refl
  find-emplace k j v ((i, w) ∷ m) =
      ground (arith, e.equal_iff k j, e.equal_iff i k, e.equal_iff i j, find-emplace k j v m)

  pub find-erase :
      (k j : K) (m : List (K × V)) → find j (erase k m) ≡ (if k == j then none else find j m)
  unfolding find erase
  find-erase k j [] = ground arith
  find-erase k j ((i, w) ∷ m) =
      ground (arith, e.equal_iff k j, e.equal_iff i k, e.equal_iff i j, find-erase k j m)

  pub emplace_present : (k : K) (v w : V) (m : List (K × V)) → find k m ≡ some w → emplace k v m ≡ m
  unfolding find emplace
  emplace_present k v w [] h = cc
  emplace_present k v w ((i, u) ∷ m) h = ground (arith, emplace_present k v w m)

  Absent-insert_or_assign :
      (k j : K) (v : V) (m : List (K × V)) → k ≢ j → Absent j m → Absent j (insert_or_assign k v m)
  unfolding insert_or_assign
  Absent-insert_or_assign k j v [] n h = (n, tt)
  Absent-insert_or_assign k j v ((i, w) ∷ m) n h = elim (Bool-cases (i == k)) [
    | inl same ↦ rw same h
    | inr other ↦ rw other (h.0, Absent-insert_or_assign k j v m n h.1)
  ]

  pub insert_or_assign-Unique :
      (k : K) (v : V) (m : List (K × V)) → Unique m → Unique (insert_or_assign k v m)
  unfolding insert_or_assign
  insert_or_assign-Unique k v [] u = (tt, tt)
  insert_or_assign-Unique k v ((i, w) ∷ m) u = elim (Bool-cases (i == k)) [
    | inl same ↦ rw same u
    | inr other ↦ rw other (
      Absent-insert_or_assign k i v m (λ p. ground (arith, e.equal_iff i k)) u.0,
      insert_or_assign-Unique k v m u.1,
    )
  ]
