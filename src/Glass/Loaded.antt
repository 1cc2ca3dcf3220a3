-- ===== src/Glass/Loaded.antt =====
-- Sorting and taking out duplicates, as the loader of the active volumes does.
use cocktail_maker.Prelude.{
  ◌≡◌, refl, Bool, true, false, List, [], ◌∷◌, ◌==◌, Comparable, if◌then◌else◌, arith, All,
  Bool-cases, inl, inr,
}
use cocktail_maker.Glass.{insert_sorted, sort, unique}
use cocktail_maker.Glass.Volumes.{IsLinear, AllAbove, IsSorted, contains}

module _ {Q : Type 0} ⦃e : Comparable Q⦄ (less : Q → Q → Bool) (o : IsLinear less) where
  -- No later volume is less.
  AllLater : Q → List Q → Type 0
  AllLater x = All (λ y. less y x ≡ false)

  IsOrdered : List Q → Type 0
  unfolding AllLater
  IsOrdered [] = Unit
  IsOrdered (x ∷ xs) = AllLater x xs × IsOrdered xs

  not_less : (a b : Q) → less a b ≡ true → less b a ≡ false
  not_less a b h = elim (Bool-cases (less b a)) [
    | inl back ↦ ground (arith, o.transitive a b a h back, o.irreflexive a)
    | inr n ↦ n
  ]

  not_less_trans : (x y z : Q) → less y x ≡ false → less z y ≡ false → less z x ≡ false
  not_less_trans x y z h k = elim (Bool-cases (less z x)) [
    | inl l ↦ ground (arith, o.connected x y, o.transitive z x y l, l, h, k)
    | inr n ↦ n
  ]

  AllLater-trans : (x y : Q) (xs : List Q) → less y x ≡ false → AllLater y xs → AllLater x xs
  unfolding AllLater
  AllLater-trans x y [] h a = tt
  AllLater-trans x y (z ∷ xs) h a = (not_less_trans x y z h a.0, AllLater-trans x y xs h a.1)

  AllLater-insert_sorted :
      (x v : Q) (xs : List Q)
      → less v x ≡ false
      → AllLater x xs
      → AllLater x (insert_sorted less v xs)
  unfolding AllLater insert_sorted
  AllLater-insert_sorted x v [] h a = (h, tt)
  AllLater-insert_sorted x v (y ∷ xs) h a = elim (Bool-cases (less y v)) [
    | inl l ↦ rw l (a.0, AllLater-insert_sorted x v xs h a.1)
    | inr n ↦ rw n (h, a)
  ]

  insert_sorted-IsOrdered :
      (v : Q) (xs : List Q) → IsOrdered xs → IsOrdered (insert_sorted less v xs)
  unfolding IsOrdered insert_sorted
  insert_sorted-IsOrdered v [] s = (tt, tt)
  insert_sorted-IsOrdered v (x ∷ xs) s = elim (Bool-cases (less x v)) [
    | inl l ↦
        rw l (AllLater-insert_sorted x v xs (not_less x v l) s.0, insert_sorted-IsOrdered v xs s.1)
    | inr n ↦ rw n ((n, AllLater-trans v x xs n s.0), s)
  ]

  sort-IsOrdered : (xs : List Q) → IsOrdered (sort less xs)
  unfolding sort IsOrdered
  sort-IsOrdered [] = tt
  sort-IsOrdered (x ∷ xs) = insert_sorted-IsOrdered x (sort less xs) (sort-IsOrdered xs)

  contains-insert_sorted :
      (v w : Q) (xs : List Q)
      → contains (insert_sorted less v xs) w ≡ (if v == w then true else contains xs w)
  unfolding insert_sorted
  contains-insert_sorted v w [] = refl
  contains-insert_sorted v w (x ∷ xs) = ground (arith, contains-insert_sorted v w xs)

  contains-sort : (xs : List Q) (w : Q) → contains (sort less xs) w ≡ contains xs w
  unfolding sort
  contains-sort [] w = refl
  contains-sort (x ∷ xs) w =
      ground (arith, contains-insert_sorted x w (sort less xs), contains-sort xs w)

  contains-unique : (xs : List Q) (w : Q) → contains (unique less xs) w ≡ contains xs w
  unfolding unique
  contains-unique [] w = refl
  contains-unique (x ∷ []) w = refl
  contains-unique (x ∷ y ∷ ys) w =
      ground (arith, contains-unique (y ∷ ys) w, e.equal_iff x y, e.equal_iff x w, e.equal_iff y w)

  AllAbove-AllLater : (x y : Q) (ys : List Q) → less x y ≡ true → AllLater y ys → AllAbove less x ys
  unfolding AllLater
  AllAbove-AllLater x y [] h a = tt
  AllAbove-AllLater x y (z ∷ ys) h a = (
    ground (arith, o.connected y z, o.transitive x y z h, h, a.0),
    AllAbove-AllLater x y ys h a.1,
  )

  AllAbove-unique : (x : Q) (xs : List Q) → AllAbove less x xs → AllAbove less x (unique less xs)
  unfolding unique
  AllAbove-unique x [] a = tt
  AllAbove-unique x (y ∷ []) a = a
  AllAbove-unique x (y ∷ z ∷ ys) a = elim (Bool-cases (y == z)) [
    | inl same ↦ rw same (AllAbove-unique x (z ∷ ys) a.1)
    | inr other ↦ rw other (a.0, AllAbove-unique x (z ∷ ys) a.1)
  ]

  unique-IsSorted : (xs : List Q) → IsOrdered xs → IsSorted less (unique less xs)
  unfolding unique IsOrdered AllLater
  unique-IsSorted [] s = tt
  unique-IsSorted (x ∷ []) s = (tt, tt)
  unique-IsSorted (x ∷ y ∷ ys) s = elim (Bool-cases (x == y)) [
    | inl same ↦ rw same (unique-IsSorted (y ∷ ys) s.1)
    | inr other ↦
        let l : less x y ≡ true = ground (arith, o.connected x y, e.equal_iff x y, other, s.0.0) in
        rw other (
          AllAbove-unique x (y ∷ ys) (l, AllAbove-AllLater x y ys l s.1.0),
          unique-IsSorted (y ∷ ys) s.1,
        )
  ]

  pub loaded-IsSorted : (xs : List Q) → IsSorted less (unique less (sort less xs))
  loaded-IsSorted xs = unique-IsSorted (sort less xs) (sort-IsOrdered xs)

  -- Where the order is linear, sort and unique give a strictly sorted list of the same volumes.
  pub unique-sort :
      (xs : List Q) (w : Q)
      → IsSorted less (unique less (sort less xs))
        × (contains (unique less (sort less xs)) w ≡ contains xs w)
  unique-sort xs w =
      (loaded-IsSorted xs, ground (arith, contains-unique (sort less xs) w, contains-sort xs w))
