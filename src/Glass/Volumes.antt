-- ===== src/Glass/Volumes.antt =====
-- The active volumes of one glass: sorted, each once, whatever is added, removed or loaded.
use cocktail_maker.Prelude.{
  ◌≡◌, refl, Bool, true, false, List, [], ◌∷◌, none, some, ◌==◌, Comparable, if◌then◌else◌, arith,
  All, Bool-cases, inl, inr, ==_self,
}
use cocktail_maker.Glass.{lower_bound, add_to, remove_from}

-- A strict linear order, as `<` is on doubles that are numbers.
pub record IsLinear {Q : Type 0} (less : Q → Q → Bool) : Type 0 where
  pub irreflexive : (a : Q) → less a a ≡ false
  pub transitive : (a b c : Q) → less a b ≡ true → less b c ≡ true → less a c ≡ true
  pub connected : (a b : Q) → less a b ≡ false → less b a ≡ false → a ≡ b

module _ {Q : Type 0} (less : Q → Q → Bool) where
  abbrev pub AllAbove : Q → List Q → Type 0
  AllAbove x = All (λ y. less x y ≡ true)

  -- Sorted, and each volume once.
  abbrev pub IsSorted : List Q → Type 0
  IsSorted [] = Unit
  IsSorted (x ∷ xs) = AllAbove x xs × IsSorted xs

module _ {Q : Type 0} ⦃e : Comparable Q⦄ where
  -- Is the volume in the list?
  abbrev pub contains : List Q → Q → Bool
  contains [] w = false
  contains (x ∷ xs) w = if x == w then true else contains xs w

module _ {Q : Type 0} ⦃e : Comparable Q⦄ (less : Q → Q → Bool) (o : IsLinear less) where
  AllAbove-trans :
      (x y : Q) (xs : List Q) → less x y ≡ true → AllAbove less y xs → AllAbove less x xs
  AllAbove-trans x y [] h a = tt
  AllAbove-trans x y (z ∷ xs) h a = (o.transitive x y z h a.0, AllAbove-trans x y xs h a.1)

  -- The list with `v` at its place.
  abbrev pub added : List Q → Q → List Q
  added [] v = v ∷ []
  added (x ∷ xs) v = if less x v then x ∷ added xs v else if x == v then x ∷ xs else v ∷ x ∷ xs

  differs : (x v : Q) → less x v ≡ true → (x == v) ≡ false
  differs x v h = elim (Bool-cases (x == v)) [
    | inl same ↦ ground (arith, (e.equal_iff x v).0 same, o.irreflexive x)
    | inr n ↦ n
  ]

  contains-below :
      (x v : Q) (xs : List Q) → less x v ≡ false → AllAbove less x xs → contains xs v ≡ false
  contains-below x v [] h a = refl
  contains-below x v (y ∷ xs) h a = elim (Bool-cases (y == v)) [
    | inl same ↦ ground (arith, (e.equal_iff y v).0 same, a.0)
    | inr n ↦ rw n (contains-below x v xs h a.1)
  ]

  add_to-cons :
      (x v : Q) (xs : List Q)
      → less x v ≡ true
      → add_to less (x ∷ xs) v ≡ elim (add_to less xs v) [ none ↦ none | some ys ↦ some (x ∷ ys) ]
  unfolding add_to lower_bound
  add_to-cons x v xs h = ground arith

  add_to-front :
      (x v : Q) (xs : List Q)
      → less x v ≡ false
      → add_to less (x ∷ xs) v ≡ (if x == v then none else some (v ∷ x ∷ xs))
  unfolding add_to lower_bound
  add_to-front x v xs h = ground arith

  -- `v` is put at its place, unless it is there.
  pub add_to-added :
      (xs : List Q) (v : Q)
      → IsSorted less xs
      → add_to less xs v ≡ (if contains xs v then none else some (added xs v))
  unfolding add_to lower_bound
  add_to-added [] v s = refl
  add_to-added (x ∷ xs) v s = elim (Bool-cases (less x v)) [
    | inl l ↦ ground (arith, add_to-cons x v xs l, differs x v l, add_to-added xs v s.1)
    | inr n ↦ ground (arith, add_to-front x v xs n, contains-below x v xs n s.0)
  ]

  AllAbove-added :
      (x v : Q) (xs : List Q) → less x v ≡ true → AllAbove less x xs → AllAbove less x (added xs v)
  AllAbove-added x v [] h a = (h, tt)
  AllAbove-added x v (y ∷ xs) h a = elim (Bool-cases (less y v)) [
    | inl l ↦ rw l (a.0, AllAbove-added x v xs h a.1)
    | inr n ↦ elim (Bool-cases (y == v)) [
      | inl same ↦ rw (n, same) a
      | inr other ↦ rw (n, other) (h, a)
    ]
  ]

  pub added-IsSorted : (xs : List Q) (v : Q) → IsSorted less xs → IsSorted less (added xs v)
  added-IsSorted [] v s = (tt, tt)
  added-IsSorted (x ∷ xs) v s = elim (Bool-cases (less x v)) [
    | inl l ↦ rw l (AllAbove-added x v xs l s.0, added-IsSorted xs v s.1)
    | inr n ↦ elim (Bool-cases (x == v)) [
      | inl same ↦ rw (n, same) s
      | inr other ↦
          let l : less v x ≡ true = ground (arith, o.connected x v n, e.equal_iff x v, n, other) in
          rw (n, other) ((l, AllAbove-trans v x xs l s.0), s)
    ]
  ]

  pub contains-added :
      (xs : List Q) (v w : Q) → contains (added xs v) w ≡ (if v == w then true else contains xs w)
  contains-added [] v w = refl
  contains-added (x ∷ xs) v w =
      ground (arith, contains-added xs v w, e.equal_iff x v, e.equal_iff x w, e.equal_iff v w)

  -- The list without the first `v`.
  abbrev pub removed : List Q → Q → List Q
  removed [] v = []
  removed (x ∷ xs) v = if x == v then xs else x ∷ removed xs v

  pub remove_from-removed :
      (xs : List Q) (v : Q)
      → remove_from less xs v ≡ (if contains xs v then some (removed xs v) else none)
  unfolding remove_from
  remove_from-removed [] v = refl
  remove_from-removed (x ∷ xs) v = ground (arith, remove_from-removed xs v)

  AllAbove-removed : (x v : Q) (xs : List Q) → AllAbove less x xs → AllAbove less x (removed xs v)
  AllAbove-removed x v [] a = tt
  AllAbove-removed x v (y ∷ xs) a = elim (Bool-cases (y == v)) [
    | inl same ↦ rw same a.1
    | inr other ↦ rw other (a.0, AllAbove-removed x v xs a.1)
  ]

  pub removed-IsSorted : (xs : List Q) (v : Q) → IsSorted less xs → IsSorted less (removed xs v)
  removed-IsSorted [] v s = tt
  removed-IsSorted (x ∷ xs) v s = elim (Bool-cases (x == v)) [
    | inl same ↦ rw same s.1
    | inr other ↦ rw other (AllAbove-removed x v xs s.0, removed-IsSorted xs v s.1)
  ]

  pub contains-removed :
      (xs : List Q) (v w : Q)
      → IsSorted less xs
      → contains (removed xs v) w ≡ (if v == w then false else contains xs w)
  contains-removed [] v w s = ground arith
  contains-removed (x ∷ xs) v w s = ground (
    arith,
    contains-removed xs v w s.1,
    contains-below x x xs (o.irreflexive x) s.0,
    e.equal_iff x v,
    e.equal_iff x w,
    e.equal_iff v w,
  )

  pub removed-added : (xs : List Q) (v : Q) → contains xs v ≡ false → removed (added xs v) v ≡ xs
  removed-added [] v h = ground (arith, ==_self v)
  removed-added (x ∷ xs) v h = ground (arith, removed-added xs v, e.equal_iff x v, ==_self v)
