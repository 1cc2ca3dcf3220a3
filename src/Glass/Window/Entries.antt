-- ===== src/Glass/Window/Entries.antt =====
-- The entries of the list, next to the glasses of the store.
use cocktail_maker.Prelude.{
  ◌≡◌, refl, Bool, true, false, List, [], ◌∷◌, ◌++◌, some, String, String_eq, ◌==◌, Comparable,
  if◌then◌else◌, arith, Bool-cases, inl, inr, ◌∙◌, sym, ap, All,
}
use cocktail_maker.Prelude.Assoc.{find}
use cocktail_maker.Glass.{Glass, Glasses, set_active, sort, insert_sorted}
use cocktail_maker.Glass.Volumes.{IsLinear, IsSorted, AllAbove}
use cocktail_maker.Glass.Store.{active_of, AllSorted, IsSorted-found, active_of-set_active}
use cocktail_maker.Glass.Window.{
  Entry, is_listed, remove_entry, change_volumes, add_entry, is_empty, list_glasses,
}

module _ {Q F : Type 0} where
  is_listed-append :
      (entries : List (Entry Q F)) (new : Entry Q F) (id : String)
      → is_listed (entries ++ (new ∷ [])) id ≡ (if is_listed entries id then true else new.id == id)
  unfolding is_listed
  is_listed-append [] new id = ground arith
  is_listed-append (e ∷ entries) new id = ground (arith, is_listed-append entries new id)

  is_listed-remove_entry :
      (entries : List (Entry Q F)) (id other : String)
      → is_listed entries other ≡ false
      → is_listed (remove_entry entries id) other ≡ false
  unfolding is_listed remove_entry
  is_listed-remove_entry [] id other n = refl
  is_listed-remove_entry (e ∷ entries) id other n =
      ground (arith, is_listed-remove_entry entries id other, n)

  is_listed-change_volumes :
      (change : List Q → List Q) (entries : List (Entry Q F)) (id other : String)
      → is_listed (change_volumes change entries id) other ≡ is_listed entries other
  unfolding is_listed change_volumes
  is_listed-change_volumes change [] id other = refl
  is_listed-change_volumes change (e ∷ entries) id other =
      ground (arith, is_listed-change_volumes change entries id other)

module _ {Q : Type 0} ⦃e : Comparable Q⦄ (less : Q → Q → Bool) (o : IsLinear less) where
  insert_sorted-first :
      (v : Q) (xs : List Q) → AllAbove less v xs → insert_sorted less v xs ≡ v ∷ xs
  unfolding insert_sorted
  insert_sorted-first v [] a = refl
  insert_sorted-first v (x ∷ xs) a = elim (Bool-cases (less x v)) [
    | inl l ↦ absurd ground (arith, o.transitive v x v a.0 l, o.irreflexive v)
    | inr n ↦ rw n refl
  ]

  sort_sorted : (xs : List Q) → IsSorted less xs → sort less xs ≡ xs
  unfolding sort
  sort_sorted [] s = refl
  sort_sorted (x ∷ xs) s = rw (sort_sorted xs s.1) (insert_sorted-first x xs s.0)

module _ {Q F : Type 0} ⦃e : Comparable Q⦄ (less : Q → Q → Bool) (o : IsLinear less) where
  -- Every glass is listed once at most, with the active volumes that it has in the store.
  abbrev pub Shows : Glasses Q F → List (Entry Q F) → Type 0
  Shows glasses [] = Unit
  Shows glasses (e ∷ entries) =
      (e.active_volumes ≡ active_of less o glasses e.id)
      × (is_listed entries e.id ≡ false)
      × Shows glasses entries

  Shows-append :
      (glasses : Glasses Q F) (entries : List (Entry Q F)) (new : Entry Q F)
      → Shows glasses entries
      → is_listed entries new.id ≡ false
      → new.active_volumes ≡ active_of less o glasses new.id
      → Shows glasses (entries ++ (new ∷ []))
  unfolding is_listed
  Shows-append glasses [] new h n same = (same, refl, tt)
  Shows-append glasses (e ∷ entries) new h n same = (
    h.0,
    ground (
      arith,
      is_listed-append entries new e.id,
      h.1,
      n,
      String_eq.equal_iff e.id new.id,
      String_eq.equal_iff new.id e.id,
    ),
    Shows-append glasses entries new h.2 (ground (arith, n)) same,
  )

  pub Shows-remove_entry :
      (glasses : Glasses Q F) (entries : List (Entry Q F)) (id : String)
      → Shows glasses entries
      → Shows glasses (remove_entry entries id)
  unfolding remove_entry
  Shows-remove_entry glasses [] id h = tt
  Shows-remove_entry glasses (e ∷ entries) id h = elim (Bool-cases (e.id == id)) [
    | inl same ↦ rw same h.2
    | inr other ↦
        rw other (
          h.0,
          is_listed-remove_entry entries id e.id h.1,
          Shows-remove_entry glasses entries id h.2,
        )
  ]

  set_active-Shows :
      (glasses : Glasses Q F) (g : Glass Q F) (id : String) (volumes : List Q)
      (entries : List (Entry Q F))
      → Shows glasses entries
      → is_listed entries id ≡ false
      → Shows (set_active glasses g id volumes) entries
  unfolding is_listed
  set_active-Shows glasses g id volumes [] h n = tt
  set_active-Shows glasses g id volumes (e ∷ entries) h n = (
    ground (
      arith,
      h.0,
      n,
      active_of-set_active less o glasses g id e.id volumes,
      String_eq.equal_iff e.id id,
      String_eq.equal_iff id e.id,
    ),
    h.1,
    set_active-Shows glasses g id volumes entries h.2 (ground (arith, n)),
  )

  -- The row of the glass changes as the glass does.
  pub Shows-change_volumes :
      (change : List Q → List Q) (glasses : Glasses Q F) (g : Glass Q F) (id : String)
      (entries : List (Entry Q F))
      → find id glasses ≡ some g
      → Shows glasses entries
      → Shows (set_active glasses g id (change g.active_volumes)) (change_volumes change entries id)
  unfolding change_volumes
  Shows-change_volumes change glasses g id [] f h = tt
  Shows-change_volumes change glasses g id (e ∷ entries) f h =
      let stored : active_of less o (set_active glasses g id (change g.active_volumes)) e.id
          ≡ (if id == e.id then change g.active_volumes else active_of less o glasses e.id) =
        active_of-set_active less o glasses g id e.id (change g.active_volumes) in
      elim (Bool-cases (e.id == id)) [
        | inl same ↦
            let at : e.id ≡ id = (String_eq.equal_iff e.id id).0 same in
            let here : active_of less o glasses e.id ≡ g.active_volumes =
              ap (active_of less o glasses) at ∙ ground (arith, f) in
            rw same (
              ap change (h.0 ∙ here)
                  ∙ sym (stored ∙ ground (arith, same, String_eq.equal_iff id e.id, at)),
              h.1,
              set_active-Shows glasses g id (change g.active_volumes) entries h.2
                  (ground (arith, h.1, at)),
            )
        | inr other ↦ rw other (
          ground
              (arith, h.0, stored, other, String_eq.equal_iff id e.id, String_eq.equal_iff e.id id),
          is_listed-change_volumes change entries id e.id ∙ h.1,
          Shows-change_volumes change glasses g id entries f h.2,
        )
      ]

  pub add_entry-Shows :
      (format_ml : Q → String) (glasses : Glasses Q F) (entries : List (Entry Q F)) (id : String)
      (g : Glass Q F)
      → AllSorted less o glasses
      → find id glasses ≡ some g
      → Shows glasses entries
      → Shows glasses (add_entry less format_ml entries id g)
  unfolding add_entry
  add_entry-Shows format_ml glasses entries id g s f h = elim (Bool-cases (is_listed entries id)) [
    | inl there ↦ rw there h
    | inr new ↦ rw new (
        Shows-append glasses entries _ h new (
          sort_sorted less o g.active_volumes (IsSorted-found less o glasses id g s f)
          ∙ ground (arith, f)))
  ]

  pub list_glasses-Shows :
      (format_ml : Q → String) (glasses : Glasses Q F) (entries : List (Entry Q F))
      (rest : Glasses Q F)
      → AllSorted less o glasses
      → All (λ p. find p.1.id glasses ≡ some p.1) rest
      → Shows glasses entries
      → Shows glasses (list_glasses less format_ml entries rest)
  unfolding list_glasses
  list_glasses-Shows format_ml glasses entries [] s found h = h
  list_glasses-Shows format_ml glasses entries ((_, g) ∷ rest) s found h =
      elim (Bool-cases (is_empty g.active_volumes)) [
        | inl none_active ↦
            rw none_active (list_glasses-Shows format_ml glasses entries rest s found.1 h)
        | inr active ↦ rw active (
            list_glasses-Shows format_ml glasses (add_entry less format_ml entries g.id g) rest s
              found.1 (add_entry-Shows format_ml glasses entries g.id g s found.0 h))
      ]
