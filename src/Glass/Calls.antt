-- ===== src/Glass/Calls.antt =====
-- The calls of `GlassStore` that change the active volumes of a glass.
use cocktail_maker.Prelude.{
  ◌≡◌, refl, Bool, true, false, not, ==_self, ◌&&◌, none, some, String, String_eq, ◌==◌, Comparable,
  if◌then◌else◌, arith, Bool-cases, Option-cases, inl, inr,
}
use cocktail_maker.Prelude.Assoc.{find, find-insert_or_assign}
use cocktail_maker.Glass.{Glass, Glasses, set_active, add_active_volume, remove_active_volume}
use cocktail_maker.Glass.Volumes.{
  IsLinear, contains, added, removed, add_to-added, added-IsSorted, contains-added,
  remove_from-removed, removed-IsSorted, removed-added,
}
use cocktail_maker.Glass.Store.{
  active_of, AllSorted, set_active-AllSorted, IsSorted-found, active_of-set_active,
}

module _ {Q F : Type 0} ⦃e : Comparable Q⦄ (less : Q → Q → Bool) (o : IsLinear less) where
  abbrev outcome :
      {Disk : Type 0} → (Glasses Q F → Disk → Disk) → Glasses Q F → Disk → Glasses Q F × Disk × Bool
  outcome save next disk = (next, save next disk, true)

  module _ {Disk : Type 0} (save : Glasses Q F → Disk → Disk) where
    pub add_known :
        (glasses : Glasses Q F) (disk : Disk) (id : String) (v : Q) (g : Glass Q F)
        → AllSorted less o glasses
        → find id glasses ≡ some g
        → add_active_volume less save glasses disk id v ≡ (
            if contains g.active_volumes v
            then (glasses, disk, false)
            else outcome save (set_active glasses g id (added less o g.active_volumes v)) disk)
    unfolding add_active_volume
    add_known glasses disk id v g h f =
        ground (
          arith,
          f,
          add_to-added less o g.active_volumes v (IsSorted-found less o glasses id g h f),
        )

    pub remove_known :
        (glasses : Glasses Q F) (disk : Disk) (id : String) (v : Q) (g : Glass Q F)
        → find id glasses ≡ some g
        → remove_active_volume less save glasses disk id v ≡ (
            if contains g.active_volumes v
            then outcome save (set_active glasses g id (removed less o g.active_volumes v)) disk
            else (glasses, disk, false))
    unfolding remove_active_volume
    remove_known glasses disk id v g f =
        ground (arith, f, remove_from-removed less o g.active_volumes v)

    pub unknown :
        (glasses : Glasses Q F) (disk : Disk) (id : String) (v : Q)
        → find id glasses ≡ none
        → (add_active_volume less save glasses disk id v ≡ (glasses, disk, false))
          × (remove_active_volume less save glasses disk id v ≡ (glasses, disk, false))
    unfolding add_active_volume remove_active_volume
    unknown glasses disk id v n = (ground arith, ground arith)

    -- Where the order is linear, add_active_volume and remove_active_volume keep the active
    -- volumes of every glass sorted, each once.
    pub add_remove-AllSorted :
        (glasses : Glasses Q F) (disk : Disk) (id : String) (v : Q)
        → AllSorted less o glasses
        → AllSorted less o (add_active_volume less save glasses disk id v).0
          × AllSorted less o (remove_active_volume less save glasses disk id v).0
    add_remove-AllSorted glasses disk id v h = elim (Option-cases (find id glasses)) [
      | inl n ↦ rw ((unknown glasses disk id v n).0, (unknown glasses disk id v n).1) (h, h)
      | inr (g, f) ↦
          let s = IsSorted-found less o glasses id g h f in
          elim (Bool-cases (contains g.active_volumes v)) [
            | inl there ↦
                rw (add_known glasses disk id v g h f, remove_known glasses disk id v g f, there)
                  (
                    h,
                    set_active-AllSorted less o glasses g id (removed less o g.active_volumes v) h
                        (removed-IsSorted less o g.active_volumes v s),
                  )
            | inr new ↦
                rw (add_known glasses disk id v g h f, remove_known glasses disk id v g f, new)
                  (
                    set_active-AllSorted less o glasses g id (added less o g.active_volumes v) h
                        (added-IsSorted less o g.active_volumes v s),
                    h,
                  )
          ]
    ]

    -- For a glass that is known, in a sorted store, add_active_volume returns true exactly where
    -- the glass does not have the volume; the glass has it afterwards, and no other volume of any
    -- glass changes.
    pub contains-add_active_volume :
        (glasses : Glasses Q F) (disk : Disk) (id j : String) (v w : Q) (g : Glass Q F)
        → AllSorted less o glasses
        → find id glasses ≡ some g
        → ((add_active_volume less save glasses disk id v).2 ≡ not (contains g.active_volumes v))
          × (contains (active_of less o (add_active_volume less save glasses disk id v).0 j) w
              ≡ (if id == j && v == w then true else contains (active_of less o glasses j) w))
    contains-add_active_volume glasses disk id j v w g h f =
        let grows : contains (added less o g.active_volumes v) w
            ≡ (if v == w then true else contains g.active_volumes w) =
          contains-added less o g.active_volumes v w in
        elim (Bool-cases (contains g.active_volumes v)) [
          | inl there ↦
              rw (add_known glasses disk id v g h f, there)
                (refl, ground (arith, f, there, String_eq.equal_iff id j, e.equal_iff v w))
          | inr new ↦
              rw
                (
                  add_known glasses disk id v g h f,
                  new,
                  active_of-set_active less o glasses g id j (added less o g.active_volumes v),
                )
                (refl, ground (arith, f, grows, String_eq.equal_iff id j))
        ]

    -- A volume that a known glass of a sorted store did not have, added and removed again, leaves
    -- the active volumes of every glass as they were.
    pub remove-add_active_volume :
        (glasses : Glasses Q F) (disk : Disk) (id j : String) (v : Q) (g : Glass Q F)
        → AllSorted less o glasses
        → find id glasses ≡ some g
        → contains g.active_volumes v ≡ false
        → let after = (add_active_volume less save glasses disk id v).0 in
          active_of less o (remove_active_volume less save after disk id v).0 j
          ≡ active_of less o glasses j
    remove-add_active_volume glasses disk id j v g h f new =
        let volumes = added less o g.active_volumes v in
        let next : Glasses Q F = set_active glasses g id volumes in
        let h' : Glass Q F = record g { active_volumes = volumes } in
        let found : find id next ≡ some h' =
          ground (arith, find-insert_or_assign id id h' glasses, ==_self id) in
        let there : contains volumes v ≡ true =
          ground (arith, contains-added less o g.active_volumes v v, ==_self v) in
        let back : removed less o volumes v ≡ g.active_volumes =
          removed-added less o g.active_volumes v new in
        rw
          (
            add_known glasses disk id v g h f,
            new,
            remove_known next disk id v h' found,
            there,
            active_of-set_active less o next h' id j (removed less o volumes v),
            active_of-set_active less o glasses g id j volumes,
            back,
          )
          (ground (arith, f, String_eq.equal_iff id j))
