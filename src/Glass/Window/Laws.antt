-- ===== src/Glass/Window/Laws.antt =====
-- The list of the window shows what the store holds.
use cocktail_maker.Prelude.{
  ◌≡◌, Bool, true, false, List, [], ◌∷◌, some, String, String_eq, Comparable, arith, Bool-cases,
  Option-cases, inl, inr, sym, All,
}
use cocktail_maker.Prelude.Assoc.{find}
use cocktail_maker.Prelude.Int.{ℤ}
use cocktail_maker.Glass.{Glasses}
use cocktail_maker.Glass.Volumes.{
  IsLinear, IsSorted, contains, added, removed, add_to-added, remove_from-removed,
}
use cocktail_maker.Glass.Store.{AllSorted, IsSorted-found}
use cocktail_maker.Glass.Calls.{add_known, remove_known, unknown, add_remove-AllSorted}
use cocktail_maker.Glass.Window.{
  volume_model_add, volume_model_remove, GlassContext, register_ui_callbacks, UiCall, add_glass,
  remove_glass, add_volume_from_glass, remove_volume_from_glass, on_ui_add_glass,
  on_ui_add_glass_volume, on_ui_remove_glass_volume, ui_call, ui_calls,
}
use cocktail_maker.Glass.Window.Entries.{
  Shows, Shows-remove_entry, Shows-change_volumes, add_entry-Shows, list_glasses-Shows,
}

module _ {Q F : Type 0} ⦃e : Comparable Q⦄ (less : Q → Q → Bool) (o : IsLinear less) where
  module _ {Disk : Type 0} (format_ml : Q → String) (to_litre : ℤ → Q)
      (save : Glasses Q F → Disk → Disk) where
    -- What the window may rely on: a sorted store, and the list that shows it.
    abbrev pub IsCurrent : GlassContext Q F Disk → Type 0
    IsCurrent c = AllSorted less o c.glasses × Shows less o c.glasses c.entries

    on_ui_add_glass-IsCurrent :
        (c : GlassContext Q F Disk) (id : String)
        → IsCurrent c
        → IsCurrent (on_ui_add_glass less format_ml to_litre save c id)
    unfolding on_ui_add_glass
    on_ui_add_glass-IsCurrent c id (s, h) = elim (Option-cases (find id c.glasses)) [
      | inl n ↦ rw (on_ui_add_glass, n) (s, h)
      | inr (g, f) ↦
          rw (on_ui_add_glass, f)
            (s, add_entry-Shows less o format_ml c.glasses c.entries id g s f h)
    ]

    volume_model_add-added :
        (xs : List Q) (v : Q)
        → IsSorted less xs
        → contains xs v ≡ false
        → volume_model_add less v xs ≡ added less o xs v
    unfolding volume_model_add
    volume_model_add-added xs v s new = ground (arith, add_to-added less o xs v s, new)

    volume_model_remove-removed :
        (xs : List Q) (v : Q)
        → contains xs v ≡ true
        → volume_model_remove less v xs ≡ removed less o xs v
    unfolding volume_model_remove
    volume_model_remove-removed xs v there = ground (arith, remove_from-removed less o xs v, there)

    on_ui_add_glass_volume-Shows :
        (c : GlassContext Q F Disk) (id : String) (v : Q)
        → IsCurrent c
        → let d = on_ui_add_glass_volume less format_ml to_litre save c id v in
          Shows less o d.glasses d.entries
    unfolding on_ui_add_glass_volume
    on_ui_add_glass_volume-Shows c id v (s, h) = elim (Option-cases (find id c.glasses)) [
      | inl n ↦ rw (unknown less o save c.glasses c.disk id v n).0 h
      | inr (g, f) ↦ elim (Bool-cases (contains g.active_volumes v)) [
        | inl there ↦ rw (add_known less o save c.glasses c.disk id v g s f, there) h
        | inr new ↦
            rw
              (
                add_known less o save c.glasses c.disk id v g s f,
                new,
                sym (
                    volume_model_add-added g.active_volumes v
                      (IsSorted-found less o c.glasses id g s f) new),
              )
              (Shows-change_volumes less o (volume_model_add less v) c.glasses g id c.entries f h)
      ]
    ]

    on_ui_remove_glass_volume-Shows :
        (c : GlassContext Q F Disk) (id : String) (v : Q)
        → IsCurrent c
        → let d = on_ui_remove_glass_volume less format_ml to_litre save c id v in
          Shows less o d.glasses d.entries
    unfolding on_ui_remove_glass_volume
    on_ui_remove_glass_volume-Shows c id v (s, h) = elim (Option-cases (find id c.glasses)) [
      | inl n ↦ rw (unknown less o save c.glasses c.disk id v n).1 h
      | inr (g, f) ↦ elim (Bool-cases (contains g.active_volumes v)) [
        | inl there ↦
            rw
              (
                remove_known less o save c.glasses c.disk id v g f,
                there,
                sym (volume_model_remove-removed g.active_volumes v there),
              )
              (Shows-change_volumes less o (volume_model_remove less v) c.glasses g id c.entries f
                h)
        | inr new ↦ rw (remove_known less o save c.glasses c.disk id v g f, new) h
      ]
    ]

    ui_call-IsCurrent :
        (c : GlassContext Q F Disk) (call : UiCall)
        → IsCurrent c
        → IsCurrent (ui_call less format_ml to_litre save c call)
    unfolding ui_call on_ui_add_glass_volume on_ui_remove_glass_volume
    ui_call-IsCurrent c (add_glass id) h = on_ui_add_glass-IsCurrent c id h
    ui_call-IsCurrent c (remove_glass id) h =
        (h.0, Shows-remove_entry less o c.glasses c.entries id h.1)
    ui_call-IsCurrent c (add_volume_from_glass id ml) h = (
      (add_remove-AllSorted less o save c.glasses c.disk id (to_litre ml) h.0).0,
      on_ui_add_glass_volume-Shows c id (to_litre ml) h,
    )
    ui_call-IsCurrent c (remove_volume_from_glass id ml) h = (
      (add_remove-AllSorted less o save c.glasses c.disk id (to_litre ml) h.0).1,
      on_ui_remove_glass_volume-Shows c id (to_litre ml) h,
    )

    ui_calls-IsCurrent :
        (c : GlassContext Q F Disk) (calls : List UiCall)
        → IsCurrent c
        → IsCurrent (ui_calls less format_ml to_litre save c calls)
    unfolding ui_calls
    ui_calls-IsCurrent c [] h = h
    ui_calls-IsCurrent c (x ∷ calls) h =
        ui_calls-IsCurrent (ui_call less format_ml to_litre save c x) calls
          (ui_call-IsCurrent c x h)

    -- Where the order is linear, the volumes of the store are sorted and each of its glasses is
    -- found under its id, the list that is registered shows, after any calls of the user, every
    -- glass once at most, with the active volumes that the store has for it then; and these are
    -- sorted.
    pub registered-IsCurrent :
        (glasses : Glasses Q F) (disk : Disk) (calls : List UiCall)
        → AllSorted less o glasses
        → All (λ p. find p.1.id glasses ≡ some p.1) glasses
        → IsCurrent (
            ui_calls less format_ml to_litre save
              (register_ui_callbacks less format_ml glasses disk)
              calls)
    unfolding register_ui_callbacks
    registered-IsCurrent glasses disk calls s found =
        ui_calls-IsCurrent (register_ui_callbacks less format_ml glasses disk) calls
          (s, list_glasses-Shows less o format_ml glasses [] glasses s found tt)
