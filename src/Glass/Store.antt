-- ===== src/Glass/Store.antt =====
-- `GlassStore`: every glass keeps sorted active volumes, and the calls say what they did.
use cocktail_maker.Prelude.{
  ◌≡◌, ◌⊎◌, refl, subst, some-injective, Bool, List, [], ◌∷◌, Option, none, some, String, String_eq,
  ◌==◌, Comparable, if◌then◌else◌, arith, All, Bool-cases, Option-cases, inl, inr, and_then,
}
use cocktail_maker.Prelude.Assoc.{find, insert_or_assign, find-insert_or_assign}
use cocktail_maker.Json.{Json}
use cocktail_maker.Glass.{Glass, Glasses, set_active, sort, unique}
use cocktail_maker.Glass.File.{
  read_volumes, read_glass_entry, load_glass_entry, load_glass_entries, load_glass_active_volumes,
}
use cocktail_maker.Glass.Volumes.{IsLinear, IsSorted}
use cocktail_maker.Glass.Loaded.{loaded-IsSorted}

module _ {Q F : Type 0} ⦃e : Comparable Q⦄ (less : Q → Q → Bool) (o : IsLinear less) where
  -- The active volumes of a glass of the map.
  abbrev pub active_of : Glasses Q F → String → List Q
  active_of glasses id = elim (find id glasses) [ some g ↦ g.active_volumes | none ↦ [] ]

  -- The active volumes of every glass are sorted, each once.
  abbrev pub AllSorted : Glasses Q F → Type 0
  AllSorted = All (λ p. IsSorted less p.1.active_volumes)

  pub set_active-AllSorted :
      (glasses : Glasses Q F) (g : Glass Q F) (id : String) (volumes : List Q)
      → AllSorted glasses
      → IsSorted less volumes
      → AllSorted (set_active glasses g id volumes)
  unfolding insert_or_assign
  set_active-AllSorted [] g id volumes h s = (s, tt)
  set_active-AllSorted ((j, w) ∷ glasses) g id volumes h s = elim (Bool-cases (j == id)) [
    | inl same ↦ rw same (s, h.1)
    | inr other ↦ rw other (h.0, set_active-AllSorted glasses g id volumes h.1 s)
  ]

  pub IsSorted-found :
      (glasses : Glasses Q F) (id : String) (g : Glass Q F)
      → AllSorted glasses
      → find id glasses ≡ some g
      → IsSorted less g.active_volumes
  unfolding find
  IsSorted-found [] id g h f = cc
  IsSorted-found ((j, w) ∷ glasses) id g h f = elim (Bool-cases (j == id)) [
    | inl same ↦
        let p : Path (Option (Glass Q F)) (some w) (some g) = rw same at f in
        subst (λ (x : Glass Q F). IsSorted less x.active_volumes) (some-injective w g p) h.0
    | inr other ↦ IsSorted-found glasses id g h.1 (rw other at f)
  ]

  load_glass_entry-cases :
      (json : Json Q) (glasses : Glasses Q F) (node : json.Node)
      → (load_glass_entry less json glasses node ≡ glasses)
        ⊎ ((id : String) × (g : Glass Q F) × (volumes : List Q) × (load_glass_entry less json
                glasses node
              ≡ set_active glasses g id (unique less (sort less volumes))))
  unfolding load_glass_entry
  load_glass_entry-cases json glasses node = elim (Option-cases (read_glass_entry json node)) [
    | inl n ↦ inl (ground arith)
    | inr ((id, nodes), r) ↦ elim (Option-cases (find id glasses)) [
      | inl n ↦ inl (rw (load_glass_entry, r, n) refl)
      | inr (g, f) ↦ inr (id, g, read_volumes json nodes, rw (load_glass_entry, r, f) refl)
    ]
  ]

  load_glass_entries-AllSorted :
      (json : Json Q) (glasses : Glasses Q F) (nodes : List json.Node)
      → AllSorted glasses
      → AllSorted (load_glass_entries less json glasses nodes)
  unfolding load_glass_entries
  load_glass_entries-AllSorted json glasses [] h = h
  load_glass_entries-AllSorted json glasses (node ∷ nodes) h =
      let next : AllSorted (load_glass_entry less json glasses node) =
        elim (load_glass_entry-cases json glasses node) [
          | inl same ↦ rw same h
          | inr (id, g, volumes, p) ↦ rw p (
              set_active-AllSorted glasses g id (unique less (sort less volumes)) h
                (loaded-IsSorted less o volumes))
        ] in
      load_glass_entries-AllSorted json (load_glass_entry less json glasses node) nodes next

  load-cases :
      (json : Json Q) (glasses : Glasses Q F) (file : Option json.Node)
      → (load_glass_active_volumes less json glasses file ≡ glasses)
        ⊎ ((nodes : List json.Node) × (load_glass_active_volumes less json glasses file
              ≡ load_glass_entries less json glasses nodes))
  unfolding load_glass_active_volumes
  load-cases json glasses file =
      elim (Option-cases (and_then file (λ doc. and_then (json.at doc "glasses") json.get_array))) [
        | inl n ↦ inl (rw (load_glass_active_volumes, n) refl)
        | inr (nodes, f) ↦ inr (nodes, rw (load_glass_active_volumes, f) refl)
      ]

  -- Where the order is linear, loading any file of active volumes keeps the active volumes of
  -- every glass sorted, each once.
  pub load_glass_active_volumes-AllSorted :
      (json : Json Q) (glasses : Glasses Q F) (file : Option json.Node)
      → AllSorted glasses
      → AllSorted (load_glass_active_volumes less json glasses file)
  load_glass_active_volumes-AllSorted json glasses file h = elim (load-cases json glasses file) [
    | inl same ↦ rw same h
    | inr (nodes, p) ↦ rw p (load_glass_entries-AllSorted json glasses nodes h)
  ]

  pub active_of-set_active :
      (glasses : Glasses Q F) (g : Glass Q F) (id j : String) (volumes : List Q)
      → active_of (set_active glasses g id volumes) j
        ≡ (if id == j then volumes else active_of glasses j)
  active_of-set_active glasses g id j volumes =
      ground (arith, find-insert_or_assign id j (record g { active_volumes = volumes }) glasses)
