-- ===== src/StationConfig/Stored.antt =====
-- What is saved is loaded again, and what is loaded names known ingredients.
use cocktail_maker.Prelude.{
  ◌≡◌, ◌≢◌, ◌⊎◌, Option-cases, inl, inr, refl, sym, ap, subst, ◌∙◌, List, [], ◌∷◌, ◌++◌, map,
  append_assoc, append-nil, Option, none, some, String, String_eq, ◌==◌, arith, All, Bool-cases,
  and_then,
}
use cocktail_maker.Prelude.Assoc.{find, insert_or_assign, Unique, Absent, insert_or_assign-Unique}
use cocktail_maker.Prelude.Int.{ℤ, pos, IsInt32, to_int32_small}
use cocktail_maker.Json.{Json, Builder}
use cocktail_maker.Ingredient.{IngredientStore, find_by_id, string_at}
use cocktail_maker.StationConfig.{
  PodDispenser, Mapping, read_entry, load_entry, load_entries, load_config_from_file, row, saved,
}

-- An ingredient of the store, and a number that fits an `int`.
abbrev pub IsStorable : IngredientStore → String × PodDispenser → Type 0
IsStorable store p = (find_by_id store p.0 ≢ none) × IsInt32 p.1.dispenser_id

insert_or_assign-Absent :
    (id : String) (d : PodDispenser) (m : Mapping)
    → Absent id m
    → insert_or_assign id d m ≡ m ++ ((id, d) ∷ [])
unfolding insert_or_assign
insert_or_assign-Absent id d [] a = refl
insert_or_assign-Absent id d ((i, w) ∷ m) a =
    ground (arith, String_eq.equal_iff i id, insert_or_assign-Absent id d m a.1, a.0)

Absent-of_append :
    (id : String) (d : PodDispenser) (m rest : Mapping)
    → Unique (m ++ ((id, d) ∷ rest))
    → Absent id m
Absent-of_append id d [] rest u = tt
Absent-of_append id d ((i, w) ∷ m) rest u =
    (Absent-head i id d m rest u.0, Absent-of_append id d m rest u.1)
  where
    Absent-head :
        (i id : String) (d : PodDispenser) (m rest : Mapping)
        → Absent i (m ++ ((id, d) ∷ rest))
        → i ≢ id
    Absent-head i id d [] rest a p = a.0 (sym p)
    Absent-head i id d ((j, w) ∷ m) rest a p = Absent-head i id d m rest a.1 p

module _ {ℓ} {Q : Type ℓ} (json : Json Q) (builder : Builder json) where
  open builder use {text_node, int_node, array_node, object_node}

  string_at-text :
      (ms : List (String × json.Node)) (key s : String)
      → find key ms ≡ some (text_node s)
      → string_at json (object_node ms) key ≡ some s
  unfolding string_at
  string_at-text ms key s h =
      ground (arith, builder.at-object_node ms key, builder.get_string-text_node s)

  int64_at :
      (ms : List (String × json.Node)) (key : String) (i : ℤ)
      → find key ms ≡ some (int_node i)
      → and_then (json.at (object_node ms) key) json.get_int64 ≡ some i
  int64_at ms key i h = ground (arith, builder.at-object_node ms key, builder.get_int64-int_node i)

  array_at :
      (ms : List (String × json.Node)) (key : String) (l : List json.Node)
      → find key ms ≡ some (array_node l)
      → and_then (json.at (object_node ms) key) json.get_array ≡ some l
  array_at ms key l h =
      ground (arith, builder.at-object_node ms key, builder.get_array-array_node l)

  read_entry-row :
      (p : String × PodDispenser)
      → IsInt32 p.1.dispenser_id
      → read_entry json (row json builder p) ≡ some p
  unfolding read_entry find
  read_entry-row (id, d) h =
      let ms : List (String × json.Node) =
        ("ingredient_id", text_node id)
        ∷ ("pod_id", text_node d.pod_id)
        ∷ ("dispenser_id", int_node d.dispenser_id)
        ∷ [] in
      rw
        (
          builder.get_object-object_node ms,
          string_at-text ms "ingredient_id" id refl,
          string_at-text ms "pod_id" d.pod_id refl,
          int64_at ms "dispenser_id" d.dispenser_id refl,
          to_int32_small d.dispenser_id h,
        )
        refl

  load_entry-row :
      (store : IngredientStore) (m : Mapping) (p : String × PodDispenser)
      → IsStorable store p
      → load_entry json store m (row json builder p) ≡ insert_or_assign p.0 p.1 m
  unfolding load_entry
  load_entry-row store m p h = ground (arith, read_entry-row p h.1, h.0)

  load_entries-rows :
      (store : IngredientStore) (m rest : Mapping)
      → All (IsStorable store) rest
      → Unique (m ++ rest)
      → load_entries json store m (map (row json builder) rest) ≡ m ++ rest
  unfolding load_entries
  load_entries-rows store m [] s u = sym (append-nil m)
  load_entries-rows store m ((id, d) ∷ rest) s u =
      let joined = append_assoc m ((id, d) ∷ []) rest in
      let step : load_entry json store m (row json builder (id, d)) ≡ m ++ ((id, d) ∷ []) =
        load_entry-row store m (id, d) s.0
        ∙ insert_or_assign-Absent id d m (Absent-of_append id d m rest u) in
      ap (λ n. load_entries json store n (map (row json builder) rest)) step
      ∙ load_entries-rows store (m ++ ((id, d) ∷ [])) rest s.1 (subst Unique (sym joined) u)
      ∙ joined

  -- A mapping of distinct ingredients of the store, with dispenser numbers that fit an int, is
  -- loaded from the document that is saved for it as it was, whatever was in memory.
  pub load_config-saved :
      (store : IngredientStore) (before m : Mapping)
      → All (IsStorable store) m
      → Unique m
      → load_config_from_file json store before (some (saved json builder m)) ≡ m
  unfolding load_config_from_file saved find
  load_config-saved store before m s u =
      let rows = map (row json builder) m in
      let ms : List (String × json.Node) =
        ("version", int_node (pos 1)) ∷ ("mappings", array_node rows) ∷ [] in
      rw (load_config_from_file, array_at ms "mappings" rows refl)
        (load_entries-rows store [] m s u)

module _ {ℓ} {Q : Type ℓ} (json : Json Q) (store : IngredientStore) where
  -- Every ingredient of the mapping is in the store.
  abbrev pub IsKnown : String × PodDispenser → Type 0
  IsKnown p = find_by_id store p.0 ≢ none

  insert_or_assign-AllKnown :
      (id : String) (d : PodDispenser) (m : Mapping)
      → find_by_id store id ≢ none
      → All IsKnown m
      → All IsKnown (insert_or_assign id d m)
  unfolding insert_or_assign
  insert_or_assign-AllKnown id d [] k h = (k, tt)
  insert_or_assign-AllKnown id d ((i, w) ∷ m) k h = elim (Bool-cases (i == id)) [
    | inl e ↦ rw e h
    | inr n ↦ rw n (h.0, insert_or_assign-AllKnown id d m k h.1)
  ]

  load_entry-cases :
      (m : Mapping) (node : json.Node)
      → (load_entry json store m node ≡ m)
        ⊎ ((p : String × PodDispenser) × (find_by_id store p.0 ≢ none)
            × (load_entry json store m node ≡ insert_or_assign p.0 p.1 m))
  unfolding load_entry
  load_entry-cases m node = elim (Option-cases (read_entry json node)) [
    | inl e ↦ inl (ground arith)
    | inr ((id, d), e) ↦ elim (Option-cases (find_by_id store id)) [
      | inl n ↦ inl (ground arith)
      | inr (i, k) ↦ inr ((id, d), (λ p. ground arith), ground arith)
    ]
  ]

  load_config-cases :
      (before : Mapping) (file : Option json.Node)
      → (load_config_from_file json store before file ≡ before)
        ⊎ ((nodes : List json.Node) × (load_config_from_file json store before file
              ≡ load_entries json store [] nodes))
  unfolding load_config_from_file
  load_config-cases before file =
      elim (Option-cases
        (and_then file (λ doc. and_then (json.at doc "mappings") json.get_array))) [
          | inl e ↦ inl (rw (load_config_from_file, e) refl)
          | inr (nodes, e) ↦ inr (nodes, rw (load_config_from_file, e) refl)
        ]

  load_entry-AllKnown :
      (m : Mapping) (node : json.Node)
      → All IsKnown m × Unique m
      → All IsKnown (load_entry json store m node) × Unique (load_entry json store m node)
  load_entry-AllKnown m node h = elim (load_entry-cases m node) [
    | inl e ↦ rw e h
    | inr (p, k, e) ↦
        rw e (insert_or_assign-AllKnown p.0 p.1 m k h.0, insert_or_assign-Unique p.0 p.1 m h.1)
  ]

  load_entries-AllKnown :
      (m : Mapping) (nodes : List json.Node)
      → All IsKnown m × Unique m
      → All IsKnown (load_entries json store m nodes) × Unique (load_entries json store m nodes)
  unfolding load_entries
  load_entries-AllKnown m [] h = h
  load_entries-AllKnown m (node ∷ nodes) h =
      load_entries-AllKnown (load_entry json store m node) nodes (load_entry-AllKnown m node h)

  -- Loading any file keeps the invariant that the mapped ingredients are distinct and in the
  -- store.
  pub load_config-AllKnown :
      (before : Mapping) (file : Option json.Node)
      → All IsKnown before × Unique before
      → All IsKnown (load_config_from_file json store before file)
        × Unique (load_config_from_file json store before file)
  load_config-AllKnown before file h = elim (load_config-cases before file) [
    | inl e ↦ rw e h
    | inr (nodes, e) ↦ rw e (load_entries-AllKnown [] nodes (tt, tt))
  ]
