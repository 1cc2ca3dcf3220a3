-- ===== src/Station/Rows/WellFormed.antt =====
-- What every update of the rows keeps.
use cocktail_maker.Prelude.{
  ◌≡◌, inl, inr, List, [], ◌∷◌, ◌++◌, none, some, String, ◌==◌, String_eq, false, arith, Bool-cases,
  Option-cases,
}
use cocktail_maker.Station.{PodStateData}
use cocktail_maker.Station.Rows.{UiPod, set_row, new_row, update_pod, rows_kept, remove_pod}
use cocktail_maker.Station.Rows.Laws.{
  row_of, applied, applied-id, place_of, find_gui_pod_lem, remove_pod_lem,
}

abbrev pub IsUnshown : String → List UiPod → Type 0
IsUnshown id [] = Unit
IsUnshown id (row ∷ rows) = ((row.id == id) ≡ false) × IsUnshown id rows

-- Every row has an id, and no two rows have the same.
abbrev pub IsWellFormed : List UiPod → Type 0
IsWellFormed [] = Unit
IsWellFormed (row ∷ rows) = ((row.id == "") ≡ false) × (IsUnshown row.id rows × IsWellFormed rows)

IsUnshown-row_of : (rows : List UiPod) (id : String) → row_of id rows ≡ none → IsUnshown id rows
IsUnshown-row_of [] id h = tt
IsUnshown-row_of (r ∷ rows) id h = elim (Bool-cases (r.id == id)) [
  | inl same ↦ absurd (ground (arith, same, h))
  | inr other ↦ (other, IsUnshown-row_of rows id (ground (arith, other, h)))
]

IsUnshown-append :
    (rows : List UiPod) (j : String) (row : UiPod)
    → IsUnshown j rows
    → (row.id == j) ≡ false
    → IsUnshown j (rows ++ (row ∷ []))
IsUnshown-append [] j row u n = (n, tt)
IsUnshown-append (r ∷ rows) j row u n = (u.0, IsUnshown-append rows j row u.1 n)

append-IsWellFormed :
    (rows : List UiPod) (row : UiPod)
    → IsWellFormed rows
    → row_of row.id rows ≡ none
    → (row.id == "") ≡ false
    → IsWellFormed (rows ++ (row ∷ []))
append-IsWellFormed [] row w u n = (n, (tt, tt))
append-IsWellFormed (r ∷ rows) row w u n =
    let apart : (r.id == row.id) ≡ false = ground (arith, u) in
    let back : (row.id == r.id) ≡ false =
      ground (arith, apart, String_eq.equal_iff r.id row.id, String_eq.equal_iff row.id r.id) in
    let rest : row_of row.id rows ≡ none = ground (arith, u) in
    (w.0, (IsUnshown-append rows r.id row w.1.0 back, append-IsWellFormed rows row w.1.1 rest n))

set_row-IsUnshown :
    (rows : List UiPod) (id j : String) (old row : UiPod)
    → row_of id rows ≡ some old
    → row.id ≡ id
    → IsUnshown j rows
    → IsUnshown j (set_row (place_of id rows) row rows)
set_row-IsUnshown [] id j old row h e u = tt
set_row-IsUnshown (r ∷ rows) id j old row h e u = elim (Bool-cases (r.id == id)) [
  | inl same ↦ rw same (
    ground (
      arith,
      u.0,
      String_eq.equal_iff r.id id,
      String_eq.equal_iff r.id j,
      same,
      e,
      String_eq.equal_iff row.id j,
    ),
    u.1,
  )
  | inr other ↦ rw other (u.0, set_row-IsUnshown rows id j old row (ground (arith, other, h)) e u.1)
]

set_row-IsWellFormed :
    (rows : List UiPod) (id : String) (old row : UiPod)
    → row_of id rows ≡ some old
    → row.id ≡ id
    → IsWellFormed rows
    → IsWellFormed (set_row (place_of id rows) row rows)
set_row-IsWellFormed [] id old row h e w = tt
set_row-IsWellFormed (r ∷ rows) id old row h e w = elim (Bool-cases (r.id == id)) [
  | inl same ↦
      let here : r.id ≡ row.id = ground (arith, String_eq.equal_iff r.id id, same, e) in
      let named : (row.id == "") ≡ false = rw here at w.0 in
      let unshown : IsUnshown row.id rows = rw here at w.1.0 in rw same (named, (unshown, w.1.1))
  | inr other ↦
      let rest : row_of id rows ≡ some old = ground (arith, other, h) in
      rw other (
        w.0,
        (
          set_row-IsUnshown rows id r.id old row rest e w.1.0,
          set_row-IsWellFormed rows id old row rest e w.1.1,
        ),
      )
]

pub update_pod-IsWellFormed :
    (rows : List UiPod) (pod : PodStateData)
    → IsWellFormed rows
    → IsWellFormed (update_pod rows pod).0
unfolding update_pod
update_pod-IsWellFormed rows pod w = elim (Option-cases (row_of pod.info.id rows)) [
  | inr (row, shown) ↦
      rw (update_pod, find_gui_pod_lem rows pod.info.id, shown)
        (set_row-IsWellFormed rows pod.info.id row (applied row pod) shown (applied-id row pod) w)
  | inl unshown ↦ elim (Bool-cases (pod.info.id == "")) [
    | inl anonymous ↦ rw (update_pod, find_gui_pod_lem rows pod.info.id, unshown, anonymous) w
    | inr named ↦
        rw (update_pod, find_gui_pod_lem rows pod.info.id, unshown, named)
          (append-IsWellFormed rows (applied new_row pod) w (rw (applied-id new_row pod) unshown)
            (rw (applied-id new_row pod) named))
  ]
]

rows_kept-IsUnshown :
    (rows : List UiPod) (id j : String) → IsUnshown j rows → IsUnshown j (rows_kept id rows)
unfolding rows_kept
rows_kept-IsUnshown [] id j u = tt
rows_kept-IsUnshown (r ∷ rows) id j u = elim (Bool-cases (r.id == id)) [
  | inl same ↦ rw same (rows_kept-IsUnshown rows id j u.1)
  | inr other ↦ rw other (u.0, rows_kept-IsUnshown rows id j u.1)
]

rows_kept-IsWellFormed :
    (rows : List UiPod) (id : String) → IsWellFormed rows → IsWellFormed (rows_kept id rows)
unfolding rows_kept
rows_kept-IsWellFormed [] id w = tt
rows_kept-IsWellFormed (r ∷ rows) id w = elim (Bool-cases (r.id == id)) [
  | inl same ↦ rw same (rows_kept-IsWellFormed rows id w.1.1)
  | inr other ↦
      rw other (w.0, (rows_kept-IsUnshown rows id r.id w.1.0, rows_kept-IsWellFormed rows id w.1.1))
]

pub remove_pod-IsWellFormed :
    (rows : List UiPod) (pod : PodStateData)
    → IsWellFormed rows
    → IsWellFormed (remove_pod rows pod).0
remove_pod-IsWellFormed rows pod w =
    rw (remove_pod_lem rows pod) (rows_kept-IsWellFormed rows pod.info.id w)
