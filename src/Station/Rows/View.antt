-- ===== src/Station/Rows/View.antt =====
-- Whether the notices of the model say what changed, and so whether a view that follows them shows the
-- rows. The documentation of the toolkit gives their meaning: the row at the place changed, that many
-- rows were added from the place on, that many rows were removed from the place on.
use cocktail_maker.Prelude.{
  ℕ, zero, suc, ◌≡◌, ◌↔◌, inl, inr, refl, ap, List, [], ◌∷◌, ◌++◌, some, String, ◌==◌, String_eq,
  false, arith, Bool-cases, Option-cases, drop, length, ==_self,
}
use cocktail_maker.Station.{PodStateData}
use cocktail_maker.Station.Rows.{
  UiPod, Notice, row_changed, row_added, row_removed, apply_state_to_ui, set_row, update_pod,
  rows_kept, count_rows, remove_pod, new_row,
}
use cocktail_maker.Station.Rows.Laws.{row_of, place_of, find_gui_pod_lem}
use cocktail_maker.Station.Rows.WellFormed.{IsUnshown}

-- The rows without the n rows from place i on.
abbrev pub take_out : ℕ → ℕ → List UiPod → List UiPod
take_out zero n rows = drop n rows
take_out (suc i) n [] = []
take_out (suc i) n (row ∷ rows) = row ∷ take_out i n rows

-- A notice tells how the rows after a change come from the rows before.
abbrev pub Describes : List UiPod → List UiPod → List Notice → Type 0
Describes before after [] = after ≡ before
Describes before after (row_changed i ∷ _) = (row : UiPod) × (after ≡ set_row i row before)
Describes before after (row_added i n ∷ _) = take_out i n after ≡ before
Describes before after (row_removed i n ∷ _) = take_out i n before ≡ after

take_out-append :
    (rows : List UiPod) (row : UiPod) → take_out (length rows) 1 (rows ++ (row ∷ [])) ≡ rows
take_out-append [] row = refl
take_out-append (r ∷ rows) row = ap (λ l. r ∷ l) (take_out-append rows row)

set_row_same :
    (rows : List UiPod) (id : String) (row : UiPod)
    → row_of id rows ≡ some row
    → set_row (place_of id rows) row rows ≡ rows
set_row_same [] id row h = refl
set_row_same (r ∷ rows) id row h = ground (arith, set_row_same rows id row)

apply_unchanged :
    (row : UiPod) (pod : PodStateData)
    → (apply_state_to_ui row pod).1 ≡ false
    → (apply_state_to_ui row pod).0 ≡ row
unfolding apply_state_to_ui
apply_unchanged row pod h = ground arith

-- The notice of update_pod, or its silence, describes how the rows changed.
pub update_pod-Describes :
    (rows : List UiPod) (pod : PodStateData)
    → Describes rows (update_pod rows pod).0 (update_pod rows pod).1
unfolding update_pod
update_pod-Describes rows pod = elim (Option-cases (row_of pod.info.id rows)) [
  | inl unshown ↦ elim (Bool-cases (pod.info.id == "")) [
    | inl anonymous ↦ rw (update_pod, find_gui_pod_lem rows pod.info.id, unshown, anonymous) refl
    | inr named ↦
        rw (update_pod, find_gui_pod_lem rows pod.info.id, unshown, named)
          (take_out-append rows (apply_state_to_ui new_row pod).0)
  ]
  | inr (row, shown) ↦ elim (Bool-cases (apply_state_to_ui row pod).1) [
    | inl changed ↦
        rw (update_pod, find_gui_pod_lem rows pod.info.id, shown, changed)
          ((apply_state_to_ui row pod).0, refl)
    | inr same ↦
        rw
          (update_pod, find_gui_pod_lem rows pod.info.id, shown, same, apply_unchanged row pod same)
          (set_row_same rows pod.info.id row shown)
  ]
]

kept_unshown : (rows : List UiPod) (id : String) → IsUnshown id rows → rows_kept id rows ≡ rows
unfolding rows_kept
kept_unshown [] id u = refl
kept_unshown (r ∷ rows) id u = ground (arith, kept_unshown rows id u.1, u.0)

count_unshown : (rows : List UiPod) (id : String) → IsUnshown id rows → count_rows id rows ≡ 0
count_unshown [] id u = refl
count_unshown (r ∷ rows) id u = ground (arith, count_unshown rows id u.1, u.0)

remove_pod_between :
    (front : List UiPod) (row : UiPod) (back : List UiPod)
    → IsUnshown row.id front
    → IsUnshown row.id back
    → (rows_kept row.id (front ++ (row ∷ back)) ≡ front ++ back)
      × (count_rows row.id (front ++ (row ∷ back)) ≡ 1)
unfolding rows_kept
remove_pod_between [] row back f b =
    rw (==_self row.id) (kept_unshown back row.id b, ap suc (count_unshown back row.id b))
remove_pod_between (r ∷ front) row back f b =
    let (kept, one) = remove_pod_between front row back f.1 b in rw f.0 (ap (λ l. r ∷ l) kept, one)

take_out-between :
    (front : List UiPod) (row : UiPod) (back : List UiPod)
    → IsUnshown row.id back
    → (take_out (length (front ++ back)) 1 (front ++ (row ∷ back)) ≡ front ++ back) ↔ (back ≡ [])
take_out-between [] row [] b = (λ _. refl, λ _. refl)
take_out-between [] row (next ∷ back) b =
    (λ e. absurd (ground (arith, e, b.0, ==_self row.id)), λ e. absurd cc)
take_out-between (r ∷ front) row back b =
    let (to, from) = take_out-between front row back b in
    (λ e. to cc, λ e. ap (λ l. r ∷ l) (from e))

-- Where one row alone has the id of the pod, remove_pod takes that row out, but what it tells the
-- views describes the change exactly where no row stands behind it.
pub remove_pod-Describes :
    (front : List UiPod) (row : UiPod) (back : List UiPod) (pod : PodStateData)
    → pod.info.id ≡ row.id
    → IsUnshown row.id front
    → IsUnshown row.id back
    → let rows = front ++ (row ∷ back) in
      ((remove_pod rows pod).0 ≡ front ++ back)
      × (Describes rows (remove_pod rows pod).0 (remove_pod rows pod).1 ↔ (back ≡ []))
unfolding remove_pod
remove_pod-Describes front row back pod e f b =
    let (kept, one) = remove_pod_between front row back f b in
    rw (remove_pod, e, kept, one) (refl, take_out-between front row back b)
