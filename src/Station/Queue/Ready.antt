-- ===== src/Station/Queue/Ready.antt =====
-- Whether the station is shown as ready exactly while all pods are connected.
use cocktail_maker.Prelude.{
  ℕ, ◌≡◌, ◌≢◌, ◌↔◌, true, inl, inr, refl, sym, ap, ap₂, ◌∙◌, Bool, not, ◌&&◌, List, [], ◌∷◌, some,
  ◌==◌, ℕ_eq, arith, Bool-cases, Option-cases, All,
}
use cocktail_maker.Prelude.Assoc.{find, insert_or_assign, erase, find-insert_or_assign, find-erase}
use cocktail_maker.Pods.{PodInfo}
use cocktail_maker.Station.{
  Bridge, PodStateData, update_pod_task, PodConnection, ui_state, all_of, empty, all_connected,
  is_pod_connected, post, find_pod, erase_handle, pod_connection_state_changed, pod_info_changed,
  pod_about_to_removed, update_state, update_info, destroy_pod_state,
}
use cocktail_maker.Station.Queue.{
  Shown, run_task, run_tasks, PodCall, created, state_updated, info_updated, destroyed, call,
}
use cocktail_maker.Station.Queue.Laws.{
  drained, drained-post, drained-changed, drained-removed, IsReady, all_connected_iff,
}

-- Once the queue is empty, the station is shown as ready exactly if all pods are connected.
abbrev pub IsFresh : Shown → Bridge → Type 0
IsFresh ui b = (drained ui b).station_ready ≡ all_connected b

all_of_same : (p q : ℕ → Bool) (l : List ℕ) → ((h : ℕ) → p h ≡ q h) → all_of p l ≡ all_of q l
all_of_same p q [] e = refl
all_of_same p q (h ∷ l) e = ap₂ (λ a b. a && b) (e h) (all_of_same p q l e)

all_of-erase_handle :
    (p q : ℕ → Bool) (h : ℕ) (l : List ℕ)
    → ((j : ℕ) → j ≢ h → p j ≡ q j)
    → all_of p (erase_handle h l) ≡ all_of q (erase_handle h l)
all_of-erase_handle p q h [] e = refl
all_of-erase_handle p q h (j ∷ l) e = elim (Bool-cases (j == h)) [
  | inl same ↦ rw same (all_of-erase_handle p q h l e)
  | inr other ↦ rw other (
      ap₂ (λ a b. a && b) (e j (λ i. ground (arith, ℕ_eq.equal_iff j h)))
        (all_of-erase_handle p q h l e))
]

-- New information leaves the connection state.
connected-info :
    (states : List (ℕ × PodStateData)) (h : ℕ) (old : PodStateData) (info : PodInfo) (j : ℕ)
    → find h states ≡ some old
    → is_pod_connected (insert_or_assign h (record old { info = info }) states) j
      ≡ is_pod_connected states j
unfolding is_pod_connected
connected-info states h old info j living = ground (
  arith,
  find-insert_or_assign h j (record old { info = info }) states,
  ℕ_eq.equal_iff h j,
  living,
)

connected-erase :
    (states : List (ℕ × PodStateData)) (h j : ℕ)
    → j ≢ h
    → is_pod_connected (erase h states) j ≡ is_pod_connected states j
unfolding is_pod_connected
connected-erase states h j n = ground (arith, find-erase h j states, ℕ_eq.equal_iff h j)

pub update_state-IsFresh :
    (ui : Shown) (b : Bridge) (h : ℕ) (state : PodConnection)
    → IsFresh ui b
    → IsFresh ui (update_state b h state)
unfolding update_state pod_connection_state_changed post
update_state-IsFresh ui b h state fresh = elim (Option-cases (find h b.states)) [
  | inl gone ↦ rw (update_state, gone) fresh
  | inr (pod, living) ↦
      let next : PodStateData = record pod { connection_state = ui_state state } in
      let b' : Bridge = record b { states = insert_or_assign h next b.states } in
      rw (update_state, living) (ap (λ s. s.station_ready) (drained-changed ui b' next))
]

pub update_info-IsFresh :
    (ui : Shown) (b : Bridge) (h : ℕ) (info : PodInfo)
    → IsFresh ui b
    → IsFresh ui (update_info b h info)
unfolding update_info pod_info_changed post run_tasks run_task all_connected
update_info-IsFresh ui b h info fresh = elim (Option-cases (find h b.states)) [
  | inl gone ↦ rw (update_info, gone) fresh
  | inr (pod, living) ↦
      let next : PodStateData = record pod { info = info } in
      let b' : Bridge = record b { states = insert_or_assign h next b.states } in
      let same : all_connected b ≡ all_connected b' =
        ap (λ c. not (empty b.pods) && c)
          (all_of_same (is_pod_connected b.states) (is_pod_connected b'.states) b.pods
            (λ j. sym (connected-info b.states h pod info j living))) in
      elim (Option-cases (find_pod b.pods h)) [
        | inl untracked ↦ rw (update_info, living, pod_info_changed, untracked) (fresh ∙ same)
        | inr (p, tracked) ↦
            rw (update_info, living, pod_info_changed, tracked)
              (ap (λ s. s.station_ready) (drained-post ui b' (update_pod_task next ∷ []))
                ∙ fresh
                ∙ same)
      ]
]

destroy_pod_state-IsFresh :
    (ui : Shown) (b : Bridge) (h : ℕ) → IsFresh ui b → IsFresh ui (destroy_pod_state b h)
unfolding destroy_pod_state all_connected pod_about_to_removed pod_connection_state_changed post
destroy_pod_state-IsFresh ui b h fresh = elim (Option-cases (find h b.states)) [
  | inl gone ↦ rw (destroy_pod_state, gone) fresh
  | inr (pod, living) ↦
      let left = erase_handle h b.pods in
      rw (destroy_pod_state, living)
        (ap (λ s. s.station_ready) (drained-removed ui b h pod)
          ∙ ap (λ c. not (empty left) && c)
              (all_of-erase_handle (is_pod_connected b.states) (is_pod_connected (erase h b.states))
                h b.pods (λ j n. sym (connected-erase b.states h j n))))
]

-- Calls on pods, none of which creates one.
abbrev pub CreatesNone : PodCall → Type 0
CreatesNone (created h) = ⊥
CreatesNone (state_updated h state) = Unit
CreatesNone (info_updated h info) = Unit
CreatesNone (destroyed h) = Unit

abbrev pub call_all : Bridge → List PodCall → Bridge
call_all b [] = b
call_all b (c ∷ calls) = call_all (call b c) calls

call-IsFresh :
    (ui : Shown) (b : Bridge) (c : PodCall) → CreatesNone c → IsFresh ui b → IsFresh ui (call b c)
unfolding call
call-IsFresh ui b (created h) none_new fresh = absurd none_new
call-IsFresh ui b (state_updated h state) none_new fresh = update_state-IsFresh ui b h state fresh
call-IsFresh ui b (info_updated h info) none_new fresh = update_info-IsFresh ui b h info fresh
call-IsFresh ui b (destroyed h) none_new fresh = destroy_pod_state-IsFresh ui b h fresh

call_all-IsFresh :
    (ui : Shown) (calls : List PodCall) (b : Bridge)
    → All CreatesNone calls
    → IsFresh ui b
    → IsFresh ui (call_all b calls)
call_all-IsFresh ui [] b none_new fresh = fresh
call_all-IsFresh ui (c ∷ calls) b none_new fresh =
    call_all-IsFresh ui calls (call b c) none_new.1 (call-IsFresh ui b c none_new.0 fresh)

-- Once the queue is empty, the station is shown as ready exactly if there are pods and each of
-- them is connected.
abbrev pub ShowsReady : Shown → Bridge → Type 0
ShowsReady ui b = ((drained ui b).station_ready ≡ true) ↔ IsReady b

IsFresh-ShowsReady : (ui : Shown) (b : Bridge) → IsFresh ui b ↔ ShowsReady ui b
IsFresh-ShowsReady ui b = (
  λ fresh. (
    λ h. (all_connected_iff b).0 (ground (arith, h, fresh)),
    λ r. ground (arith, (all_connected_iff b).1 r, fresh),
  ),
  λ shows. elim (Bool-cases (all_connected b)) [
    | inl all ↦ ground (arith, shows.1 ((all_connected_iff b).0 all), all)
    | inr some_not ↦ elim (Bool-cases (drained ui b).station_ready) [
      | inl ready ↦ absurd (ground (arith, (all_connected_iff b).1 (shows.0 ready), some_not))
      | inr unready ↦ ground (arith, unready, some_not)
    ]
  ],
)

-- Where the station is shown as ready exactly if there are pods and each of them is connected, it is
-- so after any calls on pods, in any order, that create none, once the queue has run.
pub call_all-ShowsReady :
    (ui : Shown) (calls : List PodCall) (b : Bridge)
    → All CreatesNone calls
    → ShowsReady ui b
    → ShowsReady ui (call_all b calls)
call_all-ShowsReady ui calls b none_new shows =
    (IsFresh-ShowsReady ui (call_all b calls)).0
      (call_all-IsFresh ui calls b none_new ((IsFresh-ShowsReady ui b).1 shows))
