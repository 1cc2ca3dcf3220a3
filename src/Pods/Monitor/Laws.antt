-- ===== src/Pods/Monitor/Laws.antt =====
-- How long a pod is kept, and what the station shows of it.
use cocktail_maker.Prelude.{
  ℕ, zero, suc, ◌+◌, ◌<◌, ◌≤◌, ◌≡◌, ◌∙◌, ◌⊎◌, inl, inr, ap, refl, List, [], ◌∷◌, ◌++◌, some, String,
  Bool, true, false, not, ◌&&◌, ◌==◌, ℕ_eq, arith, Bool-cases, Option-cases, ==_self,
}
use cocktail_maker.Prelude.Assoc.{find, find-insert_or_assign}
use cocktail_maker.Prelude.Members.{has}
use cocktail_maker.Pods.{PodInfo}
use cocktail_maker.Retry.{backoff, Attempt, returned, timed_out, failed, retry_on_timeout}
use cocktail_maker.Errors.{Exception, pod_timeout_error}
use cocktail_maker.Station.{
  PodConnection, connecting, connected, disconnected, Bridge, PodStateData, update_state,
  update_info, pod_connection_state_changed, pod_info_changed, post, all_connected, all_of,
  is_pod_connected, empty, ui_state,
}
use cocktail_maker.Station.Queue.{Shown}
use cocktail_maker.Station.Queue.Laws.{drained}
use cocktail_maker.Station.Queue.Ready.{IsFresh, update_state-IsFresh, update_info-IsFresh}
use cocktail_maker.Pods.Monitor.{
  info_policy, PodUpdate, state_update, info_update, device_ready, ping_round, keep_alive, cleanup,
  monitor_device, apply_update, apply_updates,
}

and_false : (a : Bool) → (a && false) ≡ false
and_false true = refl
and_false false = refl

Attempt-cases :
    {A : Type 0} (r : Attempt Exception A)
    → ((a : A) × (r ≡ returned a)) ⊎ ((r ≡ timed_out) ⊎ ((e : Exception) × (r ≡ failed e)))
Attempt-cases (returned a) = inl (a, refl)
Attempt-cases timed_out = inr (inl refl)
Attempt-cases (failed e) = inr (inr (e, refl))

module _ (pod_id : String) (aquire_device_info : ℕ → ℕ → Attempt Exception PodInfo)
    (ping : ℕ → ℕ → ℕ → Attempt Exception Bool) where
  -- A round of which all four pings time out ends the monitoring of the pod with its timeout, where
  -- the rounds in front of it are answered.
  pub keep_alive-ends :
      (rounds round n : ℕ)
      → n < rounds
      → ((r : ℕ)
          → round ≤ r
          → r < round + n
          → ping_round pod_id aquire_device_info ping r ≡ returned true)
      → ping_round pod_id aquire_device_info ping (round + n) ≡ timed_out
      → keep_alive pod_id aquire_device_info ping rounds round ≡ some (pod_timeout_error pod_id)
  unfolding keep_alive
  keep_alive-ends zero round n h before silent = absurd (omega arith)
  keep_alive-ends (suc rounds) round zero h before silent =
      let e : round + 0 ≡ round = omega arith in
      let now : ping_round pod_id aquire_device_info ping round ≡ timed_out = rw e at silent in
      rw (keep_alive, now) refl
  keep_alive-ends (suc rounds) round (suc n) h before silent =
      let e : round + suc n ≡ suc round + n = omega arith in
      rw (keep_alive, before round (omega arith) (omega arith))
        (keep_alive-ends rounds (suc round) n (omega arith)
          (λ r low high. before r (omega arith) (omega arith)) (rw e at silent))

update_state-pods : (b : Bridge) (h : ℕ) (s : PodConnection) → (update_state b h s).pods ≡ b.pods
unfolding update_state pod_connection_state_changed post
update_state-pods b h s = ground arith

update_info-pods : (b : Bridge) (h : ℕ) (i : PodInfo) → (update_info b h i).pods ≡ b.pods
unfolding update_info pod_info_changed post
update_info-pods b h i = ground arith

updates-pods : (us : List PodUpdate) (b : Bridge) (h : ℕ) → (apply_updates b h us).pods ≡ b.pods
unfolding apply_updates apply_update
updates-pods [] b h = refl
updates-pods (state_update s ∷ us) b h =
    updates-pods us (update_state b h s) h ∙ update_state-pods b h s
updates-pods (info_update i ∷ us) b h =
    updates-pods us (update_info b h i) h ∙ update_info-pods b h i
updates-pods (device_ready r ∷ us) b h = updates-pods us b h

updates-IsFresh :
    (us : List PodUpdate) (ui : Shown) (b : Bridge) (h : ℕ)
    → IsFresh ui b
    → IsFresh ui (apply_updates b h us)
unfolding apply_updates apply_update
updates-IsFresh [] ui b h f = f
updates-IsFresh (state_update s ∷ us) ui b h f =
    updates-IsFresh us ui (update_state b h s) h (update_state-IsFresh ui b h s f)
updates-IsFresh (info_update i ∷ us) ui b h f =
    updates-IsFresh us ui (update_info b h i) h (update_info-IsFresh ui b h i f)
updates-IsFresh (device_ready r ∷ us) ui b h f = updates-IsFresh us ui b h f

updates-append :
    (us vs : List PodUpdate) (b : Bridge) (h : ℕ)
    → apply_updates b h (us ++ vs) ≡ apply_updates (apply_updates b h us) h vs
unfolding apply_updates
updates-append [] vs b h = refl
updates-append (u ∷ us) vs b h = updates-append us vs (apply_update b h u) h

disconnected_pod :
    (b : Bridge) (h : ℕ) → is_pod_connected (update_state b h disconnected).states h ≡ false
unfolding update_state is_pod_connected pod_connection_state_changed post ui_state
disconnected_pod b h = elim (Option-cases (find h b.states)) [
  | inl gone ↦ rw (update_state, gone, is_pod_connected, gone) refl
  | inr (old, living) ↦
      let next : PodStateData = record old { connection_state = ui_state disconnected } in
      rw
        (update_state, living, is_pod_connected, find-insert_or_assign h h next b.states, ==_self h)
        refl
]

not_all : (p : ℕ → Bool) (h : ℕ) (l : List ℕ) → has h l ≡ true → p h ≡ false → all_of p l ≡ false
not_all p h [] there off = cc
not_all p h (j ∷ l) there off = elim (Bool-cases (j == h)) [
  | inl same ↦ let e : j ≡ h = (ℕ_eq.equal_iff j h).0 same in rw (e, off) refl
  | inr other ↦ rw (not_all p h l (ground (arith, there, other)) off) (ground arith)
]

-- The station is not shown as ready once a monitored pod is gone.
module _ (pod_id : String) (aquire_device_info : ℕ → ℕ → Attempt Exception PodInfo)
    (ping : ℕ → ℕ → ℕ → Attempt Exception Bool) where
  monitor_ends :
      (rounds : ℕ)
      → (front : List PodUpdate) × ((monitor_device pod_id aquire_device_info ping rounds).0
          ≡ front ++ (device_ready false ∷ state_update disconnected ∷ []))
  unfolding monitor_device cleanup
  monitor_ends rounds =
      elim (Attempt-cases (retry_on_timeout (backoff info_policy) aquire_device_info 5)) [
        | inl (info, e) ↦ (
          state_update connecting
              ∷ info_update info
              ∷ state_update connected
              ∷ device_ready true
              ∷ [],
          rw (monitor_device, e) refl,
        )
        | inr (inl e) ↦ (state_update connecting ∷ [], rw (monitor_device, e) refl)
        | inr (inr (x, e)) ↦ (state_update connecting ∷ [], rw (monitor_device, e) refl)
      ]

  -- However the monitoring of a pod of the station ends, the station is not shown as ready then, if
  -- what was shown before agreed with the pods.
  pub monitor_device-not_ready :
      (rounds : ℕ) (ui : Shown) (b : Bridge) (h : ℕ)
      → has h b.pods ≡ true
      → IsFresh ui b
      → (drained ui (
          apply_updates b h (monitor_device pod_id aquire_device_info ping rounds).0)).station_ready
        ≡ false
  unfolding apply_updates apply_update all_connected
  monitor_device-not_ready rounds ui b h there fresh =
      let (front, e) = monitor_ends rounds in
      let before = apply_updates b h front in
      let last = update_state before h disconnected in
      let split : apply_updates b h (monitor_device pod_id aquire_device_info ping rounds).0
          ≡ last =
        ap (λ us. apply_updates b h us) e
        ∙ updates-append front (device_ready false ∷ state_update disconnected ∷ []) b h in
      let pods : last.pods ≡ b.pods =
        update_state-pods before h disconnected ∙ updates-pods front b h in
      let off : all_of (is_pod_connected last.states) last.pods ≡ false =
        not_all (is_pod_connected last.states) h last.pods (rw pods there)
          (disconnected_pod before h) in
      rw split (
        update_state-IsFresh ui before h disconnected (updates-IsFresh front ui b h fresh)
        ∙ rw off (and_false (not (empty last.pods))))
