-- ===== src/Pods/Discovered/Safe.antt =====
-- The registry after a pod has run, and the safe state of all pods.
use cocktail_maker.Prelude.{
  ℕ, suc, ◌+◌, ◌≡◌, ◌∙◌, ap, sym, refl, inl, inr, Bool, true, false, ◌&&◌, List, [], ◌∷◌, Option,
  none, some, ◌==◌, ℕ_eq, arith, Bool-cases, Option-cases, length, map, some-injective,
}
use cocktail_maker.Prelude.Members.{has}
use cocktail_maker.Pods.{PodInfo, PodRegistry, registered, register_pod, unregister_pod}
use cocktail_maker.Errors.{Exception}
use cocktail_maker.Tasks.{
  running, succeeded, failed, Group, run_to_completion, RunOf, run_all, gather_all, rethrown,
  ending,
}
use cocktail_maker.Tasks.Laws.{count, head}
use cocktail_maker.Tasks.Results.{gather_all-none_stopped, rethrown-head}
use cocktail_maker.Pods.Discovered.{run_pod, commanded, force_safe_state_all}

registered-unregister_pod :
    (pods : PodRegistry) (pod : ℕ) → registered pod (unregister_pod pods pod) ≡ false
unfolding unregister_pod
registered-unregister_pod [] pod = refl
registered-unregister_pod (p ∷ pods) pod = ground (arith, registered-unregister_pod pods pod)

registered_other :
    (pods : PodRegistry) (pod other : ℕ)
    → (pod == other) ≡ false
    → registered other (unregister_pod pods pod) ≡ registered other pods
unfolding unregister_pod
registered_other [] pod other n = refl
registered_other (p ∷ pods) pod other n = ground (
  arith,
  registered_other pods pod other n,
  ℕ_eq.equal_iff p pod,
  ℕ_eq.equal_iff p other,
  ℕ_eq.equal_iff pod other,
  n,
)

-- A pod that was not registered is registered while it runs, whatever other pods do, and is not
-- registered after it has run, however it ends; the others are as its run left them.
pub run_pod-registered :
    (pod : ℕ) (run : PodRegistry → PodRegistry × Option Exception) (pods : PodRegistry) (other : ℕ)
    (after : PodRegistry) (e : Option Exception)
    → run_pod pod run pods ≡ some (after, e)
    → (pod == other) ≡ false
    → (registered pod after ≡ false)
      × ((during : PodRegistry) × ((register_pod pods pod ≡ some during)
            × (registered other after ≡ registered other (run during).0)))
unfolding run_pod
run_pod-registered pod run pods other after e h n = elim (Option-cases (register_pod pods pod)) [
  | inl refused ↦
      let no : Path (Option (PodRegistry × Option Exception)) none (some (after, e)) =
        rw refused at h in
      absurd cc
  | inr (during, there) ↦
      let done : Path (Option (PodRegistry × Option Exception))
          (some (unregister_pod (run during).0 pod, (run during).1)) (some (after, e)) =
        rw there at h in
      let same : unregister_pod (run during).0 pod ≡ after =
        ap (λ p. p.0) (some-injective _ _ done) in
      (
        rw (sym same) (registered-unregister_pod (run during).0 pod),
        (during, (there, rw (sym same) (registered_other (run during).0 pod other n))),
      )
]

module _ (lock : ℕ → Option PodInfo) where
  abbrev pub lives : ℕ → Bool
  lives pod = elim (lock pod) [ none ↦ false | some info ↦ true ]

  pub has-commanded :
      (pods : PodRegistry) (pod : ℕ)
      → has pod (commanded lock pods) ≡ (registered pod pods && lives pod)
  unfolding commanded
  has-commanded [] pod = refl
  has-commanded (p ∷ pods) pod = elim (Bool-cases (p == pod)) [
    | inl same ↦
        let e : p ≡ pod = (ℕ_eq.equal_iff p pod).0 same in
        ground (arith, has-commanded pods pod, same, e)
    | inr other ↦ ground (arith, has-commanded pods pod, other)
  ]

  length-map : (l : List ℕ) → length (map (λ pod. running) l) ≡ length l
  length-map [] = refl
  length-map (x ∷ l) = ap suc (length-map l)

  -- A registered pod that lives is commanded to its safe state, and once no command runs any more,
  -- unless the caller is stopped, every command that was sent has ended by itself: no failure of
  -- one pod stops the command of another. The call then rethrows the first failure, if any.
  pub force_safe_state_all_complete :
      (pods : PodRegistry) (pod : ℕ) (es : List Exception) (g : Group Exception)
      → RunOf (force_safe_state_all lock pods false) es g
      → g.parent_stop ≡ false
      → count running g.tasks ≡ 0
      → (has pod (commanded lock pods) ≡ (registered pod pods && lives pod))
        × ((count succeeded g.tasks + count failed g.tasks ≡ length (commanded lock pods))
            × (rethrown (ending g) ≡ head es))
  unfolding force_safe_state_all gather_all run_all
  force_safe_state_all_complete pods pod es g run alone over =
      let tasks = map (λ p. running) (commanded lock pods) in
      (
        has-commanded pods pod,
        (
          (gather_all-none_stopped tasks es g run alone over).1 ∙ length-map (commanded lock pods),
          rethrown-head run_to_completion tasks false es g run,
        ),
      )
