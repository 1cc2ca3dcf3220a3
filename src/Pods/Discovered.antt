-- ===== src/Pods/Discovered.antt =====
-- `run_pod` and `discover_and_run_pods` of `cocktail-maker/pod_discovery.cpp`,
-- `PodRegistry::force_safe_state_all_pods` of `pod_registry.cpp` and `force_safe_state_all` of
-- `pod_algorithms.cppm`. What happens to the registry while a pod runs is a parameter.
pub mod Safe
use cocktail_maker.Prelude.{ℕ, suc, Bool, List, [], ◌∷◌, ◌++◌, Option, none, some, and_then, map}
use cocktail_maker.Pods.{PodInfo, PodRegistry, register_pod, unregister_pod}
use cocktail_maker.Errors.{Exception}
use cocktail_maker.Station.{Bridge, create_pod_state}
use cocktail_maker.Tasks.{TaskState, running, SiblingPolicy, Group, gather_all}

-- `none` is the failed assertion. The guard unregisters the pod however it ends.
unfoldable pub run_pod :
    ℕ
    → (PodRegistry → PodRegistry × Option Exception)
    → PodRegistry
    → Option (PodRegistry × Option Exception)
unfolding register_pod unregister_pod
run_pod pod run pods =
    and_then (register_pod pods pod)
      (λ registered. let (after, e) = run registered in some (unregister_pod after pod, e))

-- The callback of the discovery: a pod that is not null gets a state and is spawned.
pub record Station : Type 0 where
  pub bridge : Bridge
  pub spawned : List (ℕ × ℕ)
  pub next_state : ℕ

unfoldable pub on_pod_discovered : Station → Option ℕ → Station
unfolding create_pod_state
on_pod_discovered s none = s
on_pod_discovered s (some pod) = record {
  bridge = create_pod_state s.bridge s.next_state;
  spawned = s.spawned ++ ((pod, s.next_state) ∷ []);
  next_state = suc s.next_state;
}

unfoldable pub discover_and_run_pods : Station → List (Option ℕ) → Station
unfolding on_pod_discovered
discover_and_run_pods s [] = s
discover_and_run_pods s (pod ∷ found) = discover_and_run_pods (on_pod_discovered s pod) found

-- The pods that still live, which are commanded one task each.
module _ (lock : ℕ → Option PodInfo) where
  unfoldable pub commanded : PodRegistry → List ℕ
  commanded [] = []
  commanded (pod ∷ pods) =
      let rest = commanded pods in elim (lock pod) [ none ↦ rest | some info ↦ pod ∷ rest ]

  -- The call of `gather_all` with one task for each pod.
  unfoldable pub force_safe_state_all : PodRegistry → Bool → SiblingPolicy × Group Exception
  unfolding commanded gather_all
  force_safe_state_all pods stop_requested =
      gather_all (map (λ pod. running) (commanded pods)) stop_requested
