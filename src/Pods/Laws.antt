-- ===== src/Pods/Laws.antt =====
-- Which dispenser an ingredient is poured from.
use cocktail_maker.Prelude.{
  ℕ, ◌≡◌, ◌↔◌, ◌≤◌, ◌<◌, ◌+◌, refl, false, [], ◌∷◌, ◌++◌, some, String, String_eq, ℕ_eq, arith,
}
use cocktail_maker.Prelude.Expected.{value}
use cocktail_maker.Prelude.Int.{pos, negsuc, ◌+ℤ◌}
use cocktail_maker.Pods.{
  pump, valve, create_dispenser, PodInfo, PodRegistry, registered, register_pod, unregister_pod,
}

unregister_absent :
    (pods : PodRegistry) (pod : ℕ) → registered pod pods ≡ false → unregister_pod pods pod ≡ pods
unfolding unregister_pod
unregister_absent [] pod h = refl
unregister_absent (p ∷ pods) pod h = ground (arith, unregister_absent pods pod)

unregister-append :
    (pods : PodRegistry) (pod : ℕ)
    → registered pod pods ≡ false
    → unregister_pod (pods ++ (pod ∷ [])) pod ≡ pods
unfolding unregister_pod
unregister-append [] pod h = ground arith
unregister-append (p ∷ pods) pod h = ground (arith, unregister-append pods pod)

-- A pod that is registered and unregistered again leaves the registry as it was.
pub unregister-register_pod :
    (pods after : PodRegistry) (pod : ℕ)
    → register_pod pods pod ≡ some after
    → unregister_pod after pod ≡ pods
unfolding register_pod
unregister-register_pod pods after pod h = ground (arith, unregister-append pods pod)

-- On a pod with n pumps and m valves, a number k that is not negative gives a pump exactly if k <
-- n, and a valve exactly if n ≤ k < n + m.
pub create_dispenser_lem :
    (id : String) (n m k : ℕ)
    → let info : PodInfo = record { id = id; num_pumps = pos n; num_valves = pos m } in
      ((create_dispenser info (pos k) ≡ value (pump (pos k))) ↔ (k < n))
      × ((create_dispenser info (pos k) ≡ value (valve (pos k))) ↔ ((n ≤ k) × (k < n + m)))
unfolding create_dispenser ◌+ℤ◌
create_dispenser_lem id n m k = ground arith

-- Every negative number gives a pump with that number, even on a pod without pumps.
pub create_dispenser-negative :
    (id : String) (n m k : ℕ)
    → create_dispenser (record { id = id; num_pumps = pos n; num_valves = pos m }) (negsuc k)
      ≡ value (pump (negsuc k))
unfolding create_dispenser ◌+ℤ◌
create_dispenser-negative id n m k = ground arith
