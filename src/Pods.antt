-- ===== src/Pods.antt =====
-- `Pod::create_dispenser` of `cocktail-maker/pod.cpp`, `pod_registry.cppm` and `pod_dispatcher.cppm`.
-- A pod is a handle, which tells whether two pointers have one owner.
pub mod Laws
pub mod Dispatch
pub mod Protocol
pub mod Monitor
pub mod Discovered
use cocktail_maker.Prelude.{
  ℕ, Bool, true, false, not, List, [], ◌∷◌, ◌++◌, Option, none, some, String, ◌==◌, String_eq, ℕ_eq,
  if◌then◌else◌,
}
use cocktail_maker.Prelude.Expected.{Expected, value, unexpected}
use cocktail_maker.Prelude.Int.{ℤ, pos, ◌+ℤ◌, ltb_ℤ}
use cocktail_maker.StationConfig.{
  PodDispenser, Mapping, NotAssigned, ingredient_not_assigned, find_dispenser_for_ingredient,
}

pub record PodInfo : Type 0 where
  pub id : String
  pub num_pumps : ℤ
  pub num_valves : ℤ

pub data Dispenser : Type 0 where
  pump : ℤ → Dispenser
  valve : ℤ → Dispenser

pub data DispenserError : Type 0 where
  dispenser_not_found : String → ℤ → DispenserError
  not_assigned : String → DispenserError

unfoldable pub create_dispenser : PodInfo → ℤ → Expected DispenserError Dispenser
create_dispenser info dispenser_id =
    if not (ltb_ℤ dispenser_id (info.num_pumps +ℤ info.num_valves))
    then unexpected (dispenser_not_found info.id dispenser_id)
    else if not (ltb_ℤ dispenser_id info.num_pumps)
    then value (valve dispenser_id)
    else value (pump dispenser_id)

-- The registered pods, by their handles, in the order of registration.
abbrev pub PodRegistry : Type 0
PodRegistry = List ℕ

abbrev pub registered : ℕ → PodRegistry → Bool
registered pod [] = false
registered pod (p ∷ pods) = if p == pod then true else registered pod pods

-- `none` is the failed assertion on a pod that is registered already.
unfoldable pub register_pod : PodRegistry → ℕ → Option PodRegistry
register_pod pods pod = if registered pod pods then none else some (pods ++ (pod ∷ []))

unfoldable pub unregister_pod : PodRegistry → ℕ → PodRegistry
unregister_pod [] pod = []
unregister_pod (p ∷ pods) pod =
    let rest = unregister_pod pods pod in if p == pod then rest else p ∷ rest

-- What a handle leads to: the information of the pod, or nothing once the pod is gone.
module _ (lock : ℕ → Option PodInfo) where
  unfoldable pub dispenser_of_pod : PodRegistry → String → ℤ → Expected DispenserError Dispenser
  unfolding create_dispenser
  dispenser_of_pod [] pod_id dispenser_id = unexpected (dispenser_not_found pod_id dispenser_id)
  dispenser_of_pod (p ∷ pods) pod_id dispenser_id =
      let rest = dispenser_of_pod pods pod_id dispenser_id in
      elim (lock p) [
        | none ↦ rest
        | some info ↦ if info.id == pod_id then create_dispenser info dispenser_id else rest
      ]

  unfoldable pub create_dispenser_for_ingredient :
      PodRegistry → Mapping → String → Expected DispenserError Dispenser
  unfolding dispenser_of_pod
  create_dispenser_for_ingredient pods station_config ingredient_id =
      elim (find_dispenser_for_ingredient station_config ingredient_id) [
        | unexpected e ↦ elim e [ ingredient_not_assigned i ↦ unexpected (not_assigned i) ]
        | value d ↦ dispenser_of_pod pods d.pod_id d.dispenser_id
      ]
