-- ===== src/Examples/Pods.antt =====
-- Attempts that time out, and dispensers of pods.
use cocktail_maker.Prelude.{
  ℕ, ◌≡◌, ◌<◌, refl, [], ◌∷◌, Option, none, some, String, String_eq, arith, inl, nat_eq,
  if◌then◌else◌,
}
use cocktail_maker.Prelude.Assoc.{find}
use cocktail_maker.Prelude.Int.{pos, ◌+ℤ◌}
use cocktail_maker.Prelude.Expected.{value}
use cocktail_maker.Retry.{
  ExponentialBackoffPolicy, backoff, Attempt, returned, timed_out, retry_on_timeout,
}
use cocktail_maker.Retry.Laws.{retry_on_timeout_lem}
use cocktail_maker.StationConfig.{Mapping, find_dispenser_for_ingredient}
use cocktail_maker.Pods.{PodInfo, valve, create_dispenser, create_dispenser_for_ingredient}
use cocktail_maker.Pods.Dispatch.{IsDispatched, create_dispenser_for_ingredient_lem}

abbrev policy : ExponentialBackoffPolicy
policy = record { initial = 100; maximum = 1000 }

-- The second attempt, with 200 ms, gets an answer.
abbrev answers : ℕ → ℕ → Attempt String ℕ
answers attempt timeout = if nat_eq attempt 1 then returned timeout else timed_out

abbrev timeout : ℕ → ℕ
timeout retry = backoff policy retry

timeout_one : backoff policy 1 ≡ 200
unfolding backoff
timeout_one = refl

returned_differs : (a : ℕ) → Path (Attempt String ℕ) (returned a) timed_out → ⊥
returned_differs a p = cc

first_times_out : (i : ℕ) → i < 1 → answers i (timeout i) ≡ timed_out
first_times_out i h = ground arith

retry_on_timeout_lem_example : retry_on_timeout timeout answers 3 ≡ returned (backoff policy 1)
retry_on_timeout_lem_example =
    retry_on_timeout_lem timeout answers 3 1 (omega arith) first_times_out
      (inl (returned_differs (backoff policy 1)))

abbrev pod_a : PodInfo
pod_a = record { id = "a"; num_pumps = pos 2; num_valves = pos 1 }

-- The pod with handle 7 is gone.
abbrev alive : ℕ → Option PodInfo
alive handle = if nat_eq handle 7 then none else some pod_a

abbrev rum_on_a : Mapping
rum_on_a = ("rum", record { pod_id = "a"; dispenser_id = pos 2 }) ∷ []

create_dispenser_for_ingredient_lem_example :
    IsDispatched alive
      (7 ∷ 3 ∷ [])
      rum_on_a
      "rum"
      (create_dispenser_for_ingredient alive (7 ∷ 3 ∷ []) rum_on_a "rum")
create_dispenser_for_ingredient_lem_example =
    create_dispenser_for_ingredient_lem alive (7 ∷ 3 ∷ []) rum_on_a "rum"

rum_from_valve :
    create_dispenser_for_ingredient alive (7 ∷ 3 ∷ []) rum_on_a "rum" ≡ value (valve (pos 2))
unfolding create_dispenser_for_ingredient find_dispenser_for_ingredient find create_dispenser ◌+ℤ◌
rum_from_valve = refl
