-- ===== src/Tasks/Laws.antt =====
-- What the callers of `join_all` and `gather_all` may rely on.
use cocktail_maker.Prelude.{
  ℕ, suc, ◌+◌, ◌≤◌, ◌≡◌, ◌∙◌, ap, refl, Bool, true, false, not, ◌&&◌, ◌||◌, List, [], ◌∷◌, ◌++◌,
  subst, append-nil, append_assoc, Option, none, some, or_else, map, arith, ◌==◌, ℕ_eq, length,
}
use cocktail_maker.Tasks.{
  SiblingPolicy, stops_siblings, TaskState, running, succeeded, failed, stopped, Group, spawn_all,
  on_error, forward_parent_stop, Happens, succeeds, fails, stops, caller_stops, Run, spawned, later,
}

-- How many tasks are in a state.
abbrev pub in_state : TaskState → TaskState → ℕ
in_state running running = 1
in_state succeeded succeeded = 1
in_state failed failed = 1
in_state stopped stopped = 1
in_state _ _ = 0

abbrev pub count : TaskState → List TaskState → ℕ
count s [] = 0
count s (t ∷ ts) = in_state s t + count s ts

pub count-append :
    (s t : TaskState) (front back : List TaskState)
    → count s (front ++ (t ∷ back)) ≡ in_state s t + count s front + count s back
count-append s t [] back = omega arith
count-append s t (u ∷ front) back = omega (arith, count-append s t front back)

length_put :
    (t : TaskState) (front back : List TaskState)
    → length (front ++ (t ∷ back)) ≡ length (front ++ (running ∷ back))
length_put t [] back = refl
length_put t (u ∷ front) back = ap suc (length_put t front back)

pub count_total :
    (ts : List TaskState)
    → count running ts + count succeeded ts + count failed ts + count stopped ts ≡ length ts
count_total [] = omega arith
count_total (running ∷ ts) = omega (arith, count_total ts)
count_total (succeeded ∷ ts) = omega (arith, count_total ts)
count_total (failed ∷ ts) = omega (arith, count_total ts)
count_total (stopped ∷ ts) = omega (arith, count_total ts)

abbrev pub head : {E : Type 0} → List E → Option E
head [] = none
head (e ∷ es) = some e

abbrev is_some : {E : Type 0} → Option E → Bool
is_some none = false
is_some (some e) = true

head-append : {E : Type 0} (es fs : List E) → head (es ++ fs) ≡ or_else (head es) (head fs)
head-append [] fs = refl
head-append (e ∷ es) fs = refl

none_failed : (tasks : List TaskState) → count failed (map (λ t. running) tasks) ≡ 0
none_failed [] = refl
none_failed (t ∷ ts) = omega (arith, none_failed ts)

none_stopped_yet : (tasks : List TaskState) → count stopped (map (λ t. running) tasks) ≡ 0
none_stopped_yet [] = refl
none_stopped_yet (t ∷ ts) = omega (arith, none_stopped_yet ts)

pub length_spawned :
    (tasks : List TaskState) → length (map {A = TaskState} (λ t. running) tasks) ≡ length tasks
length_spawned [] = refl
length_spawned (t ∷ ts) = ap suc (length_spawned ts)

module _ {E : Type 0} (policy : SiblingPolicy) where
  -- What holds of a group after the errors es: the first error is the first of them, there is one
  -- exactly if a task failed, the children are told to stop exactly if the caller is stopped or, by
  -- policy, a task failed, and a task is only stopped then.
  abbrev pub IsSound : List E → Group E → Type 0
  IsSound es g =
      (g.first_error ≡ head es)
      × ((is_some g.first_error ≡ not (count failed g.tasks == 0))
          × ((g.children_stop ≡ (g.parent_stop || (stops_siblings policy && is_some g.first_error)))
              × (g.children_stop ≡ false → count stopped g.tasks ≡ 0)))

  Happens-IsSound :
      (es fs : List E) (g h : Group E) → Happens policy g fs h → IsSound es g → IsSound (es ++ fs) h
  unfolding on_error forward_parent_stop
  Happens-IsSound es _ _ _ (succeeds g front back at) (first, (some_failed, (told, none_stopped))) =
      rw (append-nil es) (
        first,
        (
          ground (
            arith,
            some_failed,
            at,
            count-append failed running front back,
            count-append failed succeeded front back,
          ),
          (
            told,
            λ quiet. ground (
              arith,
              none_stopped quiet,
              at,
              count-append stopped running front back,
              count-append stopped succeeded front back,
            ),
          ),
        ),
      )
  Happens-IsSound es _ _ _ (fails g front back error at)
        (first, (some_failed, (told, none_stopped))) =
      (
        ground (arith, first, head-append es (error ∷ [])),
        (
          ground (arith, count-append failed failed front back),
          (
            ground (arith, told),
            λ quiet. ground (
              arith,
              none_stopped,
              quiet,
              at,
              count-append stopped running front back,
              count-append stopped failed front back,
            ),
          ),
        ),
      )
  Happens-IsSound es _ _ _ (stops g front back at asked)
        (first, (some_failed, (told, none_stopped))) =
      rw (append-nil es) (
        first,
        (
          ground (
            arith,
            some_failed,
            at,
            count-append failed running front back,
            count-append failed stopped front back,
          ),
          (told, λ quiet. absurd (ground (arith, quiet, asked))),
        ),
      )
  Happens-IsSound es _ _ _ (caller_stops g) (first, (some_failed, (told, none_stopped))) =
      rw (append-nil es) (first, (some_failed, (refl, λ quiet. absurd cc)))

  Happens-length :
      (fs : List E) (g h : Group E) → Happens policy g fs h → length h.tasks ≡ length g.tasks
  unfolding on_error forward_parent_stop
  Happens-length _ _ _ (succeeds g front back at) = rw at (length_put succeeded front back)
  Happens-length _ _ _ (fails g front back error at) = rw at (length_put failed front back)
  Happens-length _ _ _ (stops g front back at asked) = rw at (length_put stopped front back)
  Happens-length _ _ _ (caller_stops g) = refl

  -- A step of a task is the last of that task.
  pub Happens-ends :
      (fs : List E) (g h : Group E)
      → Happens policy g fs h
      → count running h.tasks + length fs ≤ count running g.tasks
  unfolding on_error forward_parent_stop
  Happens-ends _ _ _ (succeeds g front back at) = ground (
    arith,
    at,
    count-append running running front back,
    count-append running succeeded front back,
  )
  Happens-ends _ _ _ (fails g front back error at) =
      ground
        (arith, at, count-append running running front back, count-append running failed front back)
  Happens-ends _ _ _ (stops g front back at asked) =
      ground (
        arith,
        at,
        count-append running running front back,
        count-append running stopped front back,
      )
  Happens-ends _ _ _ (caller_stops g) = omega arith

  pub Run-IsSound :
      (before es : List E) (g h : Group E)
      → Run policy g es h
      → IsSound before g
      → IsSound (before ++ es) h
  Run-IsSound before _ _ _ (spawned g) sound = rw (append-nil before) sound
  Run-IsSound before _ _ _ (later g h k es fs run step) sound =
      subst (λ l. IsSound l k) (append_assoc before es fs)
        (Happens-IsSound (before ++ es) fs h k step (Run-IsSound before es g h run sound))

  pub Run-length :
      (es : List E) (g h : Group E) → Run policy g es h → length h.tasks ≡ length g.tasks
  Run-length _ _ _ (spawned g) = refl
  Run-length _ _ _ (later g h k es fs run step) = Happens-length fs h k step ∙ Run-length es g h run

  pub spawn_all-IsSound :
      (tasks : List TaskState) (parent_stop : Bool) → IsSound [] (spawn_all tasks parent_stop)
  unfolding spawn_all
  spawn_all-IsSound tasks parent_stop =
      (refl, (ground (arith, none_failed tasks), (ground arith, λ quiet. none_stopped_yet tasks)))
