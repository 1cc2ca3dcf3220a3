-- ===== src/Tasks/Results.antt =====
-- How `join_all` and `gather_all` end.
use cocktail_maker.Prelude.{
  ◌+◌, ◌≤◌, ◌≡◌, ◌∙◌, Bool, false, List, [], none, arith, length, ℕ_eq, length-append,
}
use cocktail_maker.Tasks.{
  SiblingPolicy, run_to_completion, TaskState, running, succeeded, failed, stopped, Group, returned,
  spawn_all, ending, rethrown, Run, spawned, later,
}
use cocktail_maker.Tasks.Laws.{
  count, count_total, head, IsSound, spawn_all-IsSound, Run-IsSound, Run-length, length_spawned,
  Happens-ends,
}

module _ {E : Type 0} where
  Run-spawn_all :
      (policy : SiblingPolicy) (tasks : List TaskState) (asked : Bool) (es : List E) (g : Group E)
      → Run policy (spawn_all tasks asked) es g
      → IsSound policy es g
  Run-spawn_all policy tasks asked es g run =
      Run-IsSound policy [] es (spawn_all tasks asked) g run (spawn_all-IsSound policy tasks asked)

  Run-total :
      (policy : SiblingPolicy) (tasks : List TaskState) (asked : Bool) (es : List E) (g : Group E)
      → Run policy (spawn_all tasks asked) es g
      → length g.tasks ≡ length tasks
  unfolding spawn_all
  Run-total policy tasks asked es g run =
      Run-length policy es (spawn_all tasks asked) g run ∙ length_spawned tasks

  -- Under gather_all, as long as the caller is not stopped, no task is stopped, whatever fails; once
  -- no task runs any more, each has succeeded or failed by itself.
  pub gather_all-none_stopped :
      (tasks : List TaskState) (es : List E) (g : Group E)
      → Run run_to_completion (spawn_all tasks false) es g
      → g.parent_stop ≡ false
      → count running g.tasks ≡ 0
      → (count stopped g.tasks ≡ 0)
        × (count succeeded g.tasks + count failed g.tasks ≡ length tasks)
  gather_all-none_stopped tasks es g run alone over =
      let (first, (some_failed, (told, none_stopped))) =
        Run-spawn_all run_to_completion tasks false es g run in
      let quiet : g.children_stop ≡ false = ground (arith, told, alone) in
      let zero_stopped = none_stopped quiet in
      (
        zero_stopped,
        omega (
          arith,
          over,
          zero_stopped,
          count_total g.tasks,
          Run-total run_to_completion tasks false es g run,
        ),
      )

  -- Under either policy, once no task runs any more, the call returns normally only if every task
  -- succeeded.
  pub ending-succeeded :
      (policy : SiblingPolicy) (tasks : List TaskState) (asked : Bool) (es : List E) (g : Group E)
      → Run policy (spawn_all tasks asked) es g
      → count running g.tasks ≡ 0
      → ending g ≡ returned none
      → count succeeded g.tasks ≡ length tasks
  unfolding ending
  ending-succeeded policy tasks asked es g run over normal =
      let (first, (some_failed, (told, none_stopped))) =
        Run-spawn_all policy tasks asked es g run in
      let no_error : g.first_error ≡ none = ground (arith, normal) in
      let alone : g.parent_stop ≡ false = ground (arith, normal, no_error) in
      let quiet : g.children_stop ≡ false = ground (arith, told, alone, no_error) in
      let zero_failed : count failed g.tasks ≡ 0 = ground (arith, some_failed, no_error) in
      omega (
        arith,
        over,
        zero_failed,
        none_stopped quiet,
        count_total g.tasks,
        Run-total policy tasks asked es g run,
      )

  -- What join_all and gather_all rethrow is the first error in the order of completion.
  pub rethrown-head :
      (policy : SiblingPolicy) (tasks : List TaskState) (asked : Bool) (es : List E) (g : Group E)
      → Run policy (spawn_all tasks asked) es g
      → rethrown (ending g) ≡ head es
  unfolding ending rethrown
  rethrown-head policy tasks asked es g run =
      let first = (Run-spawn_all policy tasks asked es g run).0 in ground (arith, first)

  -- At most as many errors are reported as tasks were running, less those that still run.
  pub Run-bounded :
      (policy : SiblingPolicy) (es : List E) (g h : Group E)
      → Run policy g es h
      → count running h.tasks + length es ≤ count running g.tasks
  Run-bounded policy _ _ _ (spawned g) = omega arith
  Run-bounded policy _ _ _ (later g h k es fs run step) =
      omega
        (arith, Run-bounded policy es g h run, Happens-ends policy fs h k step, length-append es fs)
