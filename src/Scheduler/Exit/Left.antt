-- ===== src/Scheduler/Exit/Left.antt =====
-- Where the processor goes when a task ends.
use hana_core.Prelude.{ℕ, List, [], ◌∷◌, ◌≡◌, ◌≢◌, none, some, false}
use hana_core.Prelude.Int.{ℤ}
use hana_core.Scheduler.{
  Task, TaskState, Sched, is_runnable, first_runnable, set_state, search_ring,
}
use hana_core.Scheduler.Exit.{set_exit}

-- Every task of that number is not runnable.
abbrev NoneAlive : ℕ → List Task → Type 0
NoneAlive pid [] = Unit
NoneAlive pid (t ∷ ts) = (t.pid ≡ pid → is_runnable t.state ≡ false) × NoneAlive pid ts

-- How a scheduling round ends for a task that is not runnable.
pub data Left (pid : ℕ) (kept freed : List Task) (s' : Sched) : Type 0 where
  nobody :
      (ring : List Task)
      → search_ring pid kept freed ≡ some ring
      → first_runnable ring ≡ none
      → s'.current ≡ some pid
      → Left pid kept freed s'
  other : (next : ℕ) → s'.current ≡ some next → next ≢ pid → Left pid kept freed s'

-- The list with the task of a number ended.
abbrev pub ended : ℕ → ℤ → List Task → List Task
ended pid code ts = set_state pid TaskState.dead (set_exit pid code ts)
