-- ===== src/Scheduler/Exit.antt =====
-- kernel/scheduler/scheduler.cpp and kernel/userland/syscalls.cpp: the end of a task, and waiting for
-- one. `others` is what the other tasks do until the caller runs again.
pub mod Left
use hana_core.Prelude.{
  ℕ, zero, suc, List, [], ◌∷◌, ◌++◌, ◌≡◌, ◌≢◌, refl, ap, sym, ◌∙◌, subst, Option, none, some, Bool,
  true, false, ◌==◌, if◌then◌else◌, arith, Bool-cases, Option-cases, inl, inr, some_eq,
}
use hana_core.Prelude.Int.{ℤ, pos}
use mathlib.Core.Path.{ap₂}
use hana_core.Syscall.{int_of}
use hana_core.Scheduler.{
  FdEntry, Task, TaskState, Sched, is_dead, is_runnable, sweep, cleanup, has_pid, behind,
  first_runnable, set_state, search_ring, switch_to, pick, schedule_from, schedule_next,
  find_task_by_pid,
}
use hana_core.Prelude.Word.{minus_one}

unfoldable pub set_exit : ℕ → ℤ → List Task → List Task
set_exit pid code [] = []
set_exit pid code (t ∷ ts) =
    (if t.pid == pid then record t { exit_status = code } else t) ∷ set_exit pid code ts

abbrev pub mark_dead : Sched → Sched
mark_dead s = elim s.current [
  | none ↦ s
  | some pid ↦ record s { tasks = set_state pid TaskState.dead s.tasks }
]

-- Where the call returns, the kernel idles for ever.
unfoldable pub task_cleanup : Sched → Option (Sched × List Task)
unfolding set_state schedule_next
task_cleanup s = schedule_next (mark_dead s)

unfoldable pub sched_yield : Sched → Option (Sched × List Task)
unfolding schedule_next
sched_yield s = schedule_next s

abbrev pub with_status : ℤ → Sched → Sched
with_status code s = elim s.current [
  | none ↦ s
  | some pid ↦ record s { tasks = set_exit pid code s.tasks }
]

abbrev pub is_open : Option (ℕ × List FdEntry) → Bool
is_open none = false
is_open (some table) = true

-- Whether the task of a number has a table of descriptors.
unfoldable pub has_table : ℕ → List Task → Bool
has_table pid [] = false
has_table pid (t ∷ ts) = if t.pid == pid then is_open t.fds else has_table pid ts

-- `cur && cur->fds`, without which the dispatcher refuses every call.
unfoldable pub may_call : Sched → Bool
unfolding has_table
may_call s = elim s.current [ none ↦ false | some pid ↦ has_table pid s.tasks ]

-- The result, the new state, and the tasks whose memory is given back.
unfoldable pub sys_exit : Sched → ℕ → Option (ℕ × Sched × List Task)
unfolding set_exit task_cleanup may_call
sys_exit s a = elim (may_call s) [
  | false ↦ some (minus_one, s, [])
  | true ↦ elim (task_cleanup (with_status (int_of a) s)) [
    | none ↦ none
    | some (s', freed) ↦ some (0, s', freed)
  ]
]

-- `search` is the fuel of each search for the task, `none` that one of them or the loop ran out of it.
unfoldable pub wait_task : ℕ → ℕ → (Sched → Sched) → Sched → ℕ → Option Sched
unfolding find_task_by_pid schedule_next
wait_task zero search others s pid = none
wait_task (suc f) search others s pid = elim (find_task_by_pid search s pid) [
  | none ↦ none
  | some none ↦ some s
  | some (some t) ↦ elim (is_dead t.state) [
    | true ↦ some s
    | false ↦ elim (schedule_next s) [
      | none ↦ none
      | some (s', freed) ↦ wait_task f search others (others s') pid
    ]
  ]
]
