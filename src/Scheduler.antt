-- ===== src/Scheduler.antt =====
-- kernel/scheduler/scheduler.cpp: the circular list of tasks, which is a list here that starts at
-- `task_list`. A task is known by its number, which is never given twice. The switch of
-- stacks and the logging are left out; `next_pid` does not wrap.
pub mod Create
pub mod Exit
pub mod Cleanup
pub mod Ring
pub mod Total
pub mod Find
pub mod Running
mod Tests
use hana_core.Prelude.{
  ℕ, zero, suc, List, [], ◌∷◌, ◌++◌, ◌+◌, Option, none, some, Bool, true, false, not, ◌&&◌, ◌||◌,
  ◌==◌, if◌then◌else◌,
}
use hana_core.Prelude.Int.{ℤ, negsuc}
use hana_core.Fd.{FdEntry, FdType, fdtable_create}
use hana_core.Mem.Interface.{Memory}

pub data TaskState : Type 0 where
  running ready blocked dead : TaskState

-- `entry` and the other pointers are addresses; a null pointer is 0.
pub record Task : Type 0 where
  pub pid : ℕ
  pub state : TaskState
  pub entry : ℕ
  pub entry_arg : ℕ
  pub fds : Option (ℕ × List FdEntry)
  pub fd_count : ℕ
  pub exit_status : ℤ
  pub parent_pid : ℕ
  pub is_user : Bool
  pub user_entry : ℕ
  pub user_stack : ℕ
  pub user_stack_size : ℕ
  pub kstack : ℕ

pub record Sched : Type 0 where
  pub tasks : List Task
  pub current : Option ℕ
  pub next_pid : ℕ

abbrev pub is_dead : TaskState → Bool
is_dead dead = true
is_dead _ = false

abbrev pub is_runnable : TaskState → Bool
is_runnable running = true
is_runnable ready = true
is_runnable _ = false

abbrev pub is_running : TaskState → Bool
is_running running = true
is_running _ = false

-- The scan behind a first task that stays: the tasks that stay, and those that are freed.
unfoldable pub sweep : List Task → List Task × List Task
sweep [] = ([], [])
sweep (t ∷ ts) =
    let (kept, freed) = sweep ts in if is_dead t.state then (kept, t ∷ freed) else (t ∷ kept, freed)

-- The `do … while (iter != task_list && task_list)` loop of `schedule_next`. When the first task is
-- dead, `task_list` and `iter` move to the second one together, and the loop ends. A dead task
-- that is alone is freed, and `task_list` still leads to it.
unfoldable pub cleanup : List Task → List Task × List Task
unfolding sweep
cleanup [] = ([], [])
cleanup (t ∷ []) = (t ∷ [], if is_dead t.state then t ∷ [] else [])
cleanup (t ∷ u ∷ ts) =
    let (kept, freed) = sweep (u ∷ ts) in
    if is_dead t.state then (u ∷ ts, t ∷ []) else (t ∷ kept, freed)

unfoldable pub has_pid : ℕ → List Task → Bool
has_pid pid [] = false
has_pid pid (t ∷ ts) = (t.pid == pid) || has_pid pid ts

-- The tasks behind the one with a number, then the others up to that one: the order in which
-- `next` pointers lead from it. `none`: the task is not in the list.
unfoldable pub behind : ℕ → List Task → List Task → Option (List Task)
behind pid [] before = none
behind pid (t ∷ ts) before = elim (t.pid == pid) [
  | true ↦ some (ts ++ (before ++ (t ∷ [])))
  | false ↦ behind pid ts (before ++ (t ∷ []))
]

unfoldable pub first_runnable : List Task → Option Task
first_runnable [] = none
first_runnable (t ∷ ts) = elim (is_runnable t.state) [ true ↦ some t | false ↦ first_runnable ts ]

unfoldable pub set_state : ℕ → TaskState → List Task → List Task
set_state pid st [] = []
set_state pid st (t ∷ ts) =
    (if t.pid == pid then record t { state = st } else t) ∷ set_state pid st ts

-- `if (prev->state == TASK_RUNNING) prev->state = TASK_READY`.
unfoldable pub preempt : ℕ → List Task → List Task
preempt pid [] = []
preempt pid (t ∷ ts) =
    (if (t.pid == pid) && is_running t.state then record t { state = ready } else t)
    ∷ preempt pid ts

unfoldable pub switch_to : Sched → List Task → ℕ → Option Task → Sched
unfolding set_state preempt
switch_to s kept prev none = record s { tasks = kept }
switch_to s kept prev (some next) = record s {
  tasks = set_state next.pid running (preempt prev kept);
  current = some next.pid;
}

-- The ring that the search for the next task walks: from `task_list` on if the current task was
-- freed, else from the task behind it. `none` is a fault: the current task is in no list.
unfoldable pub search_ring : ℕ → List Task → List Task → Option (List Task)
unfolding has_pid behind
search_ring prev kept freed = if has_pid prev freed then some kept else behind prev kept []

abbrev pub pick :
    Sched → List Task → List Task → ℕ → Option (List Task) → Option (Sched × List Task)
pick s kept freed prev none = none
pick s kept freed prev (some ring) = some (switch_to s kept prev (first_runnable ring), freed)

-- The cases of a null `current_task` and a null `task_list`, then the round itself.
unfoldable pub schedule_from : Sched → Option ℕ → List Task → Option (Sched × List Task)
unfolding cleanup search_ring first_runnable switch_to
schedule_from s none tasks = some (s, [])
schedule_from s (some prev) [] = some (s, [])
schedule_from s (some prev) (t ∷ ts) =
    let (kept, freed) = cleanup (t ∷ ts) in pick s kept freed prev (search_ring prev kept freed)

-- The new state, and the tasks whose memory goes to `kfree`.
unfoldable pub schedule_next : Sched → Option (Sched × List Task)
unfolding schedule_from
schedule_next s = schedule_from s s.current s.tasks

unfoldable pub sched_getpid : Sched → ℕ
sched_getpid s = elim s.current [ none ↦ 0 | some pid ↦ pid ]

-- `find_task_by_pid` follows `next` until it is null, and in a circle it never is. `at` is what is
-- left of the current round. `none`: the fuel ran out.
unfoldable pub find_from : ℕ → List Task → List Task → ℕ → Option (Option Task)
find_from zero ring at pid = none
find_from (suc f) [] at pid = some none
find_from (suc f) (r ∷ rs) [] pid = find_from f (r ∷ rs) (r ∷ rs) pid
find_from (suc f) (r ∷ rs) (t ∷ ts) pid = elim (t.pid == pid) [
  | true ↦ some (some t)
  | false ↦ find_from f (r ∷ rs) ts pid
]

unfoldable pub find_task_by_pid : ℕ → Sched → ℕ → Option (Option Task)
unfolding find_from
find_task_by_pid fuel s pid = find_from fuel s.tasks s.tasks pid

-- A task that is dead already stays as it is.
unfoldable pub kill_task : ℕ → Sched → ℕ → Option Sched
unfolding set_state
kill_task fuel s pid = elim (find_task_by_pid fuel s pid) [
  | none ↦ none
  | some none ↦ some s
  | some (some t) ↦
      some (if is_dead t.state then s else record s { tasks = set_state pid dead s.tasks })
]

-- `while (cur->next && cur->next != task_list) cur = cur->next`: the new task goes to the end.
abbrev pub insert_task : Sched → Task → Sched
insert_task s t = record s { tasks = s.tasks ++ (t ∷ []) }
