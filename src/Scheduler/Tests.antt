-- ===== src/Scheduler/Tests.antt =====
-- Runs of kernel/scheduler/scheduler.cpp.
use mathlib.Core.Option.{map as option_map}
use hana_core.Prelude.{true, ℕ, ◌≡◌, ◌+◌, List, [], ◌∷◌, refl, none, some}
use hana_core.Fd.{fdtable_create}
use hana_core.Mem.Interface.{Memory}
use hana_core.Scheduler.{
  Task, TaskState, Sched, sweep, cleanup, has_pid, behind, first_runnable, set_state, preempt,
  switch_to, search_ring, schedule_from, schedule_next, find_from, find_task_by_pid, kill_task,
}
use hana_core.Scheduler.Create.{
  blank, alloc_task_common, create_task_with_arg, create_task, create_user_task,
}
use hana_core.Scheduler.Exit.{set_exit, task_cleanup, may_call, has_table, sys_exit, wait_task}
use hana_core.Scheduler.Exit.Left.{Left}
use hana_core.Scheduler.Ring.{Rescheduled, schedule_next-Rescheduled}
use hana_core.Prelude.Word.{minus_one}

abbrev task : ℕ → TaskState → Task
task pid st = record (blank pid) { state = st }

abbrev tasks : List Task
tasks = task 1 TaskState.running ∷ task 2 TaskState.dead ∷ task 3 TaskState.ready ∷ []

abbrev sched : Sched
sched = record { tasks = tasks; current = some 1; next_pid = 4 }

-- A task with a table of descriptors.
abbrev user_task : Task
user_task = record (task 1 TaskState.running) { fds = some (0x5000, []) }

abbrev open_tasks : List Task
open_tasks = user_task ∷ task 2 TaskState.dead ∷ task 3 TaskState.ready ∷ []

abbrev open_sched : Sched
open_sched = record sched { tasks = open_tasks }

-- A memory that counts bytes upwards.
abbrev counter : Memory
counter = record { State = ℕ; init = λ s n. s; alloc = λ s n. (some s, s + n) }

-- A memory with nothing left.
abbrev full : Memory
full = record { State = ℕ; init = λ s n. s; alloc = λ s n. (none, s) }

next_test :
    schedule_next sched
    ≡ some (
      record sched {
        tasks = task 1 TaskState.ready ∷ task 3 TaskState.running ∷ [];
        current = some 3;
      },
      task 2 TaskState.dead ∷ [],
    )
unfolding schedule_next schedule_from cleanup sweep search_ring has_pid behind first_runnable
    switch_to set_state preempt
next_test = refl

create_test : (create_task counter 0 sched 64 0x1000).0 ≡ 4
unfolding create_task create_task_with_arg alloc_task_common fdtable_create
create_test = refl

no_memory_test : (create_user_task full 0 sched 64 0x1000 4096).0 ≡ 0
unfolding create_user_task
no_memory_test = refl

kill_test :
    kill_task 3 sched 3
    ≡ some (record sched {
      tasks = task 1 TaskState.running ∷ task 2 TaskState.dead ∷ task 3 TaskState.dead ∷ [];
    })
unfolding kill_task find_task_by_pid find_from set_state
kill_test = refl

dead_alone_test :
    cleanup (task 1 TaskState.dead ∷ []) ≡ (task 1 TaskState.dead ∷ [], task 1 TaskState.dead ∷ [])
unfolding cleanup
dead_alone_test = refl

-- The second dead task stays.
dead_first_test :
    cleanup (task 1 TaskState.dead ∷ task 2 TaskState.dead ∷ task 3 TaskState.ready ∷ [])
    ≡ (task 2 TaskState.dead ∷ task 3 TaskState.ready ∷ [], task 1 TaskState.dead ∷ [])
unfolding cleanup
dead_first_test = refl

schedule_next-Rescheduled_example :
    (s' : Sched) × (schedule_next sched ≡ some (s', (cleanup tasks).1))
    × Rescheduled s' 1 (cleanup tasks).0 (cleanup tasks).1
unfolding has_pid
schedule_next-Rescheduled_example =
    schedule_next-Rescheduled sched 1 (task 1 TaskState.running)
      (task 2 TaskState.dead ∷ task 3 TaskState.ready ∷ []) refl refl refl
      (refl, (refl, (refl, tt)))

exits :
    (has_table 1 open_tasks ≡ true)
    × (option_map (λ (r : ℕ × Sched × List Task). r.0) (sys_exit open_sched 0) ≡ some 0)
unfolding has_table sys_exit may_call task_cleanup set_exit schedule_next schedule_from cleanup
    sweep search_ring has_pid behind first_runnable switch_to set_state preempt
exits = (refl, refl)

-- The main task of the kernel has no table.
main_stays : sys_exit sched 0 ≡ some (minus_one, sched, [])
unfolding has_table sys_exit may_call
main_stays = refl

-- The wait for a task that is dead ends at once.
wait_dead : wait_task 1 2 (λ s. s) sched 2 ≡ some sched
unfolding wait_task find_task_by_pid find_from
wait_dead = refl
