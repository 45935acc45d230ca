-- ===== src/Scheduler/Create.antt =====
-- kernel/scheduler/scheduler.cpp: the start of the scheduler and the making of tasks. Memory comes
-- from an interface; `trampoline` is the address of `user_mode_entry_trampoline`. Memory that a failed
-- call gives back is not given back in the model. A result of 0 is a failure. The stack frame of a new task is left out.
use hana_core.Prelude.{
  ℕ, zero, suc, List, [], ◌∷◌, ◌+◌, ◌*◌, Option, none, some, true, false, ◌||◌, ◌==◌, if◌then◌else◌,
}
use hana_core.Prelude.Int.{pos, negsuc}
use hana_core.Fd.{FdEntry, FdType, fdtable_create}
use hana_core.Mem.Interface.{Memory}
use hana_core.Scheduler.{Task, TaskState, Sched, insert_task, sched_getpid}

-- `sizeof(Task)`.
abbrev pub task_size : ℕ
task_size = 104

abbrev pub task_stack_size : ℕ
task_stack_size = 16 * 1024

abbrev pub fd_count : ℕ
fd_count = 64

abbrev pub blank : ℕ → Task
blank pid = record {
  pid = pid;
  state = TaskState.running;
  entry = 0;
  entry_arg = 0;
  fds = none;
  fd_count = 0;
  exit_status = negsuc 0;
  parent_pid = 0;
  is_user = false;
  user_entry = 0;
  user_stack = 0;
  user_stack_size = 0;
  kstack = 0;
}

-- The first three descriptors of a new table are the terminal.
abbrev pub with_stdio : Option (ℕ × List FdEntry) → Option (ℕ × List FdEntry)
with_stdio none = none
with_stdio (some (a, t)) = some (a, ttys 3 t)
  where
    ttys : ℕ → List FdEntry → List FdEntry
    ttys zero t = t
    ttys (suc n) [] = []
    ttys (suc n) (e ∷ es) = record e { type = FdType.fd_tty } ∷ ttys n es

module _ (m : Memory) (trampoline : ℕ) where
  open m use {State, init, alloc}

  -- The main task; where memory is short its static storage serves.
  unfoldable pub init_scheduler : Sched → State → Sched × State
  init_scheduler s h =
      let (p, h') = alloc (init h (256 * 1024)) task_size in
      (
        record s {
          tasks = record (blank s.next_pid) { exit_status = pos 0 } ∷ [];
          current = some s.next_pid;
          next_pid = s.next_pid + 1;
        },
        h',
      )

  -- The task of `alloc_task_common`, or none, with the state and the memory after it.
  unfoldable pub alloc_task_common : Sched → State → Option Task × Sched × State
  unfolding sched_getpid
  alloc_task_common s h = let (p, h') = alloc h task_size in made p h'
    where
      made : Option ℕ → State → Option Task × Sched × State
      made none h = (none, s, h)
      made (some a) h =
          let (table, h') = fdtable_create m h fd_count in
          (
            some (record (blank s.next_pid) {
              fds = with_stdio table;
              fd_count = fd_count;
              parent_pid = sched_getpid s;
            }),
            record s { next_pid = s.next_pid + 1 },
            h',
          )

  -- A failure for want of a stack comes after the number was given.
  unfoldable pub create_task_with_arg : Sched → State → ℕ → ℕ → ℕ × Sched × State
  unfolding alloc_task_common
  create_task_with_arg s h entry arg =
      if entry == 0 then (0, s, h) else (let (t, s', h') = alloc_task_common s h in stacked t s' h')
    where
      linked : Option ℕ → Task → Sched → State → ℕ × Sched × State
      linked none t s h = (0, s, h)
      linked (some stack) t s h = (
        t.pid,
        insert_task s
            (record t { state = TaskState.ready; entry = entry; entry_arg = arg; kstack = stack }),
        h,
      )

      stacked : Option Task → Sched → State → ℕ × Sched × State
      stacked none s h = (0, s, h)
      stacked (some t) s h = let (p, h') = alloc h task_stack_size in linked p t s h'

  -- `create_task` is the same code without an argument.
  unfoldable pub create_task : Sched → State → ℕ → ℕ × Sched × State
  unfolding create_task_with_arg
  create_task s h entry = create_task_with_arg s h entry 0

  unfoldable pub create_user_task : Sched → State → ℕ → ℕ → ℕ × Sched × State
  create_user_task s h user_entry user_stack_size =
      if user_entry == 0 || user_stack_size == 0
      then (0, s, h)
      else (let (t, h') = alloc h task_size in with_task t h')
    where
      first_task : Sched → Task → Sched
      first_task s t = elim s.tasks [
        | [] ↦ record s { tasks = t ∷ []; current = some t.pid }
        | x ∷ xs ↦ insert_task s t
      ]

      with_stacks : ℕ → Option ℕ → State → ℕ × Sched × State
      with_stacks kstack none h = (0, s, h)
      with_stacks kstack (some ustack) h =
          let (table, h') = fdtable_create m h fd_count in
          (
            s.next_pid,
            first_task (record s { next_pid = s.next_pid + 1 })
                (record (blank s.next_pid) {
                  state = TaskState.ready;
                  entry = trampoline;
                  fds = with_stdio table;
                  fd_count = fd_count;
                  is_user = true;
                  user_entry = user_entry;
                  user_stack = ustack;
                  user_stack_size = user_stack_size;
                  kstack = kstack;
                }),
            h',
          )

      with_kstack : Option ℕ → State → ℕ × Sched × State
      with_kstack none h = (0, s, h)
      with_kstack (some kstack) h = let (p, h') = alloc h user_stack_size in with_stacks kstack p h'

      with_task : Option ℕ → State → ℕ × Sched × State
      with_task none h = (0, s, h)
      with_task (some a) h = let (p, h') = alloc h task_stack_size in with_kstack p h'
