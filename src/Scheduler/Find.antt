-- ===== src/Scheduler/Find.antt =====
-- The search by number ends exactly when the task is there.
use hana_core.Prelude.{
  ℕ, zero, suc, List, [], ◌∷◌, ◌≡◌, ◌≤◌, ◌<◌, refl, arith, none, some, true, false, Bool-cases, inl,
  inr, length, ◌==◌,
}
use hana_core.Scheduler.{Task, Sched, has_pid, find_from, find_task_by_pid}

find_from_present :
    (f : ℕ) (ring at : List Task) (pid : ℕ)
    → 0 < length ring
    → has_pid pid at ≡ true
    → length at ≤ f
    → (t : Task) × (find_from f ring at pid ≡ some (some t)) × (t.pid ≡ pid)
unfolding find_from has_pid
find_from_present f ring [] pid r h l = cc
find_from_present zero ring (t ∷ ts) pid r h l = absurd (omega arith)
find_from_present (suc f) [] (t ∷ ts) pid r h l = absurd (omega arith)
find_from_present (suc f) (x ∷ xs) (t ∷ ts) pid r h l = elim (Bool-cases (t.pid == pid)) [
  | inl e ↦ (t, rw (e, find_from), ground arith)
  | inr e ↦
      let (u, found, same) = find_from_present f (x ∷ xs) ts pid r (ground arith) (omega arith) in
      (u, rw (e, find_from) found, same)
]

find_from_absent :
    (f : ℕ) (ring at : List Task) (pid : ℕ)
    → 0 < length ring
    → has_pid pid ring ≡ false
    → has_pid pid at ≡ false
    → find_from f ring at pid ≡ none
unfolding find_from has_pid
find_from_absent zero ring at pid r h a = refl
find_from_absent (suc f) [] at pid r h a = absurd (omega arith)
find_from_absent (suc f) (x ∷ xs) [] pid r h a = find_from_absent f (x ∷ xs) (x ∷ xs) pid r h h
find_from_absent (suc f) (x ∷ xs) (t ∷ ts) pid r h a =
    let rest = find_from_absent f (x ∷ xs) ts pid r h (ground arith) in
    let miss : (t.pid == pid) ≡ false = ground arith in rw (miss, find_from) rest

has_pid-nonempty : (pid : ℕ) (ts : List Task) → has_pid pid ts ≡ true → 0 < length ts
unfolding has_pid
has_pid-nonempty pid [] h = cc
has_pid-nonempty pid (t ∷ ts) h = omega arith

-- A task that is in the list is found within one round.
pub find_task_by_pid_present :
    (s : Sched) (pid : ℕ)
    → has_pid pid s.tasks ≡ true
    → (t : Task) × (find_task_by_pid (length s.tasks) s pid ≡ some (some t)) × (t.pid ≡ pid)
unfolding find_task_by_pid
find_task_by_pid_present s pid h =
    find_from_present (length s.tasks) s.tasks s.tasks pid (has_pid-nonempty pid s.tasks h) h
      (omega arith)

-- The search for a number that no task of a list has never ends, however long it runs.
pub find_task_by_pid_absent :
    (s : Sched) (pid fuel : ℕ)
    → 0 < length s.tasks
    → has_pid pid s.tasks ≡ false
    → find_task_by_pid fuel s pid ≡ none
unfolding find_task_by_pid
find_task_by_pid_absent s pid fuel r h = find_from_absent fuel s.tasks s.tasks pid r h h
