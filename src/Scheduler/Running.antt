-- ===== src/Scheduler/Running.antt =====
-- Who runs after a scheduling round.
use hana_core.Prelude.{
  not, ℕ, List, [], ◌∷◌, ◌≡◌, refl, arith, Option, none, some, false, Bool-cases, inl, inr, ◌==◌,
  ◌&&◌,
}
use hana_core.Scheduler.{
  sweep, is_dead, Task, TaskState, Sched, is_running, set_state, preempt, switch_to, cleanup,
}

-- Every task that runs is the current one.
abbrev pub OnlyRuns : ℕ → List Task → Type 0
OnlyRuns pid [] = Unit
OnlyRuns pid (t ∷ ts) = (is_running t.state && not (t.pid == pid) ≡ false) × OnlyRuns pid ts

abbrev pub NobodyRuns : List Task → Type 0
NobodyRuns [] = Unit
NobodyRuns (t ∷ ts) = (is_running t.state ≡ false) × NobodyRuns ts

-- Every task with a number runs.
abbrev pub Runs : ℕ → List Task → Type 0
Runs pid [] = Unit
Runs pid (t ∷ ts) = (not (is_running t.state) && (t.pid == pid) ≡ false) × Runs pid ts

preempt-NobodyRuns : (prev : ℕ) (ts : List Task) → OnlyRuns prev ts → NobodyRuns (preempt prev ts)
unfolding preempt
preempt-NobodyRuns prev [] h = tt
preempt-NobodyRuns prev (t ∷ ts) h = (ground arith, preempt-NobodyRuns prev ts h.1)

set_state-OnlyRuns :
    (pid : ℕ) (ts : List Task)
    → NobodyRuns ts
    → OnlyRuns pid (set_state pid TaskState.running ts)
      × Runs pid (set_state pid TaskState.running ts)
unfolding set_state
set_state-OnlyRuns pid [] h = (tt, tt)
set_state-OnlyRuns pid (t ∷ ts) h =
    let ih = set_state-OnlyRuns pid ts h.1 in ((ground arith, ih.0), (ground arith, ih.1))

sweep-OnlyRuns : (pid : ℕ) (ts : List Task) → OnlyRuns pid ts → OnlyRuns pid (sweep ts).0
unfolding sweep
sweep-OnlyRuns pid [] h = tt
sweep-OnlyRuns pid (t ∷ ts) h = elim (Bool-cases (is_dead t.state)) [
  | inl e ↦ rw e (sweep-OnlyRuns pid ts h.1)
  | inr e ↦ rw e (h.0, sweep-OnlyRuns pid ts h.1)
]

pub cleanup-OnlyRuns : (pid : ℕ) (ts : List Task) → OnlyRuns pid ts → OnlyRuns pid (cleanup ts).0
unfolding cleanup
cleanup-OnlyRuns pid [] h = tt
cleanup-OnlyRuns pid (t ∷ []) h = h
cleanup-OnlyRuns pid (t ∷ u ∷ ts) h = elim (Bool-cases (is_dead t.state)) [
  | inl e ↦ rw e h.1
  | inr e ↦ rw e (h.0, sweep-OnlyRuns pid (u ∷ ts) h.1)
]

-- A chosen task is the current one, and runs.
abbrev pub Chosen : ℕ → Sched → Option Task → Type 0
Chosen who s none = Unit
Chosen who s (some t) = (who ≡ t.pid) × Runs who s.tasks

-- Who runs after a switch: the chosen task and nobody else, or, where none was chosen, only the
-- task that ran before.
pub record Switched (s' : Sched) (prev : ℕ) (next : Option Task) : Type 0 where
  pub who : ℕ
  pub current : s'.current ≡ some who
  pub only : OnlyRuns who s'.tasks
  pub chosen : Chosen who s' next

pub switch_to-Switched :
    (s : Sched) (kept : List Task) (prev : ℕ) (next : Option Task)
    → s.current ≡ some prev
    → OnlyRuns prev kept
    → Switched (switch_to s kept prev next) prev next
unfolding switch_to
switch_to-Switched s kept prev none c h = record { who = prev; current = c; only = h; chosen = tt }
switch_to-Switched s kept prev (some t) c h =
    let after = set_state-OnlyRuns t.pid (preempt prev kept) (preempt-NobodyRuns prev kept h) in
    record { who = t.pid; current = refl; only = after.0; chosen = (refl, after.1) }
