-- ===== src/Scheduler/Ring.antt =====
-- Which task a scheduling round chooses: the first runnable one behind the current task.
use hana_core.Prelude.{
  subst, some_eq, ℕ, List, [], ◌∷◌, ◌++◌, ◌≡◌, refl, ap, ◌∙◌, sym, arith, Option, none, some, true,
  false, Bool-cases, inl, inr, ◌==◌,
}
use hana_core.Scheduler.{
  schedule_from, Task, Sched, is_runnable, has_pid, behind, first_runnable, search_ring,
  schedule_next, pick, cleanup, switch_to,
}
use hana_core.Scheduler.Running.{OnlyRuns, Switched, cleanup-OnlyRuns, switch_to-Switched}
use mathlib.Core.List.{append_assoc}
use mathlib.Core.Path.{ap₂}
use hana_core.Scheduler.Total.{schedule_next_ends}

abbrev pub AllIdle : List Task → Type 0
AllIdle [] = Unit
AllIdle (t ∷ ts) = (is_runnable t.state ≡ false) × AllIdle ts

-- What a search along `ring` finds.
pub data Next (ring : List Task) : Option Task → Type 0 where
  nobody : AllIdle ring → Next ring none
  found :
      (skipped later : List Task) (t : Task)
      → ring ≡ skipped ++ (t ∷ later)
      → AllIdle skipped
      → is_runnable t.state ≡ true
      → Next ring (some t)

Next-cons :
    (t : Task) (ts : List Task) (o : Option Task)
    → is_runnable t.state ≡ false
    → Next ts o
    → Next (t ∷ ts) o
Next-cons t ts o e (nobody i) = nobody (e, i)
Next-cons t ts o e (found skipped later u s i r) =
    found (t ∷ skipped) later u (ap (λ (l : List Task). t ∷ l) s) (e, i) r

first_runnable-Next : (ring : List Task) → Next ring (first_runnable ring)
unfolding first_runnable
first_runnable-Next [] = nobody tt
first_runnable-Next (t ∷ ts) = elim (Bool-cases (is_runnable t.state)) [
  | inl e ↦ rw (e, first_runnable) (found [] ts t refl tt e)
  | inr e ↦ rw (e, first_runnable) (Next-cons t ts (first_runnable ts) e (first_runnable-Next ts))
]

-- `ring` goes once round the list `kept`: from its first task if the current task was freed, else
-- from behind the current task up to that task itself.
pub data Round (prev : ℕ) (kept freed ring : List Task) : Type 0 where
  restart : has_pid prev freed ≡ true → ring ≡ kept → Round prev kept freed ring
  onward :
      (xs ys : List Task) (p : Task)
      → p.pid ≡ prev
      → kept ≡ xs ++ (p ∷ ys)
      → ring ≡ ys ++ (xs ++ (p ∷ []))
      → Round prev kept freed ring

behind_lem :
    (pid : ℕ) (ts before ring : List Task)
    → behind pid ts before ≡ some ring
    → (xs : List Task) × (ys : List Task) × (p : Task) × (p.pid ≡ pid)
      × (before ++ ts ≡ xs ++ (p ∷ ys))
      × (ring ≡ ys ++ (xs ++ (p ∷ [])))
unfolding behind
behind_lem pid [] before ring e = cc
behind_lem pid (t ∷ ts) before ring e = elim (Bool-cases (t.pid == pid)) [
  | inl hit ↦ (before, ts, t, ground arith, refl, sym (some_eq (rw (hit, behind) at e)))
  | inr miss ↦
      let (xs, ys, p, same, split, round) =
        behind_lem pid ts (before ++ (t ∷ [])) ring (rw (miss, behind) at e) in
      (xs, ys, p, same, sym (append_assoc before (t ∷ []) ts) ∙ split, round)
]

search_ring-Round :
    (prev : ℕ) (kept freed ring : List Task)
    → search_ring prev kept freed ≡ some ring
    → Round prev kept freed ring
unfolding search_ring
search_ring-Round prev kept freed ring e = elim (Bool-cases (has_pid prev freed)) [
  | inl gone ↦ restart gone (sym (some_eq (rw gone at e)))
  | inr there ↦
      let (xs, ys, p, same, split, round) = behind_lem prev kept [] ring (rw there at e) in
      onward xs ys p same split round
]

-- What a round does, from the lists of the tasks kept and freed.
pub record Rescheduled (s' : Sched) (prev : ℕ) (kept freed : List Task) : Type 0 where
  pub ring : List Task
  pub next : Option Task
  pub round : Round prev kept freed ring
  pub first : Next ring next
  pub after : Switched s' prev next

pick-Rescheduled :
    (s : Sched) (kept freed : List Task) (prev : ℕ) (o : Option (List Task)) {s' : Sched}
    {out : List Task}
    → pick s kept freed prev o ≡ some (s', out)
    → ((ring : List Task) → o ≡ some ring → Round prev kept freed ring)
    → s.current ≡ some prev
    → OnlyRuns prev kept
    → Rescheduled s' prev kept freed
pick-Rescheduled s kept freed prev none e r c h = cc
pick-Rescheduled s kept freed prev (some ring) {s'} e r c h =
    let same : switch_to s kept prev (first_runnable ring) ≡ s' = cc in
    record {
      ring = ring;
      next = first_runnable ring;
      round = r ring refl;
      first = first_runnable-Next ring;
      after =
          subst (λ (g : Sched). Switched g prev (first_runnable ring)) same
            (switch_to-Switched s kept prev (first_runnable ring) c h);
    }

schedule_next_lem :
    (s : Sched) (prev : ℕ) (t : Task) (ts : List Task) {s' : Sched} {freed : List Task}
    → schedule_next s ≡ some (s', freed)
    → s.current ≡ some prev
    → s.tasks ≡ t ∷ ts
    → OnlyRuns prev (t ∷ ts)
    → Rescheduled s' prev (cleanup (t ∷ ts)).0 (cleanup (t ∷ ts)).1
unfolding schedule_next schedule_from
schedule_next_lem s prev t ts {s'} {freed} e c l h =
    pick-Rescheduled s (cleanup (t ∷ ts)).0 (cleanup (t ∷ ts)).1 prev
      (search_ring prev (cleanup (t ∷ ts)).0 (cleanup (t ∷ ts)).1)
      (sym (ap₂ (schedule_from s) c l) ∙ e)
      (search_ring-Round prev (cleanup (t ∷ ts)).0 (cleanup (t ∷ ts)).1) c
      (cleanup-OnlyRuns prev (t ∷ ts) h)

-- A scheduling round with a current task that is in the list and the only one running comes to an
-- end. It chooses the first runnable task behind the current one in the circle of the tasks that
-- are kept (from the list's first task, if the current task was freed). Afterwards the chosen task
-- is current and runs, and no other task runs; where no task is runnable, the current task stays,
-- and no other task runs.
pub schedule_next-Rescheduled :
    (s : Sched) (prev : ℕ) (t : Task) (ts : List Task)
    → s.current ≡ some prev
    → s.tasks ≡ t ∷ ts
    → has_pid prev (t ∷ ts) ≡ true
    → OnlyRuns prev (t ∷ ts)
    → (s' : Sched) × (schedule_next s ≡ some (s', (cleanup (t ∷ ts)).1))
      × Rescheduled s' prev (cleanup (t ∷ ts)).0 (cleanup (t ∷ ts)).1
schedule_next-Rescheduled s prev t ts c l there h =
    let (s', e) = schedule_next_ends s prev t ts c l there in
    (s', e, schedule_next_lem s prev t ts e c l h)
