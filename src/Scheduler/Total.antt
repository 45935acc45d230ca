-- ===== src/Scheduler/Total.antt =====
-- A scheduling round with a current task that is in the list comes to an end without a fault.
use hana_core.Prelude.{
  sym, subst, ℕ, List, [], ◌∷◌, ◌++◌, ◌≡◌, refl, ap, ◌∙◌, arith, some, true, false, Bool-cases, inl,
  inr, ◌==◌,
}
use mathlib.Core.Path.{ap₂}
use hana_core.Scheduler.{
  Task, Sched, is_dead, has_pid, sweep, cleanup, behind, first_runnable, search_ring, switch_to,
  pick, schedule_from, schedule_next,
}

sweep-has_pid :
    (pid : ℕ) (ts : List Task)
    → has_pid pid ts ≡ true
    → has_pid pid (sweep ts).1 ≡ false
    → has_pid pid (sweep ts).0 ≡ true
unfolding sweep has_pid
sweep-has_pid pid [] h g = cc
sweep-has_pid pid (t ∷ ts) h g = elim (Bool-cases (is_dead t.state)) [
  | inl e ↦ rw e (sweep-has_pid pid ts (ground (arith, rw e at g)) (ground (arith, rw e at g)))
  | inr e ↦ elim (Bool-cases (t.pid == pid)) [
    | inl hit ↦ rw (e, hit) refl
    | inr miss ↦ rw (e, miss) (sweep-has_pid pid ts (rw miss at h) (rw e at g))
  ]
]

cleanup_alive :
    (t u : Task) (ts : List Task)
    → is_dead t.state ≡ false
    → cleanup (t ∷ u ∷ ts) ≡ sweep (t ∷ u ∷ ts)
unfolding cleanup sweep
cleanup_alive t u ts e = rw e

-- A task of the list that a round does not free stays in the list.
cleanup-has_pid :
    (pid : ℕ) (ts : List Task)
    → has_pid pid ts ≡ true
    → has_pid pid (cleanup ts).1 ≡ false
    → has_pid pid (cleanup ts).0 ≡ true
unfolding cleanup has_pid
cleanup-has_pid pid [] h g = h
cleanup-has_pid pid (t ∷ []) h g = h
cleanup-has_pid pid (t ∷ u ∷ ts) h g = elim (Bool-cases (is_dead t.state)) [
  | inl e ↦ rw e (second (rw e at g) h)
  | inr e ↦
      subst (λ (r : List Task × List Task). has_pid pid r.0 ≡ true) (sym (cleanup_alive t u ts e))
        (sweep-has_pid pid (t ∷ u ∷ ts) h (
          subst (λ (r : List Task × List Task). has_pid pid r.1 ≡ false) (cleanup_alive t u ts e)
            g))
]
  where
    second :
        has_pid pid (t ∷ []) ≡ false → has_pid pid (t ∷ u ∷ ts) ≡ true → has_pid pid (u ∷ ts) ≡ true
    second a b = ground arith

behind_there :
    (pid : ℕ) (ts before : List Task)
    → has_pid pid ts ≡ true
    → (ring : List Task) × (behind pid ts before ≡ some ring)
unfolding behind has_pid
behind_there pid [] before h = cc
behind_there pid (t ∷ ts) before h = elim (Bool-cases (t.pid == pid)) [
  | inl hit ↦ (ts ++ (before ++ (t ∷ [])), rw (hit, behind))
  | inr miss ↦
      let (ring, e) = behind_there pid ts (before ++ (t ∷ [])) (rw miss at h) in
      (ring, rw (miss, behind) e)
]

search_ring_there :
    (pid : ℕ) (ts : List Task)
    → has_pid pid ts ≡ true
    → (ring : List Task) × (search_ring pid (cleanup ts).0 (cleanup ts).1 ≡ some ring)
unfolding search_ring
search_ring_there pid ts h = elim (Bool-cases (has_pid pid (cleanup ts).1)) [
  | inl gone ↦ ((cleanup ts).0, rw gone)
  | inr stays ↦
      let (ring, e) = behind_there pid (cleanup ts).0 [] (cleanup-has_pid pid ts h stays) in
      (ring, rw stays e)
]

-- The round's result, with the tasks that its clean-up freed.
pub schedule_next_ends :
    (s : Sched) (prev : ℕ) (t : Task) (ts : List Task)
    → s.current ≡ some prev
    → s.tasks ≡ t ∷ ts
    → has_pid prev (t ∷ ts) ≡ true
    → (s' : Sched) × (schedule_next s ≡ some (s', (cleanup (t ∷ ts)).1))
unfolding schedule_next schedule_from
schedule_next_ends s prev t ts c l h =
    let (ring, e) = search_ring_there prev (t ∷ ts) h in
    (
      switch_to s (cleanup (t ∷ ts)).0 prev (first_runnable ring),
      ap₂ (schedule_from s) c l ∙ ap (pick s (cleanup (t ∷ ts)).0 (cleanup (t ∷ ts)).1 prev) e,
    )
