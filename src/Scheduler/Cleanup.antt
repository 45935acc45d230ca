-- ===== src/Scheduler/Cleanup.antt =====
-- Which dead tasks a scheduling round frees.
use hana_core.Prelude.{
  ◌==◌, ◌+◌, ℕ, List, [], ◌∷◌, ◌≡◌, refl, arith, true, false, Bool-cases, inl, inr, if◌then◌else◌,
}
use hana_core.Scheduler.{Task, is_dead, sweep, cleanup}

abbrev pub AllDead : List Task → Type 0
AllDead [] = Unit
AllDead (t ∷ ts) = (is_dead t.state ≡ true) × AllDead ts

abbrev pub AllAlive : List Task → Type 0
AllAlive [] = Unit
AllAlive (t ∷ ts) = (is_dead t.state ≡ false) × AllAlive ts

-- How often a task with a number stands in a list.
abbrev pub count : ℕ → List Task → ℕ
count pid [] = 0
count pid (t ∷ ts) = (if t.pid == pid then 1 else 0) + count pid ts

sweep_lem :
    (ts : List Task)
    → let (kept, freed) = sweep ts in
      AllAlive kept × AllDead freed × ((pid : ℕ) → count pid kept + count pid freed ≡ count pid ts)
unfolding sweep
sweep_lem [] = (tt, tt, λ pid. refl)
sweep_lem (t ∷ ts) = elim (Bool-cases (is_dead t.state)) [
  | inl e ↦ let ih = sweep_lem ts in rw e (ih.0, (e, ih.1), λ pid. omega (arith, ih.2 pid))
  | inr e ↦ let ih = sweep_lem ts in rw e ((e, ih.0), ih.1, λ pid. omega (arith, ih.2 pid))
]

-- When the first task of the list is alive, the round keeps exactly the tasks that are alive and
-- frees exactly the dead ones: each task goes to one side.
pub cleanup_alive_first :
    (t : Task) (ts : List Task)
    → is_dead t.state ≡ false
    → let (kept, freed) = cleanup (t ∷ ts) in
      AllAlive kept
      × AllDead freed
      × ((pid : ℕ) → count pid kept + count pid freed ≡ count pid (t ∷ ts))
unfolding cleanup
cleanup_alive_first t [] e = rw e ((refl, tt), tt, λ pid. omega arith)
cleanup_alive_first t (u ∷ ts) e =
    let rest = sweep_lem (u ∷ ts) in rw e ((e, rest.0), rest.1, λ pid. omega (arith, rest.2 pid))
