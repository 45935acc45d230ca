-- ===== src/Tty/Pty/Attach.antt =====
-- Which pseudo terminal a virtual terminal feeds.
use hana_core.Prelude.{
  ℕ, zero, suc, List, [], ◌∷◌, ◌≡◌, ◌≢◌, ◌<◌, refl, ap, arith, length, get_or, set, some, true,
}
use hana_core.Prelude.Int.{eq_ℤ, ℤ, pos, negsuc}
use hana_core.Tty.Pty.{Pair, Ptys, live, num_vt, detached, forget, attach_slave_to_vt, vt_map_get}

eq_ℤ_refl : (a : ℤ) → eq_ℤ a a ≡ true
eq_ℤ_refl (pos n) = ground arith
eq_ℤ_refl (negsuc n) = ground arith

get_or-forget : (id : ℕ) (xs : List ℤ) (i : ℕ) → get_or (forget (pos id) xs) i detached ≢ pos id
unfolding forget
get_or-forget id [] i = λ e. cc
get_or-forget id (pos x ∷ xs) zero = ground arith
get_or-forget id (negsuc x ∷ xs) zero = ground arith
get_or-forget id (x ∷ xs) (suc i) = get_or-forget id xs i

get_or-set : (xs : List ℤ) (i : ℕ) (v : ℤ) → i < length xs → get_or (set xs i v) i detached ≡ v
get_or-set [] i v h = absurd (omega arith)
get_or-set (x ∷ xs) zero v h = refl
get_or-set (x ∷ xs) (suc i) v h = get_or-set xs i v (omega arith)

get_or-set_other :
    (xs : List ℤ) (i j : ℕ) (v : ℤ) → i ≢ j → get_or (set xs i v) j detached ≡ get_or xs j detached
get_or-set_other [] i j v h = refl
get_or-set_other (x ∷ xs) zero zero v h = absurd (h refl)
get_or-set_other (x ∷ xs) zero (suc j) v h = refl
get_or-set_other (x ∷ xs) (suc i) zero v h = refl
get_or-set_other (x ∷ xs) (suc i) (suc j) v h = get_or-set_other xs i j v (λ e. h (ap suc e))

-- Detaching a live pair succeeds, and no virtual terminal feeds that pair afterwards.
pub detach_lem :
    (s : Ptys) (n i : ℕ) (p : Pair) (vt : ℤ)
    → live s (pos n) ≡ some (i, p)
    → let (rc, s') = attach_slave_to_vt s (pos n) detached in
      (rc ≡ pos 0) × (vt_map_get s' vt ≢ pos n)
unfolding attach_slave_to_vt vt_map_get
detach_lem s n i p (negsuc v) e = rw (e, attach_slave_to_vt) (refl, λ h. cc)
detach_lem s n i p (pos v) e = ground (arith, get_or-forget n s.vt_map v)

-- Attaching a live pair to a virtual terminal makes that terminal feed the pair, and leaves what
-- every other terminal feeds as it was; so a pair that moves is still fed by its old terminal.
pub attach_lem :
    (s : Ptys) (n i : ℕ) (p : Pair) (v w : ℕ)
    → live s (pos n) ≡ some (i, p)
    → length s.vt_map ≡ num_vt
    → v < num_vt
    → v ≢ w
    → let (rc, s') = attach_slave_to_vt s (pos n) (pos v) in
      (rc ≡ pos 0)
      × (vt_map_get s' (pos v) ≡ pos n)
      × (vt_map_get s' (pos w) ≡ vt_map_get s (pos w))
unfolding attach_slave_to_vt vt_map_get
attach_lem s n i p v w e l h ne =
    ground (arith, get_or-set s.vt_map v (pos n), get_or-set_other s.vt_map v w (pos n) ne)
