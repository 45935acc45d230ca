-- ===== src/Tty/Pty/Pairs.antt =====
-- What one side of a pseudo terminal writes, the other side reads.
use hana_core.Prelude.{
  ℕ, zero, suc, List, [], ◌∷◌, ◌++◌, ◌+◌, ◌≡◌, ◌<◌, ◌^◌, refl, ap, ◌∙◌, arith, length, take,
  get_elem?, set, some, true, min,
}
use hana_core.Prelude.Int.{ℤ, pos, negsuc}
use hana_core.Tty.Rbuf.{rbuf_write, rbuf_read}
use hana_core.Tty.Rbuf.Fifo.{
  IsValid, contents, room, Wrote, DidRead, rbuf_write-Wrote, rbuf_read-DidRead,
}
use hana_core.Tty.Pty.{Pair, Ptys, live, store, master_write, slave_read}

set_stored :
    (ps : List Pair) (i : ℕ) (p q : Pair)
    → get_elem? ps i ≡ some p
    → get_elem? (set ps i q) i ≡ some q
set_stored [] i p q e = cc
set_stored (x ∷ xs) zero p q e = refl
set_stored (x ∷ xs) (suc i) p q e = set_stored xs i p q e

-- A stored pair is found again under its identifier.
pub live-store :
    (s : Ptys) (id : ℤ) (i : ℕ) (p q : Pair)
    → live s id ≡ some (i, p)
    → q.in_use ≡ true
    → live (store s i q) id ≡ some (i, q)
unfolding live
live-store s (negsuc n) i p q e u = cc
live-store s (pos n) i p q e u = ground (arith, set_stored s.pairs n p q)

-- A pair whose two buffers are well formed.
pub record IsGood (p : Pair) : Type 0 where
  pub m2s_valid : IsValid p.m2s
  pub s2m_valid : IsValid p.s2m

master_write_lem :
    (s : Ptys) (id : ℤ) (i : ℕ) (p : Pair) (src : List ℕ)
    → live s id ≡ some (i, p)
    → master_write s id src
      ≡ (pos (rbuf_write p.m2s src).0, store s i (record p { m2s = (rbuf_write p.m2s src).1 }))
unfolding master_write
master_write_lem s id i p src e = rw (e, master_write)

slave_read_lem :
    (s : Ptys) (id : ℤ) (i : ℕ) (p : Pair) (n : ℕ)
    → live s id ≡ some (i, p)
    → slave_read s id n ≡ (
      pos (length (rbuf_read p.m2s n).0),
      (rbuf_read p.m2s n).0,
      store s i (record p { m2s = (rbuf_read p.m2s n).1 }),
    )
unfolding slave_read
slave_read_lem s id i p n e = rw (e, slave_read)

-- A live pair is in use.
live-in_use : (s : Ptys) (id : ℤ) (i : ℕ) (p : Pair) → live s id ≡ some (i, p) → p.in_use ≡ true
unfolding live
live-in_use s (negsuc n) i p e = cc
live-in_use s (pos n) i p e = ground arith

-- After the master of a live pair with well-formed rings writes `src`, which does not wrap the
-- counter, the slave reads up to `n` bytes: first what was waiting, then the bytes of `src` that there
-- was room for. The count returned to the writer is the number of those.
pub master_write-slave_read :
    (s : Ptys) (id : ℤ) (i : ℕ) (p : Pair) (src : List ℕ) (n : ℕ)
    → live s id ≡ some (i, p)
    → IsGood p
    → p.m2s.head + length src < 2 ^ 64
    → let (k, s') = master_write s id src in
      let (m, out, s'') = slave_read s' id n in
      (k ≡ pos (min (length src) (room p.m2s)))
      × (out ≡ take n (contents p.m2s ++ take (room p.m2s) src))
      × (m ≡ pos (length out))
master_write-slave_read s id i p src n e g fits =
    rw (master_write_lem s id i p src e, slave_read_lem (store s i q) id i q n found)
      (ap pos (omega (arith, w.count)), r.bytes ∙ ap (take n) w.bytes, refl)
  where
    q : Pair
    q = record p { m2s = (rbuf_write p.m2s src).1 }

    found : live (store s i q) id ≡ some (i, q)
    found = live-store s id i p q e (live-in_use s id i p e)

    w : Wrote p.m2s src 0 (rbuf_write p.m2s src)
    w = rbuf_write-Wrote p.m2s src g.m2s_valid fits

    r : DidRead q.m2s n (rbuf_read q.m2s n)
    r = rbuf_read-DidRead n q.m2s w.valid
