-- ===== src/Tty/Pty/Tests.antt =====
-- Runs of kernel/tty/pty.cpp.
use hana_core.Prelude.{
  ◌≡◌, ◌++◌, [], ◌∷◌, refl, arith, replicate, Bool, true, false, some, take, length, min,
}
use hana_core.Prelude.Int.{pos}
use hana_core.Tty.Rbuf.{Rbuf, rbuf_init}
use hana_core.Tty.Rbuf.Fifo.{IsValid, contents, room}
use hana_core.Tty.Pty.{
  Pair, Ptys, detached, create_from, create_pair, live, master_write, slave_read,
}
use hana_core.Tty.Pty.Pairs.{IsGood, master_write-slave_read}

abbrev ring : Rbuf
ring = rbuf_init (replicate 1024 0) 1024

abbrev pair : Bool → Pair
pair used = record { in_use = used; m2s = ring; s2m = ring; attached_vt = detached }

-- One pair is in use, and the second virtual terminal feeds it.
abbrev table : Ptys
table = record {
  pairs = pair true ∷ pair false ∷ [];
  vt_map = detached ∷ pos 0 ∷ replicate 10 detached;
}

create_test : (create_pair table).0 ≡ pos 1
unfolding create_pair create_from
create_test = refl

refused_test : (master_write table (pos 1) (65 ∷ [])).0 ≡ detached
unfolding master_write live
refused_test = refl

pair-IsGood : IsGood (pair true)
unfolding rbuf_init
pair-IsGood = record { m2s_valid = good; s2m_valid = good }
  where
    good : IsValid ring
    good = record {
      area = refl;
      cap_is = refl;
      order = omega arith;
      full = omega arith;
      counted = omega arith;
    }

found : live table (pos 0) ≡ some (0, pair true)
unfolding live
found = refl

master_write-slave_read_example :
    let (k, s') = master_write table (pos 0) (65 ∷ 66 ∷ []) in
    let (m, out, s'') = slave_read s' (pos 0) 1 in
    (k ≡ pos (min 2 (room ring)))
    × (out ≡ take 1 (contents ring ++ take (room ring) (65 ∷ 66 ∷ [])))
    × (m ≡ pos (length out))
unfolding rbuf_init
master_write-slave_read_example =
    master_write-slave_read table (pos 0) 0 (pair true) (65 ∷ 66 ∷ []) 1 found pair-IsGood
      (omega arith)
