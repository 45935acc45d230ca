-- ===== src/Tty/Rbuf/Tests.antt =====
-- Runs of the ring buffer of kernel/tty/pty.cpp.
use hana_core.Prelude.{◌≡◌, [], ◌∷◌, refl, arith, replicate}
use hana_core.Tty.Rbuf.{Rbuf, rbuf_available, rbuf_capacity, write_from, rbuf_write, rbuf_read}
use hana_core.Tty.Rbuf.Fifo.{IsValid}

-- Two slots are free.
abbrev small : Rbuf
small = record { buf = 7 ∷ 8 ∷ 9 ∷ 10 ∷ []; cap = 4; head = 6; tail = 4 }

full_test :
    rbuf_write small (1 ∷ 2 ∷ 3 ∷ [])
    ≡ (2, record { buf = 7 ∷ 8 ∷ 1 ∷ 2 ∷ []; cap = 4; head = 8; tail = 4 })
unfolding rbuf_write write_from
full_test = refl

read_test : rbuf_read small 9 ≡ (7 ∷ 8 ∷ [], record small { tail = 6 })
unfolding rbuf_read
read_test = refl

available_test : rbuf_available small ≡ 2
unfolding rbuf_available
available_test = refl

capacity_test : rbuf_capacity small ≡ 4
unfolding rbuf_capacity
capacity_test = refl

abbrev fresh : Rbuf
fresh = record { buf = replicate 1024 0; cap = 1024; head = 0; tail = 0 }

fresh-IsValid : IsValid fresh
fresh-IsValid = record {
  area = refl;
  cap_is = refl;
  order = omega arith;
  full = omega arith;
  counted = omega arith;
}

abbrev two : Rbuf
two = (rbuf_write fresh (1 ∷ 2 ∷ [])).1
