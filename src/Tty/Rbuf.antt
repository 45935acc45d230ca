-- ===== src/Tty/Rbuf.antt =====
-- `struct rbuf` of kernel/tty/pty.cpp: a ring of bytes with counters that only grow.
pub mod Fifo
mod Tests
use Prim.Native.Nat.{bit_and}
use hana_core.Prelude.{ℕ, zero, suc, List, [], ◌∷◌, ◌+◌, ltb, get_or, set, replicate, true, false}
use hana_core.Prelude.Word.{add64, sub64}

pub record Rbuf : Type 0 where
  pub buf : List ℕ
  pub cap : ℕ
  pub head : ℕ
  pub tail : ℕ

unfoldable pub rbuf_init : List ℕ → ℕ → Rbuf
rbuf_init area cap = record { buf = area; cap = cap; head = 0; tail = 0 }

unfoldable pub rbuf_available : Rbuf → ℕ
rbuf_available r = sub64 r.head r.tail

unfoldable pub rbuf_capacity : Rbuf → ℕ
rbuf_capacity r = r.cap

-- The slot of a counter.
abbrev pub slot : Rbuf → ℕ → ℕ
slot r i = bit_and i (sub64 r.cap 1)

abbrev pub put : Rbuf → ℕ → Rbuf
put r c = record r { buf = set r.buf (slot r r.head) c; head = add64 r.head 1 }

unfoldable pub write_from : Rbuf → List ℕ → ℕ → ℕ × Rbuf
write_from r [] written = (written, r)
write_from r (c ∷ cs) written = elim (ltb (sub64 r.head r.tail) r.cap) [
  | true ↦ write_from (put r c) cs (written + 1)
  | false ↦ (written, r)
]

-- The count of bytes taken from `src`, and the buffer after it.
unfoldable pub rbuf_write : Rbuf → List ℕ → ℕ × Rbuf
unfolding write_from
rbuf_write r src = write_from r src 0

-- The bytes read, at most `n` of them, and the buffer after it.
unfoldable pub rbuf_read : Rbuf → ℕ → List ℕ × Rbuf
rbuf_read r zero = ([], r)
rbuf_read r (suc n) = elim (ltb r.tail r.head) [
  | true ↦
      let (out, r') = rbuf_read (record r { tail = add64 r.tail 1 }) n in
      (get_or r.buf (slot r r.tail) 0 ∷ out, r')
  | false ↦ ([], r)
]
