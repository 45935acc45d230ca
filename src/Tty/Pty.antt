-- ===== src/Tty/Pty.antt =====
-- kernel/tty/pty.cpp: the table of pseudo terminals, and which of them a virtual terminal feeds.
-- An `rbuf` here holds its area, which the source keeps beside it in the pair.
pub mod Pairs
pub mod Attach
mod Tests
use hana_core.Prelude.{
  ℕ, zero, suc, List, [], ◌∷◌, ◌+◌, ltb, get_elem?, get_or, set, length, true, false, Bool, Option,
  none, some, if◌then◌else◌, ◌==◌, map, leb, ◌&&◌,
}
use hana_core.Prelude.Int.{eq_ℤ, ℤ, pos, negsuc}
use hana_core.Tty.Rbuf.{Rbuf, rbuf_init, rbuf_write, rbuf_read}

abbrev pub pty_max : ℕ
pty_max = 16

abbrev pub num_vt : ℕ
num_vt = 12

abbrev pub bufsz : ℕ
bufsz = 1024

abbrev pub detached : ℤ
detached = negsuc 0

pub record Pair : Type 0 where
  pub in_use : Bool
  pub m2s : Rbuf
  pub s2m : Rbuf
  pub attached_vt : ℤ

pub record Ptys : Type 0 where
  pub pairs : List Pair
  pub vt_map : List ℤ

-- An `int` that is an index below `n`.
abbrev pub index : ℤ → ℕ → Option ℕ
index (pos i) n = if ltb i n then some i else none
index (negsuc i) n = none

-- `pty_vt_map_get`: -1 for no terminal.
pub vt_map_get : Ptys → ℤ → ℤ
vt_map_get s vt = elim (index vt num_vt) [ none ↦ detached | some i ↦ get_or s.vt_map i detached ]

abbrev pub opened : Pair → Pair
opened p = record {
  in_use = true;
  m2s = rbuf_init p.m2s.buf bufsz;
  s2m = rbuf_init p.s2m.buf bufsz;
  attached_vt = detached;
}

-- The first pair that is free, from index `i` on.
pub create_from : List Pair → ℕ → Option (ℕ × List Pair)
create_from [] i = none
create_from (p ∷ ps) i = elim p.in_use [
  | false ↦ some (i, opened p ∷ ps)
  | true ↦ elim (create_from ps (i + 1)) [ none ↦ none | some (j, qs) ↦ some (j, p ∷ qs) ]
]

pub create_pair : Ptys → ℤ × Ptys
create_pair s = elim (create_from s.pairs 0) [
  | none ↦ (detached, s)
  | some (i, ps) ↦ (pos i, record s { pairs = ps })
]

-- The index of an identifier whose pair is in use, with that pair.
pub live : Ptys → ℤ → Option (ℕ × Pair)
live s id = elim (index id pty_max) [
  | none ↦ none
  | some i ↦ elim (get_elem? s.pairs i) [
    | none ↦ none
    | some p ↦ if p.in_use then some (i, p) else none
  ]
]

abbrev pub store : Ptys → ℕ → Pair → Ptys
store s i p = record s { pairs = set s.pairs i p }

-- Reads return the count, the bytes and the new table; a count of -1 is a refusal.
pub master_read : Ptys → ℤ → ℕ → ℤ × List ℕ × Ptys
master_read s id len = elim (live s id) [
  | none ↦ (detached, [], s)
  | some (i, p) ↦
      let (out, r) = rbuf_read p.s2m len in
      (pos (length out), out, store s i (record p { s2m = r }))
]

pub master_write : Ptys → ℤ → List ℕ → ℤ × Ptys
master_write s id src = elim (live s id) [
  | none ↦ (detached, s)
  | some (i, p) ↦ let (n, r) = rbuf_write p.m2s src in (pos n, store s i (record p { m2s = r }))
]

pub slave_read : Ptys → ℤ → ℕ → ℤ × List ℕ × Ptys
slave_read s id len = elim (live s id) [
  | none ↦ (detached, [], s)
  | some (i, p) ↦
      let (out, r) = rbuf_read p.m2s len in
      (pos (length out), out, store s i (record p { m2s = r }))
]

pub slave_write : Ptys → ℤ → List ℕ → ℤ × Ptys
slave_write s id src = elim (live s id) [
  | none ↦ (detached, s)
  | some (i, p) ↦ let (n, r) = rbuf_write p.s2m src in (pos n, store s i (record p { s2m = r }))
]

pub slave_push_input : Ptys → ℤ → ℕ → Ptys
slave_push_input s id c = elim (live s id) [
  | none ↦ s
  | some (i, p) ↦ store s i (record p { m2s = (rbuf_write p.m2s (c ∷ [])).1 })
]

-- The loop that a detach runs over the map.
pub forget : ℤ → List ℤ → List ℤ
forget id [] = []
forget id (x ∷ xs) = (if eq_ℤ x id then detached else x) ∷ forget id xs

abbrev pub mapped : List ℤ → ℤ → ℤ → List ℤ
mapped m id (pos v) = if ltb v num_vt then set m v id else m
mapped m id (negsuc zero) = forget id m
mapped m id (negsuc (suc n)) = m

abbrev pub is_below_minus_one : ℤ → Bool
is_below_minus_one (negsuc (suc n)) = true
is_below_minus_one _ = false

pub attach_slave_to_vt : Ptys → ℤ → ℤ → ℤ × Ptys
attach_slave_to_vt s id vt = elim (live s id) [
  | none ↦ (detached, s)
  | some (i, p) ↦ if is_below_minus_one vt then (detached, s) else (
    pos 0,
    record {
      pairs = set s.pairs i (record p { attached_vt = vt });
      vt_map = mapped s.vt_map id vt;
    },
  )
]
