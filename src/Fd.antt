-- ===== src/Fd.antt =====
-- kernel/userland/fdtable.cpp: a task's table of open files. An entry's `path` and `buf` are what
-- its pointers lead to; `pipe_obj` is the number of a pipe.
pub mod Table
mod Tests
use hana_core.Prelude.{
  ℕ, zero, suc, List, [], ◌∷◌, ◌+◌, ◌*◌, Option, none, some, ltb, leb, get_elem?, replicate, Bool,
  true, false, if◌then◌else◌,
}
use hana_core.Prelude.Int.{ℤ, pos, negsuc}
use hana_core.Prelude.Word.{mul64}
use hana_core.Mem.Interface.{Memory}

pub data FdType : Type 0 where
  fd_none fd_file fd_tty fd_pipe_read fd_pipe_write : FdType

pub record FdEntry : Type 0 where
  pub type : FdType
  pub path : Option (List ℕ)
  pub buf : List ℕ
  pub has_buf : Bool
  pub len : ℕ
  pub pos : ℕ
  pub flags : ℕ
  pub pipe_obj : Option ℕ

abbrev pub empty_entry : FdEntry
empty_entry = record {
  type = fd_none;
  path = none;
  buf = [];
  has_buf = false;
  len = 0;
  pos = 0;
  flags = 0;
  pipe_obj = none;
}

abbrev pub is_none : FdType → Bool
is_none fd_none = true
is_none _ = false

-- `sizeof(struct FDEntry)`.
abbrev pub entry_size : ℕ
entry_size = 56

module _ (m : Memory) where
  open m use {State, alloc}

  -- The table, with the address of its memory.
  unfoldable pub fdtable_create : State → ℕ → Option (ℕ × List FdEntry) × State
  fdtable_create h count =
      if leb count 0
      then (none, h)
      else (let (p, h') = alloc h (mul64 entry_size count) in (filled p, h'))
    where
      filled : Option ℕ → Option (ℕ × List FdEntry)
      filled none = none
      filled (some a) = some (a, replicate count empty_entry)

-- The loop of `fdtable_alloc_fd` from descriptor `i` on.
unfoldable pub alloc_from : List FdEntry → ℕ → ℤ
alloc_from [] i = negsuc 0
alloc_from (e ∷ es) i =
    if leb 3 i
    then (if is_none e.type then pos i else alloc_from es (i + 1))
    else alloc_from es (i + 1)

-- A table has its `count` entries, so the list's end is the loop's.
unfoldable pub fdtable_alloc_fd : List FdEntry → ℤ
unfolding alloc_from
fdtable_alloc_fd table = alloc_from table 0

unfoldable pub fdtable_get : List FdEntry → ℤ → Option FdEntry
fdtable_get table (pos fd) = get_elem? table fd
fdtable_get table (negsuc n) = none
