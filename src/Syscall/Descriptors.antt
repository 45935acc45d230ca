-- ===== src/Syscall/Descriptors.antt =====
-- kernel/userland/syscalls.cpp: the calls that open, close, move and copy descriptors. `none` is a
-- fault of the kernel: a null pointer that the source does not test.
use hana_core.Prelude.{
  ℕ, List, [], ◌∷◌, ◌++◌, ◌+◌, ◌-◌, ◌/◌, ◌%◌, ◌^◌, Option, none, some, ltb, length, set, take,
  replicate, Bool, true, false, not, ◌&&◌, ◌||◌, ◌==◌, if◌then◌else◌,
}
use hana_core.Prelude.Int.{eq_ℤ, ℤ, pos, negsuc}
use hana_core.Prelude.Word.{add64, minus_one}
use hana_core.Fd.{FdEntry, FdType, is_none, fdtable_alloc_fd, fdtable_get}
use hana_core.Syscall.{Sys, Files, int_of, int64_of, at_fd}

abbrev pub is_file : FdType → Bool
is_file FdType.fd_file = true
is_file _ = false

-- `flags & O_CREAT`, `O_TRUNC` and `O_APPEND`.
abbrev pub o_creat : ℕ → Bool
o_creat flags = flags / 0x40 % 2 == 1

abbrev pub o_trunc : ℕ → Bool
o_trunc flags = flags / 0x200 % 2 == 1

abbrev pub o_append : ℕ → Bool
o_append flags = flags / 0x400 % 2 == 1

-- The result of a call that returns an `int`.
abbrev pub result_of : ℤ → ℕ
result_of (pos n) = n
result_of (negsuc n) = 2 ^ 64 - n - 1

-- The sum of two `int64_t`. C leaves an overflow undefined; here it wraps as in the machine.
abbrev pub add_int64 : ℤ → ℤ → ℤ
add_int64 x y = int64_of (add64 (result_of x) (result_of y))

-- What SYS_LSEEK takes for the new position; another `whence` leaves 0.
unfoldable pub seek_target : FdEntry → ℤ → ℤ → ℤ
unfolding int64_of
seek_target e offset (pos whence) =
    if whence == 0
    then offset
    else if whence == 1
    then add_int64 (int64_of e.pos) offset
    else if whence == 2
    then add_int64 (int64_of e.len) offset
    else pos 0
seek_target e offset (negsuc n) = pos 0

abbrev pub closed : FdEntry → FdEntry
closed e = record e {
  type = FdType.fd_none;
  path = none;
  buf = [];
  has_buf = false;
  len = 0;
  pos = 0;
}

-- The entry of a file that was just opened: `bytes` are its contents, empty when it has none.
abbrev pub opened : FdEntry → Bool → List ℕ → List ℕ → ℕ → FdEntry
opened e copied path bytes flags =
    let keep = not (o_trunc flags) in
    let content = if keep then bytes else [] in
    record e {
      type = FdType.fd_file;
      path = if copied then some path else none;
      buf = content;
      has_buf = ltb 0 (length content);
      len = length content;
      pos = if o_append flags then length content else 0;
      flags = flags;
    }

abbrev pub bytes_of : Option (List ℕ) → List ℕ
bytes_of none = []
bytes_of (some bytes) = bytes

abbrev pub is_missing : Option (List ℕ) → Bool
is_missing none = true
is_missing (some bytes) = false

-- What SYS_DUP2 leaves of the target's entry before the copy.
abbrev pub cleared : FdEntry → FdEntry
cleared e = if is_none e.type then e else closed e

-- The copy of an entry: everything but its pipe.
abbrev pub copied_to : FdEntry → FdEntry → FdEntry
copied_to old new =
    let has_data = old.has_buf && ltb 0 old.len in
    record new {
      type = old.type;
      path = or_else old.path new.path;
      buf = if has_data then take old.len old.buf else new.buf;
      has_buf = old.has_buf && ltb 0 old.len || new.has_buf;
      len = if has_data then old.len else new.len;
      pos = old.pos;
      flags = old.flags;
    }
  where
    or_else : Option (List ℕ) → Option (List ℕ) → Option (List ℕ)
    or_else none q = q
    or_else (some path) q = some path

module _ {F : Type 0} where
  abbrev pub seek_to : Sys F → ℤ → FdEntry → ℤ → ℕ × Sys F
  seek_to s fd e (negsuc n) = (minus_one, s)
  seek_to s fd e (pos p) =
      let p' = if ltb e.len p then e.len else p in (p', at_fd s fd (record e { pos = p' }))

  unfoldable pub sys_lseek : Sys F → ℕ → ℕ → ℕ → ℕ × Sys F
  unfolding seek_target
  sys_lseek s a b c = elim (fdtable_get s.table (int_of a)) [
    | none ↦ (minus_one, s)
    | some e ↦
        if is_file e.type
        then seek_to s (int_of a) e (seek_target e (int64_of b) (int_of c))
        else (minus_one, s)
  ]

  abbrev pub save : Files F → F → FdType → Option (List ℕ) → List ℕ → F
  save f files FdType.fd_file (some path) bytes = f.write_file files path bytes
  save f files _ _ bytes = files

  unfoldable pub sys_close : Files F → Sys F → ℕ → ℕ × Sys F
  sys_close f s a = elim (fdtable_get s.table (int_of a)) [
    | none ↦ (minus_one, s)
    | some e ↦ (
      0,
      at_fd (record s { files = save f s.files e.type e.path (take e.len e.buf) }) (int_of a)
          (closed e),
    )
  ]

  abbrev pub open_at : (ℕ → Bool) → Sys F → ℤ → List ℕ → List ℕ → ℕ → ℕ × Sys F
  open_at alloc s (negsuc n) path bytes flags = (minus_one, s)
  open_at alloc s (pos fd) path bytes flags = elim (fdtable_get s.table (pos fd)) [
    | none ↦ (minus_one, s)
    | some e ↦ (fd, at_fd s (pos fd) (opened e (alloc (length path + 1)) path bytes flags))
  ]

  -- `path` is not null; `mode` is ignored. The file is looked up before it is created, so a file
  -- that the call creates opens empty.
  unfoldable pub sys_open : Files F → (ℕ → Bool) → Sys F → List ℕ → ℕ → ℕ × Sys F
  sys_open f alloc s path flags =
      let found = f.get_file_alloc s.files path in
      let s' =
        if is_missing found && o_creat flags
        then record s { files = f.create_file s.files path }
        else s in
      open_at alloc s' (fdtable_alloc_fd s'.table) path (bytes_of found) flags

  abbrev pub dup_to : Sys F → ℤ → FdEntry → Option FdEntry → Option (ℕ × Sys F)
  dup_to s newfd old none = none
  dup_to s newfd old (some new) =
      some (result_of newfd, at_fd s newfd (copied_to old (cleared new)))

  -- The two copies that the call allocates are made.
  unfoldable pub sys_dup2 : Sys F → ℕ → ℕ → Option (ℕ × Sys F)
  sys_dup2 s a b =
      if eq_ℤ (int_of a) (int_of b)
      then some (result_of (int_of b), s)
      else elim (fdtable_get s.table (int_of a)) [
        | none ↦ some (minus_one, s)
        | some old ↦
            if is_none old.type
            then some (minus_one, s)
            else dup_to s (int_of b) old (fdtable_get s.table (int_of b))
      ]

  -- A pipe's descriptors are allocated one after the other with no entry taken in between. The pipe's
  -- memory is given.
  abbrev pub pipe_at : Sys F → ℤ → ℤ → Option (ℕ × List ℤ × Sys F)
  pipe_at s (pos rd) (pos wr) = elim (fdtable_get s.table (pos rd)) [
    | none ↦ none
    | some re ↦
        let k = length s.pipes in
        let s1 = record s {
          table = set s.table rd (record re { type = FdType.fd_pipe_read; pipe_obj = some k });
          pipes =
              s.pipes ++ (record { buf = replicate 4096 0; cap = 4096; rpos = 0; wpos = 0 } ∷ []);
        } in
        elim (fdtable_get s1.table (pos wr)) [
          | none ↦ none
          | some we ↦ some (
            0,
            pos rd ∷ pos wr ∷ [],
            record s1 {
              table =
                  set s1.table wr (record we { type = FdType.fd_pipe_write; pipe_obj = some k });
            },
          )
        ]
  ]
  pipe_at s _ _ = some (minus_one, [], s)

  -- The result, what is stored at the caller's `int fds[2]`, and the new state.
  unfoldable pub sys_pipe : Sys F → Option (ℕ × List ℤ × Sys F)
  sys_pipe s = pipe_at s (fdtable_alloc_fd s.table) (fdtable_alloc_fd s.table)
