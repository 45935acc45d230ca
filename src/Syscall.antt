-- ===== src/Syscall.antt =====
-- kernel/userland/syscalls.cpp: the calls on file descriptors. A call returns the 64-bit result
-- and the new state. User memory at a pointer is the list of bytes from there on. `alloc n` says
-- whether an allocation of `n` bytes succeeds during the call.
pub mod File
pub mod Pipe
pub mod RoundTrip
pub mod PipeCall
pub mod Descriptors
mod Tests
use hana_core.Prelude.{
  ℕ, zero, suc, List, [], ◌∷◌, ◌++◌, ◌+◌, ◌-◌, ◌*◌, ◌/◌, ◌%◌, ◌^◌, Option, none, some, ltb, leb,
  get_elem?, get_or, set, take, drop, length, replicate, min, Bool, true, false, not, ◌&&◌, ◌==◌,
  if◌then◌else◌,
}
use hana_core.Prelude.Int.{ℤ, pos, negsuc, ◌+ℤ◌}
use hana_core.Prelude.Word.{add64, minus_one}
use hana_core.Fd.{FdEntry, FdType, empty_entry, is_none, fdtable_alloc_fd, fdtable_get}

pub record PipeObj : Type 0 where
  pub buf : List ℕ
  pub cap : ℕ
  pub rpos : ℕ
  pub wpos : ℕ

-- What the calls use of the file system whose state is an `F`.
pub record Files (F : Type 0) : Type 0 where
  pub get_file_alloc : F → List ℕ → Option (List ℕ)
  pub create_file : F → List ℕ → F
  pub write_file : F → List ℕ → List ℕ → F

-- The current task's table, the pipes, the text written to the terminal, and the files.
pub record Sys (F : Type 0) : Type 0 where
  pub table : List FdEntry
  pub pipes : List PipeObj
  pub console : List ℕ
  pub files : F

-- `(int)a` of a 64-bit argument.
unfoldable pub int_of : ℕ → ℤ
int_of a = let w = a % 2 ^ 32 in if ltb w (2 ^ 31) then pos w else negsuc (2 ^ 32 - w - 1)

-- `(int64_t)a`.
unfoldable pub int64_of : ℕ → ℤ
int64_of a = if ltb a (2 ^ 63) then pos a else negsuc (2 ^ 64 - a - 1)

-- The text at a pointer, up to its NUL.
unfoldable pub text_at : List ℕ → List ℕ
text_at [] = []
text_at (c ∷ cs) = elim (c == 0) [ true ↦ [] | false ↦ c ∷ text_at cs ]

-- `for (i < count) buf[pos + i] = src[i]`.
unfoldable pub write_at : List ℕ → ℕ → List ℕ → List ℕ
write_at buf p [] = buf
write_at buf p (c ∷ cs) = write_at (set buf p c) (p + 1) cs

-- A file's buffer with zeros up to the length `n`.
unfoldable pub grown : List ℕ → ℕ → ℕ → List ℕ
grown buf len n = take len buf ++ replicate (n - len) 0

unfoldable pub pipe_put : PipeObj → ℕ → PipeObj
pipe_put p c = record p { buf = set p.buf p.wpos c; wpos = (p.wpos + 1) % p.cap }

unfoldable pub pipe_write : PipeObj → List ℕ → ℕ → ℕ × PipeObj
pipe_write p [] written = (written, p)
pipe_write p (c ∷ cs) written = elim ((p.wpos + 1) % p.cap == p.rpos) [
  | true ↦ (written, p)
  | false ↦ pipe_write (pipe_put p c) cs (written + 1)
]

-- `toread` bytes from `rpos` on.
unfoldable pub pipe_bytes : PipeObj → ℕ → ℕ → List ℕ
pipe_bytes p i zero = []
pipe_bytes p i (suc n) = get_or p.buf ((p.rpos + i) % p.cap) 0 ∷ pipe_bytes p (i + 1) n

unfoldable pub pipe_read : PipeObj → ℕ → List ℕ × PipeObj
unfolding pipe_bytes
pipe_read p count =
    let toread = min ((p.wpos + p.cap - p.rpos) % p.cap) count in
    (pipe_bytes p 0 toread, record p { rpos = (p.rpos + toread) % p.cap })

module _ {F : Type 0} where
  abbrev pub at_fd : Sys F → ℤ → FdEntry → Sys F
  at_fd s (pos fd) e = record s { table = set s.table fd e }
  at_fd s (negsuc n) e = s

  abbrev pub with_pipe : Sys F → ℕ → PipeObj → Sys F
  with_pipe s k p = record s { pipes = set s.pipes k p }

  -- SYS_WRITE to a file, once its buffer holds `needed` bytes.
  unfoldable pub write_file_bytes : Sys F → ℤ → FdEntry → List ℕ → ℕ → ℕ × Sys F
  unfolding write_at
  write_file_bytes s fd e src count = (
    count,
    at_fd s fd (record e { buf = write_at e.buf e.pos (take count src); pos = add64 e.pos count }),
  )

  unfoldable pub write_file_entry : (ℕ → Bool) → Sys F → ℤ → FdEntry → List ℕ → ℕ → ℕ × Sys F
  unfolding write_file_bytes grown
  write_file_entry alloc s fd e src count =
      let needed = add64 e.pos count in
      if ltb e.len needed
      then (if alloc needed
          then write_file_bytes s fd
              (record e { buf = grown e.buf e.len needed; has_buf = true; len = needed }) src count
          else (minus_one, s))
      else write_file_bytes s fd e src count

  unfoldable pub write_pipe_entry : Sys F → Option ℕ → List ℕ → ℕ → ℕ × Sys F
  unfolding pipe_write
  write_pipe_entry s none src count = (minus_one, s)
  write_pipe_entry s (some k) src count = elim (get_elem? s.pipes k) [
    | none ↦ (minus_one, s)
    | some p ↦ let (n, p') = pipe_write p (take count src) 0 in (n, with_pipe s k p')
  ]

  abbrev pub write_entry : (ℕ → Bool) → Sys F → ℤ → FdEntry → FdType → List ℕ → ℕ → ℕ × Sys F
  write_entry alloc s fd e FdType.fd_tty src count =
      (count, record s { console = s.console ++ text_at src })
  write_entry alloc s fd e FdType.fd_pipe_write src count = write_pipe_entry s e.pipe_obj src count
  write_entry alloc s fd e FdType.fd_file src count = write_file_entry alloc s fd e src count
  write_entry alloc s fd e FdType.fd_none src count = (minus_one, s)
  write_entry alloc s fd e FdType.fd_pipe_read src count = (minus_one, s)

  unfoldable pub sys_write : (ℕ → Bool) → Sys F → ℕ → List ℕ → ℕ → ℕ × Sys F
  unfolding write_file_entry write_pipe_entry text_at
  sys_write alloc s a src count = elim (fdtable_get s.table (int_of a)) [
    | none ↦ (minus_one, s)
    | some e ↦ write_entry alloc s (int_of a) e e.type src count
  ]

  -- The bytes that SYS_READ copies out, after its result.
  unfoldable pub read_file_entry : Sys F → ℤ → FdEntry → ℕ → ℕ × List ℕ × Sys F
  read_file_entry s fd e count =
      let avail = if ltb e.pos e.len then e.len - e.pos else 0 in
      let tocopy = if ltb avail count then avail else count in
      (tocopy, take tocopy (drop e.pos e.buf), at_fd s fd (record e { pos = add64 e.pos tocopy }))

  unfoldable pub read_pipe_entry : Sys F → Option ℕ → ℕ → ℕ × List ℕ × Sys F
  unfolding pipe_read
  read_pipe_entry s none count = (minus_one, [], s)
  read_pipe_entry s (some k) count = elim (get_elem? s.pipes k) [
    | none ↦ (minus_one, [], s)
    | some p ↦ let (out, p') = pipe_read p count in (length out, out, with_pipe s k p')
  ]

  abbrev pub read_entry : Sys F → ℤ → FdEntry → FdType → ℕ → ℕ × List ℕ × Sys F
  read_entry s fd e FdType.fd_file count = read_file_entry s fd e count
  read_entry s fd e FdType.fd_pipe_read count = read_pipe_entry s e.pipe_obj count
  read_entry s fd e FdType.fd_none count = (minus_one, [], s)
  read_entry s fd e FdType.fd_tty count = (minus_one, [], s)
  read_entry s fd e FdType.fd_pipe_write count = (minus_one, [], s)

  unfoldable pub sys_read : Sys F → ℕ → ℕ → ℕ × List ℕ × Sys F
  unfolding read_file_entry read_pipe_entry
  sys_read s a count = elim (fdtable_get s.table (int_of a)) [
    | none ↦ (minus_one, [], s)
    | some e ↦ read_entry s (int_of a) e e.type count
  ]
