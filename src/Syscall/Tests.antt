-- ===== src/Syscall/Tests.antt =====
-- Runs of the calls on descriptors of kernel/userland/syscalls.cpp.
use hana_core.Prelude.{
  ℕ, ◌≡◌, List, [], ◌∷◌, refl, none, some, Option, true, Bool, arith, replicate,
}
use hana_core.Prelude.Int.{pos, negsuc, ◌+ℤ◌}
use hana_core.Prelude.Word.{minus_one}
use hana_core.Fd.{FdEntry, FdType, empty_entry, alloc_from, fdtable_alloc_fd, fdtable_get}
use hana_core.Syscall.{
  PipeObj, Files, Sys, at_fd, int_of, int64_of, text_at, write_at, grown, pipe_put, pipe_write,
  pipe_bytes, pipe_read, write_file_bytes, write_file_entry, write_pipe_entry, sys_write,
  read_file_entry, read_pipe_entry, sys_read,
}
use hana_core.Syscall.File.{IsOpen, Overwrote, sys_write-Overwrote}
use hana_core.Syscall.Pipe.{IsPipe, Wrote, DidRead, pipe_write-Wrote, pipe_read-DidRead}
use hana_core.Syscall.RoundTrip.{sys_write-sys_read}
use hana_core.Syscall.Descriptors.{seek_target, sys_lseek, sys_close, sys_open, sys_dup2}

-- One file, which is the state.
abbrev one_file : Files (Option (List ℕ))
one_file = record {
  get_file_alloc = λ f path. f;
  create_file = λ f path. some [];
  write_file = λ f path bytes. some bytes;
}

abbrev tty : FdEntry
tty = record empty_entry { type = FdType.fd_tty }

-- A file with three bytes, open behind the first.
abbrev file : FdEntry
file = record empty_entry {
  type = FdType.fd_file;
  path = some (b'f' ∷ []);
  buf = 1 ∷ 2 ∷ 3 ∷ [];
  has_buf = true;
  len = 3;
  pos = 1;
}

abbrev sys : Sys (Option (List ℕ))
sys = record {
  table = tty ∷ tty ∷ tty ∷ file ∷ empty_entry ∷ [];
  pipes = [];
  console = [];
  files = some (1 ∷ 2 ∷ 3 ∷ []);
}

abbrev yes : ℕ → Bool
yes n = true

write_test :
    sys_write yes sys 3 (8 ∷ 9 ∷ 10 ∷ []) 3
    ≡ (3, at_fd sys (pos 3) (record file { buf = 1 ∷ 8 ∷ 9 ∷ 10 ∷ []; len = 4; pos = 4 }))
unfolding sys_write write_file_entry write_file_bytes write_at grown write_pipe_entry text_at int_of
    fdtable_get
write_test = refl

-- A write to the terminal prints up to the NUL, whatever the count is.
console_test : (sys_write yes sys 1 (65 ∷ 66 ∷ 0 ∷ []) 1).1.console ≡ 65 ∷ 66 ∷ []
unfolding sys_write write_file_entry write_pipe_entry text_at int_of fdtable_get
console_test = refl

read_test : (sys_read sys 3 9).1 ≡ 2 ∷ 3 ∷ []
unfolding sys_read read_file_entry read_pipe_entry int_of fdtable_get
read_test = refl

lseek_test : (sys_lseek sys 3 0xffff_ffff_ffff_ffff 2).0 ≡ 2
unfolding sys_lseek seek_target ◌+ℤ◌ int_of int64_of fdtable_get
lseek_test = refl

before_start_test : (sys_lseek sys 3 0xffff_ffff_ffff_fff0 1).0 ≡ minus_one
unfolding sys_lseek seek_target ◌+ℤ◌ int_of int64_of fdtable_get
before_start_test = refl

close_test : (sys_close one_file (record sys { files = none }) 3).1.files ≡ some (1 ∷ 2 ∷ 3 ∷ [])
unfolding sys_close int_of fdtable_get
close_test = refl

open_test : (sys_open one_file yes sys (b'f' ∷ []) 0x400).0 ≡ 4
unfolding sys_open fdtable_alloc_fd alloc_from fdtable_get
open_test = refl

-- A target outside the table is a null pointer that the source writes through.
dup2_test : sys_dup2 sys 3 99 ≡ none
unfolding sys_dup2 int_of fdtable_get
dup2_test = refl

int_test : int_of 0xffff_fffe ≡ negsuc 1
unfolding int_of
int_test = refl

file-IsOpen : IsOpen file
file-IsOpen = record { sized = refl; inside = omega arith; small = omega arith }

found : fdtable_get sys.table (int_of 3) ≡ some file
unfolding fdtable_get int_of
found = refl

sys_write-Overwrote_example :
    (e' : FdEntry) × (sys_write yes sys 3 (8 ∷ 9 ∷ 10 ∷ []) 3 ≡ (3, at_fd sys (int_of 3) e'))
    × Overwrote file (8 ∷ 9 ∷ 10 ∷ []) e'
sys_write-Overwrote_example =
    sys_write-Overwrote yes sys 3 file (8 ∷ 9 ∷ 10 ∷ []) found refl file-IsOpen (omega arith) refl

sys_write-sys_read_example :
    let (n, s1) = sys_write yes sys 3 (8 ∷ 9 ∷ 10 ∷ []) 3 in
    let (p, s2) = sys_lseek s1 3 1 0 in
    let (k, out, s3) = sys_read s2 3 3 in (n ≡ 3) × (p ≡ 1) × (k ≡ 3) × (out ≡ 8 ∷ 9 ∷ 10 ∷ [])
sys_write-sys_read_example =
    sys_write-sys_read yes sys 3 file (8 ∷ 9 ∷ 10 ∷ []) found refl file-IsOpen (omega arith)
      (omega arith) refl

abbrev pipe : PipeObj
pipe = record { buf = replicate 4096 0; cap = 4096; rpos = 4095; wpos = 4095 }

pipe-IsPipe : IsPipe pipe
pipe-IsPipe = record { area = refl; cap_is = refl; read_in = omega arith; write_in = omega arith }

pipe_write-Wrote_example : Wrote pipe (1 ∷ 2 ∷ []) 0 (pipe_write pipe (1 ∷ 2 ∷ []) 0)
pipe_write-Wrote_example = pipe_write-Wrote (1 ∷ 2 ∷ []) pipe 0 pipe-IsPipe

abbrev two : PipeObj
two = (pipe_write pipe (1 ∷ 2 ∷ []) 0).1

pipe_read-DidRead_example : DidRead two 9 (pipe_read two 9)
pipe_read-DidRead_example = pipe_read-DidRead two 9 pipe_write-Wrote_example.valid

pipe_test : (pipe_read two 9).0 ≡ 1 ∷ 2 ∷ []
unfolding pipe_read pipe_bytes pipe_write pipe_put
pipe_test = refl

free : fdtable_alloc_fd sys.table ≡ pos 4
unfolding fdtable_alloc_fd alloc_from
free = refl

there : fdtable_get sys.table (pos 4) ≡ some empty_entry
unfolding fdtable_get
there = refl
