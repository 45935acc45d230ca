-- ===== src/Syscall/PipeCall.antt =====
-- What SYS_PIPE gives its caller.
use hana_core.Prelude.{replicate, ◌++◌, ℕ, [], ◌∷◌, ◌≡◌, refl, ◌∙◌, some, set, length}
use hana_core.Prelude.Int.{pos}
use hana_core.Fd.{FdEntry, FdType, fdtable_get, fdtable_alloc_fd}
use hana_core.Syscall.{Sys}
use hana_core.Syscall.Descriptors.{sys_pipe, pipe_at}
use hana_core.Syscall.RoundTrip.{set_stored}
use mathlib.Core.Path.{ap₂}

-- Whenever a descriptor is free, SYS_PIPE succeeds with one descriptor for both ends, and the entry
-- behind it is the writing end: reading from what the caller takes for the reading end fails.
pub sys_pipe_one_end :
    {F : Type 0} (s : Sys F) (fd : ℕ) (e : FdEntry)
    → fdtable_alloc_fd s.table ≡ pos fd
    → fdtable_get s.table (pos fd) ≡ some e
    → (s' : Sys F) × (w : FdEntry) × (sys_pipe s ≡ some (0, pos fd ∷ pos fd ∷ [], s'))
      × (fdtable_get s'.table (pos fd) ≡ some w)
      × (w.type ≡ FdType.fd_pipe_write)
unfolding sys_pipe fdtable_get
sys_pipe_one_end {F} s fd e free found = (
  s2,
  we,
  ap₂ (pipe_at s) free free ∙ rw (found, pipe_at) (rw (at_reader, pipe_at)),
  set_stored s1.table fd re we at_reader,
  refl,
)
  where
    k : ℕ
    k = length s.pipes

    re : FdEntry
    re = record e { type = FdType.fd_pipe_read; pipe_obj = some k }

    we : FdEntry
    we = record re { type = FdType.fd_pipe_write; pipe_obj = some k }

    s1 : Sys F
    s1 = record s {
      table = set s.table fd re;
      pipes = s.pipes ++ (record { buf = replicate 4096 0; cap = 4096; rpos = 0; wpos = 0 } ∷ []);
    }

    s2 : Sys F
    s2 = record s1 { table = set s1.table fd we }

    at_reader : fdtable_get s1.table (pos fd) ≡ some re
    at_reader = set_stored s.table fd e re found
