-- ===== src/Fd/Tests.antt =====
-- Runs of kernel/userland/fdtable.cpp.
use hana_core.Prelude.{ℕ, ◌≡◌, List, [], ◌∷◌, refl, none, some}
use hana_core.Prelude.Int.{pos, negsuc}
use hana_core.Mem.Interface.{Memory}
use hana_core.Fd.{
  FdEntry, FdType, empty_entry, fdtable_create, alloc_from, fdtable_alloc_fd, fdtable_get,
}
use hana_core.Fd.Table.{Found, fdtable_alloc_fd-Found}

abbrev tty : FdEntry
tty = record empty_entry { type = FdType.fd_tty }

abbrev table : List FdEntry
table = tty ∷ tty ∷ tty ∷ tty ∷ empty_entry ∷ []

-- A memory that counts bytes upwards.
abbrev counter : Memory
counter = record { State = ℕ; init = λ s n. s; alloc = λ s n. (some s, s) }

alloc_test : fdtable_alloc_fd table ≡ pos 4
unfolding fdtable_alloc_fd alloc_from
alloc_test = refl

get_test : fdtable_get table (negsuc 0) ≡ none
unfolding fdtable_get
get_test = refl

create_test : (fdtable_create counter 64 2).0 ≡ some (64, empty_entry ∷ empty_entry ∷ [])
unfolding fdtable_create
create_test = refl

none_test : (fdtable_create counter 64 0).0 ≡ none
unfolding fdtable_create
none_test = refl

fdtable_alloc_fd-Found_example : Found 3 (tty ∷ empty_entry ∷ []) (fdtable_alloc_fd table)
fdtable_alloc_fd-Found_example = fdtable_alloc_fd-Found tty tty tty (tty ∷ empty_entry ∷ [])
