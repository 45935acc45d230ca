-- ===== src/Storage/Reopen.antt =====
-- A file that is closed and opened again.
use hana_core.Prelude.{
  ℕ, List, [], ◌∷◌, ◌+◌, ◌≡◌, ◌<◌, refl, sym, ap, ◌∙◌, Option, none, some, Bool, true, false,
  length, take, not, if◌then◌else◌, arith,
}
use hana_core.Prelude.Int.{ℤ, pos, negsuc}
use hana_core.Hanafs.Image.{Ata, Hana}
use hana_core.Hanafs.Files.{hanafs_write_file, hanafs_get_file_alloc}
use hana_core.Hanafs.Files.Change.{hanafs_write_file-hanafs_get_file_alloc}
use hana_core.Vfs.{MountEntry, Backends, vfs_get_file_alloc, find_mount, first_of}
use hana_core.Fd.{FdEntry, FdType, fdtable_get, fdtable_alloc_fd}
use hana_core.Syscall.{Sys, int_of, at_fd}
use hana_core.Syscall.Descriptors.{sys_close, sys_open, closed, opened, save, o_trunc}
use hana_core.Syscall.RoundTrip.{get-at_fd}
use hana_core.Fd.Table.{fdtable_get-fdtable_alloc_fd}
use hana_core.Hanafs.Image.Codec.{take-whole}
use mathlib.Core.Path.{ap₂}
use hana_core.Storage.{file_calls}

module _ {D : Type 0} (ata : Ata D) (alloc : ℕ → Bool) (others : Backends (Hana D))
    (mounts : List MountEntry) (memory : (n : ℕ) → alloc n ≡ true) where
  -- A path that no mount covers is looked up in HanaFS first.
  get_unmounted :
      (h : Hana D) (path bytes : List ℕ)
      → find_mount mounts path ≡ none
      → 0 < length bytes
      → hanafs_get_file_alloc ata alloc h path ≡ some bytes
      → (file_calls ata alloc others mounts).get_file_alloc h path ≡ some bytes
  unfolding file_calls vfs_get_file_alloc first_of
  get_unmounted h path [] none_covers some_bytes found = absurd (omega arith)
  get_unmounted h path (c ∷ cs) none_covers some_bytes found =
      rw (none_covers, vfs_get_file_alloc) (rw (found, first_of) refl)

  close_saves :
      (s : Sys (Hana D)) (a : ℕ) (e : FdEntry) (path : List ℕ)
      → fdtable_get s.table (int_of a) ≡ some e
      → e.type ≡ FdType.fd_file
      → e.path ≡ some path
      → sys_close (file_calls ata alloc others mounts) s a ≡ (
        0,
        at_fd
            (record s { files = (hanafs_write_file ata alloc s.files path (take e.len e.buf)).1 })
            (int_of a)
            (closed e),
      )
  unfolding sys_close file_calls
  close_saves s a e path found file named =
      let to = λ (files : Hana D). at_fd (record s { files = files }) (int_of a) (closed e) in
      rw (found, sys_close)
        (ap₂
          (λ (t : FdType) (p : Option (List ℕ)).
            let r : ℕ × Sys (Hana D) =
              (0, to (save (file_calls ata alloc others mounts) s.files t p (take e.len e.buf))) in
            r)
          {v = some path} file named)

  open_finds :
      (s : Sys (Hana D)) (path bytes : List ℕ) (flags fd : ℕ) (e : FdEntry)
      → (file_calls ata alloc others mounts).get_file_alloc s.files path ≡ some bytes
      → fdtable_alloc_fd s.table ≡ pos fd
      → fdtable_get s.table (pos fd) ≡ some e
      → sys_open (file_calls ata alloc others mounts) alloc s path flags
        ≡ (fd, at_fd s (pos fd) (opened e true path bytes flags))
  unfolding sys_open fdtable_get
  open_finds s path bytes flags fd e found free there =
      rw (found, sys_open)
        (rw free (
          rw there (
            ap
              (λ (b : Bool).
                let r : ℕ × Sys (Hana D) = (fd, at_fd s (pos fd) (opened e b path bytes flags)) in
                r)
              (memory (length path + 1)))))

  at_fd_files : (s : Sys (Hana D)) (i : ℤ) (e : FdEntry) → (at_fd s i e).files ≡ s.files
  at_fd_files s (pos n) e = refl
  at_fd_files s (negsuc n) e = refl

  at_fd_table :
      (s : Sys (Hana D)) (h : Hana D) (i : ℤ) (e : FdEntry)
      → (at_fd (record s { files = h }) i e).table ≡ (at_fd s i e).table
  at_fd_table s h (pos n) e = refl
  at_fd_table s h (negsuc n) e = refl

  -- SYS_CLOSE of an open file that is not empty, and SYS_OPEN of its path, which no mount covers,
  -- without O_TRUNC, where memory is there and a descriptor is free after the close: the close returns
  -- 0, the open returns the free descriptor, and behind that is a file with the same path and bytes.
  pub sys_close-sys_open :
      (s : Sys (Hana D)) (a flags fd : ℕ) (e : FdEntry) (path : List ℕ)
      → fdtable_get s.table (int_of a) ≡ some e
      → e.type ≡ FdType.fd_file
      → e.path ≡ some path
      → e.len ≡ length e.buf
      → 0 < e.len
      → find_mount mounts path ≡ none
      → o_trunc flags ≡ false
      → fdtable_alloc_fd (at_fd s (int_of a) (closed e)).table ≡ pos fd
      → let f = file_calls ata alloc others mounts in
        let (closed_with, s') = sys_close f s a in
        let (opened_as, s'') = sys_open f alloc s' path flags in
        (closed_with ≡ 0)
        × (opened_as ≡ fd)
        × ((new : FdEntry) × (fdtable_get s''.table (pos fd) ≡ some new)
            × (new.type ≡ FdType.fd_file)
            × (new.path ≡ some path)
            × (new.buf ≡ e.buf)
            × (new.len ≡ e.len))
  sys_close-sys_open s a flags fd e path found file named sized some_bytes unmounted no_trunc free =
      let h = (hanafs_write_file ata alloc s.files path (take e.len e.buf)).1 in
      let s' = at_fd (record s { files = h }) (int_of a) (closed e) in
      let table = at_fd_table s h (int_of a) (closed e) in
      let (old, there) =
        fdtable_get-fdtable_alloc_fd s'.table fd
          (ap (λ (t : List FdEntry). fdtable_alloc_fd t) table ∙ free) in
      let whole : take e.len e.buf ≡ e.buf =
        ap (λ (n : ℕ). take n e.buf) sized ∙ take-whole e.buf in
      rw (close_saves s a e path found file named) (
        rw
          (open_finds s' path e.buf flags fd old
            (ap (λ (x : Hana D). (file_calls ata alloc others mounts).get_file_alloc x path)
                (at_fd_files (record s { files = h }) (int_of a) (closed e))
              ∙ get_unmounted h path e.buf unmounted (omega (arith, sized)) (
                  ap
                    (λ (b : List ℕ).
                      hanafs_get_file_alloc ata alloc (hanafs_write_file ata alloc s.files path b).1
                        path)
                    whole
                  ∙ (hanafs_write_file-hanafs_get_file_alloc ata alloc s.files path e.buf
                      memory).1))
            (ap (λ (t : List FdEntry). fdtable_alloc_fd t) table ∙ free) there)
          (
            refl,
            refl,
            (
              opened old true path e.buf flags,
              get-at_fd s' (pos fd) old (opened old true path e.buf flags) there,
              refl,
              refl,
              kept,
              ap length kept ∙ sym sized,
            ),
          ))
    where
      kept : (if not (o_trunc flags) then e.buf else []) ≡ e.buf
      kept = rw no_trunc refl
