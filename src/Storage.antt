-- ===== src/Storage.antt =====
-- The file systems put together: the calls of kernel/userland/syscalls.cpp on paths and open files
-- go to HanaFS (kernel/filesystem/hanafs.cpp), by way of kernel/filesystem/ramfs.cpp and
-- kernel/filesystem/vfs.cpp. The other file systems are a record that the model takes.
pub mod Reopen
pub mod Lost
mod Tests
use hana_core.Prelude.{ℕ, List, [], ◌≡◌, Option, none, some, Bool, true, false, ◌==◌, if◌then◌else◌}
use hana_core.Prelude.Int.{ℤ, pos, negsuc}
use hana_core.Prelude.Word.{minus_one}
use hana_core.Hanafs.Image.{Ata, Hana}
use hana_core.Hanafs.Entries.{HanaStat}
use hana_core.Hanafs.Files.{
  hanafs_list_dir, hanafs_remove_dir, hanafs_create_file, hanafs_unlink, hanafs_make_dir,
  hanafs_write_file, hanafs_get_file_alloc, hanafs_stat,
}
use hana_core.Vfs.{MountEntry, Backends, vfs_get_file_alloc}
use hana_core.Fd.{FdEntry, FdType, fdtable_get}
use hana_core.Syscall.{Files, Sys, int_of}

-- 0 for a result of 0, and -1 for any other.
abbrev pub zero_or_minus_one : ℤ → ℕ
zero_or_minus_one (pos n) = if n == 0 then 0 else minus_one
zero_or_minus_one (negsuc n) = minus_one

module _ {D : Type 0} (ata : Ata D) (alloc : ℕ → Bool) where
  -- The RAM file system is HanaFS under another name.
  unfoldable pub backends : Backends (Hana D) → Backends (Hana D)
  backends others = record others {
    ramfs_list_dir = λ h path. let (r, names) = hanafs_list_dir ata alloc h path in (r, names, h);
    ramfs_remove_dir = hanafs_remove_dir ata alloc;
    ramfs_create_file = hanafs_create_file ata alloc;
    ramfs_unlink = hanafs_unlink ata alloc;
    ramfs_make_dir = hanafs_make_dir ata alloc;
    ramfs_write_file = hanafs_write_file ata alloc;
    ramfs_get_file_alloc = λ h path. (hanafs_get_file_alloc ata alloc h path, h);
  }

  -- What the calls on descriptors use: reading goes by the mounts, creating and writing do not.
  unfoldable pub file_calls : Backends (Hana D) → List MountEntry → Files (Hana D)
  unfolding backends
  file_calls others mounts = record {
    get_file_alloc = λ h path. (vfs_get_file_alloc (backends others) mounts h path).0;
    create_file = λ h path. (hanafs_create_file ata alloc h path).1;
    write_file = λ h path bytes. (hanafs_write_file ata alloc h path bytes).1;
  }

  abbrev pub on_path :
      (Hana D → List ℕ → ℤ × Hana D) → Sys (Hana D) → Option (List ℕ) → ℕ × Sys (Hana D)
  on_path f s none = (minus_one, s)
  on_path f s (some path) =
      let (r, h) = f s.files path in (zero_or_minus_one r, record s { files = h })

  -- A path of `none` is a null pointer.
  unfoldable pub sys_mkdir : Sys (Hana D) → Option (List ℕ) → ℕ × Sys (Hana D)
  sys_mkdir s path = on_path (hanafs_make_dir ata alloc) s path

  unfoldable pub sys_rmdir : Sys (Hana D) → Option (List ℕ) → ℕ × Sys (Hana D)
  sys_rmdir s path = on_path (hanafs_remove_dir ata alloc) s path

  unfoldable pub sys_unlink : Sys (Hana D) → Option (List ℕ) → ℕ × Sys (Hana D)
  sys_unlink s path = on_path (hanafs_unlink ata alloc) s path

  -- The result, and what is stored at the caller's `struct hana_stat`, which is not null.
  abbrev pub stat_result : Option HanaStat → ℕ × Option HanaStat
  stat_result none = (minus_one, none)
  stat_result (some st) = (0, some st)

  unfoldable pub sys_stat : Sys (Hana D) → Option (List ℕ) → ℕ × Option HanaStat
  sys_stat s none = (minus_one, none)
  sys_stat s (some path) = stat_result (hanafs_stat ata alloc s.files path)

  abbrev pub stat_entry : Sys (Hana D) → FdEntry → FdType → Option (List ℕ) → ℕ × Option HanaStat
  stat_entry s e FdType.fd_file (some path) = stat_result (hanafs_stat ata alloc s.files path)
  stat_entry s e FdType.fd_tty path = (0, some (record { st_size = e.len; st_mode = 0x2000 }))
  stat_entry s e _ path = (0, some (record { st_size = e.len; st_mode = 0 }))

  unfoldable pub sys_fstat : Sys (Hana D) → ℕ → ℕ × Option HanaStat
  sys_fstat s a = elim (fdtable_get s.table (int_of a)) [
    | none ↦ (minus_one, none)
    | some e ↦ stat_entry s e e.type e.path
  ]
