-- ===== src/Storage/Tests.antt =====
-- Opening, closing and asking for files on a disk that is never written.
use hana_core.Prelude.{
  get_or, ap, ◌≢◌, ℕ, List, [], ◌∷◌, ◌≡◌, refl, Option, none, some, Bool, true, false, set,
  replicate, arith,
}
use hana_core.Prelude.Int.{ℤ, pos, negsuc}
use hana_core.Prelude.Word.{minus_one}
use hana_core.Hanafs.Image.{hanafs_persist_to_ata, Ata, Hana, root_entry}
use hana_core.Hanafs.Files.{hanafs_get_file_alloc, ok, hanafs_make_dir, hanafs_stat, hanafs_unlink}
use hana_core.Vfs.{is_under, vfs_write_file, hanafs, find_mount, Backends}
use hana_core.Fd.{fdtable_alloc_fd, FdEntry, FdType, empty_entry, fdtable_get}
use hana_core.Syscall.{Sys, int_of}
use hana_core.Syscall.Descriptors.{sys_close, sys_open}
use hana_core.Storage.{
  vfs_get_file_alloc, backends, MountEntry, file_calls, sys_mkdir, sys_rmdir, sys_unlink, sys_stat,
}
use hana_core.Storage.Reopen.{sys_close-sys_open}
use hana_core.Prelude.Text.{behind, eq_text}
use hana_core.Hanafs.Path.{resolve}
use hana_core.Storage.Lost.{vfs_write_file-vfs_get_file_alloc_lost}

abbrev no_disk : Ata (Unit {0})
no_disk = record { read_sector = λ d n. none; write_sector = λ d n bytes. (false, d) }

abbrev Fs : Type 0
Fs = Hana (Unit {0})

abbrev none_lists : Fs → List ℕ → ℤ × List (List ℕ) × Fs
none_lists h path = (negsuc 0, [], h)

abbrev none_changes : Fs → List ℕ → ℤ × Fs
none_changes h path = (negsuc 0, h)

abbrev none_has : Fs → List ℕ → Option (List ℕ) × Fs
none_has h path = (none, h)

abbrev no_others : Backends Fs
no_others = record {
  ramfs_list_dir = none_lists;
  fat32_list_dir = none_lists;
  procfs_list_dir = none_lists;
  devfs_list_dir = none_lists;
  floppy_list_dir = none_lists;
  ramfs_remove_dir = none_changes;
  ramfs_create_file = none_changes;
  fat32_create_file = none_changes;
  ramfs_unlink = none_changes;
  fat32_unlink = none_changes;
  ramfs_make_dir = none_changes;
  fat32_make_dir = none_changes;
  ramfs_write_file = λ h path bytes. (negsuc 0, h);
  fat32_write_file = λ h path bytes. (negsuc 0, h);
  ramfs_get_file_alloc = none_has;
  fat32_get_file_alloc = none_has;
  procfs_get_file_alloc = none_has;
  devfs_get_file_alloc = none_has;
}

abbrev plenty : ℕ → Bool
plenty n = true

-- "/f".
abbrev path_f : List ℕ
path_f = b'/' ∷ b'f' ∷ []

abbrev file_f : FdEntry
file_f = record empty_entry {
  type = FdType.fd_file;
  path = some path_f;
  buf = 5 ∷ 6 ∷ 7 ∷ [];
  has_buf = true;
  len = 3;
}

abbrev one_open : Sys Fs
one_open = record {
  table = set (replicate 6 empty_entry) 3 file_f;
  pipes = [];
  console = [];
  files = record {
    entries = root_entry ∷ [];
    loaded_from_ata = false;
    persist_enabled = true;
    disk = tt;
  };
}

sys_close-sys_open_example :
    let f = file_calls no_disk plenty no_others [] in
    let (closed_with, s') = sys_close f one_open 3 in
    let (opened_as, s'') = sys_open f plenty s' path_f 0 in
    (closed_with ≡ 0)
    × (opened_as ≡ 3)
    × ((new : FdEntry) × (fdtable_get s''.table (pos 3) ≡ some new)
        × (new.type ≡ FdType.fd_file)
        × (new.path ≡ some path_f)
        × (new.buf ≡ 5 ∷ 6 ∷ 7 ∷ [])
        × (new.len ≡ 3))
sys_close-sys_open_example =
    sys_close-sys_open no_disk plenty no_others [] (λ n. refl) one_open 3 0 3 file_f path_f
      (unfold fdtable_get int_of in refl) refl refl refl (omega arith) (unfold find_mount in refl)
      refl (unfold fdtable_alloc_fd int_of in refl)

-- "/m".
abbrev mounted : MountEntry
mounted = record { fsname = hanafs; mountpoint = b'/' ∷ b'm' ∷ [] }

-- "/m/f".
abbrev path_m_f : List ℕ
path_m_f = b'/' ∷ b'm' ∷ b'/' ∷ b'f' ∷ []

m_f_apart : (resolve path_m_f).ipath ≢ (resolve path_f).ipath
unfolding resolve
m_f_apart same = omega (arith, ap (λ (l : List ℕ). get_or l 1 0) same)

-- The bytes are in HanaFS, and reading them by way of the mount finds no file.
vfs_write_file-vfs_get_file_alloc_lost_example :
    let files = backends no_disk plenty no_others in
    let (r, h') = vfs_write_file files (mounted ∷ []) one_open.files path_m_f (1 ∷ []) in
    (r ≡ ok)
    × (hanafs_get_file_alloc no_disk plenty h' path_m_f ≡ some (1 ∷ []))
    × ((vfs_get_file_alloc files (mounted ∷ []) h' path_m_f).0
        ≡ (vfs_get_file_alloc files (mounted ∷ []) one_open.files path_m_f).0)
vfs_write_file-vfs_get_file_alloc_lost_example =
    vfs_write_file-vfs_get_file_alloc_lost no_disk plenty no_others (mounted ∷ []) (λ n. refl)
      one_open.files mounted (b'f' ∷ []) (1 ∷ []) (unfold find_mount is_under behind in refl)
      (unfold eq_text in refl) (unfold eq_text in refl) (unfold eq_text in refl) m_f_apart

-- A directory is made once.
make_twice :
    let (r, s) = sys_mkdir no_disk plenty one_open (some path_f) in
    (r ≡ 0) × ((sys_mkdir no_disk plenty s (some path_f)).0 ≡ minus_one)
unfolding sys_mkdir hanafs_make_dir hanafs_persist_to_ata eq_text
make_twice = (refl, refl)

stat_missing : sys_stat no_disk plenty one_open (some path_f) ≡ (minus_one, none)
unfolding sys_stat hanafs_stat eq_text
stat_missing = refl

remove_null : (sys_rmdir no_disk plenty one_open none).0 ≡ minus_one
unfolding sys_rmdir
remove_null = refl

unlink_root : (sys_unlink no_disk plenty one_open (some (b'/' ∷ []))).1.files.entries ≡ []
unfolding sys_unlink hanafs_unlink eq_text hanafs_persist_to_ata
unlink_root = refl
