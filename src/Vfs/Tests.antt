-- ===== src/Vfs/Tests.antt =====
-- Runs of kernel/filesystem/vfs.cpp.
use hana_core.Prelude.{ℕ, List, [], ◌∷◌, ◌++◌, ◌≡◌, refl, Option, none, some, Bool, true, false}
use hana_core.Prelude.Int.{ℤ, pos, negsuc}
use hana_core.Prelude.Text.{behind, eq_text}
use hana_core.Vfs.{
  MountEntry, Backends, hanafs, is_under, find_mount, relative, list_built_in, vfs_list_dir,
  dispatch, vfs_write_file, first_of, vfs_get_file_alloc,
}
use hana_core.Vfs.Mounts.{Searched, find_mount-Searched}

-- One file of the RAM file system is the state: its path and its bytes.
abbrev State : Type 0
State = List ℕ × List ℕ

abbrev no_list : State → List ℕ → ℤ × List (List ℕ) × State
no_list f path = (negsuc 0, [], f)

abbrev refuse : State → List ℕ → ℤ × State
refuse f path = (negsuc 0, f)

abbrev no_file : State → List ℕ → Option (List ℕ) × State
no_file f path = (none, f)

abbrev backends : Backends State
backends = record {
  ramfs_list_dir = λ f path. (pos 0, f.0 ∷ [], f);
  fat32_list_dir = no_list;
  procfs_list_dir = no_list;
  devfs_list_dir = no_list;
  floppy_list_dir = no_list;
  ramfs_remove_dir = refuse;
  ramfs_create_file = λ f path. (pos 0, (path, []));
  fat32_create_file = refuse;
  ramfs_unlink = refuse;
  fat32_unlink = refuse;
  ramfs_make_dir = refuse;
  fat32_make_dir = refuse;
  ramfs_write_file = λ f path bytes. (pos 0, (path, bytes));
  fat32_write_file = λ f path bytes. (negsuc 0, f);
  ramfs_get_file_alloc = λ f path. (if_same (eq_text f.0 path) f.1, f);
  fat32_get_file_alloc = no_file;
  procfs_get_file_alloc = no_file;
  devfs_get_file_alloc = no_file;
}
  where
    if_same : Bool → List ℕ → Option (List ℕ)
    if_same true bytes = some bytes
    if_same false bytes = none

-- "/m".
abbrev point : List ℕ
point = b'/' ∷ b'm' ∷ []

abbrev mounted : MountEntry
mounted = record { fsname = hanafs; mountpoint = point }

-- "/m/f".
abbrev file : List ℕ
file = point ++ (b'/' ∷ b'f' ∷ [])

-- What is written through the mount is not found through it.
lost_test :
    (vfs_get_file_alloc backends
      (mounted ∷ [])
      (vfs_write_file backends (mounted ∷ []) ([], []) file (1 ∷ [])).1
      file).0
    ≡ none
unfolding vfs_get_file_alloc vfs_write_file dispatch find_mount is_under behind relative eq_text
    first_of
lost_test = refl

-- Without a mount it is.
kept_test :
    (vfs_get_file_alloc backends [] (vfs_write_file backends [] ([], []) file (1 ∷ [])).1 file).0
    ≡ some (1 ∷ [])
unfolding vfs_get_file_alloc vfs_write_file dispatch find_mount is_under behind relative eq_text
    first_of
kept_test = refl

list_test : (vfs_list_dir backends (mounted ∷ []) (file, []) point).1 ≡ file ∷ []
unfolding vfs_list_dir list_built_in find_mount is_under behind relative eq_text
list_test = refl

find_mount-Searched_example : Searched file (mounted ∷ []) (find_mount (mounted ∷ []) file)
find_mount-Searched_example = find_mount-Searched (mounted ∷ []) file
