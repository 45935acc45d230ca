-- ===== src/Vfs.antt =====
-- kernel/filesystem/vfs.cpp: the table of mounts and the dispatch to the file systems. The
-- pointers passed are not null; the file systems below are a record of their functions.
pub mod Mounts
pub mod Paths
mod Tests
use hana_core.Prelude.{
  ℕ, List, [], ◌∷◌, ◌++◌, Option, none, some, Bool, true, false, ltb, ◌||◌, ◌==◌, if◌then◌else◌,
  length,
}
use hana_core.Prelude.Int.{ℤ, pos, negsuc}
use hana_core.Prelude.Text.{behind, eq_text}

pub record MountEntry : Type 0 where
  pub fsname : List ℕ
  pub mountpoint : List ℕ

-- The functions of the file systems that the dispatch calls. A listing returns the names that the
-- callback was given; a file's contents are `none` for a null pointer.
pub record Backends (F : Type 0) : Type 0 where
  pub ramfs_list_dir : F → List ℕ → ℤ × List (List ℕ) × F
  pub fat32_list_dir : F → List ℕ → ℤ × List (List ℕ) × F
  pub procfs_list_dir : F → List ℕ → ℤ × List (List ℕ) × F
  pub devfs_list_dir : F → List ℕ → ℤ × List (List ℕ) × F
  pub floppy_list_dir : F → List ℕ → ℤ × List (List ℕ) × F
  pub ramfs_remove_dir : F → List ℕ → ℤ × F
  pub ramfs_create_file : F → List ℕ → ℤ × F
  pub fat32_create_file : F → List ℕ → ℤ × F
  pub ramfs_unlink : F → List ℕ → ℤ × F
  pub fat32_unlink : F → List ℕ → ℤ × F
  pub ramfs_make_dir : F → List ℕ → ℤ × F
  pub fat32_make_dir : F → List ℕ → ℤ × F
  pub ramfs_write_file : F → List ℕ → List ℕ → ℤ × F
  pub fat32_write_file : F → List ℕ → List ℕ → ℤ × F
  pub ramfs_get_file_alloc : F → List ℕ → Option (List ℕ) × F
  pub fat32_get_file_alloc : F → List ℕ → Option (List ℕ) × F
  pub procfs_get_file_alloc : F → List ℕ → Option (List ℕ) × F
  pub devfs_get_file_alloc : F → List ℕ → Option (List ℕ) × F

abbrev pub hanafs : List ℕ
hanafs = b'h' ∷ b'a' ∷ b'n' ∷ b'a' ∷ b'f' ∷ b's' ∷ []

abbrev pub ramfs : List ℕ
ramfs = b'r' ∷ b'a' ∷ b'm' ∷ b'f' ∷ b's' ∷ []

abbrev pub fat32 : List ℕ
fat32 = b'f' ∷ b'a' ∷ b't' ∷ b'3' ∷ b'2' ∷ []

abbrev pub procfs : List ℕ
procfs = b'p' ∷ b'r' ∷ b'o' ∷ b'c' ∷ b'f' ∷ b's' ∷ []

abbrev pub devfs : List ℕ
devfs = b'd' ∷ b'e' ∷ b'v' ∷ b'f' ∷ b's' ∷ []

abbrev pub floppy : List ℕ
floppy = b'f' ∷ b'l' ∷ b'o' ∷ b'p' ∷ b'p' ∷ b'y' ∷ []

abbrev pub slash : List ℕ
slash = b'/' ∷ []

-- The table has no entries behind `mount_count`.
unfoldable pub vfs_init : List MountEntry → List MountEntry
vfs_init mounts = []

-- `copied`: the allocation of the copy succeeds.
unfoldable pub vfs_register_mount : Bool → List MountEntry → List ℕ → List ℕ → List MountEntry
vfs_register_mount copied mounts fsname mountpoint =
    if ltb (length mounts) 16
    then (if copied
        then mounts ++ (record { fsname = fsname; mountpoint = mountpoint } ∷ [])
        else mounts)
    else mounts

abbrev pub ends_part : List ℕ → Bool
ends_part [] = true
ends_part (c ∷ cs) = c == b'/'

-- `strcmp(path, mpoint) == 0 || (strncmp(path, mpoint, mlen) == 0 && path[mlen] == '/')`.
unfoldable pub is_under : List ℕ → List ℕ → Bool
unfolding behind
is_under mountpoint path = elim (behind mountpoint path) [
  | none ↦ false
  | some rest ↦ ends_part rest
]

-- The loop over the mounts: the first one that a path is under.
unfoldable pub find_mount : List MountEntry → List ℕ → Option MountEntry
unfolding is_under
find_mount [] path = none
find_mount (m ∷ ms) path = elim (is_under m.mountpoint path) [
  | true ↦ some m
  | false ↦ find_mount ms path
]

abbrev pub or_slash : List ℕ → List ℕ
or_slash [] = slash
or_slash (c ∷ cs) = c ∷ cs

-- The path that a listing or a reading hands to the file system.
unfoldable pub relative : List ℕ → List ℕ → List ℕ
unfolding eq_text behind
relative mountpoint path =
    if eq_text mountpoint slash
    then path
    else elim (behind mountpoint path) [ none ↦ path | some rest ↦ or_slash rest ]

abbrev pub is_ram : List ℕ → Bool
is_ram fsname = eq_text fsname hanafs || eq_text fsname ramfs

-- A file that is empty counts as missing.
abbrev pub nonempty : Option (List ℕ) → Option (List ℕ)
nonempty none = none
nonempty (some []) = none
nonempty (some (c ∷ cs)) = some (c ∷ cs)

module _ {F : Type 0} (b : Backends F) where
  open b use {
    ramfs_list_dir, fat32_list_dir, procfs_list_dir, devfs_list_dir, floppy_list_dir,
    ramfs_remove_dir, ramfs_create_file, fat32_create_file, ramfs_unlink, fat32_unlink,
    ramfs_make_dir, fat32_make_dir, ramfs_write_file, fat32_write_file, ramfs_get_file_alloc,
    fat32_get_file_alloc, procfs_get_file_alloc, devfs_get_file_alloc,
  }

  abbrev pub is_zero : ℤ → Bool
  is_zero (pos n) = n == 0
  is_zero (negsuc n) = false

  -- The built-in file systems, where no mount matched. The names of both listings are given out.
  unfoldable pub list_built_in : F → List ℕ → ℤ × List (List ℕ) × F
  list_built_in f path =
      let (rc, names, f') = ramfs_list_dir f path in
      if is_zero rc
      then (pos 0, names, f')
      else (let (rc', names', f'') = fat32_list_dir f' path in
          (if is_zero rc' then pos 0 else negsuc 0, names ++ names', f''))

  unfoldable pub vfs_list_dir : List MountEntry → F → List ℕ → ℤ × List (List ℕ) × F
  unfolding find_mount relative
  vfs_list_dir mounts f path = elim (find_mount mounts path) [
    | none ↦ list_built_in f path
    | some m ↦
        let rel = relative m.mountpoint path in
        if eq_text m.fsname fat32
        then fat32_list_dir f rel
        else if is_ram m.fsname
        then ramfs_list_dir f rel
        else if eq_text m.fsname procfs
        then procfs_list_dir f rel
        else if eq_text m.fsname devfs
        then devfs_list_dir f rel
        else if eq_text m.fsname floppy
        then floppy_list_dir f rel
        else list_built_in f path
  ]

  unfoldable pub vfs_remove_dir : List MountEntry → F → List ℕ → ℤ × F
  unfolding find_mount
  vfs_remove_dir mounts f path = elim (find_mount mounts path) [
    | none ↦ ramfs_remove_dir f path
    | some m ↦ if is_ram m.fsname then ramfs_remove_dir f path else (negsuc 0, f)
  ]

  -- The body that the four calls below share, for the functions of the two file systems.
  unfoldable pub dispatch :
      (F → List ℕ → ℤ × F) → (F → List ℕ → ℤ × F) → List MountEntry → F → List ℕ → ℤ × F
  unfolding find_mount
  dispatch ram fat mounts f path = elim (find_mount mounts path) [
    | none ↦ ram f path
    | some m ↦
        if is_ram m.fsname
        then ram f path
        else if eq_text m.fsname fat32
        then fat f path
        else (negsuc 0, f)
  ]

  unfoldable pub vfs_create_file : List MountEntry → F → List ℕ → ℤ × F
  unfolding dispatch
  vfs_create_file mounts f path = dispatch ramfs_create_file fat32_create_file mounts f path

  unfoldable pub vfs_unlink : List MountEntry → F → List ℕ → ℤ × F
  unfolding dispatch
  vfs_unlink mounts f path = dispatch ramfs_unlink fat32_unlink mounts f path

  unfoldable pub vfs_make_dir : List MountEntry → F → List ℕ → ℤ × F
  unfolding dispatch
  vfs_make_dir mounts f path = dispatch ramfs_make_dir fat32_make_dir mounts f path

  unfoldable pub vfs_write_file : List MountEntry → F → List ℕ → List ℕ → ℤ × F
  unfolding dispatch
  vfs_write_file mounts f path bytes =
      dispatch (λ g p. ramfs_write_file g p bytes) (λ g p. fat32_write_file g p bytes) mounts f path

  -- The file systems are asked in order until one has the file.
  unfoldable pub first_of :
      List (F → List ℕ → Option (List ℕ) × F) → F → List ℕ → Option (List ℕ) × F
  first_of [] f path = (none, f)
  first_of (get ∷ gets) f path =
      let (bytes, f') = get f path in
      elim (nonempty bytes) [ none ↦ first_of gets f' path | some file ↦ (some file, f') ]

  abbrev pub only_nonempty : Option (List ℕ) × F → Option (List ℕ) × F
  only_nonempty r = (nonempty r.0, r.1)

  -- The contents; their length is `*out_len`.
  unfoldable pub vfs_get_file_alloc : List MountEntry → F → List ℕ → Option (List ℕ) × F
  unfolding find_mount relative first_of
  vfs_get_file_alloc mounts f path = elim (find_mount mounts path) [
    | none ↦
        first_of
          (ramfs_get_file_alloc ∷ procfs_get_file_alloc ∷ devfs_get_file_alloc
            ∷ fat32_get_file_alloc ∷ [])
          f path
    | some m ↦
        let rel = relative m.mountpoint path in
        if eq_text m.fsname fat32
        then only_nonempty (fat32_get_file_alloc f rel)
        else if is_ram m.fsname
        then only_nonempty (ramfs_get_file_alloc f rel)
        else if eq_text m.fsname procfs
        then procfs_get_file_alloc f rel
        else if eq_text m.fsname devfs
        then devfs_get_file_alloc f rel
        else (none, f)
  ]
