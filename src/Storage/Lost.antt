-- ===== src/Storage/Lost.antt =====
-- A file that is written by way of a mount of HanaFS: kernel/filesystem/vfs.cpp hands the whole path to
-- the write and the path behind the mount point to the read.
use hana_core.Prelude.{Bool, ℕ, List, ◌∷◌, ◌++◌, ◌≡◌, ◌≢◌, ap, sym, ◌∙◌, Option, some, true, false}
use hana_core.Prelude.Int.{ℤ}
use hana_core.Prelude.Text.{eq_text}
use hana_core.Hanafs.Image.{Ata, Hana}
use hana_core.Hanafs.Path.{resolve}
use hana_core.Hanafs.Files.{ok, hanafs_write_file, hanafs_get_file_alloc}
use hana_core.Hanafs.Files.Change.{
  hanafs_write_file-hanafs_get_file_alloc, hanafs_write_file_others,
}
use hana_core.Vfs.{
  MountEntry, Backends, is_ram, find_mount, fat32, slash, nonempty, vfs_write_file,
  vfs_get_file_alloc,
}
use hana_core.Vfs.Paths.{write_whole_read_relative}
use hana_core.Storage.{backends}

module _ {D : Type 0} (ata : Ata D) (alloc : ℕ → Bool) (others : Backends (Hana D))
    (mounts : List MountEntry) (memory : (n : ℕ) → alloc n ≡ true) where
  -- Where memory is there, writing a file below a mount of HanaFS that is not at the root succeeds, and
  -- HanaFS then has the bytes under the whole path; but reading the same path by way of the mounts gives
  -- what it gave before the write, if the path behind the mount point is that of another entry.
  pub vfs_write_file-vfs_get_file_alloc_lost :
      (h : Hana D) (m : MountEntry) (rest bytes : List ℕ)
      → find_mount mounts (m.mountpoint ++ (b'/' ∷ rest)) ≡ some m
      → is_ram m.fsname ≡ true
      → eq_text m.fsname fat32 ≡ false
      → eq_text m.mountpoint slash ≡ false
      → (resolve (m.mountpoint ++ (b'/' ∷ rest))).ipath ≢ (resolve (b'/' ∷ rest)).ipath
      → let path = m.mountpoint ++ (b'/' ∷ rest) in
        let (r, h') = vfs_write_file (backends ata alloc others) mounts h path bytes in
        (r ≡ ok)
        × (hanafs_get_file_alloc ata alloc h' path ≡ some bytes)
        × ((vfs_get_file_alloc (backends ata alloc others) mounts h' path).0
            ≡ (vfs_get_file_alloc (backends ata alloc others) mounts h path).0)
  unfolding backends
  vfs_write_file-vfs_get_file_alloc_lost h m rest bytes found ram fat root apart =
      let path = m.mountpoint ++ (b'/' ∷ rest) in
      let files = backends ata alloc others in
      let reads : (g : Hana D)
          → (vfs_get_file_alloc files mounts g path).0
            ≡ nonempty (hanafs_get_file_alloc ata alloc g (b'/' ∷ rest)) =
        λ g.
          ap (λ (x : Option (List ℕ) × Hana D). x.0)
            (write_whole_read_relative files mounts g m rest bytes found ram fat root).1 in
      let writes : vfs_write_file files mounts h path bytes
          ≡ hanafs_write_file ata alloc h path bytes =
        (write_whole_read_relative files mounts h m rest bytes found ram fat root).0 in
      let (done, kept) = hanafs_write_file-hanafs_get_file_alloc ata alloc h path bytes memory in
      let h' = (vfs_write_file files mounts h path bytes).1 in
      let same : h' ≡ (hanafs_write_file ata alloc h path bytes).1 =
        ap (λ (x : ℤ × Hana D). x.1) writes in
      (
        ap (λ (x : ℤ × Hana D). x.0) writes ∙ done,
        ap (λ (g : Hana D). hanafs_get_file_alloc ata alloc g path) same ∙ kept,
        reads h'
            ∙ ap nonempty (
                ap (λ (g : Hana D). hanafs_get_file_alloc ata alloc g (b'/' ∷ rest)) same
                ∙ hanafs_write_file_others ata alloc h path (b'/' ∷ rest) bytes apart)
            ∙ sym (reads h),
      )
