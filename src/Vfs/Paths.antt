-- ===== src/Vfs/Paths.antt =====
-- Which path a file system is given, and which paths a mount point with a slash at its end has.
use mathlib.Core.List.{append_assoc}
use hana_core.Prelude.{ℕ, List, ◌∷◌, ◌++◌, ◌≡◌, ◌≢◌, ap, sym, ◌∙◌, arith, some, true, false}
use hana_core.Prelude.Text.{eq_text}
use hana_core.Vfs.{
  MountEntry, Backends, is_under, find_mount, relative, is_ram, slash, fat32, dispatch,
  only_nonempty, vfs_write_file, vfs_get_file_alloc,
}
use hana_core.Prelude.Text.{behind-append}

relative_lem :
    (mountpoint rest : List ℕ)
    → eq_text mountpoint slash ≡ false
    → relative mountpoint (mountpoint ++ (b'/' ∷ rest)) ≡ b'/' ∷ rest
unfolding relative
relative_lem mountpoint rest e = rw (e, behind-append mountpoint (b'/' ∷ rest))

pub write_whole_read_relative :
    {F : Type 0} (b : Backends F) (mounts : List MountEntry) (f : F) (m : MountEntry)
    (rest bytes : List ℕ)
    → find_mount mounts (m.mountpoint ++ (b'/' ∷ rest)) ≡ some m
    → is_ram m.fsname ≡ true
    → eq_text m.fsname fat32 ≡ false
    → eq_text m.mountpoint slash ≡ false
    → let path = m.mountpoint ++ (b'/' ∷ rest) in
      (vfs_write_file b mounts f path bytes ≡ b.ramfs_write_file f path bytes)
      × (vfs_get_file_alloc b mounts f path
          ≡ only_nonempty b (b.ramfs_get_file_alloc f (b'/' ∷ rest)))
unfolding vfs_write_file dispatch vfs_get_file_alloc
write_whole_read_relative b mounts f m rest bytes found ram fat root = (
  rw (found, dispatch) (rw ram),
  rw (found, vfs_get_file_alloc) (rw (fat, ram, relative_lem m.mountpoint rest root)),
)

-- A mount point that ends in a slash, the root among them, has no path below that directory whose
-- next byte is not another slash.
pub slash_mount_misses :
    (base : List ℕ) (c : ℕ) (rest : List ℕ)
    → c ≢ b'/'
    → is_under (base ++ slash) (base ++ (b'/' ∷ c ∷ rest)) ≡ false
unfolding is_under
slash_mount_misses base c rest ne =
    ap (is_under (base ++ slash)) (sym (append_assoc base slash (c ∷ rest)))
    ∙ rw (behind-append (base ++ slash) (c ∷ rest), is_under) (ground (arith, ne))
