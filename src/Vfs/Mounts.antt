-- ===== src/Vfs/Mounts.antt =====
-- Which mount a path belongs to.
use hana_core.Prelude.{
  ℕ, List, [], ◌∷◌, ◌++◌, ◌≡◌, ◌↔◌, refl, ap, sym, ◌∙◌, arith, Option, none, some, Bool, true,
  Bool-cases, inl, inr, Option-cases,
}
use hana_core.Vfs.{behind, MountEntry, is_under, ends_part, find_mount, vfs_register_mount}
use hana_core.Prelude.Text.{behind-append, behind_sound}

-- A path is a mount point or lies below it.
pub data IsBelow (mountpoint path : List ℕ) : Type 0 where
  itself : path ≡ mountpoint → IsBelow mountpoint path
  inside : (rest : List ℕ) → path ≡ mountpoint ++ (b'/' ∷ rest) → IsBelow mountpoint path

append-empty : (xs : List ℕ) → xs ++ [] ≡ xs
append-empty [] = refl
append-empty (x ∷ xs) = ap (λ (l : List ℕ). x ∷ l) (append-empty xs)

part-IsBelow :
    (mountpoint path rest : List ℕ)
    → path ≡ mountpoint ++ rest
    → ends_part rest ≡ true
    → IsBelow mountpoint path
part-IsBelow mountpoint path [] e h = itself (e ∙ append-empty mountpoint)
part-IsBelow mountpoint path (c ∷ cs) e h =
    inside cs (e ∙ ap (λ (x : ℕ). mountpoint ++ (x ∷ cs)) (ground arith))

-- The test of the source says whether a path is a mount point or lies below it.
pub is_under-IsBelow :
    (mountpoint path : List ℕ) → (is_under mountpoint path ≡ true) ↔ IsBelow mountpoint path
unfolding is_under
is_under-IsBelow mountpoint path = (forward, backward)
  where
    forward : is_under mountpoint path ≡ true → IsBelow mountpoint path
    forward e = elim (Option-cases (behind mountpoint path)) [
      | inl n ↦ cc (rw (n, is_under) at e)
      | inr (rest, f) ↦
          part-IsBelow mountpoint path rest (behind_sound mountpoint path rest f)
            (rw (f, is_under) at e)
    ]

    backward : IsBelow mountpoint path → is_under mountpoint path ≡ true
    backward (itself e) =
        ap (is_under mountpoint) (e ∙ sym (append-empty mountpoint))
        ∙ rw (behind-append mountpoint [], is_under)
    backward (inside rest e) =
        ap (is_under mountpoint) e ∙ rw (behind-append mountpoint (b'/' ∷ rest), is_under)

-- The path is no mount point of the list and lies below none.
abbrev pub NoneBelow : List MountEntry → List ℕ → Type 0
NoneBelow [] path = Unit
NoneBelow (m ∷ ms) path = (¬ IsBelow m.mountpoint path) × NoneBelow ms path

-- What the search of the mounts finds: the first that the path is under, whatever its length.
pub data Searched (path : List ℕ) (mounts : List MountEntry) : Option MountEntry → Type 0 where
  missing : NoneBelow mounts path → Searched path mounts none
  found :
      (before after : List MountEntry) (m : MountEntry)
      → mounts ≡ before ++ (m ∷ after)
      → NoneBelow before path
      → IsBelow m.mountpoint path
      → Searched path mounts (some m)

Searched-cons :
    (path : List ℕ) (m : MountEntry) (ms : List MountEntry) (o : Option MountEntry)
    → ¬ IsBelow m.mountpoint path
    → Searched path ms o
    → Searched path (m ∷ ms) o
Searched-cons path m ms o e (missing n) = missing (e, n)
Searched-cons path m ms o e (found before after k s n i) =
    found (m ∷ before) after k (ap (λ (l : List MountEntry). m ∷ l) s) (e, n) i

-- The search finds the first mount in the order of registration that is the path or a directory
-- above it, and nothing only if there is no such mount.
pub find_mount-Searched :
    (mounts : List MountEntry) (path : List ℕ) → Searched path mounts (find_mount mounts path)
unfolding find_mount
find_mount-Searched [] path = missing tt
find_mount-Searched (m ∷ ms) path = elim (Bool-cases (is_under m.mountpoint path)) [
  | inl e ↦ rw (e, find_mount) (found [] ms m refl tt ((is_under-IsBelow m.mountpoint path).0 e))
  | inr e ↦
      rw (e, find_mount)
        (Searched-cons path m ms (find_mount ms path)
          (λ below. cc (e, (is_under-IsBelow m.mountpoint path).1 below))
          (find_mount-Searched ms path))
]

find_mount-append :
    (ms more : List MountEntry) (path : List ℕ) (m : MountEntry)
    → find_mount ms path ≡ some m
    → find_mount (ms ++ more) path ≡ some m
unfolding find_mount
find_mount-append [] more path m e = cc
find_mount-append (x ∷ ms) more path m e = elim (Bool-cases (is_under x.mountpoint path)) [
  | inl hit ↦ rw (hit, find_mount) (rw (hit, find_mount) at e)
  | inr miss ↦ rw (miss, find_mount) (find_mount-append ms more path m (rw (miss, find_mount) at e))
]

-- A later mount never takes over a path that a mount has, so that a mount point inside an earlier
-- mount is never reached.
pub vfs_register_mount_keeps :
    (copied : Bool) (mounts : List MountEntry) (fsname mountpoint path : List ℕ) (m : MountEntry)
    → find_mount mounts path ≡ some m
    → find_mount (vfs_register_mount copied mounts fsname mountpoint) path ≡ some m
unfolding vfs_register_mount
vfs_register_mount_keeps copied mounts fsname mountpoint path m e = ground (
  arith,
  find_mount-append mounts (record { fsname = fsname; mountpoint = mountpoint } ∷ []) path m e,
)
