-- ===== src/Fat32/Files/Create.antt =====
-- kernel/filesystem/fat32.cpp: creating a file in the root directory, from the path to the disk.
use hana_core.Prelude.{
  ℕ, zero, suc, List, [], ◌∷◌, ◌++◌, ◌-◌, ◌≡◌, ◌≢◌, ◌≤◌, ◌<◌, ◌⊎◌, refl, ap, sym, some, Bool, true,
  false, ◌==◌, ltb, if◌then◌else◌, length, map, replicate, arith, subst, length-append,
  length-replicate, length-map,
}
use hana_core.Hanafs.Image.{Ata}
use hana_core.Hanafs.Image.Sectors.{IsDisk}
use hana_core.Fat32.{Volume}
use hana_core.Fat32.Table.{IsOnDisk, IsReadable}
use hana_core.Fat32.Chain.{IsChain}
use hana_core.Fat32.Name.{fat_toupper, filled}
use hana_core.Fat32.Name.Match.{IsPlain, format_filled}
use hana_core.Fat32.Directory.{component}
use hana_core.Fat32.Directory.Slot.{FullChain}
use hana_core.Fat32.Directory.Put.{Placed, write_dir_entry-Placed}
use hana_core.Fat32.Files.{locate, get_parent_cluster_and_name, add_entry, fat32_create_file}

abbrev pub NoSlash : List ℕ → Type 0
NoSlash [] = Unit
NoSlash (c ∷ p) = (c ≢ b'/') × NoSlash p

component-NoSlash :
    (room : ℕ) (name : List ℕ)
    → NoSlash name
    → length name ≤ room
    → component room name ≡ (name, [])
unfolding component
component-NoSlash room [] h k = refl
component-NoSlash zero (c ∷ name) h k = absurd (omega arith)
component-NoSlash (suc room) (c ∷ name) (hc, h) k =
    let e : c == b'/' ≡ false = ground arith in
    rw (component-NoSlash room name h (omega arith), e) refl

-- The eleven bytes of a name of at most eight bytes with no dot.
abbrev pub name_bytes : List ℕ → List ℕ
name_bytes name = filled 8 (map fat_toupper name) ++ replicate 3 b' '

length-name_bytes : (name : List ℕ) → length name ≤ 8 → length (name_bytes name) ≡ 11
length-name_bytes name h = omega (
  arith,
  length-append (filled 8 (map fat_toupper name)) (replicate 3 b' '),
  length-append (map fat_toupper name) (replicate (8 - length (map fat_toupper name)) b' '),
  length-replicate {A = ℕ} (8 - length (map fat_toupper name)) b' ',
  length-map name fat_toupper,
)

module _ {D : Type 0} (ata : Ata D) (v : Volume) where
  -- A path of one component has the root directory as its parent.
  pub get_parent_root :
      (check : Bool) (f : ℕ) (d : D) (root c : ℕ) (name : List ℕ)
      → NoSlash (c ∷ name)
      → length (c ∷ name) ≤ 63
      → (n : ℕ) → locate ata v check f d root (c ∷ name) (suc n) ≡ some (some (root, c ∷ name))
  unfolding locate
  get_parent_root check f d root c name h k n =
      let e = component-NoSlash 63 (c ∷ name) h k in
      rw (e, locate) (ap (λ (q : List ℕ × List ℕ). some (some (root, q.0))) e)

module _ {D : Type 0} (ata : Ata D) (v : Volume) (disk : IsDisk ata) (reads : IsReadable ata)
    (on : IsOnDisk v) where
  -- `fat32_create_file` of a slash and a name of one to eight bytes, with no dot, space, slash or
  -- NUL, ends with fuel for the clusters of the root directory and one more. Where the directory has
  -- a free entry, one of them becomes a file of that name in capitals with no cluster and no bytes,
  -- and all the rest of the directory and of the disk is unchanged; otherwise the call fails and
  -- changes nothing.
  pub fat32_create_file-Placed :
      (f : ℕ) (d : D) (root : ℕ) (name cs : List ℕ)
      → IsChain ata v d root cs
      → length cs < f
      → name ≢ []
      → IsPlain name
      → NoSlash name
      → length name ≤ 8
      → ((d' : D) × (fat32_create_file ata v true f d root (b'/' ∷ name) ≡ some (true, d'))
          × Placed ata v d d' cs (name_bytes name) 0x20 0 0)
        ⊎ ((fat32_create_file ata v true f d root (b'/' ∷ name) ≡ some (false, d))
            × FullChain ata v d cs)
  unfolding fat32_create_file get_parent_cluster_and_name add_entry
  fat32_create_file-Placed f d root [] cs chain fuel some_bytes plain slash short =
      absurd (some_bytes refl)
  fat32_create_file-Placed f d root (c ∷ name) cs chain fuel some_bytes plain slash short =
      rw (get_parent_root ata v true f d root c name slash (omega arith) (length (c ∷ name))) (
        rw (format_filled (c ∷ name) some_bytes plain short, add_entry)
          (write_dir_entry-Placed ata v disk reads on f d root root (name_bytes (c ∷ name)) 0x20 0 0
            cs (subst (λ (k : ℕ). IsChain ata v d k cs) (sym same) chain) fuel
            (length-name_bytes (c ∷ name) short) (omega arith, omega arith)))
    where
      same : (if ltb root 2 then root else root) ≡ root
      same = ground arith
