-- ===== src/Fat32/Table.antt =====
-- The table as a function from clusters to entries: what a write changes, and what it leaves.
use hana_core.Prelude.{
  le_or_lt, ℕ, zero, suc, List, ◌+◌, ◌-◌, ◌*◌, ◌/◌, ◌%◌, ◌^◌, ◌≡◌, ◌≢◌, ◌≤◌, ◌<◌, ◌⊎◌, refl, ap,
  sym, ◌∙◌, Option, some, true, false, ◌||◌, ◌==◌, ltb, length, take, drop, arith, inl, inr,
  if◌then◌else◌, Bool-cases,
}
use hana_core.Hanafs.Image.{Ata, le_value}
use hana_core.Hanafs.Image.Sectors.{IsDisk}
use native.Mathlib.Nat.{suc-mul, add-mul, one-mul}
use hana_core.Fat32.{
  Volume, patched, entry_in, ent_offset, sector_index, copy_lba, fat32_read_sector, read_fat_entry,
  write_copies, write_fat_entry,
}
use mathlib.Core.Path.{ap₂}
use hana_core.Fat32.Patch.{entry_in-patched, entry_in-patched_other, length-patched}

-- A volume on a disk, not in a boot module's image: sectors of 512 bytes, and tables that end below
-- the last sector number.
pub record IsOnDisk (v : Volume) : Type 0 where
  pub sectors_512 : v.bytes_per_sector ≡ 512
  pub no_module : v.module_drive ≡ false
  pub some_fat : 0 < v.num_fats
  pub some_size : 0 < v.fat_size
  pub below : v.fat_begin_lba + v.num_fats * v.fat_size < 2 ^ 32

-- Every sector can be read, and has 512 bytes.
abbrev pub IsReadable : {D : Type 0} → Ata D → Type 0
IsReadable {D} ata =
    (d : D) (n : ℕ) → (s : List ℕ) × (ata.read_sector d n ≡ some s) × (length s ≡ 512)

-- The table has an entry for the cluster.
abbrev pub HasEntry : Volume → ℕ → Type 0
HasEntry v c = (c < v.fat_size * 128) × (c < 2 ^ 28)

sector_index_lem :
    (v : Volume) (c : ℕ) → v.bytes_per_sector ≡ 512 → c < 2 ^ 30 → sector_index v c ≡ c / 128
unfolding sector_index
sector_index_lem v c h small = rw h (omega (arith, small))

ent_offset_lem :
    (v : Volume) (c : ℕ) → v.bytes_per_sector ≡ 512 → c < 2 ^ 30 → ent_offset v c ≡ c % 128 * 4
unfolding ent_offset
ent_offset_lem v c h small = rw h (omega (arith, small))

module _ {D : Type 0} (ata : Ata D) (v : Volume) (disk : IsDisk ata) (reads : IsReadable ata)
    (on : IsOnDisk v) where
  read_plain : (d : D) (lba : ℕ) → fat32_read_sector ata v d lba ≡ ata.read_sector d lba
  unfolding fat32_read_sector
  read_plain d lba = rw on.no_module refl

  -- Reading an entry from its sector.
  read_lem :
      (d : D) (c m : ℕ) (s : List ℕ)
      → c < 2 ^ 30
      → v.fat_begin_lba + c / 128 ≡ m
      → m < 2 ^ 32
      → ata.read_sector d m ≡ some s
      → read_fat_entry ata v d c ≡ le_value (take 4 (drop (c % 128 * 4) s)) % 2 ^ 28
  unfolding read_fat_entry
  read_lem d c m s small place fits found = rw (narrow) (
      ap₂ (λ (off : ℕ) (o : Option (List ℕ)). entry_in ata v off o)
        (ent_offset_lem v c on.sectors_512 small)
        (ap (fat32_read_sector ata v d) {y = m}
            (omega (arith, sector_index_lem v c on.sectors_512 small))
          ∙ read_plain d m
          ∙ found))
    where
      narrow : ltb 512 v.bytes_per_sector ≡ false
      narrow = rw on.sectors_512 refl

  -- One step of the loop over the copies.
  write_copies-suc :
      (d : D) (c w i n lba : ℕ) (s : List ℕ)
      → copy_lba ata v i c ≡ lba
      → ata.read_sector d lba ≡ some s
      → write_copies ata v d c w i (suc n)
        ≡ write_copies ata v (ata.write_sector d lba (patched s (ent_offset v c) w)).1 c w (i + 1) n
  unfolding write_copies
  write_copies-suc d c w i n lba s place found =
      rw
        (
          read_plain d (copy_lba ata v i c) ∙ ap (λ (l : ℕ). ata.read_sector d l) place ∙ found,
          write_copies,
        )
        (rw (disk.works d (copy_lba ata v i c) (patched s (ent_offset v c) w), write_copies)
          (ap
            (λ (l : ℕ).
              write_copies ata v (ata.write_sector d l (patched s (ent_offset v c) w)).1 c w (i + 1)
                n)
            place))

  copy_place :
      (i c n : ℕ)
      → c / 128 < v.fat_size
      → c < 2 ^ 28
      → v.fat_begin_lba + i * v.fat_size + suc n * v.fat_size < 2 ^ 32
      → copy_lba ata v i c ≡ v.fat_begin_lba + i * v.fat_size + c / 128
  copy_place i c n inside small room =
      omega (arith, sector_index_lem v c on.sectors_512 (omega arith), suc-mul n v.fat_size)

  -- The copies from `i` on leave the sectors before them as they are.
  copies_keep :
      (n i : ℕ) (d : D) (c w m : ℕ)
      → c / 128 < v.fat_size
      → c < 2 ^ 28
      → v.fat_begin_lba + i * v.fat_size + n * v.fat_size < 2 ^ 32
      → m < v.fat_begin_lba + i * v.fat_size
      → ((write_copies ata v d c w i n).0 ≡ true)
        × (ata.read_sector (write_copies ata v d c w i n).1 m ≡ ata.read_sector d m)
  copies_keep zero i d c w m inside small room before = unfold write_copies in (refl, refl)
  copies_keep (suc n) i d c w m inside small room before =
      let lba = v.fat_begin_lba + i * v.fat_size + c / 128 in
      let (s, found, sized) = reads d lba in
      let next : (i + 1) * v.fat_size ≡ i * v.fat_size + v.fat_size =
        add-mul i 1 v.fat_size ∙ omega (arith, one-mul v.fat_size) in
      let d' = (ata.write_sector d lba (patched s (ent_offset v c) w)).1 in
      let (done, kept) =
        copies_keep n (i + 1) d' c w m inside small
          (omega (arith, room, next, suc-mul n v.fat_size)) (omega (arith, before, next)) in
      rw (write_copies-suc d c w i n lba s (copy_place i c n inside small room) found) (
        done,
        kept ∙ disk.others d lba m (patched s (ent_offset v c) w) (λ e. omega (arith, e, before)),
      )

  first_fits : (k : ℕ) → HasEntry v k → v.fat_begin_lba + k / 128 < 2 ^ 32
  first_fits k h = omega (
    arith,
    on.below,
    suc-mul (v.num_fats - 1) v.fat_size,
    ap (λ (n : ℕ). n * v.fat_size) {x = v.num_fats} {y = suc (v.num_fats - 1)}
        (omega (arith, on.some_fat)),
  )

  -- What the first copy of the table holds after the write.
  primary :
      (d : D) (c c' w : ℕ) (s : List ℕ)
      → HasEntry v c
      → HasEntry v c'
      → w < 2 ^ 28
      → ata.read_sector d (v.fat_begin_lba + c / 128) ≡ some s
      → length s ≡ 512
      → read_fat_entry ata v
          (ata.write_sector d (v.fat_begin_lba + c / 128) (patched s (c % 128 * 4) w)).1
          c'
        ≡ (if c' == c then w else read_fat_entry ata v d c')
  primary d c c' w s has has' small found sized =
      let lba = v.fat_begin_lba + c / 128 in
      let there : length (patched s (c % 128 * 4) w) ≡ 512 =
        length-patched (c % 128 * 4) w s (omega (arith, sized)) ∙ sized in
      let wrote = disk.keeps d lba (patched s (c % 128 * 4) w) there in
      let new = (ata.write_sector d lba (patched s (c % 128 * 4) w)).1 in
      elim (Bool-cases (c' == c)) [
        | inl this ↦
            let same : c' ≡ c = ground (arith, this) in
            rw (this) (
              ap (read_fat_entry ata v new) same
              ∙ read_lem new c lba (patched s (c % 128 * 4) w) (omega arith) refl (first_fits c has)
                  wrote
              ∙ entry_in-patched (c % 128 * 4) w s (omega (arith, sized)) small)
        | inr other ↦
            let ne : c' ≢ c = λ e. ground (arith, other, e) in
            rw (other) (elim (Bool-cases (c' / 128 == c / 128)) [
              | inl at ↦
                  read_lem new c' lba (patched s (c % 128 * 4) w) (omega arith) (place at)
                    (first_fits c has) wrote
                  ∙ ap (λ (l : List ℕ). le_value l % 2 ^ 28)
                      (entry_in-patched_other (c' % 128 * 4) (c % 128 * 4) w s
                        (apart c' c ne (ground (arith, at))) (omega (arith, sized)))
                  ∙ sym (read_lem d c' lba s (omega arith) (place at) (first_fits c has) found)
              | inr away ↦
                  let (s', found', sized') = reads d (v.fat_begin_lba + c' / 128) in
                  read_lem new c' (v.fat_begin_lba + c' / 128) s' (omega arith) refl
                    (first_fits c' has')
                    (disk.others d lba (v.fat_begin_lba + c' / 128) (patched s (c % 128 * 4) w)
                        (λ e. distinct away (omega (arith, e)))
                      ∙ found')
                  ∙ sym (
                      read_lem d c' (v.fat_begin_lba + c' / 128) s' (omega arith) refl
                        (first_fits c' has') found')
            ])
      ]
    where
      place : (c' / 128 == c / 128) ≡ true → v.fat_begin_lba + c' / 128 ≡ v.fat_begin_lba + c / 128
      place h = ground (arith, h)

      distinct : (c' / 128 == c / 128) ≡ false → c' / 128 ≢ c / 128
      distinct h e = ground (arith, h, e)

      apart :
          (a b : ℕ)
          → a ≢ b
          → a / 128 ≡ b / 128
          → (a % 128 * 4 + 4 ≤ b % 128 * 4) ⊎ (b % 128 * 4 + 4 ≤ a % 128 * 4)
      apart a b ne at = elim (le_or_lt b a) [
        | inl le ↦ inr (omega (arith, ne, at))
        | inr lt ↦ inl (omega (arith, at))
      ]

  same_entry :
      (d d' : D) (c : ℕ)
      → HasEntry v c
      → v.fat_begin_lba + c / 128 < 2 ^ 32
      → ata.read_sector d (v.fat_begin_lba + c / 128)
        ≡ ata.read_sector d' (v.fat_begin_lba + c / 128)
      → read_fat_entry ata v d c ≡ read_fat_entry ata v d' c
  same_entry d d' c has fits same =
      let (s, found, sized) = reads d' (v.fat_begin_lba + c / 128) in
      read_lem d c (v.fat_begin_lba + c / 128) s (omega arith) refl fits (same ∙ found)
      ∙ sym (read_lem d' c (v.fat_begin_lba + c / 128) s (omega arith) refl fits found)

  -- The first copy is written, and the others do not touch it.
  write_lem :
      (d : D) (c w k : ℕ) (s : List ℕ)
      → HasEntry v c
      → v.num_fats ≡ suc k
      → ata.read_sector d (v.fat_begin_lba + c / 128) ≡ some s
      → write_fat_entry ata v d c w
        ≡ write_copies ata v
            (ata.write_sector d
              (v.fat_begin_lba + c / 128)
              (patched s (c % 128 * 4) (w % 2 ^ 28))).1
            c
            (w % 2 ^ 28)
            1
            k
  unfolding write_fat_entry
  write_lem d c w k s has copies found =
      rw (guards, copies)
        (write_copies-suc d c (w % 2 ^ 28) 0 k (v.fat_begin_lba + c / 128) s
            (omega (arith, first_fits c has, sector_index_lem v c on.sectors_512 (omega arith)))
            found
          ∙ ap
              (λ (off : ℕ).
                write_copies ata v
                  (ata.write_sector d (v.fat_begin_lba + c / 128) (patched s off (w % 2 ^ 28))).1 c
                  (w % 2 ^ 28) 1 k)
              (ent_offset_lem v c on.sectors_512 (omega arith)))
    where
      guards :
          ((v.bytes_per_sector == 0) || (v.fat_size == 0) || ltb 4096 v.bytes_per_sector) ≡ false
      guards = rw on.sectors_512 (ground (arith, on.some_size))

  -- Writing the entry of a cluster succeeds; afterwards that entry is the value's low 28 bits, and every
  -- other entry is what it was. The volume is on a disk that works, with sectors of 512 bytes.
  pub write_fat_entry-read_fat_entry :
      (d : D) (c w c' : ℕ)
      → HasEntry v c
      → HasEntry v c'
      → let (done, d') = write_fat_entry ata v d c w in
        (done ≡ true)
        × (read_fat_entry ata v d' c' ≡ (if c' == c then w % 2 ^ 28 else read_fat_entry ata v d c'))
  write_fat_entry-read_fat_entry d c w c' has has' =
      let k = v.num_fats - 1 in
      let copies : v.num_fats ≡ suc k = omega (arith, on.some_fat) in
      let lba = v.fat_begin_lba + c / 128 in
      let (s, found, sized) = reads d lba in
      let d1 = (ata.write_sector d lba (patched s (c % 128 * 4) (w % 2 ^ 28))).1 in
      let (done, kept) =
        copies_keep k 1 d1 c (w % 2 ^ 28) (v.fat_begin_lba + c' / 128) (omega arith) (omega arith)
          (omega (
            arith,
            on.below,
            one-mul v.fat_size,
            suc-mul k v.fat_size,
            ap (λ (n : ℕ). n * v.fat_size) {y = suc k} copies,
          ))
          (omega (arith, one-mul v.fat_size)) in
      rw (write_lem d c w k s has copies found) (
        done,
        same_entry (write_copies ata v d1 c (w % 2 ^ 28) 1 k).1 d1 c' has' (first_fits c' has') kept
            ∙ primary d c c' (w % 2 ^ 28) s has has' (omega arith) found sized,
      )
