-- ===== src/Fat32/Module.antt =====
-- A volume in the image of a boot module: reads come from the image, writes go to the disk.
use hana_core.Prelude.{
  ◌-◌, ℕ, zero, suc, ◌+◌, ◌%◌, ◌^◌, ◌≡◌, refl, ap, sym, ◌∙◌, Bool, true, ◌&&◌, ◌||◌, ◌==◌, ltb,
  length, if◌then◌else◌, inl, inr, Bool-cases, Option-cases,
}
use hana_core.Hanafs.Image.{Ata}
use hana_core.Hanafs.Image.Sectors.{IsDisk}
use hana_core.Fat32.{
  entry_count, Volume, end_of_chain, patched, entry_in, ent_offset, sector_index, copy_lba,
  fat32_read_sector, read_fat_entry, write_copies, write_fat_entry, find_from, find_free_cluster,
  alloc_cluster,
}
use mathlib.Core.Path.{ap₂}

pub record IsInModule (v : Volume) : Type 0 where
  pub in_image :
      (v.module_drive && ltb 0 (length v.module_image) && ltb 0 v.bytes_per_sector) ≡ true

module _ {D : Type 0} (ata : Ata D) (v : Volume) (inside : IsInModule v) where
  read_same : (d d' : D) (lba : ℕ) → fat32_read_sector ata v d lba ≡ fat32_read_sector ata v d' lba
  unfolding fat32_read_sector
  read_same d d' lba = rw inside.in_image refl

  -- An entry is the same, whatever is on the disk.
  pub read_fat_entry_same :
      (d d' : D) (c : ℕ) → read_fat_entry ata v d c ≡ read_fat_entry ata v d' c
  unfolding read_fat_entry
  read_fat_entry_same d d' c = elim (Bool-cases (ltb 512 v.bytes_per_sector)) [
    | inl wide ↦ rw wide refl
    | inr narrow ↦ rw narrow (
        ap (entry_in ata v (ent_offset v c))
          (read_same d d' ((v.fat_begin_lba + sector_index v c) % 2 ^ 32)))
  ]

  find_from_same : (n c : ℕ) (d d' : D) → find_from ata v d c n ≡ find_from ata v d' c n
  unfolding find_from
  find_from_same zero c d d' = refl
  find_from_same (suc n) c d d' = elim (Bool-cases (read_fat_entry ata v d c == 0)) [
    | inl free ↦
        rw (free, find_from)
          (rw (ap (λ (e : ℕ). e == 0) (read_fat_entry_same d' d c) ∙ free, find_from) refl)
    | inr used ↦
        rw (used, find_from)
          (rw (ap (λ (e : ℕ). e == 0) (read_fat_entry_same d' d c) ∙ used, find_from)
            (find_from_same n (c + 1) d d'))
  ]

  find_free_cluster_same : (d d' : D) → find_free_cluster ata v d ≡ find_free_cluster ata v d'
  unfolding find_free_cluster
  find_free_cluster_same d d' =
      ap (λ (r : ℕ). if (v.fat_size == 0) || (v.bytes_per_sector == 0) then 0 else r)
        (find_from_same (entry_count v - 2) 2 d d')

  write_copies_same :
      (n i : ℕ) (d d' : D) (c w : ℕ)
      → IsDisk ata
      → (write_copies ata v d c w i n).0 ≡ (write_copies ata v d' c w i n).0
  unfolding write_copies
  write_copies_same zero i d d' c w disk = refl
  write_copies_same (suc n) i d d' c w disk =
      let lba = copy_lba ata v i c in
      elim (Option-cases (fat32_read_sector ata v d lba)) [
        | inl unread ↦
            rw (unread, write_copies) (rw (read_same d' d lba ∙ unread, write_copies) refl)
        | inr (s, found) ↦
            let new = patched s (ent_offset v c) w in
            rw (found, write_copies)
              (rw (read_same d' d lba ∙ found, write_copies)
                (rw (disk.works d lba new, write_copies)
                  (rw (disk.works d' lba new, write_copies)
                    (write_copies_same n (i + 1) (ata.write_sector d lba new).1
                      (ata.write_sector d' lba new).1 c w disk))))
      ]

  write_same :
      (d d' : D) (c w : ℕ)
      → IsDisk ata
      → (write_fat_entry ata v d c w).0 ≡ (write_fat_entry ata v d' c w).0
  unfolding write_fat_entry
  write_same d d' c w disk =
      elim (Bool-cases
        ((v.bytes_per_sector == 0) || (v.fat_size == 0) || ltb 4096 v.bytes_per_sector)) [
          | inl refused ↦ rw refused refl
          | inr fine ↦ rw fine (write_copies_same v.num_fats 0 d d' c (w % 2 ^ 28) disk)
        ]

  alloc_lem :
      (d : D)
      → (alloc_cluster ata v d).0 ≡ (
          if find_free_cluster ata v d == 0
          then 0
          else if (write_fat_entry ata v d (find_free_cluster ata v d) end_of_chain).0
          then find_free_cluster ata v d
          else 0)
  unfolding alloc_cluster
  alloc_lem d = elim (Bool-cases (find_free_cluster ata v d == 0)) [
    | inl full ↦ rw full refl
    | inr room ↦ rw room refl
  ]

  -- On such a volume the cluster that an allocation gives depends on nothing that was written: after
  -- any writes, an allocation on the changed disk gives the same cluster again. The disk works.
  pub alloc_cluster_same :
      IsDisk ata → (d d' : D) → (alloc_cluster ata v d).0 ≡ (alloc_cluster ata v d').0
  alloc_cluster_same disk d d' =
      alloc_lem d
      ∙ ap₂ (λ (c : ℕ) (done : Bool). if c == 0 then 0 else if done then c else 0)
          (find_free_cluster_same d d')
          (write_same d d' (find_free_cluster ata v d) end_of_chain disk
            ∙ ap (λ (c : ℕ). (write_fat_entry ata v d' c end_of_chain).0)
                (find_free_cluster_same d d'))
      ∙ sym (alloc_lem d')

  -- On a volume in the image of a boot module nothing that is written is ever read: two allocations in a row
  -- give the same cluster, and every entry is what it was. The disk works.
  pub alloc_cluster_twice :
      IsDisk ata
      → (d : D)
      → let (c, d') = alloc_cluster ata v d in
        ((alloc_cluster ata v d').0 ≡ c)
        × ((k : ℕ) → read_fat_entry ata v d' k ≡ read_fat_entry ata v d k)
  alloc_cluster_twice disk d =
      let d' = (alloc_cluster ata v d).1 in
      (alloc_cluster_same disk d' d, λ k. read_fat_entry_same d' d k)
