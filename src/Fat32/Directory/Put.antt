-- ===== src/Fat32/Directory/Put.antt =====
-- kernel/filesystem/fat32.cpp: where `write_dir_entry` puts an entry, and what it leaves alone.
use hana_core.Prelude.{
  length-drop, length-take, ℕ, List, ◌+◌, ◌^◌, ◌≡◌, ◌≢◌, ◌≤◌, ◌<◌, ◌⊎◌, refl, ap, sym, ◌∙◌, some,
  Bool, true, false, ltb, if◌then◌else◌, length, drop, arith, inl, inr, subst, some_eq,
}
use hana_core.Hanafs.Image.{Ata}
use hana_core.Hanafs.Image.Sectors.{IsDisk}
use hana_core.Fat32.{Volume, fat32_read_sector}
use hana_core.Fat32.Table.{IsOnDisk, IsReadable}
use hana_core.Fat32.Chain.{IsChain, contains}
use hana_core.Fat32.Directory.{Place, write_dir_entry, write_slot, entry_bytes, entry_at, put_entry}
use hana_core.Fat32.Directory.Entry.{
  Says, entry_bytes-Says, length-entry_bytes, entry_at-put_entry, entry_at-put_entry_other,
  length-put_entry,
}
use hana_core.Fat32.Directory.Slot.{IsSlot, FullChain, find_slot-Searched}

module _ {D : Type 0} (ata : Ata D) (v : Volume) where
  open v use {sectors_per_cluster}

  -- How an entry was put into a directory: the place, a free entry of a cluster of its chain; what
  -- the place says now; the other entries of the sector and the other sectors, as they were.
  pub record Placed (d d' : D) (cs name11 : List ℕ) (attr cluster size : ℕ) : Type 0 where
    pub place : Place
    pub home : ℕ
    pub in_chain : contains home cs ≡ true
    pub was_free : IsSlot ata v d home sectors_per_cluster place
    pub now : List ℕ
    pub reads_now : fat32_read_sector ata v d' place.lba ≡ some now
    pub says : Says (entry_at now place.off) name11 attr cluster size
    pub other_entries :
        (o : ℕ)
        → (o + 32 ≤ place.off) ⊎ (place.off + 32 ≤ o)
        → entry_at now o ≡ entry_at place.sector o
    pub other_sectors :
        (lba : ℕ) → place.lba ≢ lba → fat32_read_sector ata v d' lba ≡ fat32_read_sector ata v d lba

module _ {D : Type 0} (ata : Ata D) (v : Volume) (disk : IsDisk ata) (reads : IsReadable ata)
    (on : IsOnDisk v) where
  open v use {sectors_per_cluster}

  plain_read : (d : D) (lba : ℕ) → fat32_read_sector ata v d lba ≡ ata.read_sector d lba
  unfolding fat32_read_sector
  plain_read d lba = rw on.no_module refl

  all_read : (d : D) (lba : ℕ) → (x : List ℕ) × (fat32_read_sector ata v d lba ≡ some x)
  all_read d lba = let (x, e, n) = reads d lba in (x, plain_read d lba ∙ e)

  sized : (d : D) (lba : ℕ) (x : List ℕ) → fat32_read_sector ata v d lba ≡ some x → length x ≡ 512
  sized d lba x e =
      let (y, f, n) = reads d lba in ap length (some_eq (sym e ∙ plain_read d lba ∙ f)) ∙ n

  -- The place of a slot holds a whole entry.
  slot_fits :
      (d : D) (home : ℕ) (place : Place)
      → IsSlot ata v d home sectors_per_cluster place
      → place.off + 32 ≤ length place.sector
  slot_fits d home place (i, small, at_lba, found, k, few, at_off, free) =
      omega (arith, few, at_off, on.sectors_512, sized d place.lba place.sector found)

  write_slot-Placed :
      (d : D) (cs name11 : List ℕ) (attr cluster size : ℕ) (place : Place) (home : ℕ)
      → contains home cs ≡ true
      → IsSlot ata v d home sectors_per_cluster place
      → length name11 ≡ 11
      → cluster < 2 ^ 32
      → size < 2 ^ 32
      → Placed ata v d
          (write_slot ata v d name11 attr cluster size (some place)).1
          cs
          name11
          attr
          cluster
          size
  write_slot-Placed d cs name11 attr cluster size place home inside slot eleven fc fs =
      let sector_length = sized d place.lba place.sector slot.3 in
      let fits = slot_fits d home place slot in
      let old : List ℕ = entry_at place.sector place.off in
      let entry : List ℕ = entry_bytes old name11 attr cluster size in
      let old_length : length old ≡ 32 = omega (
        arith,
        fits,
        length-take 32 (drop place.off place.sector),
        length-drop place.off place.sector,
      ) in
      let entry_length = length-entry_bytes old name11 attr cluster size old_length eleven in
      let new : List ℕ = put_entry place.sector place.off entry in
      record {
        place = place;
        home = home;
        in_chain = inside;
        was_free = slot;
        now = new;
        reads_now =
            plain_read (write_slot ata v d name11 attr cluster size (some place)).1 place.lba
            ∙ disk.keeps d place.lba new
                (length-put_entry place.sector place.off entry fits entry_length ∙ sector_length);
        says =
            subst (λ (l : List ℕ). Says l name11 attr cluster size)
              (sym (
                entry_at-put_entry place.sector place.off entry (omega (arith, fits)) entry_length))
              (entry_bytes-Says old name11 attr cluster size old_length eleven fc fs);
        other_entries =
            λ o far. entry_at-put_entry_other place.sector place.off o entry fits entry_length far;
        other_sectors = λ lba ne.
            plain_read (write_slot ata v d name11 attr cluster size (some place)).1 lba
            ∙ disk.others d place.lba lba new ne
            ∙ sym (plain_read d lba);
      }

  -- `write_dir_entry` of a chain of clusters ends, with fuel for the clusters and one more. Where
  -- the chain has a free entry it succeeds and the entry is put into one, all the rest of the
  -- directory and of the disk unchanged; otherwise it fails and changes nothing.
  pub write_dir_entry-Placed :
      (f : ℕ) (d : D) (root parent : ℕ) (name11 : List ℕ) (attr first_cluster filesize : ℕ)
      (cs : List ℕ)
      → IsChain ata v d (if ltb parent 2 then root else parent) cs
      → length cs < f
      → length name11 ≡ 11
      → (first_cluster < 2 ^ 32) × (filesize < 2 ^ 32)
      → ((d' : D) × (write_dir_entry ata v f d root parent name11 attr first_cluster filesize
            ≡ some (true, d'))
          × Placed ata v d d' cs name11 attr first_cluster filesize)
        ⊎ ((write_dir_entry ata v f d root parent name11 attr first_cluster filesize
              ≡ some (false, d))
            × FullChain ata v d cs)
  unfolding write_dir_entry
  write_dir_entry-Placed f d root parent name11 attr first_cluster filesize cs chain fuel eleven
        (fc, fs) =
      let start : ℕ = if ltb parent 2 then root else parent in
      elim (find_slot-Searched ata v d (all_read d) f start cs chain fuel) [
        | inl (e, full) ↦ inr (rw e refl, full)
        | inr (place, e, home, inside, slot) ↦
            let r : Bool × D = write_slot ata v d name11 attr first_cluster filesize (some place) in
            inl (
              r.1,
              rw e (ap (λ (b : Bool). some (b, r.1)) (disk.works d place.lba _)),
              write_slot-Placed d cs name11 attr first_cluster filesize place home inside slot
                  eleven fc fs,
            )
      ]
