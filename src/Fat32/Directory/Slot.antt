-- ===== src/Fat32/Directory/Slot.antt =====
-- kernel/filesystem/fat32.cpp: the search of `write_dir_entry` for a free entry.
use hana_core.Prelude.{
  ℕ, zero, suc, List, [], ◌∷◌, ◌+◌, ◌-◌, ◌*◌, ◌≡◌, ◌<◌, ◌⊎◌, refl, ap, ◌∙◌, Option, none, some,
  true, false, ◌==◌, length, get_or, arith, inl, inr, le_or_lt, Bool-cases, Option-cases, subst,
}
use hana_core.Hanafs.Image.{Ata}
use hana_core.Fat32.{Volume, fat32_read_sector, read_fat_entry}
use hana_core.Fat32.Chain.{IsChain, contains}
use hana_core.Fat32.Directory.{
  Seen, passed, hit, Place, is_free, free_off, goes_on, sector_of, slot_in_cluster, find_slot,
  entries_per_sector,
}

-- How the search of a sector for a free entry ends.
abbrev Freeness : List ℕ → ℕ → ℕ → Option ℕ → Type 0
Freeness sector off n none = (k : ℕ) → k < n → is_free (get_or sector (off + 32 * k) 0) ≡ false
Freeness sector off n (some o) =
    (k : ℕ) × (k < n) × (o ≡ off + 32 * k) × (is_free (get_or sector o 0) ≡ true)

free_off-Freeness : (sector : List ℕ) (off n : ℕ) → Freeness sector off n (free_off sector off n)
unfolding free_off
free_off-Freeness sector off zero = λ k h. absurd (omega arith)
free_off-Freeness sector off (suc n) = elim (Bool-cases (is_free (get_or sector off 0))) [
  | inl free ↦ rw free (zero, omega arith, omega arith, free)
  | inr used ↦
      rw used (later used (free_off sector (off + 32) n) (free_off-Freeness sector (off + 32) n))
]
  where
    later :
        is_free (get_or sector off 0) ≡ false
        → (r : Option ℕ) → Freeness sector (off + 32) n r
        → Freeness sector off (suc n) r
    later used none all = λ k h. elim (le_or_lt k 0) [
      | inl first ↦
          ap (λ (o : ℕ). is_free (get_or sector o 0)) {y = off} (omega (arith, first)) ∙ used
      | inr more ↦
          ap (λ (o : ℕ). is_free (get_or sector o 0)) {y = off + 32 + 32 * (k - 1)}
            (omega (arith, more))
          ∙ all (k - 1) (omega (arith, h, more))
    ]
    later used (some o) (k, h, e, free) = (suc k, omega arith, omega (arith, e), free)

module _ {D : Type 0} (ata : Ata D) (v : Volume) where
  open v use {sectors_per_cluster, bytes_per_sector}

  -- None of the entries of `n` sectors of a cluster, and of a chain of clusters, is free.
  abbrev pub FullCluster : D → ℕ → ℕ → ℕ → Type 0
  FullCluster d c s n =
      (i : ℕ)
      → i < n
      → (x : List ℕ) × (fat32_read_sector ata v d (sector_of ata v c (s + i)) ≡ some x)
        × ((k : ℕ) → k < entries_per_sector ata v → is_free (get_or x (32 * k) 0) ≡ false)

  abbrev pub FullChain : D → List ℕ → Type 0
  FullChain d cs = (c : ℕ) → contains c cs ≡ true → FullCluster d c 0 sectors_per_cluster

  -- A free entry in a cluster.
  abbrev pub IsSlot : D → ℕ → ℕ → Place → Type 0
  IsSlot d c n place =
      (i : ℕ) × (i < n)
      × (place.lba ≡ sector_of ata v c i)
      × (fat32_read_sector ata v d place.lba ≡ some place.sector)
      × (k : ℕ) × (k < entries_per_sector ata v)
      × (place.off ≡ 32 * k)
      × (is_free (get_or place.sector place.off 0) ≡ true)

  -- How the search of a cluster, and that of a chain, ends.
  abbrev Slotted : D → ℕ → ℕ → ℕ → Option (Seen Place) → Type 0
  Slotted d c s n r =
      ((r ≡ some passed) × FullCluster d c s n)
      ⊎ ((place : Place) × (r ≡ some (hit place)) × IsSlot d c (s + n) place)

  -- What a cluster says of a sector that was read.
  sector_full :
      (x : List ℕ)
      → free_off x 0 (entries_per_sector ata v) ≡ none
      → (k : ℕ) → k < entries_per_sector ata v
      → is_free (get_or x (32 * k) 0) ≡ false
  sector_full x e k h =
      ap (λ (o : ℕ). is_free (get_or x o 0)) {y = 0 + 32 * k} (omega arith)
      ∙ subst (Freeness x 0 (entries_per_sector ata v)) e
          (free_off-Freeness x 0 (entries_per_sector ata v)) k h

  sector_slot :
      (x : List ℕ) (o : ℕ)
      → free_off x 0 (entries_per_sector ata v) ≡ some o
      → (k : ℕ) × (k < entries_per_sector ata v)
        × (o ≡ 0 + 32 * k)
        × (is_free (get_or x o 0) ≡ true)
  sector_slot x o e =
      subst (Freeness x 0 (entries_per_sector ata v)) e
        (free_off-Freeness x 0 (entries_per_sector ata v))

  -- A sector with no free entry in front of the others.
  further :
      (d : D) (c s n : ℕ) (x : List ℕ)
      → fat32_read_sector ata v d (sector_of ata v c s) ≡ some x
      → ((k : ℕ) → k < entries_per_sector ata v → is_free (get_or x (32 * k) 0) ≡ false)
      → (r : Option (Seen Place)) → Slotted d c (s + 1) n r
      → Slotted d c s (suc n) r
  further d c s n x e used r (inl (p, full)) = inl (
    p,
    λ i h. elim (le_or_lt i 0) [
      | inl first ↦ (
        x,
        ap (λ (t : ℕ). fat32_read_sector ata v d (sector_of ata v c t)) {x = s + i} {y = s}
              (omega (arith, first))
            ∙ e,
        used,
      )
      | inr more ↦
          let (y, read, rest) = full (i - 1) (omega (arith, h, more)) in
          (
            y,
            ap (λ (t : ℕ). fat32_read_sector ata v d (sector_of ata v c t)) {x = s + i}
                  {y = s + 1 + (i - 1)} (omega (arith, more))
                ∙ read,
            rest,
          )
    ],
  )
  further d c s n x e used r (inr (place, p, slot)) =
      inr (place, p, subst (λ (m : ℕ). IsSlot d c m place) {y = s + suc n} (omega arith) slot)

  slot_in_cluster-Slotted :
      (d : D)
      → ((lba : ℕ) → (x : List ℕ) × (fat32_read_sector ata v d lba ≡ some x))
      → (c n s : ℕ) → Slotted d c s n (slot_in_cluster ata v d c s n)
  unfolding slot_in_cluster
  slot_in_cluster-Slotted d reads c zero s = inl (refl, λ i h. absurd (omega arith))
  slot_in_cluster-Slotted d reads c (suc n) s =
      let (x, e) = reads (sector_of ata v c s) in
      rw (e, slot_in_cluster)
        (elim (Option-cases (free_off x 0 (entries_per_sector ata v))) [
          | inl full ↦
              rw (full, slot_in_cluster)
                (further d c s n x e (sector_full x full) (slot_in_cluster ata v d c (s + 1) n)
                  (slot_in_cluster-Slotted d reads c n (s + 1)))
          | inr (o, free) ↦
              let (k, small, place, at_free) = sector_slot x o free in
              rw (free, slot_in_cluster)
                (inr (
                  record { lba = sector_of ata v c s; sector = x; off = o },
                  refl,
                  (s, omega arith, refl, e, k, small, omega (arith, place), at_free),
                ))
        ])

  -- How the search of a chain ends.
  abbrev pub Searched : D → List ℕ → Option (Option Place) → Type 0
  Searched d cs r =
      ((r ≡ some none) × FullChain d cs)
      ⊎ ((place : Place) × (r ≡ some (some place))
          × (c : ℕ) × (contains c cs ≡ true)
          × IsSlot d c sectors_per_cluster place)

  -- A full cluster in front of a chain.
  in_front :
      (d : D) (c : ℕ) (xs : List ℕ)
      → FullCluster d c 0 sectors_per_cluster
      → (r : Option (Option Place)) → Searched d xs r
      → Searched d (c ∷ xs) r
  unfolding contains
  in_front d c xs full r (inl (e, all)) = inl (
    e,
    λ k h. elim (Bool-cases (k == c)) [
      | inl here ↦
          subst (λ (j : ℕ). FullCluster d j 0 sectors_per_cluster) {y = k} (ground (arith, here))
            full
      | inr other ↦ all k (ground (arith, h, other))
    ],
  )
  in_front d c xs full r (inr (place, e, k, h, slot)) = inr (place, e, k, ground (arith, h), slot)

  none_behind :
      (d : D) (next : ℕ) (xs : List ℕ)
      → IsChain ata v d next xs
      → goes_on next ≡ false
      → FullChain d xs
  unfolding contains
  none_behind d next [] chain stop = λ k h. cc
  none_behind d next (y ∷ ys) (same, low, high, has, once, chain) stop = ground (arith, stop)

  self : (c : ℕ) (xs : List ℕ) → contains c (c ∷ xs) ≡ true
  unfolding contains
  self c xs = ground arith

  pub find_slot-Searched :
      (d : D)
      → ((lba : ℕ) → (x : List ℕ) × (fat32_read_sector ata v d lba ≡ some x))
      → (f c : ℕ) (cs : List ℕ) → IsChain ata v d c cs
      → length cs < f
      → Searched d cs (find_slot ata v f d c)
  unfolding find_slot
  find_slot-Searched d reads zero c cs chain fuel = absurd (omega arith)
  find_slot-Searched d reads (suc f) c [] ended fuel =
      let stop : goes_on c ≡ false = ground (arith, ended) in
      rw stop (inl (refl, unfold contains in λ k h. cc))
  find_slot-Searched d reads (suc f) c (x ∷ xs) (same, low, high, has, once, chain) fuel =
      let start : goes_on c ≡ true = ground arith in
      let next : ℕ = read_fat_entry ata v d c in
      rw (same, start)
        (elim (slot_in_cluster-Slotted d reads c sectors_per_cluster 0) [
          | inr (place, e, slot) ↦
              rw (e, find_slot)
                (inr (
                  place,
                  refl,
                  c,
                  self c xs,
                  subst (λ (m : ℕ). IsSlot d c m place) {y = sectors_per_cluster} (omega arith)
                      slot,
                ))
          | inl (e, full) ↦
              rw (e, find_slot)
                (elim (Bool-cases (goes_on next)) [
                  | inl on ↦ rw on (
                      in_front d c xs full (find_slot ata v f d next)
                        (find_slot-Searched d reads f next xs chain (omega arith)))
                  | inr off ↦ rw off (
                      in_front d c xs full (some none)
                        (inl (refl, none_behind d next xs chain off)))
                ])
        ])
