-- ===== src/Hanafs/Image/RoundTrip.antt =====
-- Loading an image that was persisted.
use mathlib.Core.List.{append-nil}
use mathlib.Core.Path.{ap₂}
use hana_core.Prelude.{
  ℕ, suc, List, [], ◌∷◌, ◌++◌, ◌+◌, ◌-◌, ◌*◌, ◌%◌, ◌^◌, ◌≡◌, ◌≤◌, ◌<◌, refl, ap, sym, ◌∙◌, arith,
  some, Bool, true, length, take, drop, length-append,
}
use hana_core.Hanafs.Image.{
  is_magic, entry_size, HanaEntry, Ata, Hana, persist_lba, hdr_sz, stored_len, payload_len,
  le_bytes, le_value, entry_record, records, image, root_entry, padded, parse, write_sectors,
  read_sectors, sectors, rebuilt, load_from, hanafs_persist_to_ata, hanafs_load_from_ata,
}
use hana_core.Hanafs.Image.Codec.{
  bytes_kept, path_kept, IsStorable, AllStorable, reverse_onto, le4, take-all_append,
  parse-records_onto,
}
use hana_core.Hanafs.Image.Sectors.{
  IsDisk, whole, whole-split, write_sectors-ok, first_sector, later_sectors,
}

length-entry_record :
    (e : HanaEntry)
    → IsStorable e
    → length (entry_record e) ≡ 2 + 1 + 4 + length e.path + stored_len e
unfolding entry_record le_bytes
length-entry_record e s = omega (
  arith,
  ap length (ap₂ (λ (p b : List ℕ). p ++ b) (path_kept e s) (bytes_kept e s)),
  length-append e.path e.bytes,
  size,
)
  where
    size : length e.bytes ≡ stored_len e
    size = ground (arith, s.sized, s.dir_empty)

length-records : (es : List HanaEntry) → AllStorable es → length (records es) ≡ payload_len es
unfolding records payload_len
length-records [] s = refl
length-records (e ∷ es) s =
    length-append (entry_record e) (records es)
    ∙ omega (arith, length-entry_record e s.0, length-records es s.1)

length-image : (es : List HanaEntry) → AllStorable es → length (image es) ≡ hdr_sz + payload_len es
unfolding image le_bytes
length-image es s = omega (arith, length-records es s)

-- What a load reads in the first sector of an image.
first_magic : (es : List HanaEntry) → is_magic (padded (take 512 (image es))) ≡ true
unfolding image le_bytes
first_magic es = refl

first_count :
    (es : List HanaEntry)
    → length es < 2 ^ 32
    → le_value (take 4 (drop 8 (padded (take 512 (image es))))) ≡ length es
unfolding image le_bytes
first_count es few = le4 (length es % 2 ^ 32) (omega arith) ∙ omega (arith, few)

first_total :
    (es : List HanaEntry)
    → payload_len es < 2 ^ 32
    → le_value (take 4 (drop 12 (padded (take 512 (image es))))) ≡ payload_len es
unfolding image le_bytes
first_total es small = le4 (payload_len es % 2 ^ 32) (omega arith) ∙ omega (arith, small)

whole-image :
    (es : List HanaEntry) (n : ℕ)
    → AllStorable es
    → hdr_sz + payload_len es ≤ n * 512
    → take (hdr_sz + payload_len es) (whole n (image es)) ≡ image es
whole-image es n s h =
    let (zeros, e) = whole-split n (image es) (omega (arith, length-image es s)) in
    ap₂ (λ (k : ℕ) (l : List ℕ). take k l) {v = image es ++ zeros} (sym (length-image es s)) e
    ∙ take-all_append (image es) zeros

module _ {D : Type 0} (ata : Ata D) (alloc : ℕ → Bool) where
  -- Persisting changes the disk, not the entries.
  pub entries-hanafs_persist_to_ata :
      (h : Hana D) → (hanafs_persist_to_ata ata alloc h).1.entries ≡ h.entries
  unfolding hanafs_persist_to_ata
  entries-hanafs_persist_to_ata h = ground arith

module _ {D : Type 0} (ata : Ata D) (disk : IsDisk ata) (alloc : ℕ → Bool)
    (memory : (n : ℕ) → alloc n ≡ true) where
  rebuilt_lem :
      (es : List HanaEntry)
      → AllStorable es
      → rebuilt ata alloc (image es) (length es) ≡ (true, reverse_onto es (root_entry ∷ []))
  unfolding rebuilt image
  rebuilt_lem es s = rw (memory entry_size) (
      ap (λ (l : List HanaEntry). (true, l))
        (ap (λ (r : List ℕ). parse alloc (length es) r (root_entry ∷ []))
            (sym (append-nil (records es)))
          ∙ parse-records_onto alloc memory es [] (root_entry ∷ []) s))

  load_lem :
      (h : Hana D) (first more buf : List ℕ) (count total : ℕ) (entries : List HanaEntry)
      → is_magic first ≡ true
      → le_value (take 4 (drop 8 first)) ≡ count
      → hdr_sz + le_value (take 4 (drop 12 first)) ≡ total
      → read_sectors ata h.disk (persist_lba + 1) (sectors ata total - 1) ≡ some more
      → take total (first ++ more) ≡ buf
      → rebuilt ata alloc buf count ≡ (true, entries)
      → load_from ata alloc h first ≡ (true, record h { entries = entries })
  unfolding load_from
  load_lem h first more buf count total entries m c t r b e =
      rw (m, t, memory total, load_from) (rw (r, load_from) (rw (t, b, c, e)))

  persist_lem :
      (h : Hana D) (n : ℕ)
      → sectors ata (hdr_sz + payload_len h.entries) ≡ n
      → persist_lba + n < 2 ^ 32
      → hanafs_persist_to_ata ata alloc h ≡ (
        true,
        record h {
          disk = (write_sectors ata h.disk persist_lba (image h.entries) n).1;
          loaded_from_ata = true;
        },
      )
  unfolding hanafs_persist_to_ata
  persist_lem h n e fits = rw (
    memory (hdr_sz + payload_len h.entries),
    e,
    write_sectors-ok ata disk h.disk persist_lba (image h.entries) n fits,
  )

  load_written :
      (g : Hana D) (d : D) (es : List HanaEntry) (n : ℕ)
      → AllStorable es
      → length es < 2 ^ 32
      → payload_len es < 2 ^ 32
      → sectors ata (hdr_sz + payload_len es) ≡ suc n
      → persist_lba + suc n < 2 ^ 32
      → g.disk ≡ (write_sectors ata d persist_lba (image es) (suc n)).1
      → hanafs_load_from_ata ata alloc g
        ≡ (true, record g { entries = reverse_onto es (root_entry ∷ []) })
  unfolding hanafs_load_from_ata
  load_written g d es n s few small e fits same =
      rw
        (
          ap (λ (x : D). ata.read_sector x persist_lba) same
              ∙ first_sector ata disk d persist_lba (image es) n fits,
          hanafs_load_from_ata,
        )
        (load_lem g (padded (take 512 (image es))) (whole n (drop 512 (image es))) (image es)
          (length es) (hdr_sz + payload_len es) (reverse_onto es (root_entry ∷ [])) (first_magic es)
          (first_count es few) (ap (λ (k : ℕ). hdr_sz + k) (first_total es small)) more
          (whole-image es (suc n) s (omega (arith, e))) (rebuilt_lem es s))
    where
      more :
          read_sectors ata g.disk (persist_lba + 1) (sectors ata (hdr_sz + payload_len es) - 1)
          ≡ some (whole n (drop 512 (image es)))
      more =
          ap₂ (λ (x : D) (k : ℕ). read_sectors ata x (persist_lba + 1) k) {v = n} same
            (omega (arith, e))
          ∙ later_sectors ata disk d persist_lba (image es) n fits

  -- After the entries were persisted, which succeeds, loading from that disk, whatever the entries
  -- in memory are then, gives back the same entries in reverse order, with one more root behind
  -- them. The entries can be stored, there are fewer than 2^32, their records have fewer than 2^32
  -- bytes, and memory is there.
  pub hanafs_persist_to_ata-hanafs_load_from_ata :
      (h g : Hana D)
      → AllStorable h.entries
      → length h.entries < 2 ^ 32
      → payload_len h.entries < 2 ^ 32
      → let (ok, h') = hanafs_persist_to_ata ata alloc h in
        let g' : Hana D = record g { disk = h'.disk } in
        (ok ≡ true)
        × (hanafs_load_from_ata ata alloc g'
            ≡ (true, record g' { entries = reverse_onto h.entries (root_entry ∷ []) }))
  hanafs_persist_to_ata-hanafs_load_from_ata h g s few small =
      let n = sectors ata (hdr_sz + payload_len h.entries) - 1 in
      let count : sectors ata (hdr_sz + payload_len h.entries) ≡ suc n = omega arith in
      let fits : persist_lba + suc n < 2 ^ 32 = omega (arith, small) in
      rw (persist_lem h (suc n) count fits)
        (refl, load_written _ h.disk h.entries n s few small count fits refl)
