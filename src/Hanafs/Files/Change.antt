-- ===== src/Hanafs/Files/Change.antt =====
-- What writing and unlinking a file do to every path.
use hana_core.Prelude.{
  ℕ, List, ◌∷◌, ◌+◌, ◌≡◌, ◌≢◌, refl, ap, ◌∙◌, none, some, Bool, true, false, Bool-cases,
  Option-cases, inl, inr, arith, length, not, ltb, ◌&&◌, ◌==◌, if◌then◌else◌,
}
use hana_core.Prelude.Int.{ℤ}
use hana_core.Prelude.Text.{eq_text}
use hana_core.Hanafs.Path.{resolve}
use hana_core.Hanafs.Image.{HanaEntry, Ata, Hana, entry_size}
use hana_core.Hanafs.Files.{
  ok, failed, persisted, has_buffer, add_file, contents_of, hanafs_write_file,
  hanafs_get_file_alloc,
}
use hana_core.Hanafs.Entries.{find_entry, remove_existing, file_entry, history}
use hana_core.Hanafs.Image.RoundTrip.{entries-hanafs_persist_to_ata}
use hana_core.Hanafs.Image.Codec.{take-whole}
use hana_core.Hanafs.Entries.Lookup.{
  IsUnique, find_entry_hit, find_entry_miss, find_entry-remove_existing_ne,
  find_entry-remove_existing,
}

module _ {D : Type 0} (ata : Ata D) (alloc : ℕ → Bool) where
  -- Persisting leaves the entries alone.
  pub entries-persisted : (h : Hana D) → (persisted ata alloc h).entries ≡ h.entries
  entries-persisted h = entries-hanafs_persist_to_ata ata alloc h

  entries-add_file :
      (h : Hana D) (p bytes : List ℕ)
      → ((add_file ata alloc h p bytes).0 ≡ ok)
        × ((add_file ata alloc h p bytes).1.entries ≡ file_entry p bytes ∷ h.entries)
  entries-add_file h p bytes = elim (Bool-cases (not (eq_text p history) && h.persist_enabled)) [
    | inl save ↦
        rw save (refl, entries-persisted (record h { entries = file_entry p bytes ∷ h.entries }))
    | inr keep ↦ rw keep (refl, refl)
  ]

  -- The three ways a call of `hanafs_write_file` ends.
  pub data Ending (h : Hana D) (p bytes : List ℕ) (r : ℤ × Hana D) : Type 0 where
    unchanged : r ≡ (failed, h) → Ending h p bytes r
    lost : r.0 ≡ failed → r.1.entries ≡ remove_existing p h.entries → Ending h p bytes r
    written :
        r.0 ≡ ok
        → r.1.entries ≡ file_entry p bytes ∷ remove_existing p h.entries
        → Ending h p bytes r

  pub hanafs_write_file-Ending :
      (h : Hana D) (path bytes : List ℕ)
      → Ending h (resolve path).ipath bytes (hanafs_write_file ata alloc h path bytes)
  unfolding hanafs_write_file
  hanafs_write_file-Ending h path bytes = elim (Bool-cases (has_buffer ata alloc path)) [
    | inr small ↦ unchanged (rw (small, hanafs_write_file) refl)
    | inl room ↦ elim (Bool-cases (alloc entry_size)) [
      | inr full ↦ lost (rw (room, full) refl) (rw (room, full) refl)
      | inl entry ↦ elim (Bool-cases (ltb 0 (length bytes) && not (alloc (length bytes)))) [
        | inl full ↦ lost (rw (room, entry, full) refl) (rw (room, entry, full) refl)
        | inr fits ↦
            let (done, es) =
              entries-add_file
                (record h { entries = remove_existing (resolve path).ipath h.entries })
                (resolve path).ipath bytes in
            written (rw (room, entry, fits) done) (rw (room, entry, fits) es)
      ]
    ]
  ]

  -- With memory, a call ends with the file written.
  hanafs_write_file_entries :
      (h : Hana D) (path bytes : List ℕ)
      → ((n : ℕ) → alloc n ≡ true)
      → ((hanafs_write_file ata alloc h path bytes).0 ≡ ok)
        × ((hanafs_write_file ata alloc h path bytes).1.entries
            ≡ file_entry (resolve path).ipath bytes
              ∷ remove_existing (resolve path).ipath h.entries)
  unfolding hanafs_write_file
  hanafs_write_file_entries h path bytes memory =
      rw
        (
          memory (length path + 2),
          memory entry_size,
          memory (length bytes),
          no_lack (ltb 0 (length bytes)),
        )
        (entries-add_file (record h { entries = remove_existing (resolve path).ipath h.entries })
          (resolve path).ipath bytes)
    where
      no_lack : (b : Bool) → (b && false) ≡ false
      no_lack b = ground arith

  contents_of-file_entry :
      (p bytes : List ℕ)
      → ((n : ℕ) → alloc n ≡ true)
      → contents_of ata alloc (file_entry p bytes) ≡ some bytes
  contents_of-file_entry p bytes memory =
      rw (memory (if length bytes == 0 then 1 else length bytes)) (ap some (take-whole bytes))

  get_found :
      (h : Hana D) (path : List ℕ) (e : HanaEntry)
      → has_buffer ata alloc path ≡ true
      → find_entry h.entries (resolve path).ipath ≡ some e
      → hanafs_get_file_alloc ata alloc h path ≡ contents_of ata alloc e
  unfolding hanafs_get_file_alloc
  get_found h path e room found = rw (room, hanafs_get_file_alloc) (rw found refl)

  -- Where memory is there, writing a file succeeds, whatever bytes it has, and reading the same path
  -- then gives these bytes.
  pub hanafs_write_file-hanafs_get_file_alloc :
      (h : Hana D) (path bytes : List ℕ)
      → ((n : ℕ) → alloc n ≡ true)
      → let (r, h') = hanafs_write_file ata alloc h path bytes in
        (r ≡ ok) × (hanafs_get_file_alloc ata alloc h' path ≡ some bytes)
  hanafs_write_file-hanafs_get_file_alloc h path bytes memory =
      let (done, es) = hanafs_write_file_entries h path bytes memory in
      let p = (resolve path).ipath in
      (
        done,
        get_found (hanafs_write_file ata alloc h path bytes).1 path (file_entry p bytes)
              (memory (length path + 2))
              (ap (λ (l : List HanaEntry). find_entry l p) es
                ∙ find_entry_hit (file_entry p bytes) (remove_existing p h.entries) p refl)
            ∙ contents_of-file_entry p bytes memory,
      )

  -- What a call leaves at the other paths.
  others :
      (h : Hana D) (p q bytes : List ℕ) (r : ℤ × Hana D)
      → p ≢ q
      → Ending h p bytes r
      → find_entry r.1.entries q ≡ find_entry h.entries q
  others h p q bytes r ne (unchanged e) = ap (λ (x : ℤ × Hana D). find_entry x.1.entries q) e
  others h p q bytes r ne (lost f e) =
      ap (λ (l : List HanaEntry). find_entry l q) e ∙ find_entry-remove_existing_ne p h.entries q ne
  others h p q bytes r ne (written f e) =
      ap (λ (l : List HanaEntry). find_entry l q) e
      ∙ find_entry_miss (file_entry p bytes) (remove_existing p h.entries) q ne
      ∙ find_entry-remove_existing_ne p h.entries q ne

  get_same :
      (g h : Hana D) (path : List ℕ)
      → find_entry g.entries (resolve path).ipath ≡ find_entry h.entries (resolve path).ipath
      → hanafs_get_file_alloc ata alloc g path ≡ hanafs_get_file_alloc ata alloc h path
  unfolding hanafs_get_file_alloc
  get_same g h path same = elim (Option-cases (find_entry h.entries (resolve path).ipath)) [
    | inl no_such ↦
        rw (no_such, hanafs_get_file_alloc) (rw (same ∙ no_such, hanafs_get_file_alloc) refl)
    | inr (e, found) ↦
        rw (found, hanafs_get_file_alloc) (rw (same ∙ found, hanafs_get_file_alloc) refl)
  ]

  -- However a write ends, reading a path that belongs to another entry gives what it gave before.
  pub hanafs_write_file_others :
      (h : Hana D) (path other bytes : List ℕ)
      → (resolve path).ipath ≢ (resolve other).ipath
      → hanafs_get_file_alloc ata alloc (hanafs_write_file ata alloc h path bytes).1 other
        ≡ hanafs_get_file_alloc ata alloc h other
  hanafs_write_file_others h path other bytes ne =
      get_same (hanafs_write_file ata alloc h path bytes).1 h other (
        others h (resolve path).ipath (resolve other).ipath bytes
          (hanafs_write_file ata alloc h path bytes) ne (hanafs_write_file-Ending h path bytes))

  -- A write that fails when it has the buffer of its path loses the old file: no two entries share a
  -- path before, memory for the entry is missing, and no entry of the path is left.
  pub hanafs_write_file_lost :
      (h : Hana D) (path bytes : List ℕ)
      → IsUnique h.entries
      → has_buffer ata alloc path ≡ true
      → alloc entry_size ≡ false
      → let (r, h') = hanafs_write_file ata alloc h path bytes in
        (r ≡ failed) × (find_entry h'.entries (resolve path).ipath ≡ none)
  unfolding hanafs_write_file
  hanafs_write_file_lost h path bytes u room full =
      rw (room, full) (refl, find_entry-remove_existing (resolve path).ipath h.entries u)
