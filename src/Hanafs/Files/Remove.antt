-- ===== src/Hanafs/Files/Remove.antt =====
-- Unlinking an entry, and removing a directory.
use hana_core.Prelude.{
  ℕ, List, ◌≡◌, ◌≢◌, ◌<◌, refl, sym, ap, ◌∙◌, Option, none, some, Bool, true, Bool-cases,
  Option-cases, inl, inr, arith, length, not, ◌||◌,
}
use hana_core.Prelude.Int.{ℤ}
use hana_core.Hanafs.Path.{Resolved, resolve}
use hana_core.Hanafs.Path.Shape.{
  resolve-IsNormal, resolve_normal, ipath_legacy, ipath_drive, take_enough,
}
use hana_core.Hanafs.Image.{HanaEntry, Ata, Hana}
use hana_core.Hanafs.Entries.{find_entry, remove_existing, unlinked, is_legacy, has_children}
use hana_core.Hanafs.Entries.Lookup.{
  IsUnique, find_entry-remove_existing, find_entry-remove_existing_ne, unlinked_plain, taken,
}
use hana_core.Hanafs.Files.{ok, persisted, has_buffer, hanafs_unlink, hanafs_remove_dir}
use hana_core.Hanafs.Files.Change.{entries-persisted}

legacy_none : (o : Option ℕ) → is_legacy o ≡ true → o ≡ none
legacy_none none h = refl
legacy_none (some d) h = cc

-- What the loop of `hanafs_unlink` takes out for a path of less than 512 bytes.
unlinked_short :
    (path : List ℕ) (es : List HanaEntry)
    → length (resolve path).pbuf < 512
    → unlinked (resolve path) es
      ≡ taken (resolve path).ipath es (find_entry es (resolve path).ipath)
unlinked_short path es small =
    unlinked_plain (resolve path) es
      (λ legacy. ipath_legacy path (legacy_none (resolve path).drv legacy) small)

module _ {D : Type 0} (ata : Ata D) (alloc : ℕ → Bool) where
  unlink_found :
      (h : Hana D) (path : List ℕ) (e : HanaEntry)
      → has_buffer ata alloc path ≡ true
      → length (resolve path).pbuf < 512
      → find_entry h.entries (resolve path).ipath ≡ some e
      → hanafs_unlink ata alloc h path ≡ (
        ok,
        persisted ata alloc (record h { entries = remove_existing (resolve path).ipath h.entries }),
      )
  unfolding hanafs_unlink
  unlink_found h path e room small found =
      rw (room, hanafs_unlink)
        (rw
          (
            unlinked_short path h.entries small ∙ ap (taken (resolve path).ipath h.entries) found,
            hanafs_unlink,
          )
          refl)

  -- An unlink that has the buffer of its path, which has less than 512 bytes when it is resolved, and
  -- that finds its entry among entries of which no two share a path: it succeeds, the entry is gone, and
  -- every other path has the entry it had.
  pub hanafs_unlink_present :
      (h : Hana D) (path : List ℕ) (e : HanaEntry)
      → IsUnique h.entries
      → has_buffer ata alloc path ≡ true
      → length (resolve path).pbuf < 512
      → find_entry h.entries (resolve path).ipath ≡ some e
      → let (r, h') = hanafs_unlink ata alloc h path in
        (r ≡ ok)
        × (find_entry h'.entries (resolve path).ipath ≡ none)
        × ((q : List ℕ)
            → (resolve path).ipath ≢ q
            → find_entry h'.entries q ≡ find_entry h.entries q)
  hanafs_unlink_present h path e u room small found =
      let p = (resolve path).ipath in
      let g : Hana D = record h { entries = remove_existing p h.entries } in
      let left = unlink_found h path e room small found in
      let es : (hanafs_unlink ata alloc h path).1.entries ≡ remove_existing p h.entries =
        ap (λ (x : ℤ × Hana D). x.1.entries) left ∙ entries-persisted ata alloc g in
      (
        ap (λ (x : ℤ × Hana D). x.0) left,
        ap (λ (l : List HanaEntry). find_entry l p) es ∙ find_entry-remove_existing p h.entries u,
        λ q ne.
            ap (λ (l : List HanaEntry). find_entry l q) es
            ∙ find_entry-remove_existing_ne p h.entries q ne,
      )

  -- Taking out the entry of `p`, or none.
  unlink_others :
      (h : Hana D) (path q : List ℕ)
      → length (resolve path).pbuf < 512
      → (resolve path).ipath ≢ q
      → find_entry (hanafs_unlink ata alloc h path).1.entries q ≡ find_entry h.entries q
  unfolding hanafs_unlink
  unlink_others h path q small ne = elim (Bool-cases (has_buffer ata alloc path)) [
    | inr full ↦ rw (full, hanafs_unlink) refl
    | inl room ↦ elim (Option-cases (find_entry h.entries (resolve path).ipath)) [
      | inl no_such ↦
          rw (room, hanafs_unlink)
            (rw
              (
                unlinked_short path h.entries small
                    ∙ ap (taken (resolve path).ipath h.entries) no_such,
                hanafs_unlink,
              )
              refl)
      | inr (e, found) ↦
          ap (λ (x : ℤ × Hana D). find_entry x.1.entries q) (unlink_found h path e room small found)
          ∙ ap (λ (l : List HanaEntry). find_entry l q)
              (entries-persisted ata alloc
                (record h { entries = remove_existing (resolve path).ipath h.entries }))
          ∙ find_entry-remove_existing_ne (resolve path).ipath h.entries q ne
    ]
  ]

  -- Removing a directory whose path names a drive and has less than 507 bytes behind it never removes
  -- that directory: whatever the call returns, the path has the entry it had.
  pub hanafs_remove_dir_drive :
      (h : Hana D) (path : List ℕ) (d : ℕ)
      → (resolve path).drv ≡ some d
      → length (resolve path).pbuf < 507
      → find_entry (hanafs_remove_dir ata alloc h path).1.entries (resolve path).ipath
        ≡ find_entry h.entries (resolve path).ipath
  unfolding hanafs_remove_dir
  hanafs_remove_dir_drive h path d drive small =
      let r = resolve path in
      let again = resolve_normal r.pbuf (resolve-IsNormal path) in
      elim (Bool-cases (not (has_buffer ata alloc path) || has_children r h.entries)) [
        | inl kept ↦ rw (kept, hanafs_remove_dir) refl
        | inr empty ↦
            rw (empty, hanafs_remove_dir)
              (unlink_others h r.pbuf r.ipath
                (omega (arith, ap (λ (x : Resolved). length x.pbuf) again))
                (λ same. ipath_drive path d drive small (
                  sym (take_enough 511 r.pbuf (omega arith))
                  ∙ sym (ap (λ (x : Resolved). x.ipath) again)
                  ∙ same)))
      ]
