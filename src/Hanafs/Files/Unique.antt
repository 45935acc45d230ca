-- ===== src/Hanafs/Files/Unique.antt =====
-- No two entries share a path, as long as no image is loaded.
use hana_core.Prelude.{
  ℕ, List, ◌∷◌, ◌≡◌, refl, sym, subst, Option, none, some, Bool, false, Bool-cases, Option-cases,
  inl, inr, arith, not, ◌&&◌, ◌||◌,
}
use hana_core.Prelude.Int.{ℤ, pos, negsuc}
use hana_core.Hanafs.Path.{resolve}
use hana_core.Hanafs.Image.{HanaEntry, Ata, Hana, entry_size}
use hana_core.Hanafs.Files.{
  hanafs_set_persist_enabled, hanafs_persist_to_ata, root_entry, make_all, hanafs_init,
  hanafs_format_ata_master, hanafs_create_file, [], persisted, has_buffer, hanafs_write_file,
  hanafs_unlink, hanafs_make_dir, hanafs_remove_dir,
}
use hana_core.Hanafs.Entries.{
  top_dirs, find_entry, unlinked, dir_entry, is_legacy, is_there, has_children,
}
use hana_core.Hanafs.Entries.Lookup.{
  IsUnique, find_entry-remove_existing, remove_existing-IsUnique, unlinked-IsUnique,
}
use hana_core.Hanafs.Files.Change.{entries-persisted, Ending, hanafs_write_file-Ending}

module _ {D : Type 0} (ata : Ata D) (alloc : ℕ → Bool) where
  Ending-IsUnique :
      (h : Hana D) (p bytes : List ℕ) (r : ℤ × Hana D)
      → IsUnique h.entries
      → Ending ata alloc h p bytes r
      → IsUnique r.1.entries
  Ending-IsUnique h p bytes r u (Ending.unchanged e) =
      subst (λ (x : ℤ × Hana D). IsUnique x.1.entries) (sym e) u
  Ending-IsUnique h p bytes r u (Ending.lost f e) =
      subst IsUnique (sym e) (remove_existing-IsUnique p h.entries u)
  Ending-IsUnique h p bytes r u (Ending.written f e) = subst IsUnique (sym e) (
      unfold IsUnique in
      (find_entry-remove_existing p h.entries u, remove_existing-IsUnique p h.entries u))

  pub hanafs_write_file-IsUnique :
      (h : Hana D) (path bytes : List ℕ)
      → IsUnique h.entries
      → IsUnique (hanafs_write_file ata alloc h path bytes).1.entries
  hanafs_write_file-IsUnique h path bytes u =
      Ending-IsUnique h (resolve path).ipath bytes (hanafs_write_file ata alloc h path bytes) u
        (hanafs_write_file-Ending ata alloc h path bytes)

  persisted-IsUnique : (h : Hana D) → IsUnique h.entries → IsUnique (persisted ata alloc h).entries
  persisted-IsUnique h u = subst IsUnique (sym (entries-persisted ata alloc h)) u

  pub hanafs_unlink-IsUnique :
      (h : Hana D) (path : List ℕ)
      → IsUnique h.entries
      → IsUnique (hanafs_unlink ata alloc h path).1.entries
  unfolding hanafs_unlink
  hanafs_unlink-IsUnique h path u = elim (Bool-cases (has_buffer ata alloc path)) [
    | inr small ↦ rw (small, hanafs_unlink) u
    | inl room ↦ elim (Option-cases (unlinked (resolve path) h.entries)) [
      | inl no_such ↦ rw (room, hanafs_unlink) (rw (no_such, hanafs_unlink) u)
      | inr (es, left) ↦
          rw (room, hanafs_unlink)
            (rw (left, hanafs_unlink)
              (persisted-IsUnique (record h { entries = es })
                (unlinked-IsUnique (resolve path) h.entries es u left)))
    ]
  ]

  is_there-false : (o : Option HanaEntry) → is_there o ≡ false → o ≡ none
  is_there-false none h = refl
  is_there-false (some e) h = cc

  pub hanafs_make_dir-IsUnique :
      (h : Hana D) (path : List ℕ)
      → IsUnique h.entries
      → IsUnique (hanafs_make_dir ata alloc h path).1.entries
  unfolding hanafs_make_dir
  hanafs_make_dir-IsUnique h path u =
      let r = resolve path in
      let old = is_there (find_entry h.entries r.ipath) in
      let legacy = is_legacy r.drv && is_there (find_entry h.entries r.pbuf) in
      elim (Bool-cases (has_buffer ata alloc path)) [
        | inr small ↦ rw (small, hanafs_make_dir) u
        | inl room ↦ elim (Bool-cases (old || legacy)) [
          | inl taken ↦ rw (room, taken) u
          | inr free ↦ elim (Bool-cases (alloc entry_size)) [
            | inr full ↦ rw (room, free, full) u
            | inl entry ↦
                rw (room, free, entry)
                  (persisted-IsUnique (record h { entries = dir_entry r.ipath ∷ h.entries })
                    (unfold IsUnique in
                      (is_there-false (find_entry h.entries r.ipath) (left old legacy free), u)))
          ]
        ]
      ]
    where
      left : (a b : Bool) → (a || b) ≡ false → a ≡ false
      left a b h = ground arith

  pub hanafs_remove_dir-IsUnique :
      (h : Hana D) (path : List ℕ)
      → IsUnique h.entries
      → IsUnique (hanafs_remove_dir ata alloc h path).1.entries
  unfolding hanafs_remove_dir
  hanafs_remove_dir-IsUnique h path u =
      elim (Bool-cases (not (has_buffer ata alloc path) || has_children (resolve path) h.entries)) [
        | inl kept ↦ rw (kept, hanafs_remove_dir) u
        | inr empty ↦ rw (empty, hanafs_remove_dir) (hanafs_unlink-IsUnique h (resolve path).pbuf u)
      ]

  make_all-IsUnique :
      (h : Hana D) (ps : List (List ℕ))
      → IsUnique h.entries
      → IsUnique (make_all ata alloc h ps).entries
  make_all-IsUnique h [] u = u
  make_all-IsUnique h (p ∷ ps) u =
      make_all-IsUnique (hanafs_make_dir ata alloc h p).1 ps (hanafs_make_dir-IsUnique h p u)

  root_alone : IsUnique (root_entry ∷ [])
  unfolding IsUnique find_entry
  root_alone = (refl, tt)

  pub hanafs_init-IsUnique :
      (h : Hana D) → IsUnique h.entries → IsUnique (hanafs_init ata alloc h).1.entries
  unfolding hanafs_init
  hanafs_init-IsUnique h u = first h.entries refl
    where
      first : (es : List HanaEntry) → h.entries ≡ es → IsUnique (hanafs_init ata alloc h).1.entries
      first (e ∷ es) same = rw (same, hanafs_init) u
      first [] same = elim (Bool-cases (alloc entry_size && alloc 2)) [
        | inl room ↦
            rw (same, hanafs_init)
              (rw room
                (make_all-IsUnique (record h { entries = root_entry ∷ [] }) top_dirs root_alone))
        | inr full ↦ rw (same, hanafs_init) (rw full u)
      ]

  pub hanafs_format_ata_master-IsUnique :
      (h : Hana D) (n : ℤ)
      → IsUnique h.entries
      → IsUnique (hanafs_format_ata_master ata alloc h n).1.entries
  unfolding hanafs_format_ata_master
  hanafs_format_ata_master-IsUnique h n u = elim (Bool-cases (alloc entry_size && alloc 2)) [
    | inr full ↦ rw full (unfold IsUnique in tt)
    | inl room ↦
        let done = (hanafs_persist_to_ata ata alloc (record h { entries = root_entry ∷ [] })).0 in
        elim (Bool-cases done) [
          | inl saved ↦ rw (room, saved) root_kept
          | inr lost ↦ rw (room, lost) root_kept
        ]
  ]
    where
      root_kept :
          IsUnique
            (hanafs_persist_to_ata ata alloc (record h { entries = root_entry ∷ [] })).1.entries
      root_kept = persisted-IsUnique (record h { entries = root_entry ∷ [] }) root_alone

-- A call that changes the entries, other than a load, and the memory it finds.
pub data Call : Type 0 where
  write_file : List ℕ → List ℕ → Call
  create_file : List ℕ → Call
  unlink : List ℕ → Call
  make_dir : List ℕ → Call
  remove_dir : List ℕ → Call
  init : Call
  format : ℤ → Call
  set_persist : ℤ → Call

unfoldable pub call : {D : Type 0} → Ata D → (ℕ → Bool) → Call → Hana D → Hana D
unfolding hanafs_create_file hanafs_set_persist_enabled
call ata alloc (write_file path bytes) h = (hanafs_write_file ata alloc h path bytes).1
call ata alloc (create_file path) h = (hanafs_create_file ata alloc h path).1
call ata alloc (unlink path) h = (hanafs_unlink ata alloc h path).1
call ata alloc (make_dir path) h = (hanafs_make_dir ata alloc h path).1
call ata alloc (remove_dir path) h = (hanafs_remove_dir ata alloc h path).1
call ata alloc init h = (hanafs_init ata alloc h).1
call ata alloc (format n) h = (hanafs_format_ata_master ata alloc h n).1
call ata alloc (set_persist n) h = hanafs_set_persist_enabled h n

call-IsUnique :
    {D : Type 0} (ata : Ata D) (alloc : ℕ → Bool) (c : Call) (h : Hana D)
    → IsUnique h.entries
    → IsUnique (call ata alloc c h).entries
unfolding call
call-IsUnique ata alloc (write_file path bytes) h u =
    hanafs_write_file-IsUnique ata alloc h path bytes u
call-IsUnique ata alloc (create_file path) h u = hanafs_write_file-IsUnique ata alloc h path [] u
call-IsUnique ata alloc (unlink path) h u = hanafs_unlink-IsUnique ata alloc h path u
call-IsUnique ata alloc (make_dir path) h u = hanafs_make_dir-IsUnique ata alloc h path u
call-IsUnique ata alloc (remove_dir path) h u = hanafs_remove_dir-IsUnique ata alloc h path u
call-IsUnique ata alloc init h u = hanafs_init-IsUnique ata alloc h u
call-IsUnique ata alloc (format n) h u = hanafs_format_ata_master-IsUnique ata alloc h n u
call-IsUnique ata alloc (set_persist (pos n)) h u = u
call-IsUnique ata alloc (set_persist (negsuc n)) h u = u

unfoldable pub calls : {D : Type 0} → Ata D → List ((ℕ → Bool) × Call) → Hana D → Hana D
unfolding call
calls ata [] h = h
calls ata ((alloc, c) ∷ cs) h = calls ata cs (call ata alloc c h)

-- No two entries share a path after any sequence of calls, each with the memory it finds and whether
-- or not it succeeds, that starts where no two share one. Loading an image is not such a call.
pub calls-IsUnique :
    {D : Type 0} (ata : Ata D) (cs : List ((ℕ → Bool) × Call)) (h : Hana D)
    → IsUnique h.entries
    → IsUnique (calls ata cs h).entries
unfolding calls
calls-IsUnique ata [] h u = u
calls-IsUnique ata ((alloc, c) ∷ cs) h u =
    calls-IsUnique ata cs (call ata alloc c h) (call-IsUnique ata alloc c h u)
