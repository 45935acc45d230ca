-- ===== src/Hanafs/Files.antt =====
-- kernel/filesystem/hanafs.cpp: the calls on files and directories. A result of 0 is `ok`, one of -1
-- is `failed`. `alloc n` says whether an allocation of `n` bytes succeeds during the call; the copies
-- of a path whose failure the source does not test are made. Giving memory back and logging are
-- left out.
pub mod Change
pub mod Unique
pub mod Remove
use hana_core.Prelude.{
  ℕ, zero, suc, List, [], ◌∷◌, ◌++◌, ◌+◌, Option, none, some, Bool, true, false, not, ltb, ◌==◌,
  ◌&&◌, ◌||◌, if◌then◌else◌, length, take,
}
use hana_core.Prelude.Int.{ℤ, pos, negsuc}
use hana_core.Prelude.Text.{eq_text, behind}
use hana_core.Hanafs.Path.{Resolved, resolve}
use hana_core.Hanafs.Entries.{
  Dirent, HanaDirObj, HanaStat, dir_entry, file_entry, find_entry, has_children, has_slash, history,
  is_legacy, is_there, names_in, or_legacy, remove_existing, skip_slash, stat_of, top_dirs,
  unlinked,
}
use hana_core.Hanafs.Image.{HanaEntry, Ata, Hana, entry_size, root_entry, hanafs_persist_to_ata}

abbrev pub ok : ℤ
ok = pos 0

abbrev pub failed : ℤ
failed = negsuc 0

unfoldable pub hanafs_set_persist_enabled : {D : Type 0} → Hana D → ℤ → Hana D
hanafs_set_persist_enabled h (pos n) = record h { persist_enabled = ltb 0 n }
hanafs_set_persist_enabled h (negsuc n) = record h { persist_enabled = true }

module _ {D : Type 0} (ata : Ata D) (alloc : ℕ → Bool) where
  abbrev pub has_buffer : List ℕ → Bool
  has_buffer path = alloc (length path + 2)

  abbrev pub persisted : Hana D → Hana D
  persisted h = (hanafs_persist_to_ata ata alloc h).1

  -- A new file in front of the list, and the image on the disk.
  abbrev pub add_file : Hana D → List ℕ → List ℕ → ℤ × Hana D
  add_file h path bytes =
      let h' : Hana D = record h { entries = file_entry path bytes ∷ h.entries } in
      (ok, if not (eq_text path history) && h.persist_enabled then persisted h' else h')

  -- The file that was there before is gone in every case.
  unfoldable pub hanafs_write_file : Hana D → List ℕ → List ℕ → ℤ × Hana D
  unfolding resolve remove_existing
  hanafs_write_file h path bytes =
      if not (has_buffer path)
      then (failed, h)
      else (let ipath = (resolve path).ipath in
          let h' : Hana D = record h { entries = remove_existing ipath h.entries } in
          if not (alloc entry_size)
          then (failed, h')
          else if ltb 0 (length bytes) && not (alloc (length bytes))
          then (failed, h')
          else add_file h' ipath bytes)

  unfoldable pub hanafs_create_file : Hana D → List ℕ → ℤ × Hana D
  unfolding hanafs_write_file
  hanafs_create_file h path = hanafs_write_file h path []

  -- The bytes of a file; their number is `*out_len`.
  abbrev pub contents_of : HanaEntry → Option (List ℕ)
  contents_of e =
      if e.is_dir || not (alloc (if e.len == 0 then 1 else e.len))
      then none
      else some (take e.len e.bytes)

  unfoldable pub hanafs_get_file_alloc : Hana D → List ℕ → Option (List ℕ)
  unfolding resolve find_entry
  hanafs_get_file_alloc h path =
      if not (has_buffer path)
      then none
      else elim (find_entry h.entries (resolve path).ipath) [ none ↦ none | some e ↦ contents_of e ]

  -- The names that the callback is given.
  unfoldable pub hanafs_list_dir : Hana D → List ℕ → ℤ × List (List ℕ)
  unfolding resolve names_in
  hanafs_list_dir h path =
      if has_buffer path then (ok, names_in (resolve path) h.entries) else (failed, [])

  -- `sizeof(HanaDirObj)` is 24.
  unfoldable pub hanafs_opendir : Hana D → List ℕ → Option HanaDirObj
  unfolding resolve
  hanafs_opendir h path =
      if has_buffer path && alloc 24
      then some (record { ipath = (resolve path).ipath; next = h.entries })
      else none

  -- `sizeof(struct hana_dirent)` is 272.
  abbrev pub make_dirent : List ℕ → Bool → Option Dirent
  make_dirent name is_dir =
      if alloc 272
      then some (record { d_name = take 255 name; d_type = if is_dir then 1 else 0 })
      else none

  abbrev pub read_name : List ℕ → HanaEntry → Option (List ℕ)
  read_name ipath e = if eq_text e.path ipath then none else elim (behind ipath e.path) [
    | none ↦ none
    | some rest ↦ if has_slash (skip_slash rest) then none else some (skip_slash rest)
  ]

  unfoldable pub read_from : List ℕ → List HanaEntry → Option Dirent × List HanaEntry
  unfolding behind has_slash
  read_from ipath [] = (none, [])
  read_from ipath (e ∷ es) = elim (read_name ipath e) [
    | none ↦ read_from ipath es
    | some name ↦ (make_dirent name e.is_dir, es)
  ]

  unfoldable pub hanafs_readdir : HanaDirObj → Option Dirent × HanaDirObj
  unfolding read_from
  hanafs_readdir d = let (r, next) = read_from d.ipath d.next in (r, record d { next = next })

  unfoldable pub hanafs_unlink : Hana D → List ℕ → ℤ × Hana D
  unfolding resolve unlinked
  hanafs_unlink h path =
      if has_buffer path
      then elim (unlinked (resolve path) h.entries) [
        | none ↦ (failed, h)
        | some es ↦ (ok, persisted (record h { entries = es }))
      ]
      else (failed, h)

  unfoldable pub hanafs_make_dir : Hana D → List ℕ → ℤ × Hana D
  unfolding resolve find_entry
  hanafs_make_dir h path =
      let r = resolve path in
      if not (has_buffer path)
      then (failed, h)
      else if is_there (find_entry h.entries r.ipath)
          || (is_legacy r.drv && is_there (find_entry h.entries r.pbuf))
      then (failed, h)
      else if alloc entry_size
      then (ok, persisted (record h { entries = dir_entry r.ipath ∷ h.entries }))
      else (failed, h)

  unfoldable pub hanafs_remove_dir : Hana D → List ℕ → ℤ × Hana D
  unfolding resolve has_children hanafs_unlink
  hanafs_remove_dir h path =
      let r = resolve path in
      if not (has_buffer path) || has_children r h.entries
      then (failed, h)
      else hanafs_unlink h r.pbuf

  unfoldable pub hanafs_stat : Hana D → List ℕ → Option HanaStat
  unfolding resolve find_entry
  hanafs_stat h path =
      let r = resolve path in
      let legacy = if is_legacy r.drv then find_entry h.entries r.pbuf else none in
      if has_buffer path
      then elim (or_legacy (find_entry h.entries r.ipath) legacy) [
        | none ↦ none
        | some e ↦ some (stat_of e)
      ]
      else none

  abbrev pub make_all : Hana D → List (List ℕ) → Hana D
  make_all h [] = h
  make_all h (p ∷ ps) = make_all (hanafs_make_dir h p).1 ps

  -- The path of the root is a copy of two bytes.
  unfoldable pub hanafs_init : Hana D → ℤ × Hana D
  unfolding hanafs_make_dir
  hanafs_init h = elim h.entries [
    | e ∷ es ↦ (ok, h)
    | [] ↦
        if alloc entry_size && alloc 2
        then (ok, make_all (record h { entries = root_entry ∷ [] }) top_dirs)
        else (failed, h)
  ]

  unfoldable pub hanafs_format_ata_master : Hana D → ℤ → ℤ × Hana D
  unfolding hanafs_persist_to_ata
  hanafs_format_ata_master h drive_number =
      if alloc entry_size && alloc 2
      then (let (done, h') =
            hanafs_persist_to_ata ata alloc (record h { entries = root_entry ∷ [] }) in
          if done then (ok, record h' { loaded_from_ata = true }) else (failed, h'))
      else (failed, record h { entries = [] })
