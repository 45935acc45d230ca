-- ===== src/Hanafs/Tests.antt =====
-- The file system on a disk that is a function from sectors to their bytes.
use hana_core.Prelude.{
  ℕ, List, [], ◌∷◌, ◌≡◌, ◌≢◌, refl, ap, none, some, Bool, true, false, ◌==◌, if◌then◌else◌, length,
  get_or, replicate, arith,
}
use hana_core.Hanafs.Path.{resolve}
use hana_core.Hanafs.Image.{
  payload_len, Ata, Hana, root_entry, hanafs_persist_to_ata, hanafs_load_from_ata,
}
use hana_core.Hanafs.Image.Codec.{AllStorable, reverse_onto}
use hana_core.Hanafs.Image.Sectors.{IsDisk}
use hana_core.Hanafs.Image.RoundTrip.{hanafs_persist_to_ata-hanafs_load_from_ata}
use hana_core.Hanafs.Entries.{find_entry, file_entry, dir_entry}
use hana_core.Hanafs.Entries.Lookup.{IsUnique}
use hana_core.Hanafs.Files.{
  ok, hanafs_write_file, hanafs_get_file_alloc, hanafs_unlink, hanafs_remove_dir, hanafs_list_dir,
  hanafs_init,
}
use hana_core.Hanafs.Files.Change.{hanafs_write_file-hanafs_get_file_alloc}
use hana_core.Hanafs.Files.Unique.{Call, write_file, make_dir, unlink, calls, calls-IsUnique}
use hana_core.Hanafs.Files.Remove.{hanafs_unlink_present}
use hana_core.Prelude.Text.{eq_text}

abbrev Disk : Type 0
Disk = ℕ → List ℕ

abbrev memory_disk : Ata Disk
memory_disk = record {
  read_sector = λ d n. some (d n);
  write_sector = λ d n bytes. (true, λ m. if m == n then bytes else d m);
}

memory_disk-IsDisk : IsDisk memory_disk
memory_disk-IsDisk = record {
  works = λ d n bytes. refl;
  keeps = λ d n bytes h. ap some (same d n bytes);
  others = λ d n m bytes ne. ap some (other d n m bytes ne);
}
  where
    same : (d : Disk) (n : ℕ) (bytes : List ℕ) → (if n == n then bytes else d n) ≡ bytes
    same d n bytes = ground arith

    other : (d : Disk) (n m : ℕ) (bytes : List ℕ) → n ≢ m → (if m == n then bytes else d m) ≡ d m
    other d n m bytes ne = ground arith

abbrev plenty : ℕ → Bool
plenty n = true

-- "/a" and "/b", and "/a" on the second drive.
abbrev path_a : List ℕ
path_a = b'/' ∷ b'a' ∷ []

abbrev path_b : List ℕ
path_b = b'/' ∷ b'b' ∷ []

abbrev path_drive : List ℕ
path_drive = b'1' ∷ b':' ∷ b'/' ∷ b'a' ∷ []

abbrev blank : Hana Disk
blank = record {
  entries = [];
  loaded_from_ata = false;
  persist_enabled = false;
  disk = λ n. replicate 512 0;
}

abbrev filled : Hana Disk
filled = record blank {
  entries = file_entry path_a (7 ∷ 8 ∷ []) ∷ dir_entry path_b ∷ root_entry ∷ [];
}

filled-IsUnique : IsUnique filled.entries
unfolding IsUnique find_entry eq_text
filled-IsUnique = (refl, (refl, (refl, tt)))

filled-AllStorable : AllStorable filled.entries
filled-AllStorable = (
  record { path_fits = omega arith; len_fits = omega arith; sized = refl; dir_empty = refl },
  (
    record { path_fits = omega arith; len_fits = omega arith; sized = refl; dir_empty = refl },
    (
      record { path_fits = omega arith; len_fits = omega arith; sized = refl; dir_empty = refl },
      tt,
    ),
  ),
)

hanafs_persist_to_ata-hanafs_load_from_ata_example :
    let (done, h') = hanafs_persist_to_ata memory_disk plenty filled in
    let g' : Hana Disk = record blank { disk = h'.disk } in
    (done ≡ true)
    × (hanafs_load_from_ata memory_disk plenty g'
        ≡ (true, record g' { entries = reverse_onto filled.entries (root_entry ∷ []) }))
hanafs_persist_to_ata-hanafs_load_from_ata_example =
    hanafs_persist_to_ata-hanafs_load_from_ata memory_disk memory_disk-IsDisk plenty (λ n. refl)
      filled blank filled-AllStorable (omega arith) (unfold payload_len in omega arith)

hanafs_write_file-hanafs_get_file_alloc_example :
    let (r, h') = hanafs_write_file memory_disk plenty filled path_a (1 ∷ 2 ∷ 3 ∷ []) in
    (r ≡ ok) × (hanafs_get_file_alloc memory_disk plenty h' path_a ≡ some (1 ∷ 2 ∷ 3 ∷ []))
hanafs_write_file-hanafs_get_file_alloc_example =
    hanafs_write_file-hanafs_get_file_alloc memory_disk plenty filled path_a (1 ∷ 2 ∷ 3 ∷ [])
      (λ n. refl)

a_ne_b : (resolve path_a).ipath ≢ (resolve path_b).ipath
unfolding resolve
a_ne_b same = omega (arith, ap (λ (l : List ℕ). get_or l 1 0) same)

-- There is memory for the path of four bytes, not for an entry.
abbrev little : ℕ → Bool
little n = n == 4

abbrev three_calls : List ((ℕ → Bool) × Call)
three_calls =
    (plenty, write_file path_a []) ∷ (little, make_dir path_b) ∷ (plenty, unlink path_a) ∷ []

calls-IsUnique_example : IsUnique (calls memory_disk three_calls filled).entries
calls-IsUnique_example = calls-IsUnique memory_disk three_calls filled filled-IsUnique

hanafs_unlink_present_example :
    let (r, h') = hanafs_unlink memory_disk plenty filled path_a in
    (r ≡ ok)
    × (find_entry h'.entries (resolve path_a).ipath ≡ none)
    × ((q : List ℕ)
        → (resolve path_a).ipath ≢ q
        → find_entry h'.entries q ≡ find_entry filled.entries q)
hanafs_unlink_present_example =
    hanafs_unlink_present memory_disk plenty filled path_a (file_entry path_a (7 ∷ 8 ∷ []))
      filled-IsUnique refl (unfold resolve in omega arith)
      (unfold resolve find_entry eq_text in refl)

-- A directory of the second drive, beside one of the same name on none.
abbrev drives : Hana Disk
drives = record blank {
  entries =
      dir_entry (b'/' ∷ b'd' ∷ b'r' ∷ b'v' ∷ b'1' ∷ b'/' ∷ b'a' ∷ [])
      ∷ dir_entry path_a
      ∷ root_entry
      ∷ [];
}

-- Here the call removes the other directory, and says that it succeeded.
remove_other :
    ((hanafs_remove_dir memory_disk plenty drives path_drive).0 ≡ ok)
    × (find_entry (hanafs_remove_dir memory_disk plenty drives path_drive).1.entries path_a ≡ none)
unfolding hanafs_remove_dir find_entry eq_text hanafs_persist_to_ata
remove_other = (refl, refl)

-- Listing "/a" gives "b" for "/ab".
list_other :
    hanafs_list_dir memory_disk plenty
      (record blank { entries = dir_entry (b'/' ∷ b'a' ∷ b'b' ∷ []) ∷ [] })
      path_a
    ≡ (ok, (b'b' ∷ []) ∷ [])
unfolding hanafs_list_dir
list_other = refl

-- The four directories that a start makes, and the root.
init_dirs : length (hanafs_init memory_disk plenty blank).1.entries ≡ 5
unfolding hanafs_init eq_text hanafs_persist_to_ata
init_dirs = refl
