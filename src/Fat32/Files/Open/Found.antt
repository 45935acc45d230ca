-- ===== src/Fat32/Files/Open/Found.antt =====
-- kernel/filesystem/fat32.cpp: what `fat32_get_file_alloc` makes of the entry of a file.
use hana_core.Prelude.{
  ℕ, List, [], ◌^◌, ◌≡◌, ◌≤◌, ◌<◌, refl, ap, sym, ◌∙◌, none, some, Bool, true, false, ◌==◌, length,
  take, arith,
}
use hana_core.Hanafs.Image.{Ata}
use hana_core.Libc.Number.{strtol, atoi, signed, decimal_char}
use hana_core.Libc.Number.Digits.{printed, truncated-fill_tmp}
use hana_core.Libc.Number.Scan.{decimal_char-Reads}
use hana_core.Libc.Number.RoundTrip.{strtol-printed, decimal_char-Leads, atoi_word}
use hana_core.Fat32.{Volume}
use hana_core.Fat32.Chain.{IsChain}
use hana_core.Fat32.Directory.Entry.{Says}
use hana_core.Fat32.Files.{to_uint32}
use hana_core.Fat32.Files.Content.{fat32_read_file}
use hana_core.Fat32.Files.Read.{ReadsChain, chain_bytes, fat32_read_file_at}
use hana_core.Fat32.Files.Open.{cluster_text, read_found}
use mathlib.Core.List.{append-nil}

-- The digits of a cluster's number are read as the number.
cluster_number : (c : ℕ) → c < 2 ^ 28 → to_uint32 (atoi (cluster_text c)) ≡ c
unfolding cluster_text to_uint32
cluster_number c h =
    ap (λ (l : List ℕ). to_uint32 (atoi l)) (truncated-fill_tmp decimal_char 10 10 c)
    ∙ ap to_uint32 (
        atoi_word (printed decimal_char 10 10 c) [] c (
          ap (λ (l : List ℕ). strtol l 10) (sym (append-nil _))
          ∙ strtol-printed decimal_char 10 (omega arith) decimal_char-Reads decimal_char-Leads 10 c
              [] (omega arith) (omega arith) tt refl))
    ∙ unfold signed in ground arith

module _ {D : Type 0} (ata : Ata D) (v : Volume) (served : ℕ → Bool) where
  open v use {sectors_per_cluster, bytes_per_sector}

  -- An entry of a file with bytes gives as many bytes as it says from the chain of its cluster, or
  -- all of them if they are fewer, with fuel for the clusters and one more, where the heap has memory
  -- for them and the sectors can be read and have at most 4096 bytes.
  pub read_found-chain_bytes :
      (f : ℕ) (d : D) (entry name11 cs : List ℕ) (attr cluster size : ℕ)
      → Says entry name11 attr cluster size
      → IsChain ata v d cluster cs
      → ReadsChain ata v d cs
      → length cs < f
      → (2 ≤ cluster) × (cluster < 2 ^ 28)
      → 0 < size
      → served size ≡ true
      → (0 < bytes_per_sector) × (bytes_per_sector ≤ 4096) × (0 < sectors_per_cluster)
      → read_found ata v served f d entry ≡ some (some (take size (chain_bytes ata v d cs)))
  unfolding read_found
  read_found-chain_bytes f d entry name11 cs attr cluster size says chain r fuel (low, high)
        some_bytes memory sizes =
      let some_size : size == 0 ≡ false = ground arith in
      rw (says.bytes, says.start)
        (rw (some_size) (
          rw memory (
            fat32_read_file_at ata v f d cluster size cs (cluster_text cluster) chain r fuel low
              some_bytes sizes (cluster_number cluster high))))

  -- A file with no cluster, as every file is that was just created, cannot be opened: the result is
  -- the null pointer, whether the heap has memory or not.
  pub read_found_empty :
      (f : ℕ) (d : D) (entry name11 : List ℕ) (attr size : ℕ)
      → Says entry name11 attr 0 size
      → read_found ata v served f d entry ≡ some none
  unfolding read_found fat32_read_file
  read_found_empty f d entry name11 attr size says =
      rw (says.start) (rw (cluster_number 0 (omega arith)) (ground arith))
