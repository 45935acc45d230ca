-- ===== src/Fat32/Files/Tests.antt =====
-- Files on the volume of Fat32/Tests, whose clusters 2 and 3 are a chain.
use hana_core.Prelude.{
  ◌==◌, map, ◌++◌, ℕ, ◌≡◌, ◌⊎◌, refl, List, [], ◌∷◌, some, true, false, take, arith,
}
use hana_core.Libc.Number.{utoa, emit, fill_tmp, fill, reversed, decimal_char}
use hana_core.Fat32.{length, none, fat32_read_sector}
use hana_core.Fat32.Tests.{
  Disk, sectors_disk, volume, chained, sectors_disk-IsDisk, sectors_disk-IsReadable,
  volume-IsOnDisk, chained-IsChain,
}
use hana_core.Fat32.Name.{fat_toupper, format_short_name}
use hana_core.Fat32.Directory.{entry_bytes}
use hana_core.Fat32.Directory.Entry.{Says, entry_bytes-Says}
use hana_core.Fat32.Files.Listing.{fat32_list_dir}
use hana_core.Fat32.Files.Listing.Names.{names_of, chain_entries, fat32_list_dir-names_of}
use hana_core.Fat32.Files.Open.{name_matches, read_found}
use hana_core.Fat32.Files.Open.Match.{name_matches-extension}
use hana_core.Fat32.Files.Open.Found.{read_found_empty}
use hana_core.Fat32.Directory.Slot.{FullChain}
use hana_core.Fat32.Directory.Put.{Placed}
use hana_core.Fat32.Files.{replicate, fat32_create_file}
use hana_core.Fat32.Files.Create.{name_bytes, fat32_create_file-Placed}
use hana_core.Fat32.Files.Content.{fat32_read_file}
use hana_core.Fat32.Files.Read.{ReadsChain, chain_bytes, fat32_read_file-chain_bytes}

abbrev two : List ℕ
two = b'2' ∷ []

abbrev log_name : List ℕ
log_name = b'l' ∷ b'o' ∷ b'g' ∷ []

two_printed : utoa 2 24 ≡ some two
unfolding utoa emit fill_tmp fill reversed decimal_char
two_printed = refl

chained-ReadsChain : ReadsChain sectors_disk volume chained (2 ∷ 3 ∷ [])
unfolding fat32_read_sector
chained-ReadsChain = (((_, refl), tt), (((_, refl), tt), tt))

fat32_read_file-chain_bytes_example :
    fat32_read_file sectors_disk volume true 3 chained two 600
    ≡ some (some (take 600 (chain_bytes sectors_disk volume chained (2 ∷ 3 ∷ []))))
fat32_read_file-chain_bytes_example =
    fat32_read_file-chain_bytes sectors_disk volume 3 chained 2 600 (2 ∷ 3 ∷ []) two chained-IsChain
      chained-ReadsChain (omega arith) (omega arith, omega arith) (omega arith)
      (omega arith, omega arith, omega arith) two_printed

fat32_create_file-Placed_example :
    ((d' : Disk) × (fat32_create_file sectors_disk volume true 3 chained 2 (b'/' ∷ log_name)
        ≡ some (true, d'))
      × Placed sectors_disk volume chained d' (2 ∷ 3 ∷ []) (name_bytes log_name) 0x20 0 0)
    ⊎ ((fat32_create_file sectors_disk volume true 3 chained 2 (b'/' ∷ log_name)
          ≡ some (false, chained))
        × FullChain sectors_disk volume chained (2 ∷ 3 ∷ []))
fat32_create_file-Placed_example =
    fat32_create_file-Placed sectors_disk volume sectors_disk-IsDisk sectors_disk-IsReadable
      volume-IsOnDisk 3 chained 2 log_name (2 ∷ 3 ∷ []) chained-IsChain (omega arith) (cc)
      (omega arith) (omega arith) (omega arith)

-- The name `a.c`.
name_matches-extension_example :
    (entry : List ℕ) × (format_short_name ((b'a' ∷ []) ++ (b'.' ∷ (b'c' ∷ []))) ≡ some entry)
    × (name_matches (map fat_toupper ((b'a' ∷ []) ++ (b'.' ∷ (b'c' ∷ [])))) entry
        ≡ (length {A = ℕ} (b'c' ∷ []) == 3))
name_matches-extension_example =
    name_matches-extension (b'a' ∷ []) (b'c' ∷ []) (cc) (omega arith) (omega arith) (cc)
      (omega arith) (omega arith)

-- The entry of a file that was just created.
abbrev new_entry : List ℕ
new_entry = entry_bytes (replicate 32 0) (name_bytes log_name) 0x20 0 0

new_entry-Says : Says new_entry (name_bytes log_name) 0x20 0 0
new_entry-Says =
    entry_bytes-Says (replicate 32 0) (name_bytes log_name) 0x20 0 0 refl refl (omega arith)
      (omega arith)

read_found_empty_example :
    read_found sectors_disk volume (λ size. true) 3 chained new_entry ≡ some none
read_found_empty_example =
    read_found_empty sectors_disk volume (λ size. true) 3 chained new_entry (name_bytes log_name)
      0x20 0 new_entry-Says

fat32_list_dir-names_of_example :
    fat32_list_dir sectors_disk volume true 3 chained 2 (b'/' ∷ [])
    ≡ some (true, names_of (chain_entries sectors_disk volume chained (2 ∷ 3 ∷ [])))
fat32_list_dir-names_of_example =
    fat32_list_dir-names_of sectors_disk volume 3 chained 2 (2 ∷ 3 ∷ []) chained-IsChain
      chained-ReadsChain (omega arith) (omega arith) (omega arith, omega arith)
