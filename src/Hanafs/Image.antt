-- ===== src/Hanafs/Image.antt =====
-- kernel/filesystem/hanafs.cpp: the entries, and their image on the disk. A disk is an interface:
-- kernel/drivers/ide.cpp implements it by port I/O. `alloc n` says whether an allocation of `n`
-- bytes succeeds during the call. Bytes behind the end of the image's buffer are read as zeros.
pub mod Codec
pub mod Sectors
pub mod RoundTrip
use hana_core.Prelude.{
  ℕ, zero, suc, List, [], ◌∷◌, ◌++◌, ◌+◌, ◌-◌, ◌*◌, ◌/◌, ◌%◌, ◌^◌, Option, none, some, Bool, true,
  false, not, ltb, ◌==◌, ◌&&◌, ◌||◌, if◌then◌else◌, length, take, drop, replicate,
}

pub record HanaEntry : Type 0 where
  pub path : List ℕ
  pub is_dir : Bool
  pub bytes : List ℕ
  pub len : ℕ

-- A disk: reading fails or gives the 512 bytes of a sector, writing says whether it succeeded.
pub record Ata (D : Type 0) : Type 0 where
  pub read_sector : D → ℕ → Option (List ℕ)
  pub write_sector : D → ℕ → List ℕ → Bool × D

-- `g_head`, `g_loaded_from_ata`, `g_hanafs_persist_enabled` and the disk.
pub record Hana (D : Type 0) : Type 0 where
  pub entries : List HanaEntry
  pub loaded_from_ata : Bool
  pub persist_enabled : Bool
  pub disk : D

abbrev pub persist_lba : ℕ
persist_lba = 2048

abbrev pub entry_size : ℕ
entry_size = 40

abbrev pub hdr_sz : ℕ
hdr_sz = 16

-- The `k` lowest bytes of a number, lowest first, and the number back.
unfoldable pub le_bytes : ℕ → ℕ → List ℕ
le_bytes zero v = []
le_bytes (suc k) v = v % 256 ∷ le_bytes k (v / 256)

unfoldable pub le_value : List ℕ → ℕ
le_value [] = 0
le_value (c ∷ cs) = c + 256 * le_value cs

abbrev pub stored_len : HanaEntry → ℕ
stored_len e = if e.is_dir then 0 else e.len

-- The sum of the first loop.
unfoldable pub payload_len : List HanaEntry → ℕ
payload_len [] = 0
payload_len (e ∷ es) = 2 + 1 + 4 + length e.path + stored_len e + payload_len es

unfoldable pub entry_record : HanaEntry → List ℕ
unfolding le_bytes
entry_record e =
    let plen = length e.path % 2 ^ 16 in
    let dlen = stored_len e % 2 ^ 32 in
    le_bytes 2 plen
    ++ ((if e.is_dir then 1 else 0) ∷ [])
    ++ le_bytes 4 dlen
    ++ take plen e.path
    ++ take dlen e.bytes

unfoldable pub records : List HanaEntry → List ℕ
unfolding entry_record
records [] = []
records (e ∷ es) = entry_record e ++ records es

abbrev pub magic : List ℕ
magic = b'H' ∷ b'A' ∷ b'N' ∷ b'A' ∷ []

-- The whole image.
unfoldable pub image : List HanaEntry → List ℕ
unfolding records payload_len le_bytes
image es =
    magic
    ++ le_bytes 4 1
    ++ le_bytes 4 (length es % 2 ^ 32)
    ++ le_bytes 4 (payload_len es % 2 ^ 32)
    ++ records es

abbrev pub root_entry : HanaEntry
root_entry = record { path = b'/' ∷ []; is_dir = true; bytes = []; len = 0 }

-- A sector of at most 512 bytes and zeros behind them.
abbrev pub padded : List ℕ → List ℕ
padded bytes = bytes ++ replicate (512 - length bytes) 0

-- `dlen` bytes of what is left of the buffer.
abbrev pub copied : ℕ → List ℕ → List ℕ
copied n rest = take n rest ++ replicate (n - length rest) 0

abbrev pub is_magic : List ℕ → Bool
is_magic (a ∷ b ∷ c ∷ d ∷ rest) = (a == b'H') && (b == b'A') && (c == b'N') && (d == b'A')
is_magic _ = false

module _ (alloc : ℕ → Bool) where
  -- An entry whose header is read, and what is left of the buffer; `none` ends the loop.
  unfoldable pub parse_fields : ℕ → Bool → ℕ → List ℕ → Option (HanaEntry × List ℕ)
  parse_fields plen is_dir dlen rest =
      let e : HanaEntry = record {
        path = take plen rest;
        is_dir = is_dir;
        bytes = [];
        len = dlen;
      } in
      let body = drop plen rest in
      if ltb (length rest) plen
      then none
      else if not (alloc (plen + 1) && alloc entry_size)
      then none
      else if is_dir || (dlen == 0)
      then some (e, body)
      else if alloc dlen
      then some (record e { bytes = copied dlen body }, drop dlen body)
      else none

  unfoldable pub parse_entry : List ℕ → Option (HanaEntry × List ℕ)
  unfolding le_value parse_fields
  parse_entry rest =
      if ltb (length rest) 7
      then none
      else (parse_fields (le_value (take 2 rest)) (not (le_value (take 1 (drop 2 rest)) == 0))
          (le_value (take 4 (drop 3 rest))) (drop 7 rest))

  -- The parsing loop: `rest` is the buffer from `pos` on, `head` the list made so far.
  unfoldable pub parse : ℕ → List ℕ → List HanaEntry → List HanaEntry
  unfolding parse_entry
  parse zero rest head = head
  parse (suc n) rest head = elim (parse_entry rest) [
    | none ↦ head
    | some (e, rest') ↦ parse n rest' (e ∷ head)
  ]

module _ {D : Type 0} (ata : Ata D) where
  open ata use {read_sector, write_sector}

  -- The loop that writes `n` sectors from `sector` on. A sector number is a `uint32_t`.
  unfoldable pub write_sectors : D → ℕ → List ℕ → ℕ → Bool × D
  write_sectors disk sector buf zero = (true, disk)
  write_sectors disk sector buf (suc n) =
      let (ok, disk') = write_sector disk sector (padded (take 512 buf)) in
      elim ok [
        | false ↦ (false, disk')
        | true ↦ write_sectors disk' ((sector + 1) % 2 ^ 32) (drop 512 buf) n
      ]

  unfoldable pub read_sectors : D → ℕ → ℕ → Option (List ℕ)
  read_sectors disk sector zero = some []
  read_sectors disk sector (suc n) = elim (read_sector disk sector) [
    | none ↦ none
    | some bytes ↦ elim (read_sectors disk ((sector + 1) % 2 ^ 32) n) [
      | none ↦ none
      | some more ↦ some (bytes ++ more)
    ]
  ]

  -- Sectors that hold `total` bytes.
  abbrev pub sectors : ℕ → ℕ
  sectors total = (total + 511) / 512

  module _ (alloc : ℕ → Bool) where
    -- `true` is a result of 0.
    unfoldable pub hanafs_persist_to_ata : Hana D → Bool × Hana D
    unfolding image payload_len write_sectors
    hanafs_persist_to_ata h =
        let total = hdr_sz + payload_len h.entries in
        if alloc total
        then (let (ok, disk) = write_sectors h.disk persist_lba (image h.entries) (sectors total) in
            (
              ok,
              record h { disk = disk; loaded_from_ata = if ok then true else h.loaded_from_ata },
            ))
        else (false, h)

    -- The entries that an image's buffer gives: none at all where there is no memory for the root.
    unfoldable pub rebuilt : List ℕ → ℕ → Bool × List HanaEntry
    unfolding parse
    rebuilt buf entry_count =
        if alloc entry_size
        then (true, parse alloc entry_count (drop hdr_sz buf) (root_entry ∷ []))
        else (false, [])

    -- From the first sector, which has the header.
    unfoldable pub load_from : Hana D → List ℕ → Bool × Hana D
    unfolding rebuilt read_sectors le_value
    load_from h first =
        let entry_count = le_value (take 4 (drop 8 first)) in
        let total = hdr_sz + le_value (take 4 (drop 12 first)) in
        if is_magic first && alloc total
        then elim (read_sectors h.disk (persist_lba + 1) (sectors total - 1)) [
          | none ↦ (false, h)
          | some more ↦
              let (ok, entries) = rebuilt (take total (first ++ more)) entry_count in
              (ok, record h { entries = entries })
        ]
        else (false, h)

    unfoldable pub hanafs_load_from_ata : Hana D → Bool × Hana D
    unfolding load_from
    hanafs_load_from_ata h = elim (read_sector h.disk persist_lba) [
      | none ↦ (false, h)
      | some first ↦ load_from h first
    ]
