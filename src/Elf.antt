-- ===== src/Elf.antt =====
-- kernel/userland/elf_loader.cpp: loading a program image. `data` gives the byte at an offset from
-- the start of the blob, also behind its `size` bytes; the bytes copied into the image are the list
-- of the copies made.
pub mod Bounds
mod Tests
use hana_core.Prelude.{
  ◌%◌, ℕ, zero, suc, List, [], ◌∷◌, ◌+◌, ◌*◌, ◌^◌, ◌-◌, Option, none, some, Bool, true, false, ltb,
  leb, ◌&&◌, ◌||◌, ◌==◌, if◌then◌else◌, not,
}
use hana_core.Prelude.Word.{add64, sub64, mul64, minus_one}
use hana_core.Mem.Bump.{Boot, page, bump_alloc_alloc}

-- The fields that the loader reads.
pub record Elf64Ehdr : Type 0 where
  pub e_entry : ℕ
  pub e_phoff : ℕ
  pub e_phentsize : ℕ
  pub e_phnum : ℕ

pub record Elf64Phdr : Type 0 where
  pub p_type : ℕ
  pub p_offset : ℕ
  pub p_vaddr : ℕ
  pub p_filesz : ℕ
  pub p_memsz : ℕ

-- A copy of `count` bytes from an offset of the blob to an address.
pub record Copy : Type 0 where
  pub dest : ℕ
  pub from : ℕ
  pub count : ℕ

abbrev pub ehdr_size : ℕ
ehdr_size = 64

abbrev pub max_user_image : ℕ
max_user_image = 64 * 1024 * 1024

-- A little-endian number of `n` bytes.
unfoldable pub read_le : (ℕ → ℕ) → ℕ → ℕ → ℕ
read_le data_at o zero = 0
read_le data_at o (suc n) = data_at o + 256 * read_le data_at (o + 1) n

unfoldable pub is_valid_elf64 : (ℕ → ℕ) → Bool
is_valid_elf64 data_at =
    (data_at 0 == 0x7f) && (data_at 1 == b'E') && (data_at 2 == b'L') && (data_at 3 == b'F')

unfoldable pub ehdr : (ℕ → ℕ) → Elf64Ehdr
unfolding read_le
ehdr data_at = record {
  e_entry = read_le data_at 24 8;
  e_phoff = read_le data_at 32 8;
  e_phentsize = read_le data_at 54 2;
  e_phnum = read_le data_at 56 2;
}

unfoldable pub phdr : (ℕ → ℕ) → ℕ → Elf64Phdr
unfolding read_le
phdr data_at o = record {
  p_type = read_le data_at o 4;
  p_offset = read_le data_at (o + 8) 8;
  p_vaddr = read_le data_at (o + 16) 8;
  p_filesz = read_le data_at (o + 32) 8;
  p_memsz = read_le data_at (o + 40) 8;
}

-- The product of two `uint16_t`, which is an `int`, as it is added to a 64-bit offset. C leaves an
-- overflow undefined; here it wraps as in the machine.
abbrev pub int_product : ℕ → ℕ → ℕ
int_product i n = let p : ℕ = i * n % 2 ^ 32 in if ltb p (2 ^ 31) then p else p + (2 ^ 64 - 2 ^ 32)

-- The `n` program headers from index `i` on.
unfoldable pub phdrs : (ℕ → ℕ) → Elf64Ehdr → ℕ → ℕ → List Elf64Phdr
unfolding phdr
phdrs data_at eh i zero = []
phdrs data_at eh i (suc n) =
    phdr data_at (add64 eh.e_phoff (int_product i eh.e_phentsize)) ∷ phdrs data_at eh (i + 1) n

-- The bounds after a segment that is loaded.
abbrev pub lower : Elf64Phdr → ℕ → ℕ
lower p lo = if ltb p.p_vaddr lo then p.p_vaddr else lo

abbrev pub higher : Elf64Phdr → ℕ → ℕ
higher p hi = let end = add64 p.p_vaddr p.p_memsz in if ltb hi end then end else hi

-- The first loop, from the bounds found so far.
unfoldable pub span : List Elf64Phdr → ℕ → ℕ → ℕ × ℕ
span [] lo hi = (lo, hi)
span (p ∷ ps) lo hi = elim (p.p_type == 1) [
  | false ↦ span ps lo hi
  | true ↦ span ps (lower p lo) (higher p hi)
]

-- The second loop: whether it ran to its end, and the copies made.
unfoldable pub load : ℕ → ℕ → ℕ → ℕ → List Elf64Phdr → Bool × List Copy
load size mem total lo [] = (true, [])
load size mem total lo (p ∷ ps) = elim (p.p_type == 1) [
  | false ↦ load size mem total lo ps
  | true ↦
      let dest = add64 mem (sub64 p.p_vaddr lo) in
      elim (ltb size (add64 p.p_offset p.p_filesz)
        || ltb (add64 mem total) (add64 dest p.p_filesz)) [
          | true ↦ (false, [])
          | false ↦
              let (ok, rest) = load size mem total lo ps in
              (ok, record { dest = dest; from = p.p_offset; count = p.p_filesz } ∷ rest)
        ]
]

-- The address of the entry point.
unfoldable pub entry_at : ℕ → ℕ → ℕ → ℕ → ℕ → Option ℕ
entry_at mem total lo hi e =
    if ltb e lo || leb hi e
    then none
    else (let entry = add64 mem (e - lo) in
        if ltb entry mem || leb (add64 mem total) entry then none else some entry)

-- Loading into an image of the span `lo` to `hi`: the entry point, the bump pointer and the copies.
unfoldable pub load_span :
    Boot → ℕ → ℕ → Elf64Ehdr → List Elf64Phdr → ℕ → ℕ → Option ℕ × ℕ × List Copy
unfolding load entry_at
load_span b bump_ptr size eh ps lo hi =
    if (lo == minus_one) || leb hi lo || ltb max_user_image (hi - lo)
    then (none, bump_ptr, [])
    else (let (mem, ptr) = bump_alloc_alloc b bump_ptr (hi - lo) page in
        let (ok, copies) = load size mem (hi - lo) lo ps in
        if mem == 0
        then (none, ptr, [])
        else (if ok then entry_at mem (hi - lo) lo hi eh.e_entry else none, ptr, copies))

unfoldable pub elf64_load_from_memory : Boot → ℕ → (ℕ → ℕ) → ℕ → Option ℕ × ℕ × List Copy
unfolding is_valid_elf64 ehdr phdrs span load_span
elf64_load_from_memory b bump_ptr data_at size =
    let eh = ehdr data_at in
    let ps = phdrs data_at eh 0 eh.e_phnum in
    let (lo, hi) = span ps minus_one 0 in
    if ltb size ehdr_size || not (is_valid_elf64 data_at)
    then (none, bump_ptr, [])
    else if (eh.e_phoff == 0) || (eh.e_phnum == 0)
    then (none, bump_ptr, [])
    else if ltb size (add64 eh.e_phoff (mul64 eh.e_phnum eh.e_phentsize))
    then (none, bump_ptr, [])
    else load_span b bump_ptr size eh ps lo hi
