-- ===== src/Elf/Bounds.antt =====
-- Where the loader writes and reads.
use hana_core.Prelude.{
  ◌&&◌, ℕ, List, [], ◌∷◌, ◌+◌, ◌-◌, ◌≡◌, ◌≤◌, ◌<◌, ◌^◌, refl, arith, true, false, Bool-cases, inl,
  inr, ltb, leb, ◌==◌, ◌||◌, ◌&&◌, not, sym, subst,
}
use hana_core.Prelude.Word.{add64, sub64}
use hana_core.Elf.{
  mul64, is_valid_elf64, max_user_image, ehdr_size, Elf64Ehdr, page, bump_alloc_alloc, minus_one,
  phdrs, load_span, higher, ehdr, lower, elf64_load_from_memory, Boot, Elf64Phdr, Copy, span, load,
}

-- The sums over a segment do not wrap: its end in memory, its end in the blob, and its end behind
-- the image's first byte.
abbrev pub NoWrap : ℕ → List Elf64Phdr → Type 0
NoWrap mem [] = Unit
NoWrap mem (p ∷ ps) =
    (p.p_offset + p.p_filesz < 2 ^ 64) × (mem + p.p_vaddr + p.p_filesz < 2 ^ 64) × NoWrap mem ps

-- Every segment that is loaded starts at `lo` or behind it.
abbrev pub From : ℕ → List Elf64Phdr → Type 0
From lo [] = Unit
From lo (p ∷ ps) = ((p.p_type == 1) && ltb p.p_vaddr lo ≡ false) × From lo ps

-- Every copy reads inside the blob and writes inside the image.
abbrev pub Inside : ℕ → ℕ → ℕ → List Copy → Type 0
Inside size mem total [] = Unit
Inside size mem total (c ∷ cs) =
    (c.from + c.count ≤ size)
    × (mem ≤ c.dest)
    × (c.dest + c.count ≤ mem + total)
    × Inside size mem total cs

lower_lem : (p : Elf64Phdr) (lo : ℕ) → (lower p lo ≤ lo) × (lower p lo ≤ p.p_vaddr)
lower_lem p lo = ground arith

span_low : (ps : List Elf64Phdr) (lo hi : ℕ) → (span ps lo hi).0 ≤ lo
unfolding span
span_low [] lo hi = omega arith
span_low (p ∷ ps) lo hi = elim (Bool-cases (p.p_type == 1)) [
  | inr e ↦ rw (e, span) (span_low ps lo hi)
  | inl e ↦ rw (e, span) (omega (arith, span_low ps (lower p lo) (higher p hi), lower_lem p lo))
]

span_loaded :
    (p : Elf64Phdr) (ps : List Elf64Phdr) (lo hi : ℕ)
    → p.p_type == 1 ≡ true
    → span (p ∷ ps) lo hi ≡ span ps (lower p lo) (higher p hi)
unfolding span
span_loaded p ps lo hi e = rw (e, span)

span_skipped :
    (p : Elf64Phdr) (ps : List Elf64Phdr) (lo hi : ℕ)
    → p.p_type == 1 ≡ false
    → span (p ∷ ps) lo hi ≡ span ps lo hi
unfolding span
span_skipped p ps lo hi e = rw (e, span)

-- The lower bound found is below every segment.
span-From : (ps : List Elf64Phdr) (lo hi : ℕ) → From (span ps lo hi).0 ps
span-From [] lo hi = tt
span-From (p ∷ ps) lo hi = elim (Bool-cases (p.p_type == 1)) [
  | inr e ↦
      subst (λ (r : ℕ × ℕ). From r.0 (p ∷ ps)) (sym (span_skipped p ps lo hi e))
        (rw e refl, span-From ps lo hi)
  | inl e ↦
      let low = span_low ps (lower p lo) (higher p hi) in
      subst (λ (r : ℕ × ℕ). From r.0 (p ∷ ps)) (sym (span_loaded p ps lo hi e))
        (rw e (above low (lower_lem p lo).1), span-From ps (lower p lo) (higher p hi))
]
  where
    above : {k l : ℕ} → k ≤ l → l ≤ p.p_vaddr → ltb p.p_vaddr k ≡ false
    above a b = ground arith

load-Inside :
    (size mem total lo : ℕ) (ps : List Elf64Phdr)
    → From lo ps
    → NoWrap mem ps
    → mem + total < 2 ^ 64
    → Inside size mem total (load size mem total lo ps).1
unfolding load
load-Inside size mem total lo [] f w h = tt
load-Inside size mem total lo (p ∷ ps) f w h = elim (Bool-cases (p.p_type == 1)) [
  | inr e ↦ rw (e, load) (load-Inside size mem total lo ps f.1 w.2 h)
  | inl e ↦
      let dest = add64 mem (sub64 p.p_vaddr lo) in
      let low : ltb p.p_vaddr lo ≡ false = rw e at f.0 in
      elim (Bool-cases
        (ltb size (add64 p.p_offset p.p_filesz) || ltb (add64 mem total) (add64 dest p.p_filesz))) [
          | inl bad ↦ rw (e, bad, load) tt
          | inr good ↦
              rw (e, good, load)
                (
                  ground arith,
                  ground arith,
                  ground arith,
                  load-Inside size mem total lo ps f.1 w.2 h,
                )
        ]
]

load_span-Inside :
    (b : Boot) (bump_ptr size : ℕ) (eh : Elf64Ehdr) (ps : List Elf64Phdr) (lo hi : ℕ)
    → From lo ps
    → NoWrap (bump_alloc_alloc b bump_ptr (hi - lo) page).0 ps
    → (bump_alloc_alloc b bump_ptr (hi - lo) page).0 + (hi - lo) < 2 ^ 64
    → Inside size
        (bump_alloc_alloc b bump_ptr (hi - lo) page).0
        (hi - lo)
        (load_span b bump_ptr size eh ps lo hi).2
unfolding load_span
load_span-Inside b bump_ptr size eh ps lo hi f w h =
    let inner = load-Inside size mem (hi - lo) lo ps f w h in
    elim (Bool-cases ((lo == minus_one) || leb hi lo || ltb max_user_image (hi - lo))) [
      | inl e ↦ rw e tt
      | inr e ↦ elim (Bool-cases (mem == 0)) [ inl z ↦ rw (e, z) tt | inr z ↦ rw (e, z) inner ]
    ]
  where
    mem : ℕ
    mem = (bump_alloc_alloc b bump_ptr (hi - lo) page).0

-- The image that a load allocates: its address and its size.
abbrev pub image : Boot → ℕ → (ℕ → ℕ) → ℕ × ℕ
image b bump_ptr data_at =
    let eh = ehdr data_at in
    let (lo, hi) = span (phdrs data_at eh 0 eh.e_phnum) minus_one 0 in
    ((bump_alloc_alloc b bump_ptr (hi - lo) page).0, hi - lo)

-- Whatever the blob holds, every copy that a load makes reads inside the blob and writes inside
-- the image that it allocated, if the image ends below 2^64 and no sum over a program header wraps.
pub elf64_load-Inside :
    (b : Boot) (bump_ptr : ℕ) (data_at : ℕ → ℕ) (size : ℕ)
    → NoWrap (image b bump_ptr data_at).0 (phdrs data_at (ehdr data_at) 0 (ehdr data_at).e_phnum)
    → (image b bump_ptr data_at).0 + (image b bump_ptr data_at).1 < 2 ^ 64
    → Inside size
        (image b bump_ptr data_at).0
        (image b bump_ptr data_at).1
        (elf64_load_from_memory b bump_ptr data_at size).2
unfolding elf64_load_from_memory load_span
elf64_load-Inside b bump_ptr data_at size w h =
    let inner =
      load_span-Inside b bump_ptr size (ehdr data_at) ps (span ps minus_one 0).0
        (span ps minus_one 0).1 (span-From ps minus_one 0) w h in
    elim (Bool-cases (ltb size ehdr_size || not (is_valid_elf64 data_at))) [
      | inl e ↦ rw e tt
      | inr e ↦ elim (Bool-cases ((eh.e_phoff == 0) || (eh.e_phnum == 0))) [
        | inl e' ↦ rw (e, e') tt
        | inr e' ↦
            elim (Bool-cases (ltb size (add64 eh.e_phoff (mul64 eh.e_phnum eh.e_phentsize)))) [
              | inl e'' ↦ rw (e, e', e'') tt
              | inr e'' ↦ rw (e, e', e'') inner
            ]
      ]
    ]
  where
    eh : Elf64Ehdr
    eh = ehdr data_at

    ps : List Elf64Phdr
    ps = phdrs data_at (ehdr data_at) 0 (ehdr data_at).e_phnum
