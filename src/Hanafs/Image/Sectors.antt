-- ===== src/Hanafs/Image/Sectors.antt =====
-- Writing an image to consecutive sectors and reading them back.
use mathlib.Core.List.{append_assoc, append-nil}
use hana_core.Prelude.{
  min, inl, inr, le_or_lt, length-drop, take-append-drop, length-take, length-replicate,
  length-append, ℕ, zero, suc, List, [], ◌∷◌, ◌++◌, ◌+◌, ◌-◌, ◌*◌, ◌%◌, ◌^◌, ◌≡◌, ◌≢◌, ◌≤◌, ◌<◌,
  refl, ap, sym, ◌∙◌, arith, some, Bool, true, length, take, drop, replicate,
}
use hana_core.Hanafs.Image.{Ata, padded, write_sectors, read_sectors}
use mathlib.Core.Path.{ap₂}

-- A disk that keeps what it is given: a write of a sector succeeds, is read back, and leaves the
-- other sectors as they were.
pub record IsDisk {D : Type 0} (ata : Ata D) : Type 0 where
  pub works : (d : D) (n : ℕ) (bytes : List ℕ) → (ata.write_sector d n bytes).0 ≡ true
  pub keeps :
      (d : D) (n : ℕ) (bytes : List ℕ)
      → length bytes ≡ 512
      → ata.read_sector (ata.write_sector d n bytes).1 n ≡ some bytes
  pub others :
      (d : D) (n m : ℕ) (bytes : List ℕ)
      → n ≢ m
      → ata.read_sector (ata.write_sector d n bytes).1 m ≡ ata.read_sector d m

-- The bytes of a buffer filled up to `n` whole sectors.
abbrev pub whole : ℕ → List ℕ → List ℕ
whole zero buf = []
whole (suc n) buf = padded (take 512 buf) ++ whole n (drop 512 buf)

pub length-padded : (bytes : List ℕ) → length bytes ≤ 512 → length (padded bytes) ≡ 512
length-padded bytes h =
    length-append bytes _ ∙ omega (arith, length-replicate {A = ℕ} (512 - length bytes) 0)

module _ {D : Type 0} (ata : Ata D) (disk : IsDisk ata) where
  open ata use {read_sector, write_sector}

  abbrev written : D → ℕ → List ℕ → D
  written d n buf = (write_sector d n (padded (take 512 buf))).1

  next_sector : (sector : ℕ) → sector + 1 < 2 ^ 32 → (sector + 1) % 2 ^ 32 ≡ sector + 1
  next_sector sector fits = omega arith

  write_sectors-suc :
      (d : D) (sector : ℕ) (buf : List ℕ) (n : ℕ)
      → sector + 1 < 2 ^ 32
      → write_sectors ata d sector buf (suc n)
        ≡ write_sectors ata (written d sector buf) (sector + 1) (drop 512 buf) n
  unfolding write_sectors
  write_sectors-suc d sector buf n fits =
      rw (disk.works d sector (padded (take 512 buf)), next_sector sector fits, write_sectors)

  -- Sectors before the first one written stay as they were.
  before :
      (d : D) (sector m : ℕ) (buf : List ℕ) (n : ℕ)
      → m < sector
      → sector + n < 2 ^ 32
      → read_sector (write_sectors ata d sector buf n).1 m ≡ read_sector d m
  unfolding write_sectors
  before d sector m buf zero h fits = refl
  before d sector m buf (suc n) h fits =
      ap (λ (r : Bool × D). read_sector r.1 m) (write_sectors-suc d sector buf n (omega arith))
      ∙ before (written d sector buf) (sector + 1) m (drop 512 buf) n (omega arith) (omega arith)
      ∙ disk.others d sector m (padded (take 512 buf)) (λ e. omega (arith, e))

  pub write_sectors-ok :
      (d : D) (sector : ℕ) (buf : List ℕ) (n : ℕ)
      → sector + n < 2 ^ 32
      → (write_sectors ata d sector buf n).0 ≡ true
  unfolding write_sectors
  write_sectors-ok d sector buf zero fits = refl
  write_sectors-ok d sector buf (suc n) fits =
      ap (λ (r : Bool × D). r.0) (write_sectors-suc d sector buf n (omega arith))
      ∙ write_sectors-ok (written d sector buf) (sector + 1) (drop 512 buf) n (omega arith)

  -- The first sector of a write is read back.
  pub first_sector :
      (d : D) (sector : ℕ) (buf : List ℕ) (n : ℕ)
      → sector + suc n < 2 ^ 32
      → read_sector (write_sectors ata d sector buf (suc n)).1 sector ≡ some (padded (take 512 buf))
  first_sector d sector buf n fits =
      ap (λ (r : Bool × D). read_sector r.1 sector) (write_sectors-suc d sector buf n (omega arith))
      ∙ before (written d sector buf) (sector + 1) sector (drop 512 buf) n (omega arith)
          (omega arith)
      ∙ disk.keeps d sector (padded (take 512 buf))
          (length-padded (take 512 buf) (omega (arith, length-take 512 buf)))

  -- The sectors written, read in order.
  pub read_sectors-write_sectors :
      (d : D) (sector : ℕ) (buf : List ℕ) (n : ℕ)
      → sector + n < 2 ^ 32
      → read_sectors ata (write_sectors ata d sector buf n).1 sector n ≡ some (whole n buf)
  unfolding read_sectors
  read_sectors-write_sectors d sector buf zero fits = refl
  read_sectors-write_sectors d sector buf (suc n) fits =
      let rest =
        read_sectors-write_sectors (written d sector buf) (sector + 1) (drop 512 buf) n
          (omega arith) in
      rw (first_sector d sector buf n fits, later rest, read_sectors)
    where
      later :
          read_sectors ata
              (write_sectors ata (written d sector buf) (sector + 1) (drop 512 buf) n).1
              (sector + 1)
              n
            ≡ some (whole n (drop 512 buf))
          → read_sectors ata (write_sectors ata d sector buf (suc n)).1 ((sector + 1) % 2 ^ 32) n
            ≡ some (whole n (drop 512 buf))
      later rest =
          ap₂ (λ (r : Bool × D) (k : ℕ). read_sectors ata r.1 k n)
            (write_sectors-suc d sector buf n (omega arith)) (next_sector sector (omega arith))
          ∙ rest

  -- The sectors behind the first one.
  pub later_sectors :
      (d : D) (sector : ℕ) (buf : List ℕ) (n : ℕ)
      → sector + suc n < 2 ^ 32
      → read_sectors ata (write_sectors ata d sector buf (suc n)).1 (sector + 1) n
        ≡ some (whole n (drop 512 buf))
  later_sectors d sector buf n fits =
      ap (λ (r : Bool × D). read_sectors ata r.1 (sector + 1) n)
        (write_sectors-suc d sector buf n (omega arith))
      ∙ read_sectors-write_sectors (written d sector buf) (sector + 1) (drop 512 buf) n
          (omega arith)

take-short : (m : ℕ) (xs : List ℕ) → length xs ≤ m → take m xs ≡ xs
take-short zero [] h = refl
take-short zero (x ∷ xs) h = absurd (omega arith)
take-short (suc m) [] h = refl
take-short (suc m) (x ∷ xs) h = ap (λ (l : List ℕ). x ∷ l) (take-short m xs (omega arith))

-- Enough sectors hold the buffer in front.
pub whole-split :
    (n : ℕ) (buf : List ℕ) → length buf ≤ n * 512 → (zeros : List ℕ) × (whole n buf ≡ buf ++ zeros)
whole-split zero [] h = ([], refl)
whole-split zero (x ∷ xs) h = absurd (omega arith)
whole-split (suc n) buf h = elim (le_or_lt 512 (length buf)) [
  | inr short ↦ (
    replicate (512 - length (take 512 buf)) 0 ++ whole n (drop 512 buf),
    append_assoc (take 512 buf) _ _
        ∙ ap
            (λ (l : List ℕ).
              l ++ (replicate (512 - length (take 512 buf)) 0 ++ whole n (drop 512 buf)))
            (take-short 512 buf (omega arith)),
  )
  | inl long ↦
      let (zeros, e) = whole-split n (drop 512 buf) (omega (arith, length-drop 512 buf)) in
      (
        zeros,
        ap₂ (λ (k : ℕ) (l : List ℕ). (take 512 buf ++ replicate k 0) ++ l)
              {v = drop 512 buf ++ zeros} (full (length-take 512 buf) long) e
            ∙ ap (λ (l : List ℕ). l ++ (drop 512 buf ++ zeros)) (append-nil (take 512 buf))
            ∙ sym (append_assoc (take 512 buf) (drop 512 buf) zeros)
            ∙ ap (λ (l : List ℕ). l ++ zeros) (take-append-drop 512 buf),
      )
]
  where
    full :
        length (take 512 buf) ≡ min 512 (length buf)
        → 512 ≤ length buf
        → 512 - length (take 512 buf) ≡ 0
    full e long = omega (arith, e)
