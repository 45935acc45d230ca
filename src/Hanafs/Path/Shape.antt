-- ===== src/Hanafs/Path/Shape.antt =====
-- The path of an entry: it starts with a slash, and resolving it again changes nothing.
use hana_core.Prelude.{
  sym, ◌++◌, length-take, ℕ, zero, suc, List, [], ◌∷◌, ◌+◌, ◌≡◌, ◌≢◌, ◌≤◌, ◌<◌, refl, ap, ◌∙◌,
  Option, none, some, true, false, ◌==◌, leb, if◌then◌else◌, ◌&&◌, length, take, arith, Bool-cases,
  inl, inr,
}
use hana_core.Hanafs.Path.{
  drive_prefix, trim, strip_slashes, starts_with_slash, normalize_path_inplace,
  parse_drive_prefix_inplace, build_internal_path, cut, resolve, is_digit,
}

trim-trim : (cs : List ℕ) → trim (trim cs) ≡ trim cs
unfolding trim
trim-trim [] = refl
trim-trim (c ∷ cs) =
    elim (trim cs)
        as (λ (t : List ℕ).
          trim t ≡ t
          → trim (elim t [ [] ↦ if c == b'/' then [] else c ∷ [] | d ∷ ds ↦ c ∷ d ∷ ds ])
            ≡ elim t [ [] ↦ if c == b'/' then [] else c ∷ [] | d ∷ ds ↦ c ∷ d ∷ ds ]) [
              | [] ↦ λ ih. elim (Bool-cases (c == b'/')) [
                | inl slash ↦ rw slash refl
                | inr other ↦ rw (other, trim) (rw other refl)
              ]
              | d ∷ ds ↦ λ ih. rw (ih, trim) refl
            ]
      (trim-trim cs)

-- A path as the calls leave it in their buffer.
abbrev pub IsNormal : List ℕ → Type 0
IsNormal p = (starts_with_slash p ≡ true) × (strip_slashes p ≡ p)

strip_slashes-IsNormal : (p : List ℕ) → starts_with_slash p ≡ true → IsNormal (strip_slashes p)
unfolding strip_slashes
strip_slashes-IsNormal [] h = cc
strip_slashes-IsNormal (c ∷ cs) h = (h, ap (λ (l : List ℕ). c ∷ l) (trim-trim cs))

normalize_path_inplace-IsNormal :
    (buf : List ℕ) (sz : ℕ) → length buf + 1 < sz → IsNormal (normalize_path_inplace buf sz)
unfolding normalize_path_inplace
normalize_path_inplace-IsNormal buf sz room = elim (Bool-cases (starts_with_slash buf)) [
  | inl slash ↦ rw (some_size, slash) (strip_slashes-IsNormal buf slash)
  | inr other ↦ rw (some_size, other, fits) (strip_slashes-IsNormal (b'/' ∷ buf) refl)
]
  where
    some_size : (sz == 0) ≡ false
    some_size = ground arith

    fits : leb sz (length buf + 1) ≡ false
    fits = ground arith

length-parse_drive_prefix :
    (path : List ℕ) (sz : ℕ) → length (parse_drive_prefix_inplace path sz).1 ≤ length path
unfolding parse_drive_prefix_inplace
length-parse_drive_prefix [] sz = omega arith
length-parse_drive_prefix (c ∷ []) sz = omega arith
length-parse_drive_prefix (c ∷ d ∷ rest) sz =
    elim (Bool-cases (leb 3 sz && is_digit c && (d == b':'))) [
      | inl drive ↦ rw drive (omega arith)
      | inr plain ↦ rw plain (omega arith)
    ]

pub resolve-IsNormal : (path : List ℕ) → IsNormal (resolve path).pbuf
unfolding resolve
resolve-IsNormal path =
    normalize_path_inplace-IsNormal (parse_drive_prefix_inplace path (length path + 2)).1
      (length path + 2) (omega (arith, length-parse_drive_prefix path (length path + 2)))

no_drive :
    (p : List ℕ) (sz : ℕ) → starts_with_slash p ≡ true → parse_drive_prefix_inplace p sz ≡ (none, p)
unfolding parse_drive_prefix_inplace
no_drive [] sz h = cc
no_drive (c ∷ []) sz h = refl
no_drive (c ∷ d ∷ rest) sz h = ground (arith, h)

-- A path in normal form is resolved to itself.
pub resolve_normal :
    (p : List ℕ) → IsNormal p → resolve p ≡ record { drv = none; pbuf = p; ipath = cut 512 p }
unfolding resolve normalize_path_inplace build_internal_path
resolve_normal p (slash, same) = rw (no_drive p (length p + 2) slash, slash, some_size, same) refl
  where
    some_size : (length p + 2 == 0) ≡ false
    some_size = ground arith

-- The path of the entry, from the buffer and the drive.
ipath_eq :
    (path : List ℕ)
    → (resolve path).ipath ≡ build_internal_path (resolve path).pbuf (resolve path).drv 512
unfolding resolve
ipath_eq path = refl

pub take_enough : {A : Type 0} (n : ℕ) (xs : List A) → length xs ≤ n → take n xs ≡ xs
take_enough zero [] h = refl
take_enough (suc n) [] h = refl
take_enough zero (x ∷ xs) h = absurd (omega arith)
take_enough (suc n) (x ∷ xs) h = ap (λ (l : List _). x ∷ l) (take_enough n xs (omega arith))

-- Without a drive, a path of less than 512 bytes is the entry's own.
pub ipath_legacy :
    (path : List ℕ)
    → (resolve path).drv ≡ none
    → length (resolve path).pbuf < 512
    → (resolve path).pbuf ≡ (resolve path).ipath
unfolding build_internal_path
ipath_legacy path h small = sym (
    ipath_eq path
    ∙ ap (λ (d : Option ℕ). build_internal_path (resolve path).pbuf d 512) h
    ∙ take_enough 511 (resolve path).pbuf (omega arith))

-- With a drive, it is five bytes longer.
length-ipath :
    (p : List ℕ) (d : ℕ)
    → starts_with_slash p ≡ true
    → length p < 507
    → length (build_internal_path p (some d) 512) ≡ 5 + length p
unfolding build_internal_path
length-ipath p d slash small = rw slash (length-take 511 (drive_prefix d ++ p) ∙ omega arith)

pub ipath_drive :
    (path : List ℕ) (d : ℕ)
    → (resolve path).drv ≡ some d
    → length (resolve path).pbuf < 507
    → (resolve path).pbuf ≢ (resolve path).ipath
ipath_drive path d h small same = omega (
  arith,
  ap length same,
  ap length
      (ipath_eq path ∙ ap (λ (o : Option ℕ). build_internal_path (resolve path).pbuf o 512) h),
  length-ipath (resolve path).pbuf d (resolve-IsNormal path).0 small,
)
