-- ===== src/Hanafs/Path.antt =====
-- kernel/filesystem/hanafs.cpp: from the path of a caller to the path of an entry. A buffer is the
-- text in it; `sz` is the size of its memory.
pub mod Shape
use hana_core.Prelude.{
  ℕ, zero, suc, List, [], ◌∷◌, ◌++◌, ◌+◌, ◌-◌, Option, none, some, Bool, true, false, ltb, leb,
  ◌&&◌, ◌==◌, if◌then◌else◌, length, take,
}

-- The text without the slashes at its end.
unfoldable pub trim : List ℕ → List ℕ
trim [] = []
trim (c ∷ cs) = elim (trim cs) [ [] ↦ if c == b'/' then [] else c ∷ [] | d ∷ ds ↦ c ∷ d ∷ ds ]

-- `while (l > 1 && buf[l-1] == '/')`: the first byte stays.
unfoldable pub strip_slashes : List ℕ → List ℕ
unfolding trim
strip_slashes [] = []
strip_slashes (c ∷ cs) = c ∷ trim cs

abbrev pub starts_with_slash : List ℕ → Bool
starts_with_slash [] = false
starts_with_slash (c ∷ cs) = c == b'/'

unfoldable pub normalize_path_inplace : List ℕ → ℕ → List ℕ
unfolding strip_slashes
normalize_path_inplace buf sz =
    if sz == 0
    then buf
    else if starts_with_slash buf
    then strip_slashes buf
    else if leb sz (length buf + 1)
    then buf
    else strip_slashes (b'/' ∷ buf)

abbrev pub is_digit : ℕ → Bool
is_digit c = leb b'0' c && leb c b'9'

-- The drive number, `none` for -1, and the text behind the prefix.
unfoldable pub parse_drive_prefix_inplace : List ℕ → ℕ → Option ℕ × List ℕ
parse_drive_prefix_inplace (c ∷ d ∷ rest) sz =
    if leb 3 sz && is_digit c && (d == b':') then (some (c - b'0'), rest) else (none, c ∷ d ∷ rest)
parse_drive_prefix_inplace (c ∷ []) sz = (none, c ∷ [])
parse_drive_prefix_inplace [] sz = (none, [])

-- "/drvN" of a drive, which is a digit.
abbrev pub drive_prefix : ℕ → List ℕ
drive_prefix drive = b'/' ∷ b'd' ∷ b'r' ∷ b'v' ∷ (b'0' + drive) ∷ []

-- What fits in `out_sz` bytes with the NUL.
abbrev pub cut : ℕ → List ℕ → List ℕ
cut out_sz text = take (out_sz - 1) text

unfoldable pub build_internal_path : List ℕ → Option ℕ → ℕ → List ℕ
build_internal_path path none out_sz = cut out_sz path
build_internal_path path (some drive) out_sz =
    if starts_with_slash path
    then cut out_sz (drive_prefix drive ++ path)
    else cut out_sz (drive_prefix drive ++ (b'/' ∷ path))

-- What every call computes from its path: the drive, `pbuf` and `ipath`.
pub record Resolved : Type 0 where
  pub drv : Option ℕ
  pub pbuf : List ℕ
  pub ipath : List ℕ

unfoldable pub resolve : List ℕ → Resolved
unfolding parse_drive_prefix_inplace normalize_path_inplace build_internal_path
resolve path =
    let psz = length path + 2 in
    let (drv, rest) = parse_drive_prefix_inplace path psz in
    let pbuf = normalize_path_inplace rest psz in
    record { drv = drv; pbuf = pbuf; ipath = build_internal_path pbuf drv 512 }
