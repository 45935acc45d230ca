-- ===== src/Fat32/Name.antt =====
-- kernel/filesystem/fat32.cpp: short names of eight and three bytes, and how a directory entry is
-- compared with a component of a path. Names are bytes before the NUL.
pub mod Match
mod Tests
use hana_core.Prelude.{
  ℕ, zero, suc, List, [], ◌∷◌, ◌++◌, ◌+◌, ◌-◌, Option, none, some, Bool, true, false, ◌&&◌, ◌||◌,
  ◌==◌, leb, if◌then◌else◌, length, take, drop, replicate, map, get_or, not,
}
use hana_core.Prelude.Text.{eq_text, behind}

abbrev pub fat_toupper : ℕ → ℕ
fat_toupper c = if leb b'a' c && leb c b'z' then c - 32 else c

-- What is before and behind the last dot.
unfoldable pub split_dot : List ℕ → Option (List ℕ × List ℕ)
split_dot [] = none
split_dot (c ∷ cs) = elim (split_dot cs) [
  | some (base, ext) ↦ some (c ∷ base, ext)
  | none ↦ if c == b'.' then some ([], cs) else none
]

-- At most `n` bytes in capitals; `none` if one of them is a space.
unfoldable pub packed : ℕ → List ℕ → Option (List ℕ)
packed zero cs = some []
packed (suc n) [] = some []
packed (suc n) (c ∷ cs) = elim (fat_toupper c == b' ') [
  | true ↦ none
  | false ↦ elim (packed n cs) [ none ↦ none | some out ↦ some (fat_toupper c ∷ out) ]
]

abbrev pub filled : ℕ → List ℕ → List ℕ
filled n cs = cs ++ replicate (n - length cs) b' '

abbrev pub joined : Option (List ℕ) → Option (List ℕ) → Option (List ℕ)
joined none ext = none
joined (some base) none = none
joined (some base) (some ext) = some (filled 8 base ++ filled 3 ext)

-- The eleven bytes; `none` is `false`.
unfoldable pub format_short_name : List ℕ → Option (List ℕ)
unfolding split_dot packed
format_short_name [] = none
format_short_name (c ∷ cs) = elim (split_dot (c ∷ cs)) [
  | none ↦ joined (packed 8 (c ∷ cs)) (some [])
  | some (base, ext) ↦ joined (packed 8 base) (packed 3 ext)
]

unfoldable pub norm_entry : List ℕ → List ℕ
norm_entry [] = []
norm_entry (c ∷ cs) = elim ((c == 0) || (c == b' ')) [
  | true ↦ []
  | false ↦ fat_toupper c ∷ norm_entry cs
]

unfoldable pub without_dots : List ℕ → List ℕ
without_dots [] = []
without_dots (c ∷ cs) = elim (c == b'.') [
  | true ↦ without_dots cs
  | false ↦ fat_toupper c ∷ without_dots cs
]

-- The buffer of the component has 16 bytes with the NUL.
unfoldable pub norm_comp : List ℕ → List ℕ
unfolding without_dots
norm_comp component = take 15 (without_dots component)

unfoldable pub fat_shortname_cmp : List ℕ → List ℕ → Bool
unfolding norm_entry norm_comp eq_text
fat_shortname_cmp entry_name component = eq_text (norm_entry entry_name) (norm_comp component)

unfoldable pub trim_spaces : List ℕ → List ℕ
trim_spaces [] = []
trim_spaces (c ∷ cs) = elim (trim_spaces cs) [
  | [] ↦ if c == b' ' then [] else c ∷ []
  | d ∷ ds ↦ c ∷ d ∷ ds
]

-- The bytes before the first one of a kind.
unfoldable pub until : (ℕ → Bool) → List ℕ → List ℕ
until stop [] = []
until stop (c ∷ cs) = elim (stop c) [ true ↦ [] | false ↦ c ∷ until stop cs ]

-- The C string that a listing and `remove_dir_entry_by_path` make of an entry: the extension goes
-- behind the first NUL of the base name, and a NUL in the extension ends the whole.
unfoldable pub display_name : List ℕ → List ℕ
unfolding trim_spaces until
display_name entry =
    let base = until (λ c. c == 0) (trim_spaces (take 8 entry)) in
    let ext = take 3 (drop 8 entry) in
    until (λ c. c == 0) (base ++ (if get_or entry 8 0 == b' ' then [] else b'.' ∷ ext))

abbrev pub is_some : Option (List ℕ) → Bool
is_some none = false
is_some (some l) = true

-- Its comparison stops at the end of the component.
unfoldable pub entry_matches : List ℕ → List ℕ → Bool
unfolding display_name behind
entry_matches component entry = is_some (behind (map fat_toupper component) (display_name entry))
