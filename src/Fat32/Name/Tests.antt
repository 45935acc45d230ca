-- ===== src/Fat32/Name/Tests.antt =====
-- Short names of some files.
use hana_core.Prelude.{ℕ, List, [], ◌∷◌, ◌≡◌, refl, arith, none, some, true, false}
use hana_core.Fat32.Name.{format_short_name, fat_shortname_cmp, entry_matches}
use hana_core.Fat32.Name.Match.{entry_matches_prefix}

-- "a.txt" is "A       TXT".
abbrev a_txt : List ℕ
a_txt = b'a' ∷ b'.' ∷ b't' ∷ b'x' ∷ b't' ∷ []

abbrev entry_a_txt : List ℕ
entry_a_txt = b'A' ∷ b' ' ∷ b' ' ∷ b' ' ∷ b' ' ∷ b' ' ∷ b' ' ∷ b' ' ∷ b'T' ∷ b'X' ∷ b'T' ∷ []

short_a_txt : format_short_name a_txt ≡ some entry_a_txt
unfolding format_short_name
short_a_txt = refl

-- The comparison of short names stops at the first space, so it does not find the file.
not_found : fat_shortname_cmp entry_a_txt a_txt ≡ false
unfolding fat_shortname_cmp
not_found = refl

space_refused : format_short_name (b'a' ∷ b' ' ∷ []) ≡ none
unfolding format_short_name
space_refused = refl

-- Removing "l" matches the entry of "log".
entry_matches_prefix_example :
    (entry : List ℕ) × (format_short_name (b'l' ∷ b'o' ∷ b'g' ∷ []) ≡ some entry)
    × (entry_matches (b'l' ∷ []) entry ≡ true)
entry_matches_prefix_example =
    entry_matches_prefix (b'l' ∷ []) (b'o' ∷ b'g' ∷ []) (λ e. cc e)
      (
        (omega arith, omega arith, omega arith),
        ((omega arith, omega arith, omega arith), ((omega arith, omega arith, omega arith), tt)),
      )
      (omega arith)
