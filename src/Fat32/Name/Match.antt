-- ===== src/Fat32/Name/Match.antt =====
-- Which names are found again.
use hana_core.Prelude.{
  length-map, ℕ, zero, suc, List, [], ◌∷◌, ◌++◌, ◌-◌, ◌≡◌, ◌≢◌, ◌≤◌, refl, ap, sym, ◌∙◌, none, some,
  true, false, ◌||◌, ◌==◌, length, take, map, get_or, length-append, length-replicate, length-map,
  replicate, arith,
}
use hana_core.Prelude.Text.{eq_text, eq_text_refl, behind, behind-append}
use mathlib.Core.List.{append_assoc, append-nil}
use mathlib.Core.Path.{ap₂}
use hana_core.Hanafs.Path.Shape.{take_enough}
use hana_core.Fat32.Name.{
  fat_toupper, split_dot, packed, filled, format_short_name, norm_entry, without_dots, norm_comp,
  fat_shortname_cmp, trim_spaces, until, display_name, entry_matches, is_some,
}
use hana_core.Hanafs.Image.Codec.{take-all_append}

-- A byte of a plain name: no dot, no space, no NUL.
abbrev pub IsPlainByte : ℕ → Type 0
IsPlainByte c = (c ≢ b'.') × (c ≢ b' ') × (c ≢ 0)

abbrev pub IsPlain : List ℕ → Type 0
IsPlain [] = Unit
IsPlain (c ∷ cs) = IsPlainByte c × IsPlain cs

pub split_dot-none : (cs : List ℕ) → IsPlain cs → split_dot cs ≡ none
unfolding split_dot
split_dot-none [] p = refl
split_dot-none (c ∷ cs) p = rw (split_dot-none cs p.1, split_dot) (ground (arith, p.0.0))

pub packed-plain :
    (n : ℕ) (cs : List ℕ) → IsPlain cs → length cs ≤ n → packed n cs ≡ some (map fat_toupper cs)
unfolding packed
packed-plain zero [] p h = refl
packed-plain zero (c ∷ cs) p h = absurd (omega arith)
packed-plain (suc n) [] p h = refl
packed-plain (suc n) (c ∷ cs) p h =
    let letter : (fat_toupper c == b' ') ≡ false = ground (arith, p.0.1) in
    rw (letter, packed) (rw (packed-plain n cs p.1 (omega arith), packed) refl)

without_dots-plain : (cs : List ℕ) → IsPlain cs → without_dots cs ≡ map fat_toupper cs
unfolding without_dots
without_dots-plain [] p = refl
without_dots-plain (c ∷ cs) p =
    let letter : (c == b'.') ≡ false = ground (arith, p.0.0) in
    rw (letter, without_dots) (ap (λ (l : List ℕ). fat_toupper c ∷ l) (without_dots-plain cs p.1))

-- Up to the first space the entry's name is read in capitals, which it has already.
norm_entry-plain :
    (cs r : List ℕ)
    → IsPlain cs
    → norm_entry (map fat_toupper cs ++ (b' ' ∷ r)) ≡ map fat_toupper cs
unfolding norm_entry
norm_entry-plain [] r p = refl
norm_entry-plain (c ∷ cs) r p =
    let goes : ((fat_toupper c == 0) || (fat_toupper c == b' ')) ≡ false =
      ground (arith, p.0.1, p.0.2) in
    rw (goes, norm_entry)
      (ap₂ (λ (d : ℕ) (l : List ℕ). d ∷ l) {y = fat_toupper c} (ground arith)
        (norm_entry-plain cs r p.1))

-- Behind the capitals comes a space, also where the name has eight bytes.
format_plain :
    (cs : List ℕ)
    → cs ≢ []
    → IsPlain cs
    → length cs ≤ 8
    → (r : List ℕ) × (format_short_name cs ≡ some (map fat_toupper cs ++ (b' ' ∷ r)))
unfolding format_short_name
format_plain [] some_bytes p short = absurd (some_bytes refl)
format_plain (c ∷ cs) some_bytes p short =
    let name = map fat_toupper (c ∷ cs) in
    let (r, e) = spaces (8 - length name) in
    (
      r,
      rw (split_dot-none (c ∷ cs) p, format_short_name)
          (rw (packed-plain 8 (c ∷ cs) p short) (
            ap some (
              append_assoc name (replicate (8 - length name) b' ') (replicate 3 b' ')
              ∙ ap (λ (l : List ℕ). name ++ l) e))),
    )
  where
    spaces :
        (n : ℕ)
        → (r : List ℕ) × (◌≡◌ {A = List ℕ} (replicate n b' ' ++ replicate 3 b' ') (b' ' ∷ r))
    spaces zero = (replicate 2 b' ', refl)
    spaces (suc n) = (replicate n b' ' ++ replicate 3 b' ', refl)

-- A name of one to eight bytes without a dot, a space or a NUL: it has a short name, and the entry
-- with that short name is found by the name.
pub format_short_name-fat_shortname_cmp :
    (cs : List ℕ)
    → cs ≢ []
    → IsPlain cs
    → length cs ≤ 8
    → (entry : List ℕ) × (format_short_name cs ≡ some entry) × (fat_shortname_cmp entry cs ≡ true)
unfolding fat_shortname_cmp norm_comp
format_short_name-fat_shortname_cmp cs some_bytes p short =
    let (r, e) = format_plain cs some_bytes p short in
    (
      map fat_toupper cs ++ (b' ' ∷ r),
      e,
      ap₂ eq_text (norm_entry-plain cs r p) comp ∙ eq_text_refl (map fat_toupper cs),
    )
  where
    comp : take 15 (without_dots cs) ≡ map fat_toupper cs
    comp =
        ap (take 15) (without_dots-plain cs p)
        ∙ take_enough 15 (map fat_toupper cs) (omega (arith, short, length-map cs fat_toupper))

-- The eleven bytes of a plain name.
pub format_filled :
    (cs : List ℕ)
    → cs ≢ []
    → IsPlain cs
    → length cs ≤ 8
    → format_short_name cs ≡ some (filled 8 (map fat_toupper cs) ++ replicate 3 b' ')
unfolding format_short_name
format_filled [] some_bytes p short = absurd (some_bytes refl)
format_filled (c ∷ cs) some_bytes p short =
    rw (split_dot-none (c ∷ cs) p, format_short_name) (rw (packed-plain 8 (c ∷ cs) p short) refl)

trim_spaces-replicate : (n : ℕ) → trim_spaces (replicate n b' ') ≡ []
unfolding trim_spaces
trim_spaces-replicate zero = refl
trim_spaces-replicate (suc n) = rw (trim_spaces-replicate n, trim_spaces) refl

trim_spaces-plain :
    (cs : List ℕ) (n : ℕ)
    → IsPlain cs
    → trim_spaces (map fat_toupper cs ++ replicate n b' ') ≡ map fat_toupper cs
unfolding trim_spaces
trim_spaces-plain [] n p = trim_spaces-replicate n
trim_spaces-plain (c ∷ []) n p =
    let letter : (fat_toupper c == b' ') ≡ false = ground (arith, p.0.1) in
    rw (trim_spaces-plain [] n tt, trim_spaces) (rw letter refl)
trim_spaces-plain (c ∷ d ∷ ds) n p = rw (trim_spaces-plain (d ∷ ds) n p.1, trim_spaces) refl

get_or-append : (xs ys : List ℕ) → get_or (xs ++ ys) (length xs) 0 ≡ get_or ys 0 0
get_or-append [] ys = refl
get_or-append (x ∷ xs) ys = get_or-append xs ys

pub length-filled : (xs : List ℕ) → length xs ≤ 8 → length (filled 8 xs) ≡ 8
length-filled xs h =
    length-append xs (replicate (8 - length xs) b' ')
    ∙ omega (arith, length-replicate {A = ℕ} (8 - length xs) b' ')

pub until_nul :
    (cs : List ℕ) (r : List ℕ)
    → IsPlain cs
    → until (λ c. c == 0) (map fat_toupper cs ++ r) ≡ map fat_toupper cs ++ until (λ c. c == 0) r
unfolding until
until_nul [] r p = refl
until_nul (c ∷ cs) r p =
    let letter : fat_toupper c == 0 ≡ false = ground (arith, p.0.2) in
    rw (letter, until) (ap (λ (l : List ℕ). fat_toupper c ∷ l) (until_nul cs r p.1))

display_name-plain :
    (cs : List ℕ)
    → IsPlain cs
    → length cs ≤ 8
    → display_name (filled 8 (map fat_toupper cs) ++ replicate 3 b' ') ≡ map fat_toupper cs
unfolding display_name
display_name-plain cs p short =
    let name = map fat_toupper cs in
    let eight = length-filled name (omega (arith, short, length-map cs fat_toupper)) in
    let space : get_or (filled 8 name ++ replicate 3 b' ') 8 0 ≡ b' ' =
      ap (λ (n : ℕ). get_or (filled 8 name ++ replicate 3 b' ') n 0) (sym eight)
      ∙ get_or-append (filled 8 name) (replicate 3 b' ') in
    let base : trim_spaces (take 8 (filled 8 name ++ replicate 3 b' ')) ≡ name =
      ap trim_spaces (
        ap (λ (n : ℕ). take n (filled 8 name ++ replicate 3 b' ')) (sym eight)
        ∙ take-all_append (filled 8 name) (replicate 3 b' '))
      ∙ trim_spaces-plain cs (8 - length name) p in
    let whole : until (λ c. c == 0) name ≡ name =
      ap (until (λ c. c == 0)) (sym (append-nil name)) ∙ until_nul cs [] p ∙ append-nil name in
    rw (space, base, whole) (ap (until (λ c. c == 0)) (append-nil name) ∙ whole)

map-append_lem : (p q : List ℕ) → map fat_toupper (p ++ q) ≡ map fat_toupper p ++ map fat_toupper q
map-append_lem [] q = refl
map-append_lem (c ∷ p) q = ap (λ (l : List ℕ). fat_toupper c ∷ l) (map-append_lem p q)

-- Removing by a path compares only as far as the component goes: the entry of a plain name of one to
-- eight bytes matches each prefix of the name, the shorter ones and the empty one among them.
pub entry_matches_prefix :
    (p q : List ℕ)
    → p ++ q ≢ []
    → IsPlain (p ++ q)
    → length (p ++ q) ≤ 8
    → (entry : List ℕ) × (format_short_name (p ++ q) ≡ some entry) × (entry_matches p entry ≡ true)
unfolding entry_matches
entry_matches_prefix p q some_bytes plain short =
    let entry = filled 8 (map fat_toupper (p ++ q)) ++ replicate 3 b' ' in
    (
      entry,
      format_filled (p ++ q) some_bytes plain short,
      ap (λ (l : List ℕ). is_some (behind (map fat_toupper p) l))
            (display_name-plain (p ++ q) plain short ∙ map-append_lem p q)
          ∙ ap is_some (behind-append (map fat_toupper p) (map fat_toupper q)),
    )
