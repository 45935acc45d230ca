-- ===== src/Fat32/Files/Open/Match.antt =====
-- kernel/filesystem/fat32.cpp: which names `fat32_get_file_alloc` finds.
use hana_core.Prelude.{
  ℕ, zero, suc, List, [], ◌∷◌, ◌++◌, ◌-◌, ◌≡◌, ◌≢◌, ◌≤◌, refl, ap, sym, ◌∙◌, some, true, false,
  ◌||◌, ◌==◌, length, take, drop, get_or, map, replicate, arith, length-append, length-replicate,
  length-map,
}
use mathlib.Core.List.{append_assoc}
use hana_core.Prelude.Text.{eq_text}
use hana_core.Hanafs.Path.Shape.{take_enough}
use hana_core.Fat32.Name.{until, fat_toupper, split_dot, filled, format_short_name}
use hana_core.Fat32.Name.Match.{until_nul, IsPlain, split_dot-none, packed-plain, length-filled}
use hana_core.Fat32.Directory.Entry.{drop_past, take_all, get_past}
use hana_core.Fat32.Files.Open.{short_name, has_dot, name_matches}

split_dot-append :
    (base ext : List ℕ) → IsPlain ext → split_dot (base ++ (b'.' ∷ ext)) ≡ some (base, ext)
unfolding split_dot
split_dot-append [] ext p = rw (split_dot-none ext p, split_dot) refl
split_dot-append (c ∷ base) ext p = rw (split_dot-append base ext p, split_dot) refl

-- The eleven bytes of a name with an extension.
abbrev pub entry_name : List ℕ → List ℕ → List ℕ
entry_name base ext = filled 8 (map fat_toupper base) ++ filled 3 (map fat_toupper ext)

format_with_dot :
    (base ext : List ℕ)
    → base ≢ []
    → IsPlain base
    → IsPlain ext
    → length base ≤ 8
    → length ext ≤ 3
    → format_short_name (base ++ (b'.' ∷ ext)) ≡ some (entry_name base ext)
unfolding format_short_name
format_with_dot [] ext some_bytes p q h k = absurd (some_bytes refl)
format_with_dot (c ∷ base) ext some_bytes p q h k =
    rw (split_dot-append (c ∷ base) ext q, format_short_name)
      (rw (packed-plain 8 (c ∷ base) p h, packed-plain 3 ext q k) refl)

-- A plain name in capitals has no space and no NUL.
until-plain :
    (cs : List ℕ) (n : ℕ)
    → IsPlain cs
    → until (λ c. (c == b' ') || (c == 0)) (map fat_toupper cs ++ replicate n b' ')
      ≡ map fat_toupper cs
unfolding until
until-plain [] zero p = refl
until-plain [] (suc n) p = refl
until-plain (c ∷ cs) n p =
    let letter : (fat_toupper c == b' ') || (fat_toupper c == 0) ≡ false =
      ground (arith, p.0.1, p.0.2) in
    rw (letter, until) (ap (λ (l : List ℕ). fat_toupper c ∷ l) (until-plain cs n p.1))

until-spaces : (n : ℕ) → until (λ c. c == 0) (replicate n b' ') ≡ replicate n b' '
unfolding until
until-spaces zero = refl
until-spaces (suc n) = ap (λ (l : List ℕ). b' ' ∷ l) (until-spaces n)

-- The whole name that the code makes of the entry: the spaces behind a short extension stay.
whole_name :
    (base ext : List ℕ)
    → IsPlain base
    → IsPlain ext
    → ext ≢ []
    → length base ≤ 8
    → length ext ≤ 3
    → until (λ c. c == 0) (short_name (entry_name base ext))
      ≡ map fat_toupper base ++ (b'.' ∷ (map fat_toupper ext ++ replicate (3 - length ext) b' '))
unfolding short_name
whole_name base [] p q some_ext h k = absurd (some_ext refl)
whole_name base (c ∷ ext) p q some_ext h k = rw (name) (
    rw (letter) (
      rw three (
        until_nul base (b'.' ∷ tail) p
        ∙ ap (λ (l : List ℕ). map fat_toupper base ++ l)
            (unfold until in
              ap (λ (l : List ℕ). b'.' ∷ l)
                (until_nul (c ∷ ext) (replicate (3 - length (map fat_toupper (c ∷ ext))) b' ') q
                  ∙ ap (λ (l : List ℕ). map fat_toupper (c ∷ ext) ++ l)
                      (until-spaces (3 - length (map fat_toupper (c ∷ ext)))
                        ∙ ap (λ (n : ℕ). replicate (3 - n) b' ')
                            (length-map (c ∷ ext) fat_toupper)))))))
  where
    front : List ℕ
    front = filled 8 (map fat_toupper base)

    tail : List ℕ
    tail = filled 3 (map fat_toupper (c ∷ ext))

    eight : length front ≡ 8
    eight = length-filled (map fat_toupper base) (omega (arith, h, length-map base fat_toupper))

    name : until (λ d. (d == b' ') || (d == 0)) (take 8 (front ++ tail)) ≡ map fat_toupper base
    name =
        ap (until (λ d. (d == b' ') || (d == 0))) (take_all 8 front tail (sym eight))
        ∙ until-plain base (8 - length (map fat_toupper base)) p

    letter : get_or (front ++ tail) 8 0 == b' ' ≡ false
    letter =
        ap (λ (d : ℕ). d == b' ') (get_past 8 0 front tail (omega (arith, eight)))
        ∙ ground (arith, q.0.1)

    three_bytes : length tail ≤ 3
    three_bytes = omega (
      arith,
      k,
      length-append (map fat_toupper (c ∷ ext))
          (replicate (3 - length (map fat_toupper (c ∷ ext))) b' '),
      length-replicate {A = ℕ} (3 - length (map fat_toupper (c ∷ ext))) b' ',
      length-map (c ∷ ext) fat_toupper,
    )

    three : take 3 (drop 8 (front ++ tail)) ≡ tail
    three =
        ap (take 3) (drop_past 8 0 front tail (omega (arith, eight)))
        ∙ take_enough 3 tail three_bytes

-- Equal up to the end of the first text.
eq_text-append : (a b : List ℕ) → eq_text a (a ++ b) ≡ (length b == 0)
unfolding eq_text
eq_text-append [] [] = refl
eq_text-append [] (c ∷ b) = ground arith
eq_text-append (c ∷ a) b = ground (arith, eq_text-append a b)

has_dot-append : (base ext : List ℕ) → has_dot (base ++ (b'.' ∷ ext)) ≡ true
unfolding has_dot
has_dot-append [] ext = refl
has_dot-append (c ∷ base) ext = ground (arith, has_dot-append base ext)

map-append_dot :
    (base ext : List ℕ)
    → map fat_toupper (base ++ (b'.' ∷ ext)) ≡ map fat_toupper base ++ (b'.' ∷ map fat_toupper ext)
map-append_dot [] ext = refl
map-append_dot (c ∷ base) ext = ap (λ (l : List ℕ). fat_toupper c ∷ l) (map-append_dot base ext)

-- A plain name of one to eight bytes with a plain extension of one to three can be stored, and
-- `fat32_get_file_alloc` finds the entry by that name exactly if the extension has three bytes.
pub name_matches-extension :
    (base ext : List ℕ)
    → base ≢ []
    → IsPlain base
    → length base ≤ 8
    → ext ≢ []
    → IsPlain ext
    → length ext ≤ 3
    → (entry : List ℕ) × (format_short_name (base ++ (b'.' ∷ ext)) ≡ some entry)
      × (name_matches (map fat_toupper (base ++ (b'.' ∷ ext))) entry ≡ (length ext == 3))
unfolding name_matches
name_matches-extension base ext some_base p h some_ext q k = (
  entry_name base ext,
  format_with_dot base ext some_base p q h k,
  rw (map-append_dot base ext) (
      rw
        (
          has_dot-append (map fat_toupper base) (map fat_toupper ext),
          whole_name base ext p q some_ext h k,
        )
        (ap (eq_text comp)
            (sym (append_assoc (map fat_toupper base) (b'.' ∷ map fat_toupper ext) spaces))
          ∙ eq_text-append comp spaces
          ∙ ap (λ (n : ℕ). n == 0) (length-replicate {A = ℕ} (3 - length ext) b' ')
          ∙ ground arith)),
)
  where
    comp : List ℕ
    comp = map fat_toupper base ++ (b'.' ∷ map fat_toupper ext)

    spaces : List ℕ
    spaces = replicate (3 - length ext) b' '
