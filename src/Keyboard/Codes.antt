-- ===== src/Keyboard/Codes.antt =====
-- What a scan code can give.
use Prim.Native.Nat.{bit_and}
use hana_core.Prelude.{
  ℕ, zero, suc, List, [], ◌∷◌, ◌+◌, ◌≡◌, ◌<◌, ◌≤◌, refl, ◌∙◌, none, Bool-cases, Option-cases, inl,
  inr, get_or, ltb, leb, ◌==◌, ◌&&◌, if◌then◌else◌, arith, length, length-append,
}
use hana_core.Prelude.Word.{bit_and_mask}
use hana_core.Tty.Vt.{Tty}
use hana_core.Keyboard.{
  print_scancode, Keyboard, scancode_map, scancode_map_shift, plain_char, is_letter, press,
  press_other, extended, handle, sequence, function_key, is_shift, keyboard_poll_char,
}

abbrev AllAscii : List ℕ → Type 0
AllAscii [] = Unit
AllAscii (c ∷ cs) = (c < 128) × AllAscii cs

get_or-ascii : (l : List ℕ) (i : ℕ) → AllAscii l → get_or l i 0 < 128
get_or-ascii [] i a = omega arith
get_or-ascii (c ∷ cs) zero a = a.0
get_or-ascii (c ∷ cs) (suc i) a = get_or-ascii cs i a.1

plain_char-ascii : (k : Keyboard) (sc : ℕ) → plain_char k sc < 128
unfolding plain_char
plain_char-ascii k sc = elim (Bool-cases k.shift_down) [
  | inl shifted ↦ rw shifted (
      coded (get_or scancode_map_shift sc 0)
        (get_or-ascii scancode_map_shift sc (unfold scancode_map_shift in omega arith)))
  | inr plain ↦ rw plain (
      coded (get_or scancode_map sc 0)
        (get_or-ascii scancode_map sc (unfold scancode_map in omega arith)))
]
  where
    coded : (c : ℕ) → c < 128 → (if k.ctrl_down && is_letter c then bit_and c 0x1F else c) < 128
    coded c small = elim (Bool-cases (k.ctrl_down && is_letter c)) [
      | inl ctrl ↦ rw ctrl (omega (arith, bit_and_mask 5 c))
      | inr other ↦ rw other small
    ]

press_other-ascii : (k : Keyboard) (t : Tty) (sc : ℕ) → (press_other k t sc).0 < 128
press_other-ascii k t sc = elim (Option-cases (sequence sc)) [
  | inr (rest, found) ↦ rw (found, press_other) (omega arith)
  | inl no_such ↦ elim (Bool-cases (ltb sc (length scancode_map))) [
    | inl inside ↦ rw (no_such, press_other) (rw inside (plain_char-ascii k sc))
    | inr outside ↦ rw (no_such, press_other) (rw outside (omega arith))
  ]
]

press-ascii : (k : Keyboard) (t : Tty) (sc : ℕ) → (press k t sc).0 < 128
unfolding press
press-ascii k t sc = elim (Bool-cases (is_shift sc)) [
  | inl shift ↦ rw (shift, press) (omega arith)
  | inr other ↦ elim (Bool-cases (sc == 0x38)) [
    | inl alt ↦ rw (other, alt) (omega arith)
    | inr not_alt ↦ elim (Bool-cases (sc == 0x1D)) [
      | inl ctrl ↦ rw (other, not_alt, ctrl) (omega arith)
      | inr not_ctrl ↦ elim (Option-cases (if k.alt_down then function_key sc else none)) [
        | inl no_such ↦
            rw (other, not_alt, not_ctrl) (rw (no_such, press) (press_other-ascii k t sc))
        | inr (vt, found) ↦ rw (other, not_alt, not_ctrl) (rw (found, press) (omega arith))
      ]
    ]
  ]
]

extended-ascii : (k : Keyboard) (t : Tty) (sc : ℕ) → (extended k t sc).0 < 128
unfolding extended
extended-ascii k t sc = elim (Option-cases (sequence sc)) [
  | inl no_such ↦ rw (no_such, extended) (omega arith)
  | inr (rest, found) ↦ rw (found, extended) (omega arith)
]

handle-ascii : (k : Keyboard) (t : Tty) (sc : ℕ) (rest : List ℕ) → (handle k t sc rest).0 < 128
unfolding handle
handle-ascii k t sc [] = elim (Bool-cases (sc == 0xE0)) [
  | inl prefix ↦ rw (prefix, handle) (omega arith)
  | inr other ↦ elim (Bool-cases (leb 0x80 sc)) [
    | inl released ↦ rw (other, released) (omega arith)
    | inr pressed ↦ rw (other, pressed) (press-ascii (record k { port = [] }) t sc)
  ]
]
handle-ascii k t sc (next ∷ rest) = elim (Bool-cases (sc == 0xE0)) [
  | inl prefix ↦ rw (prefix, handle) (extended-ascii (record k { port = rest }) t next)
  | inr other ↦ elim (Bool-cases (leb 0x80 sc)) [
    | inl released ↦ rw (other, released) (omega arith)
    | inr pressed ↦ rw (other, pressed) (press-ascii (record k { port = next ∷ rest }) t sc)
  ]
]

-- A poll gives an ASCII character, whatever codes wait and whichever modifiers are held.
pub keyboard_poll_char-lt : (k : Keyboard) (t : Tty) → (keyboard_poll_char k t).0 < 128
unfolding keyboard_poll_char
keyboard_poll_char-lt k t = from k.port refl
  where
    from : (l : List ℕ) → k.port ≡ l → (keyboard_poll_char k t).0 < 128
    from [] e = rw (e, keyboard_poll_char) (omega arith)
    from (sc ∷ rest) e = rw (e, keyboard_poll_char) (handle-ascii k t sc rest)

sequence-none : (code : ℕ) → 0x80 ≤ code → sequence code ≡ none
unfolding sequence
sequence-none code h = ground arith

extended-none :
    (k : Keyboard) (t : Tty) (code : ℕ)
    → sequence code ≡ none
    → extended k t code ≡ (0, k, print_scancode (print_scancode t 0xE0) code)
unfolding extended
extended-none k t code h = rw (h, extended) refl

-- Letting go of a key with a prefix, whose two codes have arrived, gives no character and leaves the
-- modifiers, but writes six bytes to the screen.
pub keyboard_poll_char_released :
    (k : Keyboard) (t : Tty) (code : ℕ) (more : List ℕ)
    → k.port ≡ 0xE0 ∷ code ∷ more
    → 0x80 ≤ code
    → let (c, k', t') = keyboard_poll_char k t in
      (c ≡ 0) × (k' ≡ record k { port = more }) × (length t'.shown ≡ length t.shown + 6)
unfolding keyboard_poll_char handle
keyboard_poll_char_released k t code more waits high =
    rw (waits, keyboard_poll_char)
      (rw (extended-none (record k { port = more }) t code (sequence-none code high))
        (refl, refl, shown_longer))
  where
    shown_longer : length (print_scancode (print_scancode t 0xE0) code).shown ≡ length t.shown + 6
    shown_longer =
        length-append (print_scancode t 0xE0).shown _ ∙ omega (arith, length-append t.shown _)
