-- ===== src/Keyboard/Sequence.antt =====
-- A key that stands for several bytes, read by way of the virtual terminals.
use hana_core.Prelude.{
  ℕ, List, [], ◌∷◌, ◌+◌, ◌^◌, ◌≡◌, ◌<◌, ◌≤◌, refl, ap, ◌∙◌, some, Bool-cases, ◌⊎◌, inl, inr, arith,
  length, ◌==◌,
}
use hana_core.Prelude.Int.{ℤ, pos, negsuc}
use hana_core.Tty.Vt.{Tty, tty_poll_char, tty_enqueue_input, take_key, vt_append}
use hana_core.Tty.Pty.{vt_map_get}
use hana_core.Tty.Vt.Input.{Pending-length, Pending, tty_enqueue_input-Pending}
use hana_core.Keyboard.{extended, handle, Keyboard, esc, sequence, keyboard_poll_char}

-- What the terminal sees of the keyboard.
abbrev pub driver : Keyboard → Tty → ℕ × Tty
driver k t = let (c, k', t') = keyboard_poll_char k t in (c, t')

ℤ-cases : (z : ℤ) → ((n : ℕ) × (z ≡ pos n)) ⊎ ((n : ℕ) × (z ≡ negsuc n))
ℤ-cases (pos n) = inl (n, refl)
ℤ-cases (negsuc n) = inr (n, refl)

-- A character that the keyboard gives leaves the queue alone.
take_key-Pending : (t : Tty) (c : ℕ) (q : List ℕ) → Pending t q → Pending (take_key t c).1 q
unfolding take_key vt_append
take_key-Pending t c q p = elim (Bool-cases (c == 0)) [
  | inl none_given ↦ rw none_given p
  | inr given ↦ elim (ℤ-cases (vt_map_get t.ptys (pos t.active_vt))) [
    | inl (id, fed) ↦
        rw (given, take_key)
          (rw (fed, take_key)
            (record {
              area = p.area;
              order = p.order;
              full = p.full;
              small = p.small;
              kept = p.kept;
            }))
    | inr (n, no_pair) ↦
        rw (given, take_key)
          (rw (no_pair, take_key)
            (record {
              area = p.area;
              order = p.order;
              full = p.full;
              small = p.small;
              kept = p.kept;
            }))
  ]
]

take_key_char : (t : Tty) (c : ℕ) → (take_key t c).0 ≡ c
unfolding take_key
take_key_char t c = ground arith

extended-sequence :
    (k : Keyboard) (t : Tty) (code : ℕ) (seq : List ℕ)
    → sequence code ≡ some seq
    → extended k t code ≡ (esc, k, tty_enqueue_input t seq)
unfolding extended
extended-sequence k t code seq known = rw (known, extended) refl

driver-sequence :
    (k : Keyboard) (t : Tty) (code : ℕ) (more seq : List ℕ)
    → k.port ≡ 0xE0 ∷ code ∷ more
    → sequence code ≡ some seq
    → driver k t ≡ (esc, tty_enqueue_input t seq)
unfolding keyboard_poll_char handle
driver-sequence k t code more seq waits known =
    rw (waits, keyboard_poll_char)
      (ap (λ (r : ℕ × Keyboard × Tty). let s : ℕ × Tty = (r.0, r.2) in s)
        (extended-sequence (record k { port = more }) t code seq known))

length-sequence : (code : ℕ) (seq : List ℕ) → sequence code ≡ some seq → length seq ≤ 3
unfolding sequence
length-sequence code seq h = ground (arith, h)

asks_keyboard :
    (keyboard : Tty → ℕ × Tty) (t : Tty)
    → t.input_read ≡ t.input_write
    → tty_poll_char keyboard t ≡ (let (c, t') = keyboard t in take_key t' c)
unfolding tty_poll_char
asks_keyboard keyboard t empty = ground arith

sequence_waits :
    (k : Keyboard) (t : Tty) (code : ℕ) (more seq : List ℕ)
    → Pending t []
    → k.port ≡ 0xE0 ∷ code ∷ more
    → sequence code ≡ some seq
    → t.input_write + 3 < 2 ^ 32
    → let (c, t') = tty_poll_char (driver k) t in (c ≡ esc) × Pending t' seq
sequence_waits k t code more seq p waits known fits =
    rw
      (asks_keyboard (driver k) t (omega (arith, Pending-length p))
        ∙ ap (λ (r : ℕ × Tty). take_key r.1 r.0) (driver-sequence k t code more seq waits known))
      (
        take_key_char (tty_enqueue_input t seq) esc,
        take_key-Pending (tty_enqueue_input t seq) esc seq (
            tty_enqueue_input-Pending seq t [] p (omega (arith, length-sequence code seq known))
              (omega (arith, length-sequence code seq known))),
      )

-- The keys whose meaning is a sequence of an ANSI terminal.
pub data Key : Type 0 where
  up : Key
  down : Key
  left : Key
  right : Key
  home : Key
  end_ : Key
  insert : Key
  delete : Key

-- The code that the keyboard sends behind 0xE0 when the key goes down.
abbrev pub scan_code : Key → ℕ
scan_code up = 0x48
scan_code down = 0x50
scan_code left = 0x4B
scan_code right = 0x4D
scan_code home = 0x47
scan_code end_ = 0x4F
scan_code insert = 0x52
scan_code delete = 0x53

-- What an ANSI terminal sends behind ESC for the key.
abbrev pub ansi : Key → List ℕ
ansi up = b'[' ∷ b'A' ∷ []
ansi down = b'[' ∷ b'B' ∷ []
ansi right = b'[' ∷ b'C' ∷ []
ansi left = b'[' ∷ b'D' ∷ []
ansi home = b'[' ∷ b'H' ∷ []
ansi end_ = b'[' ∷ b'F' ∷ []
ansi insert = b'[' ∷ b'2' ∷ b'~' ∷ []
ansi delete = b'[' ∷ b'3' ∷ b'~' ∷ []

sequence-ansi : (key : Key) → sequence (scan_code key) ≡ some (ansi key)
unfolding sequence
sequence-ansi up = refl
sequence-ansi down = refl
sequence-ansi left = refl
sequence-ansi right = refl
sequence-ansi home = refl
sequence-ansi end_ = refl
sequence-ansi insert = refl
sequence-ansi delete = refl

-- Each arrow, Home, End, Insert and Delete, with its two scan codes arrived while no byte waits in the
-- input queue and its counter does not wrap: the poll of the terminal returns ESC, and the queue then
-- holds exactly the rest of the sequence that an ANSI terminal sends for that key.
pub tty_poll_char-sequence :
    (k : Keyboard) (t : Tty) (key : Key) (more : List ℕ)
    → Pending t []
    → k.port ≡ 0xE0 ∷ scan_code key ∷ more
    → t.input_write + 3 < 2 ^ 32
    → let (c, t') = tty_poll_char (driver k) t in (c ≡ esc) × Pending t' (ansi key)
tty_poll_char-sequence k t key more p waits fits =
    sequence_waits k t (scan_code key) more (ansi key) p waits (sequence-ansi key) fits
