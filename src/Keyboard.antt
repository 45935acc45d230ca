-- ===== src/Keyboard.antt =====
-- kernel/drivers/keyboard.cpp: from scan codes to characters. `port` is what the controller has for
-- the driver, oldest first: its status bit says whether that is empty, and a read takes one.
pub mod Codes
pub mod Sequence
mod Tests
use Prim.Native.Nat.{bit_and}
use hana_core.Prelude.{
  ℕ, List, [], ◌∷◌, ◌++◌, ◌+◌, ◌-◌, ◌/◌, ◌%◌, Option, none, some, Bool, true, false, ◌&&◌, ◌||◌,
  ◌==◌, ltb, leb, if◌then◌else◌, get_or, length,
}
use hana_core.Prelude.Int.{pos}
use hana_core.Tty.Vt.{Tty, print, tty_enqueue_input, tty_switch_vt}

pub record Keyboard : Type 0 where
  pub port : List ℕ
  pub shift_down : Bool
  pub alt_down : Bool
  pub ctrl_down : Bool

abbrev pub esc : ℕ
esc = 0x1B

unfoldable pub scancode_map : List ℕ
scancode_map =
    0 ∷ esc ∷ b'1' ∷ b'2' ∷ b'3' ∷ b'4' ∷ b'5' ∷ b'6' ∷ b'7' ∷ b'8' ∷ b'9' ∷ b'0' ∷ b'-' ∷ b'=' ∷ 8
    ∷ 9 ∷ b'q' ∷ b'w' ∷ b'e' ∷ b'r' ∷ b't' ∷ b'y' ∷ b'u' ∷ b'i' ∷ b'o' ∷ b'p' ∷ b'[' ∷ b']' ∷ 10 ∷ 0
    ∷ b'a' ∷ b's' ∷ b'd' ∷ b'f' ∷ b'g' ∷ b'h' ∷ b'j' ∷ b'k' ∷ b'l' ∷ b';' ∷ 39 ∷ b'`' ∷ 0 ∷ 92
    ∷ b'z' ∷ b'x' ∷ b'c' ∷ b'v' ∷ b'b' ∷ b'n' ∷ b'm' ∷ b',' ∷ b'.' ∷ b'/' ∷ 0 ∷ b'*' ∷ 0 ∷ b' ' ∷ []

unfoldable pub scancode_map_shift : List ℕ
scancode_map_shift =
    0 ∷ esc ∷ b'!' ∷ b'@' ∷ b'#' ∷ b'$' ∷ b'%' ∷ b'^' ∷ b'&' ∷ b'*' ∷ b'(' ∷ b')' ∷ b'_' ∷ b'+' ∷ 8
    ∷ 9 ∷ b'Q' ∷ b'W' ∷ b'E' ∷ b'R' ∷ b'T' ∷ b'Y' ∷ b'U' ∷ b'I' ∷ b'O' ∷ b'P' ∷ b'{' ∷ b'}' ∷ 10 ∷ 0
    ∷ b'A' ∷ b'S' ∷ b'D' ∷ b'F' ∷ b'G' ∷ b'H' ∷ b'J' ∷ b'K' ∷ b'L' ∷ b':' ∷ 34 ∷ b'~' ∷ 0 ∷ b'|'
    ∷ b'Z' ∷ b'X' ∷ b'C' ∷ b'V' ∷ b'B' ∷ b'N' ∷ b'M' ∷ b'<' ∷ b'>' ∷ b'?' ∷ 0 ∷ b'*' ∷ 0 ∷ b' ' ∷ []

abbrev pub hex_digit : ℕ → ℕ
hex_digit n = if ltb n 10 then b'0' + n else b'A' + (n - 10)

-- "[HH": the NUL takes the place of the bracket.
unfoldable pub print_scancode : Tty → ℕ → Tty
print_scancode t sc = print t (b'[' ∷ hex_digit (sc / 16 % 16) ∷ hex_digit (sc % 16) ∷ [])

-- The bytes behind ESC of an arrow, Home, End, Insert or Delete. Both switches have the same cases.
unfoldable pub sequence : ℕ → Option (List ℕ)
sequence code =
    if code == 0x48
    then some (b'[' ∷ b'A' ∷ [])
    else if code == 0x50
    then some (b'[' ∷ b'B' ∷ [])
    else if code == 0x4B
    then some (b'[' ∷ b'D' ∷ [])
    else if code == 0x4D
    then some (b'[' ∷ b'C' ∷ [])
    else if code == 0x47
    then some (b'[' ∷ b'H' ∷ [])
    else if code == 0x4F
    then some (b'[' ∷ b'F' ∷ [])
    else if code == 0x52
    then some (b'[' ∷ b'2' ∷ b'~' ∷ [])
    else if code == 0x53
    then some (b'[' ∷ b'3' ∷ b'~' ∷ [])
    else none

abbrev pub is_shift : ℕ → Bool
is_shift sc = (sc == 0x2A) || (sc == 0x36)

unfoldable pub release : Keyboard → ℕ → Keyboard
release k base = record k {
  shift_down = if is_shift base then false else k.shift_down;
  alt_down = if base == 0x38 then false else k.alt_down;
  ctrl_down = if base == 0x1D then false else k.ctrl_down;
}

-- F1 to F12.
abbrev pub function_key : ℕ → Option ℕ
function_key sc =
    if leb 0x3B sc && leb sc 0x44
    then some (sc - 0x3B + 1)
    else if sc == 0x57
    then some 11
    else if sc == 0x58
    then some 12
    else none

abbrev pub is_letter : ℕ → Bool
is_letter c = leb b'a' c && leb c b'z' || leb b'A' c && leb c b'Z'

unfoldable pub plain_char : Keyboard → ℕ → ℕ
unfolding scancode_map scancode_map_shift
plain_char k sc =
    let c = get_or (if k.shift_down then scancode_map_shift else scancode_map) sc 0 in
    if k.ctrl_down && is_letter c then bit_and c 0x1F else c

-- The end of the handling of a press, behind the modifiers and the function keys.
abbrev pub press_other : Keyboard → Tty → ℕ → ℕ × Keyboard × Tty
press_other k t sc = elim (sequence sc) [
  | some rest ↦ (esc, k, tty_enqueue_input t rest)
  | none ↦
      if ltb sc (length scancode_map) then (plain_char k sc, k, t) else (0, k, print_scancode t sc)
]

unfoldable pub press : Keyboard → Tty → ℕ → ℕ × Keyboard × Tty
unfolding sequence plain_char print_scancode tty_enqueue_input scancode_map
press k t sc =
    if is_shift sc
    then (0, record k { shift_down = true }, t)
    else if sc == 0x38
    then (0, record k { alt_down = true }, t)
    else if sc == 0x1D
    then (0, record k { ctrl_down = true }, t)
    else elim (if k.alt_down then function_key sc else none) [
      | some vt ↦ (0, k, tty_switch_vt t (pos vt))
      | none ↦ press_other k t sc
    ]

unfoldable pub extended : Keyboard → Tty → ℕ → ℕ × Keyboard × Tty
unfolding sequence print_scancode tty_enqueue_input
extended k t code = elim (sequence code) [
  | some rest ↦ (esc, k, tty_enqueue_input t rest)
  | none ↦ (0, k, print_scancode (print_scancode t 0xE0) code)
]

-- One scan code, with those behind it.
unfoldable pub handle : Keyboard → Tty → ℕ → List ℕ → ℕ × Keyboard × Tty
unfolding extended release press
handle k t sc rest =
    if sc == 0xE0
    then elim rest [
      | [] ↦ (0, record k { port = [] }, t)
      | next ∷ more ↦ extended (record k { port = more }) t next
    ]
    else if leb 0x80 sc
    then (0, release (record k { port = rest }) (sc - 0x80), t)
    else press (record k { port = rest }) t sc

-- The character, or 0 for none.
unfoldable pub keyboard_poll_char : Keyboard → Tty → ℕ × Keyboard × Tty
unfolding handle
keyboard_poll_char k t = elim k.port [ [] ↦ (0, k, t) | sc ∷ rest ↦ handle k t sc rest ]

unfoldable pub keyboard_init : Keyboard → Keyboard
keyboard_init k = record k { port = [] }

unfoldable pub keyboard_poll_and_log : Keyboard → Tty → Keyboard × Tty
unfolding keyboard_poll_char
keyboard_poll_and_log k t =
    let (c, k', t') = keyboard_poll_char k t in (k', if c == 0 then t' else print t' (c ∷ []))
