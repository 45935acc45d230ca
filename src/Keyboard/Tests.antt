-- ===== src/Keyboard/Tests.antt =====
-- Runs of kernel/drivers/keyboard.cpp.
use hana_core.Prelude.{ℕ, List, [], ◌∷◌, ◌≡◌, refl, true, false, replicate, arith}
use hana_core.Tty.Pty.{detached}
use hana_core.Tty.Vt.{Vt, Tty, tty_poll_char}
use hana_core.Tty.Vt.Input.{Pending}
use hana_core.Keyboard.{Keyboard, esc, keyboard_poll_char, plain_char}
use hana_core.Keyboard.Sequence.{driver, tty_poll_char-sequence, delete}
use hana_core.Prelude.Window.{window}

abbrev blank : Vt
blank = record { buf = replicate 16384 0; head = 0 }

abbrev tty : Tty
tty = record {
  input_buf = replicate 256 0;
  input_read = 0;
  input_write = 0;
  vts = replicate 12 blank;
  active_vt = 0;
  ptys = record { pairs = []; vt_map = replicate 12 detached };
  shown = [];
}

abbrev with_codes : List ℕ → Keyboard
with_codes codes = record { port = codes; shift_down = false; alt_down = false; ctrl_down = false }

-- Letting go of the arrow up.
tty-Pending : Pending tty []
unfolding window
tty-Pending = record {
  area = refl;
  order = omega arith;
  full = omega arith;
  small = omega arith;
  kept = refl;
}

-- Delete: ESC, then "[3~".
tty_poll_char-sequence_example :
    let (c, t') = tty_poll_char (driver (with_codes (0xE0 ∷ 0x53 ∷ []))) tty in
    (c ≡ esc) × Pending t' (b'[' ∷ b'3' ∷ b'~' ∷ [])
tty_poll_char-sequence_example =
    tty_poll_char-sequence (with_codes (0xE0 ∷ 0x53 ∷ [])) tty delete [] tty-Pending refl
      (omega arith)

-- The key A: alone, with Shift, with Ctrl.
key_a :
    (plain_char (with_codes []) 0x1E ≡ b'a')
    × (plain_char (record (with_codes []) { shift_down = true }) 0x1E ≡ b'A')
    × (plain_char (record (with_codes []) { ctrl_down = true }) 0x1E ≡ 1)
unfolding plain_char
key_a = (refl, refl, refl)

-- Both Shift keys are held, and the left one is let go: the key A gives a small letter.
one_shift :
    (keyboard_poll_char
      (keyboard_poll_char (record (with_codes (0xAA ∷ 0x1E ∷ [])) { shift_down = true }) tty).1
      tty).0
    ≡ b'a'
unfolding keyboard_poll_char
one_shift = refl
