-- ===== src/Tty/Vt/Tests.antt =====
-- Runs of kernel/tty/tty.cpp.
use hana_core.Prelude.{ℕ, ◌≡◌, [], ◌∷◌, refl, arith, replicate}
use hana_core.Tty.Pty.{detached}
use hana_core.Tty.Vt.{Vt, Tty, tty_write, vt_header, take_key, tty_poll_char}
use hana_core.Tty.Vt.Log.{Logged, vt_at, tty_write-Logged}
use hana_core.Tty.Vt.Input.{Pending}
use hana_core.Prelude.Window.{window}

abbrev no_key : Tty → ℕ × Tty
no_key t = (0, t)

-- A terminal with the text "A" in its first log.
abbrev blank : Vt
blank = record { buf = replicate 16384 0; head = 0 }

abbrev small : Vt
small = record { buf = 65 ∷ replicate 16383 0; head = 1 }

abbrev tty : Tty
tty = record {
  input_buf = replicate 256 0;
  input_read = 0;
  input_write = 0;
  vts = small ∷ replicate 11 blank;
  active_vt = 0;
  ptys = record { pairs = []; vt_map = replicate 12 detached };
  shown = [];
}

abbrev typed : Tty
typed = record tty { input_buf = 65 ∷ 66 ∷ replicate 254 0; input_write = 2 }

abbrev full : Tty
full = record tty { input_write = 256 }

header_test : vt_header 11 ≡ b'V' ∷ b'T' ∷ b' ' ∷ b'1' ∷ b'2' ∷ 10 ∷ []
unfolding vt_header
header_test = refl

poll_test : (tty_poll_char no_key typed).0 ≡ 65
unfolding tty_poll_char
poll_test = refl

no_key_test : (tty_poll_char no_key tty).0 ≡ 0
unfolding tty_poll_char take_key
no_key_test = refl

small-Logged : Logged small (65 ∷ [])
unfolding window
small-Logged = record { area = refl; counted = refl; small = omega arith; kept = refl }

blank-Logged : Logged blank []
unfolding window
blank-Logged = record { area = refl; counted = refl; small = omega arith; kept = refl }

tty_write-Logged_example :
    let t' = tty_write tty (66 ∷ 67 ∷ []) in
    Logged (vt_at t' t'.active_vt) (65 ∷ 66 ∷ 67 ∷ []) × (t'.shown ≡ 66 ∷ 67 ∷ [])
tty_write-Logged_example =
    tty_write-Logged tty (65 ∷ []) (66 ∷ 67 ∷ []) (omega arith) small-Logged (omega arith)

tty-Pending : Pending tty []
unfolding window
tty-Pending = record {
  area = refl;
  order = omega arith;
  full = omega arith;
  small = omega arith;
  kept = refl;
}

typed-Pending : Pending typed (65 ∷ 66 ∷ [])
unfolding window
typed-Pending = record {
  area = refl;
  order = omega arith;
  full = omega arith;
  small = omega arith;
  kept = refl;
}

full-Pending : Pending full (replicate 256 0)
unfolding window
full-Pending = record {
  area = refl;
  order = omega arith;
  full = omega arith;
  small = omega arith;
  kept = refl;
}
