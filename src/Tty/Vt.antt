-- ===== src/Tty/Vt.antt =====
-- kernel/tty/tty.cpp: the input queue and the twelve virtual terminals. A text is the list of its
-- bytes before the NUL. `shown` is what `print` was given since the last `clear_screen`.
pub mod Log
pub mod Input
mod Tests
use Prim.Native.Nat.{bit_and}
use hana_core.Prelude.{
  ℕ, zero, suc, List, [], ◌∷◌, ◌++◌, ◌+◌, ◌-◌, ◌%◌, ◌*◌, ◌^◌, ltb, leb, get_elem?, get_or, set,
  true, false, Bool, Option, none, some, if◌then◌else◌, ◌==◌,
}
use hana_core.Prelude.Int.{ℤ, pos, negsuc}
use hana_core.Tty.Pty.{Ptys, num_vt, vt_map_get, slave_push_input}

abbrev pub buf_sz : ℕ
buf_sz = 16 * 1024

abbrev pub input_sz : ℕ
input_sz = 256

-- `vt_buf` and `vt_head` at one index. `vt_head` is an `unsigned`.
pub record Vt : Type 0 where
  pub buf : List ℕ
  pub head : ℕ

pub record Tty : Type 0 where
  pub input_buf : List ℕ
  pub input_read : ℕ
  pub input_write : ℕ
  pub vts : List Vt
  pub active_vt : ℕ
  pub ptys : Ptys
  pub shown : List ℕ

abbrev pub inc32 : ℕ → ℕ
inc32 n = (n + 1) % 2 ^ 32

unfoldable pub tty_init : Tty → Tty
tty_init t = record t { input_read = 0; input_write = 0 }

unfoldable pub enqueue_byte : Tty → ℕ → Tty
enqueue_byte t c = record t {
  input_buf = set t.input_buf (bit_and t.input_write (input_sz - 1)) c;
  input_write = inc32 t.input_write;
}

unfoldable pub tty_enqueue_input : Tty → List ℕ → Tty
unfolding enqueue_byte
tty_enqueue_input t [] = t
tty_enqueue_input t (c ∷ cs) = tty_enqueue_input (enqueue_byte t c) cs

-- One step of the append loops.
unfoldable pub vt_put : Vt → ℕ → Vt
vt_put v c = record { buf = set v.buf (bit_and v.head (buf_sz - 1)) c; head = inc32 v.head }

unfoldable pub put_all : Vt → List ℕ → Vt
unfolding vt_put
put_all v [] = v
put_all v (c ∷ cs) = put_all (vt_put v c) cs

abbrev pub no_vt : Vt
no_vt = record { buf = []; head = 0 }

unfoldable pub vt_append : Tty → List ℕ → Tty
unfolding put_all
vt_append t s = record t {
  vts = set t.vts t.active_vt (put_all (get_or t.vts t.active_vt no_vt) s);
}

abbrev pub print : Tty → List ℕ → Tty
print t s = record t { shown = t.shown ++ s }

unfoldable pub tty_write : Tty → List ℕ → Tty
unfolding vt_append
tty_write t s = print (vt_append t s) s

-- A NUL makes an empty text.
unfoldable pub tty_putc : Tty → ℕ → Tty
unfolding tty_write
tty_putc t c = tty_write t (if c == 0 then [] else c ∷ [])

-- "VT %d\n" of an index.
unfoldable pub vt_header : ℕ → List ℕ
vt_header idx =
    let n = idx + 1 in
    if leb 10 n
    then b'V' ∷ b'T' ∷ b' ' ∷ b'1' ∷ (b'0' + (n - 10)) ∷ 10 ∷ []
    else b'V' ∷ b'T' ∷ b' ' ∷ (b'0' + n) ∷ 10 ∷ []

-- The bytes at the counters `i`, …, `i + n - 1`.
unfoldable pub replay : List ℕ → ℕ → ℕ → List ℕ
replay buf i zero = []
replay buf i (suc n) = get_or buf (bit_and i (buf_sz - 1)) 0 ∷ replay buf (i + 1) n

-- What is shown of a terminal that has text.
unfoldable pub replay_vt : Vt → List ℕ
unfolding replay
replay_vt v =
    let start = if ltb buf_sz v.head then v.head - buf_sz else 0 in
    replay v.buf start (v.head - start)

-- A number from 1 to 12 gives an index.
abbrev pub vt_index : ℤ → Option ℕ
vt_index (pos zero) = none
vt_index (pos (suc i)) = if ltb i num_vt then some i else none
vt_index (negsuc n) = none

unfoldable pub show_vt : Tty → ℕ → Tty
unfolding put_all replay_vt vt_header
show_vt t idx =
    let v = get_or t.vts idx no_vt in
    if v.head == 0
    then record t {
      active_vt = idx;
      vts = set t.vts idx (put_all v (vt_header idx));
      shown = vt_header idx;
    }
    else record t { active_vt = idx; shown = replay_vt v }

unfoldable pub tty_switch_vt : Tty → ℤ → Tty
unfolding show_vt
tty_switch_vt t n = elim (vt_index n) [
  | none ↦ t
  | some idx ↦ if idx == t.active_vt then t else show_vt t idx
]

-- A character that the keyboard gave, with the terminal as the keyboard driver left it.
unfoldable pub take_key : Tty → ℕ → ℕ × Tty
unfolding vt_append
take_key t c =
    if c == 0
    then (0, t)
    else (let t' = vt_append t (c ∷ []) in
        let id = vt_map_get t'.ptys (pos t'.active_vt) in (c, fed t' id))
  where
    fed : Tty → ℤ → Tty
    fed t (pos id) = record t { ptys = slave_push_input t.ptys (pos id) c }
    fed t (negsuc n) = t

-- `keyboard` is `keyboard_poll_char`: a character, or 0, and its effect on the terminal.
unfoldable pub tty_poll_char : (Tty → ℕ × Tty) → Tty → ℕ × Tty
unfolding take_key
tty_poll_char keyboard t =
    if t.input_read == t.input_write then (let (c, t') = keyboard t in take_key t' c) else (
      get_or t.input_buf (bit_and t.input_read (input_sz - 1)) 0,
      record t { input_read = inc32 t.input_read },
    )
