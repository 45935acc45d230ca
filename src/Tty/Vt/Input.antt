-- ===== src/Tty/Vt/Input.antt =====
-- The input queue of 256 bytes: in order while it has room, overwritten when it has none.
use hana_core.Prelude.{
  ℕ, zero, suc, List, [], ◌∷◌, ◌++◌, ◌+◌, ◌-◌, ◌%◌, ◌^◌, ◌≡◌, ◌≢◌, ◌≤◌, ◌<◌, refl, ap, ◌∙◌, sym,
  subst, arith, length, get_or, set, length-set, length-append,
}
use hana_core.Prelude.Word.{bit_and_mask}
use hana_core.Prelude.Window.{window, window-set, window_of_pos, length-window}
use hana_core.Tty.Vt.{Tty, input_sz, enqueue_byte, tty_enqueue_input, tty_poll_char}
use Prim.Native.Nat.{bit_and}
use mathlib.Core.List.{append_assoc, append-nil}
use mathlib.Core.Path.{ap₂}

-- The queue of `t` holds exactly the bytes of `q`, oldest first.
pub record Pending (t : Tty) (q : List ℕ) : Type 0 where
  pub area : length t.input_buf ≡ input_sz
  pub order : t.input_read ≤ t.input_write
  pub full : t.input_write ≤ t.input_read + input_sz
  pub small : t.input_write < 2 ^ 32
  pub kept : window t.input_buf input_sz t.input_read (t.input_write - t.input_read) ≡ q

pub Pending-length : {t : Tty} {q : List ℕ} → Pending t q → t.input_write ≡ t.input_read + length q
Pending-length {t} p = omega (
  arith,
  p.order,
  ap length p.kept,
  length-window t.input_buf input_sz t.input_read (t.input_write - t.input_read),
)

slot_lem : (i : ℕ) → bit_and i (input_sz - 1) ≡ i % input_sz
slot_lem i = bit_and_mask 8 i

enqueue_byte-Pending :
    (t : Tty) (q : List ℕ) (c : ℕ)
    → Pending t q
    → length q < input_sz
    → t.input_write + 1 < 2 ^ 32
    → Pending (enqueue_byte t c) (q ++ (c ∷ []))
unfolding enqueue_byte
enqueue_byte-Pending t q c p room fits = record {
  area = length-set t.input_buf (bit_and t.input_write (input_sz - 1)) c ∙ p.area;
  order = omega (arith, p.order);
  full = omega (arith, Pending-length p);
  small = omega arith;
  kept =
      ap₂ (λ (i n : ℕ). window (set t.input_buf i c) input_sz t.input_read n) place count
      ∙ window-set t.input_buf input_sz t.input_read (t.input_write - t.input_read) c p.area
          (omega (arith, Pending-length p))
      ∙ ap (λ (l : List ℕ). l ++ (c ∷ [])) p.kept;
}
  where
    place :
        bit_and t.input_write (input_sz - 1)
        ≡ (t.input_read + (t.input_write - t.input_read)) % input_sz
    place = omega (arith, slot_lem t.input_write, p.order)

    count : (t.input_write + 1) % 2 ^ 32 - t.input_read ≡ t.input_write - t.input_read + 1
    count = omega (arith, p.order)

-- A text that there is room for is put behind what is waiting.
pub tty_enqueue_input-Pending :
    (s : List ℕ) (t : Tty) (q : List ℕ)
    → Pending t q
    → length q + length s ≤ input_sz
    → t.input_write + length s < 2 ^ 32
    → Pending (tty_enqueue_input t s) (q ++ s)
unfolding tty_enqueue_input
tty_enqueue_input-Pending [] t q p room fits = rw append-nil p
tty_enqueue_input-Pending (c ∷ cs) t q p room fits =
    subst (Pending (tty_enqueue_input (enqueue_byte t c) cs)) (append_assoc q (c ∷ []) cs) (
      tty_enqueue_input-Pending cs (enqueue_byte t c) (q ++ (c ∷ []))
        (enqueue_byte-Pending t q c p (omega arith) (omega arith))
        (omega (arith, length-append q (c ∷ []))) (omega (arith, written t c)))
  where
    written : (t : Tty) (c : ℕ) → (enqueue_byte t c).input_write ≡ (t.input_write + 1) % 2 ^ 32
    written t c = refl

get_or-set_lem : (xs : List ℕ) (i v : ℕ) → i < length xs → get_or (set xs i v) i 0 ≡ v
get_or-set_lem [] i v h = absurd (omega arith)
get_or-set_lem (x ∷ xs) zero v h = refl
get_or-set_lem (x ∷ xs) (suc i) v h = get_or-set_lem xs i v (omega arith)

poll_lem :
    (keyboard : Tty → ℕ × Tty) (t : Tty)
    → t.input_read ≢ t.input_write
    → tty_poll_char keyboard t ≡ (
      get_or t.input_buf (bit_and t.input_read (input_sz - 1)) 0,
      record t { input_read = (t.input_read + 1) % 2 ^ 32 },
    )
unfolding tty_poll_char
poll_lem keyboard t ne = ground arith

-- While bytes wait, a poll returns the oldest one and leaves the others, and asks no keyboard.
pub tty_poll_char-Pending :
    (keyboard : Tty → ℕ × Tty) (t : Tty) (c : ℕ) (q : List ℕ)
    → Pending t (c ∷ q)
    → let (d, t') = tty_poll_char keyboard t in (d ≡ c) × Pending t' q
tty_poll_char-Pending keyboard t c q p =
    rw (poll_lem keyboard t (λ e. omega (arith, e, Pending-length p))) (
      first,
      record {
        area = p.area;
        order = omega (arith, Pending-length p, p.small);
        full = omega (arith, p.full, p.small, p.order, Pending-length p);
        small = p.small;
        kept =
            ap₂ (λ (i n : ℕ). window t.input_buf input_sz i n) {y = t.input_read + 1}
              {v = t.input_write - t.input_read - 1} (omega (arith, p.small, Pending-length p))
              (omega (arith, p.small, Pending-length p))
            ∙ cc split;
      },
    )
  where
    split :
        c ∷ q
        ≡ get_or t.input_buf (t.input_read % input_sz) 0
          ∷ window t.input_buf input_sz (t.input_read + 1) (t.input_write - t.input_read - 1)
    split =
        sym p.kept
        ∙ window_of_pos t.input_buf input_sz t.input_read (t.input_write - t.input_read)
            (omega (arith, Pending-length p))

    first : get_or t.input_buf (bit_and t.input_read (input_sz - 1)) 0 ≡ c
    first = ap (λ (i : ℕ). get_or t.input_buf i 0) (slot_lem t.input_read) ∙ cc split

-- A byte that comes while 256 are waiting overwrites the oldest: the next poll returns the new
-- byte in its place.
pub enqueue_byte_overflow :
    (keyboard : Tty → ℕ × Tty) (t : Tty) (q : List ℕ) (c : ℕ)
    → Pending t q
    → length q ≡ input_sz
    → t.input_write + 1 < 2 ^ 32
    → (tty_poll_char keyboard (enqueue_byte t c)).0 ≡ c
unfolding enqueue_byte
enqueue_byte_overflow keyboard t q c p full fits =
    rw (poll_lem keyboard (enqueue_byte t c) (λ e. omega (arith, e, Pending-length p))) (
      rw same (
        get_or-set_lem t.input_buf (bit_and t.input_write (input_sz - 1)) c
          (omega (arith, p.area, slot_lem t.input_write))))
  where
    same : bit_and t.input_read (input_sz - 1) ≡ bit_and t.input_write (input_sz - 1)
    same = omega (arith, slot_lem t.input_read, slot_lem t.input_write, Pending-length p)
