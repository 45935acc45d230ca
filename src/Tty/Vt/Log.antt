-- ===== src/Tty/Vt/Log.antt =====
-- A virtual terminal keeps the last 16384 bytes that were written to it, and a switch shows them.
use Prim.Native.Nat.{bit_and}
use mathlib.Core.Path.{ap₂}
use hana_core.Prelude.{
  ◌≢◌, inr, inl, get_or, subst, le_or_lt, length-append, length-set, ℕ, zero, suc, List, [], ◌∷◌,
  ◌++◌, ◌+◌, ◌-◌, ◌%◌, ◌^◌, ◌≡◌, ◌≤◌, ◌<◌, refl, ap, ◌∙◌, sym, arith, length, drop, set,
}
use hana_core.Prelude.Word.{bit_and_mask}
use hana_core.Prelude.Window.{window_none, window, window-set, window_of_pos}
use hana_core.Tty.Vt.{
  show_vt, vt_header, pos, num_vt, no_vt, tty_write, tty_switch_vt, Tty, replay_vt, replay, put_all,
  Vt, buf_sz, vt_put,
}
use mathlib.Core.List.{append_assoc, append-nil}

-- The terminal `v` was written exactly the bytes of `log`.
pub record Logged (v : Vt) (log : List ℕ) : Type 0 where
  pub area : length v.buf ≡ buf_sz
  pub counted : v.head ≡ length log
  pub small : length log < 2 ^ 32
  pub kept :
      window v.buf buf_sz (v.head - buf_sz) (v.head - (v.head - buf_sz))
      ≡ drop (length log - buf_sz) log

drop-length : (n : ℕ) (xs ys : List ℕ) → n ≤ length xs → drop n (xs ++ ys) ≡ drop n xs ++ ys
drop-length zero xs ys h = refl
drop-length (suc n) [] ys h = absurd (omega arith)
drop-length (suc n) (x ∷ xs) ys h = drop-length n xs ys (omega arith)

drop_cons : (n x : ℕ) (xs ys : List ℕ) → x ∷ ys ≡ drop n xs → ys ≡ drop (suc n) xs
drop_cons zero x xs ys e = rw (← e)
drop_cons (suc n) x [] ys e = cc
drop_cons (suc n) x (z ∷ xs) ys e = drop_cons n x xs ys e

-- The slot that a put writes.
slot_lem : (i : ℕ) → bit_and i (buf_sz - 1) ≡ i % buf_sz
slot_lem i = bit_and_mask 14 i

-- Writing one more byte to a terminal that is not yet full.
put_young :
    (v : Vt) (log : List ℕ) (c : ℕ)
    → Logged v log
    → v.head < buf_sz
    → window (vt_put v c).buf buf_sz 0 (v.head + 1) ≡ log ++ (c ∷ [])
unfolding vt_put
put_young v log c g h =
    ap (λ (i : ℕ). window (set v.buf i c) buf_sz 0 (v.head + 1)) place
    ∙ window-set v.buf buf_sz 0 v.head c g.area h
    ∙ ap (λ (l : List ℕ). l ++ (c ∷ [])) whole
  where
    place : bit_and v.head (buf_sz - 1) ≡ (0 + v.head) % buf_sz
    place = omega (arith, slot_lem v.head)

    whole : window v.buf buf_sz 0 v.head ≡ log
    whole =
        ap₂ (λ (t n : ℕ). window v.buf buf_sz t n) (omega arith) (omega arith)
        ∙ g.kept
        ∙ ap (λ (k : ℕ). drop k log) {x = length log - buf_sz} {y = 0} (omega (arith, g.counted))

-- Writing one more byte to a full terminal overwrites the oldest.
put_old :
    (v : Vt) (log : List ℕ) (c : ℕ)
    → Logged v log
    → buf_sz ≤ v.head
    → window (vt_put v c).buf buf_sz (v.head - buf_sz + 1) (buf_sz - 1 + 1)
      ≡ drop (suc (length log - buf_sz)) log ++ (c ∷ [])
unfolding vt_put
put_old v log c g h =
    ap (λ (i : ℕ). window (set v.buf i c) buf_sz (v.head - buf_sz + 1) (buf_sz - 1 + 1)) place
    ∙ window-set v.buf buf_sz (v.head - buf_sz + 1) (buf_sz - 1) c g.area (omega arith)
    ∙ ap (λ (l : List ℕ). l ++ (c ∷ []))
        (drop_cons (length log - buf_sz) _ log _
          (sym (window_of_pos v.buf buf_sz (v.head - buf_sz) buf_sz (omega arith)) ∙ whole))
  where
    place : bit_and v.head (buf_sz - 1) ≡ (v.head - buf_sz + 1 + (buf_sz - 1)) % buf_sz
    place = omega (arith, slot_lem v.head)

    whole : window v.buf buf_sz (v.head - buf_sz) buf_sz ≡ drop (length log - buf_sz) log
    whole =
        ap (λ (n : ℕ). window v.buf buf_sz (v.head - buf_sz) n) {x = buf_sz}
          {y = v.head - (v.head - buf_sz)} (omega arith)
        ∙ g.kept

area-vt_put : (v : Vt) (c : ℕ) → length v.buf ≡ buf_sz → length (vt_put v c).buf ≡ buf_sz
unfolding vt_put
area-vt_put v c e = length-set v.buf (bit_and v.head (buf_sz - 1)) c ∙ e

head-vt_put : (v : Vt) (c : ℕ) → (vt_put v c).head ≡ (v.head + 1) % 2 ^ 32
unfolding vt_put
head-vt_put v c = refl

pub vt_put-Logged :
    (v : Vt) (log : List ℕ) (c : ℕ)
    → Logged v log
    → length log + 1 < 2 ^ 32
    → Logged (vt_put v c) (log ++ (c ∷ []))
vt_put-Logged v log c g fits = elim (le_or_lt buf_sz v.head) [
  | inl full ↦ record {
    area = put_area;
    counted = put_head;
    small = omega (arith, longer);
    kept =
        ap₂ (λ (t n : ℕ). window (vt_put v c).buf buf_sz t n) {x = (vt_put v c).head - buf_sz}
          {y = v.head - buf_sz + 1} {u = (vt_put v c).head - ((vt_put v c).head - buf_sz)}
          {v = buf_sz - 1 + 1} (omega (arith, put_head, longer, g.counted))
          (omega (arith, put_head, longer, g.counted))
        ∙ put_old v log c g full
        ∙ sym (drop-length (suc (length log - buf_sz)) log (c ∷ []) (omega (arith, g.counted)))
        ∙ ap (λ (k : ℕ). drop k (log ++ (c ∷ []))) {x = suc (length log - buf_sz)}
            {y = length (log ++ (c ∷ [])) - buf_sz} (omega (arith, longer, g.counted));
  }
  | inr young ↦ record {
    area = put_area;
    counted = put_head;
    small = omega (arith, longer);
    kept =
        ap₂ (λ (t n : ℕ). window (vt_put v c).buf buf_sz t n) {x = (vt_put v c).head - buf_sz}
          {y = 0} {u = (vt_put v c).head - ((vt_put v c).head - buf_sz)} {v = v.head + 1}
          (omega (arith, put_head, longer, g.counted)) (omega (arith, put_head, longer, g.counted))
        ∙ put_young v log c g young
        ∙ ap (λ (k : ℕ). drop k (log ++ (c ∷ []))) {x = 0} {y = length (log ++ (c ∷ [])) - buf_sz}
            (omega (arith, longer, g.counted));
  }
]
  where
    longer : length (log ++ (c ∷ [])) ≡ length log + 1
    longer = length-append log (c ∷ [])

    put_area : length (vt_put v c).buf ≡ buf_sz
    put_area = area-vt_put v c g.area

    put_head : (vt_put v c).head ≡ length (log ++ (c ∷ []))
    put_head = omega (arith, head-vt_put v c, longer, g.counted)

pub put_all-Logged :
    (s : List ℕ) (v : Vt) (log : List ℕ)
    → Logged v log
    → length log + length s < 2 ^ 32
    → Logged (put_all v s) (log ++ s)
unfolding put_all
put_all-Logged [] v log g fits = rw append-nil g
put_all-Logged (c ∷ cs) v log g fits =
    subst (Logged (put_all (vt_put v c) cs)) (append_assoc log (c ∷ []) cs) (
      put_all-Logged cs (vt_put v c) (log ++ (c ∷ [])) (vt_put-Logged v log c g (omega arith))
        (omega (arith, length-append log (c ∷ []))))

replay-window : (buf : List ℕ) (i n : ℕ) → replay buf i n ≡ window buf buf_sz i n
unfolding replay
replay-window buf i zero = sym (window_none buf buf_sz i)
replay-window buf i (suc n) =
    ap₂ ◌∷◌ (ap (λ (k : ℕ). get_or buf k 0) (slot_lem i)) (replay-window buf (i + 1) n)
    ∙ rest
    ∙ sym (window_of_pos buf buf_sz i (suc n) (omega arith))
  where
    rest :
        get_or buf (i % buf_sz) 0 ∷ window buf buf_sz (i + 1) n
        ≡ get_or buf (i % buf_sz) 0 ∷ window buf buf_sz (i + 1) (suc n - 1)
    rest = ap (λ (k : ℕ). get_or buf (i % buf_sz) 0 ∷ window buf buf_sz (i + 1) k) (omega arith)

-- What a switch shows of a terminal that was written `log`: the last 16384 bytes of it.
pub replay_vt_lem :
    (v : Vt) (log : List ℕ) → Logged v log → replay_vt v ≡ drop (length log - buf_sz) log
unfolding replay_vt
replay_vt_lem v log g =
    ap (λ (k : ℕ). replay v.buf k (v.head - k)) {y = v.head - buf_sz} (ground arith)
    ∙ replay-window v.buf (v.head - buf_sz) (v.head - (v.head - buf_sz))
    ∙ g.kept

get_or-set : (vs : List Vt) (i : ℕ) (v : Vt) → i < length vs → get_or (set vs i v) i no_vt ≡ v
get_or-set [] i v h = absurd (omega arith)
get_or-set (x ∷ xs) zero v h = refl
get_or-set (x ∷ xs) (suc i) v h = get_or-set xs i v (omega arith)

-- The terminal of an index.
abbrev pub vt_at : Tty → ℕ → Vt
vt_at t i = get_or t.vts i no_vt

-- Writing a text to the active terminal adds it to that terminal's log, and shows it.
pub tty_write-Logged :
    (t : Tty) (log s : List ℕ)
    → t.active_vt < length t.vts
    → Logged (vt_at t t.active_vt) log
    → length log + length s < 2 ^ 32
    → let t' = tty_write t s in
      Logged (vt_at t' t'.active_vt) (log ++ s) × (t'.shown ≡ t.shown ++ s)
unfolding tty_write
tty_write-Logged t log s h g fits = (
  rw (get_or-set t.vts t.active_vt (put_all (vt_at t t.active_vt) s) h)
      (put_all-Logged s (vt_at t t.active_vt) log g fits),
  refl,
)

header_short : (idx : ℕ) → 0 + length (vt_header idx) < 2 ^ 32
unfolding vt_header
header_short idx = ground arith

switch_lem :
    (t : Tty) (idx : ℕ)
    → idx < num_vt
    → idx ≢ t.active_vt
    → tty_switch_vt t (pos (suc idx)) ≡ show_vt t idx
unfolding tty_switch_vt
switch_lem t idx h ne = ground arith

show_vt_lem :
    (t : Tty) (idx : ℕ)
    → (vt_at t idx).head ≢ 0
    → show_vt t idx ≡ record t { active_vt = idx; shown = replay_vt (vt_at t idx) }
unfolding show_vt
show_vt_lem t idx ne = ground arith

-- Switching to another terminal, numbered from 1, that was written `log`, which is not empty, makes
-- it the active one, shows exactly the last 16384 bytes of its log, and changes no terminal's text.
pub tty_switch_vt-shows :
    (t : Tty) (idx : ℕ) (log : List ℕ)
    → idx < num_vt
    → idx ≢ t.active_vt
    → Logged (vt_at t idx) log
    → 0 < length log
    → let t' = tty_switch_vt t (pos (suc idx)) in
      (t'.active_vt ≡ idx) × (t'.shown ≡ drop (length log - buf_sz) log) × (t'.vts ≡ t.vts)
tty_switch_vt-shows t idx log h ne g some_text =
    rw (switch_lem t idx h ne, show_vt_lem t idx (λ e. omega (arith, e, g.counted)))
      (refl, replay_vt_lem (vt_at t idx) log g, refl)

-- Switching to another terminal that was written nothing shows its header, and logs the header.
pub tty_switch_vt_empty :
    (t : Tty) (idx : ℕ)
    → idx < length t.vts
    → idx < num_vt
    → idx ≢ t.active_vt
    → Logged (vt_at t idx) []
    → let t' = tty_switch_vt t (pos (suc idx)) in
      (t'.active_vt ≡ idx) × (t'.shown ≡ vt_header idx) × Logged (vt_at t' idx) (vt_header idx)
unfolding show_vt
tty_switch_vt_empty t idx len h ne g =
    rw (switch_lem t idx h ne, blank)
      (
        refl,
        refl,
        rw (get_or-set t.vts idx (put_all (vt_at t idx) (vt_header idx)) len)
            (put_all-Logged (vt_header idx) (vt_at t idx) [] g (header_short idx)),
      )
  where
    blank : show_vt t idx ≡ record t {
      active_vt = idx;
      vts = set t.vts idx (put_all (vt_at t idx) (vt_header idx));
      shown = vt_header idx;
    }
    blank = ground (arith, g.counted)
