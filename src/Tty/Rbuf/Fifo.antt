-- ===== src/Tty/Rbuf/Fifo.antt =====
-- A ring buffer of 1024 bytes is a bounded queue of the bytes that it holds.
use mathlib.Core.List.{append_assoc, append-nil}
use mathlib.Core.Path.{ap₂}
use hana_core.Prelude.{
  ℕ, zero, suc, List, [], ◌∷◌, ◌++◌, ◌+◌, ◌-◌, ◌%◌, ◌^◌, ◌≡◌, ◌≤◌, ◌<◌, refl, ap, ◌∙◌, sym, get_or,
  arith, length, take, drop, set, length-set, ltb, inl, inr, Bool-cases, min,
}
use hana_core.Prelude.Word.{add64, sub64, bit_and_mask}
use hana_core.Prelude.Window.{window, window-set, window_of_pos, window_none, length-window}
use hana_core.Tty.Rbuf.{Rbuf, slot, put, write_from, rbuf_write, rbuf_read}

abbrev pub bufsz : ℕ
bufsz = 1024

pub record IsValid (r : Rbuf) : Type 0 where
  pub area : length r.buf ≡ bufsz
  pub cap_is : r.cap ≡ bufsz
  pub order : r.tail ≤ r.head
  pub full : r.head ≤ r.tail + bufsz
  pub counted : r.head < 2 ^ 64

-- The bytes that are written and not yet read, oldest first.
abbrev pub contents : Rbuf → List ℕ
contents r = window r.buf bufsz r.tail (r.head - r.tail)

pub length-contents : (r : Rbuf) → length (contents r) ≡ r.head - r.tail
length-contents r = length-window r.buf bufsz r.tail (r.head - r.tail)

slot_lem : (r : Rbuf) (i : ℕ) → r.cap ≡ bufsz → slot r i ≡ i % bufsz
slot_lem r i e = rw e (bit_and_mask 10 i)

put-IsValid :
    (r : Rbuf) (c : ℕ)
    → IsValid r
    → r.head < r.tail + bufsz
    → r.head + 1 < 2 ^ 64
    → IsValid (put r c)
put-IsValid r c v room fits = omega (arith, length-set r.buf (slot r r.head) c)

contents-put :
    (r : Rbuf) (c : ℕ)
    → IsValid r
    → r.head < r.tail + bufsz
    → r.head + 1 < 2 ^ 64
    → contents (put r c) ≡ contents r ++ (c ∷ [])
contents-put r c v room fits =
    ap₂ (λ (i k : ℕ). window (set r.buf i c) bufsz r.tail k) place count
    ∙ window-set r.buf bufsz r.tail (r.head - r.tail) c v.area (omega arith)
  where
    place : slot r r.head ≡ (r.tail + (r.head - r.tail)) % bufsz
    place = omega (arith, slot_lem r r.head v.cap_is)

    count : (r.head + 1) % 2 ^ 64 - r.tail ≡ r.head - r.tail + 1
    count = omega arith

abbrev pub room : Rbuf → ℕ
room r = bufsz - (r.head - r.tail)

-- What a write has done when it stops, started with `i` bytes written.
pub record Wrote (r : Rbuf) (src : List ℕ) (i : ℕ) (out : ℕ × Rbuf) : Type 0 where
  pub valid : IsValid out.1
  pub count : out.0 ≡ i + min (length src) (room r)
  pub bytes : contents out.1 ≡ contents r ++ take (room r) src

take-zero : (n : ℕ) (xs : List ℕ) → n ≡ 0 → take n xs ≡ []
take-zero zero xs e = refl
take-zero (suc n) xs e = absurd (omega arith)

take-pos : (n : ℕ) (x : ℕ) (xs : List ℕ) → 0 < n → take n (x ∷ xs) ≡ x ∷ take (n - 1) xs
take-pos zero x xs h = absurd (omega arith)
take-pos (suc n) x xs h = ap (λ (k : ℕ). x ∷ take k xs) (omega arith)

take-nil : (n : ℕ) → take {A = ℕ} n [] ≡ []
take-nil zero = refl
take-nil (suc n) = refl

Wrote-put :
    (r : Rbuf) (c : ℕ) (cs : List ℕ) (i : ℕ) {out : ℕ × Rbuf}
    → IsValid r
    → r.head < r.tail + bufsz
    → r.head + 1 < 2 ^ 64
    → Wrote (put r c) cs (i + 1) out
    → Wrote r (c ∷ cs) i out
Wrote-put r c cs i v space fits w = record {
  valid = w.valid;
  count = omega (arith, w.count);
  bytes =
      w.bytes
      ∙ rw (contents-put r c v space fits, append_assoc, take-pos (room r) c cs (omega arith))
          (ap (λ (k : ℕ). contents r ++ (c ∷ take k cs)) (omega arith));
}

pub write_from-Wrote :
    (src : List ℕ) (r : Rbuf) (i : ℕ)
    → IsValid r
    → r.head + length src < 2 ^ 64
    → Wrote r src i (write_from r src i)
unfolding write_from
write_from-Wrote [] r i v fits = record {
  valid = v;
  count = omega arith;
  bytes = rw (take-nil, append-nil);
}
write_from-Wrote (c ∷ cs) r i v fits = elim (Bool-cases (ltb (sub64 r.head r.tail) r.cap)) [
  | inr e ↦
      rw (e, write_from)
        (record {
          valid = v;
          count = ground arith;
          bytes = rw (take-zero (room r) (c ∷ cs) (ground arith), append-nil);
        })
  | inl e ↦
      rw (e, write_from)
        (Wrote-put r c cs i v (ground arith) (omega arith) (
          write_from-Wrote cs (put r c) (i + 1) (put-IsValid r c v (ground arith) (omega arith))
            (omega arith)))
]

-- `rbuf_write` takes as many bytes as there is room for, returns their number, puts exactly those
-- behind what the buffer holds, and keeps it well formed.
pub rbuf_write-Wrote :
    (r : Rbuf) (src : List ℕ)
    → IsValid r
    → r.head + length src < 2 ^ 64
    → Wrote r src 0 (rbuf_write r src)
unfolding rbuf_write
rbuf_write-Wrote r src v fits = write_from-Wrote src r 0 v fits

-- What a read of at most `n` bytes has done.
pub record DidRead (r : Rbuf) (n : ℕ) (out : List ℕ × Rbuf) : Type 0 where
  pub valid : IsValid out.1
  pub bytes : out.0 ≡ take n (contents r)
  pub rest : contents out.1 ≡ drop n (contents r)

drop-nil : (n : ℕ) → drop {A = ℕ} n [] ≡ []
drop-nil zero = refl
drop-nil (suc n) = refl

abbrev advance : Rbuf → Rbuf
advance r = record r { tail = add64 r.tail 1 }

advance-IsValid : (r : Rbuf) → IsValid r → r.tail < r.head → IsValid (advance r)
advance-IsValid r v h = omega arith

-- The oldest byte, and what follows it.
contents-advance :
    (r : Rbuf)
    → IsValid r
    → r.tail < r.head
    → contents r ≡ get_or r.buf (slot r r.tail) 0 ∷ contents (advance r)
contents-advance r v h =
    window_of_pos r.buf bufsz r.tail (r.head - r.tail) (omega arith)
    ∙ ap₂ ◌∷◌ (ap (λ (i : ℕ). get_or r.buf i 0) (sym (slot_lem r r.tail v.cap_is)))
        (ap₂ (λ (t k : ℕ). window r.buf bufsz t k) (omega arith) (omega arith))

contents_empty : (r : Rbuf) → r.head ≤ r.tail → contents r ≡ []
contents_empty r h =
    ap (λ (k : ℕ). window r.buf bufsz r.tail k) (omega arith) ∙ window_none r.buf bufsz r.tail

-- `rbuf_read` returns the oldest bytes in order, as many as were asked for and are there, leaves
-- exactly the others, and keeps the buffer well formed.
pub rbuf_read-DidRead : (n : ℕ) (r : Rbuf) → IsValid r → DidRead r n (rbuf_read r n)
unfolding rbuf_read
rbuf_read-DidRead zero r v = record { valid = v; bytes = refl; rest = refl }
rbuf_read-DidRead (suc n) r v = elim (Bool-cases (ltb r.tail r.head)) [
  | inr e ↦
      let none_left : contents r ≡ [] = contents_empty r (ground arith) in
      rw (e, rbuf_read)
        (record { valid = v; bytes = rw none_left; rest = none_left ∙ rw none_left })
  | inl e ↦
      let ih = rbuf_read-DidRead n (advance r) (advance-IsValid r v (ground arith)) in
      let first = contents-advance r v (ground arith) in
      rw (e, rbuf_read)
        (record {
          valid = ih.valid;
          bytes = ap (λ (l : List ℕ). get_or r.buf (slot r r.tail) 0 ∷ l) ih.bytes ∙ rw first;
          rest = ih.rest ∙ rw first;
        })
]
