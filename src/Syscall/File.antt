-- ===== src/Syscall/File.antt =====
-- Reading, writing and seeking in an open file.
use hana_core.Prelude.{
  ℕ, zero, suc, List, [], ◌∷◌, ◌++◌, ◌+◌, ◌-◌, ◌^◌, ◌≡◌, ◌≤◌, ◌<◌, refl, ap, ◌∙◌, sym, arith, some,
  set, take, drop, length, replicate, length-append, length-take, length-drop, length-replicate,
  Bool, true, inl, inr, le_or_lt,
}
use hana_core.Prelude.Int.{ℤ}
use hana_core.Prelude.Word.{add64}
use hana_core.Fd.{FdEntry, FdType, fdtable_get}
use hana_core.Syscall.{
  write_entry, Sys, int_of, write_at, grown, at_fd, write_file_entry, sys_write,
}
use mathlib.Core.Path.{ap₂}

write_at-cons :
    (x : ℕ) (xs : List ℕ) (p : ℕ) (cs : List ℕ)
    → write_at (x ∷ xs) (suc p) cs ≡ x ∷ write_at xs p cs
unfolding write_at
write_at-cons x xs p [] = refl
write_at-cons x xs p (c ∷ cs) = rw (suc-add-one) (write_at-cons x (set xs p c) (p + 1) cs)
  where
    suc-add-one : suc p + 1 ≡ suc (p + 1)
    suc-add-one = omega arith

write_at_front :
    (xs cs : List ℕ) → length cs ≤ length xs → write_at xs 0 cs ≡ cs ++ drop (length cs) xs
unfolding write_at
write_at_front xs [] h = refl
write_at_front [] (c ∷ cs) h = absurd (omega arith)
write_at_front (x ∷ xs) (c ∷ cs) h =
    write_at-cons c xs 0 cs ∙ ap (λ (l : List ℕ). c ∷ l) (write_at_front xs cs (omega arith))

-- Bytes written at `p`, where the buffer has them, replace exactly those that were there.
pub write_at_lem :
    (buf : List ℕ) (p : ℕ) (cs : List ℕ)
    → p + length cs ≤ length buf
    → write_at buf p cs ≡ take p buf ++ (cs ++ drop (p + length cs) buf)
write_at_lem buf zero cs h =
    write_at_front buf cs (omega arith) ∙ ap (λ (k : ℕ). cs ++ drop k buf) (omega arith)
write_at_lem [] (suc p) cs h = absurd (omega arith)
write_at_lem (x ∷ xs) (suc p) cs h =
    write_at-cons x xs p cs
    ∙ ap (λ (l : List ℕ). x ∷ l) (write_at_lem xs p cs (omega arith))
    ∙ ap (λ (k : ℕ). x ∷ (take p xs ++ (cs ++ drop k (x ∷ xs)))) {x = suc (p + length cs)}
        {y = suc p + length cs} (omega arith)

-- An open file's buffer has the length that the entry says, and the position is inside it.
pub record IsOpen (e : FdEntry) : Type 0 where
  pub sized : length e.buf ≡ e.len
  pub inside : e.pos ≤ e.len
  pub small : e.len < 2 ^ 64

-- The buffer that a write at the position leaves.
abbrev pub written : FdEntry → List ℕ → List ℕ
written e src = take e.pos e.buf ++ (src ++ drop (e.pos + length src) e.buf)

take-all : (n : ℕ) (xs : List ℕ) → length xs ≤ n → take n xs ≡ xs
take-all n [] h = take-nil n
  where
    take-nil : (n : ℕ) → take {A = ℕ} n [] ≡ []
    take-nil zero = refl
    take-nil (suc n) = refl
take-all zero (x ∷ xs) h = absurd (omega arith)
take-all (suc n) (x ∷ xs) h = ap (λ (l : List ℕ). x ∷ l) (take-all n xs (omega arith))

drop-all : (n : ℕ) (xs : List ℕ) → length xs ≤ n → drop n xs ≡ []
drop-all n [] h = drop-nil n
  where
    drop-nil : (n : ℕ) → drop {A = ℕ} n [] ≡ []
    drop-nil zero = refl
    drop-nil (suc n) = refl
drop-all zero (x ∷ xs) h = absurd (omega arith)
drop-all (suc n) (x ∷ xs) h = drop-all n xs (omega arith)

take-append : (n : ℕ) (xs ys : List ℕ) → n ≤ length xs → take n (xs ++ ys) ≡ take n xs
take-append zero xs ys h = refl
take-append (suc n) [] ys h = absurd (omega arith)
take-append (suc n) (x ∷ xs) ys h = ap (λ (l : List ℕ). x ∷ l) (take-append n xs ys (omega arith))

-- What a write leaves of the entry `e`: the new one has the bytes in place, is open, and stands
-- behind them.
pub record Overwrote (e : FdEntry) (src : List ℕ) (e' : FdEntry) : Type 0 where
  pub bytes : e'.buf ≡ written e src
  pub moved : e'.pos ≡ e.pos + length src
  pub still_open : IsOpen e'
  pub kind : e'.type ≡ e.type

-- The entry after its bytes were written in place.
abbrev put_bytes : FdEntry → List ℕ → FdEntry
put_bytes e src = record e {
  buf = write_at e.buf e.pos (take (length src) src);
  pos = add64 e.pos (length src);
}

abbrev longer : FdEntry → ℕ → FdEntry
longer e needed = record e { buf = grown e.buf e.len needed; has_buf = true; len = needed }

pub length-written :
    (e : FdEntry) (src : List ℕ)
    → e.pos + length src ≤ length e.buf
    → length (written e src) ≡ length e.buf
length-written e src h = omega (
  arith,
  length-append (take e.pos e.buf) (src ++ drop (e.pos + length src) e.buf),
  length-append src (drop (e.pos + length src) e.buf),
  length-take e.pos e.buf,
  length-drop (e.pos + length src) e.buf,
)

put_bytes-Overwrote :
    (e : FdEntry) (src : List ℕ)
    → IsOpen e
    → e.pos + length src ≤ e.len
    → Overwrote e src (put_bytes e src)
put_bytes-Overwrote e src o h = record {
  bytes = in_place;
  moved = omega (arith, o.small);
  still_open = record {
    sized = ap length in_place ∙ length-written e src (omega (arith, o.sized)) ∙ o.sized;
    inside = omega (arith, o.small);
    small = o.small;
  };
  kind = refl;
}
  where
    in_place : write_at e.buf e.pos (take (length src) src) ≡ written e src
    in_place =
        ap (λ (l : List ℕ). write_at e.buf e.pos l) (take-all (length src) src (omega arith))
        ∙ write_at_lem e.buf e.pos src (omega (arith, o.sized))

grown_lem :
    (buf : List ℕ) (len needed : ℕ)
    → length buf ≡ len
    → grown buf len needed ≡ buf ++ replicate (needed - len) 0
unfolding grown
grown_lem buf len needed h =
    ap (λ (l : List ℕ). l ++ replicate (needed - len) 0) (take-all len buf (omega arith))

longer-IsOpen : (e : FdEntry) (n : ℕ) → IsOpen e → e.len ≤ n → n < 2 ^ 64 → IsOpen (longer e n)
longer-IsOpen e n o h fits = record {
  sized = ap length (grown_lem e.buf e.len n o.sized) ∙ total;
  inside = omega (arith, o.inside);
  small = fits;
}
  where
    total : length (e.buf ++ replicate (n - e.len) 0) ≡ n
    total = omega (
      arith,
      length-append e.buf (replicate (n - e.len) 0),
      length-replicate {A = ℕ} (n - e.len) 0,
      o.sized,
    )

-- The zeros that the buffer grew by are all overwritten.
longer-written :
    (e : FdEntry) (src : List ℕ)
    → IsOpen e
    → e.len < e.pos + length src
    → written (longer e (e.pos + length src)) src ≡ written e src
longer-written e src o h = ap₂ (λ (x y : List ℕ). x ++ (src ++ y)) before behind
  where
    zeros : List ℕ
    zeros = replicate (e.pos + length src - e.len) 0

    shape : grown e.buf e.len (e.pos + length src) ≡ e.buf ++ zeros
    shape = grown_lem e.buf e.len (e.pos + length src) o.sized

    before : take e.pos (grown e.buf e.len (e.pos + length src)) ≡ take e.pos e.buf
    before =
        ap (take e.pos) shape ∙ take-append e.pos e.buf zeros (omega (arith, o.sized, o.inside))

    behind :
        drop (e.pos + length src) (grown e.buf e.len (e.pos + length src))
        ≡ drop (e.pos + length src) e.buf
    behind =
        ap (drop (e.pos + length src)) shape
        ∙ drop-all (e.pos + length src) (e.buf ++ zeros) (
            omega (
              arith,
              length-append e.buf zeros,
              length-replicate {A = ℕ} (e.pos + length src - e.len) 0,
              o.sized,
            ))
        ∙ sym (drop-all (e.pos + length src) e.buf (omega (arith, o.sized)))

Overwrote-longer :
    (e : FdEntry) (src : List ℕ)
    → IsOpen e
    → e.len < e.pos + length src
    → e.pos + length src < 2 ^ 64
    → Overwrote e src (put_bytes (longer e (e.pos + length src)) src)
Overwrote-longer e src o h fits =
    let w =
      put_bytes-Overwrote (longer e (e.pos + length src)) src
        (longer-IsOpen e (e.pos + length src) o (omega arith) fits) (omega arith) in
    record {
      bytes = w.bytes ∙ longer-written e src o h;
      moved = w.moved;
      still_open = w.still_open;
      kind = refl;
    }

module _ {F : Type 0} where
  sys_write_lem :
      (alloc : ℕ → Bool) (s : Sys F) (a : ℕ) (e : FdEntry) (src : List ℕ) (count : ℕ)
      → fdtable_get s.table (int_of a) ≡ some e
      → e.type ≡ FdType.fd_file
      → sys_write alloc s a src count ≡ write_file_entry alloc s (int_of a) e src count
  unfolding sys_write
  sys_write_lem alloc s a e src count found file =
      rw (found, sys_write) (ap (λ (t : FdType). write_entry alloc s (int_of a) e t src count) file)

  in_place_lem :
      (alloc : ℕ → Bool) (s : Sys F) (fd : ℤ) (e : FdEntry) (src : List ℕ)
      → IsOpen e
      → e.pos + length src ≤ e.len
      → write_file_entry alloc s fd e src (length src) ≡ (length src, at_fd s fd (put_bytes e src))
  unfolding write_file_entry
  in_place_lem alloc s fd e src o h = ground arith

  longer_lem :
      (alloc : ℕ → Bool) (s : Sys F) (fd : ℤ) (e : FdEntry) (src : List ℕ)
      → IsOpen e
      → e.len < e.pos + length src
      → e.pos + length src < 2 ^ 64
      → alloc (e.pos + length src) ≡ true
      → write_file_entry alloc s fd e src (length src)
        ≡ (length src, at_fd s fd (put_bytes (longer e (e.pos + length src)) src))
  unfolding write_file_entry
  longer_lem alloc s fd e src o h fits memory = ground (arith, memory)

  -- SYS_WRITE of `src` to an open file, where the end does not wrap and memory for a longer buffer is there,
  -- returns the count and replaces the bytes from the position on, extending the file as needed.
  pub sys_write-Overwrote :
      (alloc : ℕ → Bool) (s : Sys F) (a : ℕ) (e : FdEntry) (src : List ℕ)
      → fdtable_get s.table (int_of a) ≡ some e
      → e.type ≡ FdType.fd_file
      → IsOpen e
      → e.pos + length src < 2 ^ 64
      → alloc (e.pos + length src) ≡ true
      → (e' : FdEntry) × (sys_write alloc s a src (length src)
          ≡ (length src, at_fd s (int_of a) e'))
        × Overwrote e src e'
  sys_write-Overwrote alloc s a e src found file o fits memory =
      elim (le_or_lt (e.pos + length src) e.len) [
        | inl h ↦ (
          put_bytes e src,
          sys_write_lem alloc s a e src (length src) found file
              ∙ in_place_lem alloc s (int_of a) e src o h,
          put_bytes-Overwrote e src o h,
        )
        | inr h ↦ (
          put_bytes (longer e (e.pos + length src)) src,
          sys_write_lem alloc s a e src (length src) found file
              ∙ longer_lem alloc s (int_of a) e src o h fits memory,
          Overwrote-longer e src o h fits,
        )
      ]
