-- ===== src/Syscall/RoundTrip.antt =====
-- What is written to a file is read back from it.
use hana_core.Prelude.{
  ℕ, zero, suc, List, [], ◌∷◌, ◌++◌, ◌+◌, ◌-◌, ◌^◌, ◌≡◌, ◌≤◌, ◌<◌, refl, ap, ◌∙◌, arith, some,
  get_elem?, set, take, drop, length, length-take, Bool, true, ltb, if◌then◌else◌,
}
use hana_core.Prelude.Int.{ℤ, pos, negsuc}
use hana_core.Fd.{FdEntry, FdType, fdtable_get}
use hana_core.Syscall.{
  minus_one, Sys, int_of, int64_of, at_fd, sys_write, read_entry, read_file_entry, sys_read,
}
use hana_core.Syscall.Descriptors.{seek_target, seek_to, sys_lseek, is_file}
use hana_core.Syscall.File.{IsOpen, written, sys_write-Overwrote}

pub set_stored :
    (t : List FdEntry) (i : ℕ) (e e' : FdEntry)
    → get_elem? t i ≡ some e
    → get_elem? (set t i e') i ≡ some e'
set_stored [] i e e' h = cc
set_stored (x ∷ xs) zero e e' h = refl
set_stored (x ∷ xs) (suc i) e e' h = set_stored xs i e e' h

drop-append : (n : ℕ) (xs ys : List ℕ) → length xs ≡ n → drop n (xs ++ ys) ≡ ys
drop-append zero [] ys h = refl
drop-append zero (x ∷ xs) ys h = absurd (omega arith)
drop-append (suc n) [] ys h = absurd (omega arith)
drop-append (suc n) (x ∷ xs) ys h = drop-append n xs ys (omega arith)

take_whole : (n : ℕ) (xs ys : List ℕ) → length xs ≡ n → take n (xs ++ ys) ≡ xs
take_whole zero [] ys h = refl
take_whole zero (x ∷ xs) ys h = absurd (omega arith)
take_whole (suc n) [] ys h = absurd (omega arith)
take_whole (suc n) (x ∷ xs) ys h = ap (λ (l : List ℕ). x ∷ l) (take_whole n xs ys (omega arith))

-- The bytes at the old position are those of `src`.
read_back :
    (e : FdEntry) (src : List ℕ)
    → IsOpen e
    → (buf : List ℕ) → buf ≡ written e src
    → take (length src) (drop e.pos buf) ≡ src
read_back e src o buf h =
    ap (λ (l : List ℕ). take (length src) (drop e.pos l)) h
    ∙ ap (take (length src)) (
        drop-append e.pos (take e.pos e.buf) (src ++ drop (e.pos + length src) e.buf)
          (omega (arith, length-take e.pos e.buf, o.sized, o.inside)))
    ∙ take_whole (length src) src (drop (e.pos + length src) e.buf) refl

seek_set : (e : FdEntry) (b : ℕ) → b < 2 ^ 63 → seek_target e (int64_of b) (int_of 0) ≡ pos b
unfolding seek_target int64_of int_of
seek_set e b h = ground arith

module _ {F : Type 0} where
  pub get-at_fd :
      (s : Sys F) (fd : ℤ) (e e' : FdEntry)
      → fdtable_get s.table fd ≡ some e
      → fdtable_get (at_fd s fd e').table fd ≡ some e'
  unfolding fdtable_get
  get-at_fd s (pos fd) e e' h = set_stored s.table fd e e' h
  get-at_fd s (negsuc n) e e' h = cc

  -- SYS_LSEEK with SEEK_SET to a place inside the file.
  sys_lseek_lem :
      (s : Sys F) (a b : ℕ) (e : FdEntry)
      → fdtable_get s.table (int_of a) ≡ some e
      → e.type ≡ FdType.fd_file
      → b ≤ e.len
      → b < 2 ^ 63
      → sys_lseek s a b 0 ≡ (b, at_fd s (int_of a) (record e { pos = b }))
  unfolding sys_lseek
  sys_lseek_lem s a b e found file inside small =
      rw (found, sys_lseek)
        (ap
            (λ (t : FdType).
              if is_file t
              then seek_to s (int_of a) e (seek_target e (int64_of b) (int_of 0))
              else (minus_one, s))
            file
          ∙ ap (seek_to s (int_of a) e) (seek_set e b small)
          ∙ ap (λ (p : ℕ). (p, at_fd s (int_of a) (record e { pos = p }))) clamp)
    where
      clamp : (if ltb e.len b then e.len else b) ≡ b
      clamp = ground arith

  read_file_lem :
      (s : Sys F) (fd : ℤ) (n : ℕ) (e : FdEntry)
      → e.pos + n ≤ e.len
      → ((read_file_entry s fd e n).0 ≡ n)
        × ((read_file_entry s fd e n).1 ≡ take n (drop e.pos e.buf))
  unfolding read_file_entry
  read_file_lem s fd n e h = (all, ap (λ (k : ℕ). take k (drop e.pos e.buf)) all)
    where
      all :
          (if ltb (if ltb e.pos e.len then e.len - e.pos else 0) n
            then (if ltb e.pos e.len then e.len - e.pos else 0)
            else n)
          ≡ n
      all = ground arith

  sys_read_lem :
      (s : Sys F) (a n : ℕ) (e : FdEntry)
      → fdtable_get s.table (int_of a) ≡ some e
      → e.type ≡ FdType.fd_file
      → sys_read s a n ≡ read_file_entry s (int_of a) e n
  unfolding sys_read
  sys_read_lem s a n e found file =
      rw (found, sys_read) (ap (λ (t : FdType). read_entry s (int_of a) e t n) file)

  -- Writing `src` to an open file, seeking back to where the write began and reading as many bytes
  -- gives `src`. The end of the write does not wrap, its start is below 2^63, and memory for a
  -- longer buffer is there.
  pub sys_write-sys_read :
      (alloc : ℕ → Bool) (s : Sys F) (a : ℕ) (e : FdEntry) (src : List ℕ)
      → fdtable_get s.table (int_of a) ≡ some e
      → e.type ≡ FdType.fd_file
      → IsOpen e
      → e.pos + length src < 2 ^ 64
      → e.pos < 2 ^ 63
      → alloc (e.pos + length src) ≡ true
      → let (n, s1) = sys_write alloc s a src (length src) in
        let (p, s2) = sys_lseek s1 a e.pos 0 in
        let (k, out, s3) = sys_read s2 a (length src) in
        (n ≡ length src) × (p ≡ e.pos) × (k ≡ length src) × (out ≡ src)
  sys_write-sys_read alloc s a e src found file o fits start memory =
      let (e', w, ow) = sys_write-Overwrote alloc s a e src found file o fits memory in
      let s1 = at_fd s (int_of a) e' in
      let found1 = get-at_fd s (int_of a) e e' found in
      let file1 = ow.kind ∙ file in
      let seek =
        sys_lseek_lem s1 a e.pos e' found1 file1 (omega (arith, ow.moved, ow.still_open.inside))
          start in
      let e2 = record e' { pos = e.pos } in
      let s2 = at_fd s1 (int_of a) e2 in
      let read = sys_read_lem s2 a (length src) e2 (get-at_fd s1 (int_of a) e' e2 found1) file1 in
      let got =
        read_file_lem s2 (int_of a) (length src) e2
          (omega (arith, ow.moved, ow.still_open.inside)) in
      rw (w, seek, read) (refl, refl, got.0, got.1 ∙ read_back e src o e'.buf ow.bytes)
