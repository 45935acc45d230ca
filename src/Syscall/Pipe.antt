-- ===== src/Syscall/Pipe.antt =====
-- A pipe of 4096 slots is a queue of at most 4095 bytes; and what SYS_PIPE gives its caller.
use hana_core.Prelude.{
  ℕ, zero, suc, List, [], ◌∷◌, ◌++◌, ◌+◌, ◌-◌, ◌%◌, ◌≡◌, ◌≢◌, ◌<◌, refl, ap, ◌∙◌, sym, arith, set,
  get_or, take, drop, length, length-set, min, ◌==◌, inl, inr, Bool-cases,
}
use hana_core.Prelude.Window.{
  window, window-set, take-window, drop-window, window-mod, window_of_pos, window_none,
}
use hana_core.Syscall.{PipeObj, pipe_put, pipe_write, pipe_bytes, pipe_read}
use mathlib.Core.List.{append_assoc, append-nil}
use mathlib.Core.Path.{ap₂}

abbrev pub slots : ℕ
slots = 4096

pub record IsPipe (p : PipeObj) : Type 0 where
  pub area : length p.buf ≡ slots
  pub cap_is : p.cap ≡ slots
  pub read_in : p.rpos < slots
  pub write_in : p.wpos < slots

-- The number of bytes that wait.
abbrev pub waiting : PipeObj → ℕ
waiting p = (p.wpos + slots - p.rpos) % slots

abbrev pub contents : PipeObj → List ℕ
contents p = window p.buf slots p.rpos (waiting p)

pipe_put-IsPipe : (p : PipeObj) (c : ℕ) → IsPipe p → IsPipe (pipe_put p c)
unfolding pipe_put
pipe_put-IsPipe p c v = record {
  area = length-set p.buf p.wpos c ∙ v.area;
  cap_is = v.cap_is;
  read_in = v.read_in;
  write_in = rw (v.cap_is) (omega arith);
}

waiting-pipe_put :
    (p : PipeObj) (c : ℕ)
    → IsPipe p
    → (p.wpos + 1) % slots ≢ p.rpos
    → waiting (pipe_put p c) ≡ waiting p + 1
unfolding pipe_put
waiting-pipe_put p c v free =
    ap (λ (k : ℕ). ((p.wpos + 1) % k + slots - p.rpos) % slots) v.cap_is
    ∙ omega (arith, v.read_in, v.write_in)

contents-pipe_put :
    (p : PipeObj) (c : ℕ)
    → IsPipe p
    → (p.wpos + 1) % slots ≢ p.rpos
    → contents (pipe_put p c) ≡ contents p ++ (c ∷ [])
unfolding pipe_put
contents-pipe_put p c v free =
    ap (λ (n : ℕ). window (set p.buf p.wpos c) slots p.rpos n) (waiting-pipe_put p c v free)
    ∙ ap (λ (i : ℕ). window (set p.buf i c) slots p.rpos (waiting p + 1))
        {y = (p.rpos + waiting p) % slots} (omega (arith, v.read_in, v.write_in))
    ∙ window-set p.buf slots p.rpos (waiting p) c v.area (omega arith)

-- How many bytes fit: one slot stays empty.
abbrev pub room : PipeObj → ℕ
room p = slots - 1 - waiting p

full_lem : (p : PipeObj) → IsPipe p → (p.wpos + 1) % slots ≡ p.rpos → room p ≡ 0
full_lem p v e = omega (arith, v.read_in, v.write_in)

free_lem : (p : PipeObj) → IsPipe p → (p.wpos + 1) % slots ≢ p.rpos → 0 < room p
free_lem p v e = omega (arith, v.read_in, v.write_in)

take-zero : (n : ℕ) (xs : List ℕ) → n ≡ 0 → take n xs ≡ []
take-zero zero xs e = refl
take-zero (suc n) xs e = absurd (omega arith)

take-pos : (n : ℕ) (x : ℕ) (xs : List ℕ) → 0 < n → take n (x ∷ xs) ≡ x ∷ take (n - 1) xs
take-pos zero x xs h = absurd (omega arith)
take-pos (suc n) x xs h = ap (λ (k : ℕ). x ∷ take k xs) (omega arith)

take-nil : (n : ℕ) → take {A = ℕ} n [] ≡ []
take-nil zero = refl
take-nil (suc n) = refl

-- What a write of `src` to a pipe has done, started with `i` bytes written.
pub record Wrote (p : PipeObj) (src : List ℕ) (i : ℕ) (out : ℕ × PipeObj) : Type 0 where
  pub valid : IsPipe out.1
  pub count : out.0 ≡ i + min (length src) (room p)
  pub bytes : contents out.1 ≡ contents p ++ take (room p) src

Wrote-pipe_put :
    (p : PipeObj) (c : ℕ) (cs : List ℕ) (i : ℕ) {out : ℕ × PipeObj}
    → IsPipe p
    → (p.wpos + 1) % slots ≢ p.rpos
    → Wrote (pipe_put p c) cs (i + 1) out
    → Wrote p (c ∷ cs) i out
Wrote-pipe_put p c cs i v free w = record {
  valid = w.valid;
  count = omega (arith, w.count, waiting-pipe_put p c v free, free_lem p v free);
  bytes =
      w.bytes
      ∙ rw (contents-pipe_put p c v free, append_assoc, take-pos (room p) c cs (free_lem p v free))
          (ap (λ (k : ℕ). contents p ++ (c ∷ take k cs))
            (omega (arith, waiting-pipe_put p c v free, free_lem p v free)));
}

-- A write to a pipe takes as many bytes as there is room for, returns their number, puts exactly
-- those behind what waits, and keeps the pipe well formed.
pub pipe_write-Wrote :
    (src : List ℕ) (p : PipeObj) (i : ℕ) → IsPipe p → Wrote p src i (pipe_write p src i)
unfolding pipe_write
pipe_write-Wrote [] p i v = record {
  valid = v;
  count = omega arith;
  bytes = rw (take-nil, append-nil);
}
pipe_write-Wrote (c ∷ cs) p i v = elim (Bool-cases ((p.wpos + 1) % p.cap == p.rpos)) [
  | inl e ↦
      let none_left = full_lem p v (ground (arith, v.cap_is)) in
      rw (e, pipe_write)
        (record {
          valid = v;
          count = omega (arith, none_left);
          bytes = rw (take-zero (room p) (c ∷ cs) none_left, append-nil);
        })
  | inr e ↦
      let free : (p.wpos + 1) % slots ≢ p.rpos = ground (arith, v.cap_is) in
      rw (e, pipe_write)
        (Wrote-pipe_put p c cs i v free
          (pipe_write-Wrote cs (pipe_put p c) (i + 1) (pipe_put-IsPipe p c v)))
]

pipe_bytes-window : (p : PipeObj) (i n : ℕ) → pipe_bytes p i n ≡ window p.buf p.cap (p.rpos + i) n
unfolding pipe_bytes
pipe_bytes-window p i zero = sym (window_none p.buf p.cap (p.rpos + i))
pipe_bytes-window p i (suc n) =
    ap (λ (l : List ℕ). get_or p.buf ((p.rpos + i) % p.cap) 0 ∷ l)
      (pipe_bytes-window p (i + 1) n
        ∙ ap₂ (λ (t m : ℕ). window p.buf p.cap t m) (omega arith) (omega arith))
    ∙ sym (window_of_pos p.buf p.cap (p.rpos + i) (suc n) (omega arith))

-- What a read of at most `n` bytes from a pipe has done.
pub record DidRead (p : PipeObj) (n : ℕ) (out : List ℕ × PipeObj) : Type 0 where
  pub valid : IsPipe out.1
  pub bytes : out.0 ≡ take (min n (waiting p)) (contents p)
  pub rest : contents out.1 ≡ drop (min n (waiting p)) (contents p)

-- A read from a pipe returns the oldest bytes in order, as many as were asked for and wait, leaves
-- exactly the others, and keeps the pipe well formed.
pub pipe_read-DidRead : (p : PipeObj) (n : ℕ) → IsPipe p → DidRead p n (pipe_read p n)
unfolding pipe_read
pipe_read-DidRead p n v = record {
  valid = record {
    area = v.area;
    cap_is = v.cap_is;
    read_in = rw v.cap_is (omega arith);
    write_in = v.write_in;
  };
  bytes =
      ap (pipe_bytes p 0) asked
      ∙ pipe_bytes-window p 0 k
      ∙ ap₂ (λ (m t : ℕ). window p.buf m t k) {v = p.rpos} v.cap_is (omega arith)
      ∙ sym (take-window p.buf slots p.rpos k (waiting p) (omega arith));
  rest =
      ap₂ (λ (m j : ℕ). contents (record p { rpos = (p.rpos + j) % m })) v.cap_is asked
      ∙ ap (λ (j : ℕ). window p.buf slots ((p.rpos + k) % slots) j) {y = waiting p - k}
          (omega (arith, v.read_in, v.write_in))
      ∙ window-mod p.buf slots ((p.rpos + k) % slots) (p.rpos + k) (waiting p - k) (omega arith)
      ∙ sym (drop-window p.buf slots p.rpos k (waiting p) (omega arith));
}
  where
    k : ℕ
    k = min n (waiting p)

    asked : min ((p.wpos + p.cap - p.rpos) % p.cap) n ≡ k
    asked = ap (λ (m : ℕ). min ((p.wpos + m - p.rpos) % m) n) v.cap_is ∙ omega arith
