-- ===== src/Hanafs/Image/Codec.antt =====
-- The records of an image give back the entries that they were made from.
use mathlib.Core.List.{append-nil, append_assoc}
use hana_core.Prelude.{
  length-append, ℕ, suc, List, [], ◌∷◌, ◌++◌, ◌+◌, ◌*◌, ◌%◌, ◌^◌, ◌≡◌, ◌<◌, refl, ap, ◌∙◌, arith,
  some, Bool, true, false, ltb, ◌==◌, ◌&&◌, not, length, take, drop, replicate, if◌then◌else◌,
  subst,
}
use hana_core.Hanafs.Image.{
  HanaEntry, entry_size, stored_len, le_bytes, le_value, entry_record, records, copied,
  parse_fields, parse_entry, parse,
}
use mathlib.Core.Path.{ap₂}

pub le2 : (v : ℕ) → v < 2 ^ 16 → le_value (le_bytes 2 v) ≡ v
unfolding le_value le_bytes
le2 v h = omega arith

pub le4 : (v : ℕ) → v < 2 ^ 32 → le_value (le_bytes 4 v) ≡ v
unfolding le_value le_bytes
le4 v h = omega arith

abbrev pub reverse_onto : List HanaEntry → List HanaEntry → List HanaEntry
reverse_onto [] acc = acc
reverse_onto (e ∷ es) acc = reverse_onto es (e ∷ acc)

-- An entry that an image can hold: its lengths fit, and a directory has no bytes.
pub record IsStorable (e : HanaEntry) : Type 0 where
  pub path_fits : length e.path < 2 ^ 16
  pub len_fits : e.len < 2 ^ 32
  pub sized : length e.bytes ≡ e.len
  pub dir_empty : (e.is_dir && ltb 0 e.len) ≡ false

abbrev pub AllStorable : List HanaEntry → Type 0
AllStorable [] = Unit
AllStorable (e ∷ es) = IsStorable e × AllStorable es

pub take-all_append : {A : Type 0} (xs ys : List A) → take (length xs) (xs ++ ys) ≡ xs
take-all_append [] ys = refl
take-all_append (x ∷ xs) ys = ap (λ (l : List _). x ∷ l) (take-all_append xs ys)

pub drop-all_append : {A : Type 0} (xs ys : List A) → drop (length xs) (xs ++ ys) ≡ ys
drop-all_append [] ys = refl
drop-all_append (x ∷ xs) ys = drop-all_append xs ys

pub take-whole : {A : Type 0} (xs : List A) → take (length xs) xs ≡ xs
take-whole [] = refl
take-whole (x ∷ xs) = ap (λ (l : List _). x ∷ l) (take-whole xs)

-- The lengths in a record are those of the path and of the bytes.
pub stored_size : (e : HanaEntry) → IsStorable e → stored_len e % 2 ^ 32 ≡ length e.bytes
stored_size e s = ground (arith, s.len_fits, s.sized, s.dir_empty)

pub path_kept : (e : HanaEntry) → IsStorable e → take (length e.path % 2 ^ 16) e.path ≡ e.path
path_kept e s = ap (λ (k : ℕ). take k e.path) (omega (arith, s.path_fits)) ∙ take-whole e.path

pub bytes_kept : (e : HanaEntry) → IsStorable e → take (stored_len e % 2 ^ 32) e.bytes ≡ e.bytes
bytes_kept e s = ap (λ (k : ℕ). take k e.bytes) (stored_size e s) ∙ take-whole e.bytes

copied-append : (xs more : List ℕ) → copied (length xs) (xs ++ more) ≡ xs
copied-append xs more =
    ap₂ (λ (l : List ℕ) (k : ℕ). l ++ replicate k 0) {v = 0} (take-all_append xs more)
      (omega (arith, length-append xs more))
    ∙ rw append-nil

module _ (alloc : ℕ → Bool) (memory : (n : ℕ) → alloc n ≡ true) where
  enough : (path more : List ℕ) → ltb (length (path ++ more)) (length path) ≡ false
  enough path more = ground (arith, length-append path more)

  dir_lem :
      (path more : List ℕ)
      → parse_fields alloc (length path) true 0 (path ++ more)
        ≡ some (record { path = path; is_dir = true; bytes = []; len = 0 }, more)
  unfolding parse_fields
  dir_lem path more = rw (
    enough path more,
    memory (length path + 1),
    memory entry_size,
    take-all_append path more,
    drop-all_append path more,
  )

  file_lem :
      (path bytes more : List ℕ)
      → parse_fields alloc (length path) false (length bytes) (path ++ (bytes ++ more))
        ≡ some (record { path = path; is_dir = false; bytes = bytes; len = length bytes }, more)
  unfolding parse_fields
  file_lem path [] more = rw (
    enough path more,
    memory (length path + 1),
    memory entry_size,
    take-all_append path more,
    drop-all_append path more,
  )
  file_lem path (x ∷ xs) more = rw (
    enough path (x ∷ xs ++ more),
    memory (length path + 1),
    memory entry_size,
    some_bytes,
    memory (suc (length xs)),
    take-all_append path (x ∷ xs ++ more),
    drop-all_append path (x ∷ xs ++ more),
    copied-append (x ∷ xs) more,
    drop-all_append (x ∷ xs) more,
  )
    where
      some_bytes : suc (length xs) == 0 ≡ false
      some_bytes = ground arith

  fields_go :
      (path : List ℕ) (is_dir : Bool) (bytes : List ℕ) (len : ℕ) (more : List ℕ)
      → length bytes ≡ len
      → (is_dir && ltb 0 len) ≡ false
      → parse_fields alloc
          (length path)
          is_dir
          (if is_dir then 0 else len)
          (path ++ (bytes ++ more))
        ≡ some (record { path = path; is_dir = is_dir; bytes = bytes; len = len }, more)
  fields_go path true [] len more s d =
      subst
        (λ (n : ℕ).
          parse_fields alloc (length path) true 0 (path ++ more)
          ≡ some (record { path = path; is_dir = true; bytes = []; len = n }, more))
        s (dir_lem path more)
  fields_go path true (x ∷ xs) len more s d = absurd (ground arith)
  fields_go path false bytes len more s d =
      subst
        (λ (n : ℕ).
          parse_fields alloc (length path) false n (path ++ (bytes ++ more))
          ≡ some (record { path = path; is_dir = false; bytes = bytes; len = n }, more))
        s (file_lem path bytes more)

  parse_fields_congr :
      {a a' c c' : ℕ} {b b' : Bool} {d d' : List ℕ}
      → a ≡ a'
      → b ≡ b'
      → c ≡ c'
      → d ≡ d'
      → parse_fields alloc a b c d ≡ parse_fields alloc a' b' c' d'
  parse_fields_congr p q r s = rw (p, q, r, s)

  -- The record of an entry gives back the entry and what follows it.
  pub parse_entry-entry_record :
      (e : HanaEntry) (more : List ℕ)
      → IsStorable e
      → parse_entry alloc (entry_record e ++ more) ≡ some (e, more)
  unfolding parse_entry entry_record
  parse_entry-entry_record e more s =
      rw test (parse_fields_congr plen flag dlen tail)
      ∙ fields_go e.path e.is_dir e.bytes e.len more s.sized s.dir_empty
    where
      test : ltb (length (entry_record e ++ more)) 7 ≡ false
      test = ground arith

      plen : le_value (le_bytes 2 (length e.path % 2 ^ 16)) ≡ length e.path
      plen = le2 (length e.path % 2 ^ 16) (omega arith) ∙ omega (arith, s.path_fits)

      dlen : le_value (le_bytes 4 (stored_len e % 2 ^ 32)) ≡ stored_len e
      dlen = le4 (stored_len e % 2 ^ 32) (omega arith) ∙ ground (arith, s.len_fits)

      flag : not ((if e.is_dir then 1 else 0) + 256 * 0 == 0) ≡ e.is_dir
      flag = ground arith

      tail :
          (take (length e.path % 2 ^ 16) e.path ++ take (stored_len e % 2 ^ 32) e.bytes) ++ more
          ≡ e.path ++ (e.bytes ++ more)
      tail =
          ap₂ (λ (p b : List ℕ). (p ++ b) ++ more) (path_kept e s) (bytes_kept e s)
          ∙ append_assoc e.path e.bytes more

  -- The loop reads all records back, each in front of those before it.
  pub parse-records_onto :
      (es : List HanaEntry) (more : List ℕ) (head : List HanaEntry)
      → AllStorable es
      → parse alloc (length es) (records es ++ more) head ≡ reverse_onto es head
  unfolding parse records
  parse-records_onto [] more head s = refl
  parse-records_onto (e ∷ es) more head s =
      ap (λ (l : List ℕ). parse alloc (suc (length es)) l head)
        {y = entry_record e ++ (records es ++ more)}
        (append_assoc (entry_record e) (records es) more)
      ∙ rw (parse_entry-entry_record e (records es ++ more) s.0, parse)
          (parse-records_onto es more (e ∷ head) s.1)
