-- ===== src/Fat32/Directory/Entry.antt =====
-- kernel/filesystem/fat32.cpp: an entry of a directory, written and read again.
use hana_core.Prelude.{
  ℕ, zero, suc, List, [], ◌∷◌, ◌++◌, ◌+◌, ◌-◌, ◌*◌, ◌/◌, ◌^◌, ◌≡◌, ◌≤◌, ◌<◌, ◌⊎◌, refl, ap, sym,
  ◌∙◌, length, take, drop, get_or, replicate, arith, inl, inr, length-append, length-take,
  length-drop,
}
use mathlib.Core.Path.{ap₂}
use hana_core.Hanafs.Image.{le_bytes, le_value}
use hana_core.Hanafs.Image.Codec.{le4}
use hana_core.Fat32.Directory.{
  entry_bytes, put_entry, entry_at, entry_cluster, entry_size, entry_attr,
}

pub drop_past : (n k : ℕ) (a b : List ℕ) → n ≡ length a + k → drop n (a ++ b) ≡ drop k b
drop_past n k [] b e = ap (λ (m : ℕ). drop m b) (omega (arith, e))
drop_past zero k (x ∷ a) b e = absurd (omega (arith, e))
drop_past (suc n) k (x ∷ a) b e = drop_past n k a b (omega (arith, e))

take_front : (n : ℕ) (a b : List ℕ) → n ≤ length a → take n (a ++ b) ≡ take n a
take_front zero a b h = refl
take_front (suc n) [] b h = absurd (omega arith)
take_front (suc n) (x ∷ a) b h = ap (λ (l : List ℕ). x ∷ l) (take_front n a b (omega arith))

pub take_all : (n : ℕ) (a b : List ℕ) → n ≡ length a → take n (a ++ b) ≡ a
take_all zero [] b e = refl
take_all zero (x ∷ a) b e = absurd (omega (arith, e))
take_all (suc n) [] b e = absurd (omega (arith, e))
take_all (suc n) (x ∷ a) b e = ap (λ (l : List ℕ). x ∷ l) (take_all n a b (omega (arith, e)))

pub get_past : (n k : ℕ) (a b : List ℕ) → n ≡ length a + k → get_or (a ++ b) n 0 ≡ get_or b k 0
get_past n k [] b e = ap (λ (m : ℕ). get_or b m 0) (omega (arith, e))
get_past zero k (x ∷ a) b e = absurd (omega (arith, e))
get_past (suc n) k (x ∷ a) b e = get_past n k a b (omega (arith, e))

-- What an entry says of a file.
pub record Says (entry name11 : List ℕ) (attr cluster size : ℕ) : Type 0 where
  pub name : take 11 entry ≡ name11
  pub attribute : entry_attr entry ≡ attr
  pub start : entry_cluster entry ≡ cluster
  pub bytes : entry_size entry ≡ size

le2 :
    (w : ℕ) → w < 2 ^ 32 → le_value (le_bytes 2 (w / 2 ^ 16)) * 2 ^ 16 + le_value (le_bytes 2 w) ≡ w
unfolding le_value le_bytes
le2 w h = omega arith

pub length-entry_bytes :
    (old name11 : List ℕ) (attr cluster size : ℕ)
    → length old ≡ 32
    → length name11 ≡ 11
    → length (entry_bytes old name11 attr cluster size) ≡ 32
unfolding entry_bytes le_bytes
length-entry_bytes old name11 attr cluster size o n = omega (
  arith,
  length-append name11 _,
  length-append (take 4 (drop 22 old)) _,
  length-take 4 (drop 22 old),
  length-drop 22 old,
)

pub entry_bytes-Says :
    (old name11 : List ℕ) (attr cluster size : ℕ)
    → length old ≡ 32
    → length name11 ≡ 11
    → cluster < 2 ^ 32
    → size < 2 ^ 32
    → Says (entry_bytes old name11 attr cluster size) name11 attr cluster size
unfolding entry_bytes entry_cluster entry_size le_bytes
entry_bytes-Says old name11 attr cluster size o n fc fs = record {
  name = take_all 11 name11 _ (sym n);
  attribute = get_past 11 0 name11 _ (omega (arith, n));
  start =
      ap₂ (λ (a b : List ℕ). le_value a * 2 ^ 16 + le_value b) high low
      ∙ unfold le_bytes in le2 cluster fc;
  bytes = ap le_value last ∙ unfold le_bytes in le4 size fs;
}
  where
    mid : List ℕ
    mid = take 4 (drop 22 old)

    mid_four : 4 ≡ length mid
    mid_four = omega (arith, o, length-take 4 (drop 22 old), length-drop 22 old)

    behind_mid : List ℕ
    behind_mid = le_bytes 2 cluster ++ le_bytes 4 size

    tail : List ℕ
    tail = attr ∷ (replicate 8 0 ++ (le_bytes 2 (cluster / 2 ^ 16) ++ (mid ++ behind_mid)))

    high : take 2 (drop 20 (name11 ++ tail)) ≡ le_bytes 2 (cluster / 2 ^ 16)
    high = ap (take 2) (drop_past 20 9 name11 tail (omega (arith, n)))

    low : take 2 (drop 26 (name11 ++ tail)) ≡ le_bytes 2 cluster
    low = ap (take 2) (
        drop_past 26 15 name11 tail (omega (arith, n))
        ∙ drop_past 4 0 mid behind_mid (omega (arith, mid_four)))

    last : take 4 (drop 28 (name11 ++ tail)) ≡ le_bytes 4 size
    last = ap (take 4) (
        drop_past 28 17 name11 tail (omega (arith, n))
        ∙ drop_past 6 2 mid behind_mid (omega (arith, mid_four)))

at_off : (off : ℕ) (s r : List ℕ) → off ≤ length s → drop off (take off s ++ r) ≡ r
at_off off s r h = drop_past off 0 (take off s) r (omega (arith, h, length-take off s))

-- An entry that was put into a sector is read back from its place.
pub entry_at-put_entry :
    (sector : List ℕ) (off : ℕ) (entry : List ℕ)
    → off ≤ length sector
    → length entry ≡ 32
    → entry_at (put_entry sector off entry) off ≡ entry
unfolding put_entry
entry_at-put_entry sector off entry h n =
    ap (take 32) (at_off off sector (entry ++ drop (off + 32) sector) h)
    ∙ take_all 32 entry (drop (off + 32) sector) (sym n)

take-take : (n m : ℕ) (s : List ℕ) → n ≤ m → take n (take m s) ≡ take n s
take-take zero m s h = refl
take-take (suc n) zero s h = absurd (omega arith)
take-take (suc n) (suc m) [] h = refl
take-take (suc n) (suc m) (x ∷ s) h = ap (λ (l : List ℕ). x ∷ l) (take-take n m s (omega arith))

drop_none : (n : ℕ) → drop {A = ℕ} n [] ≡ []
drop_none zero = refl
drop_none (suc n) = refl

drop-drop : (n m : ℕ) (s : List ℕ) → drop n (drop m s) ≡ drop (m + n) s
drop-drop n zero s = ap (λ (k : ℕ). drop k s) {x = n} (omega arith)
drop-drop n (suc m) [] = drop_none n ∙ sym (drop_none (suc m + n))
drop-drop n (suc m) (x ∷ s) =
    drop-drop n m s ∙ ap (λ (k : ℕ). drop k (x ∷ s)) {x = suc (m + n)} (omega arith)

-- What stands in front of an entry that is put in.
before_off :
    (o off : ℕ) (s r : List ℕ)
    → o + 32 ≤ off
    → off ≤ length s
    → entry_at (take off s ++ r) o ≡ entry_at s o
before_off zero off s r h fits =
    take_front 32 (take off s) r (omega (arith, length-take off s)) ∙ take-take 32 off s h
before_off (suc o) zero s r h fits = absurd (omega arith)
before_off (suc o) (suc off) [] r h fits = absurd (omega arith)
before_off (suc o) (suc off) (x ∷ s) r h fits = before_off o off s r (omega arith) (omega arith)

-- The other entries of the sector stay as they are.
pub entry_at-put_entry_other :
    (sector : List ℕ) (off o : ℕ) (entry : List ℕ)
    → off + 32 ≤ length sector
    → length entry ≡ 32
    → (o + 32 ≤ off) ⊎ (off + 32 ≤ o)
    → entry_at (put_entry sector off entry) o ≡ entry_at sector o
unfolding put_entry
entry_at-put_entry_other sector off o entry h n (inl before) =
    before_off o off sector (entry ++ drop (off + 32) sector) before (omega arith)
entry_at-put_entry_other sector off o entry h n (inr past) = ap (take 32) (
    drop_past o (32 + k) (take off sector) (entry ++ drop (off + 32) sector)
      (omega (arith, past, length-take off sector))
    ∙ drop_past (32 + k) k entry (drop (off + 32) sector) (omega (arith, n))
    ∙ drop-drop k (off + 32) sector
    ∙ ap (λ (m : ℕ). drop m sector) (omega (arith, past)))
  where
    k : ℕ
    k = o - (off + 32)

pub length-put_entry :
    (sector : List ℕ) (off : ℕ) (entry : List ℕ)
    → off + 32 ≤ length sector
    → length entry ≡ 32
    → length (put_entry sector off entry) ≡ length sector
unfolding put_entry
length-put_entry sector off entry h n = omega (
  arith,
  length-append (take off sector) (entry ++ drop (off + 32) sector),
  length-append entry (drop (off + 32) sector),
  length-take off sector,
  length-drop (off + 32) sector,
)
