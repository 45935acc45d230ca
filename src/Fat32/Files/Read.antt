-- ===== src/Fat32/Files/Read.antt =====
-- kernel/filesystem/fat32.cpp: what `fat32_read_file` gives for a chain of clusters.
use hana_core.Prelude.{
  ◌^◌, ℕ, zero, suc, List, [], ◌∷◌, ◌++◌, ◌+◌, ◌-◌, ◌≡◌, ◌≤◌, ◌<◌, refl, ap, sym, ◌∙◌, Option, none,
  some, Bool, true, false, ◌||◌, ◌==◌, not, ltb, leb, length, take, arith, leb→le, inl, inr,
  Bool-cases, some_eq, length-append, length-take, subst,
}
use mathlib.Core.List.{append_assoc, append-nil}
use hana_core.Hanafs.Image.{Ata}
use hana_core.Libc.Number.{utoa, atoi}
use hana_core.Libc.Number.RoundTrip.{atoi-utoa}
use hana_core.Fat32.{Volume, fat32_read_sector, read_fat_entry}
use hana_core.Fat32.Chain.{IsChain, contains}
use hana_core.Fat32.Directory.{goes_on, sector_of}
use hana_core.Fat32.Files.{to_uint32}
use hana_core.Fat32.Files.Content.{read_cluster, read_chain, fat32_read_file}

take-append : (k : ℕ) (x y : List ℕ) → take k (x ++ y) ≡ take k x ++ take (k - length x) y
take-append zero x y = ap (λ (n : ℕ). take n y) {x = 0} (omega arith)
take-append (suc k) [] y = ap (λ (n : ℕ). take n y) {x = suc k} (omega arith)
take-append (suc k) (c ∷ x) y =
    ap (λ (l : List ℕ). c ∷ l)
      (take-append k x y ∙ ap (λ (n : ℕ). take k x ++ take n y) (omega arith))

take_none : (k : ℕ) → take {A = ℕ} k [] ≡ []
take_none zero = refl
take_none (suc k) = refl

-- A buffer of `len` bytes filled from two texts, one after the other.
abbrev filled : ℕ → List ℕ → List ℕ → List ℕ
filled len buf x = buf ++ take (len - length buf) x

length-filled : (len : ℕ) (buf x : List ℕ) → length buf ≤ len → length (filled len buf x) ≤ len
length-filled len buf x h =
    omega (arith, length-append buf (take (len - length buf) x), length-take (len - length buf) x)

filled_twice :
    (len : ℕ) (buf x y : List ℕ)
    → length buf ≤ len
    → filled len (filled len buf x) y ≡ filled len buf (x ++ y)
filled_twice len buf x y h =
    append_assoc buf (take k x) (take (len - length (filled len buf x)) y)
    ∙ ap (λ (l : List ℕ). buf ++ l)
        (ap (λ (l : List ℕ). take k x ++ l) (rest ∙ refl) ∙ sym (take-append k x y))
  where
    k : ℕ
    k = len - length buf

    rest : take (len - length (filled len buf x)) y ≡ take (k - length x) y
    rest = ap (λ (n : ℕ). take n y) (omega (arith, length-append buf (take k x), length-take k x))

filled_full : (len : ℕ) (buf x : List ℕ) → len ≤ length buf → filled len buf x ≡ buf
filled_full len buf x h = ap (λ (n : ℕ). buf ++ take n x) {y = 0} (omega arith) ∙ append-nil buf

path_number :
    (c : ℕ) (path : List ℕ) → c < 2 ^ 28 → utoa c 24 ≡ some path → to_uint32 (atoi path) ≡ c
unfolding to_uint32
path_number c path h e =
    let (text, printed, value) = atoi-utoa c 24 (omega arith) (omega arith) in
    ap (λ (l : List ℕ). to_uint32 (atoi l)) (some_eq (sym e ∙ printed)) ∙ ap to_uint32 value

module _ {D : Type 0} (ata : Ata D) (v : Volume) where
  open v use {sectors_per_cluster, bytes_per_sector}

  -- The sectors of a cluster, and those of a chain, can be read.
  abbrev pub ReadsCluster : D → ℕ → ℕ → ℕ → Type 0
  ReadsCluster d c s zero = Unit
  ReadsCluster d c s (suc n) =
      ((x : List ℕ) × (fat32_read_sector ata v d (sector_of ata v c s) ≡ some x))
      × ReadsCluster d c (s + 1) n

  abbrev pub ReadsChain : D → List ℕ → Type 0
  ReadsChain d [] = Unit
  ReadsChain d (c ∷ cs) = ReadsCluster d c 0 sectors_per_cluster × ReadsChain d cs

  -- The bytes of a cluster, and those of a chain of clusters.
  unfoldable pub bytes_in : Option (List ℕ) → List ℕ
  bytes_in none = []
  bytes_in (some sector) = take bytes_per_sector sector

  unfoldable pub cluster_bytes : D → ℕ → ℕ → ℕ → List ℕ
  unfolding bytes_in fat32_read_sector
  cluster_bytes d c s zero = []
  cluster_bytes d c s (suc n) =
      bytes_in (fat32_read_sector ata v d (sector_of ata v c s)) ++ cluster_bytes d c (s + 1) n

  unfoldable pub chain_bytes : D → List ℕ → List ℕ
  unfolding cluster_bytes
  chain_bytes d [] = []
  chain_bytes d (c ∷ cs) = cluster_bytes d c 0 sectors_per_cluster ++ chain_bytes d cs

  read_cluster_lem :
      (d : D) (len c s n : ℕ) (buf : List ℕ)
      → ReadsCluster d c s n
      → length buf ≤ len
      → read_cluster ata v d len c s n buf ≡ some (filled len buf (cluster_bytes d c s n))
  unfolding read_cluster cluster_bytes
  read_cluster_lem d len c s zero buf r h =
      ap some (sym (ap (λ (l : List ℕ). buf ++ l) (take_none (len - length buf)) ∙ append-nil buf))
  read_cluster_lem d len c s (suc n) buf ((x, e), r) h =
      let sector : List ℕ = take bytes_per_sector x in
      let now : List ℕ = filled len buf sector in
      let ih = read_cluster_lem d len c (s + 1) n now r (length-filled len buf sector h) in
      let rest : List ℕ = cluster_bytes d c (s + 1) n in
      let whole = filled_twice len buf sector rest h in
      rw (e, read_cluster)
        (unfold bytes_in in
          elim (Bool-cases (leb len (length now))) [
            | inl full ↦
                rw full
                  (ap some (sym (filled_full len now rest (leb→le len (length now) full)) ∙ whole))
            | inr more ↦ rw more (ih ∙ ap some whole)
          ])

  -- Where the loop stops behind a cluster of a chain, the chain ends.
  pub last_cluster :
      (d : D) (c next : ℕ) (xs : List ℕ)
      → IsChain ata v d next xs
      → contains c xs ≡ false
      → (not (goes_on next) || (next == c)) ≡ true
      → xs ≡ []
  last_cluster d c next [] chain once last = refl
  last_cluster d c next (y ∷ ys) (same, low, high, has, unique, chain) once last =
      absurd (clash (c == y) (contains c ys) (unfold contains in once) (ground arith))
    where
      clash : (a b : Bool) → (a || b) ≡ false → a ≡ true → ⊥
      clash a b p q = ground (arith, p, q)

  nothing_left :
      (d : D) (len : ℕ) (buf xs : List ℕ) → xs ≡ [] → filled len buf (chain_bytes d xs) ≡ buf
  unfolding chain_bytes
  nothing_left d len buf xs e =
      ap (λ (l : List ℕ). filled len buf (chain_bytes d l)) e
      ∙ ap (λ (l : List ℕ). buf ++ l) (take_none (len - length buf))
      ∙ append-nil buf

  -- A chain can be followed: its clusters are no end marks, and it does not come back.
  read_chain_lem :
      (f : ℕ) (d : D) (len c : ℕ) (cs buf : List ℕ)
      → IsChain ata v d c cs
      → ReadsChain d cs
      → length cs < f
      → length buf ≤ len
      → read_chain ata v f d len c buf ≡ some (some (filled len buf (chain_bytes d cs)))
  unfolding read_chain chain_bytes
  read_chain_lem zero d len c cs buf chain r fuel h = absurd (omega arith)
  read_chain_lem (suc f) d len c [] buf ended r fuel h =
      let stop : goes_on c ≡ false = ground (arith, ended) in
      rw stop (
        ap (λ (l : List ℕ). some (some l))
          (sym (ap (λ (l : List ℕ). buf ++ l) (take_none (len - length buf)) ∙ append-nil buf)))
  read_chain_lem (suc f) d len c (x ∷ xs) buf (same, low, high, has, once, chain) (r, rs) fuel h =
      let start : goes_on c ≡ true = ground arith in
      let next : ℕ = read_fat_entry ata v d c in
      let here : List ℕ = cluster_bytes d c 0 sectors_per_cluster in
      let now : List ℕ = filled len buf here in
      let got =
        read_cluster_lem d len c 0 sectors_per_cluster buf
          (subst (λ (k : ℕ). ReadsCluster d k 0 sectors_per_cluster) same r) h in
      let whole : filled len now (chain_bytes d xs)
          ≡ filled len buf (cluster_bytes d x 0 sectors_per_cluster ++ chain_bytes d xs) =
        filled_twice len buf here (chain_bytes d xs) h
        ∙ ap
            (λ (k : ℕ).
              filled len buf (cluster_bytes d k 0 sectors_per_cluster ++ chain_bytes d xs))
            (sym same) in
      rw start (
        rw (got, read_chain)
          (elim (Bool-cases (leb len (length now))) [
            | inl full ↦ rw full (
                ap (λ (l : List ℕ). some (some l))
                  (sym (filled_full len now (chain_bytes d xs) (leb→le len (length now) full))
                    ∙ whole))
            | inr more ↦ rw more (elim (Bool-cases (not (goes_on next) || (next == c))) [
              | inl last ↦
                  let none_ : xs ≡ [] = last_cluster d c next xs chain once last in
                  rw last (
                    ap (λ (l : List ℕ). some (some l))
                      (sym (nothing_left d len now xs none_) ∙ whole))
              | inr on ↦ rw on (
                  read_chain_lem f d len next xs now chain rs (omega arith)
                    (length-filled len buf here h)
                  ∙ ap (λ (l : List ℕ). some (some l)) whole)
            ])
          ]))

  -- With a path that is read as the number of the chain's first cluster.
  pub fat32_read_file_at :
      (f : ℕ) (d : D) (c len : ℕ) (cs path : List ℕ)
      → IsChain ata v d c cs
      → ReadsChain d cs
      → length cs < f
      → 2 ≤ c
      → 0 < len
      → (0 < bytes_per_sector) × (bytes_per_sector ≤ 4096) × (0 < sectors_per_cluster)
      → to_uint32 (atoi path) ≡ c
      → fat32_read_file ata v true f d path len ≡ some (some (take len (chain_bytes d cs)))
  unfolding fat32_read_file
  fat32_read_file_at f d c len cs path chain r fuel low pos_len (bl, bh, sp) number =
      let a : len == 0 ≡ false = ground arith in
      let b : ltb c 2 ≡ false = ground arith in
      let g : bytes_per_sector == 0 ≡ false = ground arith in
      let h : sectors_per_cluster == 0 ≡ false = ground arith in
      let i : ltb 4096 bytes_per_sector ≡ false = ground arith in
      rw number (
        rw (a, b, g, h)
          (rw i (
            read_chain_lem f d len c cs [] chain r fuel (omega arith)
            ∙ ap (λ (n : ℕ). some (some (take n (chain_bytes d cs)))) {x = len - 0} (omega arith))))

  -- `fat32_read_file` of the decimal number of a cluster gives the first `len` bytes, not 0, of the chain of
  -- clusters that starts there, or all of them if they are fewer, and it ends with fuel for the
  -- clusters and one more, where their sectors can be read and have at most 4096 bytes.
  pub fat32_read_file-chain_bytes :
      (f : ℕ) (d : D) (c len : ℕ) (cs path : List ℕ)
      → IsChain ata v d c cs
      → ReadsChain d cs
      → length cs < f
      → (2 ≤ c) × (c < 2 ^ 28)
      → 0 < len
      → (0 < bytes_per_sector) × (bytes_per_sector ≤ 4096) × (0 < sectors_per_cluster)
      → utoa c 24 ≡ some path
      → fat32_read_file ata v true f d path len ≡ some (some (take len (chain_bytes d cs)))
  fat32_read_file-chain_bytes f d c len cs path chain r fuel (low, high) pos_len sizes e =
      fat32_read_file_at f d c len cs path chain r fuel low pos_len sizes
        (path_number c path high e)
