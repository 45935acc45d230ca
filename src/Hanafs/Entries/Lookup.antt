-- ===== src/Hanafs/Entries/Lookup.antt =====
-- Finding an entry after one is taken out, and that persisting leaves the entries alone.
use hana_core.Prelude.{
  ◌⊎◌, some_eq, arith, ◌&&◌, ◌||◌, subst, ℕ, List, [], ◌∷◌, ◌≡◌, ◌≢◌, refl, sym, ap, ap, ◌∙◌,
  Option, none, some, true, false, Bool-cases, Option-cases, inl, inr,
}
use hana_core.Prelude.Text.{eq_text, eq_text_refl, eq_text_sound}
use hana_core.Hanafs.Path.{Resolved}
use hana_core.Hanafs.Image.{HanaEntry}
use hana_core.Hanafs.Entries.{find_entry, remove_existing, unlinked, is_legacy}

-- No two entries have the same path.
unfoldable pub IsUnique : List HanaEntry → Type 0
IsUnique [] = Unit
IsUnique (e ∷ es) = (find_entry es e.path ≡ none) × IsUnique es

pub eq_text_ne : (a b : List ℕ) → a ≢ b → eq_text a b ≡ false
eq_text_ne a b h = elim (Bool-cases (eq_text a b)) [
  | inl same ↦ absurd (h (eq_text_sound a b same))
  | inr other ↦ other
]

-- An entry more in front.
pub find_entry_hit :
    (e : HanaEntry) (es : List HanaEntry) (p : List ℕ) → e.path ≡ p → find_entry (e ∷ es) p ≡ some e
unfolding find_entry
find_entry_hit e es p same =
    rw (ap (λ (x : List ℕ). eq_text e.path x) (sym same) ∙ eq_text_refl e.path, find_entry) refl

pub find_entry_miss :
    (e : HanaEntry) (es : List HanaEntry) (p : List ℕ)
    → e.path ≢ p
    → find_entry (e ∷ es) p ≡ find_entry es p
unfolding find_entry
find_entry_miss e es p other = rw (eq_text_ne e.path p other, find_entry) refl

find_entry_tail :
    (e : HanaEntry) (xs ys : List HanaEntry) (p : List ℕ)
    → find_entry xs p ≡ find_entry ys p
    → find_entry (e ∷ xs) p ≡ find_entry (e ∷ ys) p
unfolding find_entry
find_entry_tail e xs ys p h = elim (Bool-cases (eq_text e.path p)) [
  | inl hit ↦ rw (hit, find_entry) refl
  | inr miss ↦ rw (miss, find_entry) h
]

-- An entry that is missing was missing behind each entry.
find_entry-none :
    (e : HanaEntry) (es : List HanaEntry) (p : List ℕ)
    → find_entry (e ∷ es) p ≡ none
    → (e.path ≢ p) × (find_entry es p ≡ none)
unfolding find_entry
find_entry-none e es p h = elim (Bool-cases (eq_text e.path p)) [
  | inl hit ↦ cc (rw (hit, find_entry) at h)
  | inr miss ↦ (
    λ same. cc (eq_text_refl e.path, miss, ap (λ (x : List ℕ). eq_text e.path x) same),
    rw (miss, find_entry) at h,
  )
]

pub find_entry-remove_existing_ne :
    (q : List ℕ) (es : List HanaEntry) (p : List ℕ)
    → q ≢ p
    → find_entry (remove_existing q es) p ≡ find_entry es p
unfolding remove_existing
find_entry-remove_existing_ne q [] p ne = refl
find_entry-remove_existing_ne q (e ∷ es) p ne = elim (Bool-cases (eq_text e.path q)) [
  | inl hit ↦
      rw (hit, remove_existing)
        (sym (find_entry_miss e es p (λ s. ne (sym (eq_text_sound e.path q hit) ∙ s))))
  | inr miss ↦
      rw (miss, remove_existing)
        (find_entry_tail e (remove_existing q es) es p (find_entry-remove_existing_ne q es p ne))
]

remove_existing_hit :
    (e : HanaEntry) (es : List HanaEntry) (p : List ℕ)
    → eq_text e.path p ≡ true
    → remove_existing p (e ∷ es) ≡ es
unfolding remove_existing
remove_existing_hit e es p hit = rw (hit, remove_existing) refl

remove_existing_miss :
    (e : HanaEntry) (es : List HanaEntry) (p : List ℕ)
    → eq_text e.path p ≡ false
    → remove_existing p (e ∷ es) ≡ e ∷ remove_existing p es
unfolding remove_existing
remove_existing_miss e es p miss = rw (miss, remove_existing) refl

-- The loop of `hanafs_unlink`, where both paths of the call are the same or a drive is given.
unlinked_test :
    (r : Resolved) (p : List ℕ)
    → (is_legacy r.drv ≡ true → r.pbuf ≡ r.ipath)
    → (eq_text p r.ipath || (is_legacy r.drv && eq_text p r.pbuf)) ≡ eq_text p r.ipath
unlinked_test r p plain = elim (Bool-cases (is_legacy r.drv)) [
  | inl legacy ↦ rw (legacy, ap (λ (x : List ℕ). eq_text p x) (plain legacy)) (ground arith)
  | inr drive ↦ rw drive (ground arith)
]

abbrev pub taken : List ℕ → List HanaEntry → Option HanaEntry → Option (List HanaEntry)
taken p es none = none
taken p es (some e) = some (remove_existing p es)

pub unlinked_plain :
    (r : Resolved) (es : List HanaEntry)
    → (is_legacy r.drv ≡ true → r.pbuf ≡ r.ipath)
    → unlinked r es ≡ taken r.ipath es (find_entry es r.ipath)
unfolding unlinked find_entry
unlinked_plain r [] plain = refl
unlinked_plain r (e ∷ es) plain = elim (Bool-cases (eq_text e.path r.ipath)) [
  | inl hit ↦
      rw (unlinked_test r e.path plain, unlinked)
        (rw (hit, unlinked)
          (rw (hit, find_entry) (ap some (sym (remove_existing_hit e es r.ipath hit)))))
  | inr miss ↦
      rw (unlinked_test r e.path plain, unlinked)
        (rw (miss, unlinked)
          (rw (miss, find_entry)
            (elim (Option-cases (find_entry es r.ipath)) [
              | inl no_such ↦
                  rw (unlinked_plain r es plain ∙ ap (taken r.ipath es) no_such, unlinked)
                    (rw no_such refl)
              | inr (f, found) ↦
                  rw (unlinked_plain r es plain ∙ ap (taken r.ipath es) found, unlinked)
                    (rw found (ap some (sym (remove_existing_miss e es r.ipath miss))))
            ])))
]

-- Uniqueness.
pub remove_existing-IsUnique :
    (p : List ℕ) (es : List HanaEntry) → IsUnique es → IsUnique (remove_existing p es)
unfolding remove_existing IsUnique
remove_existing-IsUnique p [] u = tt
remove_existing-IsUnique p (e ∷ es) u = elim (Bool-cases (eq_text e.path p)) [
  | inl hit ↦ rw (hit, remove_existing) u.1
  | inr miss ↦
      rw (miss, remove_existing)
        (
          find_entry-remove_existing_ne p es e.path
                (λ same. cc (eq_text_refl p, miss, ap (λ (x : List ℕ). eq_text x p) same))
              ∙ u.0,
          remove_existing-IsUnique p es u.1,
        )
]

pub find_entry-remove_existing :
    (p : List ℕ) (es : List HanaEntry) → IsUnique es → find_entry (remove_existing p es) p ≡ none
unfolding remove_existing IsUnique
find_entry-remove_existing p [] u = unfold find_entry in refl
find_entry-remove_existing p (e ∷ es) u = elim (Bool-cases (eq_text e.path p)) [
  | inl hit ↦
      rw (hit, remove_existing)
        (subst (λ (x : List ℕ). find_entry es x ≡ none) (eq_text_sound e.path p hit) u.0)
  | inr miss ↦
      rw (miss, remove_existing)
        (find_entry_miss e (remove_existing p es) p
            (λ same. cc (eq_text_refl p, miss, ap (λ (x : List ℕ). eq_text x p) same))
          ∙ find_entry-remove_existing p es u.1)
]

-- The two ways the loop of `hanafs_unlink` goes on.
unlinked_cons :
    (r : Resolved) (e : HanaEntry) (es rest : List HanaEntry)
    → unlinked r (e ∷ es) ≡ some rest
    → (rest ≡ es) ⊎ ((more : List HanaEntry) × (unlinked r es ≡ some more) × (rest ≡ e ∷ more))
unfolding unlinked
unlinked_cons r e es rest h =
    elim (Bool-cases (eq_text e.path r.ipath || (is_legacy r.drv && eq_text e.path r.pbuf))) [
      | inl this ↦ inl (sym (some_eq {a = es} (rw (this, unlinked) at h)))
      | inr other ↦ elim (Option-cases (unlinked r es)) [
        | inl no_such ↦ cc (rw (no_such, unlinked) at (rw (other, unlinked) at h))
        | inr (more, found) ↦ inr (
          more,
          found,
          sym (some_eq {a = e ∷ more} (rw (found, unlinked) at (rw (other, unlinked) at h))),
        )
      ]
    ]

find_entry-unlinked :
    (r : Resolved) (es rest : List HanaEntry) (p : List ℕ)
    → find_entry es p ≡ none
    → unlinked r es ≡ some rest
    → find_entry rest p ≡ none
unfolding unlinked
find_entry-unlinked r [] rest p h left = cc
find_entry-unlinked r (e ∷ es) rest p h left = elim (unlinked_cons r e es rest left) [
  | inl this ↦
      subst (λ (l : List HanaEntry). find_entry l p ≡ none) (sym this) (find_entry-none e es p h).1
  | inr (more, found, same) ↦
      subst (λ (l : List HanaEntry). find_entry l p ≡ none) (sym same)
        (find_entry_miss e more p (find_entry-none e es p h).0
          ∙ find_entry-unlinked r es more p (find_entry-none e es p h).1 found)
]

-- What `hanafs_unlink` leaves.
pub unlinked-IsUnique :
    (r : Resolved) (es rest : List HanaEntry)
    → IsUnique es
    → unlinked r es ≡ some rest
    → IsUnique rest
unfolding IsUnique unlinked
unlinked-IsUnique r [] rest u h = cc
unlinked-IsUnique r (e ∷ es) rest u h = elim (unlinked_cons r e es rest h) [
  | inl this ↦ subst IsUnique (sym this) u.1
  | inr (more, found, same) ↦
      subst IsUnique (sym same)
        (find_entry-unlinked r es more e.path u.0 found, unlinked-IsUnique r es more u.1 found)
]
