-- ===== src/Users/Lookup.antt =====
-- Names, numbers and passwords of users.
use hana_core.Prelude.{
  Option-cases, ℕ, List, [], ◌∷◌, ◌++◌, ◌≡◌, ◌≢◌, ◌↔◌, refl, ap, sym, ◌∙◌, subst, arith, none, some,
  some_eq, true, false, Bool-cases, inl, inr, ◌==◌,
}
use mathlib.Core.Path.{ap₂}
use hana_core.Prelude.Text.{eq_text, eq_text_refl, eq_text_sound}
use hana_core.Users.{
  User, Users, user_named, user_numbered, get_uid_by_name, get_username_by_uid, get_user_by_name,
  authenticate_user,
}

-- No user has a name.
abbrev pub NobodyNamed : List ℕ → List User → Type 0
NobodyNamed name [] = Unit
NobodyNamed name (u ∷ us) = (u.username ≢ name) × NobodyNamed name us

-- The first user of a list that has a name.
pub record IsFirst (us : List User) (name : List ℕ) (u : User) : Type 0 where
  pub before : List User
  pub after : List User
  pub split : us ≡ before ++ (u ∷ after)
  pub others : NobodyNamed name before
  pub named : u.username ≡ name

IsFirst-cons :
    (x u : User) (us : List User) (name : List ℕ)
    → x.username ≢ name
    → IsFirst us name u
    → IsFirst (x ∷ us) name u
IsFirst-cons x u us name ne f = record {
  before = x ∷ f.before;
  after = f.after;
  split = ap (λ (l : List User). x ∷ l) f.split;
  others = (ne, f.others);
  named = f.named;
}

user_named-IsFirst :
    (us : List User) (name : List ℕ) (u : User) → user_named us name ≡ some u → IsFirst us name u
unfolding user_named
user_named-IsFirst [] name u e = cc
user_named-IsFirst (x ∷ us) name u e = elim (Bool-cases (eq_text x.username name)) [
  | inl hit ↦
      subst (λ (y : User). IsFirst (x ∷ us) name y) (some_eq (rw (hit, user_named) at e))
        (record {
          before = [];
          after = us;
          split = refl;
          others = tt;
          named = eq_text_sound x.username name hit;
        })
  | inr miss ↦
      IsFirst-cons x u us name (differs miss)
        (user_named-IsFirst us name u (rw (miss, user_named) at e))
]
  where
    differs : eq_text x.username name ≡ false → x.username ≢ name
    differs miss h = cc (eq_text_refl name, rw h at miss)

user_named_found :
    (before after : List User) (u : User)
    → NobodyNamed u.username before
    → user_named (before ++ (u ∷ after)) u.username ≡ some u
unfolding user_named
user_named_found [] after u o = rw (eq_text_refl u.username, user_named)
user_named_found (x ∷ xs) after u o = elim (Bool-cases (eq_text x.username u.username)) [
  | inl hit ↦ absurd (o.0 (eq_text_sound x.username u.username hit))
  | inr miss ↦ rw (miss, user_named) (user_named_found xs after u o.1)
]

user_named_first :
    (us : List User) (name : List ℕ) (u : User) → IsFirst us name u → user_named us name ≡ some u
user_named_first us name u f =
    ap₂ user_named f.split (sym f.named)
    ∙ user_named_found f.before f.after u
        (subst (λ (n : List ℕ). NobodyNamed n f.before) (sym f.named) f.others)

-- A user is authenticated exactly when the first user of that name has that password.
pub authenticate_user_lem :
    (us : Users) (name password : List ℕ)
    → (authenticate_user us name password ≡ true)
      ↔ ((u : User) × IsFirst us.user_database name u × (u.password_hash ≡ password))
unfolding authenticate_user get_user_by_name
authenticate_user_lem us name password = (forward, backward)
  where
    forward :
        authenticate_user us name password ≡ true
        → (u : User) × IsFirst us.user_database name u × (u.password_hash ≡ password)
    forward e = elim (Option-cases (user_named us.user_database name)) [
      | inl n ↦ cc (rw (n, authenticate_user) at e)
      | inr (u, f) ↦ (
        u,
        user_named-IsFirst us.user_database name u f,
        eq_text_sound u.password_hash password (rw (f, authenticate_user) at e),
      )
    ]

    backward :
        ((u : User) × IsFirst us.user_database name u × (u.password_hash ≡ password))
        → authenticate_user us name password ≡ true
    backward (u, f, p) =
        rw (user_named_first us.user_database name u f, authenticate_user)
          (rw p (eq_text_refl password))

abbrev pub NoUid : ℕ → List User → Type 0
NoUid uid [] = Unit
NoUid uid (u ∷ us) = (u.uid ≢ uid) × NoUid uid us

-- No two users have one number.
abbrev pub Unique : List User → Type 0
Unique [] = Unit
Unique (u ∷ us) = NoUid u.uid us × Unique us

user_numbered-none : (uid : ℕ) (us : List User) → NoUid uid us → user_numbered us uid ≡ none
unfolding user_numbered
user_numbered-none uid [] h = refl
user_numbered-none uid (u ∷ us) h = rw (differs, user_numbered) (user_numbered-none uid us h.1)
  where
    differs : u.uid == uid ≡ false
    differs = ground (arith, h.0)

user_numbered_same :
    (us : List User) (name : List ℕ) (u : User)
    → Unique us
    → user_named us name ≡ some u
    → user_numbered us u.uid ≡ some u
unfolding user_numbered user_named
user_numbered_same [] name u q e = cc
user_numbered_same (x ∷ us) name u q e = elim (Bool-cases (eq_text x.username name)) [
  | inl hit ↦
      let same : x ≡ u = some_eq (rw (hit, user_named) at e) in
      rw (hit_uid (ap (λ (y : User). y.uid) same), user_numbered) (ap some same)
  | inr miss ↦
      let rest = user_numbered_same us name u q.1 (rw (miss, user_named) at e) in
      elim (Bool-cases (x.uid == u.uid)) [
        | inl clash ↦ cc (clashes clash, rest)
        | inr apart ↦ rw (apart, user_numbered) rest
      ]
]
  where
    hit_uid : x.uid ≡ u.uid → x.uid == u.uid ≡ true
    hit_uid h = ground arith

    clashes : x.uid == u.uid ≡ true → user_numbered us u.uid ≡ none
    clashes h =
        subst (λ (k : ℕ). user_numbered us k ≡ none) (ground arith)
          (user_numbered-none x.uid us q.0)

-- Where no two users have one number, the number found for the name of a user leads back to that
-- name.
pub get_username_by_uid-get_uid_by_name :
    (us : Users) (name : List ℕ) (u : User)
    → Unique us.user_database
    → get_user_by_name us name ≡ some u
    → get_username_by_uid us (get_uid_by_name us name) ≡ name
unfolding get_username_by_uid get_uid_by_name get_user_by_name
get_username_by_uid-get_uid_by_name us name u q e =
    rw (e, get_uid_by_name)
      (rw (user_numbered_same us.user_database name u q e, get_username_by_uid)
        (user_named-IsFirst us.user_database name u e).named)
