-- ===== src/Users.antt =====
-- kernel/userland/users.cpp: users, groups and the current user. The two databases are the lists of
-- the entries in use, and a text is shorter than its array. Logging is left out. A result of
-- `no_id` stands for (uid_t)-1.
pub mod Lookup
pub mod Permission
mod Tests
use Prim.Native.Nat.{bit_and}
use hana_core.Prelude.{
  ℕ, List, [], ◌∷◌, ◌+◌, ◌-◌, ◌*◌, ◌/◌, ◌%◌, ◌^◌, Option, none, some, Bool, true, false, not, ltb,
  ◌==◌, if◌then◌else◌,
}
use hana_core.Prelude.Text.{eq_text}

pub record User : Type 0 where
  pub uid : ℕ
  pub gid : ℕ
  pub username : List ℕ
  pub password_hash : List ℕ
  pub home_dir : List ℕ
  pub shell : List ℕ

pub record Group : Type 0 where
  pub gid : ℕ
  pub groupname : List ℕ
  pub members : List ℕ

pub record Users : Type 0 where
  pub user_database : List User
  pub group_database : List Group
  pub current_uid : ℕ
  pub current_gid : ℕ

abbrev pub no_id : ℕ
no_id = 2 ^ 32 - 1

abbrev pub unknown : List ℕ
unknown = b'u' ∷ b'n' ∷ b'k' ∷ b'n' ∷ b'o' ∷ b'w' ∷ b'n' ∷ []

-- A `char` converted to a 32-bit number: bytes from 128 on are negative.
abbrev pub char32 : ℕ → ℕ
char32 c = if ltb c 128 then c else 2 ^ 32 - (256 - c)

unfoldable pub hash_from : ℕ → List ℕ → ℕ
hash_from hash [] = hash
hash_from hash (c ∷ cs) = hash_from ((hash * 2 ^ 5 % 2 ^ 32 + hash + char32 c) % 2 ^ 32) cs

unfoldable pub simple_hash : List ℕ → ℕ
unfolding hash_from
simple_hash str = hash_from 5381 str

abbrev pub root_user : User
root_user = record {
  uid = 0;
  gid = 0;
  username = b'r' ∷ b'o' ∷ b'o' ∷ b't' ∷ [];
  password_hash = b'r' ∷ b'o' ∷ b'o' ∷ b't' ∷ [];
  home_dir = b'/' ∷ b'r' ∷ b'o' ∷ b'o' ∷ b't' ∷ [];
  shell = b'/' ∷ b'b' ∷ b'i' ∷ b'n' ∷ b'/' ∷ b'h' ∷ b'c' ∷ b's' ∷ b'h' ∷ [];
}

abbrev pub guest_user : User
guest_user = record {
  uid = 1000;
  gid = 1000;
  username = b'g' ∷ b'u' ∷ b'e' ∷ b's' ∷ b't' ∷ [];
  password_hash = b'g' ∷ b'u' ∷ b'e' ∷ b's' ∷ b't' ∷ [];
  home_dir = b'/' ∷ b'h' ∷ b'o' ∷ b'm' ∷ b'e' ∷ b'/' ∷ b'g' ∷ b'u' ∷ b'e' ∷ b's' ∷ b't' ∷ [];
  shell = b'/' ∷ b'b' ∷ b'i' ∷ b'n' ∷ b'/' ∷ b's' ∷ b'h' ∷ [];
}

-- The current user stays as it is.
unfoldable pub init_users : Users → Users
init_users u = record u {
  user_database = root_user ∷ guest_user ∷ [];
  group_database =
      record { gid = 0; groupname = b'r' ∷ b'o' ∷ b'o' ∷ b't' ∷ []; members = 0 ∷ [] }
      ∷ record {
        gid = 1000;
        groupname = b'u' ∷ b's' ∷ b'e' ∷ b'r' ∷ b's' ∷ [];
        members = 1000 ∷ [];
      }
      ∷ [];
}

-- The loops over the databases: the first entry with a name or a number.
unfoldable pub user_named : List User → List ℕ → Option User
user_named [] name = none
user_named (u ∷ us) name = elim (eq_text u.username name) [
  | true ↦ some u
  | false ↦ user_named us name
]

unfoldable pub user_numbered : List User → ℕ → Option User
user_numbered [] uid = none
user_numbered (u ∷ us) uid = elim (u.uid == uid) [ true ↦ some u | false ↦ user_numbered us uid ]

unfoldable pub group_named : List Group → List ℕ → Option Group
group_named [] name = none
group_named (g ∷ gs) name = elim (eq_text g.groupname name) [
  | true ↦ some g
  | false ↦ group_named gs name
]

unfoldable pub group_numbered : List Group → ℕ → Option Group
group_numbered [] gid = none
group_numbered (g ∷ gs) gid = elim (g.gid == gid) [ true ↦ some g | false ↦ group_numbered gs gid ]

unfoldable pub get_uid_by_name : Users → List ℕ → ℕ
unfolding user_named
get_uid_by_name u name = elim (user_named u.user_database name) [ none ↦ no_id | some x ↦ x.uid ]

unfoldable pub get_username_by_uid : Users → ℕ → List ℕ
unfolding user_numbered
get_username_by_uid u uid = elim (user_numbered u.user_database uid) [
  | none ↦ unknown
  | some x ↦ x.username
]

unfoldable pub get_user_by_uid : Users → ℕ → Option User
get_user_by_uid u uid = user_numbered u.user_database uid

unfoldable pub get_user_by_name : Users → List ℕ → Option User
get_user_by_name u name = user_named u.user_database name

unfoldable pub get_gid_by_name : Users → List ℕ → ℕ
unfolding group_named
get_gid_by_name u name = elim (group_named u.group_database name) [ none ↦ no_id | some g ↦ g.gid ]

unfoldable pub get_groupname_by_gid : Users → ℕ → List ℕ
unfolding group_numbered
get_groupname_by_gid u gid = elim (group_numbered u.group_database gid) [
  | none ↦ unknown
  | some g ↦ g.groupname
]

unfoldable pub get_group_by_gid : Users → ℕ → Option Group
get_group_by_gid u gid = group_numbered u.group_database gid

unfoldable pub authenticate_user : Users → List ℕ → List ℕ → Bool
unfolding get_user_by_name
authenticate_user u username password = elim (get_user_by_name u username) [
  | none ↦ false
  | some user ↦ eq_text user.password_hash password
]

unfoldable pub set_current_user : Users → ℕ → ℕ → Users
set_current_user u uid gid = record u { current_uid = uid; current_gid = gid }

unfoldable pub get_current_username : Users → List ℕ
unfolding get_username_by_uid
get_current_username u = get_username_by_uid u u.current_uid

-- `mode` is a uint16_t; `required_bits` is not negative.
unfoldable pub check_permission : ℕ → ℕ → ℕ → ℕ → Bool
check_permission mode uid gid required_bits =
    let file_uid = bit_and (mode / 2 ^ 16) 0xffff in
    let file_gid = bit_and (mode / 2 ^ 8) 0xff in
    if uid == 0
    then true
    else if uid == file_uid
    then not (bit_and mode (required_bits * 2 ^ 6) == 0)
    else if gid == file_gid
    then not (bit_and mode (required_bits * 2 ^ 3) == 0)
    else not (bit_and mode required_bits == 0)

-- `can_read`, `can_write` and `can_execute` are the same code.
unfoldable pub can_access : List ℕ → ℕ → ℕ → Bool
can_access path uid gid = if uid == 0 then true else true
