-- ===== src/Users/Tests.antt =====
-- Runs of kernel/userland/users.cpp.
use hana_core.Prelude.{ℕ, List, [], ◌∷◌, ◌≡◌, refl, true, false}
use hana_core.Prelude.Text.{eq_text}
use hana_core.Users.{
  Users, no_id, hash_from, simple_hash, init_users, user_named, user_numbered, get_uid_by_name,
  get_username_by_uid, get_user_by_name, authenticate_user, set_current_user, get_current_username,
  check_permission,
}

abbrev empty : Users
empty = record { user_database = []; group_database = []; current_uid = 0; current_gid = 0 }

abbrev guest : List ℕ
guest = b'g' ∷ b'u' ∷ b'e' ∷ b's' ∷ b't' ∷ []

login_test : authenticate_user (init_users empty) guest guest ≡ true
unfolding init_users authenticate_user get_user_by_name user_named eq_text
login_test = refl

wrong_test : authenticate_user (init_users empty) guest (b'x' ∷ []) ≡ false
unfolding init_users authenticate_user get_user_by_name user_named eq_text
wrong_test = refl

nobody_test : get_uid_by_name (init_users empty) (b'x' ∷ []) ≡ no_id
unfolding init_users get_uid_by_name user_named eq_text
nobody_test = refl

current_test : get_current_username (set_current_user (init_users empty) 1000 1000) ≡ guest
unfolding init_users get_current_username get_username_by_uid user_numbered set_current_user
current_test = refl

hash_test : simple_hash (b'a' ∷ []) ≡ 177670
unfolding simple_hash hash_from
hash_test = refl

-- The owner of a file may not read it by the owner's bits.
owner_test : check_permission 0x0180 1000 1000 4 ≡ false
unfolding check_permission
owner_test = refl
