-- ===== src/Auth/Users.antt =====
-- `InMemoryUserStore` of backend/src/smeshariki_ai/auth/memory.py. `lower` is Python's
-- `str.lower`, which the source only calls.
pub mod Logins
use bmstu_nirs.Common.{
  text_key, nat_key, Bool, Dict, Option, String, find, insert, lookup, none, some, values, ◌==◌,
}
use bmstu_nirs.Auth.Models.{Result, Role, Time, User, UserWithPassword, Uuid, err, login_taken, ok}

abbrev pub Users : Type 0
Users = Dict Uuid UserWithPassword

module _ (lower : String → String) where
  abbrev pub has_login : String → UserWithPassword → Bool
  has_login normalized r = lower r.user.login == normalized

  abbrev pub find_login : String → Users → Option UserWithPassword
  find_login login s = find (has_login (lower login)) (values s)

  unfoldable pub create : Uuid → String → String → Role → Time → Users → Result User × Users
  create user_id login password_hash role created_at s = elim (find_login login s) [
    | some taken ↦ (err login_taken, s)
    | none ↦
        let user : User = record { id = user_id; login = login; role = role } in
        (ok user, insert user_id (record { user = user; password_hash = password_hash }) s)
  ]

  unfoldable pub get_by_login : String → Users → Option UserWithPassword
  get_by_login login s = find_login login s

unfoldable pub get_by_id : Uuid → Users → Option User
get_by_id user_id s = elim (lookup user_id s) [ none ↦ none | some r ↦ some r.user ]

unfoldable pub get_password_hash : Uuid → Users → Option String
get_password_hash user_id s = elim (lookup user_id s) [
  | none ↦ none
  | some r ↦ some r.password_hash
]

unfoldable pub set_password_hash : Uuid → String → Time → Users → Users
set_password_hash user_id password_hash updated_at s = elim (lookup user_id s) [
  | none ↦ s
  | some r ↦ insert user_id (record r { password_hash = password_hash }) s
]

-- `set_role`; `none` is the `KeyError` of an unknown user.
unfoldable pub set_role : Uuid → Role → Users → Option Users
set_role user_id role s = elim (lookup user_id s) [
  | none ↦ none
  | some r ↦ some (insert user_id (record r { user = record (r.user) { role = role } }) s)
]
