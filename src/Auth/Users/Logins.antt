-- ===== src/Auth/Users/Logins.antt =====
-- Logins in the user store: no two users share one without regard to case.
use bmstu_nirs.Common.{
  text_key, nat_key, Bool, Option-cases, String, [], ap, arith, find, if◌then◌else◌, inl, inr,
  insert, lookup, lookup-insert, none, refl, some, values, ⊤, ◌==◌, ◌↔◌, ◌∷◌, ◌≡◌, ◌≢◌,
}
use bmstu_nirs.Auth.Models.{Role, Time, User, UserWithPassword, Uuid, err, login_taken, ok}
use bmstu_nirs.Auth.Users.{
  Users, create, get_by_login, get_password_hash, has_login, set_password_hash, set_role,
}

module _ (lower : String → String) where
  abbrev is_login : String → UserWithPassword → Bool
  is_login = has_login lower

  -- No two entries have logins that are equal in lower case.
  abbrev pub IsDistinct : Users → Type 0
  IsDistinct [] = ⊤
  IsDistinct ((k, r) ∷ s) = (find (is_login (lower r.user.login)) (values s) ≡ none) × IsDistinct s

  find-insert_other :
      (n : String) (k : Uuid) (r : UserWithPassword) (s : Users)
      → lower r.user.login ≢ n
      → find (is_login n) (values s) ≡ none
      → find (is_login n) (values (insert k r s)) ≡ none
  find-insert_other n k r [] other absent = ground arith
  find-insert_other n k r (e ∷ s) other absent = ground (arith, find-insert_other n k r s other)

  insert-IsDistinct :
      (k : Uuid) (r : UserWithPassword) (s : Users)
      → find (is_login (lower r.user.login)) (values s) ≡ none
      → IsDistinct s
      → IsDistinct (insert k r s)
  insert-IsDistinct k r [] absent h = (refl, tt)
  insert-IsDistinct k r (e ∷ s) absent h =
      ground (arith, insert-IsDistinct k r s, find-insert_other (lower (e.1).user.login) k r s)

  find-insert_self :
      (n : String) (k : Uuid) (r : UserWithPassword) (s : Users)
      → lower r.user.login ≡ n
      → find (is_login n) (values s) ≡ none
      → find (is_login n) (values (insert k r s)) ≡ some r
  find-insert_self n k r [] same absent = ground arith
  find-insert_self n k r (e ∷ s) same absent = ground (arith, find-insert_self n k r s same)

  -- An update that keeps the login of the entry that it replaces.
  find-update :
      (n : String) (k : Uuid) (old r : UserWithPassword) (s : Users)
      → lookup k s ≡ some old
      → r.user.login ≡ old.user.login
      → find (is_login n) (values s) ≡ none
      → find (is_login n) (values (insert k r s)) ≡ none
  find-update n k old r [] present same absent = cc
  find-update n k old r (e ∷ s) present same absent =
      ground (arith, ap lower same, find-update n k old r s)

  update-IsDistinct :
      (k : Uuid) (old r : UserWithPassword) (s : Users)
      → lookup k s ≡ some old
      → r.user.login ≡ old.user.login
      → IsDistinct s
      → IsDistinct (insert k r s)
  update-IsDistinct k old r [] present same h = cc
  update-IsDistinct k old r (e ∷ s) present same h = ground (
    arith,
    ap lower same,
    update-IsDistinct k old r s,
    find-update (lower (e.1).user.login) k old r s,
  )

  -- A registration is refused exactly when a user has the login in another case or the same, and
  -- then changes nothing; else the new user is found under every spelling of the login. No two
  -- users share a login afterwards, as before.
  pub create-login :
      (user_id : Uuid) (login login' password_hash : String) (role : Role) (t : Time) (s : Users)
      → IsDistinct s
      → lower login' ≡ lower login
      → let user : User = record { id = user_id; login = login; role = role } in
        let (answer, s') = create lower user_id login password_hash role t s in
        IsDistinct s'
        × ((answer ≡ err login_taken) ↔ (get_by_login lower login' s ≢ none))
        × ((answer ≡ err login_taken) → s' ≡ s)
        × ((answer ≢ err login_taken)
            → (answer ≡ ok user)
              × (get_by_login lower login' s'
                  ≡ some (record { user = user; password_hash = password_hash })))
  unfolding create get_by_login
  create-login user_id login login' password_hash role t s h same =
      let new : UserWithPassword = record {
        user = record { id = user_id; login = login; role = role };
        password_hash = password_hash;
      } in
      ground (arith, insert-IsDistinct user_id new s, find-insert_self (lower login') user_id new s)

  -- A change of a password or of a role keeps the logins distinct.
  pub update-login :
      (user_id : Uuid) (password_hash : String) (role : Role) (t : Time) (s : Users)
      → IsDistinct s
      → IsDistinct (set_password_hash user_id password_hash t s)
        × ((s' : Users) → set_role user_id role s ≡ some s' → IsDistinct s')
  unfolding set_password_hash set_role
  update-login user_id password_hash role t s h = elim (Option-cases (lookup user_id s)) [
    | inl missing ↦ (ground arith, λ s' e. ground arith)
    | inr (r, present) ↦
        let r' : UserWithPassword = record r { password_hash = password_hash } in
        let r'' : UserWithPassword = record r { user = record (r.user) { role = role } } in
        (
          ground (arith, update-IsDistinct user_id r r' s),
          λ s' e. ground (arith, update-IsDistinct user_id r r'' s),
        )
  ]

-- A new password hash is the one that is stored from then on, and no other user's changes.
pub get_password_hash-set_password_hash :
    (j id : Uuid) (hash : String) (t : Time) (s : Users)
    → get_password_hash id s ≢ none
    → get_password_hash j (set_password_hash id hash t s)
      ≡ (if j == id then some hash else get_password_hash j s)
unfolding get_password_hash set_password_hash
get_password_hash-set_password_hash j id hash t s known = elim (Option-cases (lookup id s)) [
  | inl missing ↦ absurd (known (ground arith))
  | inr (r, present) ↦ ground (arith, lookup-insert j id (record r { password_hash = hash }) s)
]
