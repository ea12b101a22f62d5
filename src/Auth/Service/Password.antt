-- ===== src/Auth/Service/Password.antt =====
-- `change_password` of the authentication service.
use bmstu_nirs.Common.{
  nat_key, text_key, Bool, List, Option, String, [], any, ap, arith, false, if◌then◌else◌, lookup,
  lookup-insert, none, refl, some, subst, sym, true, ℕ, ℕ_discrete, ⊤, ◌+◌, ◌<◌, ◌==◌, ◌∙◌, ◌∷◌,
  ◌≡◌, ◌≢◌, ◌⊎◌,
}
use bmstu_nirs.Auth.Models.{
  AccessClaims, RefreshSession, Time, Uuid, ok, same_password, seconds, unauthorized,
  wrong_password,
}
use bmstu_nirs.Auth.Tokens.{Externals, decode_access}
use bmstu_nirs.Auth.Limiter
use bmstu_nirs.Auth.Limiter.{Limiter}
use bmstu_nirs.Auth.Blacklist
use bmstu_nirs.Auth.Users
use bmstu_nirs.Auth.Sessions
use bmstu_nirs.Auth.Sessions.Revocation.{
  loses_session, revoke_user_sessions-families, revoke_user_sessions_kept,
  revoke_user_sessions_others,
}
use bmstu_nirs.Auth.Sessions.{is_active, is_other}
use bmstu_nirs.Auth.Blacklist.{Blacklist}
use bmstu_nirs.Auth.Service.Monad.{
  Action, Stores, await, gets, lift, on_blacklist, on_limiter, on_users, or_raise, pure, raise,
  raise_if, with_sessions, ◌>>=◌, ◌>>◌,
}
use bmstu_nirs.Auth.Service.{Config, check_blocked, count_failure, resolve}
use Prim.Native.String.{◌++◌}

-- The password is verified, and the new one is hashed, in a thread: what other handlers do during the
-- two is an argument.
module _ (x : Externals) (config : Config) (clock : ℕ → Time) (others : ℕ → Stores → Stores) where
  -- The loop over the families; each turn reads the clock once.
  unfoldable pub blacklist_families : List Uuid → Time → ℕ → Action ⊤
  blacklist_families [] until i = pure tt
  blacklist_families (f ∷ fs) until i =
      on_blacklist (Blacklist.revoke_family f until (clock i))
      >> blacklist_families fs until (i + 1)

  -- The end of `change_password`, once the current password is verified.
  unfoldable pub replace_password : AccessClaims → String → Action ⊤
  unfolding blacklist_families
  replace_password claims new_password = do
    let now = clock 0
    await (others 1)
    on_users (Users.set_password_hash claims.user_id (x.hash new_password) now)
    families ← with_sessions (Sessions.revoke_user_sessions claims.user_id claims.family_id now)
    blacklist_families families (now + seconds config.access_ttl_seconds) 5

  -- `change_password` behind the decoding of the token.
  unfoldable pub change_verified : AccessClaims → String → String → Action ⊤
  change_verified claims current_password new_password = do
    resolve x config clock claims
    let key = "password-fail:" ++ x.show_uuid claims.user_id
    check_blocked x config (λ i. clock (i + 3)) "password_failures" key
    stored ← gets (λ s. Users.get_password_hash claims.user_id s.users)
    password_hash ← or_raise stored unauthorized
    await (others 0)
    if x.verify password_hash current_password
        then (do
          on_limiter (Limiter.reset key)
          raise_if (new_password == current_password) same_password
          replace_password claims new_password)
        else (count_failure x config (λ i. clock (i + 3)) key >> raise wrong_password)

  unfoldable pub change_password : String → String → String → Action ⊤
  change_password access_token current_password new_password = do
    claims ← lift (decode_access x access_token (clock 0) true)
    change_verified claims current_password new_password

  blacklist_families-state :
      (fs : List Uuid) (until : Time) (i : ℕ) (s : Stores)
      → let (answer, s') = blacklist_families fs until i s in
        (answer ≡ ok tt) × (s'.users ≡ s.users) × (s'.sessions ≡ s.sessions)
  unfolding blacklist_families
  blacklist_families-state [] until i s = (refl, refl, refl)
  blacklist_families-state (f ∷ fs) until i s =
      blacklist_families-state fs until (i + 1)
        (record s { blacklist = Blacklist.revoke_family f until (clock i) s.blacklist })

  blacklist_families-kept :
      (fs : List Uuid) (until : Time) (i : ℕ) (f : Uuid) (s : Stores)
      → lookup f s.blacklist.family_expirations ≡ some until
      → lookup f (blacklist_families fs until i s).1.blacklist.family_expirations ≡ some until
  unfolding blacklist_families Blacklist.revoke_family
  blacklist_families-kept [] until i f s h = h
  blacklist_families-kept (g ∷ fs) until i f s h =
      blacklist_families-kept fs until (i + 1) f
        (record s { blacklist = Blacklist.revoke_family g until (clock i) s.blacklist })
        (ground (arith, lookup-insert f g until s.blacklist.family_expirations))

  blacklist_families-revoked :
      (fs : List Uuid) (until : Time) (i : ℕ) (f : Uuid) (s : Stores)
      → ((j : ℕ) → clock j < until)
      → any (λ g. g == f) fs ≡ true
      → lookup f (blacklist_families fs until i s).1.blacklist.family_expirations ≡ some until
  unfolding blacklist_families Blacklist.revoke_family
  blacklist_families-revoked [] until i f s later there = cc
  blacklist_families-revoked (g ∷ fs) until i f s later there =
      let s' = record s { blacklist = Blacklist.revoke_family g until (clock i) s.blacklist } in
      elim (ℕ_discrete g f) [
        | yes same ↦
            blacklist_families-kept fs until (i + 1) f s'
              (ground (arith, later i, lookup-insert f g until s.blacklist.family_expirations))
        | no other ↦ blacklist_families-revoked fs until (i + 1) f s' later (ground arith)
      ]

  -- What a change of password leaves behind.
  pub record IsChanged (user keep_family : Uuid) (new_password : String) (s s' : Stores)
      : Type 0 where
    pub password :
        Users.get_password_hash user s.users ≢ none
        → Users.get_password_hash user s'.users ≡ some (x.hash new_password)
    pub others_out :
        (j : Uuid) (r : RefreshSession)
        → lookup j s'.sessions ≡ some r
        → r.user_id ≡ user
        → r.family_id ≢ keep_family
        → is_active r ≡ false
    pub kept :
        (j : Uuid) (r : RefreshSession)
        → lookup j s.sessions ≡ some r
        → (r.family_id ≡ keep_family) ⊎ (r.user_id ≢ user)
        → lookup j s'.sessions ≡ some r
    pub blacklisted :
        (f : Uuid)
        → loses_session user keep_family f s.sessions ≡ true
        → lookup f s'.blacklist.family_expirations
          ≡ some (clock 0 + seconds config.access_ttl_seconds)
    pub refused :
        (f : Uuid) (t : Time)
        → loses_session user keep_family f s.sessions ≡ true
        → t < clock 0 + seconds config.access_ttl_seconds
        → Blacklist.family_revoked f t s'.blacklist ≡ true

  family_revoked-before :
      (f : Uuid) (until t : Time) (b : Blacklist)
      → lookup f b.family_expirations ≡ some until
      → t < until
      → Blacklist.family_revoked f t b ≡ true
  unfolding Blacklist.family_revoked
  family_revoked-before f until t b present early = ground arith

  replace_password-IsChanged :
      (claims : AccessClaims) (new_password : String) (s : Stores)
      → ((i : ℕ) → clock i < clock 0 + seconds config.access_ttl_seconds)
      → let (answer, s') = replace_password claims new_password s in
        (answer ≡ ok tt) × IsChanged claims.user_id claims.family_id new_password (others 1 s) s'
  unfolding replace_password
  replace_password-IsChanged claims new_password s later =
      let user = claims.user_id in
      let until = clock 0 + seconds config.access_ttl_seconds in
      let t = others 1 s in
      let users = Users.set_password_hash user (x.hash new_password) (clock 0) t.users in
      let (families, sessions) =
        Sessions.revoke_user_sessions user claims.family_id (clock 0) t.sessions in
      let s1 = record t { users = users; sessions = sessions } in
      let (done, same_users, same_sessions) = blacklist_families-state families until 5 s1 in
      let blacklisted =
        λ (f : Uuid) (lost : loses_session user claims.family_id f t.sessions ≡ true).
          blacklist_families-revoked families until 5 f s1 later
            (revoke_user_sessions-families user claims.family_id f (clock 0) t.sessions ∙ lost) in
      (
        done,
        record {
          password = λ known.
              ap (Users.get_password_hash user) same_users
              ∙ Users.Logins.get_password_hash-set_password_hash user user (x.hash new_password)
                  (clock 0) t.users known
              ∙ ground arith;
          others_out = λ j r e.
              revoke_user_sessions_others user claims.family_id (clock 0) j r t.sessions
                (ap (lookup j) (sym same_sessions) ∙ e);
          kept = λ j r e h.
              ap (lookup j) same_sessions
              ∙ revoke_user_sessions_kept user claims.family_id (clock 0) j r t.sessions e h;
          blacklisted = blacklisted;
          refused =
              λ f time lost early. family_revoked-before f until time _ (blacklisted f lost) early;
        },
      )

  -- The password is that of a stored hash.
  abbrev pub is_right : Option String → String → Bool
  is_right none password = false
  is_right (some h) password = x.verify h password

  -- The stores once the current password is verified, and once the new one is hashed.
  abbrev pub verified : AccessClaims → Stores → Stores
  verified claims s =
      let key = "password-fail:" ++ x.show_uuid claims.user_id in
      let limiter = (Limiter.blocked key config.login_failures (clock 3) (clock 4) s.limiter).1 in
      let t = others 0 (record s { limiter = limiter }) in
      record t { limiter = Limiter.reset key t.limiter }

  abbrev pub hashed : AccessClaims → Stores → Stores
  hashed claims s = others 1 (verified claims s)

  blacklist_families-ok :
      (fs : List Uuid) (until : Time) (i : ℕ) (s : Stores)
      → (blacklist_families fs until i s).0 ≡ ok tt
  blacklist_families-ok fs until i s = (blacklist_families-state fs until i s).0

  replace_password-ok :
      (claims : AccessClaims) (new : String) (s : Stores)
      → (replace_password claims new s).0 ≡ ok tt
  unfolding replace_password
  replace_password-ok claims new s = rw blacklist_families-ok

  change_verified-ok :
      (claims : AccessClaims) (current new : String) (s s' : Stores)
      → change_verified claims current new s ≡ (ok tt, s')
      → (is_right (Users.get_password_hash claims.user_id s.users) current ≡ true)
        × (new ≢ current)
        × (replace_password claims new (verified claims s) ≡ (ok tt, s'))
  unfolding change_verified resolve check_blocked count_failure
  change_verified-ok claims current new s s' e = ground arith

  change_password-decoded :
      (token current new : String) (s : Stores) {claims : AccessClaims}
      → decode_access x token (clock 0) true ≡ ok claims
      → change_password token current new s ≡ change_verified claims current new s
  unfolding change_password
  change_password-decoded token current new s decoded = ground arith

  -- A change of password that succeeds, whatever other handlers do while the passwords are verified
  -- and hashed, and if it takes less than `access_ttl_seconds`: the current password was right and the
  -- new one differs. Of the stores at the end of the hashing, the user, if still there, has the new
  -- password, the user's sessions outside the token's own family are revoked, all other sessions
  -- stay, and each family that lost a session is blacklisted until `access_ttl_seconds` after the
  -- call began: its access tokens are refused until then.
  pub change_password-ok :
      (token current new : String) (s s' : Stores) {claims : AccessClaims}
      → ((i : ℕ) → clock i < clock 0 + seconds config.access_ttl_seconds)
      → decode_access x token (clock 0) true ≡ ok claims
      → change_password token current new s ≡ (ok tt, s')
      → (is_right (Users.get_password_hash claims.user_id s.users) current ≡ true)
        × (new ≢ current)
        × IsChanged claims.user_id claims.family_id new (hashed claims s) s'
  change_password-ok token current new s s' {claims} later decoded e =
      let (right, differs, replaced) =
        change_verified-ok claims current new s s'
          (sym (change_password-decoded token current new s decoded) ∙ e) in
      let changed = (replace_password-IsChanged claims new (verified claims s) later).1 in
      (
        right,
        differs,
        subst (λ p. IsChanged claims.user_id claims.family_id new (hashed claims s) p.1) replaced
            changed,
      )
