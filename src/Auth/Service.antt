-- ===== src/Auth/Service.antt =====
-- `AuthService` of backend/src/smeshariki_ai/auth/service.py, over the in-process stores. What
-- other handlers do while one awaits the verification or the hash of a password, in a thread, is an
-- argument; elsewhere a handler runs without another between its steps. Logging is left out. `clock i`
-- is the reading of the clock at the i-th place of a handler's text, counted through the stores it
-- calls.
pub mod Monad
pub mod Login
pub mod Refresh
pub mod Access
pub mod Password
pub mod Logout
use Prim.Native.String.{◌++◌}
use Monad.{
  Action, pure, raise, gets, or_raise, lift, ◌>>=◌, ◌>>◌, raise_if, with_limiter, with_sessions,
  on_limiter, on_sessions, on_blacklist, on_users, await, Stores,
}
use bmstu_nirs.Common.{
  ℕ, zero, suc, ◌+◌, String, Bool, true, false, not, Option, none, some, List, [], ◌∷◌, ◌==◌,
  text_key, ⊤, if◌then◌else◌, leb, ltb,
}
use bmstu_nirs.Auth.Models.{
  AccessClaims, AuthResult, RefreshSession, Time, User, Uuid, invalid_credentials, seconds,
  too_many_attempts, unauthorized, user_role,
}
use bmstu_nirs.Auth.Tokens.{Externals, decode_access, encode_access}
use bmstu_nirs.Auth.Limiter
use bmstu_nirs.Auth.Blacklist
use bmstu_nirs.Auth.Users
use bmstu_nirs.Auth.Sessions
use bmstu_nirs.Auth.Sessions.{add_family}

-- The settings of `AuthConfig` and `RateLimitConfig` that the service reads.
pub record Config : Type 0 where
  pub access_ttl_seconds : ℕ
  pub refresh_ttl_seconds : ℕ
  pub login_failures : ℕ
  pub login_failure_window_seconds : ℕ
  pub login_per_ip : ℕ
  pub login_per_ip_window_seconds : ℕ
  pub register_per_ip : ℕ
  pub register_per_ip_window_seconds : ℕ

-- What a call draws at random: identifiers by `uuid4`, and a refresh token.
pub record Fresh : Type 0 where
  pub user_id : Uuid
  pub family_id : Uuid
  pub session_id : Uuid
  pub jti : String
  pub token : String

-- The key under which failures of a login from an address are counted.
unfoldable pub failure_key : Externals → String → String → String
failure_key x login_name client_ip =
    "login-fail:" ++ x.sha256_hex (x.lower login_name) ++ ":" ++ client_ip

module _ (x : Externals) (config : Config) (clock : ℕ → Time) where
  -- `_hit`
  unfoldable pub limit_hit : String → String → ℕ → ℕ → Action ⊤
  limit_hit limit key maximum window = do
    retry ← with_limiter (Limiter.hit key maximum window (clock 0) (clock 1) (clock 2))
    elim retry [ none ↦ pure tt | some seconds ↦ raise (too_many_attempts limit seconds) ]

  unfoldable pub limit_register_ip : String → Action ⊤
  unfolding limit_hit
  limit_register_ip client_ip =
      limit_hit "register_ip" ("register-ip:" ++ client_ip) config.register_per_ip
        config.register_per_ip_window_seconds

  unfoldable pub limit_login_ip : String → Action ⊤
  unfolding limit_hit
  limit_login_ip client_ip =
      limit_hit "login_ip" ("login-ip:" ++ client_ip) config.login_per_ip
        config.login_per_ip_window_seconds

  -- `register`, with `create_user` of users.py
  unfoldable pub register : String → String → Fresh → Action User
  register login password fresh s =
      let (r, users) =
        Users.create x.lower fresh.user_id login (x.hash password) user_role (clock 0) s.users in
      (r, record s { users = users })

  -- `blocked`, and the error that its answer raises
  unfoldable pub check_blocked : String → String → Action ⊤
  check_blocked limit key = do
    retry ← with_limiter (Limiter.blocked key config.login_failures (clock 0) (clock 1))
    elim retry [ none ↦ pure tt | some seconds ↦ raise (too_many_attempts limit seconds) ]

  unfoldable pub count_failure : String → Action ⊤
  count_failure key =
      on_limiter
        (Limiter.record_failure key config.login_failure_window_seconds (clock 2) (clock 3))

  unfoldable pub new_session : Uuid → Uuid → Fresh → Time → RefreshSession
  new_session user_id family_id fresh now = record {
    id = fresh.session_id;
    user_id = user_id;
    family_id = family_id;
    token_hash = x.hash_token fresh.token;
    created_at = now;
    expires_at = now + seconds config.refresh_ttl_seconds;
    revoked_at = none;
    replaced_by = none;
  }

  unfoldable pub issue : User → RefreshSession → Fresh → Time → AuthResult
  issue user session fresh now =
      let (access_token, claims) =
        encode_access x config.access_ttl_seconds user.id user.role session.id session.family_id
          fresh.jti now in
      record {
        user = user;
        tokens = record {
          access_token = access_token;
          access_expires_at = claims.expires_at;
          refresh_token = fresh.token;
          refresh_expires_at = session.expires_at;
        };
      }

  -- The end of `login`, once the password is verified.
  unfoldable pub open_session : String → User → Fresh → Action AuthResult
  unfolding new_session issue
  open_session key user fresh = do
    on_limiter (Limiter.reset key)
    let session = new_session user.id fresh.family_id fresh (clock 4)
    on_sessions (Sessions.create session)
    pure (issue user session fresh (clock 4))

  -- The password of an unknown login is verified too, against a hash that is not used further. The
  -- first argument is what other handlers do meanwhile.
  unfoldable pub login : (Stores → Stores) → String → String → String → Fresh → Action AuthResult
  unfolding check_blocked count_failure open_session failure_key
  login others login_name password client_ip fresh = do
    let key = failure_key x login_name client_ip
    check_blocked "login_failures" key
    found ← gets (λ s. Users.get_by_login x.lower login_name s.users)
    await others
    elim found [
      | none ↦ count_failure key >> raise invalid_credentials
      | some r ↦
          if x.verify r.password_hash password
          then open_session key r.user fresh
          else count_failure key >> raise invalid_credentials
    ]

  -- `_resolve`
  unfoldable pub resolve : AccessClaims → Action User
  resolve claims = do
    jti_revoked ← gets (λ s. Blacklist.jti_revoked claims.jti (clock 1) s.blacklist)
    raise_if jti_revoked unauthorized
    family_revoked ← gets (λ s. Blacklist.family_revoked claims.family_id (clock 2) s.blacklist)
    raise_if family_revoked unauthorized
    user ← gets (λ s. Users.get_by_id claims.user_id s.users)
    or_raise user unauthorized

  unfoldable pub authenticate : String → Action User
  unfolding resolve
  authenticate access_token = do
    claims ← lift (decode_access x access_token (clock 0) true)
    resolve claims

  unfoldable pub verify_session : String → Action User
  unfolding resolve
  verify_session access_token = do
    claims ← lift (decode_access x access_token (clock 0) false)
    resolve claims

  -- `_revoke_family`; the blacklist reads the clock at place `i`.
  unfoldable pub revoke_family : Uuid → Time → ℕ → Action ⊤
  revoke_family family_id now i = do
    on_sessions (Sessions.revoke_family family_id now)
    on_blacklist
        (Blacklist.revoke_family family_id (now + seconds config.access_ttl_seconds) (clock i))

  -- `_reject_reuse`
  unfoldable pub reject_reuse : {A : Type 0} → RefreshSession → Time → Action A
  unfolding revoke_family
  reject_reuse session now = revoke_family session.family_id now 1 >> raise unauthorized
