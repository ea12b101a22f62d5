-- ===== src/Auth/Models.antt =====
-- backend/src/smeshariki_ai/auth/models.py. A UUID is only compared, so it is a number. A time
-- is the number of microseconds since the epoch.
use bmstu_nirs.Common.{Option, String, ℕ, ◌*◌}

abbrev pub Uuid : Type 0
Uuid = ℕ

abbrev pub Time : Type 0
Time = ℕ

-- `timedelta(seconds=n)`
abbrev pub seconds : ℕ → ℕ
seconds n = n * 1_000_000

pub data Role : Type 0 where
  user_role admin_role : Role

pub record User : Type 0 where
  pub id : Uuid
  pub login : String
  pub role : Role

pub record UserWithPassword : Type 0 where
  pub user : User
  pub password_hash : String

-- The bytes of a token's hash are only compared.
pub record RefreshSession : Type 0 where
  pub id : Uuid
  pub user_id : Uuid
  pub family_id : Uuid
  pub token_hash : String
  pub created_at : Time
  pub expires_at : Time
  pub revoked_at : Option Time
  pub replaced_by : Option Uuid

pub record AccessClaims : Type 0 where
  pub user_id : Uuid
  pub role : Role
  pub jti : String
  pub session_id : Uuid
  pub family_id : Uuid
  pub issued_at : Time
  pub expires_at : Time

pub record IssuedTokens : Type 0 where
  pub access_token : String
  pub access_expires_at : Time
  pub refresh_token : String
  pub refresh_expires_at : Time

pub record AuthResult : Type 0 where
  pub user : User
  pub tokens : IssuedTokens

-- The subclasses of `AuthError`.
pub data AuthError : Type 0 where
  login_taken invalid_credentials wrong_password same_password : AuthError
  unauthorized unavailable : AuthError
  too_many_attempts : String → ℕ → AuthError

pub data Result {ℓ} (A : Type ℓ) : Type ℓ where
  ok : A → Result A
  err : AuthError → Result A
