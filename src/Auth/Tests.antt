-- ===== src/Auth/Tests.antt =====
-- The theorems about authentication at concrete inputs, and runs of the handlers.
mod Concrete
use Concrete.{externals, externals-RoundTrips}
use bmstu_nirs.Common.{
  nat_key, text_key, ℕ_discrete, text_discrete, String, [], arith, false, if◌then◌else◌, leb,
  ne_of_==, none, refl, some, true, ℕ, ◌+◌, ◌∷◌, ◌≡◌, ◌≢◌,
}
use bmstu_nirs.Auth.Models.{
  AccessClaims, RefreshSession, Time, User, err, ok, seconds, too_many_attempts, unauthorized,
  user_role,
}
use bmstu_nirs.Auth.Tokens.{decode_access, decode_access-encode_access, encode_access}
use bmstu_nirs.Auth.Limiter
use bmstu_nirs.Auth.Limiter.Window.{Event, admitted, admitted-window, count}
use bmstu_nirs.Auth.Blacklist
use bmstu_nirs.Auth.Users
use bmstu_nirs.Auth.Sessions
use bmstu_nirs.Auth.Sessions.Rotation.{
  IsSingle, Reach-IsSingle, created, family_revoked, here, next, rotate_once, rotated,
}
use bmstu_nirs.Auth.Service.Monad.{Stores}
use bmstu_nirs.Auth.Service.{
  Config, Fresh, authenticate, check_blocked, count_failure, failure_key, issue, login, new_session,
  resolve, revoke_family,
}
use bmstu_nirs.Auth.Service.Access.{
  IsFamilyDead, authenticate-IsFamilyDead, login-authenticate, revoke_family-IsFamilyDead,
}
use bmstu_nirs.Auth.Service.Login.{Attempt, login-lockout, run_attempts}
use bmstu_nirs.Auth.Service.Refresh.{refresh, renew, renew-raced}
use bmstu_nirs.Auth.Service.Password.{
  IsChanged, change_password, change_password-ok, change_verified, hashed, is_right,
  replace_password,
}
use bmstu_nirs.Auth.Service.Logout.{logout, logout-access}

-- A declaration that unfolds this one runs the handlers.
program : Unit {0}
unfolding externals ℕ_discrete text_discrete Limiter.hit Limiter.blocked Limiter.record_failure
    Limiter.reset Blacklist.add Blacklist.jti_revoked Blacklist.family_revoked
    Blacklist.revoke_family Users.create Users.get_by_login Users.get_by_id Users.get_password_hash
    Users.set_password_hash Sessions.create Sessions.get_by_token_hash Sessions.rotate
    Sessions.revoke_family Sessions.revoke_user_sessions decode_access encode_access login refresh
    change_password change_verified replace_password logout failure_key authenticate check_blocked
    resolve count_failure new_session issue
program = tt

abbrev config : Config
config = record {
  access_ttl_seconds = 900;
  refresh_ttl_seconds = 1000;
  login_failures = 2;
  login_failure_window_seconds = 60;
  login_per_ip = 30;
  login_per_ip_window_seconds = 60;
  register_per_ip = 10;
  register_per_ip_window_seconds = 3600;
}

j-ne-empty : ◌≢◌ {A = String} "j" ""
unfolding program
j-ne-empty = ne_of_== "j" "" refl

abbrev alice : User
alice = record { id = 1; login = "alice"; role = user_role }

abbrev session : RefreshSession
session = record {
  id = 5;
  user_id = 1;
  family_id = 7;
  token_hash = "token";
  created_at = 0;
  expires_at = 1_000_000_000;
  revoked_at = none;
  replaced_by = none;
}

-- A session of another device.
abbrev other_session : RefreshSession
other_session = record session { id = 6; family_id = 8; token_hash = "other" }

abbrev stores : Stores
stores = record {
  users = (1, record { user = alice; password_hash = "secret" }) ∷ [];
  sessions = (5, session) ∷ (6, other_session) ∷ [];
  blacklist = record { expirations = []; family_expirations = [] };
  limiter = [];
}

abbrev fresh : Fresh
fresh = record { user_id = 2; family_id = 9; session_id = 10; jti = "j"; token = "new" }

-- The clock stands still during a call.
abbrev at : Time → ℕ → Time
at t i = t

abbrev renewed : RefreshSession
renewed = record session {
  id = 10;
  token_hash = "new";
  created_at = 3_000_000;
  expires_at = 1_003_000_000;
}

-- A session that another request has revoked since it was read.
renew-raced_example :
    let s = record stores { sessions = (5, record session { revoked_at = some 2 }) ∷ [] } in
    let (answer, s') = renew externals config (at 3_000_000) session alice fresh s in
    (answer ≡ err unauthorized) × IsFamilyDead externals config 7 (3_000_000 + seconds 900) s'
renew-raced_example =
    renew-raced externals config (at 3_000_000) session alice fresh
      (record stores { sessions = (5, record session { revoked_at = some 2 }) ∷ [] }) (ground arith)
      (ground arith) (omega arith)

authenticate-IsFamilyDead_example :
    let s = (revoke_family externals config (at 3_000_000) 7 3_000_000 1 stores).1 in
    (authenticate externals config
      (λ _. 5_000_000)
      (encode_access externals 900 1 user_role 5 7 "j" 2_500_000).0
      s).0
    ≡ err unauthorized
authenticate-IsFamilyDead_example =
    authenticate-IsFamilyDead externals config 7 3_000_000 2_500_000 5_000_000 1 5 user_role "j"
      (revoke_family externals config (at 3_000_000) 7 3_000_000 1 stores).1 externals-RoundTrips
      j-ne-empty (omega arith)
      (revoke_family-IsFamilyDead externals config (at 3_000_000) 7 3_000_000 1 stores
        (omega arith))

abbrev attempt : String → Time → Attempt externals config
attempt password t = record { password = password; fresh = fresh; clock = at t; others = λ s. s }

-- Two wrong passwords, then the right one, twice.
login-lockout_example :
    let first = attempt "guess" 1_000_000 in
    let second = attempt "again" 2_000_000 in
    let third = attempt "secret" 2_500_000 in
    let locked = run_attempts externals config "alice" "ip" (first ∷ second ∷ []) stores in
    let s' = run_attempts externals config "alice" "ip" (third ∷ []) locked in
    let (answer, s'') =
      login externals config (at 3_000_000) (λ s. s) "alice" "secret" "ip" fresh s' in
    ((r : ℕ) × (answer ≡ err (too_many_attempts "login_failures" r)))
    × (s''.sessions ≡ locked.sessions)
unfolding program
login-lockout_example =
    login-lockout externals config "alice" "ip" (attempt "guess" 1_000_000)
      (attempt "again" 2_000_000 ∷ []) (attempt "secret" 2_500_000 ∷ [])
      (attempt "secret" 3_000_000) stores (omega arith) (omega arith) tt refl (λ s. (refl, refl))
      ((refl, omega arith, omega arith, λ s. (refl, refl)), tt) (omega arith, tt) (omega arith)

login-authenticate_example :
    let (answer, s') =
      login externals config (at 1_000_000) (λ s. s) "alice" "secret" "ip" fresh stores in
    let session' = new_session externals config (at 1_000_000) 1 9 fresh 1_000_000 in
    authenticate externals config
      (λ _. 2_000_000)
      (issue externals config (at 1_000_000) alice session' fresh 1_000_000).tokens.access_token
      s'
    ≡ (ok alice, s')
unfolding program
login-authenticate_example =
    login-authenticate externals config (at 1_000_000) (λ s. s) "alice" "secret" "ip" fresh
      2_000_000 stores
      (login externals config (at 1_000_000) (λ s. s) "alice" "secret" "ip" fresh stores).1
      {result = issue externals config (at 1_000_000) alice
        (new_session externals config (at 1_000_000) 1 9 fresh 1_000_000) fresh 1_000_000}
      externals-RoundTrips j-ne-empty refl refl refl refl (omega arith)

abbrev claims : AccessClaims
claims = record {
  user_id = 1;
  role = user_role;
  jti = "j";
  session_id = 5;
  family_id = 7;
  issued_at = 1_000_000;
  expires_at = 901_000_000;
}

abbrev token : String
unfolding program
token = (encode_access externals 900 1 user_role 5 7 "j" 1_000_000).0

change_password-ok_example :
    let s' =
      (change_password externals config
        (at 2_000_000)
        (λ i s. s)
        token
        "secret"
        "better"
        stores).1 in
    (is_right externals config
        (at 2_000_000)
        (λ i s. s)
        (Users.get_password_hash 1 stores.users)
        "secret"
      ≡ true)
    × (◌≢◌ {A = String} "better" "secret")
    × IsChanged externals config
        (at 2_000_000)
        (λ i s. s)
        1
        7
        "better"
        (hashed externals config (at 2_000_000) (λ i s. s) claims stores)
        s'
unfolding program
change_password-ok_example =
    change_password-ok externals config (at 2_000_000) (λ i s. s) token "secret" "better" stores
      (change_password externals config (at 2_000_000) (λ i s. s) token "secret" "better" stores).1
      {claims = claims} (λ i. omega arith) refl refl

token-ne-empty : token ≢ ""
unfolding program
token-ne-empty = ne_of_== token "" refl

logout-access_example :
    let (answer, s') = logout externals config (at 2_000_000) (some token) (some "other") stores in
    (answer ≡ ok tt) × IsFamilyDead externals config 7 (2_000_000 + seconds 900) s'
unfolding program
logout-access_example =
    logout-access externals config (at 2_000_000) token (some "other") stores {claims = claims}
      (λ i. omega arith) token-ne-empty refl

decode_access-encode_access_example :
    let (t, c) = encode_access externals 900 1 user_role 5 7 "j" 1_000_000 in
    (decode_access externals t 901_000_000 true
      ≡ (if leb c.expires_at 901_000_000 then err unauthorized else ok c))
    × (decode_access externals t 901_000_000 false ≡ ok c)
decode_access-encode_access_example =
    decode_access-encode_access externals 900 1 5 7 user_role "j" 1_000_000 901_000_000
      externals-RoundTrips j-ne-empty

rotate_once_example :
    (Sessions.rotate 5 renewed 4_000_000 (Sessions.rotate 5 renewed 3_000_000 stores.sessions).1).0
    ≡ false
unfolding program
rotate_once_example =
    rotate_once 5 renewed renewed 3_000_000 4_000_000 stores.sessions
      (Sessions.rotate 5 renewed 3_000_000 stores.sessions).1 (omega arith) (omega arith) here refl

-- A login and a refresh.
Reach-IsSingle_example :
    IsSingle (Sessions.rotate 5 renewed 3_000_000 (Sessions.create session [])).1
unfolding program
Reach-IsSingle_example = Reach-IsSingle (
    next (next here (created session [] refl refl refl))
      (rotated 5 renewed session 3_000_000 (Sessions.create session []) refl refl refl refl))

abbrev hit_at : String → Time → Event
hit_at k t = record { key = k; t = t; t' = t; t'' = t }

admitted-window_example :
    admitted "a" 2 60
      (hit_at "a" 1_000_000
        ∷ hit_at "b" 2_000_000
        ∷ hit_at "a" 2_000_000
        ∷ hit_at "a" 3_000_000
        ∷ [])
      []
    ≡ 2
unfolding count program
admitted-window_example =
    admitted-window 2 60 (hit_at "a" 1_000_000)
      (hit_at "b" 2_000_000 ∷ hit_at "a" 2_000_000 ∷ hit_at "a" 3_000_000 ∷ []) [] tt (ground arith)
