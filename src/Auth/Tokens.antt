-- ===== src/Auth/Tokens.antt =====
-- `TokenCodec` of backend/src/smeshariki_ai/auth/tokens.py, and the functions of other packages
-- that the authentication service calls.
use bmstu_nirs.Common.{
  text_key, ==_ne, Bool, Option, String, arith, false, if◌then◌else◌, leb, none, refl, some,
  text_discrete, true, ℕ, ◌&&◌, ◌+◌, ◌/◌, ◌==◌, ◌∙◌, ◌≡◌, ◌≢◌,
}
use bmstu_nirs.Auth.Models.{
  AccessClaims, Result, Role, Time, Uuid, admin_role, err, ok, seconds, unauthorized, user_role,
}

-- The claims as a JWT carries them. A claim of another type than these is refused as a token
-- that does not decode is.
pub record Payload : Type 0 where
  pub sub : String
  pub role : String
  pub jti : String
  pub sid : String
  pub fid : String
  pub iat : ℕ
  pub exp : ℕ

-- What other packages compute: `str.lower`, SHA-256 of a login (in hexadecimal) and of a refresh
-- token, Argon2 with the salt of the call, `str` of a UUID and `UUID` of a text, and PyJWT with
-- the configured secret and issuer. `jwt_decode` answers `none` where PyJWT raises.
pub record Externals : Type 0 where
  pub lower : String → String
  pub sha256_hex : String → String
  pub hash_token : String → String
  pub hash : String → String
  pub verify : String → String → Bool
  pub show_uuid : Uuid → String
  pub read_uuid : String → Option Uuid
  pub jwt_encode : Payload → String
  pub jwt_decode : String → Option Payload

-- A token that was encoded decodes to its payload, and so does a UUID's text to the UUID.
pub record RoundTrips (x : Externals) : Type 0 where
  pub jwt : (p : Payload) → x.jwt_decode (x.jwt_encode p) ≡ some p
  pub uuid : (u : Uuid) → x.read_uuid (x.show_uuid u) ≡ some u

infixl 5 ◌>>=◌
abbrev ◌>>=◌ : {A B : Type 0} → Option A → (A → Option B) → Option B
none >>= f = none
some a >>= f = f a

abbrev role_value : Role → String
role_value user_role = "user"
role_value admin_role = "admin"

-- `Role(value)`
abbrev read_role : String → Option Role
read_role s = if s == "user" then some user_role else if s == "admin" then some admin_role else none

abbrev non_empty : String → Option String
non_empty s = if s == "" then none else some s

-- `now.replace(microsecond=0)`
abbrev whole_second : Time → Time
whole_second now = seconds (now / 1_000_000)

module _ (x : Externals) where
  -- The `AccessClaims` built from the decoded payload, or `none` where that raises.
  unfoldable pub claims_of : Payload → Option AccessClaims
  claims_of p = do
    user_id ← x.read_uuid p.sub
    role ← read_role p.role
    jti ← non_empty p.jti
    session_id ← x.read_uuid p.sid
    family_id ← x.read_uuid p.fid
    some (record {
      user_id = user_id;
      role = role;
      jti = jti;
      session_id = session_id;
      family_id = family_id;
      issued_at = seconds p.iat;
      expires_at = seconds p.exp;
    })

  unfoldable pub decode_access : String → Time → Bool → Result AccessClaims
  unfolding claims_of
  decode_access token now verify_expiry = elim (x.jwt_decode token >>= claims_of) [
    | none ↦ err unauthorized
    | some claims ↦
        if verify_expiry && leb claims.expires_at now then err unauthorized else ok claims
  ]

  abbrev payload_of : AccessClaims → Payload
  payload_of claims = record {
    sub = x.show_uuid claims.user_id;
    role = role_value claims.role;
    jti = claims.jti;
    sid = x.show_uuid claims.session_id;
    fid = x.show_uuid claims.family_id;
    iat = claims.issued_at / 1_000_000;
    exp = claims.expires_at / 1_000_000;
  }

  -- `jti` is the hexadecimal form of a new UUID.
  unfoldable pub encode_access :
      ℕ → Uuid → Role → Uuid → Uuid → String → Time → String × AccessClaims
  encode_access access_ttl user_id role session_id family_id jti now =
      let claims : AccessClaims = record {
        user_id = user_id;
        role = role;
        jti = jti;
        session_id = session_id;
        family_id = family_id;
        issued_at = whole_second now;
        expires_at = whole_second now + seconds access_ttl;
      } in
      (x.jwt_encode (payload_of claims), claims)

  read_role-value : (r : Role) → read_role (role_value r) ≡ some r
  unfolding text_discrete
  read_role-value user_role = refl
  read_role-value admin_role = refl

  claims_of_lem :
      (p : Payload) {u s f : Uuid} {r : Role}
      → x.read_uuid p.sub ≡ some u
      → read_role p.role ≡ some r
      → p.jti ≢ ""
      → x.read_uuid p.sid ≡ some s
      → x.read_uuid p.fid ≡ some f
      → claims_of p
        ≡ some (record {
          user_id = u;
          role = r;
          jti = p.jti;
          session_id = s;
          family_id = f;
          issued_at = seconds p.iat;
          expires_at = seconds p.exp;
        })
  unfolding claims_of
  claims_of_lem p sub role jti sid fid = simp (sub, role, ==_ne p.jti "" jti, sid, fid)

  decode_access_lem :
      (token : String) (t : Time) (verify_expiry : Bool) {p : Payload} {c : AccessClaims}
      → x.jwt_decode token ≡ some p
      → claims_of p ≡ some c
      → decode_access token t verify_expiry
        ≡ (if verify_expiry && leb c.expires_at t then err unauthorized else ok c)
  unfolding decode_access
  decode_access_lem token t verify_expiry decoded claims = ground arith

  -- A token that was issued decodes to the claims it was issued with until it expires, and is
  -- refused from then on; with the expiry left unchecked it decodes at every time.
  pub decode_access-encode_access :
      (access_ttl : ℕ) (u s f : Uuid) (role : Role) (jti : String) (now t : Time)
      → RoundTrips x
      → jti ≢ ""
      → let (token, claims) = encode_access access_ttl u role s f jti now in
        (decode_access token t true
          ≡ (if leb claims.expires_at t then err unauthorized else ok claims))
        × (decode_access token t false ≡ ok claims)
  unfolding encode_access
  decode_access-encode_access access_ttl u s f role jti now t laws non_empty_jti =
      let whole : whole_second now / 1_000_000 ≡ now / 1_000_000 = omega arith in
      let end : (whole_second now + seconds access_ttl) / 1_000_000 ≡ now / 1_000_000 + access_ttl =
        omega arith in
      let end' : seconds (now / 1_000_000 + access_ttl) ≡ whole_second now + seconds access_ttl =
        omega arith in
      let claims = (encode_access access_ttl u role s f jti now).1 in
      let read : claims_of (payload_of claims) ≡ some claims =
        claims_of_lem (payload_of claims) (laws.uuid u) (read_role-value role) non_empty_jti
          (laws.uuid s) (laws.uuid f)
        ∙ ground arith in
      let token = (encode_access access_ttl u role s f jti now).0 in
      (
        decode_access_lem token t true (laws.jwt (payload_of claims)) read,
        decode_access_lem token t false (laws.jwt (payload_of claims)) read,
      )
