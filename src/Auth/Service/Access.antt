-- ===== src/Auth/Service/Access.antt =====
-- `authenticate`: a token that `login` issued is accepted, and tokens of a revoked family are not.
use bmstu_nirs.Common.{
  nat_key, text_key, String, ap, arith, false, if◌then◌else◌, leb, lookup, lookup-insert_self,
  ltb-leb, refl, some, true, ℕ, ◌+◌, ◌<◌, ◌∙◌, ◌≡◌, ◌≢◌, ◌≤◌,
}
use bmstu_nirs.Auth.Models.{
  AccessClaims, AuthResult, Result, Role, Time, User, Uuid, err, ok, seconds, unauthorized,
}
use bmstu_nirs.Auth.Tokens.{
  Externals, RoundTrips, decode_access, decode_access-encode_access, encode_access,
}
use bmstu_nirs.Auth.Blacklist
use bmstu_nirs.Auth.Users
use bmstu_nirs.Auth.Sessions
use bmstu_nirs.Auth.Sessions.Revocation.{IsDead, revoke_family-IsDead}
use bmstu_nirs.Auth.Service.Monad.{Stores}
use bmstu_nirs.Auth.Service.{
  Config, Fresh, authenticate, failure_key, issue, login, new_session, open_session, revoke_family,
}
use bmstu_nirs.Auth.Limiter

module _ (x : Externals) (config : Config) where
  open_session-ok :
      (clock : ℕ → Time) (key : String) (user : User) (fresh : Fresh) (s : Stores)
      → let session = new_session x config clock user.id fresh.family_id fresh (clock 4) in
        let (answer, s') = open_session x config clock key user fresh s in
        (answer ≡ ok (issue x config clock user session fresh (clock 4)))
        × (s'.users ≡ s.users)
        × (s'.blacklist ≡ s.blacklist)
        × (s'.sessions ≡ Sessions.create session s.sessions)
  unfolding open_session
  open_session-ok clock key user fresh s = (ground arith, refl, refl, refl)

  -- What a login that succeeded did.
  pub login-ok :
      (clock : ℕ → Time) (others : Stores → Stores) (name password client_ip : String)
      (fresh : Fresh) (s s' : Stores) {result : AuthResult}
      → login x config clock others name password client_ip fresh s ≡ (ok result, s')
      → let session = new_session x config clock result.user.id fresh.family_id fresh (clock 4) in
        (result ≡ issue x config clock result.user session fresh (clock 4))
        × ((t : Stores) × (s'.users ≡ t.users)
            × (s'.blacklist ≡ t.blacklist)
            × (s'.sessions ≡ Sessions.create session t.sessions))
  unfolding login
  login-ok clock others name password client_ip fresh s s' e =
      let key = failure_key x name client_ip in
      let limiter = (Limiter.blocked key config.login_failures (clock 0) (clock 1) s.limiter).1 in
      let t = others (record s { limiter = limiter }) in
      (ground arith, (t, ground arith, ground arith, ground arith))

  authenticate-ok :
      (clock : ℕ → Time) (token : String) (s : Stores) {c : AccessClaims} {user : User}
      → decode_access x token (clock 0) true ≡ ok c
      → Blacklist.jti_revoked c.jti (clock 1) s.blacklist ≡ false
      → Blacklist.family_revoked c.family_id (clock 2) s.blacklist ≡ false
      → Users.get_by_id c.user_id s.users ≡ some user
      → authenticate x config clock token s ≡ (ok user, s)
  unfolding authenticate
  authenticate-ok clock token s decoded jti family found = ground arith

  -- Whatever other handlers do while the password is verified, the access token of a login is
  -- accepted in the stores that it leaves, as that of the user who logged in, if that user is there,
  -- until it expires or is revoked.
  pub login-authenticate :
      (clock : ℕ → Time) (others : Stores → Stores) (name password client_ip : String)
      (fresh : Fresh) (t : Time) (s s' : Stores) {result : AuthResult}
      → RoundTrips x
      → fresh.jti ≢ ""
      → login x config clock others name password client_ip fresh s ≡ (ok result, s')
      → Users.get_by_id result.user.id s'.users ≡ some result.user
      → Blacklist.jti_revoked fresh.jti t s'.blacklist ≡ false
      → Blacklist.family_revoked fresh.family_id t s'.blacklist ≡ false
      → t < result.tokens.access_expires_at
      → authenticate x config (λ _. t) result.tokens.access_token s' ≡ (ok result.user, s')
  unfolding issue encode_access new_session
  login-authenticate clock others name password client_ip fresh t s s' {result} laws jti e found
        jti_free family_free early =
      let user = result.user in
      let (issued, written) = login-ok clock others name password client_ip fresh s s' e in
      let decoded =
        (decode_access-encode_access x config.access_ttl_seconds user.id fresh.session_id
          fresh.family_id user.role fresh.jti (clock 4) t laws jti).0 in
      let claims =
        (encode_access x config.access_ttl_seconds user.id user.role fresh.session_id
          fresh.family_id fresh.jti (clock 4)).1 in
      let token : result.tokens.access_token
          ≡ (encode_access x config.access_ttl_seconds user.id user.role fresh.session_id
              fresh.family_id fresh.jti (clock 4)).0 =
        ap (λ r. r.tokens.access_token) issued in
      let expiry : result.tokens.access_expires_at ≡ claims.expires_at =
        ap (λ r. r.tokens.access_expires_at) issued in
      let live : ◌≡◌ {A = Result AccessClaims}
          (if leb claims.expires_at t then err unauthorized else ok claims) (ok claims) =
        rw (ltb-leb t claims.expires_at (rw expiry at early)) in
      authenticate-ok (λ _. t) result.tokens.access_token s' {c = claims}
        (ap (λ k. decode_access x k t true) token ∙ decoded ∙ live) jti_free family_free found

  -- A family after its revocation: no session of it is active, and its access tokens are refused
  -- until an instant.
  pub record IsFamilyDead (f : Uuid) (until : Time) (s : Stores) : Type 0 where
    pub sessions : IsDead f s.sessions
    pub access : lookup f s.blacklist.family_expirations ≡ some until

  pub revoke_family-IsFamilyDead :
      (clock : ℕ → Time) (f : Uuid) (now : Time) (i : ℕ) (s : Stores)
      → clock i < now + seconds config.access_ttl_seconds
      → IsFamilyDead f
          (now + seconds config.access_ttl_seconds)
          (revoke_family x config clock f now i s).1
  unfolding revoke_family Blacklist.revoke_family
  revoke_family-IsFamilyDead clock f now i s later = record {
    sessions = revoke_family-IsDead f now s.sessions;
    access = ground (
      arith,
      lookup-insert_self f (now + seconds config.access_ttl_seconds) s.blacklist.family_expirations,
    );
  }

  -- Once a family is revoked, no access token that was issued in it before is accepted, at any time:
  -- until it expires the blacklist refuses it, and then its expiry does.
  pub authenticate-IsFamilyDead :
      (f : Uuid) (now issued_at t : Time) (u sid : Uuid) (role : Role) (jti : String) (s : Stores)
      → RoundTrips x
      → jti ≢ ""
      → issued_at ≤ now
      → IsFamilyDead f (now + seconds config.access_ttl_seconds) s
      → (authenticate x config
          (λ _. t)
          (encode_access x config.access_ttl_seconds u role sid f jti issued_at).0
          s).0
        ≡ err unauthorized
  unfolding authenticate encode_access Blacklist.family_revoked
  authenticate-IsFamilyDead f now issued_at t u sid role jti s laws non_empty before dead =
      let (decoded, always) =
        decode_access-encode_access x config.access_ttl_seconds u sid f role jti issued_at t laws
          non_empty in
      ground (arith, dead.access, decoded)
