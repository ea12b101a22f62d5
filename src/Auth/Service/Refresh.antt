-- ===== src/Auth/Service/Refresh.antt =====
-- `refresh` of the authentication service: rotation of refresh tokens, and what a reused one does.
use bmstu_nirs.Common.{
  nat_key, text_key, String, ap, arith, false, if◌then◌else◌, leb, lookup, none, refl, some, true,
  ℕ, ◌+◌, ◌<◌, ◌≡◌, ◌≢◌,
}
use bmstu_nirs.Auth.Models.{AuthResult, RefreshSession, Time, User, err, ok, seconds, unauthorized}
use bmstu_nirs.Auth.Tokens.{Externals}
use bmstu_nirs.Auth.Users
use bmstu_nirs.Auth.Sessions
use bmstu_nirs.Auth.Sessions.{is_active}
use bmstu_nirs.Auth.Sessions.Rotation.{is_live, rotate_lem}
use bmstu_nirs.Auth.Service.Access.{IsFamilyDead, revoke_family-IsFamilyDead}
use bmstu_nirs.Auth.Service.Monad.{
  Action, Stores, gets, or_raise, pure, raise_if, with_sessions, ◌>>=◌, ◌>>◌,
}
use bmstu_nirs.Auth.Service.{Config, Fresh, issue, new_session, reject_reuse, revoke_family}

module _ (x : Externals) (config : Config) (clock : ℕ → Time) where
  -- The end of `refresh`: another request may have rotated the same token first.
  unfoldable pub renew : RefreshSession → User → Fresh → Action AuthResult
  unfolding new_session issue reject_reuse
  renew current user fresh = do
    let now = clock 0
    let replacement = new_session x config clock user.id current.family_id fresh now
    rotated ← with_sessions (Sessions.rotate current.id replacement now)
    if rotated
        then pure (issue x config clock user replacement fresh now)
        else reject_reuse x config clock current now

  unfoldable pub refresh : String → Fresh → Action AuthResult
  unfolding renew reject_reuse
  refresh refresh_token fresh = do
    let now = clock 0
    found ← gets (λ s. Sessions.get_by_token_hash (x.hash_token refresh_token) s.sessions)
    current ← or_raise found unauthorized
    elim (current.revoked_at) [
      | some t ↦ reject_reuse x config clock current now
      | none ↦ do
        raise_if (leb current.expires_at now) unauthorized
        user ← gets (λ s. Users.get_by_id current.user_id s.users)
        u ← or_raise user unauthorized
        renew current u fresh
    ]

  renew-lost :
      (current : RefreshSession) (user : User) (fresh : Fresh) (s : Stores)
      → fresh.session_id ≢ current.id
      → is_live (lookup current.id s.sessions) ≡ false
      → renew current user fresh s
        ≡ (err unauthorized, (revoke_family x config clock current.family_id (clock 0) 1 s).1)
  unfolding renew
  renew-lost current user fresh s other lost =
      let new = new_session x config clock user.id current.family_id fresh (clock 0) in
      let (answer, same, moved) = rotate_lem current.id new (clock 0) s.sessions other in
      ground arith

  refresh-reuse :
      (token : String) (fresh : Fresh) (s : Stores) {current : RefreshSession}
      → Sessions.get_by_token_hash (x.hash_token token) s.sessions ≡ some current
      → is_active current ≡ false
      → refresh token fresh s
        ≡ (err unauthorized, (revoke_family x config clock current.family_id (clock 0) 1 s).1)
  unfolding refresh
  refresh-reuse token fresh s found revoked = ground arith

  -- A refresh token whose session is revoked is refused, and its whole family with it: no session
  -- of the family stays active, and its access tokens are refused until all have expired.
  pub refresh-reused :
      (token : String) (fresh : Fresh) (s : Stores) {current : RefreshSession}
      → Sessions.get_by_token_hash (x.hash_token token) s.sessions ≡ some current
      → is_active current ≡ false
      → clock 1 < clock 0 + seconds config.access_ttl_seconds
      → let (answer, s') = refresh token fresh s in
        (answer ≡ err unauthorized)
        × IsFamilyDead x config current.family_id (clock 0 + seconds config.access_ttl_seconds) s'
  unfolding refresh
  refresh-reused token fresh s {current} found revoked later =
      let e = refresh-reuse token fresh s found revoked in
      (
        ap (λ p. p.0) e,
        rw e (revoke_family-IsFamilyDead x config clock current.family_id (clock 0) 1 s later),
      )

  -- If the session was revoked between its reading and the rotation, by a request that was faster,
  -- the refresh is refused as a reuse, and the family is revoked.
  pub renew-raced :
      (current : RefreshSession) (user : User) (fresh : Fresh) (s : Stores)
      → fresh.session_id ≢ current.id
      → is_live (lookup current.id s.sessions) ≡ false
      → clock 1 < clock 0 + seconds config.access_ttl_seconds
      → let (answer, s') = renew current user fresh s in
        (answer ≡ err unauthorized)
        × IsFamilyDead x config current.family_id (clock 0 + seconds config.access_ttl_seconds) s'
  renew-raced current user fresh s other lost later =
      rw (renew-lost current user fresh s other lost)
        (refl, revoke_family-IsFamilyDead x config clock current.family_id (clock 0) 1 s later)

  -- What a refresh that succeeded did: the session was active and had not expired, it was rotated
  -- to a new session of the same user and family, and the tokens returned are those of the new one.
  pub refresh-ok :
      (token : String) (fresh : Fresh) (s s' : Stores) {current : RefreshSession}
      {result : AuthResult}
      → Sessions.get_by_token_hash (x.hash_token token) s.sessions ≡ some current
      → refresh token fresh s ≡ (ok result, s')
      → let new = new_session x config clock result.user.id current.family_id fresh (clock 0) in
        (is_active current ≡ true)
        × (clock 0 < current.expires_at)
        × (Users.get_by_id current.user_id s.users ≡ some result.user)
        × (Sessions.rotate current.id new (clock 0) s.sessions ≡ (true, s'.sessions))
        × (result ≡ issue x config clock result.user new fresh (clock 0))
        × (s'.users ≡ s.users)
        × (s'.blacklist ≡ s.blacklist)
  unfolding refresh
  refresh-ok token fresh s s' {current} {result} found e = ground arith
