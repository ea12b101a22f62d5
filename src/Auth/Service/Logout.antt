-- ===== src/Auth/Service/Logout.antt =====
-- `logout` of the authentication service.
use bmstu_nirs.Common.{
  nat_key, text_key, List, Option, Option-cases, String, [], any, arith, if◌then◌else◌, inl, inr,
  lookup-insert, none, refl, some, subst, true, ℕ, ℕ_discrete, ⊤, ◌+◌, ◌<◌, ◌==◌, ◌∷◌, ◌≡◌, ◌≢◌,
}
use bmstu_nirs.Auth.Models.{AccessClaims, RefreshSession, Time, Uuid, err, ok, seconds}
use bmstu_nirs.Auth.Tokens.{Externals, decode_access}
use bmstu_nirs.Auth.Blacklist
use bmstu_nirs.Auth.Sessions
use bmstu_nirs.Auth.Sessions.Revocation.{revoke_family-IsDead_other}
use bmstu_nirs.Auth.Service.Access.{IsFamilyDead, revoke_family-IsFamilyDead}
use bmstu_nirs.Auth.Service.Monad.{Action, Stores, gets, on_blacklist, pure, ◌>>=◌, ◌>>◌}
use bmstu_nirs.Auth.Service.{Config, revoke_family}
use bmstu_nirs.Auth.Sessions.{add_family}

module _ (x : Externals) (config : Config) (clock : ℕ → Time) where
  -- The part of `logout` about the access token, if there is one that is not empty: the families
  -- to revoke.
  unfoldable pub drop_access : Option String → Action (List Uuid)
  drop_access none = pure []
  drop_access (some token) =
      if token == "" then pure [] else elim (decode_access x token (clock 0) true) [
        | err e ↦ pure []
        | ok claims ↦ do
          on_blacklist (Blacklist.add claims.jti claims.expires_at (clock 1))
          pure (claims.family_id ∷ [])
      ]

  unfoldable pub drop_refresh : Option String → List Uuid → Action (List Uuid)
  drop_refresh none families = pure families
  drop_refresh (some token) families = if token == "" then pure families else do
    found ← gets (λ s. Sessions.get_by_token_hash (x.hash_token token) s.sessions)
    elim found [
      | none ↦ pure families
      | some session ↦ pure (add_family session.family_id families)
    ]

  -- The loop over the families; each turn reads the clock once.
  unfoldable pub revoke_families : List Uuid → ℕ → Action ⊤
  unfolding revoke_family
  revoke_families [] i = pure tt
  revoke_families (f ∷ fs) i =
      revoke_family x config clock f (clock 0) i >> revoke_families fs (i + 1)

  unfoldable pub logout : Option String → Option String → Action ⊤
  unfolding drop_access drop_refresh revoke_families
  logout access_token refresh_token = do
    families ← drop_access access_token
    all_families ← drop_refresh refresh_token families
    revoke_families all_families 2

  revoke_families-ok : (fs : List Uuid) (i : ℕ) (s : Stores) → (revoke_families fs i s).0 ≡ ok tt
  unfolding revoke_families
  revoke_families-ok [] i s = refl
  revoke_families-ok (f ∷ fs) i s =
      revoke_families-ok fs (i + 1) (revoke_family x config clock f (clock 0) i s).1

  revoke_families-kept :
      (fs : List Uuid) (i : ℕ) (f : Uuid) (s : Stores)
      → IsFamilyDead x config f (clock 0 + seconds config.access_ttl_seconds) s
      → IsFamilyDead x config f
          (clock 0 + seconds config.access_ttl_seconds)
          (revoke_families fs i s).1
  unfolding revoke_families Blacklist.revoke_family
  revoke_families-kept [] i f s dead = dead
  revoke_families-kept (g ∷ fs) i f s dead =
      revoke_families-kept fs (i + 1) f (revoke_family x config clock g (clock 0) i s).1 (record {
        sessions = revoke_family-IsDead_other f g (clock 0) s.sessions dead.sessions;
        access = ground (
          arith,
          dead.access,
          lookup-insert f g (clock 0 + seconds config.access_ttl_seconds)
              s.blacklist.family_expirations,
        );
      })

  revoke_families-dead :
      (fs : List Uuid) (i : ℕ) (f : Uuid) (s : Stores)
      → ((j : ℕ) → clock j < clock 0 + seconds config.access_ttl_seconds)
      → any (λ g. g == f) fs ≡ true
      → IsFamilyDead x config f
          (clock 0 + seconds config.access_ttl_seconds)
          (revoke_families fs i s).1
  unfolding revoke_families
  revoke_families-dead [] i f s later there = cc
  revoke_families-dead (g ∷ fs) i f s later there =
      let s' = (revoke_family x config clock g (clock 0) i s).1 in
      elim (ℕ_discrete g f) [
        | yes same ↦ revoke_families-kept fs (i + 1) f s' (
            subst (λ h. IsFamilyDead x config h (clock 0 + seconds config.access_ttl_seconds) s')
              same (revoke_family-IsFamilyDead x config clock g (clock 0) i s (later i)))
        | no other ↦ revoke_families-dead fs (i + 1) f s' later (ground arith)
      ]

  -- What a good access token adds to the blacklist, and the families that are revoked.
  abbrev dropped : AccessClaims → Stores → Stores
  dropped claims s = record s {
    blacklist = Blacklist.add claims.jti claims.expires_at (clock 1) s.blacklist;
  }

  logout-dropped :
      (token : String) (refresh : Option String) (s : Stores) {claims : AccessClaims}
      → token ≢ ""
      → decode_access x token (clock 0) true ≡ ok claims
      → (fs : List Uuid) × (logout (some token) refresh s ≡ revoke_families fs 2 (dropped claims s))
        × (any (λ g. g == claims.family_id) fs ≡ true)
  unfolding logout drop_access drop_refresh
  logout-dropped token none s {claims} non_empty decoded =
      (claims.family_id ∷ [], ground arith, ground arith)
  logout-dropped token (some t) s {claims} non_empty decoded =
      elim (Option-cases (Sessions.get_by_token_hash (x.hash_token t) s.sessions)) [
        | inl missing ↦ (claims.family_id ∷ [], ground arith, ground arith)
        | inr (session, found) ↦ (
          if t == ""
              then claims.family_id ∷ []
              else add_family session.family_id (claims.family_id ∷ []),
          ground arith,
          ground arith,
        )
      ]

  logout-found :
      (token : String) (s : Stores) {session : RefreshSession}
      → token ≢ ""
      → Sessions.get_by_token_hash (x.hash_token token) s.sessions ≡ some session
      → logout none (some token) s ≡ revoke_families (session.family_id ∷ []) 2 s
  unfolding logout drop_access drop_refresh
  logout-found token s non_empty found = ground arith

  -- A logout with a good access token, whatever the refresh token, raises nothing and revokes the
  -- token's family: no session of it is active afterwards, and its access tokens are refused until
  -- all have expired.
  pub logout-access :
      (token : String) (refresh : Option String) (s : Stores) {claims : AccessClaims}
      → ((j : ℕ) → clock j < clock 0 + seconds config.access_ttl_seconds)
      → token ≢ ""
      → decode_access x token (clock 0) true ≡ ok claims
      → let (answer, s') = logout (some token) refresh s in
        (answer ≡ ok tt)
        × IsFamilyDead x config claims.family_id (clock 0 + seconds config.access_ttl_seconds) s'
  logout-access token refresh s {claims} later non_empty decoded =
      let (fs, e, there) = logout-dropped token refresh s non_empty decoded in
      rw e (
        revoke_families-ok fs 2 (dropped claims s),
        revoke_families-dead fs 2 claims.family_id (dropped claims s) later there,
      )

  -- So does a logout without an access token for the family of its refresh token.
  pub logout-refresh :
      (token : String) (s : Stores) {session : RefreshSession}
      → ((j : ℕ) → clock j < clock 0 + seconds config.access_ttl_seconds)
      → token ≢ ""
      → Sessions.get_by_token_hash (x.hash_token token) s.sessions ≡ some session
      → let (answer, s') = logout none (some token) s in
        (answer ≡ ok tt)
        × IsFamilyDead x config session.family_id (clock 0 + seconds config.access_ttl_seconds) s'
  logout-refresh token s {session} later non_empty found =
      rw (logout-found token s non_empty found) (
        revoke_families-ok (session.family_id ∷ []) 2 s,
        revoke_families-dead (session.family_id ∷ []) 2 session.family_id s later (ground arith),
      )
