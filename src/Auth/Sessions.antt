-- ===== src/Auth/Sessions.antt =====
-- `InMemoryRefreshSessionStore` of backend/src/smeshariki_ai/auth/memory.py.
pub mod Revocation
pub mod Rotation
use bmstu_nirs.Common.{
  text_key, nat_key, Bool, Dict, List, Option, String, [], any, false, find, if◌then◌else◌, insert,
  lookup, map_values, none, not, some, true, values, ◌&&◌, ◌==◌, ◌∷◌,
}
use bmstu_nirs.Auth.Models.{RefreshSession, Time, Uuid}

abbrev pub Sessions : Type 0
Sessions = Dict Uuid RefreshSession

-- `session.revoked_at is None`
abbrev pub is_active : RefreshSession → Bool
is_active r = elim (r.revoked_at) [ none ↦ true | some _ ↦ false ]

unfoldable pub create : RefreshSession → Sessions → Sessions
create session s = insert session.id session s

unfoldable pub get_by_token_hash : String → Sessions → Option RefreshSession
get_by_token_hash token_hash s = find (λ r. r.token_hash == token_hash) (values s)

unfoldable pub rotate : Uuid → RefreshSession → Time → Sessions → Bool × Sessions
rotate current_id replacement now s = elim (lookup current_id s) [
  | none ↦ (false, s)
  | some current ↦
      if is_active current
      then (
        true,
        insert replacement.id replacement (
            insert current_id
              (record current { revoked_at = some now; replaced_by = some replacement.id }) s),
      )
      else (false, s)
]

unfoldable pub revoke : Uuid → Time → Sessions → Sessions
revoke session_id now s = elim (lookup session_id s) [
  | none ↦ s
  | some r ↦ if is_active r then insert session_id (record r { revoked_at = some now }) s else s
]

-- The body of a loop that revokes the active sessions that pass a test.
abbrev pub revoke_if : (RefreshSession → Bool) → Time → RefreshSession → RefreshSession
revoke_if test now r = if test r && is_active r then record r { revoked_at = some now } else r

unfoldable pub revoke_family : Uuid → Time → Sessions → Sessions
revoke_family family_id now s = map_values (λ _. revoke_if (λ r. r.family_id == family_id) now) s

-- The test of `revoke_user_sessions`, before that of activity.
abbrev pub is_other : Uuid → Uuid → RefreshSession → Bool
is_other user_id keep_family_id r = r.user_id == user_id && not (r.family_id == keep_family_id)

-- `revoked.add(...)`: a set has a family once.
abbrev pub add_family : Uuid → List Uuid → List Uuid
add_family f fs = if any (λ g. g == f) fs then fs else f ∷ fs

-- The families of the sessions that the loop of `revoke_user_sessions` revokes.
unfoldable pub revoked_families : Uuid → Uuid → Sessions → List Uuid
revoked_families user_id keep_family_id [] = []
revoked_families user_id keep_family_id ((_, r) ∷ s) =
    let rest = revoked_families user_id keep_family_id s in
    if is_other user_id keep_family_id r && is_active r then add_family r.family_id rest else rest

unfoldable pub revoke_user_sessions : Uuid → Uuid → Time → Sessions → List Uuid × Sessions
unfolding revoked_families
revoke_user_sessions user_id keep_family_id now s = (
  revoked_families user_id keep_family_id s,
  map_values (λ _. revoke_if (is_other user_id keep_family_id) now) s,
)
