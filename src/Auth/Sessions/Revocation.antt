-- ===== src/Auth/Sessions/Revocation.antt =====
-- What the operations that revoke sessions change, and what they leave alone.
use bmstu_nirs.Common.{
  nat_key, text_key, Bool, Bool-cases, List, Option, [], any, ap, arith, false, inl, inr, lookup,
  lookup-map_values, none, refl, some, sym, true, values, ◌&&◌, ◌==◌, ◌||◌, ◌∙◌, ◌∷◌, ◌≡◌, ◌≢◌, ◌⊎◌,
}
use bmstu_nirs.Auth.Models.{RefreshSession, Time, Uuid}
use bmstu_nirs.Auth.Sessions.{
  Sessions, add_family, is_active, is_other, revoke_family, revoke_if, revoke_user_sessions,
  revoked_families,
}

abbrev pub map_option :
    (RefreshSession → RefreshSession) → Option RefreshSession → Option RefreshSession
map_option f none = none
map_option f (some r) = some (f r)

pub lookup-revoke_family :
    (id f : Uuid) (now : Time) (s : Sessions)
    → lookup id (revoke_family f now s)
      ≡ map_option (revoke_if (λ r. r.family_id == f) now) (lookup id s)
unfolding revoke_family
lookup-revoke_family id f now s =
    ground (arith, lookup-map_values (λ _. revoke_if (λ r. r.family_id == f) now) id s)

pub lookup-revoke_user_sessions :
    (id user keep_family : Uuid) (now : Time) (s : Sessions)
    → lookup id (revoke_user_sessions user keep_family now s).1
      ≡ map_option (revoke_if (is_other user keep_family) now) (lookup id s)
unfolding revoke_user_sessions
lookup-revoke_user_sessions id user keep_family now s =
    ground (arith, lookup-map_values (λ _. revoke_if (is_other user keep_family) now) id s)

-- The family is among those of the user's active sessions outside the family that is kept.
abbrev pub loses_session : Uuid → Uuid → Uuid → Sessions → Bool
loses_session user keep_family f s =
    any (λ r. is_other user keep_family r && is_active r && r.family_id == f) (values s)

any-member :
    (f g : Uuid) (fs : List Uuid)
    → any (λ h. h == g) fs ≡ true
    → any (λ h. h == f) fs ≡ ((g == f) || any (λ h. h == f) fs)
any-member f g [] there = cc
any-member f g (x ∷ fs) there = ground (arith, any-member f g fs)

any-add_family :
    (f g : Uuid) (fs : List Uuid)
    → any (λ h. h == f) (add_family g fs) ≡ ((g == f) || any (λ h. h == f) fs)
any-add_family f g fs = elim (Bool-cases (any (λ h. h == g) fs)) [
  | inl there ↦ ground (arith, any-member f g fs there)
  | inr new ↦ ground arith
]

-- `revoke_user_sessions` reports exactly the families that lost a session.
pub revoke_user_sessions-families :
    (user keep_family f : Uuid) (now : Time) (s : Sessions)
    → any (λ g. g == f) (revoke_user_sessions user keep_family now s).0
      ≡ loses_session user keep_family f s
unfolding revoke_user_sessions
revoke_user_sessions-families user keep_family f now [] = refl
revoke_user_sessions-families user keep_family f now (e ∷ s) = ground (
  arith,
  any-add_family f (e.1).family_id (revoked_families user keep_family s),
  revoke_user_sessions-families user keep_family f now s,
)

-- No active session of the family is stored.
abbrev pub IsDead : Uuid → Sessions → Type 0
IsDead f s =
    (j : Uuid) (r : RefreshSession) → lookup j s ≡ some r → r.family_id ≡ f → is_active r ≡ false

pub revoke_family-IsDead : (f : Uuid) (now : Time) (s : Sessions) → IsDead f (revoke_family f now s)
revoke_family-IsDead f now s j r e same =
    family_dead (lookup j s) (sym (lookup-revoke_family j f now s) ∙ e)
  where
    family_dead :
        (o : Option RefreshSession)
        → map_option (revoke_if (λ x. x.family_id == f) now) o ≡ some r
        → is_active r ≡ false
    family_dead none h = cc
    family_dead (some x) h = ground arith

-- A dead family stays dead when another one is revoked.
pub revoke_family-IsDead_other :
    (f g : Uuid) (now : Time) (s : Sessions) → IsDead f s → IsDead f (revoke_family g now s)
revoke_family-IsDead_other f g now s dead j r e same =
    still_dead (lookup j s) refl (sym (lookup-revoke_family j g now s) ∙ e)
  where
    still_dead :
        (o : Option RefreshSession)
        → lookup j s ≡ o
        → map_option (revoke_if (λ x. x.family_id == g) now) o ≡ some r
        → is_active r ≡ false
    still_dead none stored h = cc
    still_dead (some x) stored h = ground (arith, dead j x stored)

module _ (user keep_family : Uuid) (now : Time) where
  other_dead :
      (o : Option RefreshSession) (r : RefreshSession)
      → map_option (revoke_if (is_other user keep_family) now) o ≡ some r
      → r.user_id ≡ user
      → r.family_id ≢ keep_family
      → is_active r ≡ false
  other_dead none r h u f = cc
  other_dead (some x) r h u f = ground arith

  -- The user's sessions outside the family that is kept are revoked, and no other is changed.
  pub revoke_user_sessions_others :
      (j : Uuid) (r : RefreshSession) (s : Sessions)
      → lookup j (revoke_user_sessions user keep_family now s).1 ≡ some r
      → r.user_id ≡ user
      → r.family_id ≢ keep_family
      → is_active r ≡ false
  revoke_user_sessions_others j r s e =
      other_dead (lookup j s) r (sym (lookup-revoke_user_sessions j user keep_family now s) ∙ e)

  pub revoke_user_sessions_kept :
      (j : Uuid) (r : RefreshSession) (s : Sessions)
      → lookup j s ≡ some r
      → (r.family_id ≡ keep_family) ⊎ (r.user_id ≢ user)
      → lookup j (revoke_user_sessions user keep_family now s).1 ≡ some r
  revoke_user_sessions_kept j r s e h =
      lookup-revoke_user_sessions j user keep_family now s
      ∙ ap (map_option (revoke_if (is_other user keep_family) now)) e
      ∙ ground arith
