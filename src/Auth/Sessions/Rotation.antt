-- ===== src/Auth/Sessions/Rotation.antt =====
-- Rotation of refresh sessions, under any interleaving of the store's operations.
use bmstu_nirs.Common.{
  nat_key, text_key, Bool, Option, Option-cases, String, [], any, arith, false, find, find-passes,
  inl, inr, insert, lookup, lookup-insert, none, not, refl, some, sym, true, values, ⊤, ◌==◌, ◌∙◌,
  ◌∷◌, ◌≡◌, ◌≢◌,
}
use bmstu_nirs.Auth.Models.{RefreshSession, Time, Uuid}
use bmstu_nirs.Auth.Sessions.{
  Sessions, create, get_by_token_hash, is_active, is_other, revoke, revoke_family, revoke_if,
  revoke_user_sessions, rotate,
}
use bmstu_nirs.Auth.Sessions.Revocation.{
  lookup-revoke_family, lookup-revoke_user_sessions, map_option,
}

-- The session is stored and active, or stored and revoked.
abbrev pub is_live : Option RefreshSession → Bool
is_live none = false
is_live (some r) = is_active r

abbrev pub is_revoked : Option RefreshSession → Bool
is_revoked none = false
is_revoked (some r) = not (is_active r)

-- `rotate` succeeds exactly for an active session. Then the session is revoked, its replacement
-- is stored and no other session changes; else nothing does.
pub rotate_lem :
    (id : Uuid) (new : RefreshSession) (now : Time) (s : Sessions)
    → new.id ≢ id
    → let (done, s') = rotate id new now s in
      (done ≡ is_live (lookup id s))
      × (done ≡ false → s' ≡ s)
      × (done ≡ true
          → (is_revoked (lookup id s') ≡ true)
            × (lookup new.id s' ≡ some new)
            × ((j : Uuid) → j ≢ id → j ≢ new.id → lookup j s' ≡ lookup j s))
unfolding rotate
rotate_lem id new now s other = elim (Option-cases (lookup id s)) [
  | inl missing ↦ (ground arith, λ e. ground arith, λ e. ground arith)
  | inr (old, present) ↦
      let old' : RefreshSession = record old { revoked_at = some now; replaced_by = some new.id } in
      (
        ground arith,
        λ e. ground arith,
        λ e. (
          ground
              (arith, lookup-insert id new.id new (insert id old' s), lookup-insert id id old' s),
          ground (arith, lookup-insert new.id new.id new (insert id old' s)),
          λ j a b.
              ground
                (arith, lookup-insert j new.id new (insert id old' s), lookup-insert j id old' s),
        ),
      )
]

-- One operation of the store. A new session has an unused id, and a family that is unused or
-- that of the session it replaces.
pub data Step : Sessions → Sessions → Type 0 where
  created :
      (new : RefreshSession) (s : Sessions)
      → lookup new.id s ≡ none
      → is_active new ≡ true
      → any (λ r. r.family_id == new.family_id) (values s) ≡ false
      → Step s (create new s)
  rotated :
      (id : Uuid) (new old : RefreshSession) (now : Time) (s : Sessions)
      → lookup new.id s ≡ none
      → is_active new ≡ true
      → lookup id s ≡ some old
      → new.family_id ≡ old.family_id
      → Step s (rotate id new now s).1
  revoked : (id : Uuid) (now : Time) (s : Sessions) → Step s (revoke id now s)
  family_revoked : (f : Uuid) (now : Time) (s : Sessions) → Step s (revoke_family f now s)
  user_revoked :
      (user keep_family : Uuid) (now : Time) (s : Sessions)
      → Step s (revoke_user_sessions user keep_family now s).1

pub data Reach (s : Sessions) : Sessions → Type 0 where
  here : Reach s s
  next : {t u : Sessions} → Reach s t → Step t u → Reach s u

Step-is_revoked :
    {s s' : Sessions} (id : Uuid)
    → Step s s'
    → is_revoked (lookup id s) ≡ true
    → is_revoked (lookup id s') ≡ true
unfolding create rotate revoke
Step-is_revoked id (created new s free active family) h =
    ground (arith, lookup-insert id new.id new s)
Step-is_revoked id (rotated i new old now s free active present family) h =
    let old' : RefreshSession = record old { revoked_at = some now; replaced_by = some new.id } in
    ground (arith, lookup-insert id new.id new (insert i old' s), lookup-insert id i old' s)
Step-is_revoked id (revoked i now s) h = elim (Option-cases (lookup i s)) [
  | inl missing ↦ ground arith
  | inr (r, present) ↦ ground (arith, lookup-insert id i (record r { revoked_at = some now }) s)
]
Step-is_revoked id (family_revoked f now s) h = ground (arith, lookup-revoke_family id f now s)
Step-is_revoked id (user_revoked u f now s) h =
    ground (arith, lookup-revoke_user_sessions id u f now s)

Reach-is_revoked :
    {s s' : Sessions} (id : Uuid)
    → Reach s s'
    → is_revoked (lookup id s) ≡ true
    → is_revoked (lookup id s') ≡ true
Reach-is_revoked id here h = h
Reach-is_revoked id (next r st) h = Step-is_revoked id st (Reach-is_revoked id r h)

-- Of two requests that rotate one session one fails, whatever operations come between them.
pub rotate_once :
    (id : Uuid) (new new' : RefreshSession) (now now' : Time) (s s' : Sessions)
    → new.id ≢ id
    → new'.id ≢ id
    → Reach (rotate id new now s).1 s'
    → (rotate id new now s).0 ≡ true
    → (rotate id new' now' s').0 ≡ false
rotate_once id new new' now now' s s' other other' run done =
    let revoked = ((rotate_lem id new now s other).2 done).0 in
    ground (arith, Reach-is_revoked id run revoked, (rotate_lem id new' now' s' other').0)

-- Two active sessions of one family are one session.
abbrev pub IsSingle : Sessions → Type 0
IsSingle s =
    (i j : Uuid) (r r' : RefreshSession)
    → lookup i s ≡ some r
    → lookup j s ≡ some r'
    → is_active r ≡ true
    → is_active r' ≡ true
    → r.family_id ≡ r'.family_id
    → i ≡ j

lookup-any :
    (test : RefreshSession → Bool) (j : Uuid) (r : RefreshSession) (s : Sessions)
    → lookup j s ≡ some r
    → any test (values s) ≡ false
    → test r ≡ false
lookup-any test j r [] found nobody = cc
lookup-any test j r (e ∷ s) found nobody = ground (arith, lookup-any test j r s)

-- An operation that activates no session keeps the invariant.
module _ (s s' : Sessions)
    (kept : (i : Uuid) (r : RefreshSession)
      → lookup i s' ≡ some r
      → is_active r ≡ true
      → lookup i s ≡ some r) where
  IsSingle-kept : IsSingle s → IsSingle s'
  IsSingle-kept h i j r r' e e' a a' same = h i j r r' (kept i r e a) (kept j r' e' a') a a' same

active_kept :
    (test : RefreshSession → Bool) (now : Time) (o : Option RefreshSession) (r : RefreshSession)
    → map_option (revoke_if test now) o ≡ some r
    → is_active r ≡ true
    → o ≡ some r
active_kept test now none r e a = cc
active_kept test now (some x) r e a = ground arith

revoke_kept :
    (id : Uuid) (now : Time) (s : Sessions) (i : Uuid) (r : RefreshSession)
    → lookup i (revoke id now s) ≡ some r
    → is_active r ≡ true
    → lookup i s ≡ some r
unfolding revoke
revoke_kept id now s i r e a = elim (Option-cases (lookup id s)) [
  | inl missing ↦ ground arith
  | inr (x, present) ↦ ground (arith, lookup-insert i id (record x { revoked_at = some now }) s)
]

create-IsSingle :
    (new : RefreshSession) (s : Sessions)
    → any (λ r. r.family_id == new.family_id) (values s) ≡ false
    → IsSingle s
    → IsSingle (create new s)
unfolding create
create-IsSingle new s unused h i j r r' e e' a a' same = ground (
  arith,
  lookup-insert i new.id new s,
  lookup-insert j new.id new s,
  lookup-any (λ x. x.family_id == new.family_id) i r s,
  lookup-any (λ x. x.family_id == new.family_id) j r' s,
  h i j r r',
)

rotate-IsSingle :
    (id : Uuid) (new old : RefreshSession) (now : Time) (s : Sessions)
    → lookup id s ≡ some old
    → new.family_id ≡ old.family_id
    → IsSingle s
    → IsSingle (rotate id new now s).1
unfolding rotate
rotate-IsSingle id new old now s present family h i j r r' e e' a a' same =
    let old' : RefreshSession = record old { revoked_at = some now; replaced_by = some new.id } in
    ground (
      arith,
      lookup-insert i new.id new (insert id old' s),
      lookup-insert j new.id new (insert id old' s),
      lookup-insert i id old' s,
      lookup-insert j id old' s,
      h i j r r',
      h i id r old,
      h id j old r',
    )

Step-IsSingle : {s s' : Sessions} → Step s s' → IsSingle s → IsSingle s'
Step-IsSingle (created new s free active unused) h = create-IsSingle new s unused h
Step-IsSingle (rotated id new old now s free active present family) h =
    rotate-IsSingle id new old now s present family h
Step-IsSingle (revoked id now s) h = IsSingle-kept _ _ (revoke_kept id now s) h
Step-IsSingle (family_revoked f now s) h =
    IsSingle-kept _ _
      (λ i r e a.
        active_kept (λ x. x.family_id == f) now (lookup i s) r
          (sym (lookup-revoke_family i f now s) ∙ e) a)
      h
Step-IsSingle (user_revoked u f now s) h =
    IsSingle-kept _ _
      (λ i r e a.
        active_kept (is_other u f) now (lookup i s) r
          (sym (lookup-revoke_user_sessions i u f now s) ∙ e) a)
      h

-- However the store's operations are interleaved, starting from the empty store, a family has
-- one active session at most: of its refresh tokens one at most can be used.
pub Reach-IsSingle : {s : Sessions} → Reach [] s → IsSingle s
Reach-IsSingle here = λ i j r r' e. cc
Reach-IsSingle (next run st) = Step-IsSingle st (Reach-IsSingle run)

-- Each session is stored under its own id, once.
abbrev pub IsKeyed : Sessions → Type 0
IsKeyed [] = ⊤
IsKeyed ((k, r) ∷ s) = (r.id ≡ k) × (lookup k s ≡ none) × IsKeyed s

pub insert-IsKeyed :
    (id : Uuid) (r : RefreshSession) (s : Sessions)
    → r.id ≡ id
    → IsKeyed s
    → IsKeyed (insert id r s)
insert-IsKeyed id r [] same h = (same, refl, tt)
insert-IsKeyed id r (e ∷ s) same h = ground (arith, insert-IsKeyed id r s, lookup-insert e.0 id r s)

find-new :
    (test : RefreshSession → Bool) (id : Uuid) (r found : RefreshSession) (s : Sessions)
    → lookup id s ≡ none
    → find test (values s) ≡ some found
    → find test (values (insert id r s)) ≡ some found
find-new test id r found [] unused e = cc
find-new test id r found (x ∷ s) unused e = ground (arith, find-new test id r found s)

find-replaced :
    (test : RefreshSession → Bool) (r old : RefreshSession) (s : Sessions)
    → IsKeyed s
    → test r ≡ true
    → find test (values s) ≡ some old
    → find test (values (insert old.id r s)) ≡ some r
find-replaced test r old [] keyed passes e = cc
find-replaced test r old (x ∷ s) keyed passes e = ground (arith, find-replaced test r old s)

find-lookup :
    (test : RefreshSession → Bool) (old : RefreshSession) (s : Sessions)
    → IsKeyed s
    → find test (values s) ≡ some old
    → lookup old.id s ≡ some old
find-lookup test old [] keyed e = cc
find-lookup test old (x ∷ s) keyed e = ground (arith, find-lookup test old s)

-- After a rotation the old token still finds its session, now revoked: a reuse is noticed.
pub rotate-get_by_token_hash :
    (token_hash : String) (current new : RefreshSession) (now : Time) (s : Sessions)
    → IsKeyed s
    → lookup new.id s ≡ none
    → get_by_token_hash token_hash s ≡ some current
    → (rotate current.id new now s).0 ≡ true
    → (r : RefreshSession) × (get_by_token_hash token_hash (rotate current.id new now s).1 ≡ some r)
      × (is_active r ≡ false)
      × (r.family_id ≡ current.family_id)
unfolding rotate get_by_token_hash
rotate-get_by_token_hash token_hash current new now s keyed unused found done =
    let r : RefreshSession = record current { revoked_at = some now; replaced_by = some new.id } in
    let stored = find-lookup (λ r. r.token_hash == token_hash) current s keyed found in
    let s1 = insert current.id r s in
    let replaced =
      find-replaced (λ r. r.token_hash == token_hash) r current s keyed
        (find-passes (λ r. r.token_hash == token_hash) current (values s) found) found in
    (
      r,
      ground (
        arith,
        find-new (λ r. r.token_hash == token_hash) new.id new r s1,
        lookup-insert new.id current.id r s,
      ),
      refl,
      refl,
    )
