-- ===== src/Auth/Limiter/Window.antt =====
-- What a fixed window admits, and how long a refused client is told to wait.
use Prim.Native.Nat.{min}
use bmstu_nirs.Common.{
  text_key, text_discrete, All, List, Option, Option-cases, String, [], arith, erase, if◌then◌else◌,
  inl, inr, leb, lookup, lookup-erase, lookup-insert_ne, lookup-insert_self, none, refl, some, ℕ, ⊤,
  ◌+◌, ◌-◌, ◌<◌, ◌==◌, ◌↔◌, ◌∙◌, ◌∷◌, ◌≡◌, ◌≢◌, ◌≤◌, ◌⊎◌,
}
use bmstu_nirs.Auth.Models.{Time, seconds}
use bmstu_nirs.Auth.Limiter.{Counter, Limiter, expire, hit, increment, retry_after, retry_after_key}

-- The events that count at an instant: those of a window that has not ended.
abbrev live_of : Option Counter → Time → ℕ
live_of none t = 0
live_of (some (count, ends_at)) t = if leb ends_at t then 0 else count

abbrev pub live : String → Time → Limiter → ℕ
live key t s = live_of (lookup key s) t

-- When the window that counts at an instant ends, or would end if it began then.
abbrev ends_of : Option Counter → ℕ → Time → Time → Time
ends_of none window t t' = t' + seconds window
ends_of (some (count, ends_at)) window t t' = if leb ends_at t then t' + seconds window else ends_at

pub lookup-increment :
    (key : String) (window : ℕ) (t t' : Time) (s : Limiter)
    → lookup key (increment key window t t' s).1
      ≡ some (live key t s + 1, ends_of (lookup key s) window t t')
unfolding increment
lookup-increment key window t t' s = elim (Option-cases (lookup key s)) [
  | inl e ↦ ground (arith, lookup-insert_self key (1, t' + seconds window) s)
  | inr ((count, ends_at), e) ↦ ground (
    arith,
    lookup-erase key key s,
    lookup-insert_self key (1, t' + seconds window) (erase key s),
    lookup-insert_self key (count + 1, ends_at) s,
  )
]

pub increment-count :
    (key : String) (window : ℕ) (t t' : Time) (s : Limiter)
    → (increment key window t t' s).0 ≡ live key t s + 1
unfolding increment
increment-count key window t t' s = ground (arith, lookup-erase key key s)

pub lookup-expire_ne :
    (j key : String) (t : Time) (s : Limiter) → j ≢ key → lookup j (expire key t s) ≡ lookup j s
unfolding expire
lookup-expire_ne j key t s h = ground (arith, lookup-erase j key s)

pub lookup-increment_ne :
    (j key : String) (window : ℕ) (t t' : Time) (s : Limiter)
    → j ≢ key
    → lookup j (increment key window t t' s).1 ≡ lookup j s
unfolding increment
lookup-increment_ne j key window t t' s h =
    lookup-insert_ne j key _ (expire key t s) h ∙ lookup-expire_ne j key t s h

-- A request that is counted, with the clock's readings while it is.
pub record Event : Type 0 where
  pub key : String
  pub t : Time
  pub t' : Time
  pub t'' : Time

unfoldable pub count : String → List Event → ℕ
count key [] = 0
count key (e ∷ es) = (if key == e.key then 1 else 0) + count key es

-- How many events of a key pass, in a run in which events of any keys are counted.
pub admitted : String → ℕ → ℕ → List Event → Limiter → ℕ
admitted key limit window [] s = 0
admitted key limit window (e ∷ es) s =
    let (answer, s') = hit e.key limit window e.t e.t' e.t'' s in
    (if key == e.key then elim answer [ none ↦ 1 | some _ ↦ 0 ] else 0)
    + admitted key limit window es s'

-- The events of a key come before an instant.
abbrev pub Within : String → Time → List Event → Type 0
Within key ends_at = All (λ e. key ≡ e.key → e.t < ends_at)

hit-state :
    (key : String) (limit window : ℕ) (t t' t'' : Time) (s : Limiter)
    → (hit key limit window t t' t'' s).1 ≡ (increment key window t t' s).1
unfolding hit
hit-state key limit window t t' t'' s = refl

-- The answer of a hit: it passes exactly when the window holds at most `limit` events with it.
pub hit-passes :
    (key : String) (limit window : ℕ) (t t' t'' : Time) (s : Limiter)
    → ((hit key limit window t t' t'' s).0 ≡ none) ↔ (live key t s + 1 ≤ limit)
unfolding hit
hit-passes key limit window t t' t'' s = (
  λ e. ground (arith, increment-count key window t t' s),
  λ h. ground (arith, increment-count key window t t' s),
)

pub lookup-hit_self :
    (key : String) (limit window : ℕ) (t t' t'' : Time) (s : Limiter)
    → lookup key (hit key limit window t t' t'' s).1
      ≡ some (live key t s + 1, ends_of (lookup key s) window t t')
lookup-hit_self key limit window t t' t'' s =
    rw (hit-state key limit window t t' t'' s) (lookup-increment key window t t' s)

pub lookup-hit_ne :
    (j key : String) (limit window : ℕ) (t t' t'' : Time) (s : Limiter)
    → j ≢ key
    → lookup j (hit key limit window t t' t'' s).1 ≡ lookup j s
lookup-hit_ne j key limit window t t' t'' s h =
    rw (hit-state key limit window t t' t'' s) (lookup-increment_ne j key window t t' s h)

admitted_window :
    (key : String) (limit window : ℕ) (n : ℕ) (ends_at : Time) (es : List Event) (s : Limiter)
    → lookup key s ≡ some (n, ends_at)
    → Within key ends_at es
    → admitted key limit window es s ≡ min (limit - n) (count key es)
unfolding admitted count
admitted_window key limit window n ends_at [] s open_window within = omega arith
admitted_window key limit window n ends_at (e ∷ es) s open_window (first, within) =
    elim (text_discrete key e.key) [
      | yes same ↦
          let s' = (hit e.key limit window e.t e.t' e.t'' s).1 in
          ground (
            arith,
            first same,
            hit-passes e.key limit window e.t e.t' e.t'' s,
            lookup-hit_self e.key limit window e.t e.t' e.t'' s,
            admitted_window key limit window (n + 1) ends_at es s',
          )
      | no other ↦
          let s' = (hit e.key limit window e.t e.t' e.t'' s).1 in
          ground (
            arith,
            admitted_window key limit window n ends_at es s'
                (lookup-hit_ne key e.key limit window e.t e.t' e.t'' s other ∙ open_window) within,
          )
    ]

-- No window of the key is open at an instant.
abbrev pub IsOver : Option Counter → Time → Type 0
IsOver none t = ⊤
IsOver (some (n, ends_at)) t = ends_at ≤ t

pub begins :
    (window : ℕ) (t t' : Time) (c : Option Counter)
    → IsOver c t
    → (live_of c t ≡ 0) × (ends_of c window t t' ≡ t' + seconds window)
begins window t t' none h = (refl, refl)
begins window t t' (some (n, ends_at)) h = (ground arith, ground arith)

pub lookup-increment_over :
    (key : String) (window : ℕ) (t t' : Time) (s : Limiter)
    → IsOver (lookup key s) t
    → lookup key (increment key window t t' s).1 ≡ some (1, t' + seconds window)
lookup-increment_over key window t t' s over =
    let (zero_live, ends) = begins window t t' (lookup key s) over in
    ground (arith, lookup-increment key window t t' s)

pub lookup-expire_over :
    (key : String) (t : Time) (s : Limiter)
    → IsOver (lookup key s) t
    → lookup key (expire key t s) ≡ none
unfolding expire
lookup-expire_over key t s over = elim (Option-cases (lookup key s)) [
  | inl missing ↦ ground arith
  | inr ((n, ends_at), present) ↦
      let ended : ends_at ≤ t = rw present at over in ground (arith, lookup-erase key key s)
]

-- From the first request of a window on, whatever requests of other keys come between, exactly
-- the first `limit` requests of a key that are counted before the window ends pass.
pub admitted-window :
    (limit window : ℕ) (e : Event) (es : List Event) (s : Limiter)
    → IsOver (lookup e.key s) e.t
    → Within e.key (e.t' + seconds window) es
    → admitted e.key limit window (e ∷ es) s ≡ min limit (count e.key (e ∷ es))
unfolding admitted count
admitted-window limit window e es s over within =
    let s' = (hit e.key limit window e.t e.t' e.t'' s).1 in
    let (zero_live, ends) = begins window e.t e.t' (lookup e.key s) over in
    ground (
      arith,
      hit-passes e.key limit window e.t e.t' e.t'' s,
      lookup-hit_self e.key limit window e.t e.t' e.t'' s,
      admitted_window e.key limit window 1 (e.t' + seconds window) es s',
    )

-- A refused request is told a whole number of seconds, at least one, after which the window is
-- over; and no more seconds than are needed.
pub hit-retry_after :
    (key : String) (limit window : ℕ) (t t' t'' u : Time) (s : Limiter) {r : ℕ}
    → (hit key limit window t t' t'' s).0 ≡ some r
    → (1 ≤ r)
      × (t'' + seconds r ≤ u → live key u (hit key limit window t t' t'' s).1 ≡ 0)
      × ((r ≡ 1) ⊎ (1 ≤ live key (t'' + seconds (r - 1)) (hit key limit window t t' t'' s).1))
unfolding hit retry_after_key
hit-retry_after key limit window t t' t'' u s {r} refused =
    let ends_at = ends_of (lookup key s) window t t' in
    let e = lookup-increment key window t t' s in
    let told : r ≡ retry_after ends_at t'' = ground (arith, lookup-increment key window t t' s) in
    (omega arith, λ h. ground (arith, e), ground (arith, e))
