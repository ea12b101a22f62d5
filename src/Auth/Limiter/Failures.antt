-- ===== src/Auth/Limiter/Failures.antt =====
-- Failed attempts: `record_failure`, `blocked` and `reset`.
use bmstu_nirs.Common.{
  text_key, text_discrete, List, String, [], arith, erase, lookup, lookup-erase, none, some, ℕ, ◌+◌,
  ◌<◌, ◌↔◌, ◌∙◌, ◌∷◌, ◌≡◌, ◌≢◌, ◌≤◌, ◌⊎◌,
}
use bmstu_nirs.Auth.Models.{Time, seconds}
use bmstu_nirs.Auth.Limiter.{Limiter, blocked, increment, record_failure, reset}
use bmstu_nirs.Auth.Limiter.Window.{
  Event, IsOver, Within, count, live, lookup-increment, lookup-increment_ne, lookup-increment_over,
}

-- A run of failures of any keys.
pub record_failures : ℕ → List Event → Limiter → Limiter
record_failures window [] s = s
record_failures window (e ∷ es) s =
    record_failures window es (record_failure e.key window e.t e.t' s)

failures_counted :
    (key : String) (window n : ℕ) (ends_at : Time) (es : List Event) (s : Limiter)
    → lookup key s ≡ some (n, ends_at)
    → Within key ends_at es
    → lookup key (record_failures window es s) ≡ some (n + count key es, ends_at)
unfolding record_failures count record_failure
failures_counted key window n ends_at [] s open_window within = rw open_window (ground arith)
failures_counted key window n ends_at (e ∷ es) s open_window (first, within) =
    let s' = (increment e.key window e.t e.t' s).1 in
    elim (text_discrete key e.key) [
      | yes same ↦ ground (
        arith,
        first same,
        lookup-increment e.key window e.t e.t' s,
        failures_counted key window (n + 1) ends_at es s',
      )
      | no other ↦ ground (
        arith,
        failures_counted key window n ends_at es s'
            (lookup-increment_ne key e.key window e.t e.t' s other ∙ open_window) within,
      )
    ]

-- `blocked` answers by the events that count at its first reading of the clock.
pub blocked-live :
    (key : String) (limit : ℕ) (t t' : Time) (s : Limiter)
    → 1 ≤ limit
    → ((blocked key limit t t' s).0 ≡ none) ↔ (live key t s < limit)
unfolding blocked
blocked-live key limit t t' s positive =
    (λ e. ground (arith, lookup-erase key key s), λ h. ground (arith, lookup-erase key key s))

-- After a run of failures that begins a window of the key, `blocked` refuses exactly when the
-- key has failed `limit` times or more and the window has not ended.
pub blocked-record_failures :
    (limit window : ℕ) (e : Event) (es : List Event) (t t' : Time) (s : Limiter)
    → 1 ≤ limit
    → IsOver (lookup e.key s) e.t
    → Within e.key (e.t' + seconds window) es
    → ((blocked e.key limit t t' (record_failures window (e ∷ es) s)).0 ≡ none)
      ↔ ((count e.key (e ∷ es) < limit) ⊎ (e.t' + seconds window ≤ t))
unfolding record_failures count record_failure
blocked-record_failures limit window e es t t' s positive over within =
    let s' = (increment e.key window e.t e.t' s).1 in
    let begun : lookup e.key s' ≡ some (1, e.t' + seconds window) =
      lookup-increment_over e.key window e.t e.t' s over in
    let counted = failures_counted e.key window 1 (e.t' + seconds window) es s' begun within in
    let answer = blocked-live e.key limit t t' (record_failures window es s') positive in
    (λ h. ground (arith, answer, counted), λ h. ground (arith, answer, counted))

-- After a reset the key is not blocked, and what other keys are answered is as before.
pub blocked-reset :
    (key j : String) (limit : ℕ) (t t' : Time) (s : Limiter)
    → j ≢ key
    → ((blocked key limit t t' (reset key s)).0 ≡ none)
      × ((blocked j limit t t' (reset key s)).0 ≡ (blocked j limit t t' s).0)
unfolding blocked reset
blocked-reset key j limit t t' s other = (
  ground (arith, lookup-erase key key s),
  ground (arith, lookup-erase j key s, lookup-erase j j s, lookup-erase j j (erase key s)),
)
