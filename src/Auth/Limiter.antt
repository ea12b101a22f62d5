-- ===== src/Auth/Limiter.antt =====
-- `InMemoryAttemptLimiter` of backend/src/smeshariki_ai/auth/memory.py: fixed-window counters.
-- Each reading of the clock is an argument of its own, in the order of the calls.
pub mod Window
pub mod Failures
use bmstu_nirs.Common.{
  text_key, Dict, Option, String, erase, if◌then◌else◌, insert, leb, lookup, ltb, max, none, some,
  ℕ, ◌+◌, ◌-◌, ◌/◌,
}
use bmstu_nirs.Auth.Models.{Time, seconds}

-- A counter: the events of the window, and when the window ends.
abbrev pub Counter : Type 0
Counter = ℕ × Time

abbrev pub Limiter : Type 0
Limiter = Dict String Counter

unfoldable pub expire : String → Time → Limiter → Limiter
expire key t s = elim (lookup key s) [
  | none ↦ s
  | some (count, ends_at) ↦ if leb ends_at t then erase key s else s
]

-- `counters.get(key, default)`
abbrev pub counter_or : Option Counter → Counter → Counter
counter_or none default = default
counter_or (some c) default = c

unfoldable pub increment : String → ℕ → Time → Time → Limiter → ℕ × Limiter
unfolding expire
increment key window_seconds t t' s =
    let s' = expire key t s in
    let (count, ends_at) = counter_or (lookup key s') (0, t' + seconds window_seconds) in
    (count + 1, insert key (count + 1, ends_at) s')

-- `max(1, ceil(remaining))`. Where the source subtracts a later time, so that the remaining
-- seconds are negative, the difference here is 0, and both give 1.
abbrev pub retry_after : Time → Time → ℕ
retry_after ends_at t = max 1 ((ends_at - t + 999_999) / 1_000_000)

-- `_retry_after`: it is called only where the key has a counter.
unfoldable pub retry_after_key : String → Time → Limiter → ℕ
retry_after_key key t s = elim (lookup key s) [
  | none ↦ 0
  | some (count, ends_at) ↦ retry_after ends_at t
]

unfoldable pub hit : String → ℕ → ℕ → Time → Time → Time → Limiter → Option ℕ × Limiter
unfolding increment retry_after_key
hit key limit window_seconds t t' t'' s =
    let (count, s') = increment key window_seconds t t' s in
    (if ltb limit count then some (retry_after_key key t'' s') else none, s')

unfoldable pub blocked : String → ℕ → Time → Time → Limiter → Option ℕ × Limiter
unfolding expire retry_after_key
blocked key limit t t' s =
    let s' = expire key t s in
    let answer : Option ℕ = elim (lookup key s') [
      | none ↦ none
      | some (count, ends_at) ↦ if ltb count limit then none else some (retry_after_key key t' s')
    ] in
    (answer, s')

unfoldable pub record_failure : String → ℕ → Time → Time → Limiter → Limiter
unfolding increment
record_failure key window_seconds t t' s = (increment key window_seconds t t' s).1

unfoldable pub reset : String → Limiter → Limiter
reset key s = erase key s
