-- ===== src/Auth/Service/Login.antt =====
-- `login`: what it answers, and the lockout after repeated failures.
use Prim.Native.Nat.{min}
use bmstu_nirs.Common.{
  nat_key, text_key, All, All-mono, Bool, List, Option, Option-cases, String, [], ap, arith, dec_lt,
  inl, inr, length, lookup, none, not, refl, some, true, ℕ, ◌+◌, ◌<◌, ◌∙◌, ◌∷◌, ◌≡◌, ◌≤◌,
}
use bmstu_nirs.Auth.Models.{
  Time, UserWithPassword, err, invalid_credentials, seconds, too_many_attempts,
}
use bmstu_nirs.Auth.Tokens.{Externals}
use bmstu_nirs.Auth.Limiter
use bmstu_nirs.Auth.Limiter.{Limiter}
use bmstu_nirs.Auth.Limiter.Window.{IsOver, begins, live, lookup-expire_over, lookup-increment}
use bmstu_nirs.Auth.Limiter.Failures.{blocked-live}
use bmstu_nirs.Auth.Users
use bmstu_nirs.Auth.Service.Monad.{Stores}
use bmstu_nirs.Auth.Service.{Config, Fresh, failure_key, login}

module _ (x : Externals) (config : Config) where
  -- The login is unknown, or the password is not the user's.
  abbrev pub refuses : String → Option UserWithPassword → Bool
  refuses password none = true
  refuses password (some r) = not (x.verify r.password_hash password)

  -- A login attempt: the password, what the call draws at random, the clock's readings, and what
  -- other handlers do while the password is verified.
  pub record Attempt : Type 0 where
    pub password : String
    pub fresh : Fresh
    pub clock : ℕ → Time
    pub others : Stores → Stores

  module _ (name client_ip : String) where
    abbrev key : String
    key = failure_key x name client_ip

    -- Other handlers that leave the failures under the key and the user of the login as they are.
    abbrev pub IsApart : (Stores → Stores) → Type 0
    IsApart others =
        (s : Stores)
        → (lookup key (others s).limiter ≡ lookup key s.limiter)
          × (Users.get_by_login x.lower name (others s).users
              ≡ Users.get_by_login x.lower name s.users)

    -- The stores once an attempt passes the limit and the password has been verified.
    abbrev verified : (ℕ → Time) → (Stores → Stores) → Stores → Stores
    verified clock others s = others (record s {
      limiter = (Limiter.blocked key config.login_failures (clock 0) (clock 1) s.limiter).1;
    })

    -- Below the limit, an unknown login and a wrong password are answered alike: the same error,
    -- and one failure counted under the same key.
    pub login-refused :
        (password : String) (fresh : Fresh) (clock : ℕ → Time) (others : Stores → Stores)
        (s : Stores)
        → live key (clock 0) s.limiter < config.login_failures
        → refuses password (Users.get_by_login x.lower name s.users) ≡ true
        → login x config clock others name password client_ip fresh s ≡ (
          err invalid_credentials,
          record (verified clock others s) {
            limiter =
                Limiter.record_failure key config.login_failure_window_seconds
                  (clock 2)
                  (clock 3)
                  (verified clock others s).limiter;
          },
        )
    unfolding login
    login-refused password fresh clock others s below refused =
        let passes : (Limiter.blocked key config.login_failures (clock 0) (clock 1) s.limiter).0
            ≡ none =
          (blocked-live key config.login_failures (clock 0) (clock 1) s.limiter (omega arith)).1
            below in
        elim (Option-cases (Users.get_by_login x.lower name s.users)) [
          | inl unknown ↦ ground arith
          | inr (r, found) ↦ ground arith
        ]

    -- At the limit no password is looked at: the attempt is refused and only the limiter can change.
    pub login-locked :
        (password : String) (fresh : Fresh) (clock : ℕ → Time) (others : Stores → Stores)
        (s : Stores)
        → 1 ≤ config.login_failures
        → config.login_failures ≤ live key (clock 0) s.limiter
        → (r : ℕ) × (login x config clock others name password client_ip fresh s ≡ (
          err (too_many_attempts "login_failures" r),
          record s {
            limiter = (Limiter.blocked key config.login_failures (clock 0) (clock 1) s.limiter).1;
          },
        ))
    unfolding login
    login-locked password fresh clock others s positive above =
        elim (Option-cases
          (Limiter.blocked key config.login_failures (clock 0) (clock 1) s.limiter).0) [
            | inl passes ↦ absurd (
                ground (
                  arith,
                  (blocked-live key config.login_failures (clock 0) (clock 1) s.limiter positive).0
                      passes,
                ))
            | inr (r, refused) ↦ (r, ground arith)
          ]

    -- The stores after a run of attempts.
    pub run_attempts : List Attempt → Stores → Stores
    run_attempts [] s = s
    run_attempts (a ∷ later) s =
        run_attempts later (login x config a.clock a.others name a.password client_ip a.fresh s).1

    -- An attempt that the user store refuses, with the clock's readings before an instant.
    abbrev pub FailsBefore : Time → Stores → Attempt → Type 0
    FailsBefore ends_at s a =
        (refuses a.password (Users.get_by_login x.lower name s.users) ≡ true)
        × (a.clock 0 < ends_at)
        × (a.clock 2 < ends_at)
        × IsApart a.others

    blocked-counter :
        (limit : ℕ) (t t' ends_at n : ℕ) (l : Limiter)
        → lookup key l ≡ some (n, ends_at)
        → t < ends_at
        → lookup key (Limiter.blocked key limit t t' l).1 ≡ some (n, ends_at)
    unfolding Limiter.blocked
    blocked-counter limit t t' ends_at n l present h = ground arith

    -- What an attempt that fails within an open window does to the failures counted in it.
    attempt-counter :
        (a : Attempt) (n : ℕ) (ends_at : Time) (s : Stores)
        → 1 ≤ config.login_failures
        → lookup key s.limiter ≡ some (n, ends_at)
        → n ≤ config.login_failures
        → FailsBefore ends_at s a
        → let s' = (login x config a.clock a.others name a.password client_ip a.fresh s).1 in
          (Users.get_by_login x.lower name s'.users ≡ Users.get_by_login x.lower name s.users)
          × (lookup key s'.limiter ≡ some (min config.login_failures (n + 1), ends_at))
    unfolding Limiter.record_failure
    attempt-counter a n ends_at s positive present small (refused, early, early', apart) =
        let w = config.login_failure_window_seconds in
        let l' = (Limiter.blocked key config.login_failures (a.clock 0) (a.clock 1) s.limiter).1 in
        let same =
          blocked-counter config.login_failures (a.clock 0) (a.clock 1) ends_at n s.limiter present
            early in
        elim (dec_lt n config.login_failures) [
          | yes below ↦
              let e = login-refused a.password a.fresh a.clock a.others s (ground arith) refused in
              let m = verified a.clock a.others s in
              let (counter, user) = apart (record s { limiter = l' }) in
              (
                ap (λ p. Users.get_by_login x.lower name p.1.users) e ∙ user,
                ap (λ p. lookup key p.1.limiter) e
                    ∙ ground (arith, lookup-increment key w (a.clock 2) (a.clock 3) m.limiter),
              )
          | no above ↦
              let (r, e) =
                login-locked a.password a.fresh a.clock a.others s positive (ground arith) in
              ground arith
        ]

    run-counter :
        (attempts : List Attempt) (n : ℕ) (ends_at : Time) (s : Stores)
        → 1 ≤ config.login_failures
        → lookup key s.limiter ≡ some (n, ends_at)
        → n ≤ config.login_failures
        → All (FailsBefore ends_at s) attempts
        → lookup key (run_attempts attempts s).limiter
          ≡ some (min config.login_failures (n + length attempts), ends_at)
    unfolding run_attempts
    run-counter [] n ends_at s positive present small fails = ground arith
    run-counter (a ∷ later) n ends_at s positive present small (first, fails) =
        let s' = (login x config a.clock a.others name a.password client_ip a.fresh s).1 in
        let (same, present') = attempt-counter a n ends_at s positive present small first in
        let fails' : All (FailsBefore ends_at s') later =
          All-mono (FailsBefore ends_at s) (FailsBefore ends_at s')
            (λ b h. (rw same h.0, h.1, h.2, h.3)) later fails in
        ground (
          arith,
          run-counter later (min config.login_failures (n + 1)) ends_at s' positive present'
              (omega arith) fails',
        )

    first-counter :
        (a : Attempt) (s : Stores)
        → 1 ≤ config.login_failures
        → IsOver (lookup key s.limiter) (a.clock 0)
        → refuses a.password (Users.get_by_login x.lower name s.users) ≡ true
        → IsApart a.others
        → let s' = (login x config a.clock a.others name a.password client_ip a.fresh s).1 in
          (Users.get_by_login x.lower name s'.users ≡ Users.get_by_login x.lower name s.users)
          × (lookup key s'.limiter
              ≡ some (1, a.clock 3 + seconds config.login_failure_window_seconds))
    unfolding Limiter.record_failure Limiter.blocked
    first-counter a s positive over refused apart =
        let w = config.login_failure_window_seconds in
        let l' = (Limiter.blocked key config.login_failures (a.clock 0) (a.clock 1) s.limiter).1 in
        let (zero_live, ends) = begins w (a.clock 0) (a.clock 3) (lookup key s.limiter) over in
        let e = login-refused a.password a.fresh a.clock a.others s (ground arith) refused in
        let closed = lookup-expire_over key (a.clock 0) s.limiter over in
        let m = verified a.clock a.others s in
        let (counter, user) = apart (record s { limiter = l' }) in
        (
          ap (λ p. Users.get_by_login x.lower name p.1.users) e ∙ user,
          ap (λ p. lookup key p.1.limiter) e
              ∙ ground (arith, lookup-increment key w (a.clock 2) (a.clock 3) m.limiter),
        )

    -- Once the login is locked, attempts within the window keep the failures and open no session.
    locked-counter :
        (later : List Attempt) (ends_at : Time) (s : Stores)
        → 1 ≤ config.login_failures
        → lookup key s.limiter ≡ some (config.login_failures, ends_at)
        → All (λ a. a.clock 0 < ends_at) later
        → let s' = run_attempts later s in
          (lookup key s'.limiter ≡ some (config.login_failures, ends_at))
          × (s'.sessions ≡ s.sessions)
    unfolding run_attempts
    locked-counter [] ends_at s positive present early = (present, refl)
    locked-counter (a ∷ later) ends_at s positive present (first, early) =
        let n = config.login_failures in
        let (r, e) = login-locked a.password a.fresh a.clock a.others s positive (ground arith) in
        let s1 = (login x config a.clock a.others name a.password client_ip a.fresh s).1 in
        let same = blocked-counter n (a.clock 0) (a.clock 1) ends_at n s.limiter present first in
        let (present', sessions) =
          locked-counter later ends_at s1 positive (ap (λ p. lookup key p.1.limiter) e ∙ same)
            early in
        (present', sessions ∙ ap (λ p. p.1.sessions) e)

    -- When the window that an attempt's failure begins ends.
    abbrev pub window_end : Attempt → Time
    window_end a = a.clock 3 + seconds config.login_failure_window_seconds

    -- Attempts to log in from an address, one after another: the first begins a window and fails, and
    -- those that follow fail before the window ends, until they are `login_failures` or more; while
    -- their passwords are verified, other handlers leave the failures under the key and the user as
    -- they are. Then every attempt that starts before the window ends, after however many others,
    -- is refused with `TooManyAttemptsError`, also with the right password, and none of them opens a
    -- session.
    pub login-lockout :
        (first : Attempt) (attempts later : List Attempt) (next : Attempt) (s : Stores)
        → 1 ≤ config.login_failures
        → config.login_failures ≤ 1 + length attempts
        → IsOver (lookup key s.limiter) (first.clock 0)
        → refuses first.password (Users.get_by_login x.lower name s.users) ≡ true
        → IsApart first.others
        → All (FailsBefore (window_end first) s) attempts
        → All (λ a. a.clock 0 < window_end first) later
        → next.clock 0 < window_end first
        → let locked = run_attempts (first ∷ attempts) s in
          let s' = run_attempts later locked in
          let (answer, s'') =
            login x config next.clock next.others name next.password client_ip next.fresh s' in
          ((r : ℕ) × (answer ≡ err (too_many_attempts "login_failures" r)))
          × (s''.sessions ≡ locked.sessions)
    unfolding run_attempts
    login-lockout first attempts later next s positive enough over refused apart fails between
          early =
        let s1 =
          (login x config first.clock first.others name first.password client_ip first.fresh s).1 in
        let ends_at = first.clock 3 + seconds config.login_failure_window_seconds in
        let (same, present) = first-counter first s positive over refused apart in
        let counted = run-counter attempts 1 ends_at s1 positive present positive (
          All-mono (FailsBefore ends_at s) (FailsBefore ends_at s1)
            (λ b h. (rw same h.0, h.1, h.2, h.3)) attempts fails) in
        let locked = run_attempts attempts s1 in
        let (present', sessions) =
          locked-counter later ends_at locked positive (counted ∙ ground arith) between in
        let s' = run_attempts later locked in
        let (r, e) =
          login-locked next.password next.fresh next.clock next.others s' positive (ground arith) in
        ((r, ap (λ p. p.0) e), ap (λ p. p.1.sessions) e ∙ sessions)
