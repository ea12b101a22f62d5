-- ===== src/Auth/Service/Monad.antt =====
-- A handler's steps: the stores, and a result or an error. What a step wrote stays written when a
-- later one raises.
use bmstu_nirs.Common.{Bool, Option, if◌then◌else◌, none, some, ⊤}
use bmstu_nirs.Auth.Models.{AuthError, Result, err, ok}
use bmstu_nirs.Auth.Limiter.{Limiter}
use bmstu_nirs.Auth.Blacklist.{Blacklist}
use bmstu_nirs.Auth.Users.{Users}
use bmstu_nirs.Auth.Sessions.{Sessions}

pub record Stores : Type 0 where
  pub users : Users
  pub sessions : Sessions
  pub blacklist : Blacklist
  pub limiter : Limiter

abbrev pub Action : Type 0 → Type 0
Action A = Stores → Result A × Stores

module _ {A : Type 0} where
  abbrev pub pure : A → Action A
  pure a s = (ok a, s)

  abbrev pub raise : AuthError → Action A
  raise e s = (err e, s)

  abbrev pub gets : (Stores → A) → Action A
  gets f s = (ok (f s), s)

  abbrev pub or_raise : Option A → AuthError → Action A
  or_raise none e = raise e
  or_raise (some a) _ = pure a

  abbrev pub lift : Result A → Action A
  lift r s = (r, s)

-- While a handler awaits a password hash, other handlers change the stores.
abbrev pub await : (Stores → Stores) → Action ⊤
await others s = (ok tt, others s)

infixl 5 ◌>>=◌ ◌>>◌
abbrev pub ◌>>=◌ : {A B : Type 0} → Action A → (A → Action B) → Action B
◌>>=◌ m f s = let (r, s') = m s in elim r [ ok a ↦ f a s' | err e ↦ (err e, s') ]

abbrev pub ◌>>◌ : {A B : Type 0} → Action A → Action B → Action B
m >> k = m >>= λ _. k

abbrev pub raise_if : Bool → AuthError → Action ⊤
raise_if c e s = (if c then err e else ok tt, s)

module _ {A : Type 0} where
  abbrev pub with_limiter : (Limiter → A × Limiter) → Action A
  with_limiter f s = let (a, l) = f s.limiter in (ok a, record s { limiter = l })

  abbrev pub with_sessions : (Sessions → A × Sessions) → Action A
  with_sessions f s = let (a, t) = f s.sessions in (ok a, record s { sessions = t })

abbrev pub on_limiter : (Limiter → Limiter) → Action ⊤
on_limiter f s = (ok tt, record s { limiter = f s.limiter })

abbrev pub on_sessions : (Sessions → Sessions) → Action ⊤
on_sessions f s = (ok tt, record s { sessions = f s.sessions })

abbrev pub on_blacklist : (Blacklist → Blacklist) → Action ⊤
on_blacklist f s = (ok tt, record s { blacklist = f s.blacklist })

abbrev pub on_users : (Users → Users) → Action ⊤
on_users f s = (ok tt, record s { users = f s.users })
