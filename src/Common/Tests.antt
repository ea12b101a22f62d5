-- ===== src/Common/Tests.antt =====
-- Boolean tests, the conditional, and equality of keys as an instance.
use Prim.Native.Nat.{ℕ, compare, Ordering, ◌<◌, ◌≤◌}
use Prim.Native.String.{String}
use mathlib.Core.Path.{◌≡◌, refl, ◌∙◌, sym}
use mathlib.Core.Logic.{◌⊎◌, inl, inr, ◌≢◌}
use mathlib.Core.Bool.{Bool, true, false}
use mathlib.Core.Option.{Option, none, some}
use native.Mathlib.Omega.{arith}
use native.Mathlib.Decide.{ℕ_discrete}
use text.Mathlib.Text.{◌==◌ as str_eq}
use text.Mathlib.TextEquality.{eq_iff}

abbrev pub ⊤ : Type 0
⊤ = Unit

abbrev pub ltb : ℕ → ℕ → Bool
ltb a b = elim (compare a b) [ Ordering.lt ↦ true | _ ↦ false ]

abbrev pub leb : ℕ → ℕ → Bool
leb a b = elim (compare a b) [ Ordering.gt ↦ false | _ ↦ true ]

infix 1 if◌then◌else◌
abbrev pub if◌then◌else◌ {ℓ} : {A : Type ℓ} → Bool → A → A → A
if true then x else _ = x
if false then _ else y = y

-- Types whose values a program compares by `==` or uses as keys of a dict.
pub record Key {ℓ} (K : Type ℓ) : Type ℓ where
  pub dec : Discrete K

infix 50 ◌==◌
abbrev pub ◌==◌ {ℓ} : {K : Type ℓ} ⦃e : Key K⦄ → K → K → Bool
◌==◌ ⦃e⦄ a b = elim (e.dec a b) [ yes _ ↦ true | no _ ↦ false ]

instance abbrev pub nat_key : Key ℕ
nat_key = record { dec = ℕ_discrete }

text_dec : (a b : String) (t : Bool) → str_eq a b ≡ t → Dec (a ≡ b)
text_dec a b true h = yes ((eq_iff a b).0 h)
text_dec a b false h = no (λ e. differ (sym h ∙ (eq_iff a b).1 e))
  where
    differ : ¬ (false ≡ true)
    differ e = cc

unfoldable pub text_discrete : Discrete String
unfolding text_dec
text_discrete a b = text_dec a b (str_eq a b) refl

instance abbrev pub text_key : Key String
text_key = record { dec = text_discrete }

-- To split on a computed value and keep the equation.
pub Bool-cases : (b : Bool) → (b ≡ true) ⊎ (b ≡ false)
Bool-cases true = inl refl
Bool-cases false = inr refl

pub Option-cases {ℓ} : {A : Type ℓ} (o : Option A) → (o ≡ none) ⊎ ((a : A) × (o ≡ some a))
Option-cases none = inl refl
Option-cases (some a) = inr (a, refl)

pub ==_refl {ℓ} : {K : Type ℓ} ⦃e : Key K⦄ (a : K) → (a == a) ≡ true
==_refl ⦃e⦄ a = ground arith

pub ==_ne {ℓ} : {K : Type ℓ} ⦃e : Key K⦄ (a b : K) → a ≢ b → (a == b) ≡ false
==_ne ⦃e⦄ a b h = ground arith

pub ltb→lt : (a b : ℕ) → ltb a b ≡ true → a < b
ltb→lt a b h = ground arith

pub lt→ltb : (a b : ℕ) → a < b → ltb a b ≡ true
lt→ltb a b h = ground arith

pub leb→le : (a b : ℕ) → leb a b ≡ true → a ≤ b
leb→le a b h = ground arith

pub ltb-leb : (a b : ℕ) → a < b → leb b a ≡ false
ltb-leb a b h = ground arith

pub ne_of_== {ℓ} : {K : Type ℓ} ⦃e : Key K⦄ (a b : K) → (a == b) ≡ false → a ≢ b
ne_of_== ⦃e⦄ a b h = λ p. ground arith

pub eq_of_== {ℓ} : {K : Type ℓ} ⦃e : Key K⦄ (a b : K) → (a == b) ≡ true → a ≡ b
eq_of_== ⦃e⦄ a b h = ground arith

pub ==_comm {ℓ} : {K : Type ℓ} ⦃e : Key K⦄ (a b : K) → (a == b) ≡ (b == a)
==_comm ⦃e⦄ a b = ground arith
