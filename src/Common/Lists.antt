-- ===== src/Common/Lists.antt =====
-- Lists measured by native numbers, and predicates and tests over a list.
use Prim.Native.Nat.{ℕ, zero, suc, ◌+◌, ◌≤◌, min}
use mathlib.Core.Path.{◌≡◌, refl, subst, ◌∙◌}
use mathlib.Core.Bool.{Bool, true, false, ◌||◌}
use mathlib.Core.Option.{Option, none, some, some-injective}
use mathlib.Core.List.{List, [], ◌∷◌, ◌++◌, map}
use native.Mathlib.Omega.{arith}
use bmstu_nirs.Common.Tests.{if◌then◌else◌}

module _ {ℓ} {A : Type ℓ} where
  abbrev pub length : List A → ℕ
  length [] = 0
  length (x ∷ xs) = suc (length xs)

  abbrev pub take : ℕ → List A → List A
  take zero xs = []
  take (suc n) [] = []
  take (suc n) (x ∷ xs) = x ∷ take n xs

  pub length-take-le : (n : ℕ) (xs : List A) → length (take n xs) ≤ n
  length-take-le zero xs = omega arith
  length-take-le (suc n) [] = omega arith
  length-take-le (suc n) (x ∷ xs) = omega (arith, length-take-le n xs)

  pub length-take : (n : ℕ) (xs : List A) → length (take n xs) ≡ min n (length xs)
  length-take zero xs = omega arith
  length-take (suc n) [] = omega arith
  length-take (suc n) (x ∷ xs) = omega (arith, length-take n xs)

  pub length-append : (xs ys : List A) → length (xs ++ ys) ≡ length xs + length ys
  length-append [] ys = omega arith
  length-append (x ∷ xs) ys = omega (arith, length-append xs ys)

  -- `any(test(x) for x in xs)`
  abbrev pub any : (A → Bool) → List A → Bool
  any test [] = false
  any test (x ∷ xs) = test x || any test xs

  -- `next((x for x in xs if test(x)), None)`
  abbrev pub find : (A → Bool) → List A → Option A
  find test [] = none
  find test (x ∷ xs) = if test x then some x else find test xs

  -- `{x.key: x for x in xs}.get(key)`, where `test` compares the key: the last one counts.
  abbrev pub find_last : (A → Bool) → List A → Option A
  find_last test [] = none
  find_last test (x ∷ xs) = elim (find_last test xs) [
    | some y ↦ some y
    | none ↦ if test x then some x else none
  ]

  -- `[x for x in xs if test(x)]`
  abbrev pub keep : (A → Bool) → List A → List A
  keep test [] = []
  keep test (x ∷ xs) = if test x then x ∷ keep test xs else keep test xs

module _ {ℓ κ} {A : Type ℓ} {B : Type κ} where
  -- `[y for x in xs for y in f(x)]`
  abbrev pub concat_map : (A → List B) → List A → List B
  concat_map f [] = []
  concat_map f (x ∷ xs) = f x ++ concat_map f xs

  -- `[y for x in xs if (y := f(x)) is not None]`
  abbrev pub choose : (A → Option B) → List A → List B
  choose f [] = []
  choose f (x ∷ xs) = elim (f x) [ none ↦ choose f xs | some y ↦ y ∷ choose f xs ]

module _ {ℓ} {A : Type ℓ} where
  pub find-passes : (test : A → Bool) (a : A) (xs : List A) → find test xs ≡ some a → test a ≡ true
  find-passes test a [] e = cc
  find-passes test a (x ∷ xs) e = ground (arith, find-passes test a xs)

abbrev pub All {ℓ κ} : {A : Type ℓ} → (A → Type κ) → List A → Type κ
All P [] = Unit
All P (x ∷ xs) = P x × All P xs

module _ {ℓ κ} {A : Type ℓ} (P : A → Type κ) where
  pub All-append : (xs ys : List A) → All P xs → All P ys → All P (xs ++ ys)
  All-append [] ys hx hy = hy
  All-append (x ∷ xs) ys hx hy = (hx.0, All-append xs ys hx.1 hy)

  pub All-split : (xs ys : List A) → All P (xs ++ ys) → All P xs × All P ys
  All-split [] ys h = (tt, h)
  All-split (x ∷ xs) ys h = let (hx, hy) = All-split xs ys h.1 in ((h.0, hx), hy)

  pub All-mono {κ'} :
      (Q : A → Type κ') → ((x : A) → P x → Q x) → (xs : List A) → All P xs → All Q xs
  All-mono Q f [] h = tt
  All-mono Q f (x ∷ xs) h = (f x h.0, All-mono Q f xs h.1)

  pub All-take : (n : ℕ) (xs : List A) → All P xs → All P (take n xs)
  All-take zero xs h = tt
  All-take (suc n) [] h = tt
  All-take (suc n) (x ∷ xs) h = (h.0, All-take n xs h.1)

  pub All-keep : (test : A → Bool) (xs : List A) → All P xs → All P (keep test xs)
  All-keep test [] h = tt
  All-keep test (x ∷ xs) h = ground (arith, All-keep test xs h.1)

  pub find_last-All :
      (test : A → Bool) (a : A) (xs : List A) → find_last test xs ≡ some a → All P xs → P a
  find_last-All test a [] e h = cc
  find_last-All test a (x ∷ xs) e h =
      go (find_last test xs) refl (test x) e (λ p. find_last-All test a xs p h.1)
    where
      go :
          (o : Option A)
          → find_last test xs ≡ o
          → (b : Bool) → elim o [ some y ↦ some y | none ↦ if b then some x else none ] ≡ some a
          → (find_last test xs ≡ some a → P a)
          → P a
      go (some y) found b e ih = ih (found ∙ e)
      go none found true e ih = subst P (some-injective x a e) h.0
      go none found false e ih = cc

pub All-map {ℓ κ ℓ'} :
    {A : Type ℓ} {B : Type κ} (f : A → B) (P : B → Type ℓ') (xs : List A)
    → All (λ x. P (f x)) xs
    → All P (map f xs)
All-map f P [] h = tt
All-map f P (x ∷ xs) h = (h.0, All-map f P xs h.1)

pub concat_map-All {ℓ κ ℓ'} :
    {A : Type ℓ} {B : Type κ} (f : A → List B) (P : B → Type ℓ') (xs : List A)
    → All P (concat_map f xs)
    → All (λ x. All P (f x)) xs
concat_map-All f P [] h = tt
concat_map-All f P (x ∷ xs) h =
    let (first, rest) = All-split P (f x) (concat_map f xs) h in (first, concat_map-All f P xs rest)

module _ {ℓ κ ℓ' κ'} {A : Type ℓ} {B : Type κ} (f : A → Option B) (P : A → Type ℓ')
    (Q : B → Type κ') (ok : (x : A) (y : B) → f x ≡ some y → P x → Q y) where
  pub All-choose : (xs : List A) → All P xs → All Q (choose f xs)
  All-choose [] h = tt
  All-choose (x ∷ xs) h = go (f x) refl (All-choose xs h.1)
    where
      go :
          (o : Option B)
          → f x ≡ o
          → All Q (choose f xs)
          → All Q (elim o [ none ↦ choose f xs | some y ↦ y ∷ choose f xs ])
      go none e rest = rest
      go (some y) e rest = (ok x y e h.0, rest)

pub any-find_last {ℓ} :
    {A : Type ℓ} (test : A → Bool) (xs : List A)
    → any test xs ≡ elim (find_last test xs) [ none ↦ false | some _ ↦ true ]
any-find_last test [] = refl
any-find_last test (x ∷ xs) = ground (arith, any-find_last test xs)

module _ {ℓ κ} {A : Type ℓ} {B : Type κ} (f : A → B) where
  pub length-map : (xs : List A) → length (map f xs) ≡ length xs
  length-map [] = refl
  length-map (x ∷ xs) = omega (arith, length-map xs)

  pub length-keep-map :
      (test : B → Bool) (xs : List A)
      → length (keep test (map f xs)) ≡ length (keep (λ x. test (f x)) xs)
  length-keep-map test [] = refl
  length-keep-map test (x ∷ xs) = ground (arith, length-keep-map test xs)
