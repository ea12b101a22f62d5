-- ===== src/Common/Sorting.antt =====
-- `sorted(xs, key=...)` by a text: texts are compared by their code points, and the sort is stable.
use Prim.Native.Char.{code}
use Prim.Native.String.{String}
use mathlib.Core.Path.{◌≡◌, refl, ap, ◌∙◌}
use mathlib.Core.Logic.{inl, inr}
use mathlib.Core.Bool.{Bool, true, false, ◌&&◌, ◌||◌}
use mathlib.Core.Option.{none, some}
use mathlib.Core.List.{List, [], ◌∷◌}
use native.Mathlib.Omega.{arith}
use bmstu_nirs.Common.Tests.{ltb, leb, if◌then◌else◌, Bool-cases}
use bmstu_nirs.Common.Lists.{All, All-mono, any, find_last, keep, length}

-- `s <= t`
unfoldable pub text_leb : String → String → Bool
text_leb String.[] t = true
text_leb (String.◌∷◌ c s) String.[] = false
text_leb (String.◌∷◌ c s) (String.◌∷◌ d t) =
    ltb (code c) (code d) || (leb (code c) (code d) && text_leb s t)

pub text_leb_total : (s t : String) → text_leb s t ≡ false → text_leb t s ≡ true
unfolding text_leb
text_leb_total String.[] t h = cc
text_leb_total (String.◌∷◌ c s) String.[] h = refl
text_leb_total (String.◌∷◌ c s) (String.◌∷◌ d t) h = ground (arith, text_leb_total s t)

pub text_leb_trans :
    (s t u : String) → text_leb s t ≡ true → text_leb t u ≡ true → text_leb s u ≡ true
unfolding text_leb
text_leb_trans String.[] t u h k = refl
text_leb_trans (String.◌∷◌ c s) String.[] u h k = cc
text_leb_trans (String.◌∷◌ c s) (String.◌∷◌ d t) String.[] h k = cc
text_leb_trans (String.◌∷◌ c s) (String.◌∷◌ d t) (String.◌∷◌ e u) h k =
    ground (arith, text_leb_trans s t u)

module _ {ℓ} {A : Type ℓ} (key : A → String) where
  unfoldable pub insert_by : A → List A → List A
  insert_by x [] = x ∷ []
  insert_by x (y ∷ ys) =
      let rest = insert_by x ys in if text_leb (key x) (key y) then x ∷ y ∷ ys else y ∷ rest

  unfoldable pub sort_by : List A → List A
  unfolding insert_by
  sort_by [] = []
  sort_by (x ∷ xs) = insert_by x (sort_by xs)

  module _ {κ} (P : A → Type κ) where
    All-insert_by : (x : A) (ys : List A) → P x → All P ys → All P (insert_by x ys)
    unfolding insert_by
    All-insert_by x [] h hs = (h, hs)
    All-insert_by x (y ∷ ys) h hs = elim (Bool-cases (text_leb (key x) (key y))) [
      | inl e ↦ rw e (h, hs)
      | inr e ↦ rw e (hs.0, All-insert_by x ys h hs.1)
    ]

    insert_by-All : (x : A) (ys : List A) → All P (insert_by x ys) → P x × All P ys
    unfolding insert_by
    insert_by-All x [] h = h
    insert_by-All x (y ∷ ys) h = elim (Bool-cases (text_leb (key x) (key y))) [
      | inl e ↦ rw e at h
      | inr e ↦
          let h' = rw e at h in let (first, rest) = insert_by-All x ys h'.1 in (first, (h'.0, rest))
    ]

    pub All-sort_by : (xs : List A) → All P xs → All P (sort_by xs)
    unfolding sort_by
    All-sort_by [] h = h
    All-sort_by (x ∷ xs) h = All-insert_by x (sort_by xs) h.0 (All-sort_by xs h.1)

    pub sort_by-All : (xs : List A) → All P (sort_by xs) → All P xs
    unfolding sort_by
    sort_by-All [] h = h
    sort_by-All (x ∷ xs) h =
        let (first, rest) = insert_by-All x (sort_by xs) h in (first, sort_by-All xs rest)

  any-insert_by :
      (test : A → Bool) (x : A) (ys : List A) → any test (insert_by x ys) ≡ (test x || any test ys)
  unfolding insert_by
  any-insert_by test x [] = refl
  any-insert_by test x (y ∷ ys) = ground (arith, any-insert_by test x ys)

  pub any-sort_by : (test : A → Bool) (xs : List A) → any test (sort_by xs) ≡ any test xs
  unfolding sort_by
  any-sort_by test [] = refl
  any-sort_by test (x ∷ xs) =
      any-insert_by test x (sort_by xs) ∙ ap (λ b. test x || b) (any-sort_by test xs)

  -- Each element is at most those after it.
  abbrev pub IsSortedBy : List A → Type ℓ
  IsSortedBy [] = Unit
  IsSortedBy (x ∷ xs) = All (λ y. text_leb (key x) (key y) ≡ true) xs × IsSortedBy xs

  insert_by-IsSortedBy : (x : A) (ys : List A) → IsSortedBy ys → IsSortedBy (insert_by x ys)
  unfolding insert_by
  insert_by-IsSortedBy x [] h = (tt, tt)
  insert_by-IsSortedBy x (y ∷ ys) (least, h) = elim (Bool-cases (text_leb (key x) (key y))) [
    | inl e ↦ rw e (
      (
        e,
        All-mono (λ z. text_leb (key y) (key z) ≡ true) (λ z. text_leb (key x) (key z) ≡ true)
            (λ z k. text_leb_trans (key x) (key y) (key z) e k) ys least,
      ),
      (least, h),
    )
    | inr e ↦ rw e (
      All-insert_by (λ z. text_leb (key y) (key z) ≡ true) x ys (text_leb_total (key x) (key y) e)
          least,
      insert_by-IsSortedBy x ys h,
    )
  ]

  pub sort_by-IsSortedBy : (xs : List A) → IsSortedBy (sort_by xs)
  unfolding sort_by
  sort_by-IsSortedBy [] = tt
  sort_by-IsSortedBy (x ∷ xs) = insert_by-IsSortedBy x (sort_by xs) (sort_by-IsSortedBy xs)

text_leb_refl : (s : String) → text_leb s s ≡ true
text_leb_refl s = elim (Bool-cases (text_leb s s)) [ inl e ↦ e | inr e ↦ text_leb_total s s e ]

-- A stable sort keeps the last of the elements with one key.
module _ {ℓ} {A : Type ℓ} (key : A → String) (test : A → Bool)
    (same : (x y : A) → test x ≡ true → test y ≡ true → key x ≡ key y) where
  find_last-insert_by :
      (x : A) (ys : List A) → find_last test (insert_by key x ys) ≡ find_last test (x ∷ ys)
  unfolding insert_by
  find_last-insert_by x [] = refl
  find_last-insert_by x (y ∷ ys) =
      ground (arith, find_last-insert_by x ys, same x y, text_leb_refl (key x))

  pub find_last-sort_by : (xs : List A) → find_last test (sort_by key xs) ≡ find_last test xs
  unfolding sort_by
  find_last-sort_by [] = refl
  find_last-sort_by (x ∷ xs) =
      find_last-insert_by x (sort_by key xs)
      ∙ ap (λ o. elim o [ some y ↦ some y | none ↦ if test x then some x else none ])
          (find_last-sort_by xs)

module _ {ℓ} {A : Type ℓ} (key : A → String) (test : A → Bool) where
  length-keep-insert_by :
      (x : A) (ys : List A) → length (keep test (insert_by key x ys)) ≡ length (keep test (x ∷ ys))
  unfolding insert_by
  length-keep-insert_by x [] = refl
  length-keep-insert_by x (y ∷ ys) = ground (arith, length-keep-insert_by x ys)

  -- A sort keeps how many elements pass a test.
  pub length-keep-sort_by :
      (xs : List A) → length (keep test (sort_by key xs)) ≡ length (keep test xs)
  unfolding sort_by
  length-keep-sort_by [] = refl
  length-keep-sort_by (x ∷ xs) =
      length-keep-insert_by x (sort_by key xs) ∙ ground (arith, length-keep-sort_by xs)

-- `sorted` by any order, where the first argument is at most the second.
module _ {ℓ} {A : Type ℓ} (le : A → A → Bool) where
  unfoldable pub insert_with : A → List A → List A
  insert_with x [] = x ∷ []
  insert_with x (y ∷ ys) = let rest = insert_with x ys in if le x y then x ∷ y ∷ ys else y ∷ rest

  unfoldable pub sort_with : List A → List A
  unfolding insert_with
  sort_with [] = []
  sort_with (x ∷ xs) = insert_with x (sort_with xs)
