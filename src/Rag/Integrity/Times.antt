-- ===== src/Rag/Integrity/Times.antt =====
-- How often a key comes in a list, and loops that note the keys they meet.
use bmstu_nirs.Common.{
  text_key, Bool, Bool-cases, Key, List, String, [], any, ap, arith, concat_map, eq_of_==, false,
  if◌then◌else◌, inl, inr, insert_by, keep, length, refl, sort_by, text_leb, true, ℕ, ◌++◌, ◌+◌,
  ◌==◌, ◌||◌, ◌∷◌, ◌≡◌, ◌≤◌,
}
use bmstu_nirs.Rag.Integrity.{Finding, each_with}
use bmstu_nirs.Rag.Integrity.Clean.{IsClean, IsClean-split}

-- How often the key is in the list.
module _ {ℓ} {K : Type ℓ} ⦃key : Key K⦄ where
  abbrev pub times : K → List K → ℕ
  times k ks = length (keep (λ j. j == k) ks)

  -- Once if the key has been seen.
  abbrev pub once_in : K → List K → ℕ
  once_in k seen = if any (λ j. j == k) seen then 1 else 0

  pub times-append : (k : K) (xs ys : List K) → times k (xs ++ ys) ≡ times k xs + times k ys
  times-append k [] ys = omega arith
  times-append k (x ∷ xs) ys = ground (arith, times-append k xs ys)

  -- A new key is seen once more.
  pub once_in-new :
      (k j : K) (seen : List K)
      → any (λ i. i == j) seen ≡ false
      → times k (j ∷ []) + once_in k seen ≡ once_in k (j ∷ seen)
  once_in-new k j seen new = go (j == k) refl (any (λ i. i == k) seen) refl
    where
      go :
          (b : Bool)
          → (j == k) ≡ b
          → (s : Bool) → any (λ i. i == k) seen ≡ s
          → length (if b then j ∷ [] else []) + (if s then 1 else 0) ≡ (if b || s then 1 else 0)
      go true same true there =
          cc (new, ap (λ x. any (λ i. i == x) seen) (eq_of_== j k same), there)
      go true same false there = refl
      go false same s there = omega arith

  pub once_in-le : (k : K) (seen : List K) → once_in k seen ≤ 1
  once_in-le k seen = go (any (λ j. j == k) seen)
    where
      go : (b : Bool) → (if b then 1 else 0) ≤ 1
      go true = omega arith
      go false = omega arith

  module _ {κ} {A : Type κ} (keys : A → List K) where
    -- A sort keeps how often a key comes.
    times-insert_by :
        (id : A → String) (k : K) (x : A) (ys : List A)
        → times k (concat_map keys (insert_by id x ys))
          ≡ times k (keys x) + times k (concat_map keys ys)
    unfolding insert_by
    times-insert_by id k x [] = times-append k (keys x) []
    times-insert_by id k x (y ∷ ys) = elim (Bool-cases (text_leb (id x) (id y))) [
      | inl least ↦ rw least (times-append k (keys x) (keys y ++ concat_map keys ys))
      | inr later ↦ rw later (
          omega (
            arith,
            times-append k (keys y) (concat_map keys (insert_by id x ys)),
            times-append k (keys y) (concat_map keys ys),
            times-insert_by id k x ys,
          ))
    ]

    pub times-sort_by :
        (id : A → String) (k : K) (xs : List A)
        → times k (concat_map keys (sort_by id xs)) ≡ times k (concat_map keys xs)
    unfolding sort_by
    times-sort_by id k [] = refl
    times-sort_by id k (x ∷ xs) = omega (
      arith,
      times-insert_by id k x (sort_by id xs),
      times-sort_by id k xs,
      times-append k (keys x) (concat_map keys xs),
    )

    -- A loop that finds nothing and notes the keys it meets meets no key twice.
    module _ {ℓ'} {S : Type ℓ'} (seen : S → List K) (check : S → ℕ → A → List Finding × S)
        (notes : (k : K) (s : S) (i : ℕ) (x : A)
          → IsClean (check s i x).0
          → times k (keys x) + once_in k (seen s) ≡ once_in k (seen (check s i x).1)) where
      pub times-each_with :
          (k : K) (s : S) (i : ℕ) (xs : List A)
          → IsClean (each_with check s i xs).0
          → times k (concat_map keys xs) + once_in k (seen s)
            ≡ once_in k (seen (each_with check s i xs).1)
      unfolding each_with
      times-each_with k s i [] h = omega arith
      times-each_with k s i (x ∷ xs) h =
          let s' = (check s i x).1 in
          let (first, rest) = IsClean-split (check s i x).0 (each_with check s' (i + 1) xs).0 h in
          omega (
            arith,
            times-append k (keys x) (concat_map keys xs),
            notes k s i x first,
            times-each_with k s' (i + 1) xs rest,
          )
