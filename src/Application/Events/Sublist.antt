-- ===== src/Application/Events/Sublist.antt =====
-- Lists from which elements are left out.
use bmstu_nirs.Common.{List, [], ◌++◌, ◌∷◌}

-- `xs` is what is left of `ys` when some elements are taken out.
pub data Sublist {A : Type 0} : List A → List A → Type 0 where
  end : Sublist [] []
  skip : {xs ys : List A} (y : A) → Sublist xs ys → Sublist xs (y ∷ ys)
  same : {xs ys : List A} (x : A) → Sublist xs ys → Sublist (x ∷ xs) (x ∷ ys)

module _ {A : Type 0} where
  pub Sublist-refl : (xs : List A) → Sublist xs xs
  Sublist-refl [] = end
  Sublist-refl (x ∷ xs) = same x (Sublist-refl xs)

  pub Sublist-snoc : {xs ys : List A} (y : A) → Sublist xs ys → Sublist xs (ys ++ (y ∷ []))
  Sublist-snoc y end = skip y end
  Sublist-snoc y (skip z h) = skip z (Sublist-snoc y h)
  Sublist-snoc y (same z h) = same z (Sublist-snoc y h)

  pub Sublist-prefix : (xs ys : List A) → Sublist xs (xs ++ ys)
  Sublist-prefix [] [] = end
  Sublist-prefix [] (y ∷ ys) = skip y (Sublist-prefix [] ys)
  Sublist-prefix (x ∷ xs) ys = same x (Sublist-prefix xs ys)

  pub Sublist-trans :
      {ys zs : List A} → Sublist ys zs → {xs : List A} → Sublist xs ys → Sublist xs zs
  Sublist-trans (skip y k) h = skip y (Sublist-trans k h)
  Sublist-trans end end = end
  Sublist-trans (same y k) (skip y' h) = skip y (Sublist-trans k h)
  Sublist-trans (same x k) (same x' h) = same x (Sublist-trans k h)

  pub Sublist-start : (xs ys : List A) → Sublist (xs ++ []) (xs ++ ys)
  Sublist-start [] [] = end
  Sublist-start [] (y ∷ ys) = skip y (Sublist-start [] ys)
  Sublist-start (x ∷ xs) ys = same x (Sublist-start xs ys)

  pub Sublist-without : (xs : List A) (y : A) (ys : List A) → Sublist (xs ++ ys) (xs ++ (y ∷ ys))
  Sublist-without [] y ys = skip y (Sublist-refl ys)
  Sublist-without (x ∷ xs) y ys = same x (Sublist-without xs y ys)
