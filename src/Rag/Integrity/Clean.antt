-- ===== src/Rag/Integrity/Clean.antt =====
-- Findings without a violation, and the loops of the checker.
use bmstu_nirs.Common.{
  text_key, All, All-split, Bool, List, [], choose, false, none, refl, true, ℕ, ◌++◌, ◌+◌, ◌∷◌, ◌≡◌,
}
use bmstu_nirs.Rag.Models.{ref_key, EntityRef}
use bmstu_nirs.Rag.Integrity.{
  Code, FieldPath, Finding, broken_if, each, each_with, external, violation,
}
use bmstu_nirs.Rag.Integrity.Report.{to_violation}

abbrev pub IsClean : List Finding → Type 0
IsClean = All (λ f. to_violation f ≡ none)

pub choose-IsClean : (fs : List Finding) → choose to_violation fs ≡ [] → IsClean fs
choose-IsClean [] h = tt
choose-IsClean (violation v ∷ fs) h = cc
choose-IsClean (external r ∷ fs) h = (refl, choose-IsClean fs h)

pub IsClean-split : (fs gs : List Finding) → IsClean (fs ++ gs) → IsClean fs × IsClean gs
IsClean-split = All-split (λ f. to_violation f ≡ none)

pub broken_if-IsClean :
    (b : Bool) (o : EntityRef) (p : FieldPath) (code : Code)
    → IsClean (broken_if b o p code)
    → b ≡ false
broken_if-IsClean true o p code h = cc (h.0)
broken_if-IsClean false o p code h = refl

module _ {ℓ κ} {A : Type ℓ} (check : ℕ → A → List Finding) (P : A → Type κ)
    (ok : (i : ℕ) (x : A) → IsClean (check i x) → P x) where
  pub each-IsClean : (i : ℕ) (xs : List A) → IsClean (each check i xs) → All P xs
  unfolding each
  each-IsClean i [] h = tt
  each-IsClean i (x ∷ xs) h =
      let (first, rest) = IsClean-split (check i x) (each check (i + 1) xs) h in
      (ok i x first, each-IsClean (i + 1) xs rest)

module _ {ℓ κ ℓ'} {S : Type ℓ'} {A : Type ℓ} (check : S → ℕ → A → List Finding × S) (P : A → Type κ)
    (ok : (s : S) (i : ℕ) (x : A) → IsClean (check s i x).0 → P x) where
  pub each_with-IsClean :
      (s : S) (i : ℕ) (xs : List A) → IsClean (each_with check s i xs).0 → All P xs
  unfolding each_with
  each_with-IsClean s i [] h = tt
  each_with-IsClean s i (x ∷ xs) h =
      let (first, rest) =
        IsClean-split (check s i x).0 (each_with check (check s i x).1 (i + 1) xs).0 h in
      (ok s i x first, each_with-IsClean (check s i x).1 (i + 1) xs rest)
