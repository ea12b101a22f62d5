-- ===== src/Rag/Package/Names.antt =====
-- The names of the visible entries of a directory.
use bmstu_nirs.Common.{
  text_key, ==_comm, ==_refl, Bool, Bool-cases, Dict, IsUnique, String, [], ap, arith, contains,
  false, if◌then◌else◌, inl, inr, insert_by, keep, lookup, none, refl, some, sort_by, text_leb,
  true, ◌==◌, ◌∙◌, ◌∷◌, ◌≡◌,
}
use bmstu_nirs.Rag.Package.Reading.{visible}

-- The visible entries of a directory have distinct names if its entries have.
module _ {ℓ} {A : Type ℓ} where
  insert_by-absent :
      (j : String) (x : String × A) (d : Dict String A)
      → (j == x.0) ≡ false
      → lookup j d ≡ none
      → lookup j (insert_by (λ y. y.0) x d) ≡ none
  unfolding insert_by
  insert_by-absent j x [] apart h = rw apart refl
  insert_by-absent j x (y ∷ d) apart h = ground (arith, insert_by-absent j x d apart)

  insert_by-IsUnique :
      (x : String × A) (d : Dict String A)
      → lookup x.0 d ≡ none
      → IsUnique d
      → IsUnique (insert_by (λ y. y.0) x d)
  unfolding insert_by
  insert_by-IsUnique x [] h u = (refl, tt)
  insert_by-IsUnique x (y ∷ d) h u = elim (Bool-cases (x.0 == y.0)) [
    | inl same ↦ let h' = rw same at h in cc h'
    | inr apart ↦ elim (Bool-cases (text_leb x.0 y.0)) [
      | inl least ↦ rw least (h, u)
      | inr later ↦ rw later (
        insert_by-absent y.0 x d (==_comm y.0 x.0 ∙ apart) u.0,
        insert_by-IsUnique x d (rw apart at h) u.1,
      )
    ]
  ]

  sort_by-absent :
      (j : String) (d : Dict String A) → lookup j d ≡ none → lookup j (sort_by (λ y. y.0) d) ≡ none
  unfolding sort_by
  sort_by-absent j [] h = refl
  sort_by-absent j (x ∷ d) h = elim (Bool-cases (j == x.0)) [
    | inl same ↦ let h' = rw same at h in cc h'
    | inr apart ↦
        insert_by-absent j x (sort_by (λ y. y.0) d) apart (sort_by-absent j d (rw apart at h))
  ]

  sort_by-IsUnique : (d : Dict String A) → IsUnique d → IsUnique (sort_by (λ y. y.0) d)
  unfolding sort_by
  sort_by-IsUnique [] u = tt
  sort_by-IsUnique (x ∷ d) u =
      insert_by-IsUnique x (sort_by (λ y. y.0) d) (sort_by-absent x.0 d u.0)
        (sort_by-IsUnique d u.1)

  keep-absent :
      (j : String) (test : String × A → Bool) (d : Dict String A)
      → lookup j d ≡ none
      → lookup j (keep test d) ≡ none
  keep-absent j test [] h = refl
  keep-absent j test (x ∷ d) h = ground (arith, keep-absent j test d)

  keep-IsUnique :
      (test : String × A → Bool) (d : Dict String A) → IsUnique d → IsUnique (keep test d)
  keep-IsUnique test [] u = tt
  keep-IsUnique test (x ∷ d) u = elim (Bool-cases (test x)) [
    | inl kept ↦ rw kept (keep-absent x.0 test d u.0, keep-IsUnique test d u.1)
    | inr left_out ↦ rw left_out (keep-IsUnique test d u.1)
  ]

  pub visible-IsUnique : (d : Dict String A) → IsUnique d → IsUnique (visible d)
  visible-IsUnique d u = keep-IsUnique _ (sort_by (λ y. y.0) d) (sort_by-IsUnique d u)

  pub contains-cons :
      (j : String) (x : String × A) (d : Dict String A)
      → contains j d ≡ true
      → contains j (x ∷ d) ≡ true
  contains-cons j x d h = go (j == x.0)
    where
      go :
          (b : Bool)
          → elim (if b then some x.1 else lookup j d) [ none ↦ false | some _ ↦ true ] ≡ true
      go true = refl
      go false = h

  pub contains-head : (j : String) (x : A) (d : Dict String A) → contains j ((j, x) ∷ d) ≡ true
  contains-head j x d =
      ap (λ b. elim (if b then some x else lookup j d) [ none ↦ false | some _ ↦ true ]) (==_refl j)

  pub contains-absent : (j : String) (d : Dict String A) → lookup j d ≡ none → contains j d ≡ false
  contains-absent j d h = ap (λ o. elim o [ none ↦ false | some _ ↦ true ]) h
