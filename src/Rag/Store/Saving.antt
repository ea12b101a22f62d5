-- ===== src/Rag/Store/Saving.antt =====
-- The revisions of each entity, for `save`.
use bmstu_nirs.Common.{
  text_key, Bool, List, Option, [], ap, arith, false, if◌then◌else◌, length, lookup, lookup-insert,
  none, refl, some, subst, sym, true, ℕ, ⊤, ◌++◌, ◌+◌, ◌==◌, ◌∙◌, ◌∷◌, ◌≡◌,
}
use bmstu_nirs.Rag.Models.{ref_key, entity_key, EntityRef, KnowledgeEntity}
use bmstu_nirs.Rag.Entities.{entity_ref}
use bmstu_nirs.Rag.Store.{EntityChange, Revision, State, history_of, revision_of, save, save_one}

-- The revisions have the numbers from this one on.
abbrev pub IsNumbered : ℕ → List Revision → Type 0
IsNumbered n [] = ⊤
IsNumbered n (r ∷ rs) = (r.revision ≡ n) × IsNumbered (n + 1) rs

abbrev pub latest : List Revision → Option KnowledgeEntity
latest [] = none
latest (r ∷ rs) = elim (latest rs) [ none ↦ some r.payload | some e ↦ some e ]

-- The history of every reference is numbered from 1, and ends with the stored entity.
abbrev pub IsTracked : State → Type 0
IsTracked s =
    (r : EntityRef)
    → IsNumbered 1 (history_of r s) × (latest (history_of r s) ≡ lookup r s.entities)

abbrev pub listed : Option (List Revision) → List Revision
listed o = elim o [ none ↦ [] | some rs ↦ rs ]

IsNumbered-append :
    (n : ℕ) (rs : List Revision) (r : Revision)
    → IsNumbered n rs
    → r.revision ≡ length rs + n
    → IsNumbered n (rs ++ (r ∷ []))
IsNumbered-append n [] r h e = (e ∙ omega arith, tt)
IsNumbered-append n (q ∷ rs) r h e = (h.0, IsNumbered-append (n + 1) rs r h.1 (e ∙ omega arith))

latest-append : (rs : List Revision) (r : Revision) → latest (rs ++ (r ∷ [])) ≡ some r.payload
latest-append [] r = refl
latest-append (q ∷ rs) r = rw (latest-append rs r) refl

save_one-IsTracked :
    (id : ℕ) (c : EntityChange) (s : State) → IsTracked s → IsTracked (save_one id c s)
unfolding save_one
save_one-IsTracked id c s h r =
    let (numbered, ends) = go (r == k) in
    let new_history = lookup-insert r k longer s.revisions in
    (
      subst (λ o. IsNumbered 1 (listed o)) (sym new_history) numbered,
      ap (λ o. latest (listed o)) new_history
          ∙ (ends ∙ sym (lookup-insert r k c.entity s.entities)),
    )
  where
    k : EntityRef
    k = entity_ref c.entity

    new : Revision
    new = revision_of id c (history_of k s)

    longer : List Revision
    longer = history_of k s ++ (new ∷ [])

    go :
        (b : Bool)
        → IsNumbered 1 (listed (if b then some longer else lookup r s.revisions))
          × (latest (listed (if b then some longer else lookup r s.revisions))
              ≡ (if b then some c.entity else lookup r s.entities))
    go true =
        (IsNumbered-append 1 (history_of k s) new (h k).0 refl, latest-append (history_of k s) new)
    go false = h r

-- If every history is numbered from 1 without a gap and ends with what is stored, so is every
-- history after changes are saved.
pub save-IsTracked :
    (id : ℕ) (cs : List EntityChange) (s : State) → IsTracked s → IsTracked (save id cs s)
unfolding save
save-IsTracked id [] s h = h
save-IsTracked id (c ∷ cs) s h =
    save-IsTracked id cs (save_one id c s) (save_one-IsTracked id c s h)
