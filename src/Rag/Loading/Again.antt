-- ===== src/Rag/Loading/Again.antt =====
-- What is stored after one load of a package and after another one, for load_package.
use bmstu_nirs.Common.{
  text_key, ==_refl, All, All-mono, Dict, List, [], ap, if◌then◌else◌, inl, inr, lookup, none, refl,
  some, true, ◌++◌, ◌==◌, ◌∙◌, ◌∷◌, ◌≡◌, ◌⊎◌,
}
use bmstu_nirs.Rag.Models.{
  ref_key, entity_key, EntityRef, KnowledgeEntity, KnowledgeSet, TextFunctions,
}
use bmstu_nirs.Rag.Entities.{entities_of, entity_ref, entity_type}
use bmstu_nirs.Rag.Store.{Counts, State, read_all, save, start_load}
use bmstu_nirs.Rag.Merging.{
  added, change_of, changes_from, changes_of, count, no_counts, outcome_of, put_all, unchanged,
  updated,
}
use bmstu_nirs.Rag.Loading.{Load, LoadReport, check_package, load_package}
use bmstu_nirs.Rag.Loading.Under.{at_ref, or_else}
use bmstu_nirs.Rag.Loading.Merge.{IsKeyed}
use bmstu_nirs.Rag.Loading.Atomic.{
  IsAccepted, IsApplied, IsRejected, load_package-IsAccepted, load_package-IsAtomic, new_id,
}
use bmstu_nirs.Rag.Loading.Stored.{IsDistinct, applied-IsKeyed, applied-lookup, new_set, stored_lem}

-- If each stored entity is under its own reference, once, and no reference is twice in the package,
-- then after a load that is kept the store has, under each reference, the entity of the package, or
-- else the entity that it had before.
pub load_package-lookup :
    (t : TextFunctions) (l : Load) (s : State) (r : LoadReport) (s' : State) (j : EntityRef)
    → IsKeyed s.entities
    → IsDistinct (entities_of (new_set t l))
    → load_package t l s ≡ (some r, s')
    → r.loaded ≡ true
    → lookup j s'.entities ≡ or_else (at_ref j (entities_of (new_set t l))) (lookup j s.entities)
load_package-lookup t l s r s' j keyed distinct run loaded =
    applied-lookup t l s r s' (new_set t l) j keyed distinct
      (load_package-IsAccepted t l s r s' run loaded).applied

IsDistinct-at_ref :
    (es : List KnowledgeEntity) → IsDistinct es → All (λ e. at_ref (entity_ref e) es ≡ some e) es
IsDistinct-at_ref [] h = tt
IsDistinct-at_ref (e ∷ es) (absent, h) = (
  rw (absent, ==_refl (entity_ref e)) refl,
  All-mono (λ x. at_ref (entity_ref x) es ≡ some x) (λ x. at_ref (entity_ref x) (e ∷ es) ≡ some x)
      (λ x p. rw p refl) es (IsDistinct-at_ref es h),
)

changes_from-none :
    (stored : Dict EntityRef KnowledgeEntity) (es : List KnowledgeEntity) (totals : Counts)
    → All (λ e. lookup (entity_ref e) stored ≡ some e) es
    → (changes_from stored es totals).0 ≡ []
unfolding changes_from
changes_from-none stored [] totals h = refl
changes_from-none stored (e ∷ es) totals (known, h) =
    ap
      (λ o.
        change_of o e
        ++ (changes_from stored es (count (outcome_of stored e) (entity_type e) totals)).0)
      same
    ∙ changes_from-none stored es (count (outcome_of stored e) (entity_type e) totals) h
  where
    same : outcome_of stored e ≡ unchanged
    same =
        ap (λ o. elim o [ none ↦ added | some p ↦ if p == e then unchanged else updated ]) known
        ∙ ap (λ b. if b then unchanged else updated) (==_refl e)

-- If each stored entity is under its own reference, once, and no reference is twice in the package,
-- then after a load that is kept another load of the same package right behind it, whether or not it
-- is kept, leaves the entities and their revisions as they are.
pub load_package-again :
    (t : TextFunctions) (l l' : Load) (s : State) (r : LoadReport) (s' : State)
    → IsKeyed s.entities
    → IsDistinct (entities_of (new_set t l))
    → load_package t l s ≡ (some r, s')
    → r.loaded ≡ true
    → l'.contents ≡ l.contents
    → ((load_package t l' s').1.entities ≡ s'.entities)
      × ((load_package t l' s').1.revisions ≡ s'.revisions)
unfolding changes_of save start_load
load_package-again t l l' s r s' keyed distinct run loaded same = go (load_package-IsAtomic t l' s')
  where
    new : KnowledgeSet
    new = new_set t l

    same_set : new_set t l' ≡ new
    same_set = ap (λ c. (check_package t c).0) same

    applied : IsApplied new l s r s'
    applied = (load_package-IsAccepted t l s r s' run loaded).applied

    keyed' : IsKeyed s'.entities
    keyed' = applied-IsKeyed t l s r s' new keyed applied

    known :
        All
          (λ e. lookup (entity_ref e) (put_all (entities_of (read_all s')) []) ≡ some e)
          (entities_of new)
    known =
        All-mono (λ e. at_ref (entity_ref e) (entities_of new) ≡ some e)
          (λ e. lookup (entity_ref e) (put_all (entities_of (read_all s')) []) ≡ some e)
          (λ e p.
            stored_lem (entity_ref e) s' keyed'
            ∙ (applied-lookup t l s r s' new (entity_ref e) keyed distinct applied
                ∙ ap (λ o. or_else o (lookup (entity_ref e) s.entities)) p))
          (entities_of new) (IsDistinct-at_ref (entities_of new) distinct)

    no_changes : (changes_of (read_all s') (new_set t l')).0 ≡ []
    no_changes =
        ap (λ k. (changes_of (read_all s') k).0) same_set
        ∙ changes_from-none (put_all (entities_of (read_all s')) []) (entities_of new) no_counts
            known

    go :
        (r' : LoadReport) × (x : State) × (load_package t l' s' ≡ (some r', x))
          × (IsRejected s' r' x ⊎ IsAccepted t l' s' r' x)
        → ((load_package t l' s').1.entities ≡ s'.entities)
          × ((load_package t l' s').1.revisions ≡ s'.revisions)
    go (r', x, run', inl refused) =
        let stays = ap (λ p. p.1) run' ∙ refused.stays in
        (ap (λ y. y.entities) stays, ap (λ y. y.revisions) stays)
    go (r', x, run', inr accepted) = (
      ap (λ p. p.1.entities) run'
          ∙ (accepted.applied.entities
              ∙ ap (λ cs. (save (new_id s') cs (start_load l'.started_at s').1).entities)
                  no_changes),
      ap (λ p. p.1.revisions) run'
          ∙ (accepted.applied.revisions
              ∙ ap (λ cs. (save (new_id s') cs (start_load l'.started_at s').1).revisions)
                  no_changes),
    )
