-- ===== src/Rag/Loading/Reach.antt =====
-- The stores that loads lead to.
use bmstu_nirs.Common.{
  text_key, All, All-mono, any-find_last, ap, contains, false, find_last-All, inl, inr, lookup,
  none, refl, some, subst, sym, true, ◌==◌, ◌∙◌, ◌≡◌, ◌⊎◌,
}
use bmstu_nirs.Rag.Models.{
  ref_key, entity_key, EntityRef, KnowledgeEntity, KnowledgeSet, TextFunctions,
}
use bmstu_nirs.Rag.Entities.{entities_of, entity_ref}
use bmstu_nirs.Rag.Entities.Sets.{has}
use bmstu_nirs.Rag.Integrity.Closed.{check_integrity-IsClosed}
use bmstu_nirs.Rag.Integrity.Whole.{InSet, entity_references}
use bmstu_nirs.Rag.Store.{State, no_state, read_all, start_load}
use bmstu_nirs.Rag.Store.Saving.{IsNumbered, IsTracked, latest, listed, save-IsTracked}
use bmstu_nirs.Rag.Merging.{changes_of, merge}
use bmstu_nirs.Rag.Loading.{Load, LoadReport, load_package}
use bmstu_nirs.Rag.Loading.Under.{at_ref, or_else}
use bmstu_nirs.Rag.Loading.Merge.{IsKeyed, merge-at_ref}
use bmstu_nirs.Rag.Loading.Atomic.{IsAccepted, IsApplied, IsRejected, load_package-IsAtomic, new_id}
use bmstu_nirs.Rag.Loading.Stored.{
  IsDistinct, applied-IsKeyed, applied-lookup, new_set, read_all-at_ref,
}

-- The store after a sequence of loads, kept or not, of packages in which no reference is twice.
pub data Reach (t : TextFunctions) : State → Type 0 where
  nothing : Reach t no_state
  load :
      (l : Load) (s : State)
      → IsDistinct (entities_of (new_set t l))
      → Reach t s
      → Reach t (load_package t l s).1

-- Each stored entity is under its own reference, once, and what it refers to is stored.
pub record IsWhole (s : State) : Type 0 where
  pub keyed : IsKeyed s.entities
  pub whole :
      (e : KnowledgeEntity)
      → lookup (entity_ref e) s.entities ≡ some e
      → All (λ r. contains r s.entities ≡ true) (entity_references e)

has-at_ref :
    (r : EntityRef) (k : KnowledgeSet)
    → has r k ≡ elim (at_ref r (entities_of k)) [ none ↦ false | some _ ↦ true ]
unfolding has
has-at_ref r k = any-find_last (λ e. entity_ref e == r) (entities_of k)

-- The merged set has what the store has after the load.
merged_lem :
    (t : TextFunctions) (l : Load) (s : State) (r : LoadReport) (s' : State) (j : EntityRef)
    → IsKeyed s.entities
    → IsDistinct (entities_of (new_set t l))
    → IsApplied (new_set t l) l s r s'
    → at_ref j (entities_of (merge (read_all s) (new_set t l))) ≡ lookup j s'.entities
merged_lem t l s r s' j keyed distinct applied =
    merge-at_ref j (read_all s) (new_set t l)
    ∙ (ap (or_else (at_ref j (entities_of (new_set t l)))) (read_all-at_ref j s keyed)
        ∙ sym (applied-lookup t l s r s' (new_set t l) j keyed distinct applied))

accepted-IsWhole :
    (t : TextFunctions) (l : Load) (s : State) (r : LoadReport) (s' : State)
    → IsKeyed s.entities
    → IsDistinct (entities_of (new_set t l))
    → IsAccepted t l s r s'
    → IsWhole s'
accepted-IsWhole t l s r s' keyed distinct accepted =
    let merged = merge (read_all s) (new_set t l) in
    let same = λ (j : EntityRef). merged_lem t l s r s' j keyed distinct accepted.applied in
    record {
      keyed = applied-IsKeyed t l s r s' (new_set t l) keyed accepted.applied;
      whole = λ e stored.
          All-mono (λ r. has r merged ≡ true) (λ r. contains r s'.entities ≡ true)
            (λ j h.
              ap (λ o. elim o [ none ↦ false | some _ ↦ true ]) (sym (same j))
              ∙ (sym (has-at_ref j merged) ∙ h))
            (entity_references e)
            (find_last-All (λ e. InSet merged (entity_references e))
              (λ x. entity_ref x == entity_ref e) e (entities_of merged)
              (same (entity_ref e) ∙ stored)
              (check_integrity-IsClosed t merged accepted.keeps_rules));
    }

-- After any sequence of loads, kept or not, of packages in which no reference is twice, each entity
-- is stored once, under its own reference, and every continuity, work, episode, character, location
-- and artifact that a stored entity refers to is stored, the episodes among them that its sources
-- name.
pub Reach-IsWhole : (t : TextFunctions) (s : State) → Reach t s → IsWhole s
Reach-IsWhole t s' nothing = record { keyed = (tt, tt); whole = λ e stored. cc }
Reach-IsWhole t s' (load l s distinct reached) =
    go (Reach-IsWhole t s reached) (load_package-IsAtomic t l s)
  where
    go :
        IsWhole s
        → (r : LoadReport) × (x : State) × (load_package t l s ≡ (some r, x))
          × (IsRejected s r x ⊎ IsAccepted t l s r x)
        → IsWhole (load_package t l s).1
    go before (r, x, run, inl refused) =
        subst IsWhole (sym (ap (λ p. p.1) run ∙ refused.stays)) before
    go before (r, x, run, inr accepted) =
        subst IsWhole (sym (ap (λ p. p.1) run))
          (accepted-IsWhole t l s r x before.keyed distinct accepted)

-- After any sequence of loads, kept or not, of packages in which no reference is twice, the revisions
-- of every reference are numbered from 1 without a gap, and the last of them is what is stored.
pub Reach-IsTracked : (t : TextFunctions) (s : State) → Reach t s → IsTracked s
unfolding start_load
Reach-IsTracked t s' nothing = λ r. (tt, refl)
Reach-IsTracked t s' (load l s distinct reached) =
    go (Reach-IsTracked t s reached) (load_package-IsAtomic t l s)
  where
    accepted_lem : (r : LoadReport) (x : State) → IsTracked s → IsAccepted t l s r x → IsTracked x
    accepted_lem r x before accepted j =
        let (numbered, ends) =
          save-IsTracked (new_id s) (changes_of (read_all s) (new_set t l)).0
            (start_load l.started_at s).1 before j in
        (
          subst (λ d. IsNumbered 1 (listed (lookup j d))) (sym accepted.applied.revisions) numbered,
          ap (λ d. latest (listed (lookup j d))) accepted.applied.revisions
              ∙ (ends ∙ ap (lookup j) (sym accepted.applied.entities)),
        )

    go :
        IsTracked s
        → (r : LoadReport) × (x : State) × (load_package t l s ≡ (some r, x))
          × (IsRejected s r x ⊎ IsAccepted t l s r x)
        → IsTracked (load_package t l s).1
    go before (r, x, run, inl refused) =
        subst IsTracked (sym (ap (λ p. p.1) run ∙ refused.stays)) before
    go before (r, x, run, inr accepted) =
        subst IsTracked (sym (ap (λ p. p.1) run)) (accepted_lem r x before accepted)
