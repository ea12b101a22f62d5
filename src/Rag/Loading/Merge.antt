-- ===== src/Rag/Loading/Merge.antt =====
-- The merge of two sets, compared under each reference.
use bmstu_nirs.Common.{
  text_key, ==_comm, All, Bool-cases, Dict, IsUnique, List, [], ap, eq_of_==, if◌then◌else◌, inl,
  inr, insert, insert-IsUnique, lookup, lookup-insert, none, refl, some, subst, sym, values, ◌==◌,
  ◌∙◌, ◌∷◌, ◌≡◌,
}
use bmstu_nirs.Rag.Models.{ref_key, entity_key, EntityRef, KnowledgeEntity, KnowledgeSet}
use bmstu_nirs.Rag.Entities.{entities_of, entity_ref}
use bmstu_nirs.Rag.Merging.{merge, put_all}
use bmstu_nirs.Rag.Loading.Under.{
  at_ref, at_ref-group, or_else, or_else-if, or_else-if_absent, or_else-none,
}

-- `d.update(entries)`
pub lookup-put_all :
    (r : EntityRef) (es : List KnowledgeEntity) (d : Dict EntityRef KnowledgeEntity)
    → lookup r (put_all es d) ≡ or_else (at_ref r es) (lookup r d)
unfolding put_all
lookup-put_all r [] d = refl
lookup-put_all r (e ∷ es) d =
    lookup-put_all r es (insert (entity_ref e) e d)
    ∙ (ap (or_else (at_ref r es)) (lookup-insert r (entity_ref e) e d)
        ∙ (or_else-if (at_ref r es) (lookup r d) (r == entity_ref e) e
            ∙ ap (λ b. or_else (or_else (at_ref r es) (if b then some e else none)) (lookup r d))
                (==_comm r (entity_ref e))))

-- Each entry is under its own reference, and no reference is there twice.
abbrev pub IsKeyed : Dict EntityRef KnowledgeEntity → Type 0
IsKeyed d = IsUnique d × All (λ x. entity_ref x.1 ≡ x.0) d

pub insert-IsKeyed :
    (e : KnowledgeEntity) (d : Dict EntityRef KnowledgeEntity)
    → IsKeyed d
    → IsKeyed (insert (entity_ref e) e d)
insert-IsKeyed e d (h, k) = (insert-IsUnique (entity_ref e) e d h, all d k)
  where
    all :
        (d : Dict EntityRef KnowledgeEntity)
        → All (λ x. entity_ref x.1 ≡ x.0) d
        → All (λ x. entity_ref x.1 ≡ x.0) (insert (entity_ref e) e d)
    all [] k = (refl, tt)
    all (x ∷ d) k = elim (Bool-cases (entity_ref e == x.0)) [
      | inl p ↦ rw p (refl, k.1)
      | inr p ↦ rw p (k.0, all d k.1)
    ]

pub put_all-IsKeyed :
    (es : List KnowledgeEntity) (d : Dict EntityRef KnowledgeEntity)
    → IsKeyed d
    → IsKeyed (put_all es d)
unfolding put_all
put_all-IsKeyed [] d h = h
put_all-IsKeyed (e ∷ es) d h = put_all-IsKeyed es (insert (entity_ref e) e d) (insert-IsKeyed e d h)

pub at_ref-values :
    (r : EntityRef) (d : Dict EntityRef KnowledgeEntity)
    → IsKeyed d
    → at_ref r (values d) ≡ lookup r d
at_ref-values r [] h = refl
at_ref-values r ((k, e) ∷ d) ((absent, h), (own, hs)) =
    ap (λ o. or_else o (if entity_ref e == r then some e else none)) (at_ref-values r d (h, hs))
    ∙ (ap (λ b. or_else (lookup r d) (if b then some e else none))
          (ap (λ j. j == r) own ∙ ==_comm k r)
        ∙ or_else-if_absent (lookup r d) (r == k) e
            (λ same. subst (λ j. lookup j d ≡ none) (sym (eq_of_== r k same)) absent))

-- Under each reference, the merged set has the entity of the package or else that of the stored set.
pub merge-at_ref :
    (r : EntityRef) (current new : KnowledgeSet)
    → at_ref r (entities_of (merge current new))
      ≡ or_else (at_ref r (entities_of new)) (at_ref r (entities_of current))
unfolding merge
merge-at_ref r current new =
    let stored = put_all (entities_of current) [] in
    let all = put_all (entities_of new) stored in
    at_ref-group r (values all)
    ∙ (at_ref-values r all (
          put_all-IsKeyed (entities_of new) stored
            (put_all-IsKeyed (entities_of current) [] (tt, tt)))
        ∙ (lookup-put_all r (entities_of new) stored
            ∙ rw (lookup-put_all r (entities_of current) []) (or_else-none _ _)))
