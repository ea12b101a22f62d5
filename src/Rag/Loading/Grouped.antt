-- ===== src/Rag/Loading/Grouped.antt =====
-- Distinct references, and the grouping of entities by type.
use bmstu_nirs.Common.{
  text_key, All, All-mono, Bool, Bool-cases, List, [], ap, eq_of_==, false, if◌then◌else◌, inl, inr,
  none, refl, subst, sym, true, ⊤, ◌++◌, ◌==◌, ◌∙◌, ◌∷◌, ◌≡◌,
}
use bmstu_nirs.Rag.Models.{
  ref_key, EntityRef, EntityType, KnowledgeEntity, artifact, character, continuity, episode,
  location, work,
}
use bmstu_nirs.Rag.Entities.{entities_of, entity_ref, entity_type}
use bmstu_nirs.Rag.Entities.Sets.{group}
use bmstu_nirs.Rag.Merging.{type_key, Type_discrete}
use bmstu_nirs.Rag.Loading.Under.{
  at_ref, at_ref-of_type, entities_of-group, find_last-append, of_type, or_else,
}
use bmstu_nirs.Rag.Loading.Stored.{IsDistinct}

pub IsDistinct-append :
    (xs ys : List KnowledgeEntity)
    → IsDistinct xs
    → IsDistinct ys
    → All (λ x. at_ref (entity_ref x) ys ≡ none) xs
    → IsDistinct (xs ++ ys)
IsDistinct-append [] ys h k apart = k
IsDistinct-append (x ∷ xs) ys (absent, h) k (first, apart) = (
  find_last-append (λ e. entity_ref e == entity_ref x) xs ys
      ∙ (ap (λ o. or_else o (at_ref (entity_ref x) xs)) first ∙ absent),
  IsDistinct-append xs ys h k apart,
)

of_type-IsDistinct :
    (kind : EntityType) (es : List KnowledgeEntity) → IsDistinct es → IsDistinct (of_type kind es)
of_type-IsDistinct kind [] h = tt
of_type-IsDistinct kind (e ∷ es) (absent, h) =
    go (entity_type e == kind) (of_type-IsDistinct kind es h)
  where
    none_there : at_ref (entity_ref e) (of_type kind es) ≡ none
    none_there =
        at_ref-of_type (entity_ref e) kind es
        ∙ (ap (λ o. if entity_type e == kind then o else none) absent
            ∙ elim (Bool-cases (entity_type e == kind)) [ inl b ↦ rw b refl | inr b ↦ rw b refl ])

    go :
        (b : Bool)
        → IsDistinct (of_type kind es)
        → IsDistinct (if b then e ∷ of_type kind es else of_type kind es)
    go true rest = (none_there, rest)
    go false rest = rest

-- No entity of this type is there.
abbrev IsFree : EntityType → List KnowledgeEntity → Type 0
IsFree kind es = (r : EntityRef) → r.type ≡ kind → at_ref r es ≡ none

of_type-IsFree :
    (kind other : EntityType) (es : List KnowledgeEntity)
    → (kind == other) ≡ false
    → IsFree kind (of_type other es)
of_type-IsFree kind other es apart r same =
    at_ref-of_type r other es
    ∙ ap (λ b. if b then at_ref r es else none) (ap (λ k. k == other) same ∙ apart)

append-IsFree :
    (kind : EntityType) (xs ys : List KnowledgeEntity)
    → IsFree kind xs
    → IsFree kind ys
    → IsFree kind (xs ++ ys)
append-IsFree kind xs ys hx hy r same =
    find_last-append (λ e. entity_ref e == r) xs ys
    ∙ (ap (λ o. or_else o (at_ref r xs)) (hy r same) ∙ hx r same)

of_type-types :
    (kind : EntityType) (es : List KnowledgeEntity)
    → All (λ e. entity_type e ≡ kind) (of_type kind es)
of_type-types kind [] = tt
of_type-types kind (e ∷ es) = go (entity_type e == kind) refl (of_type-types kind es)
  where
    go :
        (b : Bool)
        → (entity_type e == kind) ≡ b
        → All (λ e. entity_type e ≡ kind) (of_type kind es)
        → All (λ e. entity_type e ≡ kind) (if b then e ∷ of_type kind es else of_type kind es)
    go true same rest = (eq_of_== (entity_type e) kind same, rest)
    go false same rest = rest

segment-IsDistinct :
    (kind : EntityType) (es rest : List KnowledgeEntity)
    → IsDistinct es
    → IsDistinct rest
    → IsFree kind rest
    → IsDistinct (of_type kind es ++ rest)
segment-IsDistinct kind es rest h k free =
    IsDistinct-append (of_type kind es) rest (of_type-IsDistinct kind es h) k (
      All-mono (λ e. entity_type e ≡ kind) (λ e. at_ref (entity_ref e) rest ≡ none)
        (λ e same. free (entity_ref e) same) (of_type kind es) (of_type-types kind es))

-- The entities of one type after another.
abbrev segments : List EntityType → List KnowledgeEntity → List KnowledgeEntity
segments [] es = []
segments (kind ∷ []) es = of_type kind es
segments (kind ∷ (other ∷ kinds)) es = of_type kind es ++ segments (other ∷ kinds) es

-- No type is twice in the list.
abbrev AreTypesDistinct : List EntityType → Type 0
AreTypesDistinct [] = ⊤
AreTypesDistinct (kind ∷ kinds) =
    All (λ other. (kind == other) ≡ false) kinds × AreTypesDistinct kinds

segments-IsFree :
    (kind : EntityType) (kinds : List EntityType) (es : List KnowledgeEntity)
    → All (λ other. (kind == other) ≡ false) kinds
    → IsFree kind (segments kinds es)
segments-IsFree kind [] es h = λ r same. refl
segments-IsFree kind (other ∷ []) es h = of_type-IsFree kind other es h.0
segments-IsFree kind (other ∷ (next ∷ kinds)) es h =
    append-IsFree kind (of_type other es) (segments (next ∷ kinds) es)
      (of_type-IsFree kind other es h.0) (segments-IsFree kind (next ∷ kinds) es h.1)

segments-IsDistinct :
    (kinds : List EntityType) (es : List KnowledgeEntity)
    → AreTypesDistinct kinds
    → IsDistinct es
    → IsDistinct (segments kinds es)
segments-IsDistinct [] es apart h = tt
segments-IsDistinct (kind ∷ []) es apart h = of_type-IsDistinct kind es h
segments-IsDistinct (kind ∷ (next ∷ kinds)) es apart h =
    segment-IsDistinct kind es (segments (next ∷ kinds) es) h
      (segments-IsDistinct (next ∷ kinds) es apart.1 h)
      (segments-IsFree kind (next ∷ kinds) es apart.0)

pub group-IsDistinct :
    (es : List KnowledgeEntity) → IsDistinct es → IsDistinct (entities_of (group es))
unfolding Type_discrete
group-IsDistinct es h = subst IsDistinct (sym (entities_of-group es)) (
    segments-IsDistinct (continuity ∷ work ∷ episode ∷ character ∷ location ∷ artifact ∷ []) es
      (
        (refl, (refl, (refl, (refl, (refl, tt))))),
        (
          (refl, (refl, (refl, (refl, tt)))),
          ((refl, (refl, (refl, tt))), ((refl, (refl, tt)), ((refl, tt), (tt, tt)))),
        ),
      )
      h)
