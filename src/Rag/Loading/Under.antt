-- ===== src/Rag/Loading/Under.antt =====
-- What a list of entities has under a reference, and the grouping of entities by type.
use bmstu_nirs.Common.{
  text_key, Bool, List, Option, [], arith, choose, false, find_last, if◌then◌else◌, keep, map, none,
  refl, some, true, ◌++◌, ◌==◌, ◌∷◌, ◌≡◌,
}
use bmstu_nirs.Rag.Models.{
  ref_key, entity_key, EntityRef, EntityType, KnowledgeEntity, artifact, artifact_entity, character,
  character_entity, continuity, continuity_entity, episode, episode_entity, location,
  location_entity, work, work_entity,
}
use bmstu_nirs.Rag.Entities.{entities_of, entity_ref, entity_type}
use bmstu_nirs.Rag.Entities.Sets.{
  group, to_artifact, to_character, to_continuity, to_episode, to_location, to_work,
}
use bmstu_nirs.Rag.Merging.{type_key, Type_discrete}

-- The last entity of this reference.
abbrev pub at_ref : EntityRef → List KnowledgeEntity → Option KnowledgeEntity
at_ref r = find_last (λ e. entity_ref e == r)

abbrev pub or_else {ℓ} : {A : Type ℓ} → Option A → Option A → Option A
or_else o p = elim o [ none ↦ p | some x ↦ some x ]

pub or_else-if {ℓ} :
    {A : Type ℓ} (o p : Option A) (b : Bool) (x : A)
    → or_else o (if b then some x else p) ≡ or_else (or_else o (if b then some x else none)) p
or_else-if none p true x = refl
or_else-if none p false x = refl
or_else-if (some y) p b x = refl

pub or_else-none {ℓ} : {A : Type ℓ} (o p : Option A) → or_else o (or_else p none) ≡ or_else o p
or_else-none none none = refl
or_else-none none (some x) = refl
or_else-none (some x) p = refl

pub or_else-if_absent {ℓ} :
    {A : Type ℓ} (o : Option A) (b : Bool) (x : A)
    → (b ≡ true → o ≡ none)
    → or_else o (if b then some x else none) ≡ (if b then some x else o)
or_else-if_absent none true x h = refl
or_else-if_absent none false x h = refl
or_else-if_absent (some y) true x h = cc (h refl)
or_else-if_absent (some y) false x h = refl

pub find_last-append {ℓ} :
    {A : Type ℓ} (test : A → Bool) (xs ys : List A)
    → find_last test (xs ++ ys) ≡ or_else (find_last test ys) (find_last test xs)
find_last-append test [] ys = ground arith
find_last-append test (x ∷ xs) ys = ground (arith, find_last-append test xs ys)

-- Those of one type, in their order.
abbrev pub of_type : EntityType → List KnowledgeEntity → List KnowledgeEntity
of_type kind = keep (λ e. entity_type e == kind)

pub at_ref-of_type :
    (r : EntityRef) (kind : EntityType) (es : List KnowledgeEntity)
    → at_ref r (of_type kind es) ≡ (if r.type == kind then at_ref r es else none)
at_ref-of_type r kind [] = ground arith
at_ref-of_type r kind (e ∷ es) = ground (arith, at_ref-of_type r kind es)

module _ {ℓ} {A : Type ℓ} (wrap : A → KnowledgeEntity) (to : KnowledgeEntity → Option A)
    (kind : EntityType)
    (h : (e : KnowledgeEntity)
      → elim (to e) [ none ↦ none | some x ↦ some (wrap x) ]
        ≡ (if entity_type e == kind then some e else none)) where
  map-choose : (es : List KnowledgeEntity) → map wrap (choose to es) ≡ of_type kind es
  map-choose [] = refl
  map-choose (e ∷ es) = ground (arith, h e, map-choose es)

continuity_lem :
    (e : KnowledgeEntity)
    → elim (to_continuity e) [ none ↦ none | some x ↦ some (continuity_entity x) ]
      ≡ (if entity_type e == continuity then some e else none)
unfolding Type_discrete
continuity_lem (continuity_entity x) = refl
continuity_lem _ = refl

work_lem :
    (e : KnowledgeEntity)
    → elim (to_work e) [ none ↦ none | some x ↦ some (work_entity x) ]
      ≡ (if entity_type e == work then some e else none)
unfolding Type_discrete
work_lem (work_entity x) = refl
work_lem _ = refl

episode_lem :
    (e : KnowledgeEntity)
    → elim (to_episode e) [ none ↦ none | some x ↦ some (episode_entity x) ]
      ≡ (if entity_type e == episode then some e else none)
unfolding Type_discrete
episode_lem (episode_entity x) = refl
episode_lem _ = refl

character_lem :
    (e : KnowledgeEntity)
    → elim (to_character e) [ none ↦ none | some x ↦ some (character_entity x) ]
      ≡ (if entity_type e == character then some e else none)
unfolding Type_discrete
character_lem (character_entity x) = refl
character_lem _ = refl

location_lem :
    (e : KnowledgeEntity)
    → elim (to_location e) [ none ↦ none | some x ↦ some (location_entity x) ]
      ≡ (if entity_type e == location then some e else none)
unfolding Type_discrete
location_lem (location_entity x) = refl
location_lem _ = refl

artifact_lem :
    (e : KnowledgeEntity)
    → elim (to_artifact e) [ none ↦ none | some x ↦ some (artifact_entity x) ]
      ≡ (if entity_type e == artifact then some e else none)
unfolding Type_discrete
artifact_lem (artifact_entity x) = refl
artifact_lem _ = refl

-- Those of a group are the entities by their types.
pub entities_of-group :
    (es : List KnowledgeEntity)
    → entities_of (group es)
      ≡ of_type continuity es
        ++ (of_type work es
            ++ (of_type episode es
                ++ (of_type character es ++ (of_type location es ++ of_type artifact es))))
unfolding entities_of group
entities_of-group es =
    rw
      (
        map-choose continuity_entity to_continuity continuity continuity_lem es,
        map-choose work_entity to_work work work_lem es,
        map-choose episode_entity to_episode episode episode_lem es,
        map-choose character_entity to_character character character_lem es,
        map-choose location_entity to_location location location_lem es,
        map-choose artifact_entity to_artifact artifact artifact_lem es,
      )
      refl

-- One segment at most has an entity of the reference.
one_type :
    (kind : EntityType) (o : Option KnowledgeEntity)
    → or_else
        (or_else
          (or_else
            (or_else
              (or_else
                (if kind == artifact then o else none)
                (if kind == location then o else none))
              (if kind == character then o else none))
            (if kind == episode then o else none))
          (if kind == work then o else none))
        (if kind == continuity then o else none)
      ≡ o
unfolding Type_discrete
one_type continuity o = refl
one_type work none = refl
one_type work (some x) = refl
one_type episode none = refl
one_type episode (some x) = refl
one_type character none = refl
one_type character (some x) = refl
one_type location none = refl
one_type location (some x) = refl
one_type artifact none = refl
one_type artifact (some x) = refl

pub at_ref-group :
    (r : EntityRef) (es : List KnowledgeEntity) → at_ref r (entities_of (group es)) ≡ at_ref r es
at_ref-group r es =
    rw
      (
        entities_of-group es,
        find_last-append test (of_type continuity es) _,
        find_last-append test (of_type work es) _,
        find_last-append test (of_type episode es) _,
        find_last-append test (of_type character es) _,
        find_last-append test (of_type location es) _,
        at_ref-of_type r continuity es,
        at_ref-of_type r work es,
        at_ref-of_type r episode es,
        at_ref-of_type r character es,
        at_ref-of_type r location es,
        at_ref-of_type r artifact es,
      )
      (one_type r.type (at_ref r es))
  where
    test : KnowledgeEntity → Bool
    test e = entity_ref e == r
