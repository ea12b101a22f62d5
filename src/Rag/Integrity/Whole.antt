-- ===== src/Rag/Integrity/Whole.antt =====
-- What the entities of a set refer to, read from their fields: the specification of a closed set. The
-- sources of an entity and of its parts may name episodes.
use bmstu_nirs.Common.{
  text_key, All, List, Option, [], concat_map, none, some, true, ◌++◌, ◌∷◌, ◌≡◌,
}
use bmstu_nirs.Rag.Models.{
  ref_key, CharacterVersion, EntityRef, Interaction, KnowledgeEntity, KnowledgeSet, Relationship,
  Slug, SourceRef, artifact, artifact_entity, character, character_entity, continuity,
  continuity_entity, episode, episode_entity, location, location_entity, work, work_entity,
}
use bmstu_nirs.Rag.Entities.{entities_of, refs}
use bmstu_nirs.Rag.Entities.Sets.{has}

abbrev pub source_target : Option Slug → List EntityRef
source_target none = []
source_target (some id) = record { type = episode; id = id } ∷ []

abbrev pub source_targets : List SourceRef → List EntityRef
source_targets = concat_map (λ s. source_target s.episode)

abbrev pub interaction_targets : Interaction → List EntityRef
interaction_targets i = refs character (i.from ∷ i.to ∷ []) ++ source_targets i.sources

abbrev pub version_targets : CharacterVersion → List EntityRef
version_targets v = refs continuity v.continuities ++ source_targets v.sources

abbrev pub relationship_targets : Relationship → List EntityRef
relationship_targets r =
    refs character (r.to ∷ []) ++ (refs continuity r.continuities ++ source_targets r.sources)

-- The references of one entity.
abbrev pub entity_references : KnowledgeEntity → List EntityRef
entity_references (continuity_entity e) = []
entity_references (work_entity e) = refs continuity (e.continuity ∷ [])
entity_references (episode_entity e) =
    refs work (e.work ∷ [])
    ++ (refs character e.characters
        ++ (refs location e.locations
            ++ (refs artifact e.artifacts ++ concat_map interaction_targets e.interactions)))
entity_references (character_entity e) =
    concat_map version_targets e.versions
    ++ (concat_map relationship_targets e.relationships ++ source_targets e.sources)
entity_references (location_entity e) =
    refs continuity e.continuities ++ (refs character e.residents ++ source_targets e.sources)
entity_references (artifact_entity e) =
    refs continuity e.continuities ++ (refs character e.creators ++ source_targets e.sources)

module _ (k : KnowledgeSet) where
  abbrev pub InSet : List EntityRef → Type 0
  InSet = All (λ r. has r k ≡ true)

  abbrev pub RefsIn : List KnowledgeEntity → Type 0
  RefsIn = All (λ e. InSet (entity_references e))

-- The set has every entity that its entities refer to.
abbrev pub IsClosed : KnowledgeSet → Type 0
IsClosed k = RefsIn k (entities_of k)
