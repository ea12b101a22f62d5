-- ===== src/Rag/Entities.antt =====
-- The functions of backend/src/smeshariki_ai/rag/models.py on entities and knowledge sets.
pub mod Sets
use bmstu_nirs.Common.{List, [], concat_map, map, ◌++◌, ◌∷◌}
use bmstu_nirs.Rag.Models.{
  Character, EntityRef, EntityType, Episode, KnowledgeEntity, KnowledgeSet, Relationship, Slug,
  artifact, artifact_entity, character, character_entity, continuity, continuity_entity, episode,
  episode_entity, location, location_entity, work, work_entity,
}

abbrev pub entity_type : KnowledgeEntity → EntityType
entity_type (continuity_entity _) = continuity
entity_type (work_entity _) = work
entity_type (episode_entity _) = episode
entity_type (character_entity _) = character
entity_type (location_entity _) = location
entity_type (artifact_entity _) = artifact

abbrev pub entity_id : KnowledgeEntity → Slug
entity_id (continuity_entity e) = e.id
entity_id (work_entity e) = e.id
entity_id (episode_entity e) = e.id
entity_id (character_entity e) = e.id
entity_id (location_entity e) = e.id
entity_id (artifact_entity e) = e.id

abbrev pub entity_ref : KnowledgeEntity → EntityRef
entity_ref e = record { type = entity_type e; id = entity_id e }

-- In the order of `EntityType`.
unfoldable pub entities_of : KnowledgeSet → List KnowledgeEntity
entities_of k =
    map continuity_entity k.continuities
    ++ (map work_entity k.works
        ++ (map episode_entity k.episodes
            ++ (map character_entity k.characters
                ++ (map location_entity k.locations ++ map artifact_entity k.artifacts))))

-- A set of ids of one type.
abbrev pub refs : EntityType → List Slug → List EntityRef
refs type = map (λ id. record { type = type; id = id })

abbrev pub episode_references : Episode → List EntityRef
episode_references e =
    refs work (e.work ∷ [])
    ++ (refs character e.characters ++ (refs location e.locations ++ refs artifact e.artifacts))

abbrev pub relationship_references : Relationship → List EntityRef
relationship_references r = refs character (r.to ∷ []) ++ refs continuity r.continuities

abbrev pub character_references : Character → List EntityRef
character_references c =
    concat_map (λ v. refs continuity v.continuities) c.versions
    ++ concat_map relationship_references c.relationships

-- The sets by type are one list of references here.
unfoldable pub references_of : KnowledgeSet → List EntityRef
references_of k =
    refs continuity (map (λ w. w.continuity) k.works)
    ++ (concat_map episode_references k.episodes
        ++ (concat_map character_references k.characters
            ++ (concat_map (λ l. refs continuity l.continuities) k.locations
                ++ (concat_map (λ a. refs continuity a.continuities) k.artifacts
                    ++ (concat_map (λ l. refs character l.residents) k.locations
                        ++ concat_map (λ a. refs character a.creators) k.artifacts)))))
