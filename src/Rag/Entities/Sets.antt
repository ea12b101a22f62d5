-- ===== src/Rag/Entities/Sets.antt =====
-- Entities grouped into a knowledge set.
use bmstu_nirs.Common.{text_key, Bool, List, Option, any, choose, none, some, ◌==◌}
use bmstu_nirs.Rag.Models.{
  ref_key, entity_key, Artifact, Character, Continuity, EntityRef, Episode, KnowledgeEntity,
  KnowledgeSet, Location, Work, artifact_entity, character_entity, continuity_entity,
  episode_entity, location_entity, work_entity,
}
use bmstu_nirs.Rag.Entities.{entities_of, entity_ref}

abbrev pub to_continuity : KnowledgeEntity → Option Continuity
to_continuity (continuity_entity e) = some e
to_continuity _ = none

abbrev pub to_work : KnowledgeEntity → Option Work
to_work (work_entity e) = some e
to_work _ = none

abbrev pub to_episode : KnowledgeEntity → Option Episode
to_episode (episode_entity e) = some e
to_episode _ = none

abbrev pub to_character : KnowledgeEntity → Option Character
to_character (character_entity e) = some e
to_character _ = none

abbrev pub to_location : KnowledgeEntity → Option Location
to_location (location_entity e) = some e
to_location _ = none

abbrev pub to_artifact : KnowledgeEntity → Option Artifact
to_artifact (artifact_entity e) = some e
to_artifact _ = none

-- `KnowledgeSet` of the entities grouped by type, each group in their order.
unfoldable pub group : List KnowledgeEntity → KnowledgeSet
group es = record {
  continuities = choose to_continuity es;
  works = choose to_work es;
  episodes = choose to_episode es;
  characters = choose to_character es;
  locations = choose to_location es;
  artifacts = choose to_artifact es;
}

-- The set has an entity of this type and id.
unfoldable pub has : EntityRef → KnowledgeSet → Bool
unfolding entities_of
has r k = any (λ e. entity_ref e == r) (entities_of k)
