-- ===== src/Rag/Store/Finding.antt =====
-- `find`: the entities with a name, alias, title or id, the works of the episodes among them, and
-- the names of what they refer to.
use bmstu_nirs.Common.{
  text_key, Bool, Dict, List, Option, String, [], any, choose, if◌then◌else◌, insert, keep, lookup,
  map, none, some, sort_by, ◌==◌, ◌∷◌,
}
use bmstu_nirs.Rag.Models.{
  ref_key, EntityRef, KnowledgeEntity, KnowledgeSet, Slug, TextFunctions, artifact_entity,
  character_entity, continuity_entity, episode_entity, location_entity, normalize_name, work,
  work_entity,
}
use bmstu_nirs.Rag.Entities.{references_of}
use bmstu_nirs.Rag.Entities.Sets.{group, to_work}
use bmstu_nirs.Rag.Store.{State, sorted_entities}

-- The names of each referenced entity; the two levels of the dict are one here.
pub record FoundKnowledge : Type 0 where
  pub entities : KnowledgeSet
  pub names : Dict EntityRef String

-- `_name`
abbrev pub name_of : KnowledgeEntity → String
name_of (continuity_entity e) = e.name
name_of (work_entity e) = e.title
name_of (episode_entity e) = e.title
name_of (character_entity e) = e.name
name_of (location_entity e) = e.name
name_of (artifact_entity e) = e.name

-- `_keys` of an entity that is looked up; it is not called for the others.
unfoldable pub keys_of : TextFunctions → KnowledgeEntity → List String
keys_of t (episode_entity e) = e.id ∷ normalize_name t e.title ∷ []
keys_of t (character_entity e) = e.id ∷ map (normalize_name t) (e.name ∷ e.aliases)
keys_of t (location_entity e) = e.id ∷ map (normalize_name t) (e.name ∷ e.aliases)
keys_of t (artifact_entity e) = e.id ∷ map (normalize_name t) (e.name ∷ e.aliases)
keys_of t (continuity_entity e) = []
keys_of t (work_entity e) = []

abbrev pub matches : TextFunctions → String → KnowledgeEntity → Bool
matches t key e = any (λ k. k == key) (keys_of t e)

-- A set of texts has each once.
abbrev pub add_text : String → List String → List String
add_text s ss = if any (λ k. k == s) ss then ss else s ∷ ss

unfoldable pub text_set : List String → List String
text_set [] = []
text_set (s ∷ ss) = add_text s (text_set ss)

-- `entities[EntityRef(type=WORK, id=work_id)]` for each; `none` is the `KeyError`.
unfoldable pub works_at : List Slug → Dict EntityRef KnowledgeEntity → Option (List KnowledgeEntity)
works_at [] entities = some []
works_at (id ∷ ids) entities = elim (lookup (record { type = work; id = id }) entities) [
  | none ↦ none
  | some e ↦ elim (works_at ids entities) [ none ↦ none | some es ↦ some (e ∷ es) ]
]

unfoldable pub names_in : List EntityRef → Dict EntityRef KnowledgeEntity → Dict EntityRef String
names_in [] entities = []
names_in (r ∷ rs) entities =
    let rest = names_in rs entities in
    elim (lookup r entities) [ none ↦ rest | some e ↦ insert r (name_of e) rest ]

unfoldable pub matching : TextFunctions → String → State → List KnowledgeEntity
unfolding keys_of
matching t key s = keep (matches t key) (sorted_entities s)

unfoldable pub find_knowledge : TextFunctions → String → State → Option FoundKnowledge
unfolding matching works_at names_in text_set group
find_knowledge t key s =
    let found = group (matching t key s) in
    elim (works_at (sort_by (λ id. id) (text_set (map (λ e. e.work) found.episodes))) s.entities) [
      | none ↦ none
      | some works ↦
          let entities = record found { works = choose to_work works } in
          some
            (record { entities = entities; names = names_in (references_of entities) s.entities })
    ]
