-- ===== src/Rag/Models.antt =====
-- backend/src/smeshariki_ai/rag/models.py: the entities of a knowledge set. Slugs and texts are
-- texts here; the patterns and lengths that pydantic checks on a file are not part of the model.
use bmstu_nirs.Common.{text_key, Key, List, Option, String, [], text_discrete, ℕ, ℕ_discrete}

abbrev pub Slug : Type 0
Slug = String

-- What `normalize_name` takes from the library: NFC, case folding, single spaces, and `str.replace`
-- of one letter by another.
pub record TextFunctions : Type 0 where
  pub nfc : String → String
  pub casefold : String → String
  pub single_spaced : String → String
  pub replace : String → String → String → String

unfoldable pub normalize_name : TextFunctions → String → String
normalize_name t value = t.replace "ё" "е" (t.single_spaced (t.casefold (t.nfc value)))

pub data AgeGroup : Type 0 where
  child teen adult elderly : AgeGroup

pub data WorkKind : Type 0 where
  series film : WorkKind

pub data RelationshipType : Type 0 where
  friendship neighborhood affection mentor guardian : RelationshipType

pub data InteractionType : Type 0 where
  conflict support empathy : InteractionType

pub record SourceRef : Type 0 where
  pub episode : Option Slug
  pub timecode : Option String
  pub document : Option String
  pub locator : Option String
  pub note : Option String

pub record Continuity : Type 0 where
  pub id : Slug
  pub name : String

pub record Work : Type 0 where
  pub id : Slug
  pub title : String
  pub kind : WorkKind
  pub continuity : Slug

pub record Interaction : Type 0 where
  pub from : Slug
  pub to : Slug
  pub type : InteractionType
  pub description : String
  pub sources : List SourceRef

pub record Episode : Type 0 where
  pub id : Slug
  pub work : Slug
  pub season : Option ℕ
  pub number : ℕ
  pub title : String
  pub characters : List Slug
  pub locations : List Slug
  pub artifacts : List Slug
  pub interactions : List Interaction

pub record SpeechStyle : Type 0 where
  pub register : String
  pub markers : List String
  pub constraints : List String

pub record CharacterVersion : Type 0 where
  pub continuities : List Slug
  pub age_group : AgeGroup
  pub traits : List String
  pub speech_style : SpeechStyle
  pub catchphrases : List String
  pub sources : List SourceRef

pub record Relationship : Type 0 where
  pub to : Slug
  pub type : RelationshipType
  pub continuities : List Slug
  pub description : Option String
  pub sources : List SourceRef

pub record Character : Type 0 where
  pub id : Slug
  pub name : String
  pub aliases : List String
  pub species : String
  pub versions : List CharacterVersion
  pub relationships : List Relationship
  pub sources : List SourceRef

pub record Location : Type 0 where
  pub id : Slug
  pub name : String
  pub aliases : List String
  pub description : String
  pub continuities : List Slug
  pub residents : List Slug
  pub sources : List SourceRef

pub record Artifact : Type 0 where
  pub id : Slug
  pub name : String
  pub aliases : List String
  pub artifact_type : String
  pub description : String
  pub capabilities : List String
  pub limitations : List String
  pub continuities : List Slug
  pub creators : List Slug
  pub sources : List SourceRef

pub data EntityType : Type 0 where
  continuity work episode character location artifact : EntityType

pub record EntityRef : Type 0 where
  pub type : EntityType
  pub id : Slug

pub record KnowledgeSet : Type 0 where
  pub continuities : List Continuity
  pub works : List Work
  pub episodes : List Episode
  pub characters : List Character
  pub locations : List Location
  pub artifacts : List Artifact

abbrev pub no_knowledge : KnowledgeSet
no_knowledge = record {
  continuities = [];
  works = [];
  episodes = [];
  characters = [];
  locations = [];
  artifacts = [];
}

-- `KnowledgeEntity`, a union of the classes.
pub data KnowledgeEntity : Type 0 where
  continuity_entity : Continuity → KnowledgeEntity
  work_entity : Work → KnowledgeEntity
  episode_entity : Episode → KnowledgeEntity
  character_entity : Character → KnowledgeEntity
  location_entity : Location → KnowledgeEntity
  artifact_entity : Artifact → KnowledgeEntity

unfoldable pub Ref_discrete : Discrete EntityRef
Ref_discrete = hlevel text_discrete

unfoldable pub Entity_discrete : Discrete KnowledgeEntity
Entity_discrete = hlevel (text_discrete, ℕ_discrete)

instance abbrev pub ref_key : Key EntityRef
ref_key = record { dec = Ref_discrete }

instance abbrev pub entity_key : Key KnowledgeEntity
entity_key = record { dec = Entity_discrete }
