-- ===== src/Rag/Lookup/Cards.antt =====
-- The cards of backend/src/smeshariki_ai/rag/lookup.py, which show references by name.
use bmstu_nirs.Common.{
  text_key, List, Option, String, find_last, lookup, map, none, some, ℕ, ◌++◌, ◌==◌,
}
use bmstu_nirs.Rag.Models.{
  ref_key, continuity, work, AgeGroup, Artifact, Character, CharacterVersion, EntityType, Episode,
  Interaction, InteractionType, Location, Relationship, RelationshipType, Slug, artifact, character,
  location,
}
use bmstu_nirs.Rag.Store.Finding.{FoundKnowledge}

pub record SpeechStyleCard : Type 0 where
  pub register : String
  pub markers : List String
  pub constraints : List String

pub record CharacterVersionCard : Type 0 where
  pub continuities : List String
  pub age_group : AgeGroup
  pub traits : List String
  pub speech_style : SpeechStyleCard
  pub catchphrases : List String

pub record RelationshipCard : Type 0 where
  pub to : String
  pub type : RelationshipType
  pub continuities : List String
  pub description : Option String

pub record CharacterCard : Type 0 where
  pub id : String
  pub name : String
  pub aliases : List String
  pub species : String
  pub versions : List CharacterVersionCard
  pub relationships : List RelationshipCard

pub record LocationCard : Type 0 where
  pub id : String
  pub name : String
  pub aliases : List String
  pub description : String
  pub continuities : List String
  pub residents : List String

pub record ArtifactCard : Type 0 where
  pub id : String
  pub name : String
  pub aliases : List String
  pub artifact_type : String
  pub description : String
  pub capabilities : List String
  pub limitations : List String
  pub continuities : List String
  pub creators : List String

pub record InteractionCard : Type 0 where
  pub from : String
  pub to : String
  pub type : InteractionType
  pub description : String

pub record EpisodeCard : Type 0 where
  pub id : String
  pub title : String
  pub work : String
  pub continuity : Option String
  pub season : Option ℕ
  pub number : ℕ
  pub characters : List String
  pub locations : List String
  pub artifacts : List String
  pub interactions : List InteractionCard

pub data Card : Type 0 where
  character_card : CharacterCard → Card
  location_card : LocationCard → Card
  artifact_card : ArtifactCard → Card
  episode_card : EpisodeCard → Card

module _ (found : FoundKnowledge) where
  -- `_name`: a name that is not there falls back to the id.
  unfoldable pub shown_name : EntityType → Slug → String
  shown_name kind id = elim (lookup (record { type = kind; id = id }) found.names) [
    | none ↦ id
    | some name ↦ name
  ]

  -- `_all`
  abbrev pub shown_names : EntityType → List Slug → List String
  shown_names kind = map (shown_name kind)

  abbrev pub show_version : CharacterVersion → CharacterVersionCard
  show_version v = record {
    continuities = shown_names continuity v.continuities;
    age_group = v.age_group;
    traits = v.traits;
    speech_style = record {
      register = v.speech_style.register;
      markers = v.speech_style.markers;
      constraints = v.speech_style.constraints;
    };
    catchphrases = v.catchphrases;
  }

  abbrev pub show_relationship : Relationship → RelationshipCard
  show_relationship r = record {
    to = shown_name character r.to;
    type = r.type;
    continuities = shown_names continuity r.continuities;
    description = r.description;
  }

  unfoldable pub show_character : Character → CharacterCard
  unfolding shown_name
  show_character c = record {
    id = c.id;
    name = c.name;
    aliases = c.aliases;
    species = c.species;
    versions = map show_version c.versions;
    relationships = map show_relationship c.relationships;
  }

  unfoldable pub show_location : Location → LocationCard
  unfolding shown_name
  show_location l = record {
    id = l.id;
    name = l.name;
    aliases = l.aliases;
    description = l.description;
    continuities = shown_names continuity l.continuities;
    residents = shown_names character l.residents;
  }

  unfoldable pub show_artifact : Artifact → ArtifactCard
  unfolding shown_name
  show_artifact a = record {
    id = a.id;
    name = a.name;
    aliases = a.aliases;
    artifact_type = a.artifact_type;
    description = a.description;
    capabilities = a.capabilities;
    limitations = a.limitations;
    continuities = shown_names continuity a.continuities;
    creators = shown_names character a.creators;
  }

  abbrev pub show_interaction : Interaction → InteractionCard
  show_interaction i = record {
    from = shown_name character i.from;
    to = shown_name character i.to;
    type = i.type;
    description = i.description;
  }

  unfoldable pub show_episode : Episode → EpisodeCard
  unfolding shown_name
  show_episode e = record {
    id = e.id;
    title = e.title;
    work = shown_name work e.work;
    continuity = elim (find_last (λ w. w.id == e.work) found.entities.works) [
      | none ↦ none
      | some w ↦ some (shown_name continuity w.continuity)
    ];
    season = e.season;
    number = e.number;
    characters = shown_names character e.characters;
    locations = shown_names location e.locations;
    artifacts = shown_names artifact e.artifacts;
    interactions = map show_interaction e.interactions;
  }

  -- `all`
  unfoldable pub all_cards : List Card
  unfolding show_character show_location show_artifact show_episode
  all_cards =
      map (λ c. character_card (show_character c)) found.entities.characters
      ++ (map (λ l. location_card (show_location l)) found.entities.locations
          ++ (map (λ a. artifact_card (show_artifact a)) found.entities.artifacts
              ++ map (λ e. episode_card (show_episode e)) found.entities.episodes))
