-- ===== src/Rag/Package.antt =====
-- backend/src/smeshariki_ai/rag/package.py: the issues of a package and what is read from it. Reading
-- the files is not part of the model.
pub mod Reading
pub mod Names
use bmstu_nirs.Common.{text_key, List, Option, String, ℕ}
use bmstu_nirs.Rag.Models.{
  ref_key, EntityRef, EntityType, KnowledgeSet, artifact, character, continuity, episode, location,
  work,
}
use bmstu_nirs.Rag.Integrity.{Code, FieldPath}
use Prim.Native.String.{◌++◌ as ◌+++◌}

-- The codes of the issues, without those that only reading a file gives.
pub data IssueCode : Type 0 where
  broken_rule : Code → IssueCode
  package_not_found schema_not_ready stored_data_invalid database_unavailable : IssueCode
  reading : String → IssueCode

pub record Issue : Type 0 where
  pub file : String
  pub path : FieldPath
  pub code : IssueCode
  pub line : Option ℕ

pub record PackageContents : Type 0 where
  pub knowledge : KnowledgeSet
  pub unverified : List EntityRef
  pub issues : List Issue

-- `ENTITY_DIRECTORIES`
abbrev pub directory_of : EntityType → String
directory_of continuity = "continuities"
directory_of work = "works"
directory_of episode = "episodes"
directory_of character = "characters"
directory_of location = "locations"
directory_of artifact = "artifacts"

unfoldable pub entity_file : EntityRef → String
entity_file r = directory_of r.type +++ ("/" +++ (r.id +++ ".yaml"))
