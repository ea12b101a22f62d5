-- ===== src/Rag/Package/Reading.antt =====
-- `read_package` of backend/src/smeshariki_ai/rag/package.py over a directory. What PyYAML, pydantic,
-- `pathlib` and the pattern of ids do is given by a `FileReader`; the messages for people are left out.
use Prim.Native.Char.{code}
use bmstu_nirs.Common.{
  nat_key, text_key, Bool, Dict, List, Option, String, [], false, find, if◌then◌else◌, inl, inr,
  keep, lookup, map, none, not, some, sort_by, ℕ, ◌++◌, ◌+◌, ◌==◌, ◌||◌, ◌∷◌, ◌⊎◌,
}
use bmstu_nirs.Rag.Models.{
  ref_key, EntityRef, EntityType, KnowledgeEntity, artifact, character, continuity, episode,
  location, work,
}
use bmstu_nirs.Rag.Entities.{entity_id}
use bmstu_nirs.Rag.Entities.Sets.{group}
use bmstu_nirs.Rag.Integrity.{FieldPath, field, position}
use bmstu_nirs.Rag.Package.{Issue, PackageContents, directory_of, reading}
use Prim.Native.String.{◌++◌ as ◌+++◌}

-- What stands in a directory of entities, and at the root of a package.
pub data Leaf (C : Type 0) : Type 0 where
  symlink special_file : Leaf C
  content : C → Leaf C

pub data Item (C : Type 0) : Type 0 where
  leaf : Leaf C → Item C
  subfolder : Item C

pub data Node (C : Type 0) : Type 0 where
  entry : Leaf C → Node C
  folder : Dict String (Item C) → Node C

-- One error of pydantic.
pub record ErrorDetails : Type 0 where
  pub type : String
  pub loc : FieldPath

pub record YamlReadError : Type 0 where
  pub code_name : String
  pub line : Option ℕ

-- A file of content C holds data D.
pub record FileReader (C D : Type 0) : Type 0 where
  pub suffix : String → String
  pub stem : String → String
  pub is_slug : String → Bool
  pub read_yaml : C → YamlReadError ⊎ D
  pub validate_manifest : D → List ErrorDetails ⊎ ℕ
  pub validate : EntityType → D → List ErrorDetails ⊎ KnowledgeEntity

abbrev pub manifest_name : String
manifest_name = "package.yaml"

-- `_TYPES_BY_DIRECTORY.get`
unfoldable pub type_of_directory : String → Option EntityType
type_of_directory name =
    find (λ kind. directory_of kind == name)
      (continuity ∷ work ∷ episode ∷ character ∷ location ∷ artifact ∷ [])

-- The last part is this field.
abbrev pub ends_with : String → FieldPath → Bool
ends_with name [] = false
ends_with name (field f ∷ []) = f == name
ends_with name (position i ∷ []) = false
ends_with name (x ∷ (y ∷ p)) = ends_with name (y ∷ p)

-- `_SCHEMA_ERRORS`
abbrev pub schema_errors : Dict String String
schema_errors =
    ("missing", "missing_field")
    ∷ ("extra_forbidden", "extra_field")
    ∷ ("string_type", "invalid_type")
    ∷ ("int_type", "invalid_type")
    ∷ ("tuple_type", "invalid_type")
    ∷ ("model_type", "invalid_type")
    ∷ ("model_attributes_type", "invalid_type")
    ∷ ("string_too_short", "empty_value")
    ∷ ("too_short", "empty_value")
    ∷ []

-- `_translate`
unfoldable pub translate : ErrorDetails → String
translate error =
    if error.type == "string_pattern_mismatch"
    then (if ends_with "timecode" error.loc then "invalid_timecode" else "invalid_id")
    else if (error.type == "greater_than_equal") || (error.type == "enum")
    then "invalid_value"
    else if (error.type == "duplicate_value") || (error.type == "invalid_source")
    then error.type
    else elim (lookup error.type schema_errors) [ none ↦ "schema_error" | some name ↦ name ]

abbrev pub issue_in : String → String → FieldPath → Option ℕ → Issue
issue_in file name path line = record { file = file; path = path; code = reading name; line = line }

abbrev pub schema_issue : String → ErrorDetails → Issue
schema_issue file error = issue_in file (translate error) error.loc none

abbrev pub yaml_issue : String → YamlReadError → Issue
yaml_issue file error = issue_in file error.code_name [] error.line

-- What reading a part of a package gives.
pub record Reading : Type 0 where
  pub issues : List Issue
  pub entities : List KnowledgeEntity
  pub unverified : List EntityRef
  pub entity_files : ℕ

abbrev pub no_reading : Reading
no_reading = record { issues = []; entities = []; unverified = []; entity_files = 0 }

abbrev pub and_then : Reading → Reading → Reading
and_then a b = record {
  issues = a.issues ++ b.issues;
  entities = a.entities ++ b.entities;
  unverified = a.unverified ++ b.unverified;
  entity_files = a.entity_files + b.entity_files;
}

-- `_unexpected`
abbrev pub unexpected : String → String → Reading
unexpected file name = record no_reading { issues = issue_in file name [] none ∷ [] }

abbrev pub unexpected_leaf : {C : Type 0} → String → Leaf C → Reading
unexpected_leaf file symlink = unexpected file "symlink_not_allowed"
unexpected_leaf file _ = unexpected file "unexpected_file"

abbrev pub is_hidden : String → Bool
is_hidden String.[] = false
is_hidden (String.◌∷◌ c s) = code c == 46

-- `_visible`
abbrev pub visible {ℓ} : {A : Type ℓ} → Dict String A → Dict String A
visible d = keep (λ x. not (is_hidden x.0)) (sort_by (λ x. x.0) d)

module _ {C D : Type 0} (reader : FileReader C D) where
  -- `_read_entity`
  unfoldable pub read_entity : EntityType → String → String → C → List Issue ⊎ KnowledgeEntity
  unfolding translate
  read_entity kind file stem c = elim (reader.read_yaml c) [
    | inl error ↦ inl (yaml_issue file error ∷ [])
    | inr data_ ↦ elim (reader.validate kind data_) [
      | inl errors ↦ inl (map (schema_issue file) errors)
      | inr e ↦
          if entity_id e == stem
          then inr e
          else inl (issue_in file "file_id_mismatch" (field "id" ∷ []) none ∷ [])
    ]
  ]

  -- What one entity file gives.
  unfoldable pub reading_of : EntityType → String → List Issue ⊎ KnowledgeEntity → Reading
  reading_of kind stem (inr e) = record no_reading { entities = e ∷ []; entity_files = 1 }
  reading_of kind stem (inl issues) = record {
    issues = issues;
    entities = [];
    unverified = if reader.is_slug stem then record { type = kind; id = stem } ∷ [] else [];
    entity_files = 1;
  }

  -- One step of the inner loop.
  unfoldable pub read_item : EntityType → String → String → Item C → Reading
  unfolding read_entity reading_of
  read_item kind directory name subfolder =
      unexpected (directory +++ ("/" +++ name)) "unexpected_directory"
  read_item kind directory name (leaf (content c)) =
      if reader.suffix name == ".yaml"
      then reading_of kind (reader.stem name)
          (read_entity kind (directory +++ ("/" +++ name)) (reader.stem name) c)
      else unexpected_leaf (directory +++ ("/" +++ name)) (content c)
  read_item kind directory name (leaf symlink) =
      unexpected_leaf {C = C} (directory +++ ("/" +++ name)) symlink
  read_item kind directory name (leaf special_file) =
      unexpected_leaf {C = C} (directory +++ ("/" +++ name)) special_file

  unfoldable pub read_items : EntityType → String → Dict String (Item C) → Reading
  unfolding read_item
  read_items kind directory [] = no_reading
  read_items kind directory ((name, item) ∷ items) =
      and_then (read_item kind directory name item) (read_items kind directory items)

  -- One step of the outer loop.
  unfoldable pub read_node : String → Node C → Reading
  unfolding read_items type_of_directory
  read_node name (entry symlink) = unexpected_leaf {C = C} name symlink
  read_node name (entry l) = if name == manifest_name then no_reading else unexpected_leaf name l
  read_node name (folder items) =
      if name == manifest_name then no_reading else elim (type_of_directory name) [
        | none ↦ unexpected name "unexpected_directory"
        | some kind ↦ read_items kind name (visible items)
      ]

  unfoldable pub read_nodes : Dict String (Node C) → Reading
  unfolding read_node
  read_nodes [] = no_reading
  read_nodes ((name, node) ∷ nodes) = and_then (read_node name node) (read_nodes nodes)

  -- `_read_manifest`
  unfoldable pub read_manifest : Dict String (Node C) → List Issue
  unfolding translate
  read_manifest root = elim (lookup manifest_name root) [
    | some (entry symlink) ↦ []
    | some (entry (content c)) ↦ elim (reader.read_yaml c) [
      | inl error ↦ yaml_issue manifest_name error ∷ []
      | inr data_ ↦ elim (reader.validate_manifest data_) [
        | inl errors ↦ map (schema_issue manifest_name) errors
        | inr version ↦
            if version == 1
            then []
            else issue_in manifest_name "unsupported_format_version" (field "format_version" ∷ [])
                none
              ∷ []
      ]
    ]
    | _ ↦ issue_in manifest_name "missing_manifest" [] none ∷ []
  ]

  -- `read_package`: `none` is `PackageNotFoundError`.
  unfoldable pub read_package : Option (Dict String (Node C)) → Option PackageContents
  unfolding read_manifest read_nodes group
  read_package none = none
  read_package (some root) =
      let r = read_nodes (visible root) in
      some (record {
        knowledge = group r.entities;
        unverified = r.unverified;
        issues =
            read_manifest root
            ++ (r.issues
                ++ (if r.entity_files == 0 then issue_in "." "empty_package" [] none ∷ [] else []));
      })
