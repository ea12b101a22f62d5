-- ===== src/Rag/Tests/Directory.antt =====
-- A package directory that is read, and loaded.
use bmstu_nirs.Common.{
  text_key, Bool, Dict, List, String, [], ap, eq_of_==, false, if◌then◌else◌, inl, inr, map, refl,
  some, sym, true, ℕ, ◌==◌, ◌∙◌, ◌∷◌, ◌≡◌, ◌⊎◌,
}
use bmstu_nirs.Rag.Models.{EntityType, KnowledgeEntity, continuity_entity, no_knowledge}
use bmstu_nirs.Rag.Entities.{entities_of, entity_type}
use bmstu_nirs.Rag.Package.{reading}
use bmstu_nirs.Rag.Package.Reading.{
  ErrorDetails, FileReader, Node, content, entry, folder, leaf, read_package,
}
use bmstu_nirs.Rag.Store.{no_state}
use bmstu_nirs.Rag.Merging.{Type_discrete}
use bmstu_nirs.Rag.Loading.{Load}
use bmstu_nirs.Rag.Loading.Stored.{IsDistinct, new_set}
use bmstu_nirs.Rag.Loading.Distinct.{new_set-IsDistinct}
use bmstu_nirs.Rag.Tests.{classic, load_of, plain, program, report_of_load}
use Prim.Native.String.{◌++◌ as ◌+++◌}
use Prim.Native.String.append

-- A file holds a format version or an entity; one file has the suffix of YAML.
abbrev File : Type 0
File = ℕ ⊎ KnowledgeEntity

abbrev entity_of_type : EntityType → KnowledgeEntity → List ErrorDetails ⊎ KnowledgeEntity
entity_of_type kind e = elim (Type_discrete (entity_type e) kind) [
  | yes _ ↦ inr e
  | no _ ↦ inl (record { type = "model_type"; loc = [] } ∷ [])
]

abbrev file_reader : FileReader File File
file_reader = record {
  suffix = λ name. if name == "classic.yaml" then ".yaml" else name;
  stem = λ name. if name == "classic.yaml" then "classic" else "";
  is_slug = λ name. true;
  read_yaml = λ file. inr file;
  validate_manifest = λ file. elim file [ inl version ↦ inr version | inr e ↦ inl [] ];
  validate = λ kind file. elim file [ inl version ↦ inl [] | inr e ↦ entity_of_type kind e ];
}

file_reader-typed :
    (kind : EntityType) (file : File) (e : KnowledgeEntity)
    → file_reader.validate kind file ≡ inr e
    → entity_type e ≡ kind
file_reader-typed kind (inl version) e h = cc
file_reader-typed kind (inr e') e h = go (Type_discrete (entity_type e') kind) h
  where
    go :
        (d : Dec (entity_type e' ≡ kind))
        → ◌≡◌ {A = List ErrorDetails ⊎ KnowledgeEntity}
            (elim d [ yes _ ↦ inr e' | no _ ↦ inl (record { type = "model_type"; loc = [] } ∷ []) ])
            (inr e)
        → entity_type e ≡ kind
    go (yes same) h = let is_e : e' ≡ e = cc h in ap entity_type (sym is_e) ∙ same
    go (no apart) h = cc

file_reader-parts : (name : String) → (file_reader.stem name +++ file_reader.suffix name) ≡ name
file_reader-parts name = go (name == "classic.yaml") refl
  where
    go :
        (b : Bool)
        → (name == "classic.yaml") ≡ b
        → ((if b then "classic" else "") +++ (if b then ".yaml" else name)) ≡ name
    go true same = sym (eq_of_== name "classic.yaml" same)
    go false same = append.nil name

abbrev package_root : Dict String (Node File)
package_root =
    (
      "continuities",
      folder (("classic.yaml", leaf (content (inr (continuity_entity classic)))) ∷ []),
    )
    ∷ ("package.yaml", entry (content (inl 1)))
    ∷ []

abbrev directory_load : Load
directory_load = record (load_of no_knowledge 10) {
  contents = read_package file_reader (some package_root);
}

new_set-IsDistinct_example : IsDistinct (entities_of (new_set plain directory_load))
unfolding program
new_set-IsDistinct_example =
    new_set-IsDistinct file_reader file_reader-typed file_reader-parts plain directory_load
      package_root ((refl, (refl, tt)), ((refl, tt), (tt, tt))) refl

directory_run : (report_of_load directory_load no_state).entity_count ≡ 1
unfolding program read_package
directory_run = refl

-- A file that is not of the type of its directory is reported.
wrong_folder_run :
    map
      (λ i. i.code)
      (report_of_load
        (record directory_load {
          contents = read_package file_reader (
              some (
                (
                  "works",
                  folder (("classic.yaml", leaf (content (inr (continuity_entity classic)))) ∷ []),
                )
                ∷ ("package.yaml", entry (content (inl 1)))
                ∷ []));
        })
        no_state).issues
    ≡ reading "invalid_type" ∷ []
unfolding program read_package
wrong_folder_run = refl
