-- ===== src/Rag/Loading/Distinct.antt =====
-- The references of what `read_package` gives.
use mathlib.Core.Option.{some-injective}
use bmstu_nirs.Common.{
  text_key, All, All-append, All-keep, All-mono, All-sort_by, Bool, Bool-cases, Dict, IsUnique,
  List, Option, String, [], ap, contains, eq_of_==, false, find-passes, if◌then◌else◌, inl, inr,
  map, none, not, refl, some, sort_by, subst, sym, true, ⊤, ◌==◌, ◌∙◌, ◌∷◌, ◌≡◌, ◌⊎◌,
}
use bmstu_nirs.Rag.Integrity.{field}
use bmstu_nirs.Rag.Models.{
  ref_key, EntityType, KnowledgeEntity, TextFunctions, artifact, character, continuity, episode,
  location, work,
}
use bmstu_nirs.Rag.Entities.{entities_of, entity_id, entity_type}
use bmstu_nirs.Rag.Package.{Issue, PackageContents, directory_of}
use bmstu_nirs.Rag.Package.Reading.{
  ErrorDetails, FileReader, Item, Node, Reading, YamlReadError, content, entry, folder, is_hidden,
  issue_in, leaf, manifest_name, read_entity, read_item, read_items, read_node, read_nodes,
  read_package, reading_of, schema_issue, special_file, subfolder, symlink, type_of_directory,
  unexpected, visible, yaml_issue,
}
use bmstu_nirs.Rag.Loading.{Load, check_package}
use bmstu_nirs.Rag.Loading.Stored.{IsDistinct, new_set}
use bmstu_nirs.Rag.Loading.Grouped.{group-IsDistinct}
use bmstu_nirs.Rag.Loading.Apart.{key-append}
use bmstu_nirs.Rag.Package.Names.{visible-IsUnique}
use Prim.Native.String.{◌++◌ as ◌+++◌}

type_of_directory-lem :
    (name : String) (kind : EntityType)
    → type_of_directory name ≡ some kind
    → directory_of kind ≡ name
unfolding type_of_directory
type_of_directory-lem name kind known = eq_of_== (directory_of kind) name (
    find-passes (λ k. directory_of k == name) kind
      (continuity ∷ work ∷ episode ∷ character ∷ location ∷ artifact ∷ []) known)

-- No two entries of the root, and no two entries of a directory in it, have one name.
abbrev pub HasNames : {C : Type 0} → Node C → Type 0
HasNames (entry l) = ⊤
HasNames (folder items) = IsUnique items

abbrev pub IsDirectory : {C : Type 0} → Dict String (Node C) → Type 0
IsDirectory root = IsUnique root × All (λ x. HasNames x.1) root

module _ {C D : Type 0} (reader : FileReader C D)
    (typed : (kind : EntityType) (d : D) (e : KnowledgeEntity)
      → reader.validate kind d ≡ inr e
      → entity_type e ≡ kind)
    (parts : (name : String) → (reader.stem name +++ reader.suffix name) ≡ name) where
  read_entity-lem :
      (kind : EntityType) (file stem : String) (c : C) (e : KnowledgeEntity)
      → read_entity reader kind file stem c ≡ inr e
      → (entity_type e ≡ kind) × (entity_id e ≡ stem)
  unfolding read_entity
  read_entity-lem kind file stem c e h = go (reader.read_yaml c) h
    where
      named :
          (e' : KnowledgeEntity) (b : Bool)
          → entity_type e' ≡ kind
          → (entity_id e' == stem) ≡ b
          → ◌≡◌ {A = List Issue ⊎ KnowledgeEntity}
              (if b
                then inr e'
                else inl (issue_in file "file_id_mismatch" (field "id" ∷ []) none ∷ []))
              (inr e)
          → (entity_type e ≡ kind) × (entity_id e ≡ stem)
      named e' true of_kind same h =
          let is_e : e' ≡ e = cc h in
          (
            ap entity_type (sym is_e) ∙ of_kind,
            ap entity_id (sym is_e) ∙ eq_of_== (entity_id e') stem same,
          )
      named e' false of_kind same h = cc

      valid :
          (d : D) (x : List ErrorDetails ⊎ KnowledgeEntity)
          → reader.validate kind d ≡ x
          → ◌≡◌ {A = List Issue ⊎ KnowledgeEntity}
              (elim x [
                | inl errors ↦ inl (map (schema_issue file) errors)
                | inr e' ↦
                    if entity_id e' == stem
                    then inr e'
                    else inl (issue_in file "file_id_mismatch" (field "id" ∷ []) none ∷ [])
              ])
              (inr e)
          → (entity_type e ≡ kind) × (entity_id e ≡ stem)
      valid d (inl errors) ok h = cc
      valid d (inr e') ok h = named e' (entity_id e' == stem) (typed kind d e' ok) refl h

      go :
          (y : YamlReadError ⊎ D)
          → ◌≡◌ {A = List Issue ⊎ KnowledgeEntity}
              (elim y [
                | inl error ↦ inl (yaml_issue file error ∷ [])
                | inr d ↦ elim (reader.validate kind d) [
                  | inl errors ↦ inl (map (schema_issue file) errors)
                  | inr e' ↦
                      if entity_id e' == stem
                      then inr e'
                      else inl (issue_in file "file_id_mismatch" (field "id" ∷ []) none ∷ [])
                ]
              ])
              (inr e)
          → (entity_type e ≡ kind) × (entity_id e ≡ stem)
      go (inl error) h = cc
      go (inr d) h = valid d (reader.validate kind d) refl h

  -- The file that an entity of a directory is in.
  abbrev yaml_name : KnowledgeEntity → String
  yaml_name e = entity_id e +++ ".yaml"

  IsRead : EntityType → String → List KnowledgeEntity → Type 0
  IsRead kind name es =
      (IsDistinct es × All (λ e. yaml_name e ≡ name) es) × All (λ e. entity_type e ≡ kind) es

  reading_of-IsRead :
      (kind : EntityType) (name : String) (x : List Issue ⊎ KnowledgeEntity)
      → reader.suffix name ≡ ".yaml"
      → ((e : KnowledgeEntity)
          → x ≡ inr e
          → (entity_type e ≡ kind) × (entity_id e ≡ reader.stem name))
      → IsRead kind name (reading_of reader kind (reader.stem name) x).entities
  unfolding reading_of IsRead
  reading_of-IsRead kind name (inl issues) suffix h = ((tt, tt), tt)
  reading_of-IsRead kind name (inr e) suffix h =
      let (of_kind, id) = h e refl in
      (
        (
          (refl, tt),
          (
            ap (λ i. i +++ ".yaml") id
                ∙ (ap (λ x. reader.stem name +++ x) (sym suffix) ∙ parts name),
            tt,
          ),
        ),
        (of_kind, tt),
      )

  read_item-IsRead :
      (kind : EntityType) (directory name : String) (item : Item C)
      → IsRead kind name (read_item reader kind directory name item).entities
  unfolding read_item IsRead
  read_item-IsRead kind directory name subfolder = ((tt, tt), tt)
  read_item-IsRead kind directory name (leaf symlink) = ((tt, tt), tt)
  read_item-IsRead kind directory name (leaf special_file) = ((tt, tt), tt)
  read_item-IsRead kind directory name (leaf (content c)) =
      elim (Bool-cases (reader.suffix name == ".yaml")) [
        | inl is_yaml ↦ rw is_yaml (
            reading_of-IsRead kind name
              (read_entity reader kind (directory +++ ("/" +++ name)) (reader.stem name) c)
              (eq_of_== (reader.suffix name) ".yaml" is_yaml)
              (read_entity-lem kind (directory +++ ("/" +++ name)) (reader.stem name) c))
        | inr other ↦ rw other ((tt, tt), tt)
      ]

  read_items-IsDistinct :
      (kind : EntityType) (directory : String) (items : Dict String (Item C))
      → IsUnique items
      → (IsDistinct (read_items reader kind directory items).entities
          × All
              (λ e. contains (yaml_name e) items ≡ true)
              (read_items reader kind directory items).entities)
        × All (λ e. entity_type e ≡ kind) (read_items reader kind directory items).entities
  unfolding read_items IsRead
  read_items-IsDistinct kind directory [] u = ((tt, tt), tt)
  read_items-IsDistinct kind directory ((name, item) ∷ items) (absent, u) =
      let (one, types) = read_item-IsRead kind directory name item in
      let (others, other_types) = read_items-IsDistinct kind directory items u in
      (
        key-append yaml_name (λ e e' same. ap (λ r. r.id +++ ".yaml") same) name item items
            (read_item reader kind directory name item).entities
            (read_items reader kind directory items).entities absent one others,
        All-append (λ e. entity_type e ≡ kind) (read_item reader kind directory name item).entities
            (read_items reader kind directory items).entities types other_types,
      )

  abbrev folder_name : KnowledgeEntity → String
  folder_name e = directory_of (entity_type e)

  abbrev IsOfFolder : String → Reading → Type 0
  IsOfFolder name r = IsDistinct r.entities × All (λ e. folder_name e ≡ name) r.entities

  read_node-IsDistinct :
      (name : String) (node : Node C) → HasNames node → IsOfFolder name (read_node reader name node)
  unfolding read_node type_of_directory
  read_node-IsDistinct name (entry symlink) u = (tt, tt)
  read_node-IsDistinct name (entry special_file) u = elim (Bool-cases (name == manifest_name)) [
    | inl own ↦ rw own (tt, tt)
    | inr other ↦ rw other (tt, tt)
  ]
  read_node-IsDistinct name (entry (content c)) u = elim (Bool-cases (name == manifest_name)) [
    | inl own ↦ rw own (tt, tt)
    | inr other ↦ rw other (tt, tt)
  ]
  read_node-IsDistinct name (folder items) u = elim (Bool-cases (name == manifest_name)) [
    | inl own ↦ rw own (tt, tt)
    | inr other ↦ rw other (of_directory (type_of_directory name) refl)
  ]
    where
      of_directory :
          (o : Option EntityType)
          → type_of_directory name ≡ o
          → IsOfFolder name (elim o [
            | none ↦ unexpected name "unexpected_directory"
            | some kind ↦ read_items reader kind name (visible items)
          ])
      of_directory none known = (tt, tt)
      of_directory (some kind) known =
          let ((distinct, there), types) =
            read_items-IsDistinct kind name (visible items) (visible-IsUnique items u) in
          (
            distinct,
            All-mono (λ e. entity_type e ≡ kind) (λ e. folder_name e ≡ name)
                (λ e same. ap directory_of same ∙ type_of_directory-lem name kind known)
                (read_items reader kind name (visible items)).entities types,
          )

  read_nodes-IsDistinct :
      (nodes : Dict String (Node C))
      → IsDirectory nodes
      → IsDistinct (read_nodes reader nodes).entities
        × All (λ e. contains (folder_name e) nodes ≡ true) (read_nodes reader nodes).entities
  unfolding read_nodes
  read_nodes-IsDistinct [] u = (tt, tt)
  read_nodes-IsDistinct ((name, node) ∷ nodes) ((absent, u), (names, h)) =
      key-append folder_name (λ e e' same. ap (λ r. directory_of r.type) same) name node nodes
        (read_node reader name node).entities (read_nodes reader nodes).entities absent
        (read_node-IsDistinct name node names) (read_nodes-IsDistinct nodes (u, h))

  read_package-IsDistinct :
      (root : Dict String (Node C)) (k : PackageContents)
      → IsDirectory root
      → read_package reader (some root) ≡ some k
      → IsDistinct (entities_of k.knowledge)
  unfolding read_package
  read_package-IsDistinct root k (u, names) h =
      let seen = visible root in
      let sorted_names =
        All-keep (λ x. HasNames x.1) (λ x. not (is_hidden x.0)) (sort_by (λ x. x.0) root)
          (All-sort_by (λ x. x.0) (λ x. HasNames x.1) root names) in
      subst (λ c. IsDistinct (entities_of c.knowledge)) (some-injective _ k h)
        (group-IsDistinct (read_nodes reader seen).entities
          (read_nodes-IsDistinct seen (visible-IsUnique root u, sorted_names)).0)

  -- If no two entries of a directory have one name, a file's name is its stem and its suffix, and a
  -- file that is valid as an entity of a type gives an entity of that type, then in the set that a
  -- load takes from a package directory no reference is twice.
  pub new_set-IsDistinct :
      (t : TextFunctions) (l : Load) (root : Dict String (Node C))
      → IsDirectory root
      → l.contents ≡ read_package reader (some root)
      → IsDistinct (entities_of (new_set t l))
  unfolding read_package check_package
  new_set-IsDistinct t l root directory read =
      subst (λ c. IsDistinct (entities_of (check_package t c).0)) (sym read)
        (read_package-IsDistinct root _ directory refl)
