-- ===== src/Rag/Integrity/Characters.antt =====
-- The rules for characters.
use bmstu_nirs.Common.{
  text_key, Bool, Key, List, Option, String, [], any, false, if◌then◌else◌, none, not, some,
  sort_by, text_discrete, true, ℕ, ◌&&◌, ◌++◌, ◌+◌, ◌==◌, ◌||◌, ◌∷◌,
}
use bmstu_nirs.Rag.Models.{
  ref_key, Character, CharacterVersion, EntityRef, Relationship, RelationshipType, Slug,
  TextFunctions, character, continuity, friendship, neighborhood, normalize_name,
}
use bmstu_nirs.Rag.Integrity.{
  Checker, FieldPath, Finding, broken, broken_if, character_continuities, check_sources,
  continuity_mismatch, duplicate_name, duplicate_relationship, each, each_with, field, intersects,
  member, overlapping_versions, pair_of, position, resolve, self_reference, to_ref,
}

pub record RelationshipKey : Type 0 where
  pub first : Slug
  pub second : Slug
  pub type : RelationshipType

unfoldable pub Relationship_discrete : Discrete RelationshipKey
Relationship_discrete = hlevel text_discrete

instance abbrev pub relationship_key : Key RelationshipKey
relationship_key = record { dec = Relationship_discrete }

-- `RelationshipType.symmetric`
abbrev pub is_mutual : RelationshipType → Bool
is_mutual friendship = true
is_mutual neighborhood = true
is_mutual _ = false

abbrev pub key_of : Slug → Relationship → RelationshipKey
key_of id r =
    let (first, second) = pair_of (is_mutual r.type) id r.to in
    record { first = first; second = second; type = r.type }

-- One continuity of a version; those seen before it, in this version or an earlier one, are carried.
unfoldable pub check_continuity :
    Checker → EntityRef → FieldPath → List Slug → ℕ → Slug → List Finding × List Slug
unfolding resolve
check_continuity c owner path seen i id =
    let here = path ++ (field "continuities" ∷ position i ∷ []) in
    let taken = member id seen in
    (
      (resolve c owner here continuity id).1 ++ broken_if taken owner here overlapping_versions,
      if taken then seen else id ∷ seen,
    )

unfoldable pub check_version :
    Checker → EntityRef → List Slug → ℕ → CharacterVersion → List Finding × List Slug
unfolding check_continuity check_sources each_with
check_version c owner seen i v =
    let path = field "versions" ∷ position i ∷ [] in
    let (found, seen') = each_with (check_continuity c owner path) seen 0 v.continuities in
    (found ++ check_sources c owner (path ++ (field "sources" ∷ [])) v.sources, seen')

unfoldable pub check_versions : Checker → EntityRef → Character → List Finding
unfolding check_version
check_versions c owner ch = (each_with (check_version c owner) [] 0 ch.versions).0

-- The relationships seen, with their continuities.
abbrev pub SeenPairs : Type 0
SeenPairs = List (RelationshipKey × List Slug)

-- A continuity of a relationship is one of both characters, as far as the other is known.
abbrev pub check_shared :
    Checker → EntityRef → FieldPath → List Slug → Option (List Slug) → ℕ → Slug → List Finding
check_shared c owner path own other i id =
    let here = path ++ (field "continuities" ∷ position i ∷ []) in
    (resolve c owner here continuity id).1
    ++ broken_if
        (not (member id own) || elim other [ none ↦ false | some theirs ↦ not (member id theirs) ])
        owner here continuity_mismatch

unfoldable pub check_relationship :
    Checker → EntityRef → Slug → SeenPairs → ℕ → Relationship → List Finding × SeenPairs
unfolding resolve check_sources each character_continuities
check_relationship c owner id seen i r =
    let path = field "relationships" ∷ position i ∷ [] in
    let sources = check_sources c owner (path ++ (field "sources" ∷ [])) r.sources in
    if r.to == id
    then (sources ++ broken owner (path ++ (field "to" ∷ [])) self_reference, seen)
    else let (found, noted) = resolve c owner (path ++ (field "to" ∷ [])) character r.to in
      let own = character_continuities c id in
      let other = if found then some (character_continuities c r.to) else none in
      let key = key_of id r in
      (
        sources
            ++ (noted
                ++ (each (check_shared c owner path own other) 0 r.continuities
                    ++ broken_if (any (λ s. (s.0 == key) && intersects r.continuities s.1) seen)
                        owner path duplicate_relationship)),
        seen ++ ((key, r.continuities) ∷ []),
      )

-- `_names`
abbrev pub aliases_from : ℕ → List String → List (FieldPath × String)
aliases_from i [] = []
aliases_from i (a ∷ as') = (field "aliases" ∷ position i ∷ [], a) ∷ aliases_from (i + 1) as'

abbrev pub names_of : String → List String → List (FieldPath × String)
names_of name aliases = (field "name" ∷ [], name) ∷ aliases_from 0 aliases

-- The keys of the names seen, of this character or an earlier one, are carried.
unfoldable pub check_name :
    TextFunctions → EntityRef → List String → ℕ → FieldPath × String → List Finding × List String
check_name t owner names i (path, name) =
    let key = normalize_name t name in
    let taken = member key names in
    (broken_if taken owner path duplicate_name, if taken then names else key ∷ names)

pub record Seen : Type 0 where
  pub names : List String
  pub relationships : SeenPairs

unfoldable pub check_character :
    TextFunctions → Checker → Seen → ℕ → Character → List Finding × Seen
unfolding check_versions check_relationship check_name
check_character t c seen i ch =
    let owner = to_ref character ch.id in
    let (related, relationships) =
      each_with (check_relationship c owner ch.id) seen.relationships 0 ch.relationships in
    let (named, names) =
      each_with (check_name t owner) seen.names 0 (names_of ch.name ch.aliases) in
    (
      check_versions c owner ch
          ++ (related ++ (check_sources c owner (field "sources" ∷ []) ch.sources ++ named)),
      record { names = names; relationships = relationships },
    )

unfoldable pub check_characters : TextFunctions → Checker → List Finding
unfolding check_character
check_characters t c =
    (each_with (check_character t c) (record { names = []; relationships = [] }) 0
      (sort_by (λ ch. ch.id) c.knowledge.characters)).0
