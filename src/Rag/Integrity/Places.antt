-- ===== src/Rag/Integrity/Places.antt =====
-- The rules for locations and artifacts.
use bmstu_nirs.Common.{
  text_key, List, String, [], any, if◌then◌else◌, map, not, sort_by, ℕ, ◌&&◌, ◌++◌, ◌==◌, ◌∷◌,
}
use bmstu_nirs.Rag.Models.{
  ref_key, Artifact, EntityRef, EntityType, Location, Slug, SourceRef, TextFunctions, artifact,
  character, continuity, location, normalize_name,
}
use bmstu_nirs.Rag.Integrity.{
  Checker, FieldPath, Finding, broken, broken_if, character_continuities, check_sources,
  continuity_mismatch, duplicate_name, each, each_with, field, intersects, member, position,
  resolve, resolve_all, to_ref,
}
use bmstu_nirs.Rag.Integrity.Characters.{names_of}

-- What the rules read of a location or an artifact; `members` are its residents or its creators.
pub record Place : Type 0 where
  pub id : Slug
  pub name : String
  pub aliases : List String
  pub continuities : List Slug
  pub members : List Slug
  pub sources : List SourceRef

abbrev pub place_of_location : Location → Place
place_of_location l = record {
  id = l.id;
  name = l.name;
  aliases = l.aliases;
  continuities = l.continuities;
  members = l.residents;
  sources = l.sources;
}

abbrev pub place_of_artifact : Artifact → Place
place_of_artifact a = record {
  id = a.id;
  name = a.name;
  aliases = a.aliases;
  continuities = a.continuities;
  members = a.creators;
  sources = a.sources;
}

abbrev pub check_member : Checker → EntityRef → String → List Slug → ℕ → Slug → List Finding
check_member c owner members continuities i id =
    let path = field members ∷ position i ∷ [] in
    let (found, noted) = resolve c owner path character id in
    noted
    ++ broken_if (found && not (intersects continuities (character_continuities c id))) owner path
        continuity_mismatch

-- The keys with the continuities of the entities that hold them.
abbrev pub Holders : Type 0
Holders = List (String × List Slug)

-- The keys of this entity and the holders so far are carried.
unfoldable pub check_scoped_name :
    TextFunctions
    → EntityRef
    → List Slug
    → List String × Holders
    → ℕ
    → FieldPath × String
    → List Finding × (List String × Holders)
check_scoped_name t owner continuities (own, names) i (path, name) =
    let key = normalize_name t name in
    if member key own then (broken owner path duplicate_name, (own, names)) else (
      broken_if (any (λ h. (h.0 == key) && intersects h.1 continuities) names) owner path
          duplicate_name,
      (key ∷ own, names ++ ((key, continuities) ∷ [])),
    )

unfoldable pub check_place :
    TextFunctions → Checker → EntityType → String → Holders → ℕ → Place → List Finding × Holders
unfolding resolve_all check_sources check_scoped_name each each_with
check_place t c kind members names i p =
    let owner = to_ref kind p.id in
    let (named, carried) =
      each_with (check_scoped_name t owner p.continuities) ([], names) 0
        (names_of p.name p.aliases) in
    (
      resolve_all c owner (field "continuities" ∷ []) continuity p.continuities
          ++ (each (check_member c owner members p.continuities) 0 p.members
              ++ (check_sources c owner (field "sources" ∷ []) p.sources ++ named)),
      carried.1,
    )

abbrev pub check_places_of :
    TextFunctions → Checker → EntityType → String → List Place → List Finding
check_places_of t c kind members places =
    (each_with (check_place t c kind members) [] 0 (sort_by (λ p. p.id) places)).0

unfoldable pub check_places_and_things : TextFunctions → Checker → List Finding
unfolding check_place
check_places_and_things t c =
    check_places_of t c location "residents" (map place_of_location c.knowledge.locations)
    ++ check_places_of t c artifact "creators" (map place_of_artifact c.knowledge.artifacts)
