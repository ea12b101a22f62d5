-- ===== src/Rag/Integrity.antt =====
-- backend/src/smeshariki_ai/rag/integrity.py: the rules of a knowledge set. What the checker adds to
-- its two collections is one list of findings in order. The messages for people are left out, and
-- so are the values that only a message shows. A path is a list of its parts.
pub mod Episodes
pub mod Characters
pub mod Places
pub mod Report
pub mod Clean
pub mod Known
pub mod Referring
pub mod Closed
pub mod Whole
pub mod Times
pub mod Unique
use bmstu_nirs.Common.{
  text_key, Bool, List, String, [], any, concat_map, false, find_last, if◌then◌else◌, none, not,
  some, text_leb, true, ℕ, ◌&&◌, ◌++◌, ◌+◌, ◌==◌, ◌∷◌,
}
use bmstu_nirs.Rag.Models.{ref_key, EntityRef, EntityType, KnowledgeSet, Slug, SourceRef, episode}
use bmstu_nirs.Rag.Entities.Sets.{has}

pub data PathPart : Type 0 where
  field : String → PathPart
  position : ℕ → PathPart

abbrev pub FieldPath : Type 0
FieldPath = List PathPart

pub data Code : Type 0 where
  unknown_reference duplicate_episode_number continuity_mismatch film_episode_count : Code
  self_reference interaction_participant duplicate_interaction overlapping_versions : Code
  duplicate_relationship duplicate_name : Code

pub record Violation : Type 0 where
  pub entity : EntityRef
  pub path : FieldPath
  pub code : Code

pub data Finding : Type 0 where
  violation : Violation → Finding
  external : EntityRef → Finding

pub record IntegrityReport : Type 0 where
  pub violations : List Violation
  pub external_refs : List EntityRef

pub record Checker : Type 0 where
  pub knowledge : KnowledgeSet
  pub complete : Bool
  pub unverified : List EntityRef

-- `_violation`
abbrev pub broken : EntityRef → FieldPath → Code → List Finding
broken owner path code = violation (record { entity = owner; path = path; code = code }) ∷ []

-- The finding under a condition.
abbrev pub broken_if : Bool → EntityRef → FieldPath → Code → List Finding
broken_if test owner path code = if test then broken owner path code else []

abbrev pub to_ref : EntityType → Slug → EntityRef
to_ref kind id = record { type = kind; id = id }

abbrev pub member : Slug → List Slug → Bool
member id ids = any (λ i. i == id) ids

-- `continuities & others`
abbrev pub intersects : List Slug → List Slug → Bool
intersects xs ys = any (λ x. member x ys) xs

-- A loop over a list with the positions, from the given one on.
unfoldable pub each {ℓ} : {A : Type ℓ} → (ℕ → A → List Finding) → ℕ → List A → List Finding
each check i [] = []
each check i (x ∷ xs) = check i x ++ each check (i + 1) xs

-- A loop that carries a value.
unfoldable pub each_with {ℓ κ} :
    {S : Type ℓ} {A : Type κ} → (S → ℕ → A → List Finding × S) → S → ℕ → List A → List Finding × S
each_with check s i [] = ([], s)
each_with check s i (x ∷ xs) =
    let (found, s') = check s i x in
    let (rest, s'') = each_with check s' (i + 1) xs in (found ++ rest, s'')

-- `_resolve`: whether the target is in the set, and what is recorded if it is not.
unfoldable pub resolve : Checker → EntityRef → FieldPath → EntityType → Slug → Bool × List Finding
resolve c owner path kind target =
    let r = to_ref kind target in
    if has r c.knowledge then (true, []) else (
      false,
      if any (λ u. u == r) c.unverified
          then []
          else if c.complete
          then broken owner path unknown_reference
          else external r ∷ [],
    )

unfoldable pub resolve_all : Checker → EntityRef → FieldPath → EntityType → List Slug → List Finding
unfolding resolve each
resolve_all c owner path kind =
    each (λ i target. (resolve c owner (path ++ (position i ∷ [])) kind target).1) 0

-- `_character_continuities[id]`, once the character is in the set.
unfoldable pub character_continuities : Checker → Slug → List Slug
character_continuities c id = elim (find_last (λ ch. ch.id == id) c.knowledge.characters) [
  | none ↦ []
  | some ch ↦ concat_map (λ v. v.continuities) ch.versions
]

unfoldable pub check_sources : Checker → EntityRef → FieldPath → List SourceRef → List Finding
unfolding resolve each
check_sources c owner path =
    each
      (λ i source. elim (source.episode) [
        | none ↦ []
        | some target ↦
            (resolve c owner (path ++ (position i ∷ field "episode" ∷ [])) episode target).1
      ])
      0

-- A pair in its order, or in the order of the ids if the type is symmetric.
abbrev pub pair_of : Bool → Slug → Slug → Slug × Slug
pair_of symmetric first second =
    if symmetric && not (text_leb first second) then (second, first) else (first, second)
