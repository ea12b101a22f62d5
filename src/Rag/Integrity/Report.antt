-- ===== src/Rag/Integrity/Report.antt =====
-- `check_integrity`: all rules, and the report.
use bmstu_nirs.Common.{
  text_key, Bool, List, Option, [], any, choose, concat_map, if◌then◌else◌, keep, none, some,
  sort_by, ℕ, ◌++◌, ◌==◌, ◌∷◌,
}
use bmstu_nirs.Rag.Models.{
  ref_key, EntityRef, EntityType, KnowledgeSet, TextFunctions, Work, artifact, character,
  continuity, episode, location, work,
}
use bmstu_nirs.Rag.Integrity.{
  Checker, Finding, IntegrityReport, Violation, each, external, field, resolve, to_ref, violation,
}
use bmstu_nirs.Rag.Integrity.Episodes.{check_episodes}
use bmstu_nirs.Rag.Integrity.Characters.{check_characters}
use bmstu_nirs.Rag.Integrity.Places.{check_places_and_things}

unfoldable pub check_work : Checker → ℕ → Work → List Finding
unfolding resolve
check_work c i w =
    (resolve c (to_ref work w.id) (field "continuity" ∷ []) continuity w.continuity).1

-- `run`, before the report is made.
unfoldable pub findings : TextFunctions → Checker → List Finding
unfolding check_work each check_episodes check_characters check_places_and_things
findings t c =
    each (check_work c) 0 (sort_by (λ w. w.id) c.knowledge.works)
    ++ (check_episodes c ++ (check_characters t c ++ check_places_and_things t c))

abbrev pub to_violation : Finding → Option Violation
to_violation (violation v) = some v
to_violation (external r) = none

abbrev pub to_external : Finding → Option EntityRef
to_external (violation v) = none
to_external (external r) = some r

abbrev pub add_ref : EntityRef → List EntityRef → List EntityRef
add_ref r rs = if any (λ s. s == r) rs then rs else r ∷ rs

-- `set(refs)`
unfoldable pub ref_set : List EntityRef → List EntityRef
ref_set [] = []
ref_set (r ∷ rs) = add_ref r (ref_set rs)

abbrev pub is_kind : EntityType → EntityRef → Bool
is_kind kind r = r == to_ref kind r.id

-- By type, in the order of `EntityType`, and by id.
abbrev pub in_order : List EntityRef → List EntityRef
in_order rs =
    let sorted = sort_by (λ r. r.id) rs in
    concat_map (λ kind. keep (is_kind kind) sorted)
      (continuity ∷ work ∷ episode ∷ character ∷ location ∷ artifact ∷ [])

unfoldable pub check_integrity :
    TextFunctions → KnowledgeSet → Bool → List EntityRef → IntegrityReport
unfolding findings ref_set
check_integrity t k complete unverified =
    let found =
      findings t (record { knowledge = k; complete = complete; unverified = unverified }) in
    record {
      violations = choose to_violation found;
      external_refs = in_order (ref_set (choose to_external found));
    }
