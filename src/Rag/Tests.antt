-- ===== src/Rag/Tests.antt =====
-- The theorems about knowledge at concrete inputs, and runs of a load and a search.
mod Directory
use bmstu_nirs.Common.{
  nat_key, text_key, ℕ_discrete, text_discrete, List, Option, String, [], concat_map, false, length,
  lookup, none, refl, some, sort_by, sort_with, take, text_leb, true, ℕ, ◌+◌, ◌∷◌, ◌≡◌, ◌≤◌, ◌⊎◌,
}
use bmstu_nirs.Rag.Models.{
  ref_key, Continuity, EntityRef, Entity_discrete, Episode, KnowledgeSet, Ref_discrete,
  TextFunctions, Work, continuity, no_knowledge, normalize_name, series, work, work_entity,
}
use bmstu_nirs.Rag.Entities.{entities_of}
use bmstu_nirs.Rag.Entities.Sets.{has}
use bmstu_nirs.Rag.Package.{broken_rule, entity_file}
use bmstu_nirs.Rag.Integrity.{field, unknown_reference}
use bmstu_nirs.Rag.Integrity.Episodes.{
  EpisodeNumber, number_key, number_of, Number_discrete, Interaction_discrete,
}
use bmstu_nirs.Rag.Integrity.Characters.{Relationship_discrete}
use bmstu_nirs.Rag.Integrity.Report.{check_integrity}
use bmstu_nirs.Rag.Integrity.Closed.{check_integrity-IsClosed}
use bmstu_nirs.Rag.Integrity.Whole.{IsClosed}
use bmstu_nirs.Rag.Integrity.Times.{times}
use bmstu_nirs.Rag.Integrity.Unique.{check_integrity-once}
use bmstu_nirs.Rag.Store.{State, Time, has_knowledge, no_database, no_state, read_revisions}
use bmstu_nirs.Rag.Store.Finding.{find_knowledge}
use bmstu_nirs.Rag.Store.Saving.{IsTracked}
use bmstu_nirs.Rag.Merging.{Type_discrete, merge}
use bmstu_nirs.Rag.Loading.{Load, LoadReport, failed, load_package, store_issue}
use bmstu_nirs.Rag.Loading.Under.{at_ref, or_else}
use bmstu_nirs.Rag.Loading.Merge.{IsKeyed, merge-at_ref}
use bmstu_nirs.Rag.Loading.Atomic.{IsAccepted, IsRejected, load_package-IsAtomic}
use bmstu_nirs.Rag.Loading.Stored.{IsDistinct, new_set}
use bmstu_nirs.Rag.Loading.Again.{load_package-again, load_package-lookup}
use bmstu_nirs.Rag.Loading.Reach.{IsWhole, Reach, Reach-IsTracked, Reach-IsWhole, load, nothing}
use bmstu_nirs.Rag.Lookup.{LookupResult, lookup_name, memory_reader}
use bmstu_nirs.Rag.Lookup.Counted.{IsAnswer, lookup_name-IsAnswer, stored_matches}
use bmstu_nirs.Rag.Lookup.Matches.{times_shown, times_there}
use bmstu_nirs.Rag.Lookup.Cards.{Card}

-- A declaration that unfolds this one runs the code.
unfoldable pub program : Unit {0}
unfolding ℕ_discrete text_discrete Ref_discrete Entity_discrete Type_discrete Number_discrete
    Interaction_discrete Relationship_discrete load_package lookup_name find_knowledge
    check_integrity has_knowledge read_revisions merge has sort_by sort_with text_leb entity_file
program = tt

-- Texts in one case, with no space to remove.
abbrev pub plain : TextFunctions
plain = record { nfc = λ s. s; casefold = λ s. s; single_spaced = λ s. s; replace = λ a b s. s }

abbrev pub classic : Continuity
classic = record { id = "classic"; name = "Classic" }

abbrev tales : Work
tales = record { id = "tales"; title = "Tales"; kind = series; continuity = "classic" }

abbrev bench : Episode
bench = record {
  id = "bench";
  work = "tales";
  season = some 1;
  number = 1;
  title = "Bench";
  characters = [];
  locations = [];
  artifacts = [];
  interactions = [];
}

abbrev small_set : KnowledgeSet
small_set = record no_knowledge {
  continuities = classic ∷ [];
  works = tales ∷ [];
  episodes = bench ∷ [];
}

abbrev pub load_of : KnowledgeSet → Time → Load
load_of k time = record {
  contents = some (record { knowledge = k; unverified = []; issues = [] });
  started_at = time;
  finished_at = time + 5;
  on_open = none;
  on_commit = none;
}

abbrev after_load : State
after_load = (load_package plain (load_of small_set 10) no_state).1

abbrev pub report_in : Option LoadReport → LoadReport
report_in none = failed []
report_in (some r) = r

load_run : (report_in (load_package plain (load_of small_set 10) no_state).0).loaded ≡ true
unfolding program
load_run = refl

abbrev renamed : KnowledgeSet
renamed = record no_knowledge { works = record tales { title = "Stories" } ∷ [] }

abbrev tales_ref : EntityRef
tales_ref = record { type = work; id = "tales" }

abbrev first_load : Load
first_load = load_of small_set 10

abbrev second_load : Load
second_load = load_of renamed 20

abbrev after_both : State
after_both = (load_package plain second_load after_load).1

abbrev pub report_of_load : Load → State → LoadReport
report_of_load l s = report_in (load_package plain l s).0

merge-at_ref_example :
    at_ref tales_ref (entities_of (merge small_set renamed))
    ≡ or_else (at_ref tales_ref (entities_of renamed)) (at_ref tales_ref (entities_of small_set))
merge-at_ref_example = merge-at_ref tales_ref small_set renamed

load_package-IsAtomic_example :
    (r : LoadReport) × (s' : State) × (load_package plain first_load no_state ≡ (some r, s'))
    × (IsRejected no_state r s' ⊎ IsAccepted plain first_load no_state r s')
load_package-IsAtomic_example = load_package-IsAtomic plain first_load no_state

small_set-IsDistinct : IsDistinct (entities_of (new_set plain first_load))
unfolding program
small_set-IsDistinct = (refl, (refl, (refl, tt)))

after_load-Reach : Reach plain after_load
after_load-Reach = load first_load no_state small_set-IsDistinct nothing

Reach-IsWhole_example : IsWhole after_load
Reach-IsWhole_example = Reach-IsWhole plain after_load after_load-Reach

Reach-IsTracked_example : IsTracked after_load
Reach-IsTracked_example = Reach-IsTracked plain after_load after_load-Reach

after_load-IsKeyed : IsKeyed after_load.entities
after_load-IsKeyed = (Reach-IsWhole plain after_load after_load-Reach).keyed

load_package-lookup_example :
    lookup tales_ref after_both.entities ≡ some (work_entity (record tales { title = "Stories" }))
unfolding program
load_package-lookup_example =
    load_package-lookup plain second_load after_load (report_of_load second_load after_load)
      after_both tales_ref after_load-IsKeyed (refl, tt) refl refl

load_package-again_example :
    let again = (load_package plain (load_of small_set 30) after_load).1 in
    (again.entities ≡ after_load.entities) × (again.revisions ≡ after_load.revisions)
unfolding program
load_package-again_example =
    load_package-again plain first_load (load_of small_set 30) no_state
      (report_of_load first_load no_state) after_load (tt, tt) small_set-IsDistinct refl refl refl

check_integrity-IsClosed_example : IsClosed small_set
unfolding program
check_integrity-IsClosed_example = check_integrity-IsClosed plain small_set refl

check_integrity-once_example :
    ((number : EpisodeNumber) → times number (concat_map (λ e. number_of e ∷ []) (bench ∷ [])) ≤ 1)
    × ((name : String) → times name [] ≤ 1)
unfolding program
check_integrity-once_example = check_integrity-once plain small_set false [] refl

lookup_name-IsAnswer_example :
    (r : LookupResult) × (lookup_name plain (memory_reader plain after_load after_both) 10 "Bench"
      ≡ some r)
    × IsAnswer
        (length (stored_matches plain (normalize_name plain "Bench") after_load))
        10
        (has_knowledge after_both)
        r
    × ((cards : List Card) × (r.shown ≡ take 10 cards)
        × ((j : EntityRef)
            → times_shown j cards
              ≡ times_there j (stored_matches plain (normalize_name plain "Bench") after_load)))
lookup_name-IsAnswer_example =
    lookup_name-IsAnswer plain after_load after_both 10 "Bench" after_load-Reach

-- A package whose episode has no work is not loaded, and a store error loads nothing.
missing_work_run :
    load_package plain (load_of (record no_knowledge { episodes = bench ∷ [] }) 20) no_state ≡ (
      some (
          failed (
            record {
              file = "episodes/bench.yaml";
              path = field "work" ∷ [];
              code = broken_rule unknown_reference;
              line = none;
            }
            ∷ [])),
      no_state,
    )
unfolding program
missing_work_run = refl

no_database_run :
    load_package plain (record first_load { on_commit = some no_database }) no_state
    ≡ (some (failed (store_issue no_database ∷ [])), no_state)
unfolding program
no_database_run = refl

abbrev total_of : Option LookupResult → ℕ
total_of none = 0
total_of (some r) = r.total

lookup_run : total_of (lookup_name plain (memory_reader plain after_load after_load) 10 "Bench") ≡ 1
unfolding program
lookup_run = refl
