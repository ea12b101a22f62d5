-- ===== src/Rag/Loading.antt =====
-- backend/src/smeshariki_ai/rag/services.py: checking a package, and loading it into the store in one
-- transaction. What is read from the package is an argument, `none` if it is not there.
pub mod Under
pub mod Merge
pub mod Atomic
pub mod Stored
pub mod Again
pub mod Grouped
pub mod Apart
pub mod Distinct
pub mod Reach
pub mod Found
use bmstu_nirs.Common.{
  nat_key, text_key, Bool, List, Option, [], false, if◌then◌else◌, inl, inr, leb, length, map, none,
  some, sort_with, text_leb, true, ℕ, ◌++◌, ◌-◌, ◌==◌, ◌∷◌, ◌⊎◌,
}
use bmstu_nirs.Rag.Models.{
  ref_key, EntityRef, EntityType, KnowledgeSet, TextFunctions, artifact, character, continuity,
  episode, location, no_knowledge, work,
}
use bmstu_nirs.Rag.Entities.{entities_of}
use bmstu_nirs.Rag.Entities.Sets.{has}
use bmstu_nirs.Rag.Integrity.{FieldPath, Violation, field, position}
use bmstu_nirs.Rag.Integrity.Report.{check_integrity}
use bmstu_nirs.Rag.Package.{
  Issue, IssueCode, PackageContents, broken_rule, database_unavailable, directory_of, entity_file,
  package_not_found, schema_not_ready, stored_data_invalid,
}
use bmstu_nirs.Rag.Store.{
  Counts, LoadSummary, State, StoreError, Time, finish_load, invalid_data, no_database, no_schema,
  read_all, save, start_load, transaction,
}
use bmstu_nirs.Rag.Merging.{changes_of, merge, no_counts}
use Prim.Native.String.{◌++◌ as ◌+++◌}

-- The order of `_natural` on paths whose fields are of small letters and `_`: a field goes before a
-- position, since `.` goes before `[`.
unfoldable pub path_leb : FieldPath → FieldPath → Bool
path_leb [] q = true
path_leb (x ∷ p) [] = false
path_leb (field a ∷ p) (field b ∷ q) = if a == b then path_leb p q else text_leb a b
path_leb (field a ∷ p) (position j ∷ q) = true
path_leb (position i ∷ p) (field b ∷ q) = false
path_leb (position i ∷ p) (position j ∷ q) = if i == j then path_leb p q else leb i j

-- `_sorted`
unfoldable pub sorted_issues : List Issue → List Issue
unfolding path_leb
sorted_issues =
    sort_with (λ a b. if a.file == b.file then path_leb a.path b.path else text_leb a.file b.file)

abbrev pub issue_of : KnowledgeSet → Violation → Issue
issue_of pack v = record {
  file =
      if has v.entity pack
      then entity_file v.entity
      else "db:" +++ (directory_of v.entity.type +++ ("/" +++ v.entity.id));
  path = v.path;
  code = broken_rule v.code;
  line = none;
}

unfoldable pub violation_issues : List Violation → KnowledgeSet → List Issue
unfolding sorted_issues
violation_issues violations pack = sorted_issues (map (issue_of pack) violations)

pub record CheckReport : Type 0 where
  pub valid : Bool
  pub counts : EntityType → ℕ
  pub external_refs : List EntityRef
  pub issues : List Issue

pub record LoadReport : Type 0 where
  pub loaded : Bool
  pub load_id : Option ℕ
  pub counts : Counts
  pub entity_count : ℕ
  pub duration_ms : ℕ
  pub issues : List Issue

abbrev pub is_empty {ℓ} : {A : Type ℓ} → List A → Bool
is_empty [] = true
is_empty (x ∷ xs) = false

abbrev pub issue_at_root : IssueCode → Issue
issue_at_root code = record { file = "."; path = []; code = code; line = none }

abbrev pub size_of : KnowledgeSet → EntityType → ℕ
size_of k continuity = length k.continuities
size_of k work = length k.works
size_of k episode = length k.episodes
size_of k character = length k.characters
size_of k location = length k.locations
size_of k artifact = length k.artifacts

-- `_check`
unfoldable pub check_package : TextFunctions → Option PackageContents → KnowledgeSet × CheckReport
unfolding check_integrity sorted_issues violation_issues
check_package t contents = elim contents [
  | none ↦ (
    no_knowledge,
    record {
      valid = false;
      counts = λ kind. 0;
      external_refs = [];
      issues = issue_at_root package_not_found ∷ [];
    },
  )
  | some c ↦
      let k = c.knowledge in
      let report = check_integrity t k false c.unverified in
      let issues = sorted_issues (c.issues ++ violation_issues report.violations k) in
      (
        k,
        record {
          valid = is_empty issues;
          counts = size_of k;
          external_refs = report.external_refs;
          issues = issues;
        },
      )
]

-- The ways in which a transaction of a load ends without a report of its own.
pub data LoadError : Type 0 where
  rejected : List Issue → LoadError
  store_error : StoreError → LoadError
  unknown_load : LoadError

abbrev pub store_issue : StoreError → Issue
store_issue no_schema = issue_at_root schema_not_ready
store_issue invalid_data = issue_at_root stored_data_invalid
store_issue no_database = issue_at_root database_unavailable

-- `_failed`
abbrev pub failed : List Issue → LoadReport
failed issues = record {
  loaded = false;
  load_id = none;
  counts = no_counts;
  entity_count = 0;
  duration_ms = 0;
  issues = issues;
}

-- One load: what is read from the package, the two times of the clock, and the errors that the
-- store raises, if it does, when the transaction is opened and when it is committed.
pub record Load : Type 0 where
  pub contents : Option PackageContents
  pub started_at : Time
  pub finished_at : Time
  pub on_open : Option StoreError
  pub on_commit : Option StoreError

-- The end of the transaction: the load is finished, unless its record is not there, and the store
-- is committed, unless that raises an error.
unfoldable pub conclude :
    LoadReport → Option StoreError → Option State → LoadError ⊎ (LoadReport × State)
conclude r e none = inl unknown_load
conclude r (some e) (some s) = inl (store_error e)
conclude r none (some s) = inr (r, s)

-- The load once the merged set breaks no rule.
unfoldable pub apply_package :
    KnowledgeSet → KnowledgeSet → Load → State → LoadError ⊎ (LoadReport × State)
unfolding changes_of start_load save finish_load conclude
apply_package pack merged l s =
    let (changes, counts) = changes_of (read_all s) pack in
    let (id, started) = start_load l.started_at s in
    let saved = save id changes started in
    let report : LoadReport = record {
      loaded = true;
      load_id = some id;
      counts = counts;
      entity_count = length (entities_of merged);
      duration_ms = l.finished_at - l.started_at;
      issues = [];
    } in
    let summary : LoadSummary = record {
      finished_at = l.finished_at;
      duration_ms = report.duration_ms;
      entity_count = report.entity_count;
      counts = report.counts;
    } in
    conclude report l.on_commit (finish_load id summary saved)

-- `raise _Rejected` unless no rule is broken.
unfoldable pub unless_broken {ℓ} :
    {A : Type ℓ} → List Violation → KnowledgeSet → LoadError ⊎ A → LoadError ⊎ A
unless_broken [] pack x = x
unless_broken (v ∷ vs) pack x = inl (rejected (violation_issues (v ∷ vs) pack))

-- The transaction of `load_package`.
unfoldable pub load_body :
    TextFunctions → KnowledgeSet → Load → State → LoadError ⊎ (LoadReport × State)
unfolding read_all merge check_integrity violation_issues unless_broken apply_package
load_body t pack l s = elim (l.on_open) [
  | some e ↦ inl (store_error e)
  | none ↦
      let merged = merge (read_all s) pack in
      unless_broken (check_integrity t merged true []).violations pack
        (apply_package pack merged l s)
]

-- `none` is a `KeyError`, which nothing catches.
abbrev pub report_of : LoadError ⊎ LoadReport → Option LoadReport
report_of (inr report) = some report
report_of (inl (rejected issues)) = some (failed issues)
report_of (inl (store_error e)) = some (failed (store_issue e ∷ []))
report_of (inl unknown_load) = none

unfoldable pub load_package : TextFunctions → Load → State → Option LoadReport × State
unfolding check_package transaction load_body
load_package t l s =
    let (pack, check) = check_package t l.contents in
    if check.valid
    then (let (result, s') = transaction (load_body t pack l) s in (report_of result, s'))
    else (some (failed check.issues), s)
