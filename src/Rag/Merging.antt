-- ===== src/Rag/Merging.antt =====
-- The merge of a package into a set, and the changes that it makes (backend/src/smeshariki_ai/rag/services.py).
use bmstu_nirs.Common.{
  text_key, Dict, Key, List, [], if◌then◌else◌, insert, lookup, none, some, values, ◌++◌, ◌+◌, ◌==◌,
  ◌∷◌,
}
use bmstu_nirs.Rag.Models.{
  ref_key, entity_key, EntityRef, EntityType, KnowledgeEntity, KnowledgeSet,
}
use bmstu_nirs.Rag.Entities.{entities_of, entity_ref, entity_type}
use bmstu_nirs.Rag.Entities.Sets.{group}
use bmstu_nirs.Rag.Store.{ChangeCounts, Counts, EntityChange, create, update}

-- `_merge`: `{entity_ref(e): e for e in es}` put into a dict.
unfoldable pub put_all :
    List KnowledgeEntity → Dict EntityRef KnowledgeEntity → Dict EntityRef KnowledgeEntity
put_all [] d = d
put_all (e ∷ es) d = put_all es (insert (entity_ref e) e d)

unfoldable pub merge : KnowledgeSet → KnowledgeSet → KnowledgeSet
unfolding put_all group
merge current pack = group (values (put_all (entities_of pack) (put_all (entities_of current) [])))

-- What a load does with one entity.
pub data Outcome : Type 0 where
  added updated unchanged : Outcome

abbrev pub outcome_of : Dict EntityRef KnowledgeEntity → KnowledgeEntity → Outcome
outcome_of stored e = elim (lookup (entity_ref e) stored) [
  | none ↦ added
  | some previous ↦ if previous == e then unchanged else updated
]

abbrev pub change_of : Outcome → KnowledgeEntity → List EntityChange
change_of added e = record { operation = create; entity = e } ∷ []
change_of updated e = record { operation = update; entity = e } ∷ []
change_of unchanged e = []

unfoldable pub Type_discrete : Discrete EntityType
Type_discrete = hlevel

instance abbrev pub type_key : Key EntityType
type_key = record { dec = Type_discrete }

abbrev pub count_one : Outcome → ChangeCounts → ChangeCounts
count_one added n = record n { added = n.added + 1 }
count_one updated n = record n { updated = n.updated + 1 }
count_one unchanged n = record n { unchanged = n.unchanged + 1 }

abbrev pub count : Outcome → EntityType → Counts → Counts
count o kind totals = λ k. if k == kind then count_one o (totals k) else totals k

-- `_zero(ChangeCounts)`
abbrev pub no_counts : Counts
no_counts kind = record { added = 0; updated = 0; unchanged = 0 }

-- The loop of `_changes`.
unfoldable pub changes_from :
    Dict EntityRef KnowledgeEntity → List KnowledgeEntity → Counts → List EntityChange × Counts
changes_from stored [] totals = ([], totals)
changes_from stored (e ∷ es) totals =
    let o = outcome_of stored e in
    let (changes, counts) = changes_from stored es (count o (entity_type e) totals) in
    (change_of o e ++ changes, counts)

unfoldable pub changes_of : KnowledgeSet → KnowledgeSet → List EntityChange × Counts
unfolding changes_from put_all
changes_of current pack =
    changes_from (put_all (entities_of current) []) (entities_of pack) no_counts
