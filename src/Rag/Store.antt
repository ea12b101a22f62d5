-- ===== src/Rag/Store.antt =====
-- `InMemoryKnowledgeStore` of backend/src/smeshariki_ai/rag/memory.py with the records of
-- backend/src/smeshariki_ai/rag/ports.py. Values are immutable here, so that a copy of the state is
-- the state.
pub mod Finding
pub mod Saving
use bmstu_nirs.Common.{
  nat_key, text_key, Bool, Dict, List, Option, [], any, false, inl, inr, insert, length, lookup,
  map, max, none, some, sort_by, true, values, ℕ, ◌++◌, ◌+◌, ◌∷◌, ◌⊎◌,
}
use bmstu_nirs.Rag.Models.{ref_key, EntityRef, EntityType, KnowledgeEntity, KnowledgeSet}
use bmstu_nirs.Rag.Entities.{entity_ref}
use bmstu_nirs.Rag.Entities.Sets.{group}

-- Times are whole milliseconds.
abbrev pub Time : Type 0
Time = ℕ

-- `KnowledgeStoreError`
pub data StoreError : Type 0 where
  no_schema invalid_data no_database : StoreError

pub data ChangeOperation : Type 0 where
  create update : ChangeOperation

pub record EntityChange : Type 0 where
  pub operation : ChangeOperation
  pub entity : KnowledgeEntity

pub record ChangeCounts : Type 0 where
  pub added : ℕ
  pub updated : ℕ
  pub unchanged : ℕ

-- The counts of each type of entity.
abbrev pub Counts : Type 0
Counts = EntityType → ChangeCounts

pub record LoadSummary : Type 0 where
  pub finished_at : Time
  pub duration_ms : ℕ
  pub entity_count : ℕ
  pub counts : Counts

pub record LoadRecord : Type 0 where
  pub id : ℕ
  pub started_at : Time
  pub summary : Option LoadSummary

-- The payload is the entity, which the code dumps to JSON.
pub record Revision : Type 0 where
  pub revision : ℕ
  pub operation : ChangeOperation
  pub load_id : ℕ
  pub format_version : ℕ
  pub payload : KnowledgeEntity

abbrev pub knowledge_format_version : ℕ
knowledge_format_version = 1

pub record State : Type 0 where
  pub entities : Dict EntityRef KnowledgeEntity
  pub revisions : Dict EntityRef (List Revision)
  pub loads : Dict ℕ LoadRecord

abbrev pub no_state : State
no_state = record { entities = []; revisions = []; loads = [] }

-- The work is done on a copy, which replaces the state unless an exception is raised.
unfoldable pub transaction {ℓ κ} :
    {E : Type ℓ} {A : Type κ} → (State → E ⊎ (A × State)) → State → (E ⊎ A) × State
transaction body s = elim (body s) [ inl e ↦ (inl e, s) | inr (a, s') ↦ (inr a, s') ]

-- The entities by the id of their reference.
unfoldable pub sorted_entities : State → List KnowledgeEntity
sorted_entities s = map (λ x. x.1) (sort_by (λ x. x.0.id) s.entities)

unfoldable pub read_all : State → KnowledgeSet
unfolding sorted_entities group
read_all s = group (sorted_entities s)

-- `max(loads, default=0)`
unfoldable pub last_load : Dict ℕ LoadRecord → ℕ
last_load [] = 0
last_load ((n, r) ∷ loads) = max n (last_load loads)

unfoldable pub start_load : Time → State → ℕ × State
unfolding last_load
start_load started_at s =
    let load_id = last_load s.loads + 1 in
    (
      load_id,
      record s {
        loads =
            insert load_id (record { id = load_id; started_at = started_at; summary = none })
              s.loads;
      },
    )

-- `setdefault(ref, [])`
abbrev pub history_of : EntityRef → State → List Revision
history_of r s = elim (lookup r s.revisions) [ none ↦ [] | some history ↦ history ]

abbrev pub revision_of : ℕ → EntityChange → List Revision → Revision
revision_of load_id c history = record {
  revision = length history + 1;
  operation = c.operation;
  load_id = load_id;
  format_version = knowledge_format_version;
  payload = c.entity;
}

unfoldable pub save_one : ℕ → EntityChange → State → State
save_one load_id c s =
    let r = entity_ref c.entity in
    record s {
      entities = insert r c.entity s.entities;
      revisions =
          insert r (history_of r s ++ (revision_of load_id c (history_of r s) ∷ [])) s.revisions;
    }

unfoldable pub save : ℕ → List EntityChange → State → State
unfolding save_one
save load_id [] s = s
save load_id (c ∷ changes) s = save load_id changes (save_one load_id c s)

-- `none` is the `KeyError` of an unknown load.
unfoldable pub finish_load : ℕ → LoadSummary → State → Option State
finish_load load_id summary s = elim (lookup load_id s.loads) [
  | none ↦ none
  | some r ↦
      some (record s { loads = insert load_id (record r { summary = some summary }) s.loads })
]

unfoldable pub read_load : ℕ → State → Option LoadRecord
read_load load_id s = lookup load_id s.loads

unfoldable pub read_revisions : EntityRef → State → List Revision
read_revisions r s = history_of r s

abbrev pub is_finished : LoadRecord → Bool
is_finished r = elim (r.summary) [ none ↦ false | some _ ↦ true ]

unfoldable pub has_knowledge : State → Bool
has_knowledge s = any is_finished (values s.loads)
