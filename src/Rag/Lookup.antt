-- ===== src/Rag/Lookup.antt =====
-- `KnowledgeLookup` of backend/src/smeshariki_ai/rag/lookup.py: the search for the agent. Logging is
-- left out, and so are the texts of the two messages.
pub mod Cards
pub mod Matches
pub mod Counted
use bmstu_nirs.Common.{
  Bool, List, Option, String, [], false, inl, inr, length, ltb, none, some, take, true, ℕ, ◌∷◌, ◌⊎◌,
}
use bmstu_nirs.Rag.Models.{TextFunctions, normalize_name}
use bmstu_nirs.Rag.Store.{State, StoreError, has_knowledge}
use bmstu_nirs.Rag.Store.Finding.{FoundKnowledge, find_knowledge}
use bmstu_nirs.Rag.Lookup.Cards.{Card, all_cards}

-- `KnowledgeReader`. A search raises an error of the store, or the `KeyError` of a missing work.
pub data ReadError : Type 0 where
  reader_error : StoreError → ReadError
  key_error : ReadError

pub record KnowledgeReader : Type 0 where
  pub find_key : String → ReadError ⊎ FoundKnowledge
  pub is_loaded : StoreError ⊎ Bool

pub data LookupStatus : Type 0 where
  found not_found unavailable : LookupStatus

pub data LookupMessage : Type 0 where
  not_found_message unavailable_message : LookupMessage

pub record LookupResult : Type 0 where
  pub status : LookupStatus
  pub total : ℕ
  pub truncated : Bool
  pub shown : List Card
  pub message : Option LookupMessage

abbrev pub lookup_limit : ℕ
lookup_limit = 10

-- `_unavailable`
abbrev pub no_result : LookupResult
no_result = record {
  status = unavailable;
  total = 0;
  truncated = false;
  shown = [];
  message = some unavailable_message;
}

-- `_lookup`, once the cards are there.
unfoldable pub result_of : ℕ → StoreError ⊎ Bool → List Card → LookupResult
result_of limit loaded (c ∷ cards) = record {
  status = found;
  total = length (c ∷ cards);
  truncated = ltb limit (length (c ∷ cards));
  shown = take limit (c ∷ cards);
  message = none;
}
result_of limit (inr false) [] = no_result
result_of limit (inl e) [] = no_result
result_of limit (inr true) [] = record {
  status = not_found;
  total = 0;
  truncated = false;
  shown = [];
  message = some not_found_message;
}

-- `lookup`: an error of the store is the result `unavailable`; `none` is the `KeyError`.
unfoldable pub lookup_name : TextFunctions → KnowledgeReader → ℕ → String → Option LookupResult
unfolding normalize_name result_of all_cards
lookup_name t reader limit name = elim (reader.find_key (normalize_name t name)) [
  | inl (reader_error e) ↦ some no_result
  | inl key_error ↦ none
  | inr k ↦ some (result_of limit reader.is_loaded (all_cards k))
]

-- The store of the process as a reader: the state that the search reads, and the state when it is
-- asked whether anything is loaded.
abbrev pub memory_reader : TextFunctions → State → State → KnowledgeReader
memory_reader t s s' = record {
  find_key = λ key. elim (find_knowledge t key s) [ none ↦ inl key_error | some k ↦ inr k ];
  is_loaded = inr (has_knowledge s');
}
