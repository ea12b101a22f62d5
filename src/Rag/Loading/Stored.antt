-- ===== src/Rag/Loading/Stored.antt =====
-- What the store has after a load.
use bmstu_nirs.Common.{
  text_key, All, All-sort_by, Bool, Bool-cases, Dict, List, Option, [], ap, eq_of_==, false,
  find_last, find_last-sort_by, if◌then◌else◌, inl, inr, lookup, map, none, refl, some, sort_by,
  subst, sym, true, ℕ, ⊤, ◌++◌, ◌==◌, ◌∙◌, ◌∷◌, ◌≡◌,
}
use bmstu_nirs.Rag.Models.{
  ref_key, entity_key, EntityRef, KnowledgeEntity, KnowledgeSet, TextFunctions,
}
use bmstu_nirs.Rag.Entities.{entities_of, entity_ref, entity_type}
use bmstu_nirs.Rag.Store.{
  Counts, EntityChange, State, read_all, save, save_one, sorted_entities, start_load,
}
use bmstu_nirs.Rag.Merging.{
  Outcome, added, change_of, changes_from, changes_of, count, no_counts, outcome_of, put_all,
  unchanged, updated,
}
use bmstu_nirs.Rag.Loading.{Load, LoadReport, check_package}
use bmstu_nirs.Rag.Loading.Under.{at_ref, at_ref-group, or_else}
use bmstu_nirs.Rag.Loading.Merge.{IsKeyed, at_ref-values, lookup-put_all, put_all-IsKeyed}
use bmstu_nirs.Rag.Loading.Atomic.{IsApplied, new_id}

-- What the store has under a reference is what the read set has there.
at_ref-entries :
    (r : EntityRef) (d : Dict EntityRef KnowledgeEntity)
    → All (λ x. entity_ref x.1 ≡ x.0) d
    → at_ref r (map (λ x. x.1) d)
      ≡ elim (find_last (λ x. x.0 == r) d) [ none ↦ none | some x ↦ some x.1 ]
at_ref-entries r [] h = refl
at_ref-entries r ((k, e) ∷ d) (own, h) = rw (at_ref-entries r d h) (
    ap
      (λ j.
        or_else (elim (find_last (λ x. x.0 == r) d) [ none ↦ none | some x ↦ some x.1 ])
          (if j == r then some e else none))
      own
    ∙ pick (find_last (λ x. x.0 == r) d) (k == r))
  where
    pick :
        (o : Option (EntityRef × KnowledgeEntity)) (b : Bool)
        → or_else (elim o [ none ↦ none | some x ↦ some x.1 ]) (if b then some e else none)
          ≡ elim (or_else o (if b then some (k, e) else none)) [ none ↦ none | some x ↦ some x.1 ]
    pick none true = refl
    pick none false = refl
    pick (some x) b = refl

-- Under each reference, the set that a transaction reads has what the store has.
pub read_all-at_ref :
    (r : EntityRef) (s : State)
    → IsKeyed s.entities
    → at_ref r (entities_of (read_all s)) ≡ lookup r s.entities
unfolding read_all sorted_entities
read_all-at_ref r s (unique, keyed) =
    at_ref-group r (sorted_entities s)
    ∙ (at_ref-entries r (sort_by (λ x. x.0.id) s.entities)
          (All-sort_by (λ x. x.0.id) (λ x. entity_ref x.1 ≡ x.0) s.entities keyed)
        ∙ (ap (λ o. elim o [ none ↦ none | some x ↦ some x.1 ])
              (find_last-sort_by (λ x. x.0.id) (λ x. x.0 == r)
                (λ x y p q. ap (λ j. j.id) (eq_of_== x.0 r p ∙ sym (eq_of_== y.0 r q))) s.entities)
            ∙ (sym (at_ref-entries r s.entities keyed)
                ∙ at_ref-values r s.entities (unique, keyed))))

pub save-entities :
    (id : ℕ) (cs : List EntityChange) (s : State)
    → (save id cs s).entities ≡ put_all (map (λ c. c.entity) cs) s.entities
unfolding save save_one put_all
save-entities id [] s = refl
save-entities id (c ∷ cs) s = save-entities id cs (save_one id c s)

-- No reference is there twice.
abbrev pub IsDistinct : List KnowledgeEntity → Type 0
IsDistinct [] = ⊤
IsDistinct (e ∷ es) = (at_ref (entity_ref e) es ≡ none) × IsDistinct es

-- The entity, unless the store has an equal one.
abbrev pub unless_same : Option KnowledgeEntity → KnowledgeEntity → Option KnowledgeEntity
unless_same none e = some e
unless_same (some previous) e = if previous == e then none else some e

abbrev changed : Outcome → KnowledgeEntity → Option KnowledgeEntity
changed unchanged e = none
changed _ e = some e

abbrev entities_in : List EntityChange → List KnowledgeEntity
entities_in = map (λ c. c.entity)

abbrev differing : Option KnowledgeEntity → Option KnowledgeEntity → Option KnowledgeEntity
differing stored o = elim o [ none ↦ none | some e ↦ unless_same stored e ]

or_else-right {ℓ} : {A : Type ℓ} (o : Option A) → or_else o none ≡ o
or_else-right none = refl
or_else-right (some x) = refl

at_ref-change_of :
    (r : EntityRef) (o : Outcome) (e : KnowledgeEntity) (cs : List EntityChange)
    → at_ref r (entities_in (change_of o e ++ cs))
      ≡ or_else (at_ref r (entities_in cs)) (if entity_ref e == r then changed o e else none)
at_ref-change_of r added e cs = refl
at_ref-change_of r updated e cs = refl
at_ref-change_of r unchanged e cs = elim (Bool-cases (entity_ref e == r)) [
  | inl b ↦ rw b (sym (or_else-right (at_ref r (entities_in cs))))
  | inr b ↦ rw b (sym (or_else-right (at_ref r (entities_in cs))))
]

changed-outcome_of :
    (stored : Dict EntityRef KnowledgeEntity) (e : KnowledgeEntity)
    → changed (outcome_of stored e) e ≡ unless_same (lookup (entity_ref e) stored) e
changed-outcome_of stored e = go (lookup (entity_ref e) stored)
  where
    go :
        (o : Option KnowledgeEntity)
        → changed
            (elim o [ none ↦ added | some previous ↦ if previous == e then unchanged else updated ])
            e
          ≡ unless_same o e
    go none = refl
    go (some previous) = elim (Bool-cases (previous == e)) [ inl b ↦ rw b refl | inr b ↦ rw b refl ]

differing-if :
    (stored own o : Option KnowledgeEntity) (b : Bool) (e : KnowledgeEntity)
    → (b ≡ true → o ≡ none)
    → (b ≡ true → own ≡ stored)
    → or_else (differing stored o) (if b then unless_same own e else none)
      ≡ differing stored (or_else o (if b then some e else none))
differing-if stored own none true e h k = ap (λ p. unless_same p e) (k refl)
differing-if stored own none false e h k = refl
differing-if stored own (some x) true e h k = cc (h refl)
differing-if stored own (some x) false e h k = or_else-right (unless_same stored x)

-- The changes are the entities that the store has not.
pub changes_from-at_ref :
    (r : EntityRef) (stored : Dict EntityRef KnowledgeEntity) (es : List KnowledgeEntity)
    (totals : Counts)
    → IsDistinct es
    → at_ref r (entities_in (changes_from stored es totals).0)
      ≡ differing (lookup r stored) (at_ref r es)
unfolding changes_from
changes_from-at_ref r stored [] totals h = refl
changes_from-at_ref r stored (e ∷ es) totals (absent, h) =
    let o = outcome_of stored e in
    at_ref-change_of r o e (changes_from stored es (count o (entity_type e) totals)).0
    ∙ (ap (λ x. or_else x (if entity_ref e == r then changed o e else none))
          (changes_from-at_ref r stored es (count o (entity_type e) totals) h)
        ∙ (ap
              (λ x.
                or_else (differing (lookup r stored) (at_ref r es))
                  (if entity_ref e == r then x else none))
              (changed-outcome_of stored e)
            ∙ differing-if (lookup r stored) (lookup (entity_ref e) stored) (at_ref r es)
                (entity_ref e == r) e
                (λ b. subst (λ j. at_ref j es ≡ none) (eq_of_== (entity_ref e) r b) absent)
                (λ b. ap (λ j. lookup j stored) (eq_of_== (entity_ref e) r b))))

-- What is under a reference once the differing entities are written.
or_else-differing :
    (stored o : Option KnowledgeEntity) → or_else (differing stored o) stored ≡ or_else o stored
or_else-differing stored none = refl
or_else-differing none (some e) = refl
or_else-differing (some previous) (some e) = elim (Bool-cases (previous == e)) [
  | inl b ↦ rw b (ap (λ x. some x) (eq_of_== previous e b))
  | inr b ↦ rw b refl
]

-- The dict of stored entities that a load compares with.
pub stored_lem :
    (j : EntityRef) (s : State)
    → IsKeyed s.entities
    → lookup j (put_all (entities_of (read_all s)) []) ≡ lookup j s.entities
stored_lem j s keyed =
    lookup-put_all j (entities_of (read_all s)) []
    ∙ (or_else-right (at_ref j (entities_of (read_all s))) ∙ read_all-at_ref j s keyed)

-- The set of the package that a load gets.
abbrev pub new_set : TextFunctions → Load → KnowledgeSet
new_set t l = (check_package t l.contents).0

module _ (t : TextFunctions) (l : Load) (s : State) (r : LoadReport) (s' : State) where
  -- Under each reference, the store that a load of distinct entities leaves has the entity of the
  -- package, or else what it had.
  pub applied-lookup :
      (new : KnowledgeSet) (j : EntityRef)
      → IsKeyed s.entities
      → IsDistinct (entities_of new)
      → IsApplied new l s r s'
      → lookup j s'.entities ≡ or_else (at_ref j (entities_of new)) (lookup j s.entities)
  unfolding changes_of start_load
  applied-lookup new j keyed distinct applied =
      let stored = put_all (entities_of (read_all s)) [] in
      let cs = (changes_of (read_all s) new).0 in
      ap (lookup j) (applied.entities ∙ save-entities (new_id s) cs (start_load l.started_at s).1)
      ∙ (lookup-put_all j (entities_in cs) s.entities
          ∙ (ap (λ o. or_else o (lookup j s.entities))
                (changes_from-at_ref j stored (entities_of new) no_counts distinct)
              ∙ rw (stored_lem j s keyed)
                  (or_else-differing (lookup j s.entities) (at_ref j (entities_of new)))))

  pub applied-IsKeyed :
      (new : KnowledgeSet) → IsKeyed s.entities → IsApplied new l s r s' → IsKeyed s'.entities
  unfolding start_load
  applied-IsKeyed new keyed applied =
      let cs = (changes_of (read_all s) new).0 in
      subst IsKeyed
        (sym (applied.entities ∙ save-entities (new_id s) cs (start_load l.started_at s).1))
        (put_all-IsKeyed (entities_in cs) s.entities keyed)
