-- ===== src/Rag/Lookup/Counted.antt =====
-- How many matches a search reports and shows.
use Prim.Native.Nat.{min}
use mathlib.Core.Option.{some-injective}
use bmstu_nirs.Common.{
  text_key, Bool, List, Option, String, [], ap, arith, choose, false, if◌then◌else◌, inl, inr, keep,
  length, length-append, length-keep-map, length-keep-sort_by, length-map, length-take, ltb, lt→ltb,
  map, none, refl, some, sort_by, subst, suc, sym, take, true, values, zero, ℕ, ◌&&◌, ◌++◌, ◌+◌,
  ◌==◌, ◌∙◌, ◌∷◌, ◌≡◌,
}
use bmstu_nirs.Rag.Models.{
  ref_key, EntityRef, KnowledgeEntity, TextFunctions, artifact_entity, character_entity,
  continuity_entity, episode_entity, location_entity, normalize_name, work_entity,
}
use bmstu_nirs.Rag.Entities.{entity_ref}
use bmstu_nirs.Rag.Entities.Sets.{group, to_artifact, to_character, to_episode, to_location}
use bmstu_nirs.Rag.Store.{State, has_knowledge, sorted_entities}
use bmstu_nirs.Rag.Store.Finding.{FoundKnowledge, find_knowledge, keys_of, matches, matching}
use bmstu_nirs.Rag.Loading.Reach.{Reach}
use bmstu_nirs.Rag.Loading.Found.{find_knowledge-finds}
use bmstu_nirs.Rag.Lookup.{
  KnowledgeReader, LookupResult, found, key_error, lookup_name, memory_reader, no_result, not_found,
  reader_error, result_of, unavailable,
}
use bmstu_nirs.Rag.Lookup.Cards.{
  Card, all_cards, artifact_card, character_card, episode_card, location_card, show_artifact,
  show_character, show_episode, show_location,
}
use bmstu_nirs.Rag.Lookup.Matches.{
  answers_to, keep-answers_to, keep-keep, times_found, times_found-matching, times_shown,
  times_shown-all_cards, times_there,
}

-- How many entities there are of the types that are looked up.
abbrev looked_up : List KnowledgeEntity → ℕ
looked_up es =
    length (choose to_character es)
    + (length (choose to_location es)
        + (length (choose to_artifact es) + length (choose to_episode es)))

length-all_cards :
    (k : FoundKnowledge)
    → length (all_cards k)
      ≡ length k.entities.characters
        + (length k.entities.locations + (length k.entities.artifacts + length k.entities.episodes))
unfolding all_cards
length-all_cards k =
    let cs = map (λ c. character_card (show_character k c)) k.entities.characters in
    let ls = map (λ l. location_card (show_location k l)) k.entities.locations in
    let as' = map (λ a. artifact_card (show_artifact k a)) k.entities.artifacts in
    let es = map (λ e. episode_card (show_episode k e)) k.entities.episodes in
    omega (
      arith,
      length-append cs (ls ++ (as' ++ es)),
      length-append ls (as' ++ es),
      length-append as' es,
      length-map (λ c. character_card (show_character k c)) k.entities.characters,
      length-map (λ l. location_card (show_location k l)) k.entities.locations,
      length-map (λ a. artifact_card (show_artifact k a)) k.entities.artifacts,
      length-map (λ e. episode_card (show_episode k e)) k.entities.episodes,
    )

-- An entity that matches a key is of a type that is looked up.
looked_up-matching :
    (t : TextFunctions) (key : String) (es : List KnowledgeEntity)
    → looked_up (keep (matches t key) es) ≡ length (keep (matches t key) es)
unfolding keys_of
looked_up-matching t key [] = refl
looked_up-matching t key (e ∷ es) = go e (matches t key e) refl (looked_up-matching t key es)
  where
    go :
        (x : KnowledgeEntity) (b : Bool)
        → matches t key x ≡ b
        → looked_up (keep (matches t key) es) ≡ length (keep (matches t key) es)
        → looked_up (if b then x ∷ keep (matches t key) es else keep (matches t key) es)
          ≡ length (if b then x ∷ keep (matches t key) es else keep (matches t key) es)
    go x false e ih = ih
    go (continuity_entity x) true e ih = cc
    go (work_entity x) true e ih = cc
    go (episode_entity x) true e ih = omega (arith, ih)
    go (character_entity x) true e ih = omega (arith, ih)
    go (location_entity x) true e ih = omega (arith, ih)
    go (artifact_entity x) true e ih = omega (arith, ih)

-- The stored entities that answer to the key.
abbrev pub stored_matches : TextFunctions → String → State → List KnowledgeEntity
stored_matches t key s = keep (answers_to t key) (values s.entities)

times_there-matching :
    (t : TextFunctions) (key : String) (j : EntityRef) (s : State)
    → times_there j (matching t key s) ≡ times_there j (stored_matches t key s)
unfolding matching sorted_entities
times_there-matching t key j s =
    let is_it = λ (e : KnowledgeEntity). entity_ref e == j in
    let both = λ (e : KnowledgeEntity). matches t key e && is_it e in
    let sorted = sort_by (λ x. x.0.id) s.entities in
    ap length (keep-keep is_it (matches t key) (map (λ x. x.1) sorted))
    ∙ (length-keep-map (λ x. x.1) both sorted
        ∙ (length-keep-sort_by (λ x. x.0.id) (λ x. both x.1) s.entities
            ∙ (sym (length-keep-map (λ x. x.1) both s.entities)
                ∙ (ap length (sym (keep-keep is_it (matches t key) (values s.entities)))
                    ∙ ap (times_there j) (keep-answers_to t key (values s.entities))))))

length-matching :
    (t : TextFunctions) (key : String) (s : State)
    → length (matching t key s) ≡ length (stored_matches t key s)
unfolding matching sorted_entities
length-matching t key s =
    length-keep-map (λ x. x.1) (matches t key) (sort_by (λ x. x.0.id) s.entities)
    ∙ (length-keep-sort_by (λ x. x.0.id) (λ x. matches t key x.1) s.entities
        ∙ (sym (length-keep-map (λ x. x.1) (matches t key) s.entities)
            ∙ ap length (keep-answers_to t key (values s.entities))))

abbrev counts : FoundKnowledge → ℕ
counts k =
    length k.entities.characters
    + (length k.entities.locations + (length k.entities.artifacts + length k.entities.episodes))

counts_lem :
    (count : FoundKnowledge → ℕ) (rest : List KnowledgeEntity → FoundKnowledge) (n : ℕ)
    → ((ws : List KnowledgeEntity) → count (rest ws) ≡ n)
    → (o : Option (List KnowledgeEntity)) (k : FoundKnowledge)
    → elim o [ none ↦ none | some ws ↦ some (rest ws) ] ≡ some k
    → count k ≡ n
counts_lem count rest n h none k e = cc
counts_lem count rest n h (some ws) k e = ap count (sym (some-injective (rest ws) k e)) ∙ h ws

find_knowledge-counted :
    (t : TextFunctions) (key : String) (s : State) (k : FoundKnowledge)
    → find_knowledge t key s ≡ some k
    → length (all_cards k) ≡ length (stored_matches t key s)
unfolding find_knowledge group matching
find_knowledge-counted t key s k h =
    length-all_cards k
    ∙ (counts_lem counts _ (looked_up (matching t key s)) (λ ws. refl) _ k h
        ∙ (looked_lem ∙ length-matching t key s))
  where
    looked_lem : looked_up (matching t key s) ≡ length (matching t key s)
    looked_lem = looked_up-matching t key (sorted_entities s)

find_knowledge-times :
    (t : TextFunctions) (key : String) (j : EntityRef) (s : State) (k : FoundKnowledge)
    → find_knowledge t key s ≡ some k
    → times_shown j (all_cards k) ≡ times_there j (stored_matches t key s)
unfolding find_knowledge matching
find_knowledge-times t key j s k h =
    times_shown-all_cards j k
    ∙ (counts_lem (λ f. times_found j f.entities) _ (times_found j (group (matching t key s)))
          (λ ws. refl) _ k h
        ∙ (times_found-matching t key j (sorted_entities s) ∙ times_there-matching t key j s))

-- The result says how many stored entities match, shows at most the limit of them, and says whether
-- more are there; without a match it says whether anything was loaded.
pub record IsAnswer (n limit : ℕ) (loaded : Bool) (r : LookupResult) : Type 0 where
  pub counted : r.total ≡ n
  pub limited : length r.shown ≡ min limit n
  pub cut : r.truncated ≡ ltb limit n
  pub status_lem : r.status ≡ (if ltb 0 n then found else if loaded then not_found else unavailable)

result_of-IsAnswer :
    (limit : ℕ) (loaded : Bool) (cards : List Card)
    → IsAnswer (length cards) limit loaded (result_of limit (inr loaded) cards)
unfolding result_of
result_of-IsAnswer limit true [] = record {
  counted = refl;
  limited = omega arith;
  cut = ground arith;
  status_lem = refl;
}
result_of-IsAnswer limit false [] = record {
  counted = refl;
  limited = omega arith;
  cut = ground arith;
  status_lem = refl;
}
result_of-IsAnswer limit loaded (c ∷ cards) = record {
  counted = refl;
  limited = length-take limit (c ∷ cards);
  cut = refl;
  status_lem = rw (lt→ltb 0 (length (c ∷ cards)) (omega arith)) refl;
}

take-nothing : (limit : ℕ) → ◌≡◌ {A = List Card} [] (take limit [])
take-nothing zero = refl
take-nothing (suc limit) = refl

result_of-shown :
    (limit : ℕ) (loaded : Bool) (cards : List Card)
    → (result_of limit (inr loaded) cards).shown ≡ take limit cards
unfolding result_of
result_of-shown limit true [] = take-nothing limit
result_of-shown limit false [] = take-nothing limit
result_of-shown limit loaded (c ∷ cards) = refl

lookup_name-result_of :
    (t : TextFunctions) (reader : KnowledgeReader) (limit : ℕ) (name : String) (k : FoundKnowledge)
    → reader.find_key (normalize_name t name) ≡ inr k
    → lookup_name t reader limit name ≡ some (result_of limit reader.is_loaded (all_cards k))
unfolding lookup_name
lookup_name-result_of t reader limit name k h =
    ap
      (λ o. elim o [
        | inl (reader_error e) ↦ some no_result
        | inl key_error ↦ none
        | inr k ↦ some (result_of limit reader.is_loaded (all_cards k))
      ])
      h

-- After any sequence of loads of packages in which no reference is twice, a search returns a result.
-- It counts the stored characters, locations, artifacts and episodes whose id is the name looked up or
-- whose name, alias or title is, as names are compared; the cards shown are the first of a list with
-- one card of each of these, as many as the limit allows, and it says whether more are there. Without a
-- match it says whether anything was loaded by the time it asks.
pub lookup_name-IsAnswer :
    (t : TextFunctions) (s s' : State) (limit : ℕ) (name : String)
    → Reach t s
    → (r : LookupResult) × (lookup_name t (memory_reader t s s') limit name ≡ some r)
      × IsAnswer (length (stored_matches t (normalize_name t name) s)) limit (has_knowledge s') r
      × ((cards : List Card) × (r.shown ≡ take limit cards)
          × ((j : EntityRef)
              → times_shown j cards ≡ times_there j (stored_matches t (normalize_name t name) s)))
lookup_name-IsAnswer t s s' limit name reached =
    let key = normalize_name t name in
    let (k, known) = find_knowledge-finds t key s reached in
    (
      result_of limit (inr (has_knowledge s')) (all_cards k),
      lookup_name-result_of t (memory_reader t s s') limit name k
          (ap (λ o. elim o [ none ↦ inl key_error | some k ↦ inr k ]) known),
      subst
          (λ n.
            IsAnswer n limit (has_knowledge s')
              (result_of limit (inr (has_knowledge s')) (all_cards k)))
          (find_knowledge-counted t key s k known)
          (result_of-IsAnswer limit (has_knowledge s') (all_cards k)),
      (
        all_cards k,
        result_of-shown limit (has_knowledge s') (all_cards k),
        λ j. find_knowledge-times t key j s k known,
      ),
    )
