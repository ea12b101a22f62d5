-- ===== src/Rag/Lookup/Matches.antt =====
-- Which entities answer to a name, and how often the cards of a search show each.
use bmstu_nirs.Common.{
  text_key, Bool, List, String, [], any, arith, false, if◌then◌else◌, keep, length, length-keep-map,
  map, refl, true, ℕ, ◌&&◌, ◌++◌, ◌+◌, ◌==◌, ◌||◌, ◌∷◌, ◌≡◌,
}
use bmstu_nirs.Rag.Models.{
  ref_key, EntityRef, EntityType, KnowledgeEntity, KnowledgeSet, Slug, TextFunctions, artifact,
  artifact_entity, character, character_entity, continuity_entity, episode, episode_entity,
  location, location_entity, normalize_name, work_entity,
}
use bmstu_nirs.Rag.Entities.{entity_ref}
use bmstu_nirs.Rag.Entities.Sets.{group}
use bmstu_nirs.Rag.Store.Finding.{FoundKnowledge, keys_of, matches}
use bmstu_nirs.Rag.Lookup.Cards.{
  Card, all_cards, artifact_card, character_card, episode_card, location_card, show_artifact,
  show_character, show_episode, show_location,
}

-- The specification of a match: the id, or the name, an alias or the title, as names are compared.
abbrev pub named : TextFunctions → String → String → List String → Bool
named t key name aliases =
    (normalize_name t name == key) || any (λ a. normalize_name t a == key) aliases

abbrev pub answers_to : TextFunctions → String → KnowledgeEntity → Bool
answers_to t key (character_entity e) = (e.id == key) || named t key e.name e.aliases
answers_to t key (location_entity e) = (e.id == key) || named t key e.name e.aliases
answers_to t key (artifact_entity e) = (e.id == key) || named t key e.name e.aliases
answers_to t key (episode_entity e) = (e.id == key) || (normalize_name t e.title == key)
answers_to t key (continuity_entity e) = false
answers_to t key (work_entity e) = false

any-normalized :
    (t : TextFunctions) (key : String) (names : List String)
    → any (λ k. k == key) (map (normalize_name t) names)
      ≡ any (λ a. normalize_name t a == key) names
any-normalized t key [] = refl
any-normalized t key (n ∷ names) = ground (arith, any-normalized t key names)

matches-answers_to :
    (t : TextFunctions) (key : String) (e : KnowledgeEntity) → matches t key e ≡ answers_to t key e
unfolding keys_of
matches-answers_to t key (character_entity e) = ground (arith, any-normalized t key e.aliases)
matches-answers_to t key (location_entity e) = ground (arith, any-normalized t key e.aliases)
matches-answers_to t key (artifact_entity e) = ground (arith, any-normalized t key e.aliases)
matches-answers_to t key (episode_entity e) = ground arith
matches-answers_to t key (continuity_entity e) = refl
matches-answers_to t key (work_entity e) = refl

pub keep-answers_to :
    (t : TextFunctions) (key : String) (es : List KnowledgeEntity)
    → keep (matches t key) es ≡ keep (answers_to t key) es
keep-answers_to t key [] = refl
keep-answers_to t key (e ∷ es) =
    rw (matches-answers_to t key e) (rw (keep-answers_to t key es) refl)

-- The entity that a card shows.
abbrev pub card_ref : Card → EntityRef
card_ref (character_card c) = record { type = character; id = c.id }
card_ref (location_card c) = record { type = location; id = c.id }
card_ref (artifact_card c) = record { type = artifact; id = c.id }
card_ref (episode_card c) = record { type = episode; id = c.id }

abbrev pub times_shown : EntityRef → List Card → ℕ
times_shown j cards = length (keep (λ c. card_ref c == j) cards)

abbrev pub times_there : EntityRef → List KnowledgeEntity → ℕ
times_there j es = length (keep (λ e. entity_ref e == j) es)

-- How often there is a reference among the entities of a type, and of the types that are looked up.
abbrev pub times_of {ℓ} : {A : Type ℓ} → EntityType → (A → Slug) → EntityRef → List A → ℕ
times_of kind id_of j xs = length (keep (λ x. record { type = kind; id = id_of x } == j) xs)

abbrev pub times_found : EntityRef → KnowledgeSet → ℕ
times_found j k =
    times_of character (λ c. c.id) j k.characters
    + (times_of location (λ l. l.id) j k.locations
        + (times_of artifact (λ a. a.id) j k.artifacts + times_of episode (λ e. e.id) j k.episodes))

times_shown-append :
    (j : EntityRef) (xs ys : List Card)
    → times_shown j (xs ++ ys) ≡ times_shown j xs + times_shown j ys
times_shown-append j [] ys = omega arith
times_shown-append j (x ∷ xs) ys = ground (arith, times_shown-append j xs ys)

pub times_shown-all_cards :
    (j : EntityRef) (k : FoundKnowledge) → times_shown j (all_cards k) ≡ times_found j k.entities
unfolding all_cards show_character show_location show_artifact show_episode
times_shown-all_cards j k =
    let cs = map (λ c. character_card (show_character k c)) k.entities.characters in
    let ls = map (λ l. location_card (show_location k l)) k.entities.locations in
    let as' = map (λ a. artifact_card (show_artifact k a)) k.entities.artifacts in
    let es = map (λ e. episode_card (show_episode k e)) k.entities.episodes in
    let is_it = λ (c : Card). card_ref c == j in
    omega (
      arith,
      times_shown-append j cs (ls ++ (as' ++ es)),
      times_shown-append j ls (as' ++ es),
      times_shown-append j as' es,
      length-keep-map (λ c. character_card (show_character k c)) is_it k.entities.characters,
      length-keep-map (λ l. location_card (show_location k l)) is_it k.entities.locations,
      length-keep-map (λ a. artifact_card (show_artifact k a)) is_it k.entities.artifacts,
      length-keep-map (λ e. episode_card (show_episode k e)) is_it k.entities.episodes,
    )

pub times_found-matching :
    (t : TextFunctions) (key : String) (j : EntityRef) (es : List KnowledgeEntity)
    → times_found j (group (keep (matches t key) es)) ≡ times_there j (keep (matches t key) es)
unfolding keys_of group
times_found-matching t key j [] = refl
times_found-matching t key j (e ∷ es) =
    go e (matches t key e) refl (times_found-matching t key j es)
  where
    go :
        (x : KnowledgeEntity) (b : Bool)
        → matches t key x ≡ b
        → times_found j (group (keep (matches t key) es)) ≡ times_there j (keep (matches t key) es)
        → times_found j (group (if b then x ∷ keep (matches t key) es else keep (matches t key) es))
          ≡ times_there j (if b then x ∷ keep (matches t key) es else keep (matches t key) es)
    go x false e ih = ih
    go (continuity_entity x) true e ih = cc
    go (work_entity x) true e ih = cc
    go (episode_entity x) true e ih = ground (arith, ih)
    go (character_entity x) true e ih = ground (arith, ih)
    go (location_entity x) true e ih = ground (arith, ih)
    go (artifact_entity x) true e ih = ground (arith, ih)

pub keep-keep :
    (p q : KnowledgeEntity → Bool) (es : List KnowledgeEntity)
    → keep p (keep q es) ≡ keep (λ e. q e && p e) es
keep-keep p q [] = refl
keep-keep p q (e ∷ es) = ground (arith, keep-keep p q es)
