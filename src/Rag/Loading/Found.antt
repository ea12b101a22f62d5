-- ===== src/Rag/Loading/Found.antt =====
-- The search in the stores that loads lead to.
use bmstu_nirs.Common.{
  text_key, ==_refl, All, All-choose, All-keep, All-map, All-mono, All-sort_by, Bool, Dict,
  IsUnique, List, Option, String, [], any, ap, choose, contains, eq_of_==, false, if◌then◌else◌,
  lookup, map, none, refl, some, sort_by, subst, true, ◌==◌, ◌∙◌, ◌∷◌, ◌≡◌,
}
use mathlib.Core.Option.{some-injective}
use bmstu_nirs.Rag.Models.{
  ref_key, entity_key, EntityRef, Episode, KnowledgeEntity, Slug, TextFunctions, episode_entity,
  work,
}
use bmstu_nirs.Rag.Entities.{entity_ref, references_of}
use bmstu_nirs.Rag.Entities.Sets.{group, to_episode, to_work}
use bmstu_nirs.Rag.Store.{State, sorted_entities}
use bmstu_nirs.Rag.Store.Finding.{
  FoundKnowledge, find_knowledge, matches, matching, names_in, text_set, works_at,
}
use bmstu_nirs.Rag.Loading.Merge.{IsKeyed}
use bmstu_nirs.Rag.Loading.Reach.{Reach, IsWhole, Reach-IsWhole}

-- Each entry of a dict is found under its key.
IsUnique-lookup :
    (d : Dict EntityRef KnowledgeEntity) → IsUnique d → All (λ x. lookup x.0 d ≡ some x.1) d
IsUnique-lookup [] h = tt
IsUnique-lookup ((k, e) ∷ d) (absent, h) = (
  rw (==_refl k) refl,
  All-mono (λ x. lookup x.0 d ≡ some x.1) (λ x. lookup x.0 ((k, e) ∷ d) ≡ some x.1)
      (λ x p. other x.0 x.1 p (x.0 == k) refl) d (IsUnique-lookup d h),
)
  where
    other :
        (j : EntityRef) (v : KnowledgeEntity)
        → lookup j d ≡ some v
        → (b : Bool) → (j == k) ≡ b
        → (if b then some e else lookup j d) ≡ some v
    other j v p true same = cc (p, absent, ap (λ i. lookup i d) (eq_of_== j k same))
    other j v p false same = p

module _ (s : State) where
  abbrev IsStored : KnowledgeEntity → Type 0
  IsStored e = lookup (entity_ref e) s.entities ≡ some e

  sorted_entities-IsStored : IsKeyed s.entities → All IsStored (sorted_entities s)
  unfolding sorted_entities
  sorted_entities-IsStored (unique, keyed) =
      All-map (λ x. x.1) IsStored (sort_by (λ x. x.0.id) s.entities)
        (All-sort_by (λ x. x.0.id) (λ x. IsStored x.1) s.entities
          (both s.entities (IsUnique-lookup s.entities unique) keyed))
    where
      both :
          (d : Dict EntityRef KnowledgeEntity)
          → All (λ x. lookup x.0 s.entities ≡ some x.1) d
          → All (λ x. entity_ref x.1 ≡ x.0) d
          → All (λ x. IsStored x.1) d
      both [] h k = tt
      both (x ∷ d) (found, h) (own, k) = (ap (λ j. lookup j s.entities) own ∙ found, both d h k)

  -- The work of this id is stored.
  abbrev HasWork : Slug → Type 0
  HasWork id = contains (record { type = work; id = id }) s.entities ≡ true

  text_set-HasWork : (ids : List Slug) → All HasWork ids → All HasWork (text_set ids)
  unfolding text_set
  text_set-HasWork [] h = tt
  text_set-HasWork (id ∷ ids) h = add (any (λ k. k == id) (text_set ids)) (text_set-HasWork ids h.1)
    where
      add :
          (b : Bool)
          → All HasWork (text_set ids)
          → All HasWork (if b then text_set ids else id ∷ text_set ids)
      add true rest = rest
      add false rest = (h.0, rest)

  works_at-some :
      (ids : List Slug)
      → All HasWork ids
      → (ws : List KnowledgeEntity) × (works_at ids s.entities ≡ some ws)
  unfolding works_at
  works_at-some [] h = ([], refl)
  works_at-some (id ∷ ids) (first, h) =
      go (lookup (record { type = work; id = id }) s.entities) first (works_at-some ids h)
    where
      go :
          (o : Option KnowledgeEntity)
          → elim o [ none ↦ false | some _ ↦ true ] ≡ true
          → (ws : List KnowledgeEntity) × (works_at ids s.entities ≡ some ws)
          → (ws : List KnowledgeEntity) × (elim o [
            | none ↦ none
            | some e ↦ elim (works_at ids s.entities) [ none ↦ none | some es ↦ some (e ∷ es) ]
          ]
              ≡ some ws)
      go none e rest = cc
      go (some w) e (ws, found) =
          (w ∷ ws, ap (λ o. elim o [ none ↦ none | some es ↦ some (w ∷ es) ]) found)

  matching-HasWork :
      (t : TextFunctions) (key : String)
      → IsWhole s
      → All (λ e. HasWork e.work) (group (matching t key s)).episodes
  unfolding matching group
  matching-HasWork t key h =
      All-choose to_episode IsStored (λ e. HasWork e.work) step (matching t key s)
        (All-keep IsStored (matches t key) (sorted_entities s) (sorted_entities-IsStored h.keyed))
    where
      step :
          (x : KnowledgeEntity) (e : Episode) → to_episode x ≡ some e → IsStored x → HasWork e.work
      step (episode_entity x) e p stored =
          subst (λ y. HasWork y.work) (some-injective x e p) (h.whole (episode_entity x) stored).0
      step _ e p stored = cc

-- After any sequence of loads of packages in which no reference is twice, a search for any key
-- returns a result: the work of each episode that it finds is stored.
pub find_knowledge-finds :
    (t : TextFunctions) (key : String) (s : State)
    → Reach t s
    → (found : FoundKnowledge) × (find_knowledge t key s ≡ some found)
unfolding find_knowledge
find_knowledge-finds t key s reached =
    let entities = group (matching t key s) in
    let ids = map (λ e. e.work) entities.episodes in
    let found_with : List KnowledgeEntity → FoundKnowledge = λ works. record {
      entities = record entities { works = choose to_work works };
      names =
          names_in (references_of (record entities { works = choose to_work works })) s.entities;
    } in
    let (ws, found) = works_at-some s (sort_by (λ id. id) (text_set ids)) (
      All-sort_by (λ id. id) (HasWork s) (text_set ids)
        (text_set-HasWork s ids (
          All-map (λ e. e.work) (HasWork s) (group (matching t key s)).episodes
            (matching-HasWork s t key (Reach-IsWhole t s reached))))) in
    (found_with ws, ap (λ o. elim o [ none ↦ none | some works ↦ some (found_with works) ]) found)
