-- ===== src/Rag/Integrity/Closed.antt =====
-- The references of a complete set, for check_integrity.
use bmstu_nirs.Common.{
  text_key, All, All-append, All-map, List, String, [], map, sort_by-All, true, ◌++◌, ◌∷◌, ◌≡◌,
}
use bmstu_nirs.Rag.Models.{
  ref_key, Artifact, Continuity, EntityType, KnowledgeSet, Location, TextFunctions, Work, artifact,
  artifact_entity, character, character_entity, continuity, continuity_entity, episode_entity,
  location, location_entity, work_entity,
}
use bmstu_nirs.Rag.Entities.{entities_of, refs}
use bmstu_nirs.Rag.Integrity.Episodes.{check_episode, check_episodes}
use bmstu_nirs.Rag.Integrity.Characters.{check_character, check_characters}
use bmstu_nirs.Rag.Integrity.Places.{
  Place, check_place, check_places_and_things, check_places_of, place_of_artifact,
  place_of_location,
}
use bmstu_nirs.Rag.Integrity.Report.{check_integrity, check_work, findings}
use bmstu_nirs.Rag.Integrity.Clean.{
  IsClean, IsClean-split, choose-IsClean, each-IsClean, each_with-IsClean,
}
use bmstu_nirs.Rag.Integrity.Known.{AllKnown, Known, c, work-Known}
use bmstu_nirs.Rag.Integrity.Referring.{character-Known, episode-Known, place-Known}
use bmstu_nirs.Rag.Integrity.Whole.{InSet, IsClosed, RefsIn, entity_references, source_targets}

module _ (k : KnowledgeSet) where
  alone : (cs : List Continuity) → RefsIn k (map continuity_entity cs)
  alone [] = tt
  alone (x ∷ cs) = (tt, alone cs)

  works-Known :
      (ws : List Work)
      → All (λ w. Known k continuity w.continuity) ws
      → RefsIn k (map work_entity ws)
  works-Known [] h = tt
  works-Known (w ∷ ws) h = ((h.0, tt), works-Known ws h.1)

  -- What is checked of each place holds of each location or artifact.
  places-Known {ℓ} :
      {A : Type ℓ} (to_place : A → Place) (t : TextFunctions) (kind : EntityType) (members : String)
      (xs : List A)
      → IsClean (check_places_of t (c k) kind members (map to_place xs))
      → All
          (λ p. AllKnown k (
            refs continuity p.continuities
            ++ (refs character p.members ++ source_targets p.sources)))
          (map to_place xs)
  places-Known to_place t kind members xs h =
      sort_by-All (λ p. p.id) _ (map to_place xs)
        (each_with-IsClean (check_place t (c k) kind members) _ (place-Known k t kind members) _ 0 _
          h)

  locations-Known :
      (ls : List Location)
      → All
          (λ p. AllKnown k (
            refs continuity p.continuities
            ++ (refs character p.members ++ source_targets p.sources)))
          (map place_of_location ls)
      → RefsIn k (map location_entity ls)
  locations-Known [] h = tt
  locations-Known (l ∷ ls) h = (h.0, locations-Known ls h.1)

  artifacts-Known :
      (as' : List Artifact)
      → All
          (λ p. AllKnown k (
            refs continuity p.continuities
            ++ (refs character p.members ++ source_targets p.sources)))
          (map place_of_artifact as')
      → RefsIn k (map artifact_entity as')
  artifacts-Known [] h = tt
  artifacts-Known (a ∷ as') h = (h.0, artifacts-Known as' h.1)

  findings-IsClosed : (t : TextFunctions) → IsClean (findings t (c k)) → IsClosed k
  unfolding findings check_episodes check_characters check_places_and_things entities_of
  findings-IsClosed t h =
      let (works, h1) = IsClean-split _ _ h in
      let (episodes, h2) = IsClean-split _ _ h1 in
      let (characters, places) = IsClean-split _ _ h2 in
      let (locations, artifacts) = IsClean-split _ _ places in
      let (numbered, filmed) = IsClean-split _ _ episodes in
      let append = All-append (λ e. InSet k (entity_references e)) in
      append (map continuity_entity k.continuities) _ (alone k.continuities) (
        append (map work_entity k.works) _
          (works-Known k.works (
            sort_by-All (λ w. w.id) _ k.works
              (each-IsClean (check_work (c k)) _ (work-Known k) 0 _ works)))
          (append (map episode_entity k.episodes) _
            (All-map episode_entity _ k.episodes (
              sort_by-All (λ e. e.id) _ k.episodes
                (each_with-IsClean (check_episode (c k)) _ (episode-Known k) _ 0 _ numbered)))
            (append (map character_entity k.characters) _
              (All-map character_entity _ k.characters (
                sort_by-All (λ ch. ch.id) _ k.characters
                  (each_with-IsClean (check_character t (c k)) _ (character-Known k t) _ 0 _
                    characters)))
              (append (map location_entity k.locations) _
                (locations-Known k.locations
                  (places-Known place_of_location t location "residents" k.locations locations))
                (artifacts-Known k.artifacts
                  (places-Known place_of_artifact t artifact "creators" k.artifacts artifacts))))))

-- If the check of a complete set finds no violation, every continuity, work, episode, character,
-- location and artifact that an entity of the set refers to is in the set, among them the episodes
-- that its sources name, and those of its versions, relationships and interactions.
pub check_integrity-IsClosed :
    (t : TextFunctions) (k : KnowledgeSet)
    → (check_integrity t k true []).violations ≡ []
    → IsClosed k
unfolding check_integrity
check_integrity-IsClosed t k h = findings-IsClosed k t (choose-IsClean (findings t (c k)) h)
