-- ===== src/Rag/Integrity/Referring.antt =====
-- The references of one entity of a complete set, for check_integrity.
use bmstu_nirs.Common.{
  text_key, Bool-cases, List, String, [], concat_map, inl, inr, ℕ, ◌++◌, ◌==◌, ◌∷◌,
}
use bmstu_nirs.Rag.Models.{
  ref_key, Character, CharacterVersion, EntityRef, EntityType, Episode, KnowledgeSet, Relationship,
  Slug, TextFunctions, artifact, character, character_entity, continuity, episode, episode_entity,
  location, work,
}
use bmstu_nirs.Rag.Entities.{refs}
use bmstu_nirs.Rag.Integrity.{
  broken, check_sources, field, position, resolve_all, self_reference, to_ref,
}
use bmstu_nirs.Rag.Integrity.Episodes.{
  Seen, check_episode, check_interaction, check_interactions, check_participants,
}
use bmstu_nirs.Rag.Integrity.Characters
use bmstu_nirs.Rag.Integrity.Characters.{
  SeenPairs, check_continuity, check_version, check_versions, check_relationship, check_character,
}
use bmstu_nirs.Rag.Integrity.Places.{Holders, Place, check_place}
use bmstu_nirs.Rag.Integrity.Clean.{IsClean, IsClean-split, each_with-IsClean}
use bmstu_nirs.Rag.Integrity.Whole.{
  entity_references, interaction_targets, relationship_targets, source_targets, version_targets,
}
use bmstu_nirs.Rag.Integrity.Known.{
  AllKnown, Known, append-Known, c, concat_map-Known, each-Known, interaction-Known, refs-Known,
  resolve-Known, sources-Known,
}

module _ (k : KnowledgeSet) where
  -- `check_episode`
  pub episode-Known :
      (seen : Seen) (i : ℕ) (e : Episode)
      → IsClean (check_episode (c k) seen i e).0
      → AllKnown k (entity_references (episode_entity e))
  unfolding check_episode check_participants check_interactions
  episode-Known seen i e h =
      let o = to_ref episode e.id in
      let (noted, h1) = IsClean-split _ _ h in
      let (taken, h2) = IsClean-split _ _ h1 in
      let (joined, pairs) = IsClean-split _ _ h2 in
      let (cs, h3) = IsClean-split _ _ joined in
      let (ls, as') = IsClean-split _ _ h3 in
      let met : AllKnown k (refs character e.characters) =
        each-Known k character _ e.characters
          (λ i id clean.
            resolve-Known k o (field "characters" ∷ position i ∷ []) character id
              (IsClean-split _ _ clean).0)
          cs in
      (
        resolve-Known k o (field "work" ∷ []) work e.work noted,
        append-Known k (refs character e.characters) _ met (
            append-Known k (refs location e.locations) _
              (each-Known k location _ e.locations
                (λ i id clean.
                  resolve-Known k o (field "locations" ∷ position i ∷ []) location id
                    (IsClean-split _ _ clean).0)
                ls)
              (append-Known k (refs artifact e.artifacts) _
                (each-Known k artifact _ e.artifacts
                  (λ i id clean.
                    resolve-Known k o (field "artifacts" ∷ position i ∷ []) artifact id
                      (IsClean-split _ _ clean).0)
                  as')
                (concat_map-Known k interaction_targets e.interactions (
                  each_with-IsClean (check_interaction (c k) o e.characters) _
                    (λ s j x clean. interaction-Known k o e.characters s j x met clean) [] 0
                    e.interactions pairs)))),
      )

  version-Known :
      (o : EntityRef) (seen : List Slug) (i : ℕ) (v : CharacterVersion)
      → IsClean (check_version (c k) o seen i v).0
      → AllKnown k (version_targets v)
  unfolding check_version check_continuity
  version-Known o seen i v h =
      let path = field "versions" ∷ position i ∷ [] in
      let (listed, sources) = IsClean-split _ _ h in
      append-Known k (refs continuity v.continuities) _
        (refs-Known k continuity v.continuities (
          each_with-IsClean (check_continuity (c k) o path) (Known k continuity)
            (λ s j id clean.
              resolve-Known k o (path ++ (field "continuities" ∷ position j ∷ [])) continuity id
                (IsClean-split _ _ clean).0)
            seen 0 v.continuities listed))
        (sources-Known k o (path ++ (field "sources" ∷ [])) v.sources sources)

  relationship-Known :
      (o : EntityRef) (id : Slug) (seen : SeenPairs) (i : ℕ) (r : Relationship)
      → IsClean (check_relationship (c k) o id seen i r).0
      → AllKnown k (relationship_targets r)
  unfolding check_relationship
  relationship-Known o id seen i r h = elim (Bool-cases (r.to == id)) [
    | inl own ↦
        let path = field "relationships" ∷ position i ∷ [] in
        let (sources, to_self) =
          IsClean-split (check_sources (c k) o (path ++ (field "sources" ∷ [])) r.sources)
            (broken o (path ++ (field "to" ∷ [])) self_reference) (rw own at h) in
        cc (to_self.0)
    | inr other ↦
        let path = field "relationships" ∷ position i ∷ [] in
        let (sources, h1) =
          IsClean-split (check_sources (c k) o (path ++ (field "sources" ∷ [])) r.sources) _
            (rw other at h) in
        let (noted, h2) = IsClean-split _ _ h1 in
        let (shared, once) = IsClean-split _ _ h2 in
        (
          resolve-Known k o (path ++ (field "to" ∷ [])) character r.to noted,
          append-Known k (refs continuity r.continuities) _
              (each-Known k continuity _ r.continuities
                (λ j id' clean.
                  resolve-Known k o (path ++ (field "continuities" ∷ position j ∷ [])) continuity
                    id' (IsClean-split _ _ clean).0)
                shared)
              (sources-Known k o (path ++ (field "sources" ∷ [])) r.sources sources),
        )
  ]

  -- `check_character`
  pub character-Known :
      (t : TextFunctions) (seen : Characters.Seen) (i : ℕ) (ch : Character)
      → IsClean (check_character t (c k) seen i ch).0
      → AllKnown k (entity_references (character_entity ch))
  unfolding check_character check_versions
  character-Known t seen i ch h =
      let o = to_ref character ch.id in
      let (versions, h1) = IsClean-split _ _ h in
      let (related, h2) = IsClean-split _ _ h1 in
      let (sources, named) = IsClean-split _ _ h2 in
      append-Known k (concat_map version_targets ch.versions) _
        (concat_map-Known k version_targets ch.versions
          (each_with-IsClean (check_version (c k) o) _ (version-Known o) [] 0 ch.versions versions))
        (append-Known k (concat_map relationship_targets ch.relationships) _
          (concat_map-Known k relationship_targets ch.relationships (
            each_with-IsClean (check_relationship (c k) o ch.id) _ (relationship-Known o ch.id)
              seen.relationships 0 ch.relationships related))
          (sources-Known k o (field "sources" ∷ []) ch.sources sources))

  -- `check_place`
  pub place-Known :
      (t : TextFunctions) (kind : EntityType) (members : String) (names : Holders) (i : ℕ)
      (p : Place)
      → IsClean (check_place t (c k) kind members names i p).0
      → AllKnown k
          (refs continuity p.continuities ++ (refs character p.members ++ source_targets p.sources))
  unfolding check_place resolve_all
  place-Known t kind members names i p h =
      let o = to_ref kind p.id in
      let (scope, h1) = IsClean-split _ _ h in
      let (met, h2) = IsClean-split _ _ h1 in
      let (sources, named) = IsClean-split _ _ h2 in
      append-Known k (refs continuity p.continuities) _
        (each-Known k continuity _ p.continuities
          (λ i id clean.
            resolve-Known k o (field "continuities" ∷ position i ∷ []) continuity id clean)
          scope)
        (append-Known k (refs character p.members) _
          (each-Known k character _ p.members
            (λ i id clean.
              resolve-Known k o (field members ∷ position i ∷ []) character id
                (IsClean-split _ _ clean).0)
            met)
          (sources-Known k o (field "sources" ∷ []) p.sources sources))
