-- ===== src/Rag/Integrity/Unique.antt =====
-- The numbers of episodes and the names of characters, for check_integrity.
use bmstu_nirs.Common.{
  text_key, Bool, Key, List, String, [], any, ap, arith, concat_map, if◌then◌else◌, map, refl,
  sort_by, sym, values, ℕ, ◌+◌, ◌==◌, ◌∙◌, ◌∷◌, ◌≡◌, ◌≤◌,
}
use bmstu_nirs.Rag.Models.{
  ref_key, Character, EntityRef, Episode, KnowledgeSet, TextFunctions, character, episode,
  normalize_name,
}
use bmstu_nirs.Rag.Integrity.{
  Checker, Code, FieldPath, broken_if, check_sources, duplicate_episode_number, duplicate_name,
  each_with, field, to_ref,
}
use bmstu_nirs.Rag.Integrity.Episodes
use bmstu_nirs.Rag.Integrity.Episodes.{
  EpisodeNumber, number_key, number_of, check_episode, check_film, check_episodes,
}
use bmstu_nirs.Rag.Integrity.Characters
use bmstu_nirs.Rag.Integrity.Characters.{
  aliases_from, names_of, check_name, check_versions, check_relationship, check_character,
  check_characters,
}
use bmstu_nirs.Rag.Integrity.Report.{check_integrity, findings}
use bmstu_nirs.Rag.Integrity.Clean.{IsClean, IsClean-split, broken_if-IsClean, choose-IsClean}
use bmstu_nirs.Rag.Integrity.Times.{
  once_in, once_in-le, once_in-new, times, times-each_with, times-sort_by,
}

-- A key that is taken is a violation, and another one is noted.
noted {ℓ} :
    {K : Type ℓ} ⦃key : Key K⦄ (k j : K) (seen : List K) (o : EntityRef) (p : FieldPath)
    (code : Code)
    → IsClean (broken_if (any (λ i. i == j) seen) o p code)
    → times k (j ∷ []) + once_in k seen
      ≡ once_in k (if any (λ i. i == j) seen then seen else j ∷ seen)
noted k j seen o p code h =
    let new = broken_if-IsClean (any (λ i. i == j) seen) o p code h in
    once_in-new k j seen new ∙ ap (λ b. once_in k (if b then seen else j ∷ seen)) (sym new)

module _ (c : Checker) where
  episode-noted :
      (k : EpisodeNumber) (seen : Episodes.Seen) (i : ℕ) (e : Episode)
      → IsClean (check_episode c seen i e).0
      → times k (number_of e ∷ []) + once_in k seen.numbers
        ≡ once_in k (check_episode c seen i e).1.numbers
  unfolding check_episode
  episode-noted k seen i e h =
      let (noted_work, h1) = IsClean-split _ _ h in
      let (number, rest) = IsClean-split _ _ h1 in
      noted k (number_of e) seen.numbers (to_ref episode e.id) (field "number" ∷ [])
        duplicate_episode_number number

  episodes-once :
      (k : EpisodeNumber)
      → IsClean (check_episodes c)
      → times k (concat_map (λ e. number_of e ∷ []) c.knowledge.episodes) ≤ 1
  unfolding check_episodes
  episodes-once k h =
      let sorted = sort_by (λ e. e.id) c.knowledge.episodes in
      let none_seen : Episodes.Seen = record { numbers = []; film_episodes = [] } in
      let after = (each_with (check_episode c) none_seen 0 sorted).1 in
      let films = concat_map check_film (values after.film_episodes) in
      let numbered = (IsClean-split (each_with (check_episode c) none_seen 0 sorted).0 films h).0 in
      omega (
        arith,
        times-sort_by (λ e. number_of e ∷ []) (λ e. e.id) k c.knowledge.episodes,
        times-each_with (λ e. number_of e ∷ []) (λ s. s.numbers) (check_episode c) episode-noted k
            none_seen 0 sorted numbered,
        once_in-le k after.numbers,
      )

-- The names of a character as they are compared.
abbrev pub character_names : TextFunctions → Character → List String
character_names t ch = map (normalize_name t) (ch.name ∷ ch.aliases)

module _ (t : TextFunctions) (c : Checker) where
  abbrev key_of_name : FieldPath × String → List String
  key_of_name x = normalize_name t x.1 ∷ []

  aliases_lem :
      (i : ℕ) (aliases : List String)
      → concat_map key_of_name (aliases_from i aliases) ≡ map (normalize_name t) aliases
  aliases_lem i [] = refl
  aliases_lem i (a ∷ as') = ap (λ ns. normalize_name t a ∷ ns) (aliases_lem (i + 1) as')

  name-noted :
      (o : EntityRef) (k : String) (seen : List String) (i : ℕ) (x : FieldPath × String)
      → IsClean (check_name t o seen i x).0
      → times k (key_of_name x) + once_in k seen ≡ once_in k (check_name t o seen i x).1
  unfolding check_name
  name-noted o k seen i (path, name) h =
      noted k (normalize_name t name) seen o path duplicate_name h

  character-noted :
      (k : String) (seen : Characters.Seen) (i : ℕ) (ch : Character)
      → IsClean (check_character t c seen i ch).0
      → times k (character_names t ch) + once_in k seen.names
        ≡ once_in k (check_character t c seen i ch).1.names
  unfolding check_character
  character-noted k seen i ch h =
      let o = to_ref character ch.id in
      let (versions, h1) = IsClean-split (check_versions c o ch) _ h in
      let (related, h2) =
        IsClean-split
          (each_with (check_relationship c o ch.id) seen.relationships 0 ch.relationships).0 _ h1 in
      let (sources, named) =
        IsClean-split (check_sources c o (field "sources" ∷ []) ch.sources) _ h2 in
      ap (λ ns. times k (normalize_name t ch.name ∷ ns) + once_in k seen.names)
        (sym (aliases_lem 0 ch.aliases))
      ∙ times-each_with key_of_name (λ s. s) (check_name t (to_ref character ch.id))
          (name-noted (to_ref character ch.id)) k seen.names 0 (names_of ch.name ch.aliases) named

  characters-once :
      (k : String)
      → IsClean (check_characters t c)
      → times k (concat_map (character_names t) c.knowledge.characters) ≤ 1
  unfolding check_characters
  characters-once k h =
      let sorted = sort_by (λ ch. ch.id) c.knowledge.characters in
      let none_seen : Characters.Seen = record { names = []; relationships = [] } in
      let after = (each_with (check_character t c) none_seen 0 sorted).1 in
      omega (
        arith,
        times-sort_by (character_names t) (λ ch. ch.id) k c.knowledge.characters,
        times-each_with (character_names t) (λ s. s.names) (check_character t c) character-noted k
            none_seen 0 sorted h,
        once_in-le k after.names,
      )

-- If the check of a set, complete or not, finds no violation, then no two episodes have one work,
-- season and number, and no name or alias of a character, as names are compared, is that of another
-- character or another one of the same character.
pub check_integrity-once :
    (t : TextFunctions) (k : KnowledgeSet) (complete : Bool) (unverified : List EntityRef)
    → (check_integrity t k complete unverified).violations ≡ []
    → ((number : EpisodeNumber) → times number (concat_map (λ e. number_of e ∷ []) k.episodes) ≤ 1)
      × ((name : String) → times name (concat_map (character_names t) k.characters) ≤ 1)
unfolding check_integrity findings
check_integrity-once t k complete unverified h =
    let c : Checker = record { knowledge = k; complete = complete; unverified = unverified } in
    let (works, h1) = IsClean-split _ _ (choose-IsClean (findings t c) h) in
    let (episodes, h2) = IsClean-split _ _ h1 in
    let (characters, places) = IsClean-split _ _ h2 in
    ((λ number. episodes-once c number episodes), (λ name. characters-once t c name characters))
