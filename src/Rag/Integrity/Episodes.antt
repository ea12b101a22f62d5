-- ===== src/Rag/Integrity/Episodes.antt =====
-- The rules for episodes.
use bmstu_nirs.Common.{
  text_key, Bool, Dict, Key, List, Option, [], any, concat_map, false, find_last, if◌then◌else◌,
  insert, length, lookup, ltb, none, not, some, sort_by, text_discrete, true, values, ℕ, ℕ_discrete,
  ◌&&◌, ◌++◌, ◌==◌, ◌∷◌,
}
use bmstu_nirs.Rag.Models.{
  ref_key, EntityRef, Episode, Interaction, InteractionType, Slug, Work, WorkKind, artifact,
  character, conflict, episode, film, location, series, work,
}
use bmstu_nirs.Rag.Integrity.{
  Checker, Finding, broken, broken_if, character_continuities, check_sources, continuity_mismatch,
  duplicate_episode_number, duplicate_interaction, each, each_with, field, film_episode_count,
  interaction_participant, member, pair_of, position, resolve, self_reference, to_ref,
}

pub record EpisodeNumber : Type 0 where
  pub work_id : Slug
  pub season : Option ℕ
  pub number : ℕ

unfoldable pub Number_discrete : Discrete EpisodeNumber
Number_discrete = hlevel (text_discrete, ℕ_discrete)

instance abbrev pub number_key : Key EpisodeNumber
number_key = record { dec = Number_discrete }

pub record InteractionKey : Type 0 where
  pub first : Slug
  pub second : Slug
  pub type : InteractionType

unfoldable pub Interaction_discrete : Discrete InteractionKey
Interaction_discrete = hlevel text_discrete

instance abbrev pub interaction_key : Key InteractionKey
interaction_key = record { dec = Interaction_discrete }

-- `InteractionType.symmetric`
abbrev pub is_mutual : InteractionType → Bool
is_mutual conflict = true
is_mutual _ = false

abbrev pub key_of : Interaction → InteractionKey
key_of i =
    let (first, second) = pair_of (is_mutual i.type) i.from i.to in
    record { first = first; second = second; type = i.type }

-- One interaction; the keys seen before it are carried.
unfoldable pub check_interaction :
    Checker
    → EntityRef
    → List Slug
    → List InteractionKey
    → ℕ
    → Interaction
    → List Finding × List InteractionKey
unfolding check_sources
check_interaction c owner participants seen n i =
    let path = field "interactions" ∷ position n ∷ [] in
    let sources = check_sources c owner (path ++ (field "sources" ∷ [])) i.sources in
    if i.from == i.to
    then (sources ++ broken owner (path ++ (field "to" ∷ [])) self_reference, seen)
    else (
      sources
          ++ (broken_if (not (member i.from participants)) owner (path ++ (field "from" ∷ []))
                interaction_participant
              ++ (broken_if (not (member i.to participants)) owner (path ++ (field "to" ∷ []))
                    interaction_participant
                  ++ broken_if (any (λ k. k == key_of i) seen) owner path duplicate_interaction)),
      key_of i ∷ seen,
    )

unfoldable pub check_interactions : Checker → EntityRef → Episode → List Finding
unfolding check_interaction each_with
check_interactions c owner e =
    (each_with (check_interaction c owner e.characters) [] 0 e.interactions).0

-- The target exists in the continuity of the episode, if that is known.
abbrev pub lacks : Option Slug → List Slug → Bool
lacks none ids = false
lacks (some id) ids = not (member id ids)

abbrev pub check_participant : Checker → EntityRef → Option Slug → ℕ → Slug → List Finding
check_participant c owner scope i target =
    let path = field "characters" ∷ position i ∷ [] in
    let (found, noted) = resolve c owner path character target in
    noted
    ++ broken_if (found && lacks scope (character_continuities c target)) owner path
        continuity_mismatch

-- The continuities of a location or an artifact of the set.
unfoldable pub location_continuities : Checker → Slug → List Slug
location_continuities c id = elim (find_last (λ l. l.id == id) c.knowledge.locations) [
  | none ↦ []
  | some l ↦ l.continuities
]

unfoldable pub artifact_continuities : Checker → Slug → List Slug
artifact_continuities c id = elim (find_last (λ a. a.id == id) c.knowledge.artifacts) [
  | none ↦ []
  | some a ↦ a.continuities
]

abbrev pub check_location : Checker → EntityRef → Option Slug → ℕ → Slug → List Finding
check_location c owner scope i target =
    let path = field "locations" ∷ position i ∷ [] in
    let (found, noted) = resolve c owner path location target in
    noted
    ++ broken_if (found && lacks scope (location_continuities c target)) owner path
        continuity_mismatch

abbrev pub check_artifact : Checker → EntityRef → Option Slug → ℕ → Slug → List Finding
check_artifact c owner scope i target =
    let path = field "artifacts" ∷ position i ∷ [] in
    let (found, noted) = resolve c owner path artifact target in
    noted
    ++ broken_if (found && lacks scope (artifact_continuities c target)) owner path
        continuity_mismatch

unfoldable pub check_participants : Checker → EntityRef → Episode → Option Slug → List Finding
unfolding each
check_participants c owner e scope =
    each (check_participant c owner scope) 0 e.characters
    ++ (each (check_location c owner scope) 0 e.locations
        ++ each (check_artifact c owner scope) 0 e.artifacts)

pub record Seen : Type 0 where
  pub numbers : List EpisodeNumber
  pub film_episodes : Dict Slug (List EntityRef)

abbrev pub work_of : Checker → Slug → Option Work
work_of c id = find_last (λ w. w.id == id) c.knowledge.works

abbrev pub is_film : WorkKind → Bool
is_film film = true
is_film series = false

abbrev pub continuity_of : Option Work → Option Slug
continuity_of none = none
continuity_of (some w) = some w.continuity

-- `film_episodes[work.id].append(owner)`, for a film.
abbrev pub add_film :
    Option Work → EntityRef → Dict Slug (List EntityRef) → Dict Slug (List EntityRef)
add_film none owner films = films
add_film (some w) owner films =
    if is_film w.kind
    then insert w.id
        (elim (lookup w.id films) [ none ↦ owner ∷ [] | some owners ↦ owners ++ (owner ∷ []) ])
        films
    else films

abbrev pub number_of : Episode → EpisodeNumber
number_of e = record { work_id = e.work; season = e.season; number = e.number }

unfoldable pub check_episode : Checker → Seen → ℕ → Episode → List Finding × Seen
unfolding check_participants check_interactions
check_episode c seen i e =
    let owner = to_ref episode e.id in
    let (found, noted) = resolve c owner (field "work" ∷ []) work e.work in
    let w : Option Work = if found then work_of c e.work else none in
    let taken = any (λ k. k == number_of e) seen.numbers in
    (
      noted
          ++ (broken_if taken owner (field "number" ∷ []) duplicate_episode_number
              ++ (check_participants c owner e (continuity_of w) ++ check_interactions c owner e)),
      record {
        numbers = if taken then seen.numbers else number_of e ∷ seen.numbers;
        film_episodes = add_film w owner seen.film_episodes;
      },
    )

abbrev pub check_film : List EntityRef → List Finding
check_film owners =
    if ltb 1 (length owners)
    then concat_map (λ owner. broken owner (field "work" ∷ []) film_episode_count) owners
    else []

unfoldable pub check_episodes : Checker → List Finding
unfolding check_episode each_with
check_episodes c =
    let (found, seen) =
      each_with (check_episode c) (record { numbers = []; film_episodes = [] }) 0
        (sort_by (λ e. e.id) c.knowledge.episodes) in
    found ++ concat_map check_film (values seen.film_episodes)
