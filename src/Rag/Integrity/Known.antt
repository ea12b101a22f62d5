-- ===== src/Rag/Integrity/Known.antt =====
-- What is known of the ids that are resolved in a complete set, for check_integrity.
use bmstu_nirs.Common.{
  text_key, All, All-append, Bool-cases, List, Option, [], any, arith, concat_map, eq_of_==, inl,
  inr, none, not, some, subst, true, ℕ, ◌++◌, ◌==◌, ◌∷◌, ◌≡◌,
}
use bmstu_nirs.Rag.Models.{
  ref_key, EntityRef, EntityType, Interaction, KnowledgeSet, Slug, SourceRef, Work, character,
  continuity, episode, work,
}
use bmstu_nirs.Rag.Entities.{refs}
use bmstu_nirs.Rag.Entities.Sets.{has}
use bmstu_nirs.Rag.Integrity.{
  Checker, FieldPath, Finding, broken, broken_if, check_sources, duplicate_interaction, each, field,
  interaction_participant, member, position, resolve, self_reference, to_ref,
}
use bmstu_nirs.Rag.Integrity.Episodes.{InteractionKey, check_interaction, interaction_key, key_of}
use bmstu_nirs.Rag.Integrity.Report.{check_work}
use bmstu_nirs.Rag.Integrity.Clean.{IsClean, IsClean-split, broken_if-IsClean, each-IsClean}
use bmstu_nirs.Rag.Integrity.Whole.{interaction_targets, source_target, source_targets}

module _ (k : KnowledgeSet) where
  abbrev pub c : Checker
  c = record { knowledge = k; complete = true; unverified = [] }

  abbrev pub Known : EntityType → Slug → Type 0
  Known kind id = has (to_ref kind id) k ≡ true

  abbrev pub AllKnown : List EntityRef → Type 0
  AllKnown = All (λ r. has r k ≡ true)

  pub resolve-Known :
      (o : EntityRef) (p : FieldPath) (kind : EntityType) (id : Slug)
      → IsClean (resolve c o p kind id).1
      → Known kind id
  unfolding resolve
  resolve-Known o p kind id h = elim (Bool-cases (has (to_ref kind id) k)) [
    | inl e ↦ e
    | inr e ↦ let h' = rw e at h in cc (h'.0)
  ]

  pub refs-Known :
      (kind : EntityType) (ids : List Slug) → All (Known kind) ids → AllKnown (refs kind ids)
  refs-Known kind [] h = tt
  refs-Known kind (id ∷ ids) h = (h.0, refs-Known kind ids h.1)

  pub concat_map-Known {ℓ} :
      {A : Type ℓ} (f : A → List EntityRef) (xs : List A)
      → All (λ x. AllKnown (f x)) xs
      → AllKnown (concat_map f xs)
  concat_map-Known f [] h = tt
  concat_map-Known f (x ∷ xs) h =
      All-append (λ r. has r k ≡ true) (f x) (concat_map f xs) h.0 (concat_map-Known f xs h.1)

  pub work-Known : (i : ℕ) (w : Work) → IsClean (check_work c i w) → Known continuity w.continuity
  unfolding check_work
  work-Known i w h =
      resolve-Known (to_ref work w.id) (field "continuity" ∷ []) continuity w.continuity h

  -- A loop over ids that resolves each.
  pub each-Known :
      (kind : EntityType) (check : ℕ → Slug → List Finding) (ids : List Slug)
      → ((i : ℕ) (id : Slug) → IsClean (check i id) → Known kind id)
      → IsClean (each check 0 ids)
      → AllKnown (refs kind ids)
  each-Known kind check ids ok h = refs-Known kind ids (each-IsClean check (Known kind) ok 0 ids h)

  pub append-Known : (xs ys : List EntityRef) → AllKnown xs → AllKnown ys → AllKnown (xs ++ ys)
  append-Known = All-append (λ r. has r k ≡ true)

  -- `check_sources`
  pub sources-Known :
      (o : EntityRef) (p : FieldPath) (ss : List SourceRef)
      → IsClean (check_sources c o p ss)
      → AllKnown (source_targets ss)
  unfolding check_sources
  sources-Known o p ss h =
      concat_map-Known (λ s. source_target s.episode) ss
        (each-IsClean _ (λ s. AllKnown (source_target s.episode)) (λ i s. go i s.episode) 0 ss h)
    where
      go :
          (i : ℕ) (x : Option Slug)
          → IsClean (elim x [
            | none ↦ []
            | some target ↦
                (resolve c o (p ++ (position i ∷ field "episode" ∷ [])) episode target).1
          ])
          → AllKnown (source_target x)
      go i none clean = tt
      go i (some id) clean =
          (resolve-Known o (p ++ (position i ∷ field "episode" ∷ [])) episode id clean, tt)

  -- What a member of a list of known ids is.
  member-Known :
      (kind : EntityType) (id : Slug) (ids : List Slug)
      → member id ids ≡ true
      → AllKnown (refs kind ids)
      → Known kind id
  member-Known kind id [] there h = cc
  member-Known kind id (i ∷ ids) there h = elim (Bool-cases (i == id)) [
    | inl same ↦ subst (Known kind) (eq_of_== i id same) h.0
    | inr other ↦ member-Known kind id ids (ground arith) h.1
  ]

  pub interaction-Known :
      (o : EntityRef) (participants : List Slug) (seen : List InteractionKey) (n : ℕ)
      (i : Interaction)
      → AllKnown (refs character participants)
      → IsClean (check_interaction c o participants seen n i).0
      → AllKnown (interaction_targets i)
  unfolding check_interaction
  interaction-Known o participants seen n i all h =
      let path = field "interactions" ∷ position n ∷ [] in
      let sources = check_sources c o (path ++ (field "sources" ∷ [])) i.sources in
      elim (Bool-cases (i.from == i.to)) [
        | inl own ↦
            let (first, to_self) =
              IsClean-split sources (broken o (path ++ (field "to" ∷ [])) self_reference)
                (rw own at h) in
            cc (to_self.0)
        | inr other ↦
            let from_path = path ++ (field "from" ∷ []) in
            let to_path = path ++ (field "to" ∷ []) in
            let no_from = not (member i.from participants) in
            let no_to = not (member i.to participants) in
            let again =
              broken_if (any (λ x. ◌==◌ ⦃e = interaction_key⦄ x (key_of i)) seen) o path
                duplicate_interaction in
            let to_found = broken_if no_to o to_path interaction_participant in
            let from_found = broken_if no_from o from_path interaction_participant in
            let (first, h1) =
              IsClean-split sources (from_found ++ (to_found ++ again)) (rw other at h) in
            let (from_in, h2) = IsClean-split from_found (to_found ++ again) h1 in
            let (to_in, once) = IsClean-split to_found again h2 in
            let from_there =
              broken_if-IsClean no_from o from_path interaction_participant from_in in
            let to_there = broken_if-IsClean no_to o to_path interaction_participant to_in in
            let from_known : Known character i.from =
              member-Known character i.from participants (ground arith) all in
            let to_known : Known character i.to =
              member-Known character i.to participants (ground arith) all in
            append-Known (refs character (i.from ∷ i.to ∷ [])) _ (from_known, (to_known, tt))
              (sources-Known o (path ++ (field "sources" ∷ [])) i.sources first)
      ]
