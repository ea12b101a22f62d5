-- ===== src/Rag/Loading/Apart.antt =====
-- Keys of entities, and distinct references.
use bmstu_nirs.Common.{
  text_key, ==_ne, All, All-append, All-mono, Dict, List, String, [], ap, contains, false, lookup,
  none, refl, true, ◌++◌, ◌==◌, ◌∙◌, ◌∷◌, ◌≡◌,
}
use bmstu_nirs.Rag.Models.{ref_key, EntityRef, KnowledgeEntity}
use bmstu_nirs.Rag.Entities.{entity_ref}
use bmstu_nirs.Rag.Loading.Under.{at_ref}
use bmstu_nirs.Rag.Loading.Stored.{IsDistinct}
use bmstu_nirs.Rag.Loading.Grouped.{IsDistinct-append}
use bmstu_nirs.Rag.Package.Names.{contains-absent, contains-cons, contains-head}

at_ref-absent :
    (r : EntityRef) (es : List KnowledgeEntity)
    → All (λ e. (entity_ref e == r) ≡ false) es
    → at_ref r es ≡ none
at_ref-absent r [] h = refl
at_ref-absent r (e ∷ es) h = rw (at_ref-absent r es h.1, h.0) refl

-- Entities that come under one key each, next to entities under the keys of a dict.
module _ {ℓ} {A : Type ℓ} (key : KnowledgeEntity → String)
    (same_key : (e e' : KnowledgeEntity) → entity_ref e' ≡ entity_ref e → key e' ≡ key e) where
  apart-absent :
      (d : Dict String A) (es : List KnowledgeEntity) (e : KnowledgeEntity)
      → lookup (key e) d ≡ none
      → All (λ e'. contains (key e') d ≡ true) es
      → at_ref (entity_ref e) es ≡ none
  apart-absent d es e absent h = at_ref-absent (entity_ref e) es (
      All-mono (λ e'. contains (key e') d ≡ true) (λ e'. (entity_ref e' == entity_ref e) ≡ false)
        (λ e' there. ==_ne (entity_ref e') (entity_ref e) (λ same.
          cc
            (there, ap (λ k. contains k d) (same_key e e' same), contains-absent (key e) d absent)))
        es h)

  pub key-append :
      (name : String) (x : A) (d : Dict String A) (first rest : List KnowledgeEntity)
      → lookup name d ≡ none
      → IsDistinct first × All (λ e. key e ≡ name) first
      → IsDistinct rest × All (λ e. contains (key e) d ≡ true) rest
      → IsDistinct (first ++ rest)
        × All (λ e. contains (key e) ((name, x) ∷ d) ≡ true) (first ++ rest)
  key-append name x d first rest absent (once, own) (distinct, there) = (
    IsDistinct-append first rest once distinct (
        All-mono (λ e. key e ≡ name) (λ e. at_ref (entity_ref e) rest ≡ none)
          (λ e same. apart-absent d rest e (ap (λ k. lookup k d) same ∙ absent) there) first own),
    All-append (λ e. contains (key e) ((name, x) ∷ d) ≡ true) first rest
        (All-mono (λ e. key e ≡ name) (λ e. contains (key e) ((name, x) ∷ d) ≡ true)
          (λ e same. ap (λ k. contains k ((name, x) ∷ d)) same ∙ contains-head name x d) first own)
        (All-mono (λ e. contains (key e) d ≡ true) (λ e. contains (key e) ((name, x) ∷ d) ≡ true)
          (λ e. contains-cons (key e) (name, x) d) rest there),
  )
