-- ===== src/Dialogs/History/Opening.antt =====
-- `create`: the loop that draws an unused identifier ends when one is drawn.
use bmstu_nirs.Common.{
  nat_key, ==_refl, Bool-cases, Dict, [], ap, arith, contains, false, inl, inr, lookup,
  lookup-insert_ne, lookup-insert_self, none, some, suc, zero, ℕ, ◌+◌, ◌<◌, ◌∙◌, ◌≡◌, ◌≢◌,
}
use bmstu_nirs.Dialogs.Models.{Time, Uuid, ok}
use bmstu_nirs.Dialogs.History.{Dialog, History, answer, create, get, owned, unused_id}

unused_id-found :
    (fuel : ℕ) (draw : ℕ → Uuid) (i : ℕ) (ds : Dict Uuid Dialog)
    → i < fuel
    → contains (draw i) ds ≡ false
    → (id : Uuid) × (unused_id fuel draw ds ≡ some id) × (contains id ds ≡ false)
unfolding unused_id
unused_id-found zero draw i ds less unused = ground arith
unused_id-found (suc fuel) draw zero ds less unused = (draw 0, ground arith, unused)
unused_id-found (suc fuel) draw (suc i) ds less unused = elim (Bool-cases (contains (draw 0) ds)) [
  | inr free ↦ (draw 0, ground arith, free)
  | inl used ↦
      let same : draw (i + 1) ≡ draw (suc i) = ap draw (omega arith) in
      let (id, found, free) =
        unused_id-found fuel (λ k. draw (k + 1)) i ds (omega (arith, less))
          (ap (λ d. contains d ds) same ∙ unused) in
      (id, ground arith, free)
]

-- If one of the identifiers drawn is not in use, with fuel for as many draws, the user gets an
-- identifier that was not in use, and under it an empty dialog of the user; no other dialog
-- changes.
pub create_lem :
    (fuel : ℕ) (draw : ℕ → Uuid) (owner_id : Uuid) (now : Time) (h : History) (i : ℕ)
    → i < fuel
    → contains (draw i) h.dialogs ≡ false
    → let (answer, h') = create fuel draw owner_id now h in
      (id : Uuid) × (answer ≡ some id)
      × (lookup id h.dialogs ≡ none)
      × (get owner_id id h' ≡ ok [])
      × ((j : Uuid) → j ≢ id → lookup j h'.dialogs ≡ lookup j h.dialogs)
unfolding create get owned
create_lem fuel draw owner_id now h i less unused =
    let (id, found, free) = unused_id-found fuel draw i h.dialogs less unused in
    let d : Dialog = record {
      owner_id = owner_id;
      created_at = now;
      updated_at = now;
      title = none;
      messages = [];
    } in
    (
      id,
      ground arith,
      ground arith,
      ground (arith, lookup-insert_self id d h.dialogs, ==_refl owner_id),
      λ j other. ground (arith, lookup-insert_ne j id d h.dialogs other),
    )
