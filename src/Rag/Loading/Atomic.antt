-- ===== src/Rag/Loading/Atomic.antt =====
-- How a load ends, for load_package.
use bmstu_nirs.Common.{
  nat_key, text_key, Bool-cases, List, Option, [], ap, false, inl, inr, insert, lookup,
  lookup-insert_self, none, refl, some, subst, sym, true, ℕ, ◌∙◌, ◌∷◌, ◌≡◌, ◌⊎◌,
}
use mathlib.Core.Option.{some-injective}
use bmstu_nirs.Rag.Models.{ref_key, KnowledgeSet, TextFunctions}
use bmstu_nirs.Rag.Integrity.{Violation}
use bmstu_nirs.Rag.Integrity.Report.{check_integrity}
use bmstu_nirs.Rag.Store.{
  EntityChange, LoadRecord, LoadSummary, State, StoreError, finish_load, read_all, read_load, save,
  save_one, start_load, transaction,
}
use bmstu_nirs.Rag.Merging.{changes_of, merge}
use bmstu_nirs.Rag.Loading.{
  Load, LoadError, LoadReport, apply_package, check_package, conclude, failed, load_body,
  load_package, report_of, store_error, store_issue, unless_broken, violation_issues,
}

save-loads : (id : ℕ) (cs : List EntityChange) (s : State) → (save id cs s).loads ≡ s.loads
unfolding save save_one
save-loads id [] s = refl
save-loads id (c ∷ cs) s = save-loads id cs (save_one id c s)

abbrev pub new_id : State → ℕ
new_id s = (start_load 0 s).0

-- The store once the load has a number and its changes are saved.
abbrev pub saved : KnowledgeSet → Load → State → State
saved new l s = save (new_id s) (changes_of (read_all s) new).0 (start_load l.started_at s).1

-- The store has the entities and revisions of the changes, and the record of the load says what the
-- report says.
pub record IsApplied (new : KnowledgeSet) (l : Load) (s : State) (r : LoadReport) (s' : State)
    : Type 0 where
  pub says_so : r.loaded ≡ true
  pub entities : s'.entities ≡ (saved new l s).entities
  pub revisions : s'.revisions ≡ (saved new l s).revisions
  pub under : r.load_id ≡ some (new_id s)
  pub recorded :
      read_load (new_id s) s'
      ≡ some (record {
        id = new_id s;
        started_at = l.started_at;
        summary = some (record {
          finished_at = l.finished_at;
          duration_ms = r.duration_ms;
          entity_count = r.entity_count;
          counts = r.counts;
        });
      })

-- The store after the transaction, in the two ways in which it can end without a rejection.
IsEnd : KnowledgeSet → Load → State → LoadError ⊎ (LoadReport × State) → Type 0
IsEnd new l s (inl e) = (f : StoreError) × (e ≡ store_error f)
IsEnd new l s (inr (r, s')) = IsApplied new l s r s'

conclude-IsEnd :
    (new : KnowledgeSet) (l : Load) (s : State) (r : LoadReport) (e : Option StoreError)
    (found : Option State) (s' : State)
    → found ≡ some s'
    → IsApplied new l s r s'
    → IsEnd new l s (conclude r e found)
unfolding conclude IsEnd
conclude-IsEnd new l s r e none s' h applied = cc
conclude-IsEnd new l s r (some e) (some found) s' h applied = (e, refl)
conclude-IsEnd new l s r none (some found) s' h applied =
    subst (λ f. IsApplied new l s r f) (sym (some-injective found s' h)) applied

finish_load-known :
    (id : ℕ) (summary : LoadSummary) (s : State) (r : LoadRecord)
    → lookup id s.loads ≡ some r
    → finish_load id summary s
      ≡ some (record s { loads = insert id (record r { summary = some summary }) s.loads })
unfolding finish_load
finish_load-known id summary s r h =
    ap
      (λ o. elim o [
        | none ↦ none
        | some r ↦
            some (record s { loads = insert id (record r { summary = some summary }) s.loads })
      ])
      h

apply_package-IsEnd :
    (new merged : KnowledgeSet) (l : Load) (s : State)
    → IsEnd new l s (apply_package new merged l s)
unfolding apply_package start_load read_load
apply_package-IsEnd new merged l s =
    conclude-IsEnd new l s _ l.on_commit _ _
      (finish_load-known (new_id s) _ (saved new l s)
        (record { id = new_id s; started_at = l.started_at; summary = none })
        (ap (lookup (new_id s))
            (save-loads (new_id s) (changes_of (read_all s) new).0 (start_load l.started_at s).1)
          ∙ lookup-insert_self (new_id s) _ s.loads))
      (record {
        says_so = refl;
        entities = refl;
        revisions = refl;
        under = refl;
        recorded = lookup-insert_self (new_id s) _ _;
      })

-- The result of a load: it is rejected and the store stays, or it is applied and the merged set
-- breaks no rule.
pub record IsRejected (s : State) (r : LoadReport) (s' : State) : Type 0 where
  pub says_so : r.loaded ≡ false
  pub stays : s' ≡ s

pub record IsAccepted (t : TextFunctions) (l : Load) (s : State) (r : LoadReport) (s' : State)
    : Type 0 where
  pub keeps_rules :
      (check_integrity t (merge (read_all s) (check_package t l.contents).0) true []).violations
      ≡ []
  pub applied : IsApplied (check_package t l.contents).0 l s r s'

-- How the transaction ends.
IsOutcome : TextFunctions → KnowledgeSet → Load → State → LoadError ⊎ (LoadReport × State) → Type 0
IsOutcome t new l s (inl e) = (r : LoadReport) × (report_of (inl e) ≡ some r) × (r.loaded ≡ false)
IsOutcome t new l s (inr (r, s')) =
    ((check_integrity t (merge (read_all s) new) true []).violations ≡ []) × IsApplied new l s r s'

module _ (t : TextFunctions) (new : KnowledgeSet) (l : Load) (s : State) where
  end-IsOutcome :
      (x : LoadError ⊎ (LoadReport × State))
      → (check_integrity t (merge (read_all s) new) true []).violations ≡ []
      → IsEnd new l s x
      → IsOutcome t new l s x
  unfolding IsOutcome IsEnd
  end-IsOutcome (inl e) h (f, is_store) = (failed (store_issue f ∷ []), rw is_store refl, refl)
  end-IsOutcome (inr (r, s')) h end = (h, end)

  -- The end of a transaction whose set was checked.
  unless_broken-IsOutcome :
      (vs : List Violation) (x : LoadError ⊎ (LoadReport × State))
      → (check_integrity t (merge (read_all s) new) true []).violations ≡ vs
      → IsEnd new l s x
      → IsOutcome t new l s (unless_broken vs new x)
  unfolding unless_broken IsOutcome
  unless_broken-IsOutcome [] x h end = end-IsOutcome x h end
  unless_broken-IsOutcome (v ∷ vs) x h end = (failed (violation_issues (v ∷ vs) new), refl, refl)

  opened-IsOutcome :
      (o : Option StoreError)
      → IsOutcome t new l s (elim o [
        | some e ↦ inl (store_error e)
        | none ↦
            unless_broken
              (check_integrity t (merge (read_all s) new) true []).violations
              new
              (apply_package new (merge (read_all s) new) l s)
      ])
  unfolding IsOutcome
  opened-IsOutcome (some e) = (failed (store_issue e ∷ []), refl, refl)
  opened-IsOutcome none =
      unless_broken-IsOutcome _ _ refl (apply_package-IsEnd new (merge (read_all s) new) l s)

  load_body-IsOutcome : IsOutcome t new l s (load_body t new l s)
  unfolding load_body
  load_body-IsOutcome = opened-IsOutcome l.on_open

-- The report and the store once the transaction has ended.
transaction-end :
    (t : TextFunctions) (l : Load) (s : State) (x : LoadError ⊎ (LoadReport × State))
    → IsOutcome t (check_package t l.contents).0 l s x
    → (r : LoadReport) × (s' : State) × (◌≡◌ {A = Option LoadReport × State}
        (report_of (transaction (λ _. x) s).0, (transaction (λ _. x) s).1)
        (some r, s'))
      × (IsRejected s r s' ⊎ IsAccepted t l s r s')
unfolding transaction IsOutcome
transaction-end t l s (inl e) (r, said, says_no) =
    (r, s, rw said refl, inl (record { says_so = says_no; stays = refl }))
transaction-end t l s (inr (r, s')) (h, applied) =
    (r, s', refl, inr (record { keeps_rules = h; applied = applied }))

-- Every load returns a report. Either the report says that nothing is loaded and the store is as
-- before, whatever the reason, or the merged set breaks no rule and the store has all changes and a
-- finished record of the load that says what the report says.
pub load_package-IsAtomic :
    (t : TextFunctions) (l : Load) (s : State)
    → (r : LoadReport) × (s' : State) × (load_package t l s ≡ (some r, s'))
      × (IsRejected s r s' ⊎ IsAccepted t l s r s')
unfolding load_package transaction
load_package-IsAtomic t l s = elim (Bool-cases (check_package t l.contents).1.valid) [
  | inr invalid ↦ (
    failed (check_package t l.contents).1.issues,
    s,
    rw invalid refl,
    inl (record { says_so = refl; stays = refl }),
  )
  | inl valid ↦ rw valid (
      transaction-end t l s (load_body t (check_package t l.contents).0 l s)
        (load_body-IsOutcome t (check_package t l.contents).0 l s))
]

pub load_package-IsAccepted :
    (t : TextFunctions) (l : Load) (s : State) (r : LoadReport) (s' : State)
    → load_package t l s ≡ (some r, s')
    → r.loaded ≡ true
    → IsAccepted t l s r s'
load_package-IsAccepted t l s r s' run loaded = go (load_package-IsAtomic t l s)
  where
    go :
        (r' : LoadReport) × (x : State) × (load_package t l s ≡ (some r', x))
          × (IsRejected s r' x ⊎ IsAccepted t l s r' x)
        → IsAccepted t l s r s'
    go (r', x, run', inl refused) =
        let same = some-injective r r' (ap (λ p. p.0) (sym run ∙ run')) in
        cc (loaded, same, refused.says_so)
    go (r', x, run', inr accepted) =
        let same_r = some-injective r' r (ap (λ p. p.0) (sym run' ∙ run)) in
        let same_s = ap (λ p. p.1) (sym run' ∙ run) in
        subst (λ y. IsAccepted t l s r y) same_s (subst (λ q. IsAccepted t l s q x) same_r accepted)
