-- ===== src/Dialogs/History/Reports/Later.antt =====
-- A report stays with its answer, whatever operations follow that spare the dialog.
use mathlib.Core.Option.{some-injective}
use bmstu_nirs.Common.{
  nat_key, ==_refl, Bool-cases, Dict, Option, Option-cases, String, [], ap, arith, contains, erase,
  false, find, inl, inr, insert, lookup, lookup-erase, map_values, none, refl, some, subst, sym,
  true, values, ℕ, ◌<◌, ◌∙◌, ◌∷◌, ◌≡◌, ◌≢◌,
}
use bmstu_nirs.Dialogs.Models.{
  ReportReason, ReportState, Result, Time, Uuid, err, ok, report_exists,
}
use bmstu_nirs.Dialogs.History.{
  Dialog, History, Status, StoredReport, answer, delete, detach, dismissed, drop_feedback, is_about,
  new, owned, report_state, resolved, state_of,
}
use bmstu_nirs.Dialogs.History.Reports.{
  id_set, mark_report_news_seen, report, set_report_status, with_status,
}
use bmstu_nirs.Dialogs.History.Removal.{has_id}
use bmstu_nirs.Dialogs.History.Numbering.{
  Step, appended, created, delete-err, delete-ok, deleted, marked_seen, rated, reported, unrated,
}
use bmstu_nirs.Dialogs.History.Reports.Kept.{
  Files, Has, Has-answer, answer-Has, append-Has, append-reports, clear_feedback-kept, create-Has,
  create-reports, detach-Files, has_id-answer, insert-Files, mark_all-Files, owned-lookup,
  set_feedback-kept,
}

-- No dialog that has the message is removed.
abbrev pub Spares : ℕ → History → History → Type 0
Spares m h k =
    (i : Uuid) (d : Dialog)
    → lookup i h.dialogs ≡ some d
    → has_id m d.messages ≡ true
    → contains i k.dialogs ≡ true

-- The store after operations with any arguments, of which none removes a dialog with the message.
pub data Later (m : ℕ) (g : History) : History → Type 0 where
  at_once : Later m g g
  followed : {h k : History} → Later m g h → Step h k → Spares m h k → Later m g k
  reviewed :
      {h k : History} (report_id : ℕ) (st : Status) (t : Time)
      → Later m g h
      → set_report_status report_id st t h ≡ some k
      → Later m g k

-- The owner's dialog has the answer, and a report of it is stored under a number that was given.
pub record IsReported (owner_id dialog_id : Uuid) (m n : ℕ) (h : History) : Type 0 where
  pub answered : answer owner_id dialog_id m h ≡ none
  pub filed : (r : StoredReport) × (lookup n h.reports ≡ some r) × (r.message_id ≡ some m)
  pub numbered : n < h.report_ids

module _ (owner_id dialog_id : Uuid) (m n : ℕ) where
  abbrev Reported : History → Type 0
  Reported = IsReported owner_id dialog_id m n

  -- The same dialogs, and the report is kept.
  same-Reported :
      (g h : History)
      → h.dialogs ≡ g.dialogs
      → Files m n h.reports
      → n < h.report_ids
      → Reported g
      → Reported h
  same-Reported g h same filed numbered v = record {
    answered = Has-answer owner_id dialog_id m h (
        subst (Has owner_id dialog_id m) (sym same) (answer-Has owner_id dialog_id m g v.answered));
    filed = filed;
    numbered = numbered;
  }

  delete-Reported :
      (owner id : Uuid) (h : History)
      → Spares m h (delete owner id h).1
      → Reported h
      → Reported (delete owner id h).1
  delete-Reported owner id h spares v = go (owned owner id h) refl
    where
      has : Has owner_id dialog_id m h.dialogs
      has = answer-Has owner_id dialog_id m h v.answered

      stays :
          (d : Dialog)
          → owned owner id h ≡ ok d
          → (k : History)
          → k ≡ record h {
            dialogs = erase id h.dialogs;
            feedback = drop_feedback d.messages h.feedback;
            reports = map_values (λ _. detach d.messages) h.reports;
          }
          → Spares m h k
          → Reported k
      stays d e k shape kept =
          let found : lookup id h.dialogs ≡ some d = owned-lookup owner id h e in
          let absent : has_id m d.messages ≡ false = elim (Bool-cases (has_id m d.messages)) [
            | inr b ↦ b
            | inl b ↦ absurd (
                ground (
                  arith,
                  kept id d found b,
                  ap (λ c. lookup id c.dialogs) shape,
                  lookup-erase id id h.dialogs,
                ))
          ] in
          let (c, there, mine, answers) = has in
          let apart : dialog_id ≢ id = λ same.
            let one : d ≡ c =
              some-injective d c (sym found ∙ (ap (λ i. lookup i h.dialogs) (sym same) ∙ there)) in
            cc (absent, one, has_id-answer m c.messages answers) in
          subst Reported (sym shape) (record {
            answered =
                Has-answer owner_id dialog_id m _
                  (c, ground (arith, apart, lookup-erase dialog_id id h.dialogs), mine, answers);
            filed = detach-Files m n d.messages h.reports absent v.filed;
            numbered = v.numbered;
          })

      go : (r : Result Dialog) → owned owner id h ≡ r → Reported (delete owner id h).1
      go (err x) e = rw (delete-err owner id h e) v
      go (ok d) e = stays d e (delete owner id h).1 (delete-ok owner id h e) spares

  report-Reported :
      (owner id : Uuid) (k : ℕ) (reason : ReportReason) (comment : Option String) (t : Time)
      (h : History)
      → Reported h
      → Reported (report owner id k reason comment t h).1
  unfolding report
  report-Reported owner id k reason comment t h v = elim (Option-cases (answer owner id k h)) [
    | inr (x, e) ↦ rw (e, report) v
    | inl e ↦ elim (Option-cases (report_state k h)) [
      | inr (st, e') ↦ rw (e, e', report) v
      | inl e' ↦
          rw (e, e', report)
            (same-Reported h _ refl
              (insert-Files m n h.report_ids _ h.reports
                (λ same. absurd (omega (arith, same, v.numbered))) v.filed)
              (omega (arith, v.numbered)) v)
    ]
  ]

  Step-Reported : {g h : History} → Step g h → Spares m g h → Reported g → Reported h
  unfolding mark_report_news_seen
  Step-Reported (created fuel draw owner t h) spares v = record {
    answered = Has-answer owner_id dialog_id m _ (
        create-Has owner_id dialog_id m fuel draw owner t h
          (answer-Has owner_id dialog_id m h v.answered));
    filed = subst (Files m n) (sym (create-reports fuel draw owner t h).0) v.filed;
    numbered = subst (λ x. n < x) (sym (create-reports fuel draw owner t h).1) v.numbered;
  }
  Step-Reported (appended title_of id ms t h) spares v = record {
    answered = Has-answer owner_id dialog_id m _ (
        append-Has owner_id dialog_id m title_of id ms t h
          (answer-Has owner_id dialog_id m h v.answered));
    filed = subst (Files m n) (sym (append-reports title_of id ms t h).0) v.filed;
    numbered = subst (λ x. n < x) (sym (append-reports title_of id ms t h).1) v.numbered;
  }
  Step-Reported (deleted owner id h) spares v = delete-Reported owner id h spares v
  Step-Reported (rated owner id k score h) spares v =
      let (ds, rs, ns) = set_feedback-kept owner id k score h in
      same-Reported h _ ds (subst (Files m n) (sym rs) v.filed)
        (subst (λ x. n < x) (sym ns) v.numbered) v
  Step-Reported (unrated owner id k h) spares v =
      let (ds, rs, ns) = clear_feedback-kept owner id k h in
      same-Reported h _ ds (subst (Files m n) (sym rs) v.filed)
        (subst (λ x. n < x) (sym ns) v.numbered) v
  Step-Reported (reported owner id k reason comment t h) spares v =
      report-Reported owner id k reason comment t h v
  Step-Reported (marked_seen owner ids t h) spares v =
      same-Reported h _ refl (mark_all-Files m n owner t (id_set ids) h.reports v.filed) v.numbered
        v

  with_status-message_id :
      (st : Status) (t : Time) (r : StoredReport) → (with_status st t r).message_id ≡ r.message_id
  with_status-message_id new t r = refl
  with_status-message_id resolved t r = refl
  with_status-message_id dismissed t r = refl

  reviewed-Reported :
      (report_id : ℕ) (st : Status) (t : Time) (h k : History)
      → set_report_status report_id st t h ≡ some k
      → Reported h
      → Reported k
  unfolding set_report_status
  reviewed-Reported report_id st t h k e v = elim (Option-cases (lookup report_id h.reports)) [
    | inl missing ↦ ground arith
    | inr (r, found) ↦
        let (q, stored, about) = v.filed in
        let reports = insert report_id (with_status st t r) h.reports in
        subst Reported (some-injective _ k (sym (rw (found, set_report_status) refl) ∙ e)) (
          same-Reported h (record h { reports = reports }) refl
            (insert-Files m n report_id (with_status st t r) h.reports
              (λ same.
                with_status-message_id st t r
                ∙ (ap (λ x. x.message_id)
                      (some-injective r q
                        (sym found ∙ (ap (λ i. lookup i h.reports) same ∙ stored)))
                    ∙ about))
              v.filed)
            v.numbered v)
  ]

  -- The report of an answer is kept, whatever operations follow that spare its dialog.
  pub Later-IsReported : {g h : History} → Later m g h → Reported g → Reported h
  Later-IsReported at_once v = v
  Later-IsReported (followed run st spares) v = Step-Reported st spares (Later-IsReported run v)
  Later-IsReported (reviewed {h} {k} report_id st t run e) v =
      reviewed-Reported report_id st t h k e (Later-IsReported run v)

find-lookup :
    (m n : ℕ) (reports : Dict ℕ StoredReport) (r : StoredReport)
    → lookup n reports ≡ some r
    → is_about m r ≡ true
    → (q : StoredReport) × (find (is_about m) (values reports) ≡ some q)
find-lookup m n [] r stored about = cc
find-lookup m n ((k, x) ∷ reports) r stored about = elim (Bool-cases (is_about m x)) [
  | inl b ↦ (x, ground arith)
  | inr b ↦ let (q, e) = find-lookup m n reports r (ground arith) about in (q, ground (arith, e))
]

-- While the report is kept, the answer shows as reported and no further report of it is accepted.
pub IsReported-refuses :
    (owner_id dialog_id : Uuid) (m n : ℕ) (reason : ReportReason) (comment : Option String)
    (t : Time) (h : History)
    → IsReported owner_id dialog_id m n h
    → ((st : ReportState) × (report_state m h ≡ some st))
      × (report owner_id dialog_id m reason comment t h ≡ (err (report_exists dialog_id m), h))
unfolding report report_state
IsReported-refuses owner_id dialog_id m n reason comment t h v =
    let (r, stored, about) = v.filed in
    let (q, found) = find-lookup m n h.reports r stored (ground (arith, about, ==_refl m)) in
    ((state_of q.status, ground (arith, found)), ground (arith, found, v.answered))
