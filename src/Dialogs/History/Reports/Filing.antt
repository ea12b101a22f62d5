-- ===== src/Dialogs/History/Reports/Filing.antt =====
-- Filing a report: once for an answer, with the text of the answer and of the request before it.
use mathlib.Core.List.{reverse, reverse-append, append_assoc}
use bmstu_nirs.Common.{
  nat_key, ==_refl, All, Dict, List, Option, String, [], ap, arith, false, find, insert, lookup,
  lookup-insert_self, none, refl, some, true, values, ℕ, ◌++◌, ◌∙◌, ◌∷◌, ◌≡◌, ◌≢◌,
}
use bmstu_nirs.Dialogs.Models.{
  ReportReason, ReportState, StoredMessage, Time, Uuid, err, is_user, ok, report_exists, sent,
}
use bmstu_nirs.Dialogs.History.{History, StoredReport, answer, is_about, report_state}
use bmstu_nirs.Dialogs.History.Reports.{before, content_of, new_report, report, request_before}
use bmstu_nirs.Dialogs.History.Reports.Later.{
  IsReported, IsReported-refuses, Later, Later-IsReported,
}

find-insert :
    (m k : ℕ) (r : StoredReport) (reports : Dict ℕ StoredReport)
    → find (is_about m) (values reports) ≡ none
    → is_about m r ≡ true
    → find (is_about m) (values (insert k r reports)) ≡ some r
find-insert m k r [] absent about = ground arith
find-insert m k r (e ∷ reports) absent about = ground (arith, find-insert m k r reports)

report-IsReported :
    (owner_id dialog_id : Uuid) (m n : ℕ) (reason : ReportReason) (comment : Option String)
    (t : Time) (h : History)
    → (report owner_id dialog_id m reason comment t h).0 ≡ ok n
    → IsReported owner_id dialog_id m n (report owner_id dialog_id m reason comment t h).1
unfolding report answer
report-IsReported owner_id dialog_id m n reason comment t h accepted =
    let r = new_report owner_id dialog_id m reason comment t h in
    record {
      answered = ground arith;
      filed = (r, ground (arith, lookup-insert_self h.report_ids r h.reports), refl);
      numbered = ground arith;
    }

-- A report that is accepted is stored under the id returned, as new, and the answer shows as sent.
-- After it and any operations, reviews of reports among them, of which none removes a dialog with
-- the message, the answer shows as reported and every further report of it by the owner, with any
-- reason and comment, is refused and changes nothing.
pub report_twice :
    (owner_id dialog_id : Uuid) (m n : ℕ) (reason reason' : ReportReason)
    (comment comment' : Option String) (now now' : Time) (h k : History)
    → (report owner_id dialog_id m reason comment now h).0 ≡ ok n
    → Later m (report owner_id dialog_id m reason comment now h).1 k
    → let h' = (report owner_id dialog_id m reason comment now h).1 in
      (lookup n h'.reports ≡ some (new_report owner_id dialog_id m reason comment now h))
      × (report_state m h' ≡ some sent)
      × ((st : ReportState) × (report_state m k ≡ some st))
      × (report owner_id dialog_id m reason' comment' now' k ≡ (err (report_exists dialog_id m), k))
unfolding report
report_twice owner_id dialog_id m n reason reason' comment comment' now now' h k accepted later =
    let r = new_report owner_id dialog_id m reason comment now h in
    let stored = lookup-insert_self h.report_ids r h.reports in
    let found = find-insert m h.report_ids r h.reports in
    let v =
      Later-IsReported owner_id dialog_id m n later
        (report-IsReported owner_id dialog_id m n reason comment now h accepted) in
    let (shows, refused) = IsReported-refuses owner_id dialog_id m n reason' comment' now' k v in
    (ground (arith, stored), ground (arith, ==_refl m, found), shows, refused)

-- No message of the list has the id; or none is of the user.
abbrev pub Lacks : ℕ → List StoredMessage → Type 0
Lacks m = All (λ x. x.id ≢ m)

abbrev pub HasNoRequest : List StoredMessage → Type 0
HasNoRequest = All (λ x. is_user x.role ≡ false)

before-append :
    (m : ℕ) (xs : List StoredMessage) (a : StoredMessage) (post : List StoredMessage)
    → Lacks m xs
    → a.id ≡ m
    → before m (xs ++ (a ∷ post)) ≡ xs
unfolding before
before-append m [] a post lacks same = ground arith
before-append m (x ∷ xs) a post lacks same =
    ground (arith, lacks.0, before-append m xs a post lacks.1 same)

find-reverse :
    (xs ys : List StoredMessage)
    → HasNoRequest xs
    → find (λ x. is_user x.role) (reverse xs ++ ys) ≡ find (λ x. is_user x.role) ys
find-reverse [] ys none_of = refl
find-reverse (x ∷ xs) ys none_of =
    ap (find (λ x. is_user x.role))
      (ap (λ zs. zs ++ ys) (reverse-append (x ∷ []) xs) ∙ append_assoc (reverse xs) (x ∷ []) ys)
    ∙ find-reverse xs (x ∷ ys) none_of.1
    ∙ ground arith

find-reverse_request :
    (pre mid : List StoredMessage) (r : StoredMessage)
    → is_user r.role ≡ true
    → HasNoRequest mid
    → find (λ x. is_user x.role) (reverse (pre ++ (r ∷ mid))) ≡ some r
find-reverse_request pre mid r by_user none_of =
    ap (find (λ x. is_user x.role)) (
      reverse-append pre (r ∷ mid)
      ∙ ap (λ zs. zs ++ reverse pre) (reverse-append (r ∷ []) mid)
      ∙ append_assoc (reverse mid) (r ∷ []) (reverse pre))
    ∙ find-reverse mid (r ∷ reverse pre) none_of
    ∙ ground arith

-- The request that a report keeps is the last message of the user before the answer.
pub request_before_lem :
    (m : ℕ) (pre mid post : List StoredMessage) (request reported : StoredMessage)
    → Lacks m (pre ++ (request ∷ mid))
    → reported.id ≡ m
    → is_user request.role ≡ true
    → HasNoRequest mid
    → request_before m ((pre ++ (request ∷ mid)) ++ (reported ∷ post)) ≡ some request.content
unfolding request_before
request_before_lem m pre mid post request reported lacks same by_user none_of =
    ap (λ zs. content_of (find (λ x. is_user x.role) (reverse zs)))
      (before-append m (pre ++ (request ∷ mid)) reported post lacks same)
    ∙ ap content_of (find-reverse_request pre mid request by_user none_of)
