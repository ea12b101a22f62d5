-- ===== src/Dialogs/History/Numbering.antt =====
-- A message id names one message dialog: ratings and reports are stored under it alone.
use bmstu_nirs.Common.{
  nat_key, All, All-append, All-mono, Dict, List, Option, String, [], arith, erase, insert, length,
  lookup, lookup-erase, lookup-insert, map_values, none, refl, some, subst, suc, true, ℕ,
  ℕ_discrete, ◌++◌, ◌+◌, ◌<◌, ◌||◌, ◌∷◌, ◌≡◌, ◌≤◌,
}
use bmstu_nirs.Dialogs.Models.{
  DialogError, Message, ReportReason, Result, StoredMessage, Time, Uuid, err, ok,
}
use bmstu_nirs.Dialogs.History.{
  Dialog, History, append, clear_feedback, create, delete, detach, drop_feedback, owned,
  set_feedback, store_messages, unused_id,
}
use bmstu_nirs.Dialogs.History.Reports.{mark_report_news_seen, report}
use bmstu_nirs.Dialogs.History.Removal.{has_id}

-- In dialogs with `n` as the next message id:
pub record IsNumbered (n : ℕ) (ds : Dict Uuid Dialog) : Type 0 where
  -- the counter is above every id in use;
  pub below : (i : Uuid) (d : Dialog) → lookup i ds ≡ some d → All (λ x. x.id < n) d.messages
  -- two dialogs that have a message with one id are one dialog.
  pub apart :
      (i j : Uuid) (d e : Dialog) (m : ℕ)
      → lookup i ds ≡ some d
      → lookup j ds ≡ some e
      → has_id m d.messages ≡ true
      → has_id m e.messages ≡ true
      → i ≡ j

has_id-below :
    (m n : ℕ) (ms : List StoredMessage) → All (λ x. x.id < n) ms → has_id m ms ≡ true → m < n
has_id-below m n [] h there = cc
has_id-below m n (x ∷ ms) h there = ground (arith, has_id-below m n ms h.1)

has_id-append :
    (m : ℕ) (xs ys : List StoredMessage) → has_id m (xs ++ ys) ≡ (has_id m xs || has_id m ys)
has_id-append m [] ys = refl
has_id-append m (x ∷ xs) ys = ground (arith, has_id-append m xs ys)

stored-from :
    (m n : ℕ) (now : Time) (ms : List Message) → has_id m (store_messages n now ms) ≡ true → n ≤ m
unfolding store_messages
stored-from m n now [] there = cc
stored-from m n now (x ∷ ms) there = ground (arith, stored-from m (n + 1) now ms)

stored-below :
    (n : ℕ) (now : Time) (ms : List Message)
    → All (λ x. x.id < n + length ms) (store_messages n now ms)
unfolding store_messages
stored-below n now [] = tt
stored-below n now (x ∷ ms) = (
  omega arith,
  All-mono (λ y. y.id < n + 1 + length ms) (λ y. y.id < n + suc (length ms)) (λ y k. omega arith)
      (store_messages (n + 1) now ms) (stored-below (n + 1) now ms),
)

-- The operations of the store, with any arguments.
pub data Step : History → History → Type 0 where
  created :
      (fuel : ℕ) (draw : ℕ → Uuid) (owner_id : Uuid) (now : Time) (h : History)
      → Step h (create fuel draw owner_id now h).1
  appended :
      (title_of : String → String) (dialog_id : Uuid) (ms : List Message) (now : Time) (h : History)
      → Step h (append title_of dialog_id ms now h).1
  deleted : (owner_id dialog_id : Uuid) (h : History) → Step h (delete owner_id dialog_id h).1
  rated :
      (owner_id dialog_id : Uuid) (m score : ℕ) (h : History)
      → Step h (set_feedback owner_id dialog_id m score h).1
  unrated :
      (owner_id dialog_id : Uuid) (m : ℕ) (h : History)
      → Step h (clear_feedback owner_id dialog_id m h).1
  reported :
      (owner_id dialog_id : Uuid) (m : ℕ) (reason : ReportReason) (comment : Option String)
      (now : Time) (h : History)
      → Step h (report owner_id dialog_id m reason comment now h).1
  marked_seen :
      (owner_id : Uuid) (ids : List ℕ) (now : Time) (h : History)
      → Step h (mark_report_news_seen owner_id ids now h).1

pub data Reach (h : History) : History → Type 0 where
  here : Reach h h
  next : {g k : History} → Reach h g → Step g k → Reach h k

insert-IsNumbered :
    (n n' : ℕ) (id : Uuid) (d' : Dialog) (ds : Dict Uuid Dialog)
    → n ≤ n'
    → All (λ x. x.id < n') d'.messages
    → ((j : Uuid) (e : Dialog) (m : ℕ)
        → lookup j ds ≡ some e
        → has_id m d'.messages ≡ true
        → has_id m e.messages ≡ true
        → id ≡ j)
    → IsNumbered n ds
    → IsNumbered n' (insert id d' ds)
insert-IsNumbered n n' id d' ds le small own v = record {
  below = λ i d found. elim (ℕ_discrete i id) [
    | yes same ↦
        let e : d' ≡ d = ground (arith, lookup-insert i id d' ds) in
        subst (λ c. All (λ x. x.id < n') c.messages) e small
    | no differs ↦
        All-mono (λ x. x.id < n) (λ x. x.id < n') (λ x k. omega arith) d.messages
          (v.below i d (ground (arith, lookup-insert i id d' ds)))
  ];
  apart = λ i j d e m found found' there there'. ground (
    arith,
    lookup-insert i id d' ds,
    lookup-insert j id d' ds,
    v.apart i j d e m,
    own j e m,
    own i d m,
  );
}

erase-IsNumbered :
    (n : ℕ) (id : Uuid) (ds : Dict Uuid Dialog) → IsNumbered n ds → IsNumbered n (erase id ds)
erase-IsNumbered n id ds v = record {
  below = λ i d found. v.below i d (ground (arith, lookup-erase i id ds));
  apart = λ i j d e m found found' there there'.
      ground (arith, lookup-erase i id ds, lookup-erase j id ds, v.apart i j d e m);
}

abbrev IsNumberedIn : History → Type 0
IsNumberedIn h = IsNumbered h.message_ids h.dialogs

create-IsNumbered :
    (fuel : ℕ) (draw : ℕ → Uuid) (owner_id : Uuid) (now : Time) (h : History)
    → IsNumberedIn h
    → IsNumberedIn (create fuel draw owner_id now h).1
unfolding create
create-IsNumbered fuel draw owner_id now h v = go (unused_id fuel draw h.dialogs) refl
  where
    go :
        (o : Option Uuid)
        → unused_id fuel draw h.dialogs ≡ o
        → IsNumberedIn (create fuel draw owner_id now h).1
    go none e = rw (e, create) v
    go (some id) e =
        rw (e, create)
          (insert-IsNumbered h.message_ids h.message_ids id _ h.dialogs (omega arith) tt
            (λ j d m found there. cc) v)

append-IsNumbered :
    (title_of : String → String) (dialog_id : Uuid) (ms : List Message) (now : Time) (h : History)
    → IsNumberedIn h
    → IsNumberedIn (append title_of dialog_id ms now h).1
unfolding append
append-IsNumbered title_of dialog_id ms now h v = go (lookup dialog_id h.dialogs) refl
  where
    go :
        (o : Option Dialog)
        → lookup dialog_id h.dialogs ≡ o
        → IsNumberedIn (append title_of dialog_id ms now h).1
    go none e = rw (e, append) v
    go (some d) e =
        let stored = store_messages h.message_ids now ms in
        rw (e, append)
          (insert-IsNumbered h.message_ids (h.message_ids + length ms) dialog_id _ h.dialogs
            (omega arith)
            (All-append (λ x. x.id < h.message_ids + length ms) d.messages stored
              (All-mono (λ x. x.id < h.message_ids) (λ x. x.id < h.message_ids + length ms)
                (λ x k. omega arith) d.messages (v.below dialog_id d e))
              (stored-below h.message_ids now ms))
            (λ j d' m found there there'. ground (
              arith,
              has_id-append m d.messages stored,
              v.apart dialog_id j d d' m e found,
              stored-from m h.message_ids now ms,
              has_id-below m h.message_ids d'.messages (v.below j d' found) there',
            ))
            v)

pub delete-err :
    (owner_id dialog_id : Uuid) (h : History) {e : DialogError}
    → owned owner_id dialog_id h ≡ err e
    → (delete owner_id dialog_id h).1 ≡ h
unfolding delete
delete-err owner_id dialog_id h e = ground arith

pub delete-ok :
    (owner_id dialog_id : Uuid) (h : History) {d : Dialog}
    → owned owner_id dialog_id h ≡ ok d
    → (delete owner_id dialog_id h).1 ≡ record h {
      dialogs = erase dialog_id h.dialogs;
      feedback = drop_feedback d.messages h.feedback;
      reports = map_values (λ _. detach d.messages) h.reports;
    }
unfolding delete
delete-ok owner_id dialog_id h e = ground arith

delete-IsNumbered :
    (owner_id dialog_id : Uuid) (h : History)
    → IsNumberedIn h
    → IsNumberedIn (delete owner_id dialog_id h).1
delete-IsNumbered owner_id dialog_id h v = go (owned owner_id dialog_id h) refl
  where
    go :
        (r : Result Dialog)
        → owned owner_id dialog_id h ≡ r
        → IsNumberedIn (delete owner_id dialog_id h).1
    go (err x) e = rw (delete-err owner_id dialog_id h e) v
    go (ok d) e =
        rw (delete-ok owner_id dialog_id h e) (erase-IsNumbered h.message_ids dialog_id h.dialogs v)

same-IsNumbered :
    (g h : History)
    → (g.message_ids ≡ h.message_ids) × (g.dialogs ≡ h.dialogs)
    → IsNumberedIn h
    → IsNumberedIn g
same-IsNumbered g h (n, ds) v = rw (n, ds) v

set_feedback-same :
    (owner_id dialog_id : Uuid) (m score : ℕ) (h : History)
    → let g = (set_feedback owner_id dialog_id m score h).1 in
      (g.message_ids ≡ h.message_ids) × (g.dialogs ≡ h.dialogs)
unfolding set_feedback
set_feedback-same owner_id dialog_id m score h = ground arith

clear_feedback-same :
    (owner_id dialog_id : Uuid) (m : ℕ) (h : History)
    → let g = (clear_feedback owner_id dialog_id m h).1 in
      (g.message_ids ≡ h.message_ids) × (g.dialogs ≡ h.dialogs)
unfolding clear_feedback
clear_feedback-same owner_id dialog_id m h = ground arith

report-same :
    (owner_id dialog_id : Uuid) (m : ℕ) (reason : ReportReason) (comment : Option String)
    (now : Time) (h : History)
    → let g = (report owner_id dialog_id m reason comment now h).1 in
      (g.message_ids ≡ h.message_ids) × (g.dialogs ≡ h.dialogs)
unfolding report
report-same owner_id dialog_id m reason comment now h = ground arith

Step-IsNumbered : {g h : History} → Step g h → IsNumberedIn g → IsNumberedIn h
unfolding mark_report_news_seen
Step-IsNumbered (created fuel draw owner_id now h) v = create-IsNumbered fuel draw owner_id now h v
Step-IsNumbered (appended title_of dialog_id ms now h) v =
    append-IsNumbered title_of dialog_id ms now h v
Step-IsNumbered (deleted owner_id dialog_id h) v = delete-IsNumbered owner_id dialog_id h v
Step-IsNumbered (rated owner_id dialog_id m score h) v =
    same-IsNumbered (set_feedback owner_id dialog_id m score h).1 h
      (set_feedback-same owner_id dialog_id m score h) v
Step-IsNumbered (unrated owner_id dialog_id m h) v =
    same-IsNumbered (clear_feedback owner_id dialog_id m h).1 h
      (clear_feedback-same owner_id dialog_id m h) v
Step-IsNumbered (reported owner_id dialog_id m reason comment now h) v =
    same-IsNumbered (report owner_id dialog_id m reason comment now h).1 h
      (report-same owner_id dialog_id m reason comment now h) v
Step-IsNumbered (marked_seen owner_id ids now h) v = v

abbrev pub no_history : History
no_history = record { dialogs = []; feedback = []; reports = []; message_ids = 1; report_ids = 1 }

-- In every history that the operations reach, in any order and with any arguments, all message ids
-- are below the counter, and a message id is that of messages of one dialog only.
pub Reach-IsNumbered : {h : History} → Reach no_history h → IsNumbered h.message_ids h.dialogs
Reach-IsNumbered here = record { below = λ i d e. cc; apart = λ i j d e m f. cc }
Reach-IsNumbered (next run st) = Step-IsNumbered st (Reach-IsNumbered run)
