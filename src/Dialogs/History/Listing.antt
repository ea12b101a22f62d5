-- ===== src/Dialogs/History/Listing.antt =====
-- `list_dialogs` of backend/src/smeshariki_ai/dialogs/history.py.
use Prim.Native.Nat.{min}
use bmstu_nirs.Common.{
  nat_key, ℕ_discrete, All, All-mono, Bool, Bool-cases, Dict, IsUnique, List, Option, [], ap, arith,
  false, if◌then◌else◌, inl, inr, keep, leb, leb→le, length, length-take, lookup, none, not, refl,
  some, subst, suc, sym, take, true, zero, ℕ, ⊤, ◌&&◌, ◌++◌, ◌+◌, ◌==◌, ◌∙◌, ◌∷◌, ◌≡◌, ◌≢◌, ◌≤◌,
}
use bmstu_nirs.Dialogs.Models.{DialogSummary, StoredMessage, Uuid}
use bmstu_nirs.Dialogs.History.{Dialog, History}

abbrev is_empty : List StoredMessage → Bool
is_empty [] = true
is_empty (_ ∷ _) = false

-- The summaries of the user's dialogs that are not empty.
unfoldable pub summaries : Uuid → Dict Uuid Dialog → List DialogSummary
summaries owner_id [] = []
summaries owner_id ((dialog_id, d) ∷ ds) =
    let rest = summaries owner_id ds in
    if (d.owner_id == owner_id) && not (is_empty d.messages)
    then record {
      dialog_id = dialog_id;
      title = d.title;
      created_at = d.created_at;
      updated_at = d.updated_at;
    }
      ∷ rest
    else rest

-- `sort(key=updated_at, reverse=True)`: equal keys keep their order.
unfoldable pub insert_summary : DialogSummary → List DialogSummary → List DialogSummary
insert_summary s [] = s ∷ []
insert_summary s (x ∷ xs) =
    if leb x.updated_at s.updated_at then s ∷ x ∷ xs else x ∷ insert_summary s xs

unfoldable pub sort_summaries : List DialogSummary → List DialogSummary
unfolding insert_summary
sort_summaries [] = []
sort_summaries (s ∷ ss) = insert_summary s (sort_summaries ss)

unfoldable pub list_dialogs : Uuid → ℕ → History → List DialogSummary
unfolding summaries sort_summaries
list_dialogs owner_id limit h = take limit (sort_summaries (summaries owner_id h.dialogs))

-- Latest first.
abbrev pub IsLatestFirst : List DialogSummary → Type 0
IsLatestFirst [] = ⊤
IsLatestFirst (s ∷ ss) = All (λ x. x.updated_at ≤ s.updated_at) ss × IsLatestFirst ss

All-insert_summary {κ} :
    (P : DialogSummary → Type κ) (s : DialogSummary) (ss : List DialogSummary)
    → P s
    → All P ss
    → All P (insert_summary s ss)
unfolding insert_summary
All-insert_summary P s [] h hs = (h, hs)
All-insert_summary P s (x ∷ xs) h hs = elim (Bool-cases (leb x.updated_at s.updated_at)) [
  | inl e ↦ rw e (h, hs)
  | inr e ↦ rw e (hs.0, All-insert_summary P s xs h hs.1)
]

insert_summary-IsLatestFirst :
    (s : DialogSummary) (ss : List DialogSummary)
    → IsLatestFirst ss
    → IsLatestFirst (insert_summary s ss)
unfolding insert_summary
insert_summary-IsLatestFirst s [] h = (tt, tt)
insert_summary-IsLatestFirst s (x ∷ xs) (below, h) =
    elim (Bool-cases (leb x.updated_at s.updated_at)) [
      | inl e ↦
          let le : x.updated_at ≤ s.updated_at = leb→le _ _ e in
          rw e (
            (
              le,
              All-mono (λ y. y.updated_at ≤ x.updated_at) (λ y. y.updated_at ≤ s.updated_at)
                  (λ y k. omega arith) xs below,
            ),
            (below, h),
          )
      | inr e ↦ rw e (
        All-insert_summary (λ y. y.updated_at ≤ x.updated_at) s xs (ground arith) below,
        insert_summary-IsLatestFirst s xs h,
      )
    ]

sort_summaries-IsLatestFirst : (ss : List DialogSummary) → IsLatestFirst (sort_summaries ss)
unfolding sort_summaries
sort_summaries-IsLatestFirst [] = tt
sort_summaries-IsLatestFirst (s ∷ ss) =
    insert_summary-IsLatestFirst s (sort_summaries ss) (sort_summaries-IsLatestFirst ss)

All-sort_summaries {κ} :
    (P : DialogSummary → Type κ) (ss : List DialogSummary) → All P ss → All P (sort_summaries ss)
unfolding sort_summaries
All-sort_summaries P [] h = h
All-sort_summaries P (s ∷ ss) h =
    All-insert_summary P s (sort_summaries ss) h.0 (All-sort_summaries P ss h.1)

-- The summary is that of a stored dialog of the user that has messages.
abbrev pub IsOf : Uuid → Dict Uuid Dialog → DialogSummary → Type 0
IsOf owner_id dialogs s =
    (d : Dialog) × (lookup s.dialog_id dialogs ≡ some d)
    × (d.owner_id ≡ owner_id)
    × (d.messages ≢ [])
    × (s.title ≡ d.title)
    × (s.updated_at ≡ d.updated_at)

IsOf-cons :
    (owner_id k : Uuid) (d : Dialog) (ds : Dict Uuid Dialog) (s : DialogSummary)
    → lookup k ds ≡ none
    → IsOf owner_id ds s
    → IsOf owner_id ((k, d) ∷ ds) s
IsOf-cons owner_id k d ds s unused (e, stored, mine, some_message, title, time) =
    (e, ground arith, mine, some_message, title, time)

summaries-IsOf :
    (owner_id : Uuid) (ds : Dict Uuid Dialog)
    → IsUnique ds
    → All (IsOf owner_id ds) (summaries owner_id ds)
unfolding summaries
summaries-IsOf owner_id [] h = tt
summaries-IsOf owner_id ((k, d) ∷ ds) (unused, h) =
    let rest =
      All-mono (IsOf owner_id ds) (IsOf owner_id ((k, d) ∷ ds))
        (λ s. IsOf-cons owner_id k d ds s unused) (summaries owner_id ds)
        (summaries-IsOf owner_id ds h) in
    elim (Bool-cases ((d.owner_id == owner_id) && not (is_empty d.messages))) [
      | inl mine ↦ rw mine ((d, ground arith, ground arith, ground arith, refl, refl), rest)
      | inr skipped ↦ rw skipped rest
    ]

-- How many dialogs of the user have messages.
unfoldable pub count_dialogs : Uuid → Dict Uuid Dialog → ℕ
count_dialogs owner_id [] = 0
count_dialogs owner_id ((k, d) ∷ ds) =
    (if (d.owner_id == owner_id) && not (is_empty d.messages) then 1 else 0)
    + count_dialogs owner_id ds

length-summaries :
    (owner_id : Uuid) (ds : Dict Uuid Dialog)
    → length (summaries owner_id ds) ≡ count_dialogs owner_id ds
unfolding summaries count_dialogs
length-summaries owner_id [] = refl
length-summaries owner_id ((k, d) ∷ ds) = ground (arith, length-summaries owner_id ds)

length-insert_summary :
    (s : DialogSummary) (ss : List DialogSummary) → length (insert_summary s ss) ≡ suc (length ss)
unfolding insert_summary
length-insert_summary s [] = refl
length-insert_summary s (x ∷ xs) = ground (arith, length-insert_summary s xs)

length-sort_summaries : (ss : List DialogSummary) → length (sort_summaries ss) ≡ length ss
unfolding sort_summaries
length-sort_summaries [] = refl
length-sort_summaries (s ∷ ss) =
    length-insert_summary s (sort_summaries ss) ∙ ap suc (length-sort_summaries ss)

-- How often the dialog at an id is in the list of all: once if it is the user's and has messages.
abbrev pub times_listed : Uuid → Option Dialog → ℕ
times_listed owner_id none = 0
times_listed owner_id (some d) =
    if d.owner_id == owner_id then elim (d.messages) [ [] ↦ 0 | _ ∷ _ ↦ 1 ] else 0

abbrev pub times_shown : Uuid → List DialogSummary → ℕ
times_shown i ss = length (keep (λ s. s.dialog_id == i) ss)

times_shown-insert_summary :
    (i : Uuid) (s : DialogSummary) (ss : List DialogSummary)
    → times_shown i (insert_summary s ss) ≡ times_shown i (s ∷ ss)
unfolding insert_summary
times_shown-insert_summary i s [] = refl
times_shown-insert_summary i s (x ∷ xs) = ground (arith, times_shown-insert_summary i s xs)

times_shown-sort_summaries :
    (i : Uuid) (ss : List DialogSummary) → times_shown i (sort_summaries ss) ≡ times_shown i ss
unfolding sort_summaries
times_shown-sort_summaries i [] = refl
times_shown-sort_summaries i (s ∷ ss) =
    times_shown-insert_summary i s (sort_summaries ss)
    ∙ ground (arith, times_shown-sort_summaries i ss)

times_listed-not_empty :
    (owner_id : Uuid) (d : Dialog)
    → times_listed owner_id (some d)
      ≡ (if (d.owner_id == owner_id) && not (is_empty d.messages) then 1 else 0)
times_listed-not_empty owner_id d = go d.messages
  where
    go :
        (ms : List StoredMessage)
        → ◌≡◌ {A = ℕ}
            (if d.owner_id == owner_id then elim ms [ [] ↦ 0 | _ ∷ _ ↦ 1 ] else 0)
            (if (d.owner_id == owner_id) && not (is_empty ms) then 1 else 0)
    go [] = ground arith
    go (m ∷ ms) = ground arith

times_shown-summaries :
    (owner_id i : Uuid) (ds : Dict Uuid Dialog)
    → IsUnique ds
    → times_shown i (summaries owner_id ds) ≡ times_listed owner_id (lookup i ds)
unfolding summaries
times_shown-summaries owner_id i [] unique = refl
times_shown-summaries owner_id i ((k, d) ∷ ds) (unused, unique) =
    let rest = times_shown-summaries owner_id i ds unique in
    let listed = times_listed-not_empty owner_id d in
    elim (ℕ_discrete i k) [
      | yes same ↦
          let absent : times_shown i (summaries owner_id ds) ≡ 0 =
            rest ∙ ap (times_listed owner_id) (ap (λ j. lookup j ds) same ∙ unused) in
          let there : lookup i ((k, d) ∷ ds) ≡ some d = ground arith in
          rw (there, listed) (ground (arith, absent))
      | no differs ↦
          let skipped : lookup i ((k, d) ∷ ds) ≡ lookup i ds = ground arith in
          rw skipped (ground (arith, rest))
    ]

take-rest :
    (n : ℕ) (ss : List DialogSummary) → (rest : List DialogSummary) × (take n ss ++ rest ≡ ss)
take-rest zero ss = (ss, refl)
take-rest (suc n) [] = ([], refl)
take-rest (suc n) (s ∷ ss) = let (rest, e) = take-rest n ss in (rest, ap (◌∷◌ s) e)

-- A list of all dialogs of the user that have messages, each once, the latest updated first.
abbrev pub IsListing : Uuid → Dict Uuid Dialog → List DialogSummary → Type 0
IsListing owner_id dialogs ss =
    IsLatestFirst ss
    × All (IsOf owner_id dialogs) ss
    × ((i : Uuid) → times_shown i ss ≡ times_listed owner_id (lookup i dialogs))

-- The list is the beginning of a list of all the user's dialogs that have messages, each once, with
-- their titles, the latest updated first; it is all of that list, or as many as the limit allows.
pub list_dialogs_lem :
    (owner_id : Uuid) (limit : ℕ) (h : History)
    → IsUnique h.dialogs
    → let ss = list_dialogs owner_id limit h in
      ((rest : List DialogSummary) × IsListing owner_id h.dialogs (ss ++ rest))
      × (length ss ≡ min limit (count_dialogs owner_id h.dialogs))
unfolding list_dialogs
list_dialogs_lem owner_id limit h unique =
    let ss = summaries owner_id h.dialogs in
    let (rest, whole) = take-rest limit (sort_summaries ss) in
    let all : IsListing owner_id h.dialogs (sort_summaries ss) = (
      sort_summaries-IsLatestFirst ss,
      All-sort_summaries (IsOf owner_id h.dialogs) ss (summaries-IsOf owner_id h.dialogs unique),
      λ i. times_shown-sort_summaries i ss ∙ times_shown-summaries owner_id i h.dialogs unique,
    ) in
    (
      (rest, subst (IsListing owner_id h.dialogs) (sym whole) all),
      omega (
        arith,
        length-take limit (sort_summaries ss),
        length-sort_summaries ss,
        length-summaries owner_id h.dialogs,
      ),
    )
