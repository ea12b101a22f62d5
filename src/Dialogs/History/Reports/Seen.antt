-- ===== src/Dialogs/History/Reports/Seen.antt =====
-- Marking the news of reports as seen.
use bmstu_nirs.Common.{
  nat_key, Bool, Dict, List, Option, Option-cases, [], any, arith, false, if◌then◌else◌, inl, inr,
  lookup, lookup-insert, none, refl, some, true, ℕ, ℕ_discrete, ◌==◌, ◌∷◌, ◌≡◌,
}
use bmstu_nirs.Dialogs.Models.{Time, Uuid}
use bmstu_nirs.Dialogs.History.{History, StoredReport}
use bmstu_nirs.Dialogs.History.Reports.{
  id_set, is_news, mark_all, mark_report_news_seen, marked, store_marked,
}

module _ (owner_id : Uuid) where
  -- The report at an id is news to the user.
  abbrev pub news_at : ℕ → Dict ℕ StoredReport → Bool
  news_at n reports = elim (lookup n reports) [ none ↦ false | some r ↦ is_news owner_id r ]

  store-news_at :
      (now : Time) (n k : ℕ) (reports : Dict ℕ StoredReport)
      → news_at k (store_marked n (marked owner_id now (lookup n reports)) reports)
        ≡ (if k == n then false else news_at k reports)
  store-news_at now n k reports = elim (Option-cases (lookup n reports)) [
    | inl missing ↦ ground arith
    | inr (r, present) ↦ ground (arith, lookup-insert k n (record r { seen_at = some now }) reports)
  ]

  mark_all-old :
      (now : Time) (k : ℕ) (ns : List ℕ) (reports : Dict ℕ StoredReport)
      → news_at k reports ≡ false
      → news_at k (mark_all owner_id now ns reports).1 ≡ false
  unfolding mark_all
  mark_all-old now k [] reports old = old
  mark_all-old now k (n ∷ ns) reports old =
      mark_all-old now k ns (store_marked n (marked owner_id now (lookup n reports)) reports)
        (ground (arith, store-news_at now n k reports))

  mark_all-seen :
      (now : Time) (k : ℕ) (ns : List ℕ) (reports : Dict ℕ StoredReport)
      → any (λ n. n == k) ns ≡ true
      → news_at k (mark_all owner_id now ns reports).1 ≡ false
  unfolding mark_all
  mark_all-seen now k [] reports there = cc
  mark_all-seen now k (n ∷ ns) reports there =
      let reports' = store_marked n (marked owner_id now (lookup n reports)) reports in
      elim (ℕ_discrete n k) [
        | yes same ↦ mark_all-old now k ns reports' (ground (arith, store-news_at now n k reports))
        | no differs ↦ mark_all-seen now k ns reports' (ground arith)
      ]

  marked-old :
      (now : Time) (o : Option StoredReport)
      → elim o [ none ↦ false | some r ↦ is_news owner_id r ] ≡ false
      → marked owner_id now o ≡ none
  marked-old now none h = refl
  marked-old now (some r) h = ground arith

  mark_all-none :
      (now : Time) (ns : List ℕ) (reports : Dict ℕ StoredReport)
      → ((k : ℕ) → any (λ n. n == k) ns ≡ true → news_at k reports ≡ false)
      → mark_all owner_id now ns reports ≡ (0, reports)
  unfolding mark_all
  mark_all-none now [] reports old = refl
  mark_all-none now (n ∷ ns) reports old =
      let e = marked-old now (lookup n reports) (old n (ground arith)) in
      let rest = mark_all-none now ns reports (λ k there. old k (ground arith)) in rw e (rw rest)

  -- Reports that were marked as seen are news no more: marking the same ids again, in whatever order,
  -- marks nothing and changes nothing.
  pub mark_again :
      (ids ids' : List ℕ) (now now' : Time) (h : History)
      → ((k : ℕ) → any (λ n. n == k) (id_set ids') ≡ true → any (λ n. n == k) (id_set ids) ≡ true)
      → let h' = (mark_report_news_seen owner_id ids now h).1 in
        mark_report_news_seen owner_id ids' now' h' ≡ (0, h')
  unfolding mark_report_news_seen
  mark_again ids ids' now now' h among =
      let reports' = (mark_all owner_id now (id_set ids) h.reports).1 in
      let none_left =
        mark_all-none now' (id_set ids') reports'
          (λ k there. mark_all-seen now k (id_set ids) h.reports (among k there)) in
      rw none_left
