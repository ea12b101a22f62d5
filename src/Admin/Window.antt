-- ===== src/Admin/Window.antt =====
-- The buckets of the activity chart, and the users of the window.
use native.Mathlib.Nat.{mul-suc}
use bmstu_nirs.Common.{
  List, [], ap, arith, inl, inr, length, refl, subst, suc, ℕ, ◌*◌, ◌+◌, ◌∙◌, ◌∷◌, ◌≡◌, ◌≤◌, ◌⊎◌,
}
use bmstu_nirs.Admin.{
  ActivityPoint, AdminError, AdminStatsStore, StatsPeriod, Time, UserStats, UserStatsSnapshot,
  bucket_of, buckets, days, days_30, days_7, days_90, one_day, points_from, recent_users_limit,
  since_of, stats_of, user_stats,
}

-- The points begin at the first time, each where the one before it ends, and the last ends at the
-- second time.
abbrev pub IsTiling : Time → Time → Time → List ActivityPoint → Type 0
IsTiling bucket from to [] = from ≡ to
IsTiling bucket from to (p ∷ ps) = (p.start ≡ from) × IsTiling bucket (from + bucket) to ps

points_from-IsTiling :
    (since bucket index : ℕ) (ns : List ℕ)
    → IsTiling bucket
        (since + bucket * index)
        (since + bucket * (index + length ns))
        (points_from since bucket index ns)
unfolding points_from
points_from-IsTiling since bucket index [] = ap (λ n. since + bucket * n) (omega arith)
points_from-IsTiling since bucket index (n ∷ ns) =
    let next : index + 1 ≡ suc index = omega arith in
    let from : since + bucket * (index + 1) ≡ since + bucket * index + bucket =
      ap (λ k. since + bucket * k) next ∙ omega (arith, mul-suc bucket index) in
    let to : since + bucket * (index + 1 + length ns) ≡ since + bucket * (index + suc (length ns)) =
      ap (λ k. since + bucket * k) (omega arith) in
    (
      refl,
      subst
          (λ x.
            IsTiling bucket x (since + bucket * (index + suc (length ns)))
              (points_from since bucket (index + 1) ns))
          from
          (subst
            (λ y.
              IsTiling bucket (since + bucket * (index + 1)) y
                (points_from since bucket (index + 1) ns))
            to (points_from-IsTiling since bucket (index + 1) ns)),
    )

-- The buckets of a period fill its days.
window_lem :
    (now : Time) (period : StatsPeriod)
    → days period * one_day ≤ now
    → since_of now period + bucket_of period * (0 + buckets period) ≡ now
window_lem now days_7 h = omega arith
window_lem now days_30 h = omega arith
window_lem now days_90 h = omega arith

-- If the window does not begin before time does and the store counts as many buckets as it is asked
-- for, then the chart has that many points, the first begins with the window, each begins where the
-- one before it ends, and the last one ends now.
pub user_stats-IsTiling :
    (store : AdminStatsStore) (now : Time) (period : StatsPeriod) (r : UserStats)
    → days period * one_day ≤ now
    → ((since : Time) (limit : ℕ) (bucket : Time) (n : ℕ) (s : UserStatsSnapshot)
        → store since limit bucket n ≡ inr s
        → length s.activity ≡ n)
    → user_stats store now period ≡ inr r
    → (length r.activity ≡ buckets period)
      × IsTiling (bucket_of period) (since_of now period) now r.activity
unfolding user_stats
user_stats-IsTiling store now period r enough counts h =
    go (store since recent_users_limit bucket (buckets period)) refl h
  where
    since : Time
    since = since_of now period

    bucket : Time
    bucket = bucket_of period

    length_lem : (i : ℕ) (ns : List ℕ) → length (points_from since bucket i ns) ≡ length ns
    length_lem i [] = refl
    length_lem i (n ∷ ns) = ap (λ k. suc k) (length_lem (i + 1) ns)

    go :
        (x : AdminError ⊎ UserStatsSnapshot)
        → store since recent_users_limit bucket (buckets period) ≡ x
        → ◌≡◌ {A = AdminError ⊎ UserStats}
            (elim x [ inl e ↦ inl e | inr s ↦ inr (stats_of since period s) ])
            (inr r)
        → (length r.activity ≡ buckets period) × IsTiling bucket since now r.activity
    go (inl e) found h = cc
    go (inr s) found h =
        let is_r : stats_of since period s ≡ r = cc h in
        let size = counts since recent_users_limit bucket (buckets period) s found in
        subst (λ q. (length q.activity ≡ buckets period) × IsTiling bucket since now q.activity)
          is_r
          (
            length_lem 0 s.activity ∙ size,
            subst (λ y. IsTiling bucket since y (points_from since bucket 0 s.activity))
                (ap (λ n. since + bucket * (0 + n)) size ∙ window_lem now period enough)
                (subst
                  (λ x.
                    IsTiling bucket x (since + bucket * (0 + length s.activity))
                      (points_from since bucket 0 s.activity))
                  (omega arith) (points_from-IsTiling since bucket 0 s.activity)),
          )
