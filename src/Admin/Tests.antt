-- ===== src/Admin/Tests.antt =====
-- The statistics of a week at a concrete time.
use bmstu_nirs.Common.{
  List, [], ap, arith, inr, length, map, refl, some, suc, sym, zero, ℕ, ◌*◌, ◌∙◌, ◌∷◌, ◌≡◌,
}
use bmstu_nirs.Auth.Models.{Time, user_role}
use bmstu_nirs.Admin.{
  AdminStatsStore, UserStatsSnapshot, active_user, days_7, one_day, stats_of, user_stats,
}
use bmstu_nirs.Admin.Window.{IsTiling, user_stats-IsTiling}

abbrev zeros : ℕ → List ℕ
zeros zero = []
zeros (suc n) = 0 ∷ zeros n

length-zeros : (n : ℕ) → length (zeros n) ≡ n
length-zeros zero = refl
length-zeros (suc n) = ap (λ k. suc k) (length-zeros n)

-- A store with one user, who registered at day 100, and no stories.
abbrev quiet_snapshot : ℕ → UserStatsSnapshot
quiet_snapshot n = record {
  users_total = 1;
  new_users = 0;
  active_users = 1;
  recent_users =
      record {
        id = 1;
        login = "alice";
        role = user_role;
        registered_at = 100 * one_day;
        last_active_at = some (199 * one_day);
        dialogs = 0;
      }
      ∷ [];
  feedback = record { answers_total = 0; rated_answers = 0; counts = 0 ∷ 0 ∷ 0 ∷ 0 ∷ 0 ∷ [] };
  reports_new = 0;
  dialogs = 0;
  messages = 0;
  activity = zeros n;
}

abbrev quiet_store : AdminStatsStore
quiet_store since limit bucket n = inr (quiet_snapshot n)

quiet_store-counts :
    (since : Time) (limit : ℕ) (bucket : Time) (n : ℕ) (s : UserStatsSnapshot)
    → quiet_store since limit bucket n ≡ inr s
    → length s.activity ≡ n
quiet_store-counts since limit bucket n s h =
    let is_s : quiet_snapshot n ≡ s = cc h in
    ap (λ q. length q.activity) (sym is_s) ∙ length-zeros n

user_stats-IsTiling_example :
    let r = stats_of (193 * one_day) days_7 (quiet_snapshot 7) in
    (length r.activity ≡ 7) × IsTiling one_day (193 * one_day) (200 * one_day) r.activity
unfolding user_stats
user_stats-IsTiling_example =
    user_stats-IsTiling quiet_store (200 * one_day) days_7
      (stats_of (193 * one_day) days_7 (quiet_snapshot 7)) (omega arith) quiet_store-counts refl

status_run :
    map (λ u. u.status) (stats_of (193 * one_day) days_7 (quiet_snapshot 7)).recent_users
    ≡ active_user ∷ []
unfolding stats_of
status_run = refl
