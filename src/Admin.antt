-- ===== src/Admin.antt =====
-- backend/src/smeshariki_ai/admin: the figures and the reports that an administrator sees. The stores
-- are counted by SQL (backend/src/smeshariki_ai/db) and are arguments; logging is left out. Times are
-- whole microseconds from a point that is further back than any window.
pub mod Window
mod Tests
use bmstu_nirs.Common.{
  Bool, List, Option, String, [], if◌then◌else◌, inl, inr, leb, map, none, some, ℕ, ◌*◌, ◌+◌, ◌-◌,
  ◌/◌, ◌∷◌, ◌⊎◌,
}
use bmstu_nirs.Auth.Models.{Role}
use bmstu_nirs.Dialogs.Models.{ReportReason}

abbrev pub Time : Type 0
Time = ℕ

-- `timedelta(days=1)`
abbrev pub one_day : Time
one_day = 86_400_000_000

pub data StatsPeriod : Type 0 where
  days_7 days_30 days_90 : StatsPeriod

abbrev pub days : StatsPeriod → ℕ
days days_7 = 7
days days_30 = 30
days days_90 = 90

abbrev pub buckets : StatsPeriod → ℕ
buckets days_7 = 7
buckets days_30 = 10
buckets days_90 = 9

pub data UserStatus : Type 0 where
  new_user active_user inactive_user : UserStatus

pub record RecentUser : Type 0 where
  pub id : ℕ
  pub login : String
  pub role : Role
  pub registered_at : Time
  pub last_active_at : Option Time
  pub dialogs : ℕ

pub record FeedbackStats : Type 0 where
  pub answers_total : ℕ
  pub rated_answers : ℕ
  pub counts : List ℕ

pub record UserStatsSnapshot : Type 0 where
  pub users_total : ℕ
  pub new_users : ℕ
  pub active_users : ℕ
  pub recent_users : List RecentUser
  pub feedback : FeedbackStats
  pub reports_new : ℕ
  pub dialogs : ℕ
  pub messages : ℕ
  pub activity : List ℕ

pub record RecentUserStats : Type 0 where
  pub user : RecentUser
  pub status : UserStatus

pub record ActivityPoint : Type 0 where
  pub start : Time
  pub dialogs : ℕ

pub record UserStats : Type 0 where
  pub period : StatsPeriod
  pub users_total : ℕ
  pub new_users : ℕ
  pub active_users : ℕ
  pub recent_users : List RecentUserStats
  pub feedback : FeedbackStats
  pub reports_new : ℕ
  pub dialogs : ℕ
  pub messages : ℕ
  pub activity : List ActivityPoint

pub data ReportStatus : Type 0 where
  new_report resolved_report dismissed_report : ReportStatus

pub record MessageReport : Type 0 where
  pub id : ℕ
  pub reason : ReportReason
  pub comment : Option String
  pub request_text : Option String
  pub answer_text : String
  pub status : ReportStatus
  pub created_at : Time
  pub resolved_at : Option Time
  pub dialog_deleted : Bool

-- `AdminStatsUnavailableError`, `ReportNotFoundError`
pub data AdminError : Type 0 where
  stats_unavailable report_not_found : AdminError

-- `AdminStatsStore`: the start of the window, the limit of recent users, and the length and the
-- number of the buckets.
abbrev pub AdminStatsStore : Type 0
AdminStatsStore = Time → ℕ → Time → ℕ → AdminError ⊎ UserStatsSnapshot

-- `ReportStore` on a state of the database.
pub record ReportStore {ℓ} (S : Type ℓ) : Type ℓ where
  pub list_reports : Option ReportStatus → ℕ → S → AdminError ⊎ List MessageReport
  pub set_status : ℕ → ReportStatus → ℕ → S → (AdminError ⊎ Unit {0}) × S

abbrev pub recent_users_limit : ℕ
recent_users_limit = 5

abbrev pub reports_limit : ℕ
reports_limit = 50

-- `_status`
unfoldable pub status_of : Time → RecentUser → UserStatus
status_of since u = if leb since u.registered_at then new_user else elim (u.last_active_at) [
  | none ↦ inactive_user
  | some at ↦ if leb since at then active_user else inactive_user
]

abbrev pub since_of : Time → StatsPeriod → Time
since_of now period = now - days period * one_day

abbrev pub bucket_of : StatsPeriod → Time
bucket_of period = days period * one_day / buckets period

-- `ActivityPoint(start=since + bucket * index, dialogs=count)` for each, from an index on.
unfoldable pub points_from : Time → Time → ℕ → List ℕ → List ActivityPoint
points_from since bucket index [] = []
points_from since bucket index (n ∷ ns) =
    record { start = since + bucket * index; dialogs = n } ∷ points_from since bucket (index + 1) ns

-- `UserStats` of a snapshot.
unfoldable pub stats_of : Time → StatsPeriod → UserStatsSnapshot → UserStats
unfolding points_from status_of
stats_of since period s = record {
  period = period;
  users_total = s.users_total;
  new_users = s.new_users;
  active_users = s.active_users;
  recent_users = map (λ u. record { user = u; status = status_of since u }) s.recent_users;
  feedback = s.feedback;
  reports_new = s.reports_new;
  dialogs = s.dialogs;
  messages = s.messages;
  activity = points_from since (bucket_of period) 0 s.activity;
}

unfoldable pub user_stats : AdminStatsStore → Time → StatsPeriod → AdminError ⊎ UserStats
unfolding stats_of
user_stats store now period =
    let since = since_of now period in
    elim (store since recent_users_limit (bucket_of period) (buckets period)) [
      | inl e ↦ inl e
      | inr s ↦ inr (stats_of since period s)
    ]

-- `AdminReportsService`
unfoldable pub list_reports {ℓ} :
    {S : Type ℓ} → ReportStore S → Option ReportStatus → S → AdminError ⊎ List MessageReport
list_reports store status s = store.list_reports status reports_limit s

unfoldable pub set_status {ℓ} :
    {S : Type ℓ} → ReportStore S → ℕ → ReportStatus → ℕ → S → (AdminError ⊎ Unit {0}) × S
set_status store report_id status admin_id s = store.set_status report_id status admin_id s
