-- ===== src/Analytics/Trends.antt =====
-- getWindow, getCreatedTrend, getResolvedTrend and buildDailyVolume of
-- apps/api/src/analytics/analytics.service.ts.
use opsdesk.Base.{
  leb, ◌==◌, find_many, ℕ, zero, suc, ◌+◌, ◌-◌, ◌*◌, ◌/◌, Bool, false, ◌&&◌, Option, none, some,
  List, [], ◌∷◌, option_eq, nat_eq,
}
use opsdesk.Enums.{ticket_status_eq}
use opsdesk.State.{State}
use opsdesk.Analytics.Groups.{group_by, written}

pub data AnalyticsRange : Type 0 where
  last_7_days last_30_days last_90_days : AnalyticsRange

abbrev pub range_days : AnalyticsRange → ℕ
range_days last_7_days = 7
range_days last_30_days = 30
range_days last_90_days = 90

abbrev pub day_ms : ℕ
day_ms = 86400000

-- the UTC day of an instant
abbrev pub day_of : ℕ → ℕ
day_of t = t / day_ms

pub record Window : Type 0 where
  pub from : ℕ
  pub to : ℕ
  pub days : ℕ

unfoldable pub get_window : AnalyticsRange → ℕ → Window
get_window range now = record {
  from = (day_of now - (range_days range - 1)) * day_ms;
  to = now;
  days = range_days range;
}

abbrev pub is_within : ℕ → ℕ → ℕ → Bool
is_within from to t = leb from t && leb t to

-- `"createdAt"::date` with its count; the order of the rows is lost in a map
unfoldable pub get_created_trend : ℕ → ℕ → ℕ → State → List (ℕ × ℕ)
get_created_trend org from to w =
    group_by (λ t. day_of t.created_at)
      (find_many (λ t. (t.organization_id == org) && is_within from to t.created_at) w.tickets)

abbrev pub is_resolved_within : ℕ → ℕ → Option ℕ → Bool
is_resolved_within from to none = false
is_resolved_within from to (some t) = is_within from to t

-- the day of a resolved ticket
abbrev pub resolved_day : Option ℕ → ℕ
resolved_day none = 0
resolved_day (some t) = day_of t

unfoldable pub get_resolved_trend : ℕ → ℕ → ℕ → State → List (ℕ × ℕ)
get_resolved_trend org from to w =
    group_by (λ t. resolved_day t.resolved_at)
      (find_many (λ t. (t.organization_id == org) && is_resolved_within from to t.resolved_at)
        w.tickets)

pub record DailyVolume : Type 0 where
  pub date : ℕ
  pub created : ℕ
  pub resolved : ℕ

-- the days from one on
abbrev pub volumes_from : (ℕ → ℕ) → (ℕ → ℕ) → ℕ → ℕ → List DailyVolume
volumes_from created resolved date zero = []
volumes_from created resolved date (suc n) =
    record { date = date; created = created date; resolved = resolved date }
    ∷ volumes_from created resolved (suc date) n

unfoldable pub build_daily_volume : ℕ → ℕ → List (ℕ × ℕ) → List (ℕ × ℕ) → List DailyVolume
build_daily_volume from days created_rows resolved_rows =
    volumes_from (written (λ d. 0) created_rows) (written (λ d. 0) resolved_rows) (day_of from) days

-- `reduce` of the counts
abbrev pub total_of : {K : Type 0} → List (K × ℕ) → ℕ
total_of [] = 0
total_of (g ∷ gs) = g.1 + total_of gs
