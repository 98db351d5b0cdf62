-- ===== src/Calendar.antt =====
-- The parts of Go's time and strconv packages that block IDs are made and read with: the UTC date and
-- hour of an instant, the instant of a date, decimal and hexadecimal digits.
pub mod Digits
pub mod RoundTrip
use bbdb.Base.{
  ℕ, zero, suc, ◌+◌, ◌-◌, ◌*◌, ◌/◌, ◌%◌, ◌^◌, ◌≡◌, List, [], ◌∷◌, ◌++◌, Bool, true, false, ◌&&◌,
  ◌||◌, not, min, ltb, leb, ◌==◌, if◌then◌else◌,
}
use bbdb.Base.Int.{ℤ, pos, negsuc, pos_part, neg_part, sub_ℕ}

-- An instant: nanoseconds since 1970 in UTC.
abbrev pub Instant : Type 0
Instant = ℤ

-- Days are counted from the 1st of January of the year -399, which starts a cycle of 400 years.
abbrev pub epoch_days : ℕ
epoch_days = 865259

abbrev pub hour_nanos : ℕ
hour_nanos = 3600 * 10 ^ 9

abbrev pub epoch_hours : ℕ
epoch_hours = epoch_days * 24

-- The whole hours from the start of the count to an instant.
unfoldable pub hours_of : Instant → ℕ
hours_of t = (epoch_hours * hour_nanos + pos_part t - neg_part t) / hour_nanos

-- The instant at which an hour of the count starts, moved by hours that may be negative.
unfoldable pub instant_of : ℕ → ℤ → Instant
instant_of hours more =
    sub_ℕ ((hours + pos_part more) * hour_nanos) ((epoch_hours + neg_part more) * hour_nanos)

-- The year `y - 399`.
abbrev pub is_leap : ℕ → Bool
is_leap y = let n = y + 1 in n % 4 == 0 && (not (n % 100 == 0) || n % 400 == 0)

-- The days before the year `y - 399`.
unfoldable pub days_before_year : ℕ → ℕ
days_before_year y = 365 * y + y / 4 - y / 100 + y / 400

unfoldable pub month_lengths : Bool → List ℕ
month_lengths leap =
    31 ∷ (if leap then 29 else 28) ∷ 31 ∷ 30 ∷ 31 ∷ 30 ∷ 31 ∷ 31 ∷ 30 ∷ 31 ∷ 30 ∷ 31 ∷ []

-- The days before the month at an index.
unfoldable pub days_before_month : List ℕ → ℕ → ℕ
days_before_month [] m = 0
days_before_month (l ∷ ls) zero = 0
days_before_month (l ∷ ls) (suc m) = l + days_before_month ls m

-- The month of a day of the year, from 0, and the day of the month, from 0.
unfoldable pub month_of : List ℕ → ℕ → ℕ × ℕ
month_of [] d = (0, d)
month_of (l ∷ ls) d =
    let rest = month_of ls (d - l) in if ltb d l then (0, d) else (suc (rest.0), rest.1)

pub record Civil : Type 0 where
  pub year : ℕ
  pub month : ℕ
  pub day : ℕ
  pub hour : ℕ

-- The cycles of 400, 100, 4 years and single years before a day, and what is left of the year.
unfoldable pub year_of_day : ℕ → ℕ × ℕ
year_of_day d =
    let r400 = d % 146097 in
    let c = min 3 (r400 / 36524) in
    let r100 = r400 - c * 36524 in
    let b = r100 / 1461 in
    let r4 = r100 % 1461 in
    let a = min 3 (r4 / 365) in (d / 146097 * 400 + c * 100 + b * 4 + a, r4 - a * 365)

-- The date and the hour. A year is given as `year`, not before the year 0.
unfoldable pub civil_of_hours : ℕ → Civil
unfolding year_of_day month_lengths month_of
civil_of_hours h =
    let (y, d) = year_of_day (h / 24) in
    let (m, e) = month_of (month_lengths (is_leap y)) d in
    record { year = y - 399; month = m + 1; day = e + 1; hour = h % 24 }

-- `t.Year()`, `t.Month()`, `t.Day()` and `t.Hour()` of an instant.
unfoldable pub civil_of : Instant → Civil
unfolding civil_of_hours hours_of
civil_of t = civil_of_hours (hours_of t)

-- The hours of the count before a date. A month beyond 12 counts on in the next years, month 0 is
-- December of the year before, and a day beyond its month counts on.
unfoldable pub date_hours : ℕ → ℕ → ℕ → ℕ
unfolding days_before_year month_lengths days_before_month
date_hours year month day =
    let months = (year + 399) * 12 + month - 1 in
    let y = months / 12 in
    let m = months % 12 in
    (days_before_year y + days_before_month (month_lengths (is_leap y)) m + day - 1) * 24

-- `time.Date(year, month, day, hour, 0, 0, 0, time.UTC)`, for numbers that stay within an int64.
unfoldable pub date : ℕ → ℕ → ℕ → ℤ → Instant
unfolding date_hours instant_of
date year month day hour = instant_of (date_hours year month day) hour
