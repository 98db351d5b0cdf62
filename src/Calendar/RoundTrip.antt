-- ===== src/Calendar/RoundTrip.antt =====
-- The date of an instant, and back.
use bbdb.Base.{
  ℕ, ◌+◌, ◌-◌, ◌*◌, ◌/◌, ◌%◌, ◌^◌, ◌≤◌, ◌<◌, ◌≡◌, refl, List, [], ◌∷◌, Bool, true, false, arith,
  min, ltb, if◌then◌else◌, Bool-cases, inl, inr, ap, ◌⊎◌, length, subst, All,
}
use native.Mathlib.Decide.{dec_lt}
use bbdb.Base.Int.{◌+ℤ◌, ◌≤ℤ◌, ◌<ℤ◌, pos, negsuc, pos_part, neg_part, sub_ℕ, IsI64}
use bbdb.Calendar.{
  Instant, epoch_hours, hour_nanos, hours_of, instant_of, is_leap, days_before_year, month_lengths,
  days_before_month, month_of, year_of_day, civil_of_hours, civil_of, date_hours, date,
}

abbrev total_days : List ℕ → ℕ
total_days [] = 0
total_days (l ∷ ls) = l + total_days ls

-- A day of the year is the days before its month and the day of the month.
days_before-month_of :
    (ls : List ℕ) (d : ℕ)
    → d < total_days ls
    → days_before_month ls (month_of ls d).0 + (month_of ls d).1 ≡ d
unfolding days_before_month month_of
days_before-month_of [] d h = omega arith
days_before-month_of (l ∷ ls) d h = elim (Bool-cases (ltb d l)) [
  | inl t ↦ ground (arith, t)
  | inr f ↦ ground (arith, f, days_before-month_of ls (d - l))
]

days_before_year-of :
    (q c b a : ℕ)
    → c < 4
    → b < 25
    → a < 4
    → days_before_year (q * 400 + c * 100 + b * 4 + a) ≡ q * 146097 + c * 36524 + b * 1461 + a * 365
unfolding days_before_year
days_before_year-of q c b a hc hb ha = omega arith

-- A day splits into cycles of 400, 100, 4 years and single years, the year ends with its last day,
-- and the last day of a leap year is in it.
record IsSplit (d q c b a e : ℕ) : Type 0 where
  hundreds : c < 4
  fours : b < 25
  ones : a < 4
  whole : q * 146097 + c * 36524 + b * 1461 + a * 365 + e ≡ d
  common : e < 366
  last : e ≡ 365 → (a ≡ 3) × ((b < 24) ⊎ (c ≡ 3))

IsSplit-day :
    (d q r c s b u a e : ℕ)
    → q ≡ d / 146097
    → r ≡ d % 146097
    → c ≡ min 3 (r / 36524)
    → s ≡ r - c * 36524
    → b ≡ s / 1461
    → u ≡ s % 1461
    → a ≡ min 3 (u / 365)
    → e ≡ u - a * 365
    → IsSplit d q c b a e
IsSplit-day d q r c s b u a e hq hr hc hs hb hu ha he = record {
  hundreds = omega arith;
  fours = omega arith;
  ones = omega arith;
  whole = omega arith;
  common = omega arith;
  last = λ l. (omega arith, elim (dec_lt b 24) [ yes h ↦ inl h | no h ↦ inr (omega arith) ]);
}

IsSplit-of :
    (d : ℕ)
    → (q : ℕ) × (c : ℕ) × (b : ℕ) × (a : ℕ) × IsSplit d q c b a (year_of_day d).1
      × ((year_of_day d).0 ≡ q * 400 + c * 100 + b * 4 + a)
unfolding year_of_day
IsSplit-of d =
    (_, _, _, _, IsSplit-day d _ _ _ _ _ _ _ _ refl refl refl refl refl refl refl refl, refl)

-- A day is the days before its year and the day of the year.
days_before-year_of_day : (d : ℕ) → days_before_year (year_of_day d).0 + (year_of_day d).1 ≡ d
days_before-year_of_day d =
    let (q, c, b, a, v, e) = IsSplit-of d in
    omega
      (arith, ap days_before_year e, days_before_year-of q c b a v.hundreds v.fours v.ones, v.whole)

total_lengths : (leap : Bool) → total_days (month_lengths leap) ≡ (if leap then 366 else 365)
unfolding month_lengths
total_lengths true = refl
total_lengths false = refl

leap_last :
    (q c b a : ℕ)
    → c < 4
    → b < 25
    → a ≡ 3
    → (b < 24) ⊎ (c ≡ 3)
    → is_leap (q * 400 + c * 100 + b * 4 + a) ≡ true
leap_last q c b a hc hb ha (inl h) = ground arith
leap_last q c b a hc hb ha (inr h) = ground arith

-- The day of the year is in the year.
day_of_year-lt :
    (d : ℕ) → (year_of_day d).1 < total_days (month_lengths (is_leap (year_of_day d).0))
day_of_year-lt d =
    let (q, c, b, a, v, e) = IsSplit-of d in
    elim (dec_lt (year_of_day d).1 365) [
      | yes h ↦ at_most (is_leap (year_of_day d).0) h
      | no ge ↦
          let (three, le) = v.last (omega (arith, v.common)) in
          ground (
            arith,
            v.common,
            ap is_leap e,
            leap_last q c b a v.hundreds v.fours three le,
            total_lengths (is_leap (year_of_day d).0),
          )
    ]
  where
    at_most :
        (leap : Bool)
        → (year_of_day d).1 < 365
        → (year_of_day d).1 < total_days (month_lengths leap)
    at_most true h = omega (arith, total_lengths true)
    at_most false h = omega (arith, total_lengths false)

month_of-lt : (ls : List ℕ) (d : ℕ) → d < total_days ls → (month_of ls d).0 < length ls
unfolding month_of
month_of-lt [] d h = omega arith
month_of-lt (l ∷ ls) d h = elim (Bool-cases (ltb d l)) [
  | inl t ↦ ground (arith, t)
  | inr f ↦ ground (arith, f, month_of-lt ls (d - l))
]

length-month_lengths : (leap : Bool) → length (month_lengths leap) ≡ 12
unfolding month_lengths
length-month_lengths leap = refl

-- The months of years are counted through.
date_hours-of :
    (y m d : ℕ)
    → 399 ≤ y
    → m < 12
    → date_hours (y - 399) (m + 1) (d + 1)
      ≡ (days_before_year y + days_before_month (month_lengths (is_leap y)) m + d) * 24
unfolding date_hours
date_hours-of y m d hy hm =
    let months : (y - 399 + 399) * 12 + (m + 1) - 1 ≡ y * 12 + m = omega arith in
    let years : ((y - 399 + 399) * 12 + (m + 1) - 1) / 12 ≡ y = omega arith in
    let rest : ((y - 399 + 399) * 12 + (m + 1) - 1) % 12 ≡ m = omega arith in
    rw (years, rest) (omega arith)

-- The hours before the date of an hour, and its hour of the day.
pub date-civil_of_hours :
    (h : ℕ)
    → 399 ≤ (year_of_day (h / 24)).0
    → date_hours (civil_of_hours h).year (civil_of_hours h).month (civil_of_hours h).day
        + (civil_of_hours h).hour
      ≡ h
unfolding civil_of_hours
date-civil_of_hours h big =
    let y : ℕ = (year_of_day (h / 24)).0 in
    let d : ℕ = (year_of_day (h / 24)).1 in
    let ls : List ℕ = month_lengths (is_leap y) in
    omega (
      arith,
      date_hours-of y (month_of ls d).0 (month_of ls d).1 big (
          subst (λ n. (month_of ls d).0 < n) (length-month_lengths (is_leap y))
            (month_of-lt ls d (day_of_year-lt (h / 24)))),
      days_before-month_of ls d (day_of_year-lt (h / 24)),
      days_before-year_of_day (h / 24),
    )

year_of_day-range :
    (d : ℕ) → 758000 ≤ d → d < 973000 → (399 ≤ (year_of_day d).0) × ((year_of_day d).0 < 10399)
year_of_day-range d lo hi =
    let (q, c, b, a, v, e) = IsSplit-of d in
    (omega (arith, e, v.whole, v.common), omega (arith, e, v.whole, v.common))

-- The days on which an int64 of nanoseconds falls.
days_of-range : (t : Instant) → IsI64 t → (758000 ≤ hours_of t / 24) × (hours_of t / 24 < 973000)
unfolding hours_of
days_of-range t i = (omega (arith, i.0, i.1), omega (arith, i.0, i.1))

month_of-day :
    (ls : List ℕ) (d : ℕ) → All (λ l. l ≤ 31) ls → d < total_days ls → (month_of ls d).1 < 31
unfolding month_of
month_of-day [] d a h = omega arith
month_of-day (l ∷ ls) d a h = elim (Bool-cases (ltb d l)) [
  | inl t ↦ ground (arith, t, a.0)
  | inr f ↦ ground (arith, f, month_of-day ls (d - l) a.1)
]

at_most_31 : (leap : Bool) → All (λ l. l ≤ 31) (month_lengths leap)
unfolding month_lengths
at_most_31 true = ground arith
at_most_31 false = ground arith

-- The fields of the instants of an int64 have few digits.
pub civil_of-range :
    (t : Instant)
    → IsI64 t
    → ((civil_of t).year < 10 ^ 4)
      × ((civil_of t).month < 10 ^ 2)
      × ((civil_of t).day < 10 ^ 2)
      × ((civil_of t).hour < 10 ^ 2)
unfolding civil_of civil_of_hours
civil_of-range t i =
    let (lo, hi) = days_of-range t i in
    let d : ℕ = hours_of t / 24 in
    let y : ℕ = (year_of_day d).0 in
    let inside = day_of_year-lt d in
    (
      omega (arith, (year_of_day-range d lo hi).1),
      omega (
        arith,
        month_of-lt (month_lengths (is_leap y)) (year_of_day d).1 inside,
        length-month_lengths (is_leap y),
      ),
      omega
          (arith, month_of-day (month_lengths (is_leap y)) (year_of_day d).1 (at_most_31 _) inside),
      omega arith,
    )

hour_around :
    (t : Instant) (h : ℕ)
    → h * hour_nanos + neg_part t ≤ epoch_hours * hour_nanos + pos_part t
    → epoch_hours * hour_nanos + pos_part t < h * hour_nanos + hour_nanos + neg_part t
    → (sub_ℕ (h * hour_nanos) (epoch_hours * hour_nanos) ≤ℤ t)
      × (t <ℤ sub_ℕ (h * hour_nanos) (epoch_hours * hour_nanos) +ℤ pos hour_nanos)
unfolding ◌+ℤ◌
hour_around (pos n) h lo hi = ground arith
hour_around (negsuc n) h lo hi = ground arith

hours_of-around :
    (t : Instant)
    → IsI64 t
    → (hours_of t * hour_nanos + neg_part t ≤ epoch_hours * hour_nanos + pos_part t)
      × (epoch_hours * hour_nanos + pos_part t < hours_of t * hour_nanos + hour_nanos + neg_part t)
unfolding hours_of
hours_of-around t i = (omega (arith, i.0, i.1), omega (arith, i.0, i.1))

-- The date and hour of an instant are those of the start of the hour that it lies in.
pub date-civil_of :
    (t : Instant)
    → IsI64 t
    → (date (civil_of t).year (civil_of t).month (civil_of t).day (pos (civil_of t).hour) ≤ℤ t)
      × (t
          <ℤ date (civil_of t).year (civil_of t).month (civil_of t).day (pos (civil_of t).hour)
            +ℤ pos hour_nanos)
unfolding civil_of date instant_of
date-civil_of t i =
    let (lo, hi) = days_of-range t i in
    let back = date-civil_of_hours (hours_of t) (year_of_day-range (hours_of t / 24) lo hi).0 in
    rw back (hour_around t (hours_of t) (hours_of-around t i).0 (hours_of-around t i).1)
