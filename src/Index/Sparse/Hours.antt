-- ===== src/Index/Sparse/Hours.antt =====
-- The hour in a block ID.
use bbdb.Base.{
  ℕ, ◌%◌, ◌^◌, ◌<◌, ◌≡◌, ◌≢◌, refl, [], ◌∷◌, ◌++◌, some, arith, All, ok, inl, inr, ap, ◌∙◌, sym,
  append_assoc, subst, ok-injective,
}
use bbdb.Base.Int.{pos, pos_part, neg_part, ◌+ℤ◌, ◌≤ℤ◌, ◌<ℤ◌, IsI64}
use bbdb.Base.Bytes.{Bytes}
use bbdb.Calendar.{Instant, hour_nanos, Civil, civil_of, date, instant_of}
use bbdb.Calendar.RoundTrip.{civil_of-range, date-civil_of}
use bbdb.Calendar.Digits.{decimal, hexadecimal, decimal-ne, hexadecimal-ne_colon, atoi-decimal}
use bbdb.Meta.Keys.{block_id_from_shard_and_hour}
use bbdb.Block.Routing.{hour_text, block_id_for_shard}
use bbdb.Index.Sparse.{split_two, split_all, date_of, parse_block_hour}

pub split_two-append :
    (c : ℕ) (xs ys : Bytes) → All (λ b. b ≢ c) xs → split_two c (xs ++ c ∷ ys) ≡ some (xs, ys)
unfolding split_two
split_two-append c [] ys a = ground arith
split_two-append c (x ∷ xs) ys a = ground (arith, a.0, split_two-append c xs ys a.1)

split_all-none : (c : ℕ) (xs : Bytes) → All (λ b. b ≢ c) xs → split_all c xs ≡ xs ∷ []
unfolding split_all
split_all-none c [] a = refl
split_all-none c (x ∷ xs) a = ground (arith, a.0, split_all-none c xs a.1)

split_all-append :
    (c : ℕ) (xs ys : Bytes) → All (λ b. b ≢ c) xs → split_all c (xs ++ c ∷ ys) ≡ xs ∷ split_all c ys
unfolding split_all
split_all-append c [] ys a = ground arith
split_all-append c (x ∷ xs) ys a = ground (arith, a.0, split_all-append c xs ys a.1)

parse-parts :
    (id shard hour_str ymd hour : Bytes)
    → split_two b':' id ≡ some (shard, hour_str)
    → split_two b'T' hour_str ≡ some (ymd, hour)
    → parse_block_hour id ≡ date_of (split_all b'-' ymd) hour
unfolding parse_block_hour
parse-parts id shard hour_str ymd hour a b = ground (arith, a, b)

module _ (c : Civil) (year : c.year < 10 ^ 4) (month : c.month < 10 ^ 2) (day : c.day < 10 ^ 2)
    (hour : c.hour < 10 ^ 2) where
  ymd_parts :
      split_all b'-' (decimal 4 c.year ++ b'-' ∷ (decimal 2 c.month ++ b'-' ∷ decimal 2 c.day))
      ≡ decimal 4 c.year ∷ decimal 2 c.month ∷ decimal 2 c.day ∷ []
  ymd_parts =
      split_all-append b'-' (decimal 4 c.year) _ (decimal-ne b'-' 4 c.year (inl (omega arith)))
      ∙ ap (λ r. decimal 4 c.year ∷ r)
          (split_all-append b'-' (decimal 2 c.month) _
              (decimal-ne b'-' 2 c.month (inl (omega arith)))
            ∙ ap (λ r. decimal 2 c.month ∷ r)
                (split_all-none b'-' (decimal 2 c.day)
                  (decimal-ne b'-' 2 c.day (inl (omega arith)))))

  date_of-parts :
      date_of (decimal 4 c.year ∷ decimal 2 c.month ∷ decimal 2 c.day ∷ []) (decimal 2 c.hour)
      ≡ ok (date c.year c.month c.day (pos c.hour))
  unfolding date_of
  date_of-parts =
      rw
        (
          atoi-decimal 4 c.year (omega arith) year (omega arith),
          atoi-decimal 2 c.month (omega arith) month (omega arith),
          atoi-decimal 2 c.day (omega arith) day (omega arith),
          atoi-decimal 2 c.hour (omega arith) hour (omega arith),
        )
        refl

  All-append :
      (xs ys : Bytes)
      → All (λ b. b ≢ b'T') xs
      → All (λ b. b ≢ b'T') ys
      → All (λ b. b ≢ b'T') (xs ++ ys)
  All-append [] ys a b = b
  All-append (x ∷ xs) ys a b = (a.0, All-append xs ys a.1 b)

  no_T :
      All (λ b. b ≢ b'T') (decimal 4 c.year ++ b'-' ∷ (decimal 2 c.month ++ b'-' ∷ decimal 2 c.day))
  no_T = All-append (decimal 4 c.year) _ (decimal-ne b'T' 4 c.year (inr (omega arith))) (
    omega arith,
    All-append (decimal 2 c.month) _ (decimal-ne b'T' 2 c.month (inr (omega arith)))
        (omega arith, decimal-ne b'T' 2 c.day (inr (omega arith))),
  )

  -- An ID that was made of these fields is read back as their date.
  pub parse-hour_text :
      (shard : ℕ)
      → parse_block_hour (block_id_from_shard_and_hour shard (hour_text c))
        ≡ ok (date c.year c.month c.day (pos c.hour))
  unfolding block_id_from_shard_and_hour
  parse-hour_text shard =
      parse-parts _ (hexadecimal 4 shard) (hour_text c) _ _
        (split_two-append b':' (hexadecimal 4 shard) (hour_text c) (hexadecimal-ne_colon 4 shard))
        split_hour
      ∙ ap (λ ps. date_of ps (decimal 2 c.hour)) ymd_parts
      ∙ date_of-parts
    where
      regroup :
          hour_text c
          ≡ (decimal 4 c.year ++ b'-' ∷ (decimal 2 c.month ++ b'-' ∷ decimal 2 c.day))
            ++ b'T' ∷ decimal 2 c.hour
      regroup =
          unfold hour_text in
          sym (
            append_assoc (decimal 4 c.year) (b'-' ∷ (decimal 2 c.month ++ b'-' ∷ decimal 2 c.day))
              (b'T' ∷ decimal 2 c.hour)
            ∙ ap (λ r. decimal 4 c.year ++ b'-' ∷ r)
                (append_assoc (decimal 2 c.month) (b'-' ∷ decimal 2 c.day)
                  (b'T' ∷ decimal 2 c.hour)))

      split_hour :
          split_two b'T' (hour_text c)
          ≡ some (
            decimal 4 c.year ++ b'-' ∷ (decimal 2 c.month ++ b'-' ∷ decimal 2 c.day),
            decimal 2 c.hour,
          )
      split_hour = ap (split_two b'T') regroup ∙ split_two-append b'T' _ (decimal 2 c.hour) no_T

-- An hour of a date starts whole hours before or after the epoch.
date-whole_hours :
    (year month day hour : ℕ)
    → (pos_part (date year month day (pos hour)) % hour_nanos ≡ 0)
      × (neg_part (date year month day (pos hour)) % hour_nanos ≡ 0)
unfolding date instant_of
date-whole_hours year month day hour = (ground arith, ground arith)

-- What the ID of a block is read back as is the start of an hour.
pub parsed-whole_hours :
    (shard : ℕ) (t h : Instant)
    → IsI64 t
    → parse_block_hour (block_id_for_shard shard t) ≡ ok h
    → (pos_part h % hour_nanos ≡ 0) × (neg_part h % hour_nanos ≡ 0)
unfolding block_id_for_shard
parsed-whole_hours shard t h i parsed =
    let (year, month, day, hour) = civil_of-range t i in
    let c : Civil = civil_of t in
    subst (λ x. (pos_part x % hour_nanos ≡ 0) × (neg_part x % hour_nanos ≡ 0))
      (ok-injective (date c.year c.month c.day (pos c.hour)) h
        (sym (parse-hour_text c year month day hour shard) ∙ parsed))
      (date-whole_hours c.year c.month c.day c.hour)

-- The ID of a block names the hour of its instant: it is read back as an instant not after it and
-- less than an hour before it. The instant is an int64 of nanoseconds.
pub parse-block_id_for_shard :
    (shard : ℕ) (t : Instant)
    → IsI64 t
    → (h : Instant) × (parse_block_hour (block_id_for_shard shard t) ≡ ok h)
      × (h ≤ℤ t)
      × (t <ℤ h +ℤ pos hour_nanos)
unfolding block_id_for_shard
parse-block_id_for_shard shard t i =
    let (year, month, day, hour) = civil_of-range t i in
    let (not_after, within) = date-civil_of t i in
    (_, parse-hour_text (civil_of t) year month day hour shard, not_after, within)
