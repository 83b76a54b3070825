-- ===== src/Cron/Times.antt =====
-- internal/cron/cron.go: `parseSchedule`, `parseField` and `schedule.next`. A time is the number of
-- nanoseconds since Go's zero time in UTC, where every day has 24 hours.
use mouse.Prelude.Int.{pos, negsuc}
use mouse.Prelude.{ltb→lt, ◌∷◌}
use mouse.Prelude.{
  inr, inl, arith, Bool-cases, ◌||◌, some, [], none, ◌++◌, err, ltb, ◌≢◌, refl, ok, ◌+◌,
  if◌then◌else◌, Result, ◌<◌, ◌≡◌, ◌%◌, ◌/◌, ◌*◌, Text, List, ℕ, text_eq, codes, ◌≤◌,
}
use mouse.Strings.{fields}
use mouse.Strings.Decimal.{atoi}

pub record Schedule : Type 0 where
  pub minute : ℕ
  pub hour : ℕ

-- `parseField`, whose bounds are not negative here; the text of `Atoi`'s own error is left out.
parse_field : Text → ℕ → ℕ → Result ℕ
unfolding text_eq
parse_field value low high = if text_eq value (codes "*") then ok low else elim (atoi value) [
  | none ↦ err []
  | some (pos n) ↦ if ltb n low || ltb high n then err (codes "out of range") else ok n
  | some (negsuc _) ↦ err (codes "out of range")
]

parse_hour : ℕ → Text → Result Schedule
unfolding parse_field
parse_hour minute value = elim (parse_field value 0 23) [
  | ok hour ↦ ok (record { minute = minute; hour = hour })
  | err e ↦ err (codes "hour: " ++ e)
]

-- `parseSchedule`, behind `strings.Fields`
parse_parts : List Text → Result Schedule
unfolding parse_hour
parse_parts (m ∷ h ∷ rest) = elim (parse_field m 0 59) [
  | ok minute ↦ parse_hour minute h
  | err e ↦ err (codes "minute: " ++ e)
]
parse_parts parts = err (codes "cron: invalid expression")

unfoldable pub parse_schedule : Text → Result Schedule
unfolding parse_parts
parse_schedule expr = parse_parts (fields expr)

abbrev pub minute_length : ℕ
minute_length = 60 * 1000000000

abbrev pub day_length : ℕ
day_length = 24 * 60 * minute_length

-- `schedule.next`: today at the hour and minute, or a day later if that is not after `now`.
unfoldable pub next : Schedule → ℕ → ℕ
next s now =
    let today = now / day_length * day_length + (s.hour * 60 + s.minute) * minute_length in
    if ltb now today then today else today + day_length

-- The minute of the day that a time falls into.
abbrev pub minute_of_day : ℕ → ℕ
minute_of_day time = time % day_length / minute_length

parse_tests :
    (parse_schedule (codes "30 7 * * *") ≡ ok (record { minute = 30; hour = 7 }))
    × (parse_schedule (codes "60 7") ≡ err (codes "minute: out of range"))
    × (parse_schedule (codes "5 24") ≡ err (codes "hour: out of range"))
    × (parse_schedule (codes "5") ≡ err (codes "cron: invalid expression"))
unfolding parse_schedule fields atoi
parse_tests = (refl, refl, refl, refl)

-- The schedule `* * * * *` is the schedule `0 0`: once a day, at midnight.
star_test : parse_schedule (codes "* * * * *") ≡ parse_schedule (codes "0 0")
unfolding parse_schedule fields atoi
star_test = refl

abbrev pub InRange : Schedule → Type 0
InRange s = (s.minute ≤ 59) × (s.hour ≤ 23)

parse_field-bound : (value : Text) (high n : ℕ) → parse_field value 0 high ≡ ok n → n ≤ high
unfolding parse_field
parse_field-bound value high n h = ground arith

parse_parts-InRange : (parts : List Text) (s : Schedule) → parse_parts parts ≡ ok s → InRange s
unfolding parse_parts
parse_parts-InRange parts s h = grind (arith, parse_field-bound)

-- A schedule that the parser accepts has a minute below 60 and an hour below 24.
pub parse_schedule-InRange : (expr : Text) (s : Schedule) → parse_schedule expr ≡ ok s → InRange s
unfolding parse_schedule
parse_schedule-InRange expr s h = parse_parts-InRange (fields expr) s h

-- The first time after `now` at the place `at` of a day.
abbrev first_after : ℕ → ℕ → ℕ
first_after at now =
    let today = now / day_length * day_length + at in
    if ltb now today then today else today + day_length

today-first :
    (q at now : ℕ)
    → at < day_length
    → q * day_length ≤ now
    → now < q * day_length + at
    → (t' : ℕ) → now < t'
    → t' < q * day_length + at
    → t' % day_length ≢ at
today-first q at now h start today t' after before e = omega arith

tomorrow-first :
    (q at now : ℕ)
    → at < day_length
    → q * day_length + at ≤ now
    → (t' : ℕ) → now < t'
    → t' < q * day_length + at + day_length
    → t' % day_length ≢ at
tomorrow-first q at now h over t' after before e = omega arith

first_after_lem :
    (at now : ℕ)
    → at < day_length
    → let t = first_after at now in
      (now < t)
      × (t ≤ now + day_length)
      × (t % day_length ≡ at)
      × ((t' : ℕ) → now < t' → t' < t → t' % day_length ≢ at)
first_after_lem at now h =
    let start : now / day_length * day_length ≤ now = omega arith in
    let close : now < now / day_length * day_length + day_length = omega arith in
    let place : (now / day_length * day_length + at) % day_length ≡ at = omega arith in
    let place₂ : (now / day_length * day_length + at + day_length) % day_length ≡ at =
      omega arith in
    elim (Bool-cases (ltb now (now / day_length * day_length + at))) [
      | inl today ↦
          let later : now < now / day_length * day_length + at = ltb→lt _ _ today in
          rw today (later, omega arith, place, today-first _ at now h start later)
      | inr passed ↦
          let over : now / day_length * day_length + at ≤ now = ground arith in
          rw passed (omega arith, omega arith, place₂, tomorrow-first _ at now h over)
    ]

-- For a schedule whose minute is below 60 and whose hour is below 24: the next run lies after the
-- present time and at most a day behind it, at the start of the schedule's minute of the day, and
-- no time between the present and the next run is the start of that minute of the day.
pub next_lem :
    (s : Schedule) (now : ℕ)
    → InRange s
    → let t = next s now in
      (now < t)
      × (t ≤ now + day_length)
      × (t % day_length ≡ (s.hour * 60 + s.minute) * minute_length)
      × ((t' : ℕ) → now < t' → t' < t → t' % day_length ≢ (s.hour * 60 + s.minute) * minute_length)
unfolding next
next_lem s now (m, h) = first_after_lem ((s.hour * 60 + s.minute) * minute_length) now (omega arith)
