-- ===== src/Policies/Calendar.antt =====
-- src/domain/policies.ts: `localDate` and `nextTuesday`. The time zone's data is the platform's:
-- a `Now` holds the day and the hour in Jerusalem.
pub mod Tuesdays
use zolo.Prelude.{
  ℕ, ◌+◌, ◌-◌, ◌*◌, ◌/◌, ◌%◌, String, Bool, false, ◌&&◌, ◌||◌, ◌≡◌, refl, [], ◌∷◌, nat_eq, ◌==◌,
  ltb, leb, if◌then◌else◌, template, show_two, show_four,
}

-- The instant of `now`, its local day and hour, and the instant of `new Date()`.
pub record Now : Type 0 where
  pub instant : ℕ
  pub today : ℕ
  pub hour : ℕ
  pub wall : ℕ

-- `getUTCDay()`: 0 is Sunday. The first day of 1970 was a Thursday.
abbrev pub weekday : ℕ → ℕ
weekday day = (day + 4) % 7

pub record NextRun : Type 0 where
  pub date : ℕ
  pub same_day : Bool

-- `(2 - x.day + 7) % 7`, and a week more behind the cutoff hour of a Tuesday or on demand.
abbrev days_ahead : ℕ → ℕ → Bool → ℕ
days_ahead day hour force_next_week =
    let delta = (2 + 7 - day) % 7 in
    if delta == 0 && leb 20 hour || force_next_week
    then (if delta == 0 then 7 else delta + 7)
    else delta

unfoldable pub next_tuesday : Now → Bool → NextRun
next_tuesday now force_next_week =
    let delta = days_ahead (weekday now.today) now.hour force_next_week in
    record { date = now.today + delta; same_day = delta == 0 }

-- A day of the calendar as year, month and day of the month: the language's `Date`.
pub record Civil : Type 0 where
  pub year : ℕ
  pub month : ℕ
  pub day : ℕ

abbrev civil_of_era : ℕ → ℕ → Civil
civil_of_era era doe =
    let yoe = (doe - doe / 1460 + doe / 36524 - doe / 146096) / 365 in
    let doy = doe - (365 * yoe + yoe / 4 - yoe / 100) in
    let mp = (5 * doy + 2) / 153 in
    let m = if ltb mp 10 then mp + 3 else mp - 9 in
    record {
      year = yoe + era * 400 + (if leb m 2 then 1 else 0);
      month = m;
      day = doy - (153 * mp + 2) / 5 + 1;
    }

unfoldable pub civil : ℕ → Civil
civil days = civil_of_era ((days + 719468) / 146097) ((days + 719468) % 146097)

-- "YYYY-MM-DD", and "DD/MM/YYYY".
unfoldable pub iso_date : ℕ → String
unfolding civil show_two show_four
iso_date days =
    let c = civil days in
    template (show_four c.year ∷ "-" ∷ show_two c.month ∷ "-" ∷ show_two c.day ∷ [])

unfoldable pub day_label : ℕ → String
unfolding civil show_two show_four
day_label days =
    let c = civil days in
    template (show_two c.day ∷ "/" ∷ show_two c.month ∷ "/" ∷ show_four c.year ∷ [])

-- Thursday, the tenth of September 2026.
release_date :
    (iso_date 20706 ≡ "2026-09-10") × (day_label 20706 ≡ "10/09/2026") × (weekday 20706 ≡ 4)
unfolding iso_date day_label
release_date = (refl, refl, refl)

next_run :
    next_tuesday (record { instant = 0; today = 20706; hour = 9; wall = 0 }) false
    ≡ record { date = 20711; same_day = false }
unfolding next_tuesday
next_run = refl
