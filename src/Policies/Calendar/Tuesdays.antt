-- ===== src/Policies/Calendar/Tuesdays.antt =====
-- src/domain/policies.ts: the date of the next transport run, `nextTuesday`.
use zolo.Prelude.{ℕ, ◌+◌, ◌≤◌, ◌<◌, Bool, true, false, ◌≡◌, ◌≢◌, ◌⊎◌, ◌↔◌, arith, nat_eq}
use zolo.Policies.Calendar.{Now, weekday, next_tuesday}

-- The next run is on a Tuesday, not before the day it is asked on.
pub next_tuesday-weekday : (now : Now) (force : Bool) → weekday (next_tuesday now force).date ≡ 2
unfolding next_tuesday
next_tuesday-weekday now force = ground arith

-- No Tuesday from today on comes before the next run, unless it is today and 20:00 has passed.
pub next_tuesday-earliest :
    (now : Now) (day : ℕ)
    → now.today ≤ day
    → weekday day ≡ 2
    → (day ≢ now.today) ⊎ (now.hour < 20)
    → (next_tuesday now false).date ≤ day
unfolding next_tuesday
next_tuesday-earliest now day later tuesday in_window = ground arith

pub next_tuesday-bounds :
    (now : Now)
    → (now.today ≤ (next_tuesday now false).date) × ((next_tuesday now false).date ≤ now.today + 7)
unfolding next_tuesday
next_tuesday-bounds now = ground arith

-- The next run is on the same day exactly when today is a Tuesday, it is before 20:00, and the
-- week after was not demanded.
pub next_tuesday-same_day :
    (now : Now) (force : Bool)
    → ((next_tuesday now force).same_day ≡ true)
      ↔ ((weekday now.today ≡ 2) × (now.hour < 20) × (force ≡ false))
unfolding next_tuesday
next_tuesday-same_day now force = ground arith
