-- ===== src/Store/Transport/Capacity.antt =====
-- src/infrastructure/store.ts: no date takes more transports than its run holds.
use zolo.Prelude.{
  ℕ, ◌+◌, ◌≤◌, Bool, true, ◌&&◌, none, some, List, [], ◌∷◌, ◌≡◌, ◌≢◌, sym, ap, ◌∙◌, subst, arith,
  ok, nat_eq, option_eq, ◌==◌, eq_sound, eq_complete, count, update, Bool-cases, inl, inr,
  find-append, count-update, count-update_miss, min,
}
use zolo.Domain.{Party, Request}
use zolo.Policies.Calendar.{Now}
use zolo.Store.Tables.{Config, Db, takes_capacity}
use zolo.Store.Requests.{is_version_of, saved_row, save}
use zolo.Store.Requests.Saving.{written, save-Saved}
use zolo.Store.Transport.{run_on, used_on, prepare_run, now_coordinated, coordinate}
use zolo.Store.Transport.Room.{HasRoom, scheduled, coordinate-Granted}

-- The places of a date: none before its run is there.
abbrev pub capacity_on : ℕ → Db → ℕ
capacity_on date db = elim (run_on date db) [ none ↦ 0 | some t ↦ t.capacity ]

-- On no date are more places taken than there are.
abbrev pub WithinCapacity : Db → Type 0
WithinCapacity db = (date : ℕ) → used_on date db ≤ capacity_on date db

pub prepare_run-capacity :
    (config : Config) (date day : ℕ) (db : Db)
    → capacity_on day db ≤ capacity_on day (prepare_run config date db)
unfolding prepare_run
prepare_run-capacity config date day db = ground (
  arith,
  find-append (λ t. t.date == day) db.runs
      (record { date = date; capacity = min config.transport_capacity 10; is_open = true } ∷ []),
)

pub prepare_run-requests :
    (config : Config) (date : ℕ) (db : Db) → (prepare_run config date db).requests ≡ db.requests
unfolding prepare_run
prepare_run-requests config date db = ground arith

abbrev pub takes_place : ℕ → Request → Bool
takes_place day x = x.run_date == some day && takes_capacity x.status

-- The write of a coordinated request takes at most one place more, on its own date alone.
saved-used :
    (r : Request) (date day : ℕ) (parties : List Party) (xs : List Request)
    → count (is_version_of r) xs ≤ 1
    → (day ≢ date
        → count
            (takes_place day)
            (update (is_version_of r) (saved_row (scheduled date r) parties) xs)
          ≤ count (takes_place day) xs)
      × (count
            (takes_place day)
            (update (is_version_of r) (saved_row (scheduled date r) parties) xs)
          ≤ count (takes_place day) xs + 1)
saved-used r date day parties xs one = (
  λ away.
      count-update_miss (takes_place day) (is_version_of r) (saved_row (scheduled date r) parties)
        xs (λ x. ground (arith, away)),
  omega (
    arith,
    count-update (takes_place day) (is_version_of r) (saved_row (scheduled date r) parties) xs,
    one,
  ),
)

abbrev after_save : Request → ℕ → List Party → Db → Db
after_save r date parties db = written (scheduled date r) parties db

saved-within :
    (r : Request) (date : ℕ) (parties : List Party) (db : Db) (day : ℕ)
    → ((day ≢ date) → used_on day db ≤ capacity_on day db)
    → count (is_version_of r) db.requests ≤ 1
    → HasRoom db date
    → used_on day (after_save r date parties db) ≤ capacity_on day (after_save r date parties db)
saved-within r date day_parties db day within one room = elim (Bool-cases (day == date)) [
  | inl here ↦
      let e = eq_sound day date here in
      let room_here = subst (λ d. HasRoom db d) (sym e) room in
      let capacity : capacity_on day db ≡ room_here.run.capacity =
        rw (room_here.stored, capacity_on) in
      omega (arith, (saved-used r date day day_parties db.requests one).1, room_here.room, capacity)
  | inr away ↦
      let apart : day ≢ date = λ e. absurd (ground (arith, eq_complete day date e)) in
      omega (arith, (saved-used r date day day_parties db.requests one).0 apart, within apart)
]

-- When no date has more coordinated requests than its run has places, and the row of a request is
-- the only one of its identifier and version, coordinating the request and saving it leaves every
-- date within its capacity.
pub coordinate-WithinCapacity :
    (config : Config) (r r' s : Request) (now : Now) (admin : Bool) (db db₁ db₂ : Db)
    → WithinCapacity db
    → count (is_version_of r) db.requests ≤ 1
    → coordinate config r now admin db ≡ ok ((now_coordinated, r'), db₁)
    → save r' db₁ ≡ ok (s, db₂)
    → WithinCapacity db₂
coordinate-WithinCapacity config r r' s now admin db db₁ db₂ within one h k day =
    let granted = coordinate-Granted config r r' now admin db db₁ h in
    let saved = save-Saved r' s db₁ db₂ k in
    let date = granted.agreed.date in
    let made = prepare_run config date db in
    let rows =
      saved.rows ∙ ap (λ (x : Request). written x saved.parties db₁) granted.scheduled_on in
    let same = prepare_run-requests config date db in
    let made_within : used_on day made ≤ capacity_on day made = omega (
      arith,
      within day,
      ap (λ xs. count (takes_place day) xs) same,
      prepare_run-capacity config date day db,
    ) in
    subst (λ x. used_on day x ≤ capacity_on day x) (sym rows)
      (subst
        (λ x.
          used_on day (after_save r date saved.parties x)
          ≤ capacity_on day (after_save r date saved.parties x))
        (sym granted.prepared)
        (saved-within r date saved.parties made day (λ _. made_within) (rw same one)
          (subst (λ x. HasRoom x date) granted.prepared granted.room)))
