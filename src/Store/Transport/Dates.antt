-- ===== src/Store/Transport/Dates.antt =====
-- src/infrastructure/store.ts: the date that `proposeScheduleDate` offers.
use zolo.Prelude.{
  ℕ, ◌+◌, ◌≤◌, ◌<◌, true, false, ◌&&◌, ◌||◌, not, Option, none, some, ◌≡◌, ◌≢◌, refl, sym, ◌∙◌,
  subst, ap, arith, Result, ok, err, nat_eq, ◌==◌, leb, Bool-cases, inl, inr,
}
use zolo.Domain.{Request}
use zolo.Policies.Calendar.{Now, weekday, next_tuesday}
use zolo.Store.Tables.{Config, Db, TransportRun, pure, continue}
use zolo.Store.Transport.{
  run_on, used_on, proposed_on, prepare_run, candidate_date, CapacityAnswer, ask_for_capacity,
  offer_place, propose_schedule_date,
}

-- The date that is tried for a request is a Tuesday, whatever its earliest date is.
pub candidate_date-weekday : (r : Request) (now : Now) → weekday (candidate_date r now) ≡ 2
unfolding candidate_date
candidate_date-weekday r now = elim r.earliest_run_date [
  | none ↦ ground arith
  | some e ↦ ground arith
]

pub candidate_date-next :
    (r : Request) (now : Now) → (next_tuesday now false).date ≤ candidate_date r now
unfolding candidate_date
candidate_date-next r now = elim r.earliest_run_date [ none ↦ ground arith | some e ↦ ground arith ]

-- The date that is tried for a request is not before its earliest date.
pub candidate_date-earliest :
    (r : Request) (now : Now) (earliest : ℕ)
    → r.earliest_run_date ≡ some earliest
    → earliest ≤ candidate_date r now
unfolding candidate_date
candidate_date-earliest r now earliest e = ground (arith, e)

-- The run of the date takes transports on a later occasion, and has a place behind those that are
-- taken and those that are offered already.
pub record Open (now : Now) (date : ℕ) (db : Db) : Type 0 where
  pub run : TransportRun
  pub stored : run_on date db ≡ some run
  pub in_use : run.is_open ≡ true
  pub room : used_on date db + proposed_on date db < run.capacity
  pub later : (date == (next_tuesday now false).date && (next_tuesday now false).same_day) ≡ false

asking-no_date :
    (m : Result (CapacityAnswer × Db)) (date : ℕ) (db' : Db)
    → continue {B = Option ℕ} m (λ _. pure none) ≢ ok (some date, db')
asking-no_date (ok (answer, db)) date db' h = absurd (cc)
asking-no_date (err e) date db' h = absurd (cc)

offered :
    (config : Config) (r : Request) (now : Now) (date used proposed : ℕ) (o : Option TransportRun)
    (db db' : Db) (d : ℕ)
    → offer_place config r now date used proposed o db ≡ ok (some d, db')
    → (d ≡ date)
      × (db' ≡ db)
      × (t : TransportRun) × (o ≡ some t)
      × (t.is_open ≡ true)
      × (used + proposed < t.capacity)
      × ((date == (next_tuesday now false).date && (next_tuesday now false).same_day) ≡ false)
unfolding offer_place
offered config r now date used proposed none db db' d h = absurd (cc)
offered config r now date used proposed (some t) db db' d h =
    let today = date == (next_tuesday now false).date && (next_tuesday now false).same_day in
    elim (Bool-cases (not t.is_open || today)) [
      | inl shut ↦ absurd (let k = rw (shut, offer_place) at h in cc)
      | inr in_use ↦ elim (Bool-cases (leb t.capacity used)) [
        | inl no_room ↦ absurd (
            asking-no_date (ask_for_capacity config r date t.capacity db) d db'
              (rw (in_use, no_room, offer_place) at h))
        | inr room ↦ elim (Bool-cases (leb t.capacity (used + proposed))) [
          | inl spoken_for ↦ absurd (let k = rw (in_use, room, spoken_for, offer_place) at h in cc)
          | inr free ↦
              let k = rw (in_use, room, free, offer_place) at h in
              (cc, cc, t, refl, ground arith, ground arith, ground arith)
        ]
      ]
    ]

-- A date that proposeScheduleDate offers is the candidate date; its run takes transports and has a
-- place behind the requests that are coordinated and those that are offered the date already, and
-- it is not the day of the run itself.
pub propose_schedule_date-Open :
    (config : Config) (r : Request) (now : Now) (db db' : Db) (date : ℕ)
    → propose_schedule_date config r now db ≡ ok (some date, db')
    → (date ≡ candidate_date r now) × (db' ≡ prepare_run config date db) × Open now date db'
unfolding propose_schedule_date
propose_schedule_date-Open config r now db db' date h =
    let c = candidate_date r now in
    let made = prepare_run config c db in
    let (same, kept, t, stored, in_use, room, later) =
      offered config r now c (used_on c made) (proposed_on c made) (run_on c made) made db' date
        h in
    let open_then : Open now c made = record {
      run = t;
      stored = stored;
      in_use = in_use;
      room = room;
      later = later;
    } in
    (
      same,
      kept ∙ ap (λ d. prepare_run config d db) (sym same),
      subst (λ d. Open now d db') (sym same) (subst (λ x. Open now c x) (sym kept) open_then),
    )
