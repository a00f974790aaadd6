-- ===== src/Store/Transport/Room.antt =====
-- src/infrastructure/store.ts: when `coordinate` makes a request coordinated.
use zolo.Prelude.{
  ℕ, ◌<◌, Bool, true, false, ◌&&◌, not, Option, none, some, ◌≡◌, ◌≢◌, refl, sym, subst, arith,
  Result, ok, err, nat_eq, ◌==◌, leb, Bool-cases, inl, inr, all,
}
use zolo.Domain.{coordinated, waiting_capacity, Request}
use zolo.Policies.Calendar.{Now, next_tuesday}
use zolo.Policies.Readiness.{ready_to_coordinate}
use zolo.Policies.Readiness.Consent.{Agreed, ready_to_coordinate-Agreed}
use zolo.Store.Tables.{Config, Db, TransportRun, pure, continue}
use zolo.Store.Transport.{
  run_on, used_on, prepare_run, ask_for_capacity, CapacityAnswer, is_denied, is_pending, at_limit,
  Coordination, now_coordinated, in_area, take_place, coordinate_proposed, coordinate_on,
  coordinate, refused,
}

-- The run of the date has a place left.
pub record HasRoom (db : Db) (date : ℕ) : Type 0 where
  pub run : TransportRun
  pub stored : run_on date db ≡ some run
  pub in_use : run.is_open ≡ true
  pub room : used_on date db < run.capacity

abbrev pub scheduled : ℕ → Request → Request
scheduled date r = record r { status = coordinated; run_date = some date; proposed_run_date = none }

refused-not_coordinated : (answer : CapacityAnswer) → refused answer ≢ now_coordinated
refused-not_coordinated is_denied h = absurd (cc)
refused-not_coordinated is_pending h = absurd (cc)
refused-not_coordinated at_limit h = absurd (cc)

-- A question to the administrator never coordinates.
asking-not_coordinated :
    (m : Result (CapacityAnswer × Db)) (s r' : Request) (db' : Db)
    → continue {B = Coordination × Request} m (λ answer. pure (refused answer, s))
      ≢ ok ((now_coordinated, r'), db')
asking-not_coordinated (ok (answer, db)) s r' db' h = refused-not_coordinated answer (cc)
asking-not_coordinated (err e) s r' db' h = absurd (cc)

taken :
    (config : Config) (r r' : Request) (date used : ℕ) (o : Option TransportRun) (db db' : Db)
    → take_place config r date used o db ≡ ok ((now_coordinated, r'), db')
    → (db' ≡ db)
      × (r' ≡ scheduled date r)
      × (t : TransportRun) × (o ≡ some t)
      × (t.is_open ≡ true)
      × (used < t.capacity)
unfolding take_place
taken config r r' date used none db db' h = absurd (cc)
taken config r r' date used (some t) db db' h = elim (Bool-cases t.is_open) [
  | inr shut ↦ absurd (let k = rw shut at h in cc)
  | inl in_use ↦ elim (Bool-cases (leb t.capacity used)) [
    | inl no_room ↦ absurd (
        asking-not_coordinated
          (ask_for_capacity config (record r { status = waiting_capacity }) date t.capacity db)
          (record r { status = waiting_capacity }) r' db' (rw (in_use, no_room) at h))
    | inr room ↦ let k = rw (in_use, room) at h in (cc, cc, t, refl, in_use, ground arith)
  ]
]

pub coordinate_on-now_coordinated :
    (config : Config) (r r' : Request) (date : ℕ) (db db' : Db)
    → coordinate_on config r date db ≡ ok ((now_coordinated, r'), db')
    → (db' ≡ prepare_run config date db) × (r' ≡ scheduled date r) × HasRoom db' date
unfolding coordinate_on
coordinate_on-now_coordinated config r r' date db db' h =
    let made = prepare_run config date db in
    let (same, r≡, t, stored, in_use, room) =
      taken config r r' date (used_on date made) (run_on date made) made db' h in
    (
      same,
      r≡,
      subst (λ x. HasRoom x date) (sym same)
          (record { run = t; stored = stored; in_use = in_use; room = room }),
    )

-- A request became coordinated: for the date that both parties agreed to, in the area of service,
-- with a place left on that date, and on the day itself only by the administrator.
pub record Granted (config : Config) (r r' : Request) (now : Now) (admin : Bool) (db db' : Db)
    : Type 0 where
  pub agreed : Agreed r
  pub served : all (in_area db) r.parties ≡ true
  pub ahead :
      ((next_tuesday now false).date ≡ agreed.date)
      → (next_tuesday now false).same_day ≡ true
      → admin ≡ true
  pub scheduled_on : r' ≡ scheduled agreed.date r
  pub prepared : db' ≡ prepare_run config agreed.date db
  pub room : HasRoom db' agreed.date

proposed-Granted :
    (config : Config) (r r' : Request) (now : Now) (admin : Bool) (db db' : Db) (a : Agreed r)
    → all (in_area db) r.parties ≡ true
    → coordinate_proposed config r now admin (some a.date) db ≡ ok ((now_coordinated, r'), db')
    → Granted config r r' now admin db db'
unfolding coordinate_proposed
proposed-Granted config r r' now admin db db' a served h =
    let today = next_tuesday now false in
    elim (Bool-cases (today.same_day && today.date == a.date && not admin)) [
      | inl late ↦ absurd (let k = rw (late, coordinate_proposed) at h in cc)
      | inr fine ↦
          let (made, placed, room) =
            coordinate_on-now_coordinated config r r' a.date db db'
              (rw (fine, coordinate_proposed) at h) in
          record {
            agreed = a;
            served = served;
            ahead = λ same here. ground arith;
            scheduled_on = placed;
            prepared = made;
            room = room;
          }
    ]

-- A request that coordinate makes coordinated was agreed to by both parties for one date, all its
-- settlements are in the area of service, the run of the date takes transports and has a place
-- left, the request carries that date, and on the day of the run itself only the administrator
-- gets that far.
pub coordinate-Granted :
    (config : Config) (r r' : Request) (now : Now) (admin : Bool) (db db' : Db)
    → coordinate config r now admin db ≡ ok ((now_coordinated, r'), db')
    → Granted config r r' now admin db db'
unfolding coordinate
coordinate-Granted config r r' now admin db db' h = elim (Bool-cases (ready_to_coordinate r)) [
  | inr not_so ↦ absurd (let k = rw (not_so, coordinate) at h in cc)
  | inl agree ↦ elim (Bool-cases (all (in_area db) r.parties)) [
    | inr not_so ↦ absurd (let k = rw (agree, not_so, coordinate) at h in cc)
    | inl served ↦
        let a = ((ready_to_coordinate-Agreed r).0 agree).1 in
        proposed-Granted config r r' now admin db db' a served (
          subst (λ o. coordinate_proposed config r now admin o db ≡ ok ((now_coordinated, r'), db'))
            a.proposed (rw (agree, served, coordinate) at h))
  ]
]
