-- ===== src/Engine/Scheduling/Turns.antt =====
-- src/application/engine.ts: the proposal and the coordination at the end of a turn.
use zolo.Prelude.{
  ℕ, String, Bool, false, not, ◌&&◌, Option, none, some, ◌≡◌, refl, ap, subst, Result, ok, err,
  ok_injective, Bool-cases, Result-cases, inl, inr, nat_eq, string_eq, option_eq, ◌==◌, leb,
  is_none, all,
}
use zolo.Domain.{waiting_capacity, Request, Incoming}
use zolo.Policies.Calendar.{Now, next_tuesday}
use zolo.Policies.Questions.{next_question}
use zolo.Policies.Readiness.{ready_to_coordinate}
use zolo.Store.Tables.{Config, Db, TransportRun, pure, continue}
use zolo.Store.Requests.{save}
use zolo.Store.Requests.Saving.{save-Saved}
use zolo.Store.Transport.{
  run_on, used_on, prepare_run, CapacityAnswer, ask_for_capacity, in_area, propose_schedule_date,
  Coordination, refused, take_place, coordinate_on, coordinate_proposed, coordinate,
}
use zolo.Commands.Base.{Env}
use zolo.Engine.Scheduling.{Turn, offered_at, date_due, announce, settle_proposal, propose}
use zolo.Engine.Scheduling.Capacity.{
  Sound, Sound-SameRows, Sound-save, Sound-ask, Sound-prepare_run, Sound-propose_schedule_date,
  announce-SameRows,
}

saved_id : (r r' : Request) (db db' : Db) → save r db ≡ ok (r', db') → r'.id ≡ r.id
saved_id r r' db db' h = ap (λ (x : Request). x.id) (save-Saved r r' db db' h).newer

-- The turn's request and the rows, after a step of the turn.
pub record Goes (id : ℕ) (t : Turn) (db : Db) : Type 0 where
  pub same_id : t.request.id ≡ id
  pub sound : Sound id db

settle_proposal-Goes :
    (e : Env) (m : Incoming) (phone : String) (r : Request) (d : Option ℕ) (t : Turn) (db db' : Db)
    → Sound r.id db
    → settle_proposal e m phone r d db ≡ ok (t, db')
    → Goes r.id t db'
unfolding settle_proposal
settle_proposal-Goes e m phone r none t db db' s h =
    elim (Result-cases (save (record r { status = waiting_capacity }) db)) [
      | inr (f, bad) ↦ absurd (let k = rw (bad, settle_proposal) at h in cc)
      | inl (x, done) ↦
          let w : Request = record r { status = waiting_capacity } in
          let same = ok_injective (rw (done, settle_proposal) at h) in
          subst (λ y. Goes r.id y.0 y.1) same
            (record {
              same_id = saved_id w x.0 db x.1 done;
              sound = Sound-save w x.0 db x.1 refl done s;
            })
    ]
settle_proposal-Goes e m phone r (some date) t db db' s h =
    let w = offered_at date r in
    elim (Result-cases (save w db)) [
      | inr (f, bad) ↦ absurd (let k = rw (bad, settle_proposal) at h in cc)
      | inl (x, done) ↦ elim (Result-cases (next_question x.0 phone)) [
        | inr (f, bad) ↦ absurd (let k = rw (done, bad, settle_proposal) at h in cc)
        | inl (asked, question) ↦
            elim (Result-cases (announce e m phone date x.0 x.0.parties x.1)) [
              | inr (f, bad) ↦ absurd (let k = rw (done, question, bad, settle_proposal) at h in cc)
              | inl (y, told) ↦
                  let same = ok_injective (rw (done, question, told, settle_proposal) at h) in
                  subst (λ z. Goes r.id z.0 z.1) same
                    (record {
                      same_id = saved_id w x.0 db x.1 done;
                      sound =
                          Sound-SameRows r.id x.1 y.1
                            (announce-SameRows e m phone date x.0 x.0.parties x.1 y.1 tt told)
                            (Sound-save w x.0 db x.1 refl done s);
                    })
            ]
      ]
    ]

pub propose-Goes :
    (e : Env) (m : Incoming) (phone : String) (t t' : Turn) (db db' : Db)
    → Sound t.request.id db
    → propose e m phone t db ≡ ok (t', db')
    → Goes t.request.id t' db'
unfolding propose
propose-Goes e m phone t t' db db' s h =
    elim (Bool-cases (is_none t.reason && date_due e.now t.request)) [
      | inr idle ↦
          subst (λ y. Goes t.request.id y.0 y.1) (ok_injective (rw (idle, propose) at h))
            (record { same_id = refl; sound = s })
      | inl due ↦ elim (Result-cases (propose_schedule_date e.config t.request e.now db)) [
        | inr (f, bad) ↦ absurd (let k = rw (due, bad, propose) at h in cc)
        | inl (x, offer) ↦
            settle_proposal-Goes e m phone t.request x.0 t' x.1 db'
              (Sound-propose_schedule_date e.config t.request e.now t.request.id x.0 db x.1 s offer)
              (rw (due, offer, propose) at h)
      ]
    ]

-- A request and the rows, after a step of the coordination.
abbrev pub Stays : ℕ → ℕ → (Coordination × Request) × Db → Type 0
Stays j id y = Sound j y.1 × (y.0.1.id ≡ id)

asked_admin :
    (m : Result (CapacityAnswer × Db)) (j id : ℕ) (s : Request) (z : (Coordination × Request) × Db)
    → s.id ≡ id
    → ((answer : CapacityAnswer) (d : Db) → m ≡ ok (answer, d) → Sound j d)
    → continue {B = Coordination × Request} m (λ answer. pure (refused answer, s)) ≡ ok z
    → Stays j id z
asked_admin (ok (answer, d)) j id s z e sound h =
    subst (Stays j id) (ok_injective h) (sound answer d refl, e)
asked_admin (err f) j id s z e sound h = absurd (cc)

take_place-Stays :
    (j : ℕ) (config : Config) (r : Request) (date used : ℕ) (o : Option TransportRun) (db : Db)
    (z : (Coordination × Request) × Db)
    → Sound j db
    → take_place config r date used o db ≡ ok z
    → Stays j r.id z
unfolding take_place
take_place-Stays j config r date used none db z s h = absurd (cc)
take_place-Stays j config r date used (some t) db z s h = elim (Bool-cases t.is_open) [
  | inr shut ↦ subst (Stays j r.id) (ok_injective (rw (shut, take_place) at h)) (s, refl)
  | inl in_use ↦ elim (Bool-cases (leb t.capacity used)) [
    | inl no_room ↦
        let w : Request = record r { status = waiting_capacity } in
        asked_admin (ask_for_capacity config w date t.capacity db) j r.id w z refl
          (λ answer x e. Sound-ask config w date t.capacity j db x answer s e)
          (rw (in_use, no_room, take_place) at h)
    | inr room ↦ subst (Stays j r.id) (ok_injective (rw (in_use, room, take_place) at h)) (s, refl)
  ]
]

coordinate_proposed-Stays :
    (j : ℕ) (config : Config) (r : Request) (now : Now) (admin : Bool) (o : Option ℕ) (db : Db)
    (z : (Coordination × Request) × Db)
    → Sound j db
    → coordinate_proposed config r now admin o db ≡ ok z
    → Stays j r.id z
unfolding coordinate_proposed coordinate_on
coordinate_proposed-Stays j config r now admin none db z s h =
    subst (Stays j r.id) (ok_injective h) (s, refl)
coordinate_proposed-Stays j config r now admin (some date) db z s h =
    let today = next_tuesday now false in
    let made = prepare_run config date db in
    elim (Bool-cases (today.same_day && today.date == date && not admin)) [
      | inl late ↦
          subst (Stays j r.id) (ok_injective (rw (late, coordinate_proposed) at h)) (s, refl)
      | inr fine ↦
          take_place-Stays j config r date (used_on date made) (run_on date made) made z
            (Sound-prepare_run config j date db s) (rw (fine, coordinate_proposed) at h)
    ]

pub coordinate-Stays :
    (j : ℕ) (config : Config) (r : Request) (now : Now) (admin : Bool) (db : Db)
    (z : (Coordination × Request) × Db)
    → Sound j db
    → coordinate config r now admin db ≡ ok z
    → Stays j r.id z
unfolding coordinate
coordinate-Stays j config r now admin db z s h = elim (Bool-cases (ready_to_coordinate r)) [
  | inr early ↦ subst (Stays j r.id) (ok_injective (rw (early, coordinate) at h)) (s, refl)
  | inl set ↦ elim (Bool-cases (all (in_area db) r.parties)) [
    | inr away ↦ subst (Stays j r.id) (ok_injective (rw (set, away, coordinate) at h)) (s, refl)
    | inl served ↦
        coordinate_proposed-Stays j config r now admin r.proposed_run_date db z s
          (rw (set, served, coordinate) at h)
  ]
]
