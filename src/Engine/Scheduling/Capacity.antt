-- ===== src/Engine/Scheduling/Capacity.antt =====
-- src/application/engine.ts: the end of a turn leaves every date within its capacity.
use zolo.Prelude.{
  ℕ, ◌+◌, ◌≤◌, String, false, not, ◌&&◌, ◌||◌, Option, none, some, List, [], ◌∷◌, ◌≡◌, refl, sym,
  ap, subst, arith, Result, ok, err, ok_injective, Bool-cases, Result-cases, inl, inr, nat_eq,
  string_eq, option_eq, ◌==◌, leb, find, count, count-update_miss, count-update_within, and_left,
}
use zolo.Domain.{Party, Request, Incoming}
use zolo.Policies.Calendar.{Now, next_tuesday}
use zolo.Store.Tables.{formatting, Config, Db, TransportRun, pure, continue, takes_capacity}
use zolo.Store.Requests.{is_version_of, saved_row, save}
use zolo.Store.Requests.Saving.{written, save-Saved}
use zolo.Policies.Questions.{next_question}
use zolo.Policies.Wording.{question_text}
use zolo.Commands.Base.{Env, notice}
use zolo.Commands.Linking.{was_contacted, verification_on}
use zolo.Store.Outbox.{of_message, outbound}
use zolo.Engine.Scheduling.{announce, announce_run, proposal_key, coordination_key}
use zolo.Store.Outbox.Rows.{SameRows, SameRows-refl, SameRows-trans, outbound-SameRows}
use zolo.Store.Transport.{
  run_on, used_on, prepare_run, CapacityAnswer, ask_for_capacity, offer_place,
  propose_schedule_date, candidate_date, proposed_on,
}
use zolo.Store.Transport.Rows.{ask_for_capacity-SameRows}
use zolo.Store.Transport.Capacity.{
  capacity_on, WithinCapacity, takes_place, prepare_run-capacity, prepare_run-requests,
}

-- No date is over its capacity, and the request's row is the only one of its identifier.
pub record Sound (id : ℕ) (db : Db) : Type 0 where
  pub within : WithinCapacity db
  pub one : count (λ x. x.id == id) db.requests ≤ 1

pub WithinCapacity-SameRows :
    (db db' : Db) → SameRows db db' → WithinCapacity db → WithinCapacity db'
WithinCapacity-SameRows db db' rows within day =
    subst (λ xs. count (takes_place day) xs ≤ capacity_on day db') (sym rows.requests)
      (subst
        (λ ts.
          used_on day db ≤ elim (find (λ t. t.date == day) ts) [ none ↦ 0 | some t ↦ t.capacity ])
        (sym rows.runs) (within day))

pub Sound-SameRows : (id : ℕ) (db db' : Db) → SameRows db db' → Sound id db → Sound id db'
Sound-SameRows id db db' rows s = record {
  within = WithinCapacity-SameRows db db' rows s.within;
  one = subst (λ xs. count (λ x. x.id == id) xs ≤ 1) (sym rows.requests) s.one;
}

pub Sound-prepare_run :
    (config : Config) (id date : ℕ) (db : Db) → Sound id db → Sound id (prepare_run config date db)
Sound-prepare_run config id date db s = record {
  within = λ day. omega (
    arith,
    s.within day,
    ap (λ xs. count (takes_place day) xs) (prepare_run-requests config date db),
    prepare_run-capacity config date day db,
  );
  one =
      subst (λ xs. count (λ x. x.id == id) xs ≤ 1) (sym (prepare_run-requests config date db))
        s.one;
}

idle_row :
    (r : Request) (parties : List Party) (day : ℕ) (x : Request)
    → takes_capacity r.status ≡ false
    → takes_place day (saved_row r parties x) ≡ false
idle_row r parties day x idle = ground (arith, idle)

Sound-written :
    (r : Request) (parties : List Party) (db : Db)
    → takes_capacity r.status ≡ false
    → Sound r.id db
    → Sound r.id (written r parties db)
Sound-written r parties db idle s = record {
  within = λ day. omega (
    arith,
    s.within day,
    count-update_miss (takes_place day) (is_version_of r) (saved_row r parties) db.requests
        (λ x. idle_row r parties day x idle),
  );
  one = omega (
    arith,
    s.one,
    count-update_within (λ x. x.id == r.id) (is_version_of r) (saved_row r parties) db.requests
        (λ x v. and_left (x.id == r.id) (x.version == r.version) v),
  );
}

-- A request that takes no place is saved.
pub Sound-save :
    (r r' : Request) (db db' : Db)
    → takes_capacity r.status ≡ false
    → save r db ≡ ok (r', db')
    → Sound r.id db
    → Sound r.id db'
Sound-save r r' db db' idle h s =
    let saved = save-Saved r r' db db' h in
    subst (Sound r.id) (sym saved.rows) (Sound-written r saved.parties db idle s)

refused_date :
    (m : Result (CapacityAnswer × Db)) (id : ℕ) (o : Option ℕ) (db' : Db)
    → ((answer : CapacityAnswer) (d : Db) → m ≡ ok (answer, d) → Sound id d)
    → continue {B = Option ℕ} m (λ _. pure none) ≡ ok (o, db')
    → Sound id db'
refused_date (ok (answer, d)) id o db' sound h =
    subst (λ y. Sound id y.1) (ok_injective h) (sound answer d refl)
refused_date (err e) id o db' sound h = absurd (cc)

pub Sound-ask :
    (config : Config) (r : Request) (date capacity id : ℕ) (db d : Db) (answer : CapacityAnswer)
    → Sound id db
    → ask_for_capacity config r date capacity db ≡ ok (answer, d)
    → Sound id d
Sound-ask config r date capacity id db d answer s h =
    Sound-SameRows id db d (ask_for_capacity-SameRows config r date capacity db d answer h) s

Sound-offer_place :
    (config : Config) (r : Request) (now : Now) (date used proposed id : ℕ)
    (o : Option TransportRun) (d : Option ℕ) (db db' : Db)
    → Sound id db
    → offer_place config r now date used proposed o db ≡ ok (d, db')
    → Sound id db'
unfolding offer_place
Sound-offer_place config r now date used proposed id none d db db' s h =
    subst (λ y. Sound id y.1) (ok_injective h) s
Sound-offer_place config r now date used proposed id (some t) d db db' s h =
    elim (Bool-cases (
      not t.is_open
      || date == (next_tuesday now false).date && (next_tuesday now false).same_day)) [
        | inl shut ↦ subst (λ y. Sound id y.1) (ok_injective (rw (shut, offer_place) at h)) s
        | inr in_use ↦ elim (Bool-cases (leb t.capacity used)) [
          | inl no_room ↦
              refused_date (ask_for_capacity config r date t.capacity db) id d db'
                (λ answer x e. Sound-ask config r date t.capacity id db x answer s e)
                (rw (in_use, no_room, offer_place) at h)
          | inr room ↦ elim (Bool-cases (leb t.capacity (used + proposed))) [
            | inl spoken_for ↦
                subst (λ y. Sound id y.1)
                  (ok_injective (rw (in_use, room, spoken_for, offer_place) at h)) s
            | inr free ↦
                subst (λ y. Sound id y.1) (ok_injective (rw (in_use, room, free, offer_place) at h))
                  s
          ]
        ]
      ]

pub Sound-propose_schedule_date :
    (config : Config) (r : Request) (now : Now) (id : ℕ) (d : Option ℕ) (db db' : Db)
    → Sound id db
    → propose_schedule_date config r now db ≡ ok (d, db')
    → Sound id db'
unfolding propose_schedule_date
Sound-propose_schedule_date config r now id d db db' s h =
    let date = candidate_date r now in
    let made = prepare_run config date db in
    Sound-offer_place config r now date (used_on date made) (proposed_on date made) id
      (run_on date made) d made db' (Sound-prepare_run config id date db s) h

-- The notices of a turn leave the rows alone.
pub announce-SameRows :
    (e : Env) (m : Incoming) (phone : String) (date : ℕ) (r : Request) (ps : List Party)
    (db db' : Db) (u : Unit {0})
    → announce e m phone date r ps db ≡ ok (u, db')
    → SameRows db db'
unfolding announce
announce-SameRows e m phone date r [] db db' u h =
    subst (λ y. SameRows db y.1) (ok_injective h) (SameRows-refl db)
announce-SameRows e m phone date r (p ∷ ps) db db' u h =
    elim (Bool-cases (p.phone == phone || r.represents_both_parties)) [
      | inl skipped ↦ announce-SameRows e m phone date r ps db db' u (rw (skipped, announce) at h)
      | inr told ↦ elim (Bool-cases (was_contacted (verification_on db r.id p.role))) [
        | inr barred ↦
            announce-SameRows e m phone date r ps db db' u (rw (told, barred, announce) at h)
        | inl may ↦ elim (Result-cases (next_question r p.phone)) [
          | inr (f, bad) ↦ absurd (let k = rw (told, may, bad, announce) at h in cc)
          | inl (asked, question) ↦
              let n = notice p.phone (question_text e.before asked.question) in
              let key = proposal_key r date p.phone in
              elim (Result-cases
                (outbound formatting e.config (of_message m) n key (some r.id) db)) [
                  | inr (f, bad) ↦
                      absurd (let k = rw (told, may, question, bad, announce) at h in cc)
                  | inl (x, queued) ↦
                      SameRows-trans db x.1 db'
                        (outbound-SameRows formatting e.config (of_message m) n key (some r.id) db x
                          queued)
                        (announce-SameRows e m phone date r ps x.1 db' u
                          (rw (told, may, question, queued, announce) at h))
                ]
        ]
      ]
    ]

pub announce_run-SameRows :
    (e : Env) (m : Incoming) (phone text : String) (r : Request) (ps : List Party) (db db' : Db)
    (u : Unit {0})
    → announce_run e m phone text r ps db ≡ ok (u, db')
    → SameRows db db'
unfolding announce_run
announce_run-SameRows e m phone text r [] db db' u h =
    subst (λ y. SameRows db y.1) (ok_injective h) (SameRows-refl db)
announce_run-SameRows e m phone text r (p ∷ ps) db db' u h = elim (Bool-cases (p.phone == phone)) [
  | inl own ↦ announce_run-SameRows e m phone text r ps db db' u (rw (own, announce_run) at h)
  | inr told ↦
      let n = notice p.phone text in
      let key = coordination_key r p.phone in
      elim (Result-cases (outbound formatting e.config (of_message m) n key (some r.id) db)) [
        | inr (f, bad) ↦ absurd (let k = rw (told, bad, announce_run) at h in cc)
        | inl (x, queued) ↦
            SameRows-trans db x.1 db'
              (outbound-SameRows formatting e.config (of_message m) n key (some r.id) db x queued)
              (announce_run-SameRows e m phone text r ps x.1 db' u
                (rw (told, queued, announce_run) at h))
      ]
]
