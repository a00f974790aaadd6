-- ===== src/Operations/Waitlist.antt =====
-- src/application/runtime.ts: the sweep over the waiting requests keeps every date within its capacity.
use zolo.Prelude.{
  ℕ, suc, if◌then◌else◌, ◌≤◌, String, false, Option, none, some, List, [], ◌∷◌, ◌++◌, ◌≡◌, refl,
  sym, ap, ◌∙◌, subst, arith, ok, ok_injective, Bool-cases, Option-cases, Result-cases, inl, inr,
  nat_eq, ◌==◌, eq_sound, find, count, update, is_none, and_left,
}
use zolo.Domain.{Party, Request}
use zolo.Policies.Questions.{next_question}
use zolo.Policies.Status.{status_text}
use zolo.Policies.Wording.{question_text}
use zolo.Store.Tables.{formatted, formatting, Db, takes_capacity}
use zolo.Store.Requests.{is_version_of, saved_row, save, read_row, request}
use zolo.Store.Requests.Saving.{save-Saved}
use zolo.Store.Outbox.{outbound}
use zolo.Store.Outbox.Rows.{SameRows, SameRows-refl, SameRows-trans, outbound-SameRows}
use zolo.Store.Transport.{propose_schedule_date, Coordination, now_coordinated, coordinate}
use zolo.Store.Transport.Capacity.{WithinCapacity, coordinate-WithinCapacity}
use zolo.Commands.Base.{Env, notice}
use zolo.Commands.Linking.{was_contacted, verification_on}
use zolo.Engine.Scheduling.{coordination_key}
use zolo.Engine.Scheduling.Capacity.{Sound, Sound-SameRows, Sound-save, Sound-propose_schedule_date}
use zolo.Engine.Scheduling.Turns.{coordinate-Stays}
use zolo.Engine.Scheduling.Invariant.{only_version}
use zolo.Operations.{
  of_system, is_waiting_capacity, given, offer, offer_key, give, tell, confirm, promote_row,
  promote, sweep, waiting_ids, operations,
}

-- No date is over its capacity, and no identifier has two requests.
pub record AllSound (db : Db) : Type 0 where
  pub within : WithinCapacity db
  pub one : (id : ℕ) → count (λ x. x.id == id) db.requests ≤ 1

for_id : (id : ℕ) (db : Db) → AllSound db → Sound id db
for_id id db s = record { within = s.within; one = s.one id }

for_all : (db : Db) → ((id : ℕ) → Sound id db) → AllSound db
for_all db h = record { within = (h 0).within; one = λ id. (h id).one }

AllSound-SameRows : (db db' : Db) → SameRows db db' → AllSound db → AllSound db'
AllSound-SameRows db db' rows s = for_all db' (λ id. Sound-SameRows id db db' rows (for_id id db s))

-- A saved row has the identifier that it had.
ids-written :
    (r : Request) (parties : List Party) (id : ℕ) (rs : List Request)
    → count (λ x. x.id == id) (update (is_version_of r) (saved_row r parties) rs)
      ≡ count (λ x. x.id == id) rs
ids-written r parties id [] = refl
ids-written r parties id (x ∷ xs) = elim (Bool-cases (is_version_of r x)) [
  | inr miss ↦ rw miss (ap (λ n. if x.id == id then suc n else n) (ids-written r parties id xs))
  | inl hit ↦ rw hit (
      subst
        (λ j.
          (if r.id == id
            then suc (
                count (λ (y : Request). y.id == id)
                  (update (is_version_of r) (saved_row r parties) xs))
            else count (λ (y : Request). y.id == id)
                (update (is_version_of r) (saved_row r parties) xs))
          ≡ (if j == id
              then suc (count (λ (y : Request). y.id == id) xs)
              else count (λ (y : Request). y.id == id) xs))
        (sym (eq_sound x.id r.id (and_left (x.id == r.id) (x.version == r.version) hit)))
        (ap (λ n. if r.id == id then suc n else n) (ids-written r parties id xs)))
]

save-one :
    (r r' : Request) (id : ℕ) (db db' : Db)
    → save r db ≡ ok (r', db')
    → count (λ x. x.id == id) db.requests ≤ 1
    → count (λ x. x.id == id) db'.requests ≤ 1
save-one r r' id db db' h one =
    let saved = save-Saved r r' db db' h in
    subst (λ d. count (λ x. x.id == id) d.requests ≤ 1) (sym saved.rows)
      (omega (arith, one, ids-written r saved.parties id db.requests))

offer-SameRows :
    (e : Env) (date : ℕ) (r : Request) (ps : List Party) (db db' : Db) (u : Unit {0})
    → offer e date r ps db ≡ ok (u, db')
    → SameRows db db'
unfolding offer
offer-SameRows e date r [] db db' u h =
    subst (λ y. SameRows db y.1) (ok_injective h) (SameRows-refl db)
offer-SameRows e date r (p ∷ ps) db db' u h =
    elim (Bool-cases (was_contacted (verification_on db r.id p.role))) [
      | inr barred ↦ offer-SameRows e date r ps db db' u (rw (barred, offer) at h)
      | inl may ↦ elim (Result-cases (next_question r p.phone)) [
        | inr (f, bad) ↦ absurd (let k = rw (may, bad, offer) at h in cc)
        | inl (asked, question) ↦
            let n = notice p.phone (question_text e.before asked.question) in
            let key = offer_key r date p.phone in
            elim (Result-cases (outbound formatting e.config (of_system e) n key (some r.id) db)) [
              | inr (f, bad) ↦ absurd (let k = rw (may, question, bad, offer) at h in cc)
              | inl (x, queued) ↦
                  SameRows-trans db x.1 db'
                    (outbound-SameRows formatting e.config (of_system e) n key (some r.id) db x
                      queued)
                    (offer-SameRows e date r ps x.1 db' u (rw (may, question, queued, offer) at h))
            ]
      ]
    ]

tell-SameRows :
    (e : Env) (text : String) (r : Request) (ps : List Party) (db db' : Db) (u : Unit {0})
    → tell e text r ps db ≡ ok (u, db')
    → SameRows db db'
unfolding tell
tell-SameRows e text r [] db db' u h =
    subst (λ y. SameRows db y.1) (ok_injective h) (SameRows-refl db)
tell-SameRows e text r (p ∷ ps) db db' u h =
    let n = notice p.phone text in
    let key = coordination_key r p.phone in
    elim (Result-cases (outbound formatted e.config (of_system e) n key (some r.id) db)) [
      | inr (f, bad) ↦ absurd (let k = rw (bad, tell) at h in cc)
      | inl (x, queued) ↦
          SameRows-trans db x.1 db'
            (outbound-SameRows formatted e.config (of_system e) n key (some r.id) db x queued)
            (tell-SameRows e text r ps x.1 db' u (rw (queued, tell) at h))
    ]

-- A request that takes no place is saved.
AllSound-save :
    (r r' : Request) (db db' : Db)
    → takes_capacity r.status ≡ false
    → save r db ≡ ok (r', db')
    → AllSound db
    → AllSound db'
AllSound-save r r' db db' idle h s = record {
  within = (Sound-save r r' db db' idle h (for_id r.id db s)).within;
  one = λ id. save-one r r' id db db' h (s.one id);
}

logged : String → ℕ → Db → Db
logged kind id db = record db {
  events = db.events ++ record { request_id = some id; actor = "system"; event_type = kind } ∷ [];
}

give-AllSound :
    (e : Env) (r : Request) (d : Option ℕ) (db db' : Db) (u : Unit {0})
    → give e r d db ≡ ok (u, db')
    → AllSound db
    → AllSound db'
unfolding give logged
give-AllSound e r none db db' u h s = subst (λ y. AllSound y.1) (ok_injective h) s
give-AllSound e r (some date) db db' u h s = elim (Result-cases (save (given date r) db)) [
  | inr (f, bad) ↦ absurd (let k = rw (bad, give) at h in cc)
  | inl (x, done) ↦
      let kept = AllSound-save (given date r) x.0 db x.1 refl done s in
      let d₁ = logged "schedule_proposed_after_capacity_approval" x.0.id x.1 in
      AllSound-SameRows d₁ db'
        (offer-SameRows e date x.0 x.0.parties d₁ db' u (rw (done, give) at h))
        (AllSound-SameRows x.1 d₁ (record { requests = refl; runs = refl }) kept)
]

-- The row that is coordinated, and told to the parties.
confirm-AllSound :
    (e : Env) (answer : Coordination) (r : Request) (db db' : Db) (u : Unit {0})
    → ((s : Request) (d : Db) → answer ≡ now_coordinated → save r db ≡ ok (s, d) → AllSound d)
    → confirm e answer r db ≡ ok (u, db')
    → AllSound db
    → AllSound db'
unfolding confirm logged
confirm-AllSound e now_coordinated r db db' u fine h s = elim (Result-cases (save r db)) [
  | inr (f, bad) ↦ absurd (let k = rw (bad, confirm) at h in cc)
  | inl (x, done) ↦
      let d₁ = logged "coordinated_from_waitlist" x.0.id x.1 in
      AllSound-SameRows d₁ db'
        (tell-SameRows e (status_text e.before (x.0 ∷ [])) x.0 x.0.parties d₁ db' u
          (rw (done, confirm) at h))
        (AllSound-SameRows x.1 d₁ (record { requests = refl; runs = refl })
          (fine x.0 x.1 refl done))
]
confirm-AllSound e _ r db db' u fine h s = subst (λ y. AllSound y.1) (ok_injective h) s

promote_row-AllSound :
    (e : Env) (r : Request) (db db' : Db) (u : Unit {0})
    → promote_row e r db ≡ ok (u, db')
    → AllSound db
    → AllSound db'
unfolding promote_row
promote_row-AllSound e r db db' u h s = elim (Bool-cases (is_none r.proposed_run_date)) [
  | inl undated ↦ elim (Result-cases (propose_schedule_date e.config r e.now db)) [
    | inr (f, bad) ↦ absurd (let k = rw (undated, bad, promote_row) at h in cc)
    | inl (x, offered) ↦ give-AllSound e r x.0 x.1 db' u (rw (undated, offered, promote_row) at h) (
        for_all x.1 (λ id.
          Sound-propose_schedule_date e.config r e.now id x.0 db x.1 (for_id id db s) offered))
  ]
  | inr dated ↦ elim (Result-cases (coordinate e.config r e.now false db)) [
    | inr (f, bad) ↦ absurd (let k = rw (dated, bad, promote_row) at h in cc)
    | inl (x, answered) ↦
        confirm-AllSound e x.0.0 x.0.1 x.1 db' u
          (λ s' d is kept. record {
            within =
                coordinate-WithinCapacity e.config r x.0.1 s' e.now false db x.1 d s.within
                  (only_version r db (for_id r.id db s))
                  (answered ∙ ap (λ a. ok ((a, x.0.1), x.1)) is) kept;
            one = λ id.
                save-one x.0.1 s' id x.1 d kept
                  (coordinate-Stays id e.config r e.now false db x (for_id id db s) answered).0.one;
          })
          (rw (dated, answered, promote_row) at h)
          (for_all x.1
            (λ id. (coordinate-Stays id e.config r e.now false db x (for_id id db s) answered).0))
  ]
]

promote-AllSound :
    (e : Env) (id : ℕ) (db db' : Db) (u : Unit {0})
    → promote e id db ≡ ok (u, db')
    → AllSound db
    → AllSound db'
unfolding promote request
promote-AllSound e id db db' u h s = elim (Option-cases (find (λ r. r.id == id) db.requests)) [
  | inl gone ↦ absurd (let k = rw (gone, promote, request) at h in cc)
  | inr (r, found) ↦ elim (Bool-cases (is_waiting_capacity r.status)) [
    | inr moved ↦
        subst (λ y. AllSound y.1) (ok_injective (rw (found, moved, promote, request) at h)) s
    | inl waits ↦
        promote_row-AllSound e (read_row db r) db db' u (rw (found, waits, promote, request) at h) s
  ]
]

sweep-AllSound : (e : Env) (ids : List ℕ) (db : Db) → AllSound db → AllSound (sweep e ids db).1
unfolding sweep
sweep-AllSound e [] db s = s
sweep-AllSound e (id ∷ ids) db s = elim (Result-cases (promote e id db)) [
  | inr (f, bad) ↦ rw (bad, sweep) s
  | inl (x, done) ↦
      rw (done, sweep) (sweep-AllSound e ids x.1 (promote-AllSound e id db x.1 x.0 done s))
]

-- When no date has more coordinated requests than its run has places and no identifier has two
-- requests, both still hold after the sweep that gives waiting requests a date or a place, also
-- where a failure ends it.
pub operations-AllSound : (e : Env) (db : Db) → AllSound db → AllSound (operations e db).1
unfolding operations
operations-AllSound e db s = sweep-AllSound e (waiting_ids db) db s
