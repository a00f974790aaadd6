-- ===== src/Engine/Scheduling/Invariant.antt =====
-- src/application/engine.ts: the invariant of the transport runs, over the whole end of a turn.
use zolo.Prelude.{
  ◌≤◌, String, false, some, [], ◌∷◌, ◌++◌, ◌≡◌, refl, sym, subst, arith, ok, ok_injective,
  Bool-cases, Result-cases, inl, inr, nat_eq, string_eq, ◌==◌, is_none, count, count-and,
}
use zolo.Domain.{waiting_capacity, Request, Incoming}
use zolo.Policies.Status.{status_text}
use zolo.Store.Tables.{Db}
use zolo.Store.Requests.{is_version_of, save}
use zolo.Store.Transport.{
  Coordination, not_ready, on_same_day, full, capacity_denied, now_coordinated, coordinate,
}
use zolo.Store.Transport.Capacity.{WithinCapacity, coordinate-WithinCapacity}
use zolo.Commands.Base.{Env}
use zolo.Engine.Scheduling.{Turn, propose, announce_run, settle_coordination, schedule}
use zolo.Engine.Scheduling.Capacity.{
  Sound, Sound-save, WithinCapacity-SameRows, announce_run-SameRows,
}
use zolo.Engine.Scheduling.Turns.{propose-Goes, coordinate-Stays}

-- A request that waits for a place is saved, whatever the reply says.
waiting-within :
    (r r' : Request) (db db' : Db)
    → save (record r { status = waiting_capacity }) db ≡ ok (r', db')
    → Sound r.id db
    → WithinCapacity db'
waiting-within r r' db db' h s =
    (Sound-save (record r { status = waiting_capacity }) r' db db' refl h s).within

-- The rows that the reply of a coordination leaves, where the save is known to be fine.
settled :
    (e : Env) (m : Incoming) (phone : String) (t t' : Turn) (a : Coordination) (r : Request)
    (db db' : Db)
    → Sound r.id db
    → ((s : Request) (d : Db) → a ≡ now_coordinated → save r db ≡ ok (s, d) → WithinCapacity d)
    → settle_coordination e m phone t a r db ≡ ok (t', db')
    → WithinCapacity db'
unfolding settle_coordination
settled e m phone t t' not_ready r db db' s fine h =
    subst (λ y. WithinCapacity y.1) (ok_injective h) s.within
settled e m phone t t' on_same_day r db db' s fine h =
    subst (λ y. WithinCapacity y.1) (ok_injective h) s.within
settled e m phone t t' full r db db' s fine h =
    elim (Result-cases (save (record r { status = waiting_capacity }) db)) [
      | inr (f, bad) ↦ absurd (let k = rw (bad, settle_coordination) at h in cc)
      | inl (x, done) ↦
          subst (λ y. WithinCapacity y.1) (ok_injective (rw (done, settle_coordination) at h))
            (waiting-within r x.0 db x.1 done s)
    ]
settled e m phone t t' capacity_denied r db db' s fine h =
    elim (Result-cases (save (record r { status = waiting_capacity }) db)) [
      | inr (f, bad) ↦ absurd (let k = rw (bad, settle_coordination) at h in cc)
      | inl (x, done) ↦
          subst (λ y. WithinCapacity y.1) (ok_injective (rw (done, settle_coordination) at h))
            (waiting-within r x.0 db x.1 done s)
    ]
settled e m phone t t' now_coordinated r db db' s fine h = elim (Result-cases (save r db)) [
  | inr (f, bad) ↦ absurd (let k = rw (bad, settle_coordination) at h in cc)
  | inl (x, done) ↦
      let text = status_text e.before (x.0 ∷ []) in
      let logged : Db = record x.1 {
        events =
            x.1.events
            ++ record { request_id = some x.0.id; actor = "system"; event_type = "coordinated" }
              ∷ [];
      } in
      elim (Result-cases (announce_run e m phone text x.0 x.0.parties logged)) [
        | inr (f, bad) ↦ absurd (let k = rw (done, bad, settle_coordination) at h in cc)
        | inl (y, told) ↦
            let rows = announce_run-SameRows e m phone text x.0 x.0.parties logged y.1 tt told in
            subst (λ z. WithinCapacity z.1)
              (ok_injective (rw (done, told, settle_coordination) at h))
              (WithinCapacity-SameRows x.1 y.1
                (record { requests = rows.requests; runs = rows.runs }) (fine x.0 x.1 refl done))
      ]
]

pub only_version : (r : Request) (db : Db) → Sound r.id db → count (is_version_of r) db.requests ≤ 1
only_version r db s =
    omega (arith, s.one, count-and (λ x. x.id == r.id) (λ x. x.version == r.version) db.requests)

coordinated_within :
    (e : Env) (m : Incoming) (phone : String) (t t' : Turn) (db db' : Db)
    → Sound t.request.id db
    → (x : (Coordination × Request) × Db) → coordinate e.config t.request e.now false db ≡ ok x
    → settle_coordination e m phone t x.0.0 x.0.1 x.1 ≡ ok (t', db')
    → WithinCapacity db'
coordinated_within e m phone t t' db db' s x answer h =
    let (sound, same_id) =
      coordinate-Stays t.request.id e.config t.request e.now false db x s answer in
    settled e m phone t t' x.0.0 x.0.1 x.1 db' (subst (λ id. Sound id x.1) (sym same_id) sound)
      (λ r d yes_now done.
        coordinate-WithinCapacity e.config t.request x.0.1 r e.now false db x.1 d s.within
          (only_version t.request db s)
          (subst (λ a. coordinate e.config t.request e.now false db ≡ ok ((a, x.0.1), x.1)) yes_now
            answer)
          done)
      h

-- When no date has more coordinated requests than its run has places, and one row at most has the
-- identifier of the request of the turn, the end of a turn (proposing a date and saving, or
-- coordinating and saving, with the notices to the parties) leaves every date within its capacity,
-- whichever branch it takes.
pub schedule-WithinCapacity :
    (e : Env) (m : Incoming) (phone : String) (t t' : Turn) (db db' : Db)
    → WithinCapacity db
    → count (λ x. x.id == t.request.id) db.requests ≤ 1
    → schedule e m phone t db ≡ ok (t', db')
    → WithinCapacity db'
unfolding schedule
schedule-WithinCapacity e m phone t t' db db' within one h =
    elim (Result-cases (propose e m phone t db)) [
      | inr (f, bad) ↦ absurd (let k = rw (bad, schedule) at h in cc)
      | inl (x, made) ↦
          let goes =
            propose-Goes e m phone t x.0 db x.1 (record { within = within; one = one }) made in
          let sound = subst (λ id. Sound id x.1) (sym goes.same_id) goes.sound in
          elim (Bool-cases (is_none x.0.reason)) [
            | inr named ↦
                subst (λ y. WithinCapacity y.1) (ok_injective (rw (made, named, schedule) at h))
                  sound.within
            | inl unnamed ↦ elim (Result-cases (coordinate e.config x.0.request e.now false x.1)) [
              | inr (f, bad) ↦ absurd (let k = rw (made, unnamed, bad, schedule) at h in cc)
              | inl (y, answer) ↦
                  coordinated_within e m phone x.0 t' x.1 db' sound y answer
                    (rw (made, unnamed, answer, schedule) at h)
            ]
          ]
    ]
