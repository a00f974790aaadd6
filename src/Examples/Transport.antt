-- ===== src/Examples/Transport.antt =====
-- The transport runs: the dates that are offered, and the coordination.
use zolo.Prelude.{
  String, ◌≤◌, ◌<◌, true, false, none, some, [], ◌∷◌, ◌≡◌, ◌↔◌, inl, refl, arith, ok,
}
use zolo.Domain.{Role, donor, receiver, Party, Request}
use zolo.Policies.Calendar.{weekday, next_tuesday}
use zolo.Policies.Calendar.Tuesdays.{
  next_tuesday-weekday, next_tuesday-earliest, next_tuesday-same_day,
}
use zolo.Store.Tables.{Db, CapacityApproval, awaiting, denied}
use zolo.Store.Requests.{save}
use zolo.Store.Requests.Saving.{written}
use zolo.Store.Transport.{
  prepare_run, candidate_date, propose_schedule_date, now_coordinated, coordinate,
}
use zolo.Store.Transport.Dates.{
  candidate_date-weekday, candidate_date-earliest, Open, propose_schedule_date-Open,
}
use zolo.Store.Transport.Room.{Granted, scheduled, coordinate-Granted}
use zolo.Policies.Readiness.Known.{Movable}
use zolo.Store.Transport.Known.{coordinate-Movable}
use zolo.Store.Transport.Capacity.{WithinCapacity, coordinate-WithinCapacity}
use zolo.Store.Approval.{resolve_capacity_approval, was_denied, grant}
use zolo.Store.Approval.Authority.{resolve_capacity_approval-admin, Raised, grant-Raised}
use zolo.Policies.Phone.{canonical_phone}
use zolo.Examples.Data.{config, thursday, tuesday, agreed, unoffered, db_of, party, giver, taker}

abbrev db : Db
db = db_of (agreed ∷ [])

abbrev made : Db
made = record db { runs = record { date = tuesday; capacity = 10; is_open = true } ∷ [] }

abbrev party_on : Role → String → Party
party_on role phone = record (party role phone true (some tuesday)) { schedule_approved = true }

abbrev placed : Request
placed = scheduled tuesday agreed

abbrev saved : Request
saved = record placed { version = 4 }

abbrev after : Db
after = written placed (party_on donor giver ∷ party_on receiver taker ∷ []) made

coordinates : coordinate config agreed thursday false db ≡ ok ((now_coordinated, placed), made)
unfolding coordinate next_tuesday
coordinates = refl

coordinate-Granted_example : Granted config agreed placed thursday false db made
coordinate-Granted_example =
    coordinate-Granted config agreed placed thursday false db made coordinates

coordinate-Movable_example :
    Movable agreed × (placed.items ≡ agreed.items) × (placed.parties ≡ agreed.parties)
coordinate-Movable_example =
    coordinate-Movable config agreed placed thursday false db made coordinates

saves : save placed made ≡ ok (saved, after)
unfolding save canonical_phone
saves = refl

within : WithinCapacity db
within date = omega arith

coordinate-WithinCapacity_example : WithinCapacity after
coordinate-WithinCapacity_example =
    coordinate-WithinCapacity config agreed placed saved thursday false db made after within
      (omega arith) coordinates saves

next_tuesday-weekday_example : weekday (next_tuesday thursday true).date ≡ 2
next_tuesday-weekday_example = next_tuesday-weekday thursday true

next_tuesday-earliest_example : (next_tuesday thursday false).date ≤ 20718
next_tuesday-earliest_example =
    next_tuesday-earliest thursday 20718 (omega arith) refl (inl (λ e. absurd (omega (arith, e))))

next_tuesday-same_day_example :
    ((next_tuesday thursday false).same_day ≡ true)
    ↔ ((weekday thursday.today ≡ 2) × (thursday.hour < 20) × (false ≡ false))
next_tuesday-same_day_example = next_tuesday-same_day thursday false

candidate_date-weekday_example : weekday (candidate_date unoffered thursday) ≡ 2
candidate_date-weekday_example = candidate_date-weekday unoffered thursday

candidate_date-earliest_example :
    20720 ≤ candidate_date (record unoffered { earliest_run_date = some 20720 }) thursday
candidate_date-earliest_example =
    candidate_date-earliest (record unoffered { earliest_run_date = some 20720 }) thursday 20720
      refl

abbrev unoffered_db : Db
unoffered_db = db_of (unoffered ∷ [])

abbrev unoffered_made : Db
unoffered_made = record unoffered_db {
  runs = record { date = tuesday; capacity = 10; is_open = true } ∷ [];
}

offers :
    propose_schedule_date config unoffered thursday unoffered_db ≡ ok (some tuesday, unoffered_made)
unfolding propose_schedule_date
offers = refl

propose_schedule_date-Open_example :
    (tuesday ≡ candidate_date unoffered thursday)
    × (unoffered_made ≡ prepare_run config tuesday unoffered_db)
    × Open thursday tuesday unoffered_made
propose_schedule_date-Open_example =
    propose_schedule_date-Open config unoffered thursday unoffered_db unoffered_made tuesday offers

abbrev question : CapacityApproval
question = record {
  id = 50;
  run_date = tuesday;
  requested_capacity = 11;
  request_id = some 1;
  status = awaiting;
}

abbrev asked : Db
asked = record made { approvals = question ∷ [] }

abbrev raised : Db
raised = record asked { runs = record { date = tuesday; capacity = 11; is_open = true } ∷ [] }

grants : grant question asked ≡ ok (tt, raised)
unfolding grant
grants = refl

grant-Raised_example : Raised question asked raised
grant-Raised_example = grant-Raised question asked raised tt grants

abbrev refused_db : Db
refused_db = record asked {
  approvals = record question { status = denied } ∷ [];
  events =
      record { request_id = none; actor = "admin"; event_type = "capacity_approval_denied" } ∷ [];
}

refuses :
    resolve_capacity_approval config (some tuesday) false "+972 58-415-2101" asked
    ≡ ok (was_denied, refused_db)
unfolding resolve_capacity_approval canonical_phone
refuses = refl

resolve_capacity_approval-admin_example : canonical_phone "+972 58-415-2101" ≡ ok "584152101"
resolve_capacity_approval-admin_example =
    resolve_capacity_approval-admin config (some tuesday) false "+972 58-415-2101" asked refused_db
      was_denied refuses
