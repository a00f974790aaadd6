-- ===== src/Store/Transport.antt =====
-- src/infrastructure/store.ts: the transport runs. `prepareTransportRun`, `proposeScheduleDate`,
-- `coordinate`, and the administrator's decision on capacity.
pub mod Dates
pub mod Room
pub mod Known
pub mod Rows
pub mod Capacity
use zolo.Prelude.{
  ℕ, suc, ◌+◌, ◌-◌, ◌%◌, min, String, Bool, true, false, ◌&&◌, ◌||◌, not, Option, none, some, [],
  ◌∷◌, ◌++◌, nat_eq, string_eq, option_eq, ◌==◌, ltb, leb, if◌then◌else◌, is_some, find, all, count,
  error_status, ok, template, show,
}
use zolo.Domain.{RequestStatus, awaiting_approval, waiting_capacity, coordinated, Party, Request}
use zolo.Policies.Calendar.{Now, weekday, next_tuesday, iso_date, day_label}
use zolo.Policies.Readiness.{ready_to_coordinate}
use zolo.Store.Tables.{
  formatted, Config, Db, TransportRun, CapacityApproval, ApprovalStatus, awaiting, denied, Decision,
  allowed, Tx, pure, throw, gets, modify, ◌>>=◌, ◌>>◌, event, takes_capacity,
}
use zolo.Store.Outbox.{outbound}

abbrev pub default_capacity : ℕ
default_capacity = 10

abbrev pub max_capacity : ℕ
max_capacity = 100

-- `SELECT … FROM transport_runs WHERE date=$1`
abbrev pub run_on : ℕ → Db → Option TransportRun
run_on date db = find (λ t. t.date == date) db.runs

-- The requests that take a place on a date, and those that were offered one.
abbrev pub used_on : ℕ → Db → ℕ
used_on date db = count (λ r. r.run_date == some date && takes_capacity r.status) db.requests

abbrev is_awaiting_approval : RequestStatus → Bool
is_awaiting_approval awaiting_approval = true
is_awaiting_approval _ = false

abbrev pub proposed_on : ℕ → Db → ℕ
proposed_on date db =
    count (λ r. r.proposed_run_date == some date && is_awaiting_approval r.status) db.requests

unfoldable pub prepare_run : Config → ℕ → Db → Db
prepare_run config date db = if is_some (run_on date db) then db else record db {
  runs =
      db.runs
      ++ record {
        date = date;
        capacity = min config.transport_capacity default_capacity;
        is_open = true;
      }
        ∷ [];
}

pub data CapacityAnswer : Type 0 where
  is_pending is_denied at_limit : CapacityAnswer

capacity_text : ℕ → ℕ → String
unfolding show iso_date day_label
capacity_text capacity date = template (
    "\u{5d4}\u{5d2}\u{5e2}\u{5e0}\u{5d5} \u{5dc}\u{5be}"
    ∷ show capacity
    ∷ " \u{5d4}\u{5d5}\u{5d1}\u{5dc}\u{5d5}\u{5ea} \u{5de}\u{5d0}\u{5d5}\u{5e9}\u{5e8}\u{5d5}\u{5ea} \u{5d1}\u{5d9}\u{5d5}\u{5dd} \u{5e9}\u{5dc}\u{5d9}\u{5e9}\u{5d9} "
    ∷ day_label date
    ∷ ". \u{5d4}\u{5d0}\u{5dd} \u{5dc}\u{5d0}\u{5e9}\u{5e8} \u{5d4}\u{5d5}\u{5d1}\u{5dc}\u{5d4} \u{5e0}\u{5d5}\u{5e1}\u{5e4}\u{5ea} \u{5d0}\u{5d7}\u{5ea} (\u{5de}\u{5db}\u{5e1}\u{5d4} "
    ∷ show (capacity + 1)
    ∷ ")?\n\u{5d4}\u{5e9}\u{5d1}/\u{5d9}: \u{5db}\u{5df} "
    ∷ iso_date date
    ∷ " \u{5d0}\u{5d5} \u{5dc}\u{5d0} "
    ∷ iso_date date
    ∷ ". \u{5e2}\u{5d3} \u{5dc}\u{5d0}\u{5d9}\u{5e9}\u{5d5}\u{5e8}, \u{5dc}\u{5d0} \u{5e0}\u{5e6}\u{5d9}\u{5e2} \u{5d5}\u{5dc}\u{5d0} \u{5e0}\u{5ea}\u{5d0}\u{5dd} \u{5d4}\u{5d5}\u{5d1}\u{5dc}\u{5d5}\u{5ea} \u{5e0}\u{5d5}\u{5e1}\u{5e4}\u{5d5}\u{5ea} \u{5dc}\u{5d9}\u{5d5}\u{5dd} \u{5d6}\u{5d4}."
    ∷ [])

abbrev answer_of : ApprovalStatus → CapacityAnswer
answer_of denied = is_denied
answer_of _ = is_pending

-- The row of the question, under a new identifier.
abbrev added_question : Request → ℕ → ℕ → Db → Db
added_question r date capacity db = record db {
  fresh = suc db.fresh;
  approvals =
      db.approvals
      ++ record {
        id = db.fresh;
        run_date = date;
        requested_capacity = capacity + 1;
        request_id = some r.id;
        status = awaiting;
      }
        ∷ [];
}

-- The message to the administrator.
send_question : Config → Request → ℕ → ℕ → ℕ → Tx (Option ℕ)
unfolding outbound capacity_text show
send_question config r date capacity id =
    outbound formatted config
      (record { mode = config.bot_mode; phone = some config.admin_phone; chat_id = none })
      (record {
        phone = config.admin_phone;
        text = capacity_text capacity date;
        media_id = none;
        match_id = none;
      })
      (template ("capacity-approval:" ∷ show id ∷ [])) (some r.id)

new_question : Config → Request → ℕ → ℕ → Tx CapacityAnswer
unfolding send_question
new_question config r date capacity = do
  id ← gets (λ db. db.fresh)
  modify (added_question r date capacity)
  send_question config r date capacity id
  event "system" "capacity_approval_requested" (some r.id)
  pure is_pending

abbrev question_for : ℕ → ℕ → Db → Option CapacityApproval
question_for date capacity db =
    find (λ a. a.run_date == date && a.requested_capacity == capacity + 1) db.approvals

-- `askForCapacityApproval`: one question to the administrator for each date and capacity.
unfoldable pub ask_for_capacity : Config → Request → ℕ → ℕ → Tx CapacityAnswer
unfolding new_question
ask_for_capacity config r date capacity db =
    if leb max_capacity capacity then ok (at_limit, db) else elim (question_for date capacity db) [
      | some approval ↦ ok (answer_of approval.status, db)
      | none ↦ new_question config r date capacity db
    ]

-- The first Tuesday from the later of the next run and the request's earliest date.
unfoldable pub candidate_date : Request → Now → ℕ
unfolding next_tuesday
candidate_date r now =
    let first = (next_tuesday now false).date in
    let date : ℕ = elim r.earliest_run_date [
      | none ↦ first
      | some earliest ↦ if ltb first earliest then earliest else first
    ] in
    date + (2 + 7 - weekday date) % 7

-- The decision on the run of the candidate date, by the places that are taken and offered.
unfoldable pub offer_place :
    Config → Request → Now → ℕ → ℕ → ℕ → Option TransportRun → Tx (Option ℕ)
unfolding ask_for_capacity
offer_place config r now date used proposed none = pure none
offer_place config r now date used proposed (some t) =
    let next = next_tuesday now false in
    if not t.is_open || date == next.date && next.same_day
    then pure none
    else if leb t.capacity used
    then (do ask_for_capacity config r date t.capacity; pure none)
    else if leb t.capacity (used + proposed)
    then pure none
    else pure (some date)

unfoldable pub propose_schedule_date : Config → Request → Now → Tx (Option ℕ)
unfolding candidate_date prepare_run offer_place
propose_schedule_date config r now db =
    let date = candidate_date r now in
    let made = prepare_run config date db in
    offer_place config r now date (used_on date made) (proposed_on date made) (run_on date made)
      made

pub data Coordination : Type 0 where
  not_ready on_same_day full capacity_denied now_coordinated : Coordination

abbrev is_allowed : Decision → Bool
is_allowed allowed = true
is_allowed _ = false

-- `SELECT decision FROM service_locations WHERE name=$1`
abbrev pub in_area : Db → Party → Bool
in_area db p = elim (find (λ l. some l.name == p.settlement) db.locations) [
  | none ↦ false
  | some l ↦ is_allowed l.decision
]

abbrev pub refused : CapacityAnswer → Coordination
refused is_denied = capacity_denied
refused _ = full

-- The decision on the run of the date, by the places in use.
unfoldable pub take_place :
    Config → Request → ℕ → ℕ → Option TransportRun → Tx (Coordination × Request)
unfolding ask_for_capacity
take_place config r date used none = throw (error_status "internal_error" 500)
take_place config r date used (some t) =
    if not t.is_open
    then pure (full, record r { status = waiting_capacity })
    else if leb t.capacity used
    then (do
      answer ← ask_for_capacity config (record r { status = waiting_capacity }) date t.capacity
      pure (refused answer, record r { status = waiting_capacity }))
    else pure (
      now_coordinated,
      record r { status = coordinated; run_date = some date; proposed_run_date = none },
    )

-- The part of `coordinate` behind its checks of the request.
unfoldable pub coordinate_on : Config → Request → ℕ → Tx (Coordination × Request)
unfolding prepare_run take_place
coordinate_on config r date db =
    let made = prepare_run config date db in
    take_place config r date (used_on date made) (run_on date made) made

-- `coordinate(c, r, now, adminSameDay)`, and `r` as it leaves it.
unfoldable pub coordinate_proposed :
    Config → Request → Now → Bool → Option ℕ → Tx (Coordination × Request)
unfolding coordinate_on
coordinate_proposed config r now admin_same_day none = pure (not_ready, r)
coordinate_proposed config r now admin_same_day (some date) =
    let today = next_tuesday now false in
    if today.same_day && today.date == date && not admin_same_day
    then pure (on_same_day, r)
    else coordinate_on config r date

unfoldable pub coordinate : Config → Request → Now → Bool → Tx (Coordination × Request)
unfolding coordinate_proposed ready_to_coordinate
coordinate config r now admin_same_day db =
    if not (ready_to_coordinate r)
    then ok ((not_ready, r), db)
    else if not (all (in_area db) r.parties)
    then ok ((not_ready, r), db)
    else coordinate_proposed config r now admin_same_day r.proposed_run_date db
