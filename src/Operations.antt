-- ===== src/Operations.antt =====
-- src/application/runtime.ts: `operations`, the part that gives the waiting requests their places
-- after the administrator made room. The counts that it reports to the administrator are left out.
pub mod Waitlist
use zolo.Prelude.{
  ℕ, zero, suc, String, Bool, true, false, Option, none, some, List, [], ◌∷◌, map, if◌then◌else◌,
  is_none, filter, Failure, Result, ok, err, template, show,
}
use zolo.Domain.{RequestStatus, awaiting_approval, waiting_capacity, Party, Request}
use zolo.Policies.Calendar.{iso_date}
use zolo.Policies.Questions.{next_question}
use zolo.Policies.Status.{status_text}
use zolo.Policies.Wording.{question_text}
use zolo.Store.Tables.{formatted, formatting, Db, Tx, pure, lift, gets, ◌>>=◌, ◌>>◌, event}
use zolo.Store.Requests.{request, save}
use zolo.Store.Outbox.{Origin, outbound}
use zolo.Store.Transport.{propose_schedule_date, Coordination, now_coordinated, coordinate}
use zolo.Commands.Base.{Env, unschedule, notice}
use zolo.Commands.Linking.{was_contacted, verification_on}
use zolo.Engine.Scheduling.{coordination_key}

abbrev pub is_waiting_capacity : RequestStatus → Bool
is_waiting_capacity waiting_capacity = true
is_waiting_capacity _ = false

-- A message that answers nobody's.
abbrev pub of_system : Env → Origin
of_system e = record { mode = e.config.bot_mode; phone = none; chat_id = none }

-- The request at a date that was found for it; nobody approved that date yet.
abbrev pub given : ℕ → Request → Request
given date r = record r {
  proposed_run_date = some date;
  status = awaiting_approval;
  parties = map unschedule r.parties;
}

pub offer_key : Request → ℕ → String → String
unfolding show iso_date
offer_key r date phone =
    template
      ("schedule-proposal-after-capacity:" ∷ show r.id ∷ ":" ∷ iso_date date ∷ ":" ∷ phone ∷ [])

-- The question about the date goes to the parties who let themselves be contacted.
unfoldable pub offer : Env → ℕ → Request → List Party → Tx (Unit {0})
unfolding was_contacted next_question question_text outbound offer_key
offer e date r [] = pure tt
offer e date r (p ∷ ps) = do
  permission ← gets (λ db. verification_on db r.id p.role)
  if was_contacted permission
      then (do
        asked ← lift (next_question r p.phone)
        _ ←
            outbound formatting e.config (of_system e)
              (notice p.phone (question_text e.before asked.question)) (offer_key r date p.phone)
              (some r.id)
        offer e date r ps)
      else offer e date r ps

unfoldable pub give : Env → Request → Option ℕ → Tx (Unit {0})
unfolding save offer
give e r none = pure tt
give e r (some date) = do
  saved ← save (given date r)
  event "system" "schedule_proposed_after_capacity_approval" (some saved.id)
  offer e date saved saved.parties

unfoldable pub tell : Env → String → Request → List Party → Tx (Unit {0})
unfolding outbound coordination_key
tell e text r [] = pure tt
tell e text r (p ∷ ps) = do
  _ ←
      outbound formatted e.config (of_system e) (notice p.phone text) (coordination_key r p.phone)
        (some r.id)
  tell e text r ps

unfoldable pub confirm : Env → Coordination → Request → Tx (Unit {0})
unfolding save status_text tell
confirm e now_coordinated r = do
  saved ← save r
  event "system" "coordinated_from_waitlist" (some saved.id)
  tell e (status_text e.before (saved ∷ [])) saved saved.parties
confirm e _ r = pure tt

-- The transaction of one waiting request.
unfoldable pub promote_row : Env → Request → Tx (Unit {0})
unfolding propose_schedule_date give coordinate confirm
promote_row e r =
    if is_none r.proposed_run_date
    then (do date ← propose_schedule_date e.config r e.now; give e r date)
    else do answer ← coordinate e.config r e.now false; confirm e answer.0 answer.1

unfoldable pub promote : Env → ℕ → Tx (Unit {0})
unfolding request promote_row
promote e id = do r ← request id; if is_waiting_capacity r.status then promote_row e r else pure tt

-- Each request has a transaction of its own: a failure ends the sweep, and what the requests before
-- it did is kept.
unfoldable pub sweep : Env → List ℕ → Db → Result (Unit {0}) × Db
unfolding promote
sweep e [] db = (ok tt, db)
sweep e (id ∷ ids) db = elim (promote e id db) [
  | err why ↦ (err why, db)
  | ok done ↦ sweep e ids done.1
]

first : ℕ → List ℕ → List ℕ
first zero xs = []
first (suc n) [] = []
first (suc n) (x ∷ xs) = x ∷ first n xs

-- `ORDER BY number LIMIT 20`: the requests stand in the order of their numbers.
waiting_ids : Db → List ℕ
unfolding first
waiting_ids db =
    first 20 (map (λ (r : Request). r.id) (filter (λ r. is_waiting_capacity r.status) db.requests))

unfoldable pub operations : Env → Db → Result (Unit {0}) × Db
unfolding sweep waiting_ids
operations e db = sweep e (waiting_ids db) db
