-- ===== src/Engine/Scheduling.antt =====
-- src/application/engine.ts: the end of a turn, which proposes a date for the request, and
-- coordinates it when both parties have approved the date.
pub mod Capacity
pub mod Turns
pub mod Invariant
use zolo.Prelude.{
  ℕ, String, Bool, true, false, not, ◌&&◌, ◌||◌, Option, none, some, List, [], ◌∷◌, map, nat_eq,
  string_eq, option_eq, ◌==◌, ltb, if◌then◌else◌, is_none, or_else, filter, last?, Result, ok, err,
  template, show,
}
use zolo.Domain.{awaiting_approval, waiting_capacity, Party, Request, Incoming, Notice}
use zolo.Policies.Calendar.{Now, NextRun, next_tuesday, iso_date}
use zolo.Policies.Questions.{is_coordinated, next_question}
use zolo.Policies.Readiness.{ready_to_propose_schedule}
use zolo.Policies.Status.{status_text}
use zolo.Policies.Wording.{human_reply, question_text}
use zolo.Store.Tables.{
  formatting, Db, ApprovalStatus, awaiting, approved, denied, CapacityApproval, Tx, pure, lift,
  gets, ◌>>=◌, ◌>>◌, event,
}
use zolo.Store.Requests.{save}
use zolo.Store.Outbox.{of_message, outbound}
use zolo.Store.Transport.{
  propose_schedule_date, Coordination, not_ready, on_same_day, full, capacity_denied,
  now_coordinated, coordinate,
}
use zolo.Commands.Base.{Env, unschedule, notice}
use zolo.Commands.Linking.{was_contacted, verification_on}

-- The variables of the turn: its request, the reply, and why the staff is called.
pub record Turn : Type 0 where
  pub request : Request
  pub reply : Option String
  pub reason : Option String

abbrev replied : String → Request → Turn
replied text r = record { request = r; reply = some text; reason = none }

-- `ORDER BY requested_at DESC LIMIT 1`
abbrev latest : (CapacityApproval → Bool) → Db → Option ApprovalStatus
latest p db = elim (last? (filter p db.approvals)) [ none ↦ none | some a ↦ some a.status ]

abbrev no_date_text : Option ApprovalStatus → String
no_date_text (some awaiting) =
    "\u{5de}\u{5db}\u{5e1}\u{5ea} \u{5d4}\u{5d4}\u{5d5}\u{5d1}\u{5dc}\u{5d5}\u{5ea} \u{5dc}\u{5d9}\u{5d5}\u{5dd} \u{5e9}\u{5dc}\u{5d9}\u{5e9}\u{5d9} \u{5de}\u{5dc}\u{5d0}\u{5d4}. \u{5e9}\u{5dc}\u{5d7}\u{5ea}\u{5d9} \u{5dc}\u{5de}\u{5e0}\u{5d4}\u{5dc} \u{5d1}\u{5e7}\u{5e9}\u{5d4} \u{5dc}\u{5d0}\u{5e9}\u{5e8} \u{5d4}\u{5d5}\u{5d1}\u{5dc}\u{5d4} \u{5e0}\u{5d5}\u{5e1}\u{5e4}\u{5ea}. \u{5d4}\u{5e4}\u{5e0}\u{5d9}\u{5d9}\u{5d4} \u{5de}\u{5de}\u{5ea}\u{5d9}\u{5e0}\u{5d4}, \u{5d5}\u{5dc}\u{5d0} \u{5d9}\u{5d9}\u{5e7}\u{5d1}\u{5e2} \u{5de}\u{5d5}\u{5e2}\u{5d3} \u{5e0}\u{5d5}\u{5e1}\u{5e3} \u{5e2}\u{5d3} \u{5dc}\u{5d0}\u{5d9}\u{5e9}\u{5d5}\u{5e8} \u{5de}\u{5e4}\u{5d5}\u{5e8}\u{5e9}."
no_date_text (some denied) =
    "\u{5d4}\u{5de}\u{5e0}\u{5d4}\u{5dc} \u{5dc}\u{5d0} \u{5d0}\u{5d9}\u{5e9}\u{5e8} \u{5d4}\u{5d5}\u{5d1}\u{5dc}\u{5d4} \u{5e0}\u{5d5}\u{5e1}\u{5e4}\u{5ea} \u{5dc}\u{5d9}\u{5d5}\u{5dd} \u{5e9}\u{5dc}\u{5d9}\u{5e9}\u{5d9} \u{5d6}\u{5d4}. \u{5d4}\u{5e4}\u{5e0}\u{5d9}\u{5d9}\u{5d4} \u{5e0}\u{5e9}\u{5d0}\u{5e8}\u{5d4} \u{5d1}\u{5d4}\u{5de}\u{5ea}\u{5e0}\u{5d4} \u{5d5}\u{5dc}\u{5d0} \u{5ea}\u{5d5}\u{5d0}\u{5de}\u{5d4}."
no_date_text _ =
    "\u{5d0}\u{5d9}\u{5df} \u{5db}\u{5e8}\u{5d2}\u{5e2} \u{5de}\u{5d5}\u{5e2}\u{5d3} \u{5e9}\u{5e0}\u{5d9}\u{5ea}\u{5df} \u{5dc}\u{5d4}\u{5e6}\u{5d9}\u{5e2}. \u{5d4}\u{5e9}\u{5d0}\u{5e8}\u{5ea}\u{5d9} \u{5d0}\u{5ea} \u{5d4}\u{5e4}\u{5e0}\u{5d9}\u{5d9}\u{5d4} \u{5d1}\u{5d4}\u{5de}\u{5ea}\u{5e0}\u{5d4}; \u{5dc}\u{5d0} \u{5ea}\u{5d5}\u{5d0}\u{5dd} \u{5de}\u{5d5}\u{5e2}\u{5d3} \u{5e0}\u{5d5}\u{5e1}\u{5e3}."

-- A date is due: there is none proposed, or the one that is lies before the next run.
abbrev is_past : Now → Option ℕ → Bool
is_past now none = true
is_past now (some date) = ltb date (next_tuesday now false).date

unfoldable pub date_due : Now → Request → Bool
unfolding ready_to_propose_schedule next_tuesday
date_due now r =
    not (is_coordinated r.status) && ready_to_propose_schedule r && is_past now r.proposed_run_date

-- The request at a date that was proposed; another date than before withdraws the approvals.
abbrev pub offered_at : ℕ → Request → Request
offered_at date r = record r {
  proposed_run_date = some date;
  status = awaiting_approval;
  parties = if r.proposed_run_date == some date then r.parties else map unschedule r.parties;
}

abbrev proposal_key : Request → ℕ → String → String
proposal_key r date phone =
    unfold show iso_date in
    template ("schedule-proposal:" ∷ show r.id ∷ ":" ∷ iso_date date ∷ ":" ∷ phone ∷ [])

-- The notices of the proposal go to the parties who let themselves be contacted.
unfoldable pub announce : Env → Incoming → String → ℕ → Request → List Party → Tx (Unit {0})
unfolding was_contacted next_question question_text outbound show iso_date
announce e m phone date r [] = pure tt
announce e m phone date r (p ∷ ps) =
    if p.phone == phone || r.represents_both_parties then announce e m phone date r ps else do
      permission ← gets (λ db. verification_on db r.id p.role)
      if was_contacted permission
          then (do
            asked ← lift (next_question r p.phone)
            _ ←
                outbound formatting e.config (of_message m)
                  (notice p.phone (question_text e.before asked.question))
                  (proposal_key r date p.phone) (some r.id)
            announce e m phone date r ps)
          else announce e m phone date r ps

unfoldable pub settle_proposal : Env → Incoming → String → Request → Option ℕ → Tx Turn
unfolding save announce next_question question_text
settle_proposal e m phone r none = do
  status ← gets (latest (λ a. a.request_id == some r.id))
  saved ← save (record r { status = waiting_capacity })
  pure (replied (no_date_text status) saved)
settle_proposal e m phone r (some date) = do
  saved ← save (offered_at date r)
  asked ← lift (next_question saved phone)
  announce e m phone date saved saved.parties
  pure (replied (question_text e.before asked.question) saved)

unfoldable pub propose : Env → Incoming → String → Turn → Tx Turn
unfolding date_due propose_schedule_date settle_proposal
propose e m phone t =
    if is_none t.reason && date_due e.now t.request
    then (do
      date ← propose_schedule_date e.config t.request e.now
      settle_proposal e m phone t.request date)
    else pure t

abbrev full_text : Option ApprovalStatus → String → String
full_text (some awaiting) date = template (
    "\u{5d4}\u{5d2}\u{5e2}\u{5e0}\u{5d5} \u{5dc}\u{5de}\u{5db}\u{5e1}\u{5ea} \u{5d4}\u{5d4}\u{5d5}\u{5d1}\u{5dc}\u{5d5}\u{5ea} \u{5dc}\u{5d9}\u{5d5}\u{5dd} \u{5e9}\u{5dc}\u{5d9}\u{5e9}\u{5d9} "
    ∷ date
    ∷ ". \u{5e9}\u{5dc}\u{5d7}\u{5ea}\u{5d9} \u{5dc}\u{5de}\u{5e0}\u{5d4}\u{5dc} \u{5d1}\u{5e7}\u{5e9}\u{5d4} \u{5dc}\u{5d0}\u{5e9}\u{5e8} \u{5d4}\u{5d5}\u{5d1}\u{5dc}\u{5d4} \u{5e0}\u{5d5}\u{5e1}\u{5e4}\u{5ea}. \u{5d4}\u{5e4}\u{5e0}\u{5d9}\u{5d9}\u{5d4} \u{5de}\u{5de}\u{5ea}\u{5d9}\u{5e0}\u{5d4}; \u{5dc}\u{5d0} \u{5d0}\u{5e2}\u{5d1}\u{5d9}\u{5e8} \u{5d0}\u{5d5}\u{5ea}\u{5d4} \u{5d0}\u{5d5}\u{5d8}\u{5d5}\u{5de}\u{5d8}\u{5d9}\u{5ea} \u{5dc}\u{5e9}\u{5d1}\u{5d5}\u{5e2} \u{5d4}\u{5d1}\u{5d0} \u{5d5}\u{5dc}\u{5d0} \u{5d0}\u{5ea}\u{5d0}\u{5dd} \u{5d1}\u{5dc}\u{5d9} \u{5d0}\u{5d9}\u{5e9}\u{5d5}\u{5e8}."
    ∷ [])
full_text _ date = template (
    "\u{5de}\u{5db}\u{5e1}\u{5ea} \u{5d4}\u{5d4}\u{5d5}\u{5d1}\u{5dc}\u{5d5}\u{5ea} \u{5dc}\u{5d9}\u{5d5}\u{5dd} \u{5e9}\u{5dc}\u{5d9}\u{5e9}\u{5d9} "
    ∷ date
    ∷ " \u{5de}\u{5dc}\u{5d0}\u{5d4} \u{5d5}\u{5dc}\u{5d0} \u{5d0}\u{5d5}\u{5e9}\u{5e8}\u{5d4} \u{5d4}\u{5d5}\u{5d1}\u{5dc}\u{5d4} \u{5e0}\u{5d5}\u{5e1}\u{5e4}\u{5ea}. \u{5d4}\u{5e4}\u{5e0}\u{5d9}\u{5d9}\u{5d4} \u{5e0}\u{5e9}\u{5d0}\u{5e8}\u{5d4} \u{5d1}\u{5d4}\u{5de}\u{5ea}\u{5e0}\u{5d4} \u{5dc}\u{5dc}\u{5d0} \u{5ea}\u{5d9}\u{5d0}\u{5d5}\u{5dd}."
    ∷ [])

abbrev date_text : Option ℕ → String
date_text none = "null"
date_text (some date) = unfold iso_date in iso_date date

unfoldable pub coordination_key : Request → String → String
unfolding show iso_date
coordination_key r phone =
    template ("coordination:" ∷ show r.id ∷ ":" ∷ date_text r.run_date ∷ ":" ∷ phone ∷ [])

unfoldable pub announce_run :
    Env → Incoming → String → String → Request → List Party → Tx (Unit {0})
unfolding outbound coordination_key
announce_run e m phone text r [] = pure tt
announce_run e m phone text r (p ∷ ps) =
    if p.phone == phone then announce_run e m phone text r ps else do
      _ ←
          outbound formatting e.config (of_message m) (notice p.phone text)
            (coordination_key r p.phone) (some r.id)
      announce_run e m phone text r ps

-- What each answer of `coordinate` does with the request as it left it.
unfoldable pub settle_coordination :
    Env → Incoming → String → Turn → Coordination → Request → Tx Turn
unfolding save status_text announce_run iso_date
settle_coordination e m phone t not_ready r = pure (record t { request = r })
settle_coordination e m phone t on_same_day r =
    pure (record { request = r; reply = some human_reply; reason = some "same_day_admin_approval" })
settle_coordination e m phone t full r = do
  saved ← save (record r { status = waiting_capacity })
  status ← gets (latest (λ a. some a.run_date == r.proposed_run_date))
  pure (replied (full_text status (date_text r.proposed_run_date)) saved)
settle_coordination e m phone t capacity_denied r = do
  saved ← save (record r { status = waiting_capacity })
  pure (
      replied
        "\u{5d4}\u{5de}\u{5e0}\u{5d4}\u{5dc} \u{5dc}\u{5d0} \u{5d0}\u{5d9}\u{5e9}\u{5e8} \u{5d4}\u{5d5}\u{5d1}\u{5dc}\u{5d4} \u{5e0}\u{5d5}\u{5e1}\u{5e4}\u{5ea} \u{5dc}\u{5d9}\u{5d5}\u{5dd} \u{5e9}\u{5dc}\u{5d9}\u{5e9}\u{5d9} \u{5d4}\u{5d6}\u{5d4}. \u{5d4}\u{5e4}\u{5e0}\u{5d9}\u{5d9}\u{5d4} \u{5e0}\u{5e9}\u{5d0}\u{5e8}\u{5d4} \u{5d1}\u{5d4}\u{5de}\u{5ea}\u{5e0}\u{5d4} \u{5d5}\u{5dc}\u{5d0} \u{5ea}\u{5d5}\u{5d0}\u{5de}\u{5d4}."
        saved)
settle_coordination e m phone t now_coordinated r = do
  saved ← save r
  let text = status_text e.before (saved ∷ [])
  event "system" "coordinated" (some saved.id)
  announce_run e m phone text saved saved.parties
  pure (replied text saved)

-- The end of a turn whose commands named no reason to call the staff.
unfoldable pub schedule : Env → Incoming → String → Turn → Tx Turn
unfolding propose coordinate settle_coordination
schedule e m phone t₀ = do
  t ← propose e m phone t₀
  if is_none t.reason
      then (do
        answer ← coordinate e.config t.request e.now false
        settle_coordination e m phone t answer.0 answer.1)
      else pure t
