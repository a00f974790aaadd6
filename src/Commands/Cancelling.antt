-- ===== src/Commands/Cancelling.antt =====
-- src/application/commands.ts: the commands `cancel` and `escalate` on a request.
pub mod Release
use zolo.Prelude.{
  ℕ, ◌+◌, String, Bool, true, false, not, Option, none, some, List, [], ◌∷◌, map, string_eq, ◌==◌,
  if◌then◌else◌, or_else, filter, Failure, app_error, error, error_status, Result, ok, err,
  nonempty, template, join, show,
}
use zolo.Regex.{Regex, words, test}
use zolo.Domain.{
  RequestStatus, coordinated, awaiting_approval, cancelled, cancel_pending, human, CancelChoice,
  ask, next_week, final, EscalateReason, borderline_area, unusual_access, evacuation_reason,
  customer_request, unclear, technical, Item, Party, Request, Context, Notice,
}
use zolo.Policies.Questions.{is_coordinated}
use zolo.Policies.Calendar.{next_tuesday}
use zolo.Policies.Wording.{human_reply}
use zolo.Commands.Base.{Env, Outcome, output, notify, for_human, notice, message_text, unschedule}

-- The words of an explicit cancellation, of a final one, and of a wish to go on.
abbrev cancels : Regex
cancels = words "\u{5dc}\u{5d1}\u{5d8}\u{5dc}" (
    "\u{5d1}\u{5d9}\u{5d8}\u{5d5}\u{5dc}" ∷ "\u{5de}\u{5d1}\u{5d8}\u{5dc}"
    ∷ "\u{5de}\u{5d1}\u{5d8}\u{5dc}\u{5ea}" ∷ [])

abbrev cancels_finally : Regex
cancels_finally = words "\u{5e1}\u{5d5}\u{5e4}\u{5d9}\u{5ea}" (
    "\u{5e1}\u{5d5}\u{5e4}\u{5d9}" ∷ "\u{5dc}\u{5d2}\u{5de}\u{5e8}\u{5d9}"
    ∷ "\u{5dc}\u{5d0} \u{5e8}\u{5dc}\u{5d5}\u{5d5}\u{5e0}\u{5d8}\u{5d9}"
    ∷ "\u{5dc}\u{5d1}\u{5d8}\u{5dc}" ∷ "\u{5d1}\u{5d9}\u{5d8}\u{5d5}\u{5dc}"
    ∷ "\u{5ea}\u{5d1}\u{5d8}\u{5dc}\u{5d5}" ∷ "\u{5ea}\u{5d1}\u{5d8}\u{5dc}"
    ∷ "\u{5de}\u{5d1}\u{5d8}\u{5dc}" ∷ "\u{5de}\u{5d1}\u{5d8}\u{5dc}\u{5ea}" ∷ [])

abbrev goes_on : Regex
goes_on =
    words "\u{5e9}\u{5d1}\u{5d5}\u{5e2} \u{5d4}\u{5d1}\u{5d0}"
      ("\u{5e8}\u{5dc}\u{5d5}\u{5d5}\u{5e0}\u{5d8}\u{5d9}" ∷ "\u{5db}\u{5df}" ∷ [])

unfoldable pub says_cancel : String → Bool
unfolding test
says_cancel text = test cancels text

unfoldable pub says_final : String → Bool
unfolding test
says_final text = test cancels_finally text

unfoldable pub says_next_week : String → Bool
unfolding test
says_next_week text = test goes_on text

abbrev pub cancellation_not_explicit : Failure
cancellation_not_explicit =
    app_error "cancellation_not_explicit" 400
      "\u{5e0}\u{5d0} \u{5dc}\u{5e6}\u{5d9}\u{5d9}\u{5df} \u{5d1}\u{5de}\u{5e4}\u{5d5}\u{5e8}\u{5e9} \u{5d0}\u{5dd} \u{5d1}\u{5e8}\u{5e6}\u{5d5}\u{5e0}\u{5da} \u{5dc}\u{5d1}\u{5d8}\u{5dc} \u{5d0}\u{5ea} \u{5d4}\u{5d4}\u{5d5}\u{5d1}\u{5dc}\u{5d4}."

-- The parties other than the speaker, each with the same text.
abbrev pub tell_others : String → String → Request → List Notice
tell_others phone text r =
    map (λ (p : Party). notice p.phone text) (filter (λ p. not (p.phone == phone)) r.parties)

-- The request behind `choice: "ask"`: off its date, a week later at the earliest.
unfoldable pub suspended : Env → Request → Request
unfolding next_tuesday
suspended e r = record r {
  earliest_run_date =
      some (elim r.run_date [ some d ↦ d | none ↦ (next_tuesday e.now false).date ] + 7);
  run_date = none;
  proposed_run_date = none;
  status = cancel_pending;
  parties = map unschedule r.parties;
}

abbrev pub abandoned : Env → Request → Request
abandoned e r = record r {
  status = cancelled;
  run_date = none;
  proposed_run_date = none;
  closed_at = some e.now.instant;
  parties = map unschedule r.parties;
}

abbrev pub resumed : Request → Request
resumed r = record r {
  status = awaiting_approval;
  proposed_run_date = none;
  parties = map unschedule r.parties;
}

abbrev is_cancel_pending : RequestStatus → Bool
is_cancel_pending cancel_pending = true
is_cancel_pending _ = false

abbrev item_names : Request → String
item_names r =
    let names = join ", " (map (λ (i : Item). i.description) r.items) in
    if nonempty names then names else "\u{5e4}\u{5e8}\u{5d9}\u{5d8}"

unfoldable pub suspended_notice : Request → String
unfolding show
suspended_notice r = template (
    "\u{5d4}\u{5ea}\u{5d9}\u{5d0}\u{5d5}\u{5dd} \u{5d1}\u{5e4}\u{5e0}\u{5d9}\u{5d9}\u{5d4} "
    ∷ show r.number
    ∷ " \u{5d1}\u{5d5}\u{5d8}\u{5dc}. \u{5e0}\u{5e2}\u{5d3}\u{5db}\u{5df} \u{5dc}\u{5d2}\u{5d1}\u{5d9} \u{5d4}\u{5de}\u{5e9}\u{5da} \u{5d4}\u{5d8}\u{5d9}\u{5e4}\u{5d5}\u{5dc}."
    ∷ [])

unfoldable pub suspended_reply : Request → String
unfolding show
suspended_reply r = template (
    "\u{5d4}\u{5ea}\u{5d9}\u{5d0}\u{5d5}\u{5dd} \u{5d1}\u{5e4}\u{5e0}\u{5d9}\u{5d9}\u{5d4} "
    ∷ show r.number
    ∷ " \u{5d1}\u{5d5}\u{5d8}\u{5dc} \u{5d5}\u{5d4}\u{5e4}\u{5e8}\u{5d8}\u{5d9}\u{5dd} \u{5e0}\u{5e9}\u{5de}\u{5e8}\u{5d5}. \u{5d4}\u{5d0}\u{5dd} \u{5d4}\u{5e4}\u{5e0}\u{5d9}\u{5d9}\u{5d4} \u{5e8}\u{5dc}\u{5d5}\u{5d5}\u{5e0}\u{5d8}\u{5d9}\u{5ea} \u{5dc}\u{5e9}\u{5d1}\u{5d5}\u{5e2} \u{5d4}\u{5d1}\u{5d0}, \u{5d0}\u{5d5} \u{5dc}\u{5d1}\u{5d8}\u{5dc} \u{5e1}\u{5d5}\u{5e4}\u{5d9}\u{5ea}?"
    ∷ [])

unfoldable pub abandoned_text : Request → String
unfolding show
abandoned_text r = template (
    "\u{5e4}\u{5e0}\u{5d9}\u{5d9}\u{5d4} "
    ∷ show r.number
    ∷ " \u{5d1}\u{5d5}\u{5d8}\u{5dc}\u{5d4}: "
    ∷ item_names r
    ∷ ". \u{5dc}\u{5d0} \u{5ea}\u{5ea}\u{5d5}\u{5d0}\u{5dd} \u{5d4}\u{5d5}\u{5d1}\u{5dc}\u{5d4}."
    ∷ [])

abbrev pub resumed_reply : String
resumed_reply =
    "\u{5d4}\u{5e4}\u{5e0}\u{5d9}\u{5d9}\u{5d4} \u{5e0}\u{5e9}\u{5de}\u{5e8}\u{5d4}. \u{5d0}\u{5d1}\u{5d3}\u{5d5}\u{5e7} \u{5de}\u{5d5}\u{5e2}\u{5d3} \u{5e4}\u{5e0}\u{5d5}\u{5d9} \u{5dc}\u{5d9}\u{5d5}\u{5dd} \u{5e9}\u{5dc}\u{5d9}\u{5e9}\u{5d9}; \u{5d4}\u{5ea}\u{5d0}\u{5e8}\u{5d9}\u{5da} \u{5d9}\u{5d9}\u{5d7}\u{5e9}\u{5d1} \u{5e8}\u{5e7} \u{5db}\u{5d4}\u{5e6}\u{5e2}\u{5d4} \u{5e2}\u{5d3} \u{5e9}\u{5e9}\u{5e0}\u{5d9} \u{5d4}\u{5e6}\u{5d3}\u{5d3}\u{5d9}\u{5dd} \u{5d9}\u{5d0}\u{5e9}\u{5e8}\u{5d5} \u{5d0}\u{5d5}\u{5ea}\u{5d5} \u{5d1}\u{5de}\u{5e4}\u{5d5}\u{5e8}\u{5e9}."

unfoldable pub cancel_command : Env → Context → CancelChoice → Request → Result Outcome
unfolding says_cancel says_final says_next_week suspended suspended_notice suspended_reply
    abandoned_text
cancel_command e ctx ask r =
    if not (says_cancel (message_text ctx))
    then err cancellation_not_explicit
    else ok (
        notify (tell_others ctx.conversation.phone (suspended_notice r) r)
          (output (suspended_reply r) (some (suspended e r))))
cancel_command e ctx final r =
    if not (says_final (message_text ctx))
    then err (error "final_cancellation_not_explicit")
    else ok (
        notify
          (if is_coordinated r.status
            then tell_others ctx.conversation.phone (abandoned_text r) r
            else [])
          (output (abandoned_text r) (some (abandoned e r))))
cancel_command e ctx next_week r =
    if not (is_cancel_pending r.status)
    then err (error_status "cancellation_not_pending" 409)
    else if not (says_next_week (message_text ctx))
    then err (error "reschedule_not_explicit")
    else ok (output resumed_reply (some (resumed r)))

abbrev pub reason_text : EscalateReason → String
reason_text borderline_area = "borderline_area"
reason_text unusual_access = "unusual_access"
reason_text evacuation_reason = "evacuation"
reason_text customer_request = "customer_request"
reason_text unclear = "unclear"
reason_text technical = "technical"

-- `escalate` on a request: a coordinated one keeps its status.
abbrev pub to_human : String → Request → Request
to_human reason r =
    if is_coordinated r.status then r else record r { status = human; human_reason = some reason }

abbrev pub escalate_command : EscalateReason → Request → Outcome
escalate_command reason r =
    for_human (reason_text reason) (output human_reply (some (to_human (reason_text reason) r)))
