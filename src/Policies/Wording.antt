-- ===== src/Policies/Wording.antt =====
-- src/domain/policies.ts: the fixed texts, and the wording of the questions.
use zolo.Prelude.{String, Bool, [], ◌∷◌, if◌then◌else◌, template, show}
use zolo.Policies.Questions.{
  Question, the_status, closed_request, passed_to_human, contact_other, send_other_phone,
  small_wardrobe, condition, oven_kind, disassembly, approve_part, settlement_of, city_details,
  village_details, counterparty_phone, approve_date, awaiting_other, details_saved,
}
use zolo.Policies.Calendar.{day_label}
use zolo.Policies.Status.{role_choice, status_text}

abbrev pub human_reply : String
human_reply =
    "\u{5d4}\u{5e2}\u{5d1}\u{5e8}\u{5ea}\u{5d9} \u{5d0}\u{5ea} \u{5d4}\u{5e4}\u{5e0}\u{5d9}\u{5d9}\u{5d4} \u{5dc}\u{5d8}\u{5d9}\u{5e4}\u{5d5}\u{5dc} \u{5d0}\u{5e0}\u{5d5}\u{5e9}\u{5d9}. \u{5e0}\u{5e2}\u{5d3}\u{5db}\u{5df}."

abbrev pub photo_thanks : String
photo_thanks =
    "\u{5ea}\u{5d5}\u{5d3}\u{5d4}, \u{5d4}\u{5ea}\u{5de}\u{5d5}\u{5e0}\u{5d4} \u{5d4}\u{5ea}\u{5e7}\u{5d1}\u{5dc}\u{5d4}."

abbrev pub photo_first : String
photo_first =
    "\u{5d1}\u{5e9}\u{5de}\u{5d7}\u{5d4}. \u{5db}\u{5d3}\u{5d9} \u{5dc}\u{5d4}\u{5de}\u{5e9}\u{5d9}\u{5da}, \u{5e0}\u{5d0} \u{5dc}\u{5e9}\u{5dc}\u{5d5}\u{5d7} \u{5ea}\u{5de}\u{5d5}\u{5e0}\u{5d4} \u{5e9}\u{5dc} \u{5d4}\u{5e4}\u{5e8}\u{5d9}\u{5d8}."

abbrev pub same_day_window : String
same_day_window =
    "\u{5d0}\u{5d9} \u{5d0}\u{5e4}\u{5e9}\u{5e8} \u{5dc}\u{5d0}\u{5e1}\u{5d5}\u{5e3} \u{5d4}\u{5d9}\u{5d5}\u{5dd}. \u{5d4}\u{5d4}\u{5d5}\u{5d1}\u{5dc}\u{5d5}\u{5ea} \u{5e8}\u{5e7} \u{5d1}\u{5d9}\u{5d5}\u{5dd} \u{5e9}\u{5dc}\u{5d9}\u{5e9}\u{5d9} \u{5d1}\u{5d9}\u{5df} 16:00 \u{5dc}\u{5be}20:00."

abbrev pub outside_text : String
outside_text =
    "\u{5d0}\u{5e0}\u{5d7}\u{5e0}\u{5d5} \u{5e4}\u{5d5}\u{5e2}\u{5dc}\u{5d9}\u{5dd} \u{5e8}\u{5e7} \u{5d1}\u{5d1}\u{5d9}\u{5ea} \u{5e9}\u{5d0}\u{5df}, \u{5de}\u{5e1}\u{5d9}\u{5dc}\u{5d5}\u{5ea}, \u{5d9}\u{5e8}\u{5d3}\u{5e0}\u{5d4}, \u{5d1}\u{5d9}\u{5ea} \u{5d0}\u{5dc}\u{5e4}\u{5d0}, \u{5d8}\u{5d9}\u{5e8}\u{5ea} \u{5e6}\u{5d1}\u{5d9}, \u{5db}\u{5e4}\u{5e8} \u{5e8}\u{5d5}\u{5e4}\u{5d9}\u{5df} \u{5d5}\u{5de}\u{5d7}\u{5d5}\u{5dc}\u{5d4}. \u{5dc}\u{5d0} \u{5e0}\u{5d5}\u{5db}\u{5dc} \u{5dc}\u{5e1}\u{5d9}\u{5d9}\u{5e2} \u{5d1}\u{5d4}\u{5d5}\u{5d1}\u{5dc}\u{5d4} \u{5d4}\u{5d6}\u{5d5}."

-- The text of a question; that of a coordinated request is its status.
unfoldable pub question_text : (String → String → Bool) → Question → String
unfolding show day_label status_text
question_text before (the_status r) = status_text before (r ∷ [])
question_text before (closed_request n) =
    template (
      "\u{5e4}\u{5e0}\u{5d9}\u{5d9}\u{5d4} "
      ∷ show n
      ∷ " \u{5e1}\u{5d2}\u{5d5}\u{5e8}\u{5d4}."
      ∷ [])
question_text before passed_to_human = human_reply
question_text before (contact_other role) = template (
    "\u{5d4}\u{5d0}\u{5dd} \u{5ea}\u{5e8}\u{5e6}\u{5d4} \u{5e9}\u{5e0}\u{5e4}\u{5e0}\u{5d4} \u{5dc}"
    ∷ role_choice role "\u{5de}\u{5e7}\u{5d1}\u{5dc}" "\u{5de}\u{5d5}\u{5e1}\u{5e8}"
    ∷ " \u{5dc}\u{5e6}\u{5d5}\u{5e8}\u{5da} \u{5d0}\u{5d9}\u{5de}\u{5d5}\u{5ea} \u{5d4}\u{5e4}\u{5e8}\u{5d8}\u{5d9}\u{5dd}?"
    ∷ [])
question_text before (send_other_phone role) = template (
    "\u{5d4}\u{5d0}\u{5dd} \u{5ea}\u{5e8}\u{5e6}\u{5d4} \u{5e9}\u{5e0}\u{5e4}\u{5e0}\u{5d4} \u{5dc}"
    ∷ role_choice role "\u{5de}\u{5e7}\u{5d1}\u{5dc}" "\u{5de}\u{5d5}\u{5e1}\u{5e8}"
    ∷ " \u{5dc}\u{5e6}\u{5d5}\u{5e8}\u{5da} \u{5d0}\u{5d9}\u{5de}\u{5d5}\u{5ea} \u{5d4}\u{5e4}\u{5e8}\u{5d8}\u{5d9}\u{5dd}? \u{5d0}\u{5dd} \u{5db}\u{5df}, \u{5e0}\u{5d0} \u{5dc}\u{5e9}\u{5dc}\u{5d5}\u{5d7} \u{5de}\u{5e1}\u{5e4}\u{5e8} \u{5d8}\u{5dc}\u{5e4}\u{5d5}\u{5df} \u{5d0}\u{5d5} \u{5db}\u{5e8}\u{5d8}\u{5d9}\u{5e1} \u{5d0}\u{5d9}\u{5e9} \u{5e7}\u{5e9}\u{5e8}."
    ∷ [])
question_text before small_wardrobe =
    "\u{5d0}\u{5e4}\u{5e9}\u{5e8} \u{5dc}\u{5d4}\u{5e2}\u{5d1}\u{5d9}\u{5e8} \u{5e8}\u{5e7} \u{5d0}\u{5e8}\u{5d5}\u{5df} \u{5e7}\u{5d8}\u{5df} \u{5e9}\u{5e0}\u{5d9}\u{5ea}\u{5df} \u{5dc}\u{5d4}\u{5e2}\u{5d1}\u{5d9}\u{5e8} \u{5e9}\u{5dc}\u{5dd}, \u{5dc}\u{5dc}\u{5d0} \u{5e4}\u{5d9}\u{5e8}\u{5d5}\u{5e7} \u{5d5}\u{5d4}\u{5e8}\u{5db}\u{5d1}\u{5d4}. \u{5d4}\u{5d0}\u{5dd} \u{5d6}\u{5d4} \u{5d0}\u{5e8}\u{5d5}\u{5df} \u{5db}\u{5d6}\u{5d4}?"
question_text before condition =
    "\u{5d4}\u{5d0}\u{5dd} \u{5d4}\u{5e4}\u{5e8}\u{5d9}\u{5d8} \u{5ea}\u{5e7}\u{5d9}\u{5df} \u{5d5}\u{5e9}\u{5de}\u{5d9}\u{5e9} \u{5d1}\u{5be}100%?"
question_text before oven_kind =
    "\u{5d4}\u{5d0}\u{5dd} \u{5d6}\u{5d4} \u{5ea}\u{5e0}\u{5d5}\u{5e8} \u{5d1}\u{5d9}\u{5dc}\u{5d8}\u{5be}\u{5d0}\u{5d9}\u{5df} \u{5d0}\u{5d5} \u{5ea}\u{5e0}\u{5d5}\u{5e8} \u{5de}\u{5e9}\u{5d5}\u{5dc}\u{5d1}?"
question_text before disassembly =
    "\u{5d4}\u{5d0}\u{5dd} \u{5e0}\u{5d3}\u{5e8}\u{5e9} \u{5e4}\u{5d9}\u{5e8}\u{5d5}\u{5e7} \u{5e9}\u{5dc} \u{5d4}\u{5e4}\u{5e8}\u{5d9}\u{5d8} \u{5dc}\u{5e6}\u{5d5}\u{5e8}\u{5da} \u{5d4}\u{5d4}\u{5d5}\u{5d1}\u{5dc}\u{5d4}?"
question_text before (approve_part role n) = template (
    "\u{5e0}\u{5d0} \u{5dc}\u{5d0}\u{5e9}\u{5e8} \u{5d0}\u{5ea} \u{5d7}\u{5dc}\u{5e7}\u{5da} \u{5d1}"
    ∷ role_choice role "\u{5de}\u{5e1}\u{5d9}\u{5e8}\u{5d4}" "\u{5e7}\u{5d1}\u{5dc}\u{5d4}"
    ∷ " \u{5d1}\u{5e4}\u{5e0}\u{5d9}\u{5d9}\u{5d4} "
    ∷ show n
    ∷ ". \u{5d0}\u{5d9}\u{5e9}\u{5d5}\u{5e8} \u{5d7}\u{5dc}\u{5e7}\u{5da} \u{5e0}\u{5e4}\u{5e8}\u{5d3} \u{5de}\u{5d0}\u{5d9}\u{5e9}\u{5d5}\u{5e8} \u{5de}\u{5d5}\u{5e2}\u{5d3} \u{5d4}\u{5d4}\u{5d5}\u{5d1}\u{5dc}\u{5d4}."
    ∷ [])
question_text before (settlement_of role) =
    role_choice role
      "\u{5d1}\u{5d0}\u{5d9}\u{5d6}\u{5d4} \u{5d9}\u{5d9}\u{5e9}\u{5d5}\u{5d1} \u{5e0}\u{5de}\u{5e6}\u{5d0} \u{5d4}\u{5e4}\u{5e8}\u{5d9}\u{5d8}?"
      "\u{5dc}\u{5d0}\u{5d9}\u{5d6}\u{5d4} \u{5d9}\u{5d9}\u{5e9}\u{5d5}\u{5d1} \u{5e6}\u{5e8}\u{5d9}\u{5da} \u{5dc}\u{5d4}\u{5e2}\u{5d1}\u{5d9}\u{5e8} \u{5d0}\u{5ea} \u{5d4}\u{5e4}\u{5e8}\u{5d9}\u{5d8}?"
question_text before (city_details has_name has_address note) = template (
    (if has_name
      then "\u{5ea}\u{5d5}\u{5d3}\u{5d4}. \u{5d7}\u{5e1}\u{5e8}\u{5d4} \u{5e8}\u{5e7} \u{5d4}\u{5db}\u{5ea}\u{5d5}\u{5d1}\u{5ea} \u{5d4}\u{5de}\u{5d3}\u{5d5}\u{5d9}\u{5e7}\u{5ea}."
      else if has_address
      then "\u{5ea}\u{5d5}\u{5d3}\u{5d4}. \u{5d7}\u{5e1}\u{5e8} \u{5e8}\u{5e7} \u{5d4}\u{5e9}\u{5dd}."
      else "\u{5e0}\u{5d0} \u{5dc}\u{5e6}\u{5d9}\u{5d9}\u{5df} \u{5e9}\u{5dd} \u{5d5}\u{5db}\u{5ea}\u{5d5}\u{5d1}\u{5ea}.")
    ∷ (if note
        then " \u{5d1}\u{5d1}\u{5e0}\u{5d9}\u{5d9}\u{5df} \u{5e2}\u{5dd} \u{5e7}\u{5d5}\u{5de}\u{5d5}\u{5ea} — \u{5dc}\u{5e6}\u{5d9}\u{5d9}\u{5df} \u{5e7}\u{5d5}\u{5de}\u{5d4}."
        else "")
    ∷ [])
question_text before (village_details has_name) =
    if has_name
    then "\u{5ea}\u{5d5}\u{5d3}\u{5d4}. \u{5d7}\u{5e1}\u{5e8} \u{5e8}\u{5e7} \u{5ea}\u{5d9}\u{5d0}\u{5d5}\u{5e8} \u{5db}\u{5dc}\u{5dc}\u{5d9} \u{5e9}\u{5dc} \u{5d4}\u{5de}\u{5e7}\u{5d5}\u{5dd} \u{5d1}\u{5d9}\u{5d9}\u{5e9}\u{5d5}\u{5d1}, \u{5dc}\u{5de}\u{5e9}\u{5dc} \u{5f4}\u{5d1}\u{5db}\u{5e0}\u{5d9}\u{5e1}\u{5d4}\u{5f4} \u{5d0}\u{5d5} \u{5f4}\u{5dc}\u{5d9}\u{5d3} \u{5d4}\u{5de}\u{5d6}\u{5db}\u{5d9}\u{5e8}\u{5d5}\u{5ea}\u{5f4}."
    else "\u{5e0}\u{5d0} \u{5dc}\u{5e6}\u{5d9}\u{5d9}\u{5df} \u{5e9}\u{5dd} \u{5d5}\u{5ea}\u{5d9}\u{5d0}\u{5d5}\u{5e8} \u{5db}\u{5dc}\u{5dc}\u{5d9} \u{5e9}\u{5dc} \u{5d4}\u{5de}\u{5e7}\u{5d5}\u{5dd} \u{5d1}\u{5d9}\u{5d9}\u{5e9}\u{5d5}\u{5d1}, \u{5dc}\u{5de}\u{5e9}\u{5dc} \u{5f4}\u{5d1}\u{5db}\u{5e0}\u{5d9}\u{5e1}\u{5d4}\u{5f4} \u{5d0}\u{5d5} \u{5f4}\u{5dc}\u{5d9}\u{5d3} \u{5d4}\u{5de}\u{5d6}\u{5db}\u{5d9}\u{5e8}\u{5d5}\u{5ea}\u{5f4}."
question_text before (counterparty_phone role) =
    role_choice role
      "\u{5d4}\u{5d0}\u{5dd} \u{5d9}\u{5e9} \u{5de}\u{5e7}\u{5d1}\u{5dc} \u{5de}\u{5e1}\u{5d5}\u{5d9}\u{5dd}? \u{5d0}\u{5dd} \u{5db}\u{5df}, \u{5e0}\u{5d0} \u{5dc}\u{5e9}\u{5dc}\u{5d5}\u{5d7} \u{5d0}\u{5ea} \u{5de}\u{5e1}\u{5e4}\u{5e8}\u{5d5} \u{5d0}\u{5d5} \u{5db}\u{5e8}\u{5d8}\u{5d9}\u{5e1} \u{5d0}\u{5d9}\u{5e9} \u{5e7}\u{5e9}\u{5e8}."
      "\u{5e0}\u{5d0} \u{5dc}\u{5e9}\u{5dc}\u{5d5}\u{5d7} \u{5d0}\u{5ea} \u{5de}\u{5e1}\u{5e4}\u{5e8} \u{5d4}\u{5de}\u{5d5}\u{5e1}\u{5e8} \u{5d0}\u{5d5} \u{5db}\u{5e8}\u{5d8}\u{5d9}\u{5e1} \u{5d0}\u{5d9}\u{5e9} \u{5e7}\u{5e9}\u{5e8}."
question_text before (approve_date d) = template (
    "\u{5d4}\u{5d5}\u{5e6}\u{5e2} \u{5de}\u{5d5}\u{5e2}\u{5d3} \u{5d4}\u{5d4}\u{5d5}\u{5d1}\u{5dc}\u{5d4} \u{5dc}\u{5d9}\u{5d5}\u{5dd} \u{5e9}\u{5dc}\u{5d9}\u{5e9}\u{5d9} "
    ∷ day_label d
    ∷ ", \u{5d1}\u{5d9}\u{5df} 16:00–20:00. \u{5e0}\u{5d0} \u{5dc}\u{5d0}\u{5e9}\u{5e8} \u{5d0}\u{5ea} \u{5d4}\u{5de}\u{5d5}\u{5e2}\u{5d3} \u{5d1}\u{5de}\u{5e4}\u{5d5}\u{5e8}\u{5e9}."
    ∷ [])
question_text before (awaiting_other n) = template (
    "\u{5d0}\u{5d9}\u{5e9}\u{5e8}\u{5ea} \u{5d0}\u{5ea} \u{5de}\u{5d5}\u{5e2}\u{5d3} \u{5d4}\u{5d4}\u{5d5}\u{5d1}\u{5dc}\u{5d4} \u{5d1}\u{5e4}\u{5e0}\u{5d9}\u{5d9}\u{5d4} "
    ∷ show n
    ∷ ". \u{5de}\u{5de}\u{5ea}\u{5d9}\u{5e0}\u{5d9}\u{5dd} \u{5dc}\u{5d0}\u{5d9}\u{5e9}\u{5d5}\u{5e8} \u{5d4}\u{5de}\u{5d5}\u{5e2}\u{5d3} \u{5e9}\u{5dc} \u{5d4}\u{5e6}\u{5d3} \u{5d4}\u{5e9}\u{5e0}\u{5d9}."
    ∷ [])
question_text before details_saved =
    "\u{5d4}\u{5e4}\u{5e8}\u{5d8}\u{5d9}\u{5dd} \u{5e0}\u{5e9}\u{5de}\u{5e8}\u{5d5}. \u{5e0}\u{5e2}\u{5d3}\u{5db}\u{5df}."
