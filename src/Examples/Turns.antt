-- ===== src/Examples/Turns.antt =====
-- The commands of a customer.
use zolo.Prelude.{ℕ, ◌≤◌, true, false, none, some, [], ◌∷◌, ◌≡◌, refl, ok, err, is_none}
use zolo.Domain.{
  donor, receiver, coordinated, approve_self, ask, Party, Request, Context, FactsCommand,
}
use zolo.Policies.Intents.{explicit_approval}
use zolo.Policies.Parties.{request_protected, forbidden_party, own_party}
use zolo.Policies.Readiness.{has_approved}
use zolo.Store.Requests.{request}
use zolo.Store.Transport.{candidate_date}
use zolo.Commands.{on_request, apply}
use zolo.Commands.Base.{Outcome, message_text, target}
use zolo.Commands.Approving.{approve_self_command, approves_date, approve_schedule_command}
use zolo.Commands.Approving.Consent.{
  OwnOnly, approve_self_command-OwnOnly, approve_schedule_command-OwnOnly,
}
use zolo.Commands.Protection.{
  of_approve_self, on_request-protected, by_approve_self, apply-stranger,
}
use zolo.Commands.Cancelling.{suspended, cancel_command, tell_others}
use zolo.Commands.Cancelling.Release.{
  Released, said, cancel_command-Released, suspended-candidate_date,
}
use zolo.Commands.Facts.{all_with_facts}
use zolo.Commands.Facts.Confirmed.{AllGrounded, all_with_facts-Grounded}
use zolo.Examples.Data.{
  env, thursday, tuesday, giver, taker, party, agreed, offered, unoffered, sofa_item, request_of,
  db_of, context,
}

-- The receiver's own approval.
abbrev unapproved : Request
unapproved = record unoffered {
  parties = party donor giver true none ∷ party receiver taker false none ∷ [];
}

abbrev consent : Context
consent =
    context taker
      "\u{5d0}\u{5e0}\u{5d9} \u{5d8}\u{5dc}, \u{5d4}\u{5de}\u{5e7}\u{5d1}\u{5dc}\u{5ea}. \u{5de}\u{5d0}\u{5e9}\u{5e8}\u{5ea} \u{5d0}\u{5ea} \u{5d4}\u{5e4}\u{5e8}\u{5d8}\u{5d9}\u{5dd}."
      "" (unapproved ∷ [])

abbrev approved : Request
approved = record unapproved {
  parties =
      party donor giver true none
      ∷ record (party receiver taker true none) { approved_at = some 1000 }
      ∷ [];
}

approves : approve_self_command env consent unapproved ≡ ok approved
unfolding approve_self_command explicit_approval
approves = refl

approve_self_command-OwnOnly_example :
    (explicit_approval env.nfkc (message_text consent) ≡ true)
    × (approved ≡ record unapproved { parties = approved.parties })
    × OwnOnly (λ q. has_approved q ≡ true) taker unapproved.parties approved.parties
approve_self_command-OwnOnly_example =
    approve_self_command-OwnOnly env consent unapproved approved approves

-- The receiver agrees to the date that was offered.
abbrev agreement : Context
agreement =
    context taker "\u{5db}\u{5df}, \u{5de}\u{5d0}\u{5e9}\u{5e8}\u{5ea}"
      "\u{5e0}\u{5d0} \u{5dc}\u{5d0}\u{5e9}\u{5e8} \u{5d0}\u{5ea} \u{5d4}\u{5de}\u{5d5}\u{5e2}\u{5d3} 15/09/2026"
      (offered ∷ [])

abbrev dated : Request
dated = record offered {
  parties =
      party donor giver true (some tuesday)
      ∷ record (party receiver taker true (some tuesday)) {
        schedule_approved = true;
        schedule_approved_at = some 1000;
      }
      ∷ [];
}

agrees : approve_schedule_command env agreement (some tuesday) offered ≡ ok dated
unfolding approve_schedule_command explicit_approval own_party
agrees = refl

approve_schedule_command-OwnOnly_example :
    (d : ℕ) × (some tuesday ≡ some d)
    × (approves_date env agreement (some tuesday) d ≡ true)
    × (own : Party) × (own_party offered taker none ≡ ok own)
    × (is_none own.approved_at ≡ false)
    × (dated ≡ record offered { parties = dated.parties })
    × OwnOnly (λ q. q.schedule_approved_date ≡ some d) taker offered.parties dated.parties
approve_schedule_command-OwnOnly_example =
    approve_schedule_command-OwnOnly env agreement (some tuesday) offered dated agrees

-- A coordinated request.
abbrev placed : Request
placed = request_of coordinated (some tuesday) none agreed.parties

on_request-protected_example :
    on_request env consent (approve_self none) placed (db_of (placed ∷ [])) ≡ err request_protected
on_request-protected_example =
    on_request-protected env consent (approve_self none) placed (db_of (placed ∷ []))
      of_approve_self refl refl

-- A phone that has no part in the request.
abbrev stranger : Context
stranger = context "531234567" "\u{5db}\u{5df}" "" (unoffered ∷ [])

targets : target stranger none ≡ ok unoffered
unfolding target
targets = refl

reads : request 1 (db_of (unoffered ∷ [])) ≡ ok (unoffered, db_of (unoffered ∷ []))
unfolding request
reads = refl

apply-stranger_example :
    apply env stranger (approve_self none) (db_of (unoffered ∷ [])) ≡ err forbidden_party
apply-stranger_example =
    apply-stranger env stranger (approve_self none) (db_of (unoffered ∷ [])) unoffered unoffered
      by_approve_self refl targets reads refl

-- The donor gives up the date.
abbrev cancellation : Context
cancellation =
    context giver "\u{5d0}\u{5e0}\u{5d9} \u{5e8}\u{5d5}\u{5e6}\u{5d4} \u{5dc}\u{5d1}\u{5d8}\u{5dc}"
      "" (placed ∷ [])

abbrev cancelled_outcome : Outcome
cancelled_outcome = record {
  reply =
      some
        "\u{5d4}\u{5ea}\u{5d9}\u{5d0}\u{5d5}\u{5dd} \u{5d1}\u{5e4}\u{5e0}\u{5d9}\u{5d9}\u{5d4} 1 \u{5d1}\u{5d5}\u{5d8}\u{5dc} \u{5d5}\u{5d4}\u{5e4}\u{5e8}\u{5d8}\u{5d9}\u{5dd} \u{5e0}\u{5e9}\u{5de}\u{5e8}\u{5d5}. \u{5d4}\u{5d0}\u{5dd} \u{5d4}\u{5e4}\u{5e0}\u{5d9}\u{5d9}\u{5d4} \u{5e8}\u{5dc}\u{5d5}\u{5d5}\u{5e0}\u{5d8}\u{5d9}\u{5ea} \u{5dc}\u{5e9}\u{5d1}\u{5d5}\u{5e2} \u{5d4}\u{5d1}\u{5d0}, \u{5d0}\u{5d5} \u{5dc}\u{5d1}\u{5d8}\u{5dc} \u{5e1}\u{5d5}\u{5e4}\u{5d9}\u{5ea}?";
  request = some (suspended env placed);
  notices =
      tell_others giver
        "\u{5d4}\u{5ea}\u{5d9}\u{5d0}\u{5d5}\u{5dd} \u{5d1}\u{5e4}\u{5e0}\u{5d9}\u{5d9}\u{5d4} 1 \u{5d1}\u{5d5}\u{5d8}\u{5dc}. \u{5e0}\u{5e2}\u{5d3}\u{5db}\u{5df} \u{5dc}\u{5d2}\u{5d1}\u{5d9} \u{5d4}\u{5de}\u{5e9}\u{5da} \u{5d4}\u{5d8}\u{5d9}\u{5e4}\u{5d5}\u{5dc}."
        placed;
  human_reason = none;
}

cancels : cancel_command env cancellation ask placed ≡ ok cancelled_outcome
unfolding cancel_command
cancels = refl

cancel_command-Released_example :
    (said ask (message_text cancellation) ≡ true)
    × (r' : Request) × (cancelled_outcome.request ≡ some r')
    × Released r'
cancel_command-Released_example =
    cancel_command-Released env cancellation ask placed cancelled_outcome cancels

suspended-candidate_date_example : 20718 ≤ candidate_date (suspended env placed) thursday
suspended-candidate_date_example = suspended-candidate_date env placed thursday tuesday refl

-- The donor says that the sofa works.
abbrev working : FactsCommand
working = record {
  request_number = none;
  items = none;
  free = none;
  working = some true;
  needs_disassembly = none;
  wardrobe_small_whole = none;
  oven_type = none;
  evacuation = none;
}

abbrev report : Context
report =
    context giver "\u{5d4}\u{5e1}\u{5e4}\u{5d4} \u{5ea}\u{5e7}\u{5d9}\u{5e0}\u{5d4}" ""
      (unoffered ∷ [])

states : all_with_facts env report working (sofa_item ∷ []) ≡ ok (sofa_item ∷ [])
unfolding all_with_facts explicit_approval
states = refl

all_with_facts-Grounded_example : AllGrounded env report (sofa_item ∷ []) (sofa_item ∷ [])
all_with_facts-Grounded_example =
    all_with_facts-Grounded env report working (sofa_item ∷ []) (sofa_item ∷ []) states
