-- ===== src/Policies/Questions.antt =====
-- src/domain/policies.ts: `nextQuestion`.
pub mod Total
use zolo.Prelude.{
  ℕ, String, Bool, true, false, not, ◌&&◌, ◌||◌, Option, none, some, any, find, nat_eq, string_eq,
  option_eq, ◌==◌, if◌then◌else◌, is_none, is_true, filled, Result, ok, ◌>>=◌,
}
use zolo.Domain.{
  Role, is_donor, same_role, is_direct, RequestStatus, coordinated, human, Party, Request,
}
use zolo.Policies.Items.{is_wardrobe, is_oven, appliance}
use zolo.Policies.Parties.{is_closed, own_party}

-- Each text that `nextQuestion` can return, with the values that it holds.
pub data Question : Type 0 where
  the_status : Request → Question
  closed_request : ℕ → Question
  passed_to_human : Question
  contact_other : Role → Question
  send_other_phone : Role → Question
  small_wardrobe condition oven_kind disassembly : Question
  approve_part : Role → ℕ → Question
  settlement_of : Role → Question
  city_details : Bool → Bool → Bool → Question
  village_details : Bool → Question
  counterparty_phone : Role → Question
  approve_date : ℕ → Question
  awaiting_other : ℕ → Question
  details_saved : Question

pub record Asked : Type 0 where
  pub question : Question
  pub floor_note : Bool

abbrev plain : Question → Asked
plain q = record { question = q; floor_note = false }

abbrev pub has_other_role : Role → Request → Bool
has_other_role role r = any (λ x. not (same_role x.role role)) r.parties

abbrev pub beit_shean : String
beit_shean = "\u{5d1}\u{5d9}\u{5ea} \u{5e9}\u{5d0}\u{5df}"

-- The questions about the items, which the donor answers.
unfoldable pub item_question : Request → Option Question
item_question r =
    if any (λ i. is_wardrobe i.kind && not (is_true i.wardrobe_small_whole)) r.items
    then some small_wardrobe
    else if any (λ i. is_none i.working) r.items
    then some condition
    else if not (is_direct r.origin) && any (λ i. is_oven i.kind && is_none i.oven_type) r.items
    then some oven_kind
    else if not (is_direct r.origin)
        && any (λ i. not (appliance i) && not (is_wardrobe i.kind) && is_none i.needs_disassembly)
            r.items
    then some disassembly
    else none

-- The questions about the party's own place.
unfoldable pub party_question : Request → Party → Option Asked
party_question r p =
    if is_none p.approved_at
    then some (plain (approve_part p.role r.number))
    else if not (filled p.settlement)
    then some (plain (settlement_of p.role))
    else if not (filled p.name) || not (filled p.address)
    then some (
        let note = not p.floor_note_shown && is_none p.floor in
        if p.settlement == some beit_shean
        then record {
          question = city_details (filled p.name) (filled p.address) note;
          floor_note = note;
        }
        else plain (village_details (filled p.name)))
    else none

-- The questions about the other party and the date.
unfoldable pub closing_question : Request → Party → Question
closing_question r p =
    if not (has_other_role p.role r) then counterparty_phone p.role else elim r.proposed_run_date [
      | none ↦ details_saved
      | some proposal ↦
          if not (p.schedule_approved_date == some proposal)
          then approve_date proposal
          else elim (find (λ x. not (x.phone == p.phone)) r.parties) [
            | none ↦ details_saved
            | some second ↦
                if not (second.schedule_approved_date == some proposal)
                then awaiting_other r.number
                else details_saved
          ]
    ]

unfoldable pub open_question : Request → Party → Asked
unfolding item_question party_question closing_question
open_question r p =
    if is_direct r.origin
      && not r.represents_both_parties
      && not r.verification_contacted
      && has_other_role p.role r
    then plain (contact_other p.role)
    else if is_direct r.origin && not (has_other_role p.role r)
    then plain (send_other_phone p.role)
    else elim (if is_donor p.role then item_question r else none) [
      | some q ↦ plain q
      | none ↦ elim (party_question r p) [
        | some asked ↦ asked
        | none ↦ plain (closing_question r p)
      ]
    ]

abbrev pub is_coordinated : RequestStatus → Bool
is_coordinated coordinated = true
is_coordinated _ = false

abbrev pub is_human : RequestStatus → Bool
is_human human = true
is_human _ = false

unfoldable pub next_question : Request → String → Result Asked
unfolding open_question
next_question r phone =
    if is_coordinated r.status
    then ok (plain (the_status r))
    else if is_closed r
    then ok (plain (closed_request r.number))
    else if is_human r.status
    then ok (plain passed_to_human)
    else do p ← own_party r phone none; ok (open_question r p)
