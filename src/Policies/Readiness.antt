-- ===== src/Policies/Readiness.antt =====
-- src/domain/policies.ts: `readyToProposeSchedule` and `readyToCoordinate`.
pub mod Consent
pub mod Known
use zolo.Prelude.{
  Bool, true, false, not, ◌&&◌, ◌||◌, Option, some, all, nat_eq, string_eq, option_eq, ◌==◌,
  is_some, is_none, is_true, filled, length,
}
use zolo.Domain.{
  is_direct, RequestStatus, collecting, available, awaiting_approval, waiting_capacity, Evacuation,
  different, Item, Party, Request,
}
use zolo.Policies.Items.{is_wardrobe, is_oven, appliance, item_error}

abbrev pub proposable_status : RequestStatus → Bool
proposable_status collecting = true
proposable_status available = true
proposable_status awaiting_approval = true
proposable_status waiting_capacity = true
proposable_status _ = false

abbrev pub is_different : Option Evacuation → Bool
is_different (some different) = true
is_different _ = false

-- `p.approved_at && p.approved_by === p.phone`
abbrev pub has_approved : Party → Bool
has_approved p = is_some p.approved_at && p.approved_by == some p.phone

abbrev pub party_ready : Party → Bool
party_ready p = has_approved p && filled p.name && filled p.settlement && filled p.address

abbrev pub item_ready : Request → Item → Bool
item_ready r i =
    is_true i.free
    && is_true i.working
    && (not (is_wardrobe i.kind) || is_true i.wardrobe_small_whole)
    && (not (is_oven i.kind) || is_some i.oven_type)
    && (is_direct r.origin || appliance i || is_wardrobe i.kind || is_some i.needs_disassembly)
    && not (is_different i.evacuation)

unfoldable pub ready_to_propose_schedule : Request → Bool
unfolding item_error
ready_to_propose_schedule r =
    proposable_status r.status
    && length r.parties == 2
    && (not (is_direct r.origin) || r.represents_both_parties || r.verification_contacted)
    && is_none (item_error r.items true)
    && all party_ready r.parties
    && all (item_ready r) r.items

unfoldable pub ready_to_coordinate : Request → Bool
unfolding ready_to_propose_schedule
ready_to_coordinate r =
    is_none r.run_date
    && is_some r.proposed_run_date
    && ready_to_propose_schedule r
    && all (λ p. has_approved p && p.schedule_approved_date == r.proposed_run_date) r.parties
