-- ===== src/Domain/Commands.antt =====
-- src/domain/types.ts: the commands of a plan.
use zolo.Prelude.{ℕ, ℤ, String, Bool, Option, List}
use zolo.Domain.Requests.{ItemKind, ItemInput, Role, OvenType, Evacuation}

pub record DonateCommand : Type 0 where
  pub items : List ItemInput
  pub counterparty_phone : Option String
  pub counterparty_name : Option String
  pub direct : Option Bool
  pub free : Option Bool
  pub working : Option Bool

pub record ReceiveCommand : Type 0 where
  pub items : List ItemInput
  pub donor_phone : Option String

pub record DetailsCommand : Type 0 where
  pub request_number : Option ℕ
  pub role : Option Role
  pub name : Option String
  pub settlement : Option String
  pub address : Option String
  pub floor : Option ℤ

pub record FactsCommand : Type 0 where
  pub request_number : Option ℕ
  pub items : Option (List ItemInput)
  pub free : Option Bool
  pub working : Option Bool
  pub needs_disassembly : Option Bool
  pub wardrobe_small_whole : Option Bool
  pub oven_type : Option OvenType
  pub evacuation : Option Evacuation

pub record CounterpartyCommand : Type 0 where
  pub request_number : Option ℕ
  pub phone : Option String
  pub name : Option String

pub record CandidateCommand : Type 0 where
  pub request_number : Option ℕ
  pub phone : String
  pub name : Option String

pub data CancelChoice : Type 0 where
  ask next_week final : CancelChoice

pub data EscalateReason : Type 0 where
  borderline_area unusual_access evacuation_reason customer_request unclear technical :
      EscalateReason

-- The date of `approve_schedule` is `none` where the text is no day of the calendar.
pub data Command : Type 0 where
  donate : DonateCommand → Command
  receive_from_donor : ReceiveCommand → Command
  seek : ItemKind → Command
  interest : ℕ → Command
  details : DetailsCommand → Command
  item_facts : FactsCommand → Command
  counterparty : CounterpartyCommand → Command
  approve_self : Option ℕ → Command
  approve_schedule : Option ℕ → Option ℕ → Command
  select : ℕ → Command
  cancel : Option ℕ → CancelChoice → Command
  escalate : Option ℕ → EscalateReason → Command
  status : Command
  contact_counterparty : Option ℕ → Bool → Command
  counterparty_candidate : CandidateCommand → Command
  confirm_counterparty : Option ℕ → Bool → Command
  next : Command
  clarify_duplicate : ℕ → Command
