-- ===== src/Domain/Messages.antt =====
-- src/domain/types.ts: messages, conversations and the context of a turn.
use zolo.Prelude.{ℕ, String, Bool, Option, List}
use zolo.Domain.Requests.{Request}

pub data Mode : Type 0 where
  shadow live simulation : Mode

pub data CandidateState : Type 0 where
  waiting_photo queued_photo presented interested unavailable : CandidateState

pub record Candidate : Type 0 where
  pub request : Request
  pub match_id : Option ℕ
  pub state : Option CandidateState

-- `human` is the mode "human", the other mode is "bot".
pub record Conversation : Type 0 where
  pub id : ℕ
  pub phone : String
  pub chat_id : String
  pub in_human_mode : Bool
  pub selected_request_id : Option ℕ
  pub version : ℕ
  pub pending_counterparty_name : Option String
  pub pending_counterparty_phone : Option String

pub data MessageKind : Type 0 where
  text image voice contact location : MessageKind

pub data MediaState : Type 0 where
  no_media pending ready failed : MediaState

pub record ContactCard : Type 0 where
  pub phone : String
  pub name : Option String

pub record Incoming : Type 0 where
  pub id : ℕ
  pub seq : ℕ
  pub external_id : String
  pub mode : Mode
  pub chat_id : String
  pub phone : Option String
  pub kind : MessageKind
  pub text : String
  pub contacts : List ContactCard
  pub media_id : Option ℕ
  pub media_state : MediaState
  pub transcript : Option String

-- An entry of the history; `from_user` is the role "user", the other role is "assistant".
pub record HistoryEntry : Type 0 where
  pub from_user : Bool
  pub content : String

pub record Context : Type 0 where
  pub conversation : Conversation
  pub requests : List Request
  pub candidates : List Candidate
  pub message : Incoming
  pub history : List HistoryEntry

pub record Notice : Type 0 where
  pub phone : String
  pub text : String
  pub media_id : Option ℕ
  pub match_id : Option ℕ
