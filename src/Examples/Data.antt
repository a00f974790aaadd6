-- ===== src/Examples/Data.antt =====
-- The values of the examples.
use zolo.Prelude.{ℕ, String, Bool, true, false, Option, none, some, List, [], ◌∷◌, if◌then◌else◌}
use zolo.Domain.{
  sofa, Role, donor, receiver, direct, collecting, RequestStatus, awaiting_approval, Item, Party,
  Request, live, text, no_media, Incoming, Conversation, Context, MessageKind, MediaState,
}
use zolo.Policies.Calendar.{Now}
use zolo.Store.Tables.{Config, Db, allowed, ServiceLocation}
use zolo.Commands.Base.{Env}

abbrev pub config : Config
config = record {
  admin_phone = "584152101";
  transport_capacity = 10;
  bot_mode = live;
  live_allowlist = "";
}

-- Thursday, the tenth of September 2026; the next run is on day 20711.
abbrev pub thursday : Now
thursday = record { instant = 1000; today = 20706; hour = 9; wall = 1000 }

abbrev pub env : Env
env = record { config = config; now = thursday; nfkc = λ s. s; before = λ _ _. false }

abbrev pub tuesday : ℕ
tuesday = 20711

abbrev pub giver : String
giver = "521234567"

abbrev pub taker : String
taker = "541234567"

abbrev pub party : Role → String → Bool → Option ℕ → Party
party role phone approved date = record {
  role = role;
  phone = phone;
  name = some "Dana";
  settlement = some "Beit Shean";
  address = some "Main street 1";
  floor = none;
  floor_note_shown = false;
  approved_at = if approved then some 500 else none;
  approved_by = if approved then some phone else none;
  schedule_approved = false;
  schedule_approved_date = date;
  schedule_approved_at = none;
}

abbrev pub sofa_item : Item
sofa_item = record {
  kind = sofa;
  description = "sofa";
  quantity = 1;
  free = some true;
  working = some true;
  needs_disassembly = some false;
  wardrobe_small_whole = none;
  oven_type = none;
  evacuation = none;
}

abbrev pub request_of : RequestStatus → Option ℕ → Option ℕ → List Party → Request
request_of status run_date proposal parties = record {
  id = 1;
  number = 1;
  version = 3;
  status = status;
  origin = direct;
  verification_contacted = true;
  items = sofa_item ∷ [];
  parties = parties;
  photo_ids = [];
  locations = [];
  verification_states = [];
  run_date = run_date;
  proposed_run_date = proposal;
  earliest_run_date = none;
  preferred_time = none;
  represents_both_parties = false;
  closed_at = none;
  human_reason = none;
  created_at = 0;
}

-- Both parties approved the date.
abbrev pub agreed : Request
agreed =
    request_of awaiting_approval none (some tuesday)
      (party donor giver true (some tuesday) ∷ party receiver taker true (some tuesday) ∷ [])

-- The receiver has still to approve it.
abbrev pub offered : Request
offered =
    request_of awaiting_approval none (some tuesday)
      (party donor giver true (some tuesday) ∷ party receiver taker true none ∷ [])

-- Nobody has been offered a date yet.
abbrev pub unoffered : Request
unoffered =
    request_of collecting none none
      (party donor giver true none ∷ party receiver taker true none ∷ [])

abbrev pub place : ServiceLocation
place = record { name = "Beit Shean"; aliases = "Beit Shean" ∷ []; decision = allowed }

abbrev pub conversation : String → Conversation
conversation phone = record {
  id = 7;
  phone = phone;
  chat_id = "972541234567@c.us";
  in_human_mode = false;
  selected_request_id = none;
  version = 0;
  pending_counterparty_name = none;
  pending_counterparty_phone = none;
}

abbrev pub db_of : List Request → Db
db_of requests = record {
  fresh = 100;
  counter = 1;
  requests = requests;
  conversations = conversation taker ∷ [];
  searches = [];
  matches = [];
  verifications = [];
  events = [];
  runs = [];
  approvals = [];
  locations = place ∷ [];
  streets = [];
  outbox = [];
}

abbrev pub incoming : MessageKind → MediaState → Option ℕ → String → String → Incoming
incoming kind state media phone said = record {
  id = 1;
  seq = 1;
  external_id = "m1";
  mode = live;
  chat_id = "972541234567@c.us";
  phone = some phone;
  kind = kind;
  text = said;
  contacts = [];
  media_id = media;
  media_state = state;
  transcript = none;
}

abbrev pub context : String → String → String → List Request → Context
context phone said previous requests = record {
  conversation = conversation phone;
  requests = requests;
  candidates = [];
  message = incoming text no_media none phone said;
  history = record { from_user = false; content = previous } ∷ [];
}
