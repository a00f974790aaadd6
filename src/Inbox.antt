-- ===== src/Inbox.antt =====
-- src/infrastructure/store.ts: the messages that arrive, and `ingest`.
-- The rows of the table `messages` stand in the order of their sequence numbers. The values that
-- `processed_at` and `error_code` of a row were given are its endings, the last one last: the column
-- is null as long as there is none. The queue takes every job that is sent.
pub mod Identity
pub mod Turns
pub mod Endings
pub mod Rows
pub mod Merging
pub mod Writes
pub mod Waiting
pub mod Replies
pub mod Senders
pub mod Once
use zolo.Prelude.{
  ℕ, suc, String, Bool, true, false, not, ◌&&◌, Option, none, some, List, [], ◌∷◌, ◌++◌, nat_eq,
  string_eq, ◌==◌, if◌then◌else◌, find, is_empty, is_some, update,
}
use zolo.Domain.{
  Mode, MessageKind, text, image, voice, contact, location, MediaState, no_media, pending, ready,
  ContactCard,
}
use zolo.Media.{StoredMedia}
use zolo.Store.Tables.{Db}

-- Why a message needs no more work: `error_code` at the time at which `processed_at` is set.
pub data Ending : Type 0 where
  answered : Option String → Ending
  access_denied identity_unresolved : Ending
  released : String → Ending
  coalesced_into superseded_by : ℕ → Ending

-- `ParsedMessage`; the location is the text that JSON writes for it.
pub record ParsedMessage : Type 0 where
  pub external_id : String
  pub chat_id : String
  pub kind : MessageKind
  pub text : String
  pub media_url : Option String
  pub contacts : List ContactCard
  pub location : Option String

-- A row of `messages`; the phone is the one of its contact. `turn` is turn_id and turn_generation.
pub record Row : Type 0 where
  pub id : ℕ
  pub external_id : String
  pub mode : Mode
  pub chat_id : String
  pub phone : Option String
  pub conversation_id : Option ℕ
  pub kind : MessageKind
  pub text : String
  pub contacts : List ContactCard
  pub location : Option String
  pub media_url : Option String
  pub media_state : MediaState
  pub media_id : Option ℕ
  pub reply : Option String
  pub turn : Option (ℕ × ℕ)
  pub endings : List Ending

pub record MediaRow : Type 0 where
  pub id : ℕ
  pub message_id : ℕ
  pub file : StoredMedia

pub data TurnStatus : Type 0 where
  turn_pending turn_processing turn_completed turn_superseded : TurnStatus

pub record Turn : Type 0 where
  pub id : ℕ
  pub conversation_id : Option ℕ
  pub generation : ℕ
  pub status : TurnStatus

pub record TurnMessage : Type 0 where
  pub turn_id : ℕ
  pub message_id : ℕ
  pub position : ℕ

-- `queue.send(c, name, { id }, key)`
pub record Job : Type 0 where
  pub name : String
  pub id : ℕ
  pub key : String

pub record Inbox : Type 0 where
  pub db : Db
  pub messages : List Row
  pub identities : List (String × String)
  pub media : List MediaRow
  pub turns : List Turn
  pub turn_messages : List TurnMessage
  pub jobs : List Job

-- `processed_at IS NOT NULL`
abbrev pub is_processed : Row → Bool
is_processed r = not (is_empty r.endings)

abbrev pub has_id : ℕ → Row → Bool
has_id id r = r.id == id

-- `["image", "voice"].includes(kind)`
abbrev pub takes_media : MessageKind → Bool
takes_media image = true
takes_media voice = true
takes_media _ = false

-- An update of the row of an identifier.
abbrev pub set_row : ℕ → (Row → Row) → Inbox → Inbox
set_row id f x = record x { messages = update (has_id id) f x.messages }

abbrev pub add_job : String → ℕ → String → Inbox → Inbox
add_job name id key x = record x {
  jobs = x.jobs ++ record { name = name; id = id; key = key } ∷ [];
}

-- The columns of a new row.
abbrev pub new_row : ℕ → Mode → ParsedMessage → Row
new_row id mode p = record {
  id = id;
  external_id = p.external_id;
  mode = mode;
  chat_id = p.chat_id;
  phone = none;
  conversation_id = none;
  kind = p.kind;
  text = p.text;
  contacts = p.contacts;
  location = p.location;
  media_url = p.media_url;
  media_state = if takes_media p.kind then pending else no_media;
  media_id = none;
  reply = none;
  turn = none;
  endings = [];
}

abbrev pub with_media : ℕ → Row → Row
with_media media_id r = record r { media_state = ready; media_id = some media_id; media_url = none }

-- A file that was taken with the message: its row, and the columns that point to it.
abbrev pub capture_row : ℕ → Option StoredMedia → Row → Row
capture_row media_id none r = r
capture_row media_id (some file) r = with_media media_id r

abbrev pub media_rows : ℕ → ℕ → Option StoredMedia → List MediaRow → List MediaRow
media_rows media_id id none rows = rows
media_rows media_id id (some file) rows =
    rows ++ record { id = media_id; message_id = id; file = file } ∷ []

-- The jobs of a new message: its place in the queue of the session, and the download of its file.
abbrev pub ingest_jobs : String → (show_id : ℕ → String) → ℕ → Bool → List Job → List Job
ingest_jobs session show_id id downloads jobs =
    let queued = jobs ++ record { name = "ingest"; id = id; key = session } ∷ [] in
    if downloads
    then queued ++ record { name = "capture"; id = id; key = show_id id } ∷ []
    else queued

abbrev pub is_new_file : Option StoredMedia → Bool
is_new_file none = true
is_new_file (some _) = false

-- The insertion of a message that was not seen before.
abbrev pub accept :
    String → (ℕ → String) → ParsedMessage → Mode → Option StoredMedia → Inbox → (ℕ × Bool) × Inbox
accept session show_id p mode captured x =
    let id = x.db.fresh in
    let media_id = suc id in
    (
      (id, false),
      record x {
        db = record x.db { fresh = suc media_id };
        messages = x.messages ++ capture_row media_id captured (new_row id mode p) ∷ [];
        media = media_rows media_id id captured x.media;
        jobs = ingest_jobs session show_id id (is_new_file captured && takes_media p.kind) x.jobs;
      },
    )

-- `ingest(p, mode, captured)` in a session: the identifier of the message, and whether it was there.
unfoldable pub ingest :
    String → (ℕ → String) → ParsedMessage → Mode → Option StoredMedia → Inbox → (ℕ × Bool) × Inbox
ingest session show_id p mode captured x =
    elim (find (λ r. r.external_id == p.external_id) x.messages) [
      | some r ↦ ((r.id, true), x)
      | none ↦ accept session show_id p mode captured x
    ]
