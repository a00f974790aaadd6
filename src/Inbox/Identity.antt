-- ===== src/Inbox/Identity.antt =====
-- src/application/engine.ts: `ingestNext`, which finds the customer behind a message.
use zolo.Prelude.{
  ◌>>=◌, ℕ, suc, String, Bool, false, not, ◌&&◌, ◌||◌, Option, none, some, List, [], ◌∷◌, ◌++◌,
  nat_eq, string_eq, ◌==◌, if◌then◌else◌, find, any, is_some, is_none, update, template, text_take,
  Result, ok, err, retryable,
}
use zolo.Domain.{Conversation, Notice}
use zolo.Policies.Phone.{canonical_phone}
use zolo.Store.Tables.{Config, Db, formatted}
use zolo.Store.Outbox.{Origin, outbound}
use zolo.Inbox.{Inbox, Row, is_processed, identity_unresolved, set_row, add_job}
use zolo.Inbox.Turns.{ended}
use zolo.Inbox.Endings.{message, log}

-- `contact_id IS NULL AND processed_at IS NULL ORDER BY seq LIMIT 1`
abbrev pub is_unresolved : Row → Bool
is_unresolved r = is_none r.phone && not (is_processed r)

unfoldable pub first_unresolved : Inbox → Option Row
first_unresolved x = find is_unresolved x.messages

-- The phone of a chat: the one that is stored, else the answer of WhatsApp.
unfoldable pub phone_of : (String → Result String) → String → Inbox → Result String
phone_of resolve chat x = elim (find (λ i. i.0 == chat) x.identities) [
  | some i ↦ ok i.1
  | none ↦ resolve chat
]

-- The text for the administrator about a chat whose phone was not found.
abbrev pub identity_text : Row → String
identity_text m = template (
    "\u{5e0}\u{5d3}\u{5e8}\u{5e9} \u{5d8}\u{5d9}\u{5e4}\u{5d5}\u{5dc}: \u{5d6}\u{5d4}\u{5d5}\u{5ea} WhatsApp \u{5dc}\u{5d0} \u{5e0}\u{5e4}\u{5ea}\u{5e8}\u{5d4}.\n\u{5de}\u{5e1}\u{5e4}\u{5e8} \u{5e4}\u{5e0}\u{5d9}\u{5d9}\u{5d4}: \u{5d8}\u{5e8}\u{5dd} \u{5e0}\u{5e4}\u{5ea}\u{5d7}\u{5d4}\n\u{5d8}\u{5dc}\u{5e4}\u{5d5}\u{5df}: \u{5dc}\u{5d0} \u{5d9}\u{5d3}\u{5d5}\u{5e2} ("
    ∷ m.chat_id
    ∷ ")\n\u{5e4}\u{5e8}\u{5d9}\u{5d8} \u{5d5}\u{5de}\u{5e1}\u{5dc}\u{5d5}\u{5dc}: \u{5dc}\u{5d0} \u{5d9}\u{5d3}\u{5d5}\u{5e2}\u{5d9}\u{5dd}\n\u{5e1}\u{5d9}\u{5d1}\u{5d4}: identity_unresolved\n\u{5d4}\u{5d5}\u{5d3}\u{5e2}\u{5d4} \u{5d0}\u{5d7}\u{5e8}\u{5d5}\u{5e0}\u{5d4}: "
    ∷ text_take 1000 m.text
    ∷ "\n\u{5ea}\u{5e9}\u{5d5}\u{5d1}\u{5ea} \u{5d4}\u{5d1}\u{5d5}\u{5d8}: \u{5dc}\u{5d0} \u{5e0}\u{5e9}\u{5dc}\u{5d7}\u{5d4}\n\u{5e0}\u{5d0} \u{5dc}\u{5d1}\u{5e8}\u{5e8} \u{5d5}\u{5dc}\u{5d7}\u{5d6}\u{5d5}\u{5e8} \u{5dc}\u{5dc}\u{5e7}\u{5d5}\u{5d7}."
    ∷ [])

abbrev pub origin_of : Row → Origin
origin_of r = record { mode = r.mode; phone = r.phone; chat_id = some r.chat_id }

abbrev pub identity_notice : Config → Row → Notice
identity_notice config m = record {
  phone = config.admin_phone;
  text = identity_text m;
  media_id = none;
  match_id = none;
}

abbrev pub identity_key : (ℕ → String) → Row → String
identity_key show_id m = template ("identity-alert:" ∷ show_id m.id ∷ [])

abbrev pub with_outbox : Inbox → Result (Option ℕ × Db) → Result Inbox
with_outbox x (err e) = err e
with_outbox x (ok (_, db)) = ok (record x { db = db })

-- The transaction after the last attempt to find the phone of the message that was read.
unfoldable pub give_up : Config → (ℕ → String) → Row → Inbox → Result Inbox
unfolding message outbound
give_up config show_id m x = do
  r ← message m.id x
  if is_processed r
      then ok x
      else (let noted =
            log "system" "identity_unresolved" (set_row m.id (ended identity_unresolved) x) in
          with_outbox noted (
            outbound formatted config (origin_of m) (identity_notice config m)
              (identity_key show_id m) none noted.db))

-- `INSERT INTO contact_identities … ON CONFLICT DO NOTHING`
abbrev pub know_chat : String → String → List (String × String) → List (String × String)
know_chat chat phone known =
    if any (λ i. i.0 == chat) known then known else known ++ (chat, phone) ∷ []

abbrev new_conversation : ℕ → String → String → Conversation
new_conversation id phone chat = record {
  id = id;
  phone = phone;
  chat_id = chat;
  in_human_mode = false;
  selected_request_id = none;
  version = 0;
  pending_counterparty_name = none;
  pending_counterparty_phone = none;
}

-- The conversation of a phone, which follows the customer to the newest chat.
abbrev pub conversation_for : String → String → Db → ℕ × Db
conversation_for phone chat db = elim (find (λ c. c.phone == phone) db.conversations) [
  | some c ↦ (
    c.id,
    if c.chat_id == chat then db else record db {
      conversations =
          update (λ d. d.id == c.id) (λ d. record d { chat_id = chat }) db.conversations;
    },
  )
  | none ↦ (
    db.fresh,
    record db {
      fresh = suc db.fresh;
      conversations = db.conversations ++ new_conversation db.fresh phone chat ∷ [];
    },
  )
]

abbrev pub belongs : String → ℕ → Row → Row
belongs phone conversation r = record r { phone = some phone; conversation_id = some conversation }

abbrev pub attach_to : Row → String → String → ℕ × Db → Inbox → Inbox
attach_to m phone contact (conversation, db) x = add_job "conversation" m.id phone (
    set_row m.id (belongs contact conversation)
      (record x { db = db; identities = know_chat m.chat_id contact x.identities }))

-- The transaction that gives the message that was read to its customer. The job is keyed by the
-- phone as it was found.
unfoldable pub attach : Row → String → Inbox → Result Inbox
unfolding message canonical_phone
attach m phone x = do
  r ← message m.id x
  if is_some r.phone || is_processed r then ok x else elim (canonical_phone phone) [
    | err e ↦ err e
    | ok contact ↦ ok (attach_to m phone contact (conversation_for contact m.chat_id x.db) x)
  ]

-- `ingestNext(lastAttempt)` behind the read of the message.
unfoldable pub resolve_row :
    Config → (ℕ → String) → (String → Result String) → Bool → Row → Inbox → Result Inbox
unfolding phone_of give_up attach
resolve_row config show_id resolve last_attempt m x = elim (phone_of resolve m.chat_id x) [
  | ok phone ↦ attach m phone x
  | err _ ↦ if last_attempt then give_up config show_id m x else err (retryable "identity_retry")
]

unfoldable pub ingest_next :
    Config → (ℕ → String) → (String → Result String) → Bool → Inbox → Result Inbox
unfolding first_unresolved resolve_row
ingest_next config show_id resolve last_attempt x = elim (first_unresolved x) [
  | none ↦ ok x
  | some m ↦ resolve_row config show_id resolve last_attempt m x
]
