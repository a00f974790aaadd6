-- ===== src/Store/Outbox.antt =====
-- src/infrastructure/store.ts: `outbound`.
pub mod Queue
pub mod Rows
use zolo.Prelude.{
  ℕ, suc, String, Bool, true, false, ◌&&◌, not, Option, none, some, List, [], ◌∷◌, ◌++◌, nat_eq,
  string_eq, ◌==◌, if◌then◌else◌, any, ok, err, starts, template, nonempty, ltb, option_eq,
}
use zolo.Domain.{Conversation, Incoming, Notice, Mode}
use zolo.Policies.Phone.{canonical_phone}
use zolo.Store.Tables.{
  FormatState, Config, Db, Outbound, SendState, unsent, sending, uncertain, send_failed, Tx,
}

-- `isOperationsAlert(text)`: a monitor's text, which only the administrator may get.
unfoldable pub is_operations_alert : String → Bool
unfolding starts
is_operations_alert text =
    starts
      "\u{5e0}\u{5d3}\u{5e8}\u{5e9}\u{5ea} \u{5d1}\u{5d3}\u{5d9}\u{5e7}\u{5ea} \u{5de}\u{5e2}\u{5e8}\u{5db}\u{5ea}"
      text

-- The message that an outbound row answers: its mode, its phone and its chat.
pub record Origin : Type 0 where
  pub mode : Mode
  pub phone : Option String
  pub chat_id : Option String

abbrev pub of_message : Incoming → Origin
of_message m = record { mode = m.mode; phone = m.phone; chat_id = some m.chat_id }

-- The states in which a row is still at the head of its recipient's queue, or before it.
abbrev pub is_waiting : SendState → Bool
is_waiting unsent = true
is_waiting sending = true
is_waiting uncertain = true
is_waiting send_failed = true
is_waiting _ = false

abbrev pub default_chat : String → String
default_chat phone = template ("972" ∷ phone ∷ "@c.us" ∷ [])

abbrev newer : Option Conversation → Conversation → Conversation
newer none c = c
newer (some b) c = if ltb b.version c.version then c else b

-- `ORDER BY cv.version DESC LIMIT 1`
newest_chat : String → Option Conversation → List Conversation → Option Conversation
newest_chat phone best [] = best
newest_chat phone best (c ∷ cs) =
    newest_chat phone (if c.phone == phone then some (newer best c) else best) cs

chat_for : Db → Origin → String → String → String
unfolding newest_chat is_operations_alert
chat_for db ctx phone text =
    let known : String = elim (newest_chat phone none db.conversations) [
      | none ↦ default_chat phone
      | some c ↦ c.chat_id
    ] in
    if is_operations_alert text
    then default_chat phone
    else if ctx.phone == some phone
    then elim ctx.chat_id [ none ↦ known | some chat ↦ if nonempty chat then chat else known ]
    else known

-- The insertion, once per key; the job is sent only for the head of the recipient's queue.
unfoldable pub insert_outbound : Outbound → Db → Option ℕ × Db
insert_outbound row db =
    if any (λ o. o.dedupe_key == row.dedupe_key) db.outbox then (none, db) else (
      some row.id,
      record db {
        fresh = suc db.fresh;
        outbox =
            db.outbox
            ++ record row {
              has_job = not (any (λ o. o.phone == row.phone && is_waiting o.state) db.outbox);
            }
              ∷ [];
      },
    )

-- The row of a message to a canonical phone.
outbound_row : FormatState → Db → Origin → Notice → String → Option ℕ → String → Outbound
unfolding chat_for
outbound_row format db ctx notice key request_id phone = record {
  id = db.fresh;
  dedupe_key = key;
  request_id = request_id;
  phone = phone;
  chat_id = chat_for db ctx phone notice.text;
  text = notice.text;
  media_id = notice.media_id;
  match_id = notice.match_id;
  mode = ctx.mode;
  state = unsent;
  format_state = format;
  has_job = false;
}

-- `outbound(c, ctx, notice, key, requestId, formatState)`
unfoldable pub outbound : FormatState → Config → Origin → Notice → String → Option ℕ → Tx (Option ℕ)
unfolding is_operations_alert outbound_row insert_outbound
outbound format config ctx notice key request_id db = elim (canonical_phone notice.phone) [
  | err e ↦ err e
  | ok phone ↦
      if is_operations_alert notice.text && not (phone == config.admin_phone)
      then ok (none, db)
      else ok (insert_outbound (outbound_row format db ctx notice key request_id phone) db)
]
