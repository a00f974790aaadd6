-- ===== src/Engine/Sending.antt =====
-- src/application/engine.ts: `send`, which hands a row of the outbox to WhatsApp.
-- The provider's answer is an argument; the columns that only report (provider_id, delivery_state,
-- error_code and the instants) are left out.
pub mod World
pub mod Claims
pub mod Uses
pub mod Once
use zolo.Prelude.{
  ℕ, String, Bool, true, false, not, ◌&&◌, ◌||◌, Option, none, some, List, [], ◌∷◌, nat_eq,
  string_eq, option_eq, ◌==◌, if◌then◌else◌, is_empty, any, find, filter, map, update, update_first,
  nonempty, split, trim, Failure, Result, ok, err, retryable, error_status, template,
}
use zolo.Domain.{Mode, live, shadow, simulation, CandidateState, queued_photo, presented}
use zolo.Store.Tables.{
  Config, Db, Outbound, MatchRow, SendState, unsent, sending, sent, in_shadow, in_simulation,
  uncertain, send_failed, dismissed, FormatState, formatting,
}
use zolo.Store.Outbox.{is_operations_alert, is_waiting, default_chat}

-- What the call of the provider came to: its identifier of the message, or an error and whether it
-- is certain that nothing was delivered (`DeliveryError.certainty`).
pub data Answer : Type 0 where
  accepted rejected unknown : String → Answer

-- What the first transaction returns: nothing to do, a delivery that may have happened already, or
-- a row to deliver.
pub data Claim : Type 0 where
  skipped reconcile : Claim
  claimed : Outbound → Claim

abbrev pub has_id : ℕ → Outbound → Bool
has_id id o = o.id == id

abbrev pub write_row : ℕ → (Outbound → Outbound) → Db → Db
write_row id f db = record db { outbox = update (has_id id) f db.outbox }

abbrev pub in_state : SendState → Outbound → Outbound
in_state s o = record o { state = s }

-- `WHERE phone=$1 AND seq<$2 AND state IN (…)`: the rows stand in the order of their numbers.
unfoldable pub waiting_before : ℕ → String → List Outbound → Bool
waiting_before id phone [] = false
waiting_before id phone (o ∷ os) =
    let later = waiting_before id phone os in
    if o.id == id then false else o.phone == phone && is_waiting o.state || later

abbrev is_queued_photo : CandidateState → Bool
is_queued_photo queued_photo = true
is_queued_photo _ = false

-- The match that the row presents, if it presents one.
abbrev pub present : Option ℕ → Db → Db
present none db = db
present (some match_id) db = record db {
  matches =
      update (λ m. m.id == match_id && is_queued_photo m.state)
        (λ m. record m { state = presented }) db.matches;
}

abbrev pub is_final : SendState → Bool
is_final sent = true
is_final in_shadow = true
is_final in_simulation = true
is_final dismissed = true
is_final _ = false

abbrev pub is_begun : SendState → Bool
is_begun sending = true
is_begun uncertain = true
is_begun _ = false

abbrev pub is_formatting : FormatState → Bool
is_formatting formatting = true
is_formatting _ = false

-- `LIVE_ALLOWLIST` as the code reads it; an empty one lets everybody pass.
may_receive : Config → String → Bool
unfolding split trim
may_receive config phone =
    let allow = filter nonempty (map trim (split "," config.live_allowlist)) in
    is_empty allow || any (λ p. p == phone) allow

-- `BOT_MODE` has to be live too.
deliver_live : Mode → Config → ℕ → Outbound → Db → Result (Claim × Db)
unfolding may_receive
deliver_live live config id o db =
    if may_receive config o.phone
    then ok (claimed o, write_row id (in_state sending) db)
    else err (retryable "recipient_not_in_live_allowlist")
deliver_live _ config id o db = err (error_status "mode_mismatch" 409)

-- A row that is at the head of its recipient's queue, and was not begun.
deliver_row : Mode → Config → ℕ → Outbound → Db → Result (Claim × Db)
unfolding deliver_live
deliver_row shadow config id o db =
    ok (skipped, present o.match_id (write_row id (in_state in_shadow) db))
deliver_row simulation config id o db =
    ok (skipped, present o.match_id (write_row id (in_state in_simulation) db))
deliver_row live config id o db = deliver_live config.bot_mode config id o db

-- Behind the tests of operational alerts.
claim_row : Config → ℕ → Outbound → Db → Result (Claim × Db)
unfolding deliver_row waiting_before
claim_row config id o db =
    if is_formatting o.format_state
    then err (retryable "notice_format_pending")
    else if is_final o.state
    then ok (skipped, db)
    else if waiting_before id o.phone db.outbox
    then err (retryable "earlier_send_pending")
    else if is_begun o.state
    then ok (reconcile, write_row id (in_state uncertain) db)
    else deliver_row o.mode config id o db

-- The first transaction of `send(id)`.
unfoldable pub claim : Config → ℕ → Db → Result (Claim × Db)
unfolding claim_row is_operations_alert
claim config id db = elim (find (has_id id) db.outbox) [
  | none ↦ ok (skipped, db)
  | some o ↦
      if is_operations_alert o.text
      then (if o.phone == config.admin_phone
          then (let chat = default_chat o.phone in
              claim_row config id (record o { chat_id = chat })
                (write_row id (λ x. record x { chat_id = chat }) db))
          else ok (skipped, write_row id (in_state dismissed) db))
      else claim_row config id o db
]

abbrev is_unsent : SendState → Bool
is_unsent unsent = true
is_unsent _ = false

-- The job of the recipient's next message.
abbrev next_job : String → Db → Db
next_job phone db = record db {
  outbox =
      update_first (λ x. x.phone == phone && is_unsent x.state) (λ x. record x { has_job = true })
        db.outbox;
}

-- The writes behind the provider's answer.
unfoldable pub settle : ℕ → Outbound → Answer → Db → Db
settle id o (accepted provider_id) db =
    next_job o.phone (present o.match_id (write_row id (in_state sent) db))
settle id o (rejected code) db = write_row id (in_state unsent) db
settle id o (unknown code) db = write_row id (in_state uncertain) db

-- How the job ends: it is done, or it throws what makes the queue try again.
abbrev outcome : Answer → Result (Unit {0})
outcome (accepted provider_id) = ok tt
outcome (rejected code) = err (retryable code)
outcome (unknown code) = err (retryable code)

-- `send(id)`, with the call of the provider as an argument; the tables are kept in every case.
unfoldable pub send : Config → (Outbound → Answer) → ℕ → Db → Result (Unit {0}) × Db
unfolding claim settle
send config call id db = elim (claim config id db) [
  | err e ↦ (err e, db)
  | ok (skipped, db') ↦ (ok tt, db')
  | ok (reconcile, db') ↦ (err (retryable "delivery_uncertain"), db')
  | ok (claimed o, db') ↦ (outcome (call o), settle id o (call o) db')
]
