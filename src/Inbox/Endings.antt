-- ===== src/Inbox/Endings.antt =====
-- src/application/engine.ts: how a message ends. The body of `finish`, which makes the reply, is an
-- argument.
use zolo.Prelude.{
  ◌>>=◌, ℕ, suc, String, Bool, true, false, not, ◌&&◌, Option, none, some, List, [], ◌∷◌, ◌++◌,
  nat_eq, string_eq, option_eq, ◌==◌, if◌then◌else◌, find, any, is_none, update, error_status,
  retryable, Result, ok, err,
}
use zolo.Domain.{MediaState, ready, failed}
use zolo.Media.{StoredMedia}
use zolo.Store.Tables.{Db, event}
use zolo.Inbox.{
  Inbox, Row, Turn, TurnStatus, turn_completed, turn_superseded, is_processed, has_id, answered,
  access_denied, released, superseded_by, set_row, with_media,
}
use zolo.Inbox.Turns.{ended}

-- `message(id, c, true)`
unfoldable pub message : ℕ → Inbox → Result Row
message id x = elim (find (has_id id) x.messages) [
  | none ↦ err (error_status "message_not_found" 404)
  | some r ↦ ok r
]

-- A row of the table of events.
abbrev pub log : String → String → Inbox → Inbox
log actor kind x = elim (event actor kind none x.db) [
  | ok (_, db) ↦ record x { db = db }
  | err _ ↦ x
]

-- The transaction of `process` for a phone that the access list leaves out.
unfoldable pub deny : ℕ → Inbox → Result Inbox
unfolding message
deny id x = do
  r ← message id x
  if is_processed r
      then ok x
      else ok (log "system" "access_denied" (set_row id (ended access_denied) x))

-- `releaseFailedTurn` and `abandonIngest`: `UPDATE … WHERE id=$1 AND processed_at IS NULL`.
unfoldable pub release : String → ℕ → Inbox → Inbox
release code id x = record x {
  messages = update (λ r. has_id id r && not (is_processed r)) (ended (released code)) x.messages;
}

-- `capture` behind the download: the file's row, once per message.
abbrev pub file_row : ℕ → StoredMedia → Inbox → ℕ × Inbox
file_row id file x = elim (find (λ m. m.message_id == id) x.media) [
  | some m ↦ (m.id, x)
  | none ↦ (
    x.db.fresh,
    record x {
      db = record x.db { fresh = suc x.db.fresh };
      media = x.media ++ record { id = x.db.fresh; message_id = id; file = file } ∷ [];
    },
  )
]

abbrev pub is_ready : MediaState → Bool
is_ready ready = true
is_ready _ = false

unfoldable pub captured : ℕ → StoredMedia → Inbox → Result Inbox
unfolding message
captured id file x = do
  r ← message id x
  if is_ready r.media_state
      then ok x
      else (let taken = file_row id file x in ok (set_row id (with_media taken.0) taken.1))

-- `UPDATE messages SET media_state='failed' WHERE id=$1 AND media_state<>'ready'`
unfoldable pub capture_failed : ℕ → Inbox → Inbox
capture_failed id x = record x {
  messages =
      update (λ r. has_id id r && not (is_ready r.media_state))
        (λ r. record r { media_state = failed }) x.messages;
}

-- The rows before a row, and those behind it.
abbrev pub rows_before : ℕ → List Row → List Row
rows_before id [] = []
rows_before id (r ∷ rows) = let rest = rows_before id rows in if has_id id r then [] else r ∷ rest

abbrev pub rows_behind : ℕ → List Row → List Row
rows_behind id [] = []
rows_behind id (r ∷ rows) = let rest = rows_behind id rows in if has_id id r then rows else rest

abbrev pub is_older : Option String → Row → Bool
is_older phone r = r.phone == phone && not (is_processed r)

abbrev pub is_newer : Option ℕ → Row → Bool
is_newer conversation r = r.conversation_id == conversation && not (is_processed r)

abbrev of_turn : ℕ → Turn → Bool
of_turn id t = t.id == id

abbrev pub close_turn : TurnStatus → Option (ℕ × ℕ) → Inbox → Inbox
close_turn status none x = x
close_turn status (some turn) x = record x {
  turns = update (of_turn turn.0) (λ t. record t { status = status }) x.turns;
}

abbrev pub of_message_turn : Option (ℕ × ℕ) → Option (ℕ × ℕ) → Bool
of_message_turn (some t) (some u) = t.0 == u.0
of_message_turn _ _ = false

-- A turn is complete when each of its messages is processed.
abbrev pub complete_turn : Option (ℕ × ℕ) → Inbox → Inbox
complete_turn turn x =
    if any (λ (r : Row). of_message_turn turn r.turn && not (is_processed r)) x.messages
    then x
    else close_turn turn_completed turn x

abbrev pub superseded : ℕ → Row → Row → Inbox → Inbox
superseded id r newer x = log "system" "turn_superseded" (
    close_turn turn_superseded r.turn (record x {
      messages =
          update (λ q. has_id id q && not (is_processed q)) (ended (superseded_by newer.id))
            x.messages;
    }))

abbrev pub count_turn : Option ℕ → Inbox → Inbox
count_turn none x = x
count_turn (some id) x = record x {
  db = record x.db {
    conversations =
        update (λ c. c.id == id) (λ c. record c { version = suc c.version }) x.db.conversations;
  };
}

-- The end of a turn that was answered: the last three writes of `finish`.
abbrev pub commit_reply : ℕ → Row → Option String × Option String → Inbox → Inbox
commit_reply id r (reply, reason) x = count_turn r.conversation_id (
    complete_turn r.turn (set_row id (λ q. ended (answered reason) (record q { reply = reply })) x))

-- What a body does: a reply with a reason, and the database behind its commands.
abbrev pub Body : Type 0
Body = Row → Db → Result ((Option String × Option String) × Db)

abbrev pub run_body : ℕ → Row → Result ((Option String × Option String) × Db) → Inbox → Result Inbox
run_body id r (err e) x = err e
run_body id r (ok (answer, db)) x = ok (commit_reply id r answer (record x { db = db }))

abbrev pub reply_or_yield : Body → Bool → ℕ → Row → Inbox → Result Inbox
reply_or_yield body check id r x =
    elim (if check then find (is_newer r.conversation_id) (rows_behind id x.messages) else none) [
      | some newer ↦ ok (superseded id r newer x)
      | none ↦ run_body id r (body r x.db) x
    ]

-- The body of `finishFault`, `finishUnclear`, `finishPhotoHold`, `finishOutside` and
-- `finishPressure`: the reply, its error code and whether a human takes the conversation over.
abbrev pub FixedBody : Type 0
FixedBody = Row → Db → Result ((String × Option String × Bool) × Db)

-- `UPDATE conversations SET mode='human',version=version+1 WHERE id=$1`
abbrev pub to_human : Option ℕ → Inbox → Inbox
to_human none x = x
to_human (some id) x = record x {
  db = record x.db {
    conversations =
        update (λ c. c.id == id) (λ c. record c { in_human_mode = true; version = suc c.version })
          x.db.conversations;
  };
}

-- `UPDATE messages SET processed_at=…,reply=$2,error_code=$3 WHERE id=$1 AND processed_at IS NULL`
abbrev pub write_reply : ℕ → String → Option String → Inbox → Inbox
write_reply id reply code x = record x {
  messages =
      update (λ q. has_id id q && not (is_processed q))
        (λ q. ended (answered code) (record q { reply = some reply })) x.messages;
}

abbrev pub run_fixed :
    ℕ → Row → Result ((String × Option String × Bool) × Db) → Inbox → Result Inbox
run_fixed id r (err e) x = err e
run_fixed id r (ok ((reply, code, human), db)) x =
    let y = write_reply id reply code (record x { db = db }) in
    ok (if human then to_human r.conversation_id y else y)

-- The transaction of those five around their body.
unfoldable pub finish_fixed : FixedBody → ℕ → Inbox → Result Inbox
unfolding message
finish_fixed body id x = do
  r ← message id x
  if is_none r.phone
      then err (error_status "identity_unresolved" 409)
      else if is_none r.conversation_id
      then err (error_status "conversation_missing" 409)
      else if is_processed r
      then ok x
      else run_fixed id r (body r x.db) x

-- `finish(id, …, supersessionCheck)`
unfoldable pub finish : Body → Bool → ℕ → Inbox → Result Inbox
unfolding message
finish body check id x = do
  r ← message id x
  if is_none r.phone
      then err (error_status "identity_unresolved" 409)
      else if is_none r.conversation_id
      then err (error_status "conversation_missing" 409)
      else if is_processed r
      then ok x
      else if any (is_older r.phone) (rows_before id x.messages)
      then err (retryable "earlier_message_pending")
      else reply_or_yield body check id r x
