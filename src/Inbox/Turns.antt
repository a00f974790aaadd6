-- ===== src/Inbox/Turns.antt =====
-- src/application/engine.ts: the turn of a customer: which of the waiting messages are answered
-- together.
-- A transaction here fails when an insertion breaks a unique index.
use zolo.Prelude.{
  ℕ, suc, String, Bool, true, false, not, ◌&&◌, Option, none, some, List, [], ◌∷◌, ◌++◌, map,
  nat_eq, string_eq, option_eq, ◌==◌, leb, ltb, if◌then◌else◌, any, all, filter, is_empty, is_none,
  update, length, join, trim, text_length, nonempty, plain_error, Result, ok, err,
}
use zolo.Domain.{MessageKind, text, MediaState, no_media, ContactCard}
use zolo.Inbox.{
  Inbox, Row, Turn, TurnMessage, TurnStatus, turn_pending, turn_processing, is_processed, has_id,
  Ending, coalesced_into, set_row,
}

-- `co.phone=$1 AND m.processed_at IS NULL ORDER BY m.seq`
abbrev pub waits_for : String → Row → Bool
waits_for phone r = r.phone == some phone && not (is_processed r)

unfoldable pub pending_rows : String → Inbox → List Row
pending_rows phone x = filter (waits_for phone) x.messages

-- `id=ANY(ids) AND processed_at IS NULL ORDER BY seq`
abbrev pub locked_rows : List Row → Inbox → List Row
locked_rows snapshot x = filter (λ r. any (has_id r.id) snapshot && not (is_processed r)) x.messages

-- `COALESCE(max(generation)+1,0)` of the conversation.
abbrev next_generation : Option ℕ → List Turn → ℕ
next_generation conversation [] = 0
next_generation conversation (t ∷ turns) =
    let rest = next_generation conversation turns in
    if t.conversation_id == conversation && leb rest t.generation then suc t.generation else rest

-- The turn of a row that has one, else a new turn.
abbrev pub opened : Option (ℕ × ℕ) → Option ℕ → Inbox → (ℕ × ℕ) × Inbox
opened (some turn) conversation x = (turn, x)
opened none conversation x =
    let id = x.db.fresh in
    let generation = next_generation conversation x.turns in
    (
      (id, generation),
      record x {
        db = record x.db { fresh = suc id };
        turns =
            x.turns
            ++ record {
              id = id;
              conversation_id = conversation;
              generation = generation;
              status = turn_pending;
            }
              ∷ [];
      },
    )

-- `INSERT INTO turn_messages … ON CONFLICT(turn_id,message_id) DO NOTHING`; the table has also the
-- unique index (turn_id, position).
abbrev pub join_turn : ℕ → ℕ → ℕ → List TurnMessage → Result (List TurnMessage)
join_turn turn id position rows =
    if any (λ t. t.turn_id == turn && t.message_id == id) rows
    then ok rows
    else if any (λ t. t.turn_id == turn && t.position == position) rows
    then err (plain_error "23505")
    else ok (rows ++ record { turn_id = turn; message_id = id; position = position } ∷ [])

abbrev pub in_turn : ℕ × ℕ → Row → Row
in_turn turn r = if is_none r.turn then record r { turn = some turn } else r

-- The loop over the rows that were locked.
unfoldable pub join_all : ℕ × ℕ → ℕ → List Row → Inbox → Result Inbox
join_all turn position [] x = ok x
join_all turn position (r ∷ rows) x = elim (join_turn turn.0 r.id position x.turn_messages) [
  | err e ↦ err e
  | ok joined ↦
      join_all turn (suc position) rows
        (set_row r.id (in_turn turn) (record x { turn_messages = joined }))
]

abbrev is_pending_turn : TurnStatus → Bool
is_pending_turn turn_pending = true
is_pending_turn _ = false

abbrev begin_turn : ℕ → Inbox → Inbox
begin_turn id x = record x {
  turns =
      update (λ t. t.id == id && is_pending_turn t.status)
        (λ t. record t { status = turn_processing }) x.turns;
}

abbrev pub first_turn : List Row → Option (ℕ × ℕ)
first_turn [] = none
first_turn (r ∷ rows) = elim r.turn [ some turn ↦ some turn | none ↦ first_turn rows ]

abbrev pub join_opened : List Row → (ℕ × ℕ) × Inbox → Result Inbox
join_opened rows (turn, x) = elim (join_all turn 0 rows x) [
  | err e ↦ err e
  | ok x' ↦ ok (begin_turn turn.0 x')
]

-- The first transaction of `processNext`: the rows that were read take one turn.
unfoldable pub admit : List Row → Inbox → Result Inbox
unfolding join_all
admit snapshot x = elim (locked_rows snapshot x) [
  | [] ↦ ok x
  | r ∷ rows ↦ join_opened (r ∷ rows) (opened (first_turn (r ∷ rows)) r.conversation_id x)
]

abbrev is_text : MessageKind → Bool
is_text text = true
is_text _ = false

abbrev is_without : MediaState → Bool
is_without no_media = true
is_without _ = false

-- `m.kind === "text" && m.media_state === "none"`
abbrev pub is_plain : Row → Bool
is_plain r = is_text r.kind && is_without r.media_state

-- `rows.slice(0, -1)`
abbrev pub but_last : List Row → List Row
but_last [] = []
but_last (r ∷ []) = []
but_last (r ∷ s ∷ rows) = r ∷ but_last (s ∷ rows)

abbrev pub last_row : Row → List Row → Row
last_row r [] = r
last_row r (s ∷ rows) = last_row s rows

-- The texts of a burst, which is joined on one line when its parts are short.
unfoldable pub merged_text : List Row → String
unfolding trim text_length
merged_text rows =
    let parts = filter nonempty (map (λ (r : Row). trim r.text) rows) in
    let is_short = ltb 1 (length parts) && all (λ part. leb (text_length part) 48) parts in
    join (if is_short then " " else "\n") parts

abbrev pub merged_contacts : List Row → List ContactCard
merged_contacts [] = []
merged_contacts (r ∷ rows) = r.contacts ++ merged_contacts rows

-- `current.length === pending.length && current.every((m, i) => m.id === pending[i].id)`
abbrev pub same_ids : List Row → List Row → Bool
same_ids [] [] = true
same_ids (r ∷ rows) (s ∷ others) = r.id == s.id && same_ids rows others
same_ids _ _ = false

abbrev pub ended : Ending → Row → Row
ended why r = record r { endings = r.endings ++ why ∷ [] }

abbrev pub in_rows : List Row → Row → Bool
in_rows rows r = any (has_id r.id) rows

-- The two writes of the merge: the text of the last row, and the end of the others.
abbrev pub write_merge : List Row → Row → Inbox → Inbox
write_merge snapshot last x =
    let joined =
      set_row last.id
        (λ r. record r { text = merged_text snapshot; contacts = merged_contacts snapshot }) x in
    record joined {
      messages =
          update (in_rows (but_last snapshot)) (ended (coalesced_into last.id)) joined.messages;
    }

-- The second transaction of `processNext`, and the message that it then has answered. A message
-- that arrived since the rows were read leaves all as it is.
unfoldable pub merge : String → Row → List Row → Inbox → ℕ × Inbox
unfolding merged_text pending_rows
merge phone first rest x =
    let snapshot = first ∷ rest in
    let last = last_row first rest in
    if not (is_empty rest) && all is_plain snapshot && same_ids (pending_rows phone x) snapshot
    then (last.id, write_merge snapshot last x)
    else (first.id, x)
