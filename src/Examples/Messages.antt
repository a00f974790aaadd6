-- ===== src/Examples/Messages.antt =====
-- Two bubbles of one customer, which are answered together.
use zolo.Prelude.{
  ℕ, ◌≤◌, String, ◌≡◌, refl, true, false, Option, none, some, List, [], ◌∷◌, show, map, ap, subst,
  ok_injective, arith, Result, ok, err, plain_error,
}
use zolo.Domain.{live, text}
use zolo.Store.Tables.{Db}
use zolo.Inbox.{Inbox, Row, ParsedMessage, ingest, new_row, answered, coalesced_into}
use zolo.Inbox.Turns.{admit, merge, pending_rows}
use zolo.Inbox.Endings.{Body, finish}
use zolo.Inbox.Identity.{resolve_row}
use zolo.Inbox.Once.{arrives, identified, admitted, merged, replied, here, onward, Reach-Sound}
use zolo.Inbox.Writes.{Sound}
use zolo.Examples.Data.{config, db_of, taker}

abbrev bubble : String → String → ParsedMessage
bubble id words = record {
  external_id = id;
  chat_id = "972541234567@c.us";
  kind = text;
  text = words;
  media_url = none;
  contacts = [];
  location = none;
}

abbrev quiet : Inbox
quiet = record {
  db = db_of [];
  messages = [];
  identities = [];
  media = [];
  turns = [];
  turn_messages = [];
  jobs = [];
}

abbrev first : Inbox
first = (ingest "s" show (bubble "a" " hello ") live none quiet).1

abbrev both : Inbox
both = (ingest "s" show (bubble "b" "a sofa") live none first).1

again : ingest "s" show (bubble "a" "hello") live none both ≡ ((quiet.db.fresh, true), both)
unfolding ingest
again = refl

abbrev of_result : Result Inbox → Inbox
of_result (ok x) = x
of_result (err _) = quiet

abbrev row_a : Row
row_a = new_row 100 live (bubble "a" " hello ")

abbrev row_b : Row
row_b = new_row 102 live (bubble "b" "a sofa")

abbrev find_a : Result Inbox
find_a = resolve_row config show (λ _. ok taker) false row_a both

abbrev find_b : Result Inbox
find_b = resolve_row config show (λ _. ok taker) false row_b (of_result find_a)

finds_a : find_a ≡ ok (of_result find_a)
unfolding resolve_row ingest
finds_a = refl

finds_b : find_b ≡ ok (of_result find_b)
unfolding resolve_row ingest
finds_b = refl

abbrev waiting : List Row
waiting = pending_rows taker (of_result find_b)

abbrev admission : Result Inbox
admission = admit waiting (of_result find_b)

admits : admission ≡ ok (of_result admission)
unfolding admit resolve_row ingest pending_rows
admits = refl

-- The two bubbles in one, behind the rows that were read before they took their turn.
abbrev joined : Inbox
joined = (merge taker row_a (row_b ∷ []) (of_result admission)).1

shown :
    (map (λ (r : Row). r.text) joined.messages ≡ " hello " ∷ "hello a sofa" ∷ [])
    × (map (λ (r : Row). r.endings) joined.messages ≡ (coalesced_into 102 ∷ []) ∷ [] ∷ [])
unfolding admit resolve_row ingest pending_rows merge
shown = (refl, refl)

abbrev greeting : Body
greeting r db = ok ((some "hi", none), db)

greeting-fresh :
    (r : Row) (db db' : Db) (a : Option String × Option String)
    → greeting r db ≡ ok (a, db')
    → db.fresh ≤ db'.fresh
greeting-fresh r db db' a e =
    let same : db ≡ db' = ap (λ p. p.1) (ok_injective e) in
    subst (λ (d : Db). db.fresh ≤ d.fresh) same (omega arith)

abbrev reply : Result Inbox
reply = finish greeting true 102 joined

replies : reply ≡ ok (of_result reply)
unfolding finish admit resolve_row ingest pending_rows merge
replies = refl

abbrev empty_Sound : Sound quiet
empty_Sound = record { below = tt; rows = tt }

Reach-Sound_example : Sound (of_result reply)
Reach-Sound_example = Reach-Sound empty_Sound (
    onward
      (onward
        (onward
          (onward
            (onward
              (onward (onward here (arrives quiet "s" show (bubble "a" " hello ") live none))
                (arrives first "s" show (bubble "b" "a sofa") live none))
              (identified both (of_result find_a) config show (λ _. ok taker) false row_a finds_a))
            (identified (of_result find_a) (of_result find_b) config show (λ _. ok taker) false
              row_b finds_b))
          (admitted (of_result find_b) (of_result admission) waiting admits))
        (merged (of_result admission) taker row_a (row_b ∷ [])))
      (replied joined (of_result reply) greeting true 102 greeting-fresh replies))

-- Two pictures took one turn, and the first is answered: a third bubble cannot join the turn, since
-- its position is the one that the second picture has.
abbrev of_taker : Option (ℕ × ℕ) → Row → Row
of_taker turn r = record r { phone = some taker; conversation_id = some 7; turn = turn }

abbrev picture_b : Row
picture_b = of_taker (some (200, 0)) row_b

abbrev bubble_c : Row
bubble_c = of_taker none (new_row 104 live (bubble "c" "and a table"))

abbrev half_answered : Inbox
half_answered = record quiet {
  messages =
      record (of_taker (some (200, 0)) row_a) { endings = answered none ∷ [] }
      ∷ picture_b
      ∷ bubble_c
      ∷ [];
  turn_messages =
      record { turn_id = 200; message_id = 100; position = 0 }
      ∷ record { turn_id = 200; message_id = 102; position = 1 }
      ∷ [];
}

taken_position : admit (picture_b ∷ bubble_c ∷ []) half_answered ≡ err (plain_error "23505")
unfolding admit
taken_position = refl
