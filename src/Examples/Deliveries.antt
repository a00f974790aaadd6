-- ===== src/Examples/Deliveries.antt =====
-- A message on its way to WhatsApp, an event on its way to an integration, and a request that waits
-- for a place.
use zolo.Prelude.{◌≤◌, true, false, none, some, List, [], ◌∷◌, ◌≡◌, refl, arith, ok, count}
use zolo.Domain.{live, waiting_capacity}
use zolo.Policies.Phone.{canonical_phone}
use zolo.Store.Tables.{Db, unsent, sending, formatted, Outbound}
use zolo.Engine.Sending.{accepted, claimed, in_state, settle, write_row, claim}
use zolo.Engine.Sending.World.{Call, World, took, begins, ends, Reach, here, onward}
use zolo.Engine.Sending.Uses.{is_id}
use zolo.Engine.Sending.Once.{at_rest, Reach-once}
use zolo.Integrations.{
  Delivery, Adapters, done, failed, queued, claim as claim_event, settle as settle_event, begin,
  deliver_integration,
}
use zolo.Integrations.Order as Order
use zolo.Integrations.Order.{InOrder, claims, answers, happens, Reach-InOrder}
use zolo.Integrations.Attempts.{Settled, deliver_integration-Settled}
use zolo.Policies.Calendar.{next_tuesday}
use zolo.Store.Transport.{used_on}
use zolo.Operations.{operations}
use zolo.Operations.Waitlist.{AllSound, operations-AllSound}
use zolo.Examples.Data.{config, env, taker, tuesday, agreed, db_of}

abbrev row : Outbound
row = record {
  id = 100;
  dedupe_key = "k";
  request_id = none;
  phone = taker;
  chat_id = "972541234567@c.us";
  text = "hello";
  media_id = none;
  match_id = none;
  mode = live;
  state = unsent;
  format_state = formatted;
  has_job = true;
}

abbrev db : Db
db = record (db_of []) { fresh = 101; outbox = row ∷ [] }

abbrev begun : Db
begun = write_row 100 (in_state sending) db

claims_row : claim config 100 db ≡ ok (claimed row, begun)
unfolding claim
claims_row = refl

abbrev call : Call
call = record { id = 100; row = row }

abbrev delivered_world : World
delivered_world = record { db = settle 100 row (accepted "w1") begun; calls = []; taken = 100 ∷ [] }

delivers : Reach config (at_rest db) delivered_world
delivers =
    onward (onward here (begins (at_rest db) 100 row begun claims_row))
      (ends _ [] [] call (accepted "w1") true refl (took "w1"))

Reach-once_example : count (is_id 100) delivered_world.taken ≤ 1
Reach-once_example = Reach-once config db 100 (omega arith) delivers

-- The sheets take the event of number 5.
abbrev adapters : Adapters
adapters d = some done

abbrev waiting : List Delivery
waiting = queued 1 5 "sheets" ∷ []

Reach-InOrder_example :
    InOrder (settle_event adapters 9 (begin 9 (queued 1 5 "sheets")) (claim_event 9 1 waiting).1)
Reach-InOrder_example =
    Reach-InOrder waiting ((λ k. refl), tt)
      (Order.onward (Order.onward Order.here (claims waiting 9 1))
        (answers _ adapters 9 (begin 9 (queued 1 5 "sheets"))))

-- An integration that is down.
abbrev down : Adapters
down d = some (failed true false "down")

deliver_integration-Settled_example :
    (let r₁ = (deliver_integration down 10 1 waiting).1 in
      let r₂ = (deliver_integration down 12 1 r₁).1 in
      Settled 1 (deliver_integration down 16 1 r₂).1)
deliver_integration-Settled_example =
    deliver_integration-Settled down 1 10 12 16 waiting (queued 1 5 "sheets") refl refl
      (omega arith) (omega arith)

-- Both parties agreed to the date, and a place became free.
abbrev waits : Db
waits = db_of (record agreed { status = waiting_capacity } ∷ [])

promoted : (operations env waits).0 ≡ ok tt
unfolding operations next_tuesday canonical_phone
promoted = refl

on_tuesday : used_on tuesday (operations env waits).1 ≡ 1
unfolding operations next_tuesday canonical_phone
on_tuesday = refl

operations-AllSound_example : AllSound (operations env waits).1
operations-AllSound_example =
    operations-AllSound env waits
      (record { within = λ date. omega arith; one = λ id. ground arith })
