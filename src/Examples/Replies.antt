-- ===== src/Examples/Replies.antt =====
-- The end of a turn, the order of its commands, the guard of its reply, and the redaction of secrets.
use zolo.Prelude.{
  Perm, Mem, ℕ, String, true, false, Option, none, some, List, [], ◌∷◌, ◌≡◌, ◌↔◌, ◌⊎◌, refl, arith,
  Result, ok, err, All, includes,
}
use zolo.Domain.{Command, DetailsCommand, details, counterparty, receiver, Context, text, no_media}
use zolo.Policies.Calendar.{Now, next_tuesday}
use zolo.Policies.Phone.{canonical_phone}
use zolo.Store.Tables.{Db}
use zolo.Store.Transport.Capacity.{WithinCapacity}
use zolo.Engine.Ordering.{ordered, executable}
use zolo.Engine.Ordering.Executed.{Foreign, executable-ordered}
use zolo.Engine.Ordering.Dependency.{linked_first, ordered-linked_first}
use zolo.Engine.Scheduling.{Turn, schedule}
use zolo.Engine.Scheduling.Invariant.{schedule-WithinCapacity}
use zolo.Security.{Value, array, object, element, no_element, entry, no_entry, redact_secrets}
use zolo.Security.Redaction.{IsClean, redact_secrets-IsClean}
use zolo.Guards.{markers_in, drops_required_phrase, apply_claim_guard}
use zolo.Guards.Claims.{apply_claim_guard-claims}
use zolo.Examples.Data.{env, giver, taker, context, agreed, db_of, incoming}

-- Both parties agreed to the date, and the turn of the second ends.
abbrev turn : Turn
turn = record { request = agreed; reply = none; reason = none }

abbrev db : Db
db = db_of (agreed ∷ [])

abbrev ended : Turn × Db
ended = elim (schedule env (incoming text no_media none taker "ok") taker turn db) [
  | ok y ↦ y
  | err _ ↦ (turn, db)
]

ends : schedule env (incoming text no_media none taker "ok") taker turn db ≡ ok ended
unfolding schedule next_tuesday canonical_phone
ends = refl

within : WithinCapacity db
within date = omega arith

schedule-WithinCapacity_example : WithinCapacity ended.1
schedule-WithinCapacity_example =
    schedule-WithinCapacity env (incoming text no_media none taker "ok") taker turn ended.0 db
      ended.1 within (omega arith) ends

-- Two days behind the date that both agreed to, and the next run takes no transports: no date can
-- be proposed, and the request is coordinated on the date that has passed.
abbrev late : Now
late = record { instant = 2000; today = 20713; hour = 9; wall = 2000 }

abbrev closed_next : Db
closed_next = record db { runs = record { date = 20718; capacity = 10; is_open = false } ∷ [] }

abbrev run_of : Result (Turn × Db) → Option ℕ
run_of (ok y) = y.0.request.run_date
run_of (err _) = none

coordinates_late :
    run_of (
      schedule
        (record env { now = late })
        (incoming text no_media none taker "ok")
        taker
        turn
        closed_next)
    ≡ some 20711
unfolding schedule next_tuesday canonical_phone
coordinates_late = refl

-- The details of the receiver come first in the plan, and its link behind them.
abbrev receiver_named : DetailsCommand
receiver_named = record {
  request_number = some 1;
  role = some receiver;
  name = some "Dana";
  settlement = some "Beit Shean";
  address = none;
  floor = none;
}

abbrev plan : List Command
plan =
    details receiver_named
    ∷ counterparty (record { request_number = some 1; phone = some taker; name = some "Dana" })
    ∷ []

ordered-linked_first_example : (linked_first [] (ordered plan) ≡ true) × Perm plan (ordered plan)
ordered-linked_first_example = ordered-linked_first plan

-- The donor may link the receiver, but not give the details of the receiver.
abbrev linking : Context
linking = context giver "ok" "" (agreed ∷ [])

executes :
    executable linking plan
    ≡ counterparty (record { request_number = some 1; phone = some taker; name = some "Dana" }) ∷ []
unfolding executable
executes = refl

executable-ordered_example :
    (linked_first [] (executable linking plan) ≡ true)
    × All (λ c. ¬ Foreign linking plan c) (executable linking plan)
    × All (λ c. Mem c (executable linking plan) ⊎ Foreign linking plan c) (ordered plan)
executable-ordered_example = executable-ordered linking plan

-- The reply says that the request was saved, the model that it was approved.
abbrev committed : String
committed = "\u{5d4}\u{5e4}\u{5e0}\u{5d9}\u{5d9}\u{5d4} \u{5e0}\u{5e9}\u{5de}\u{5e8}\u{5d4}"

abbrev reworded : Option String
reworded = some "\u{5d4}\u{5e4}\u{5e0}\u{5d9}\u{5d9}\u{5d4} \u{5d0}\u{5d5}\u{5e9}\u{5e8}\u{5d4}"

apply_claim_guard-claims_example :
    All (λ m. includes m committed ≡ true) (markers_in (apply_claim_guard committed reworded).text)
    × (((apply_claim_guard committed reworded).text ≡ committed)
        ⊎ (drops_required_phrase committed (apply_claim_guard committed reworded).text ≡ false))
apply_claim_guard-claims_example = apply_claim_guard-claims committed reworded

-- The token of a client in a list of clients.
abbrev shown : Value
shown = array (
    element
      (object (
        entry "token" (zolo.Security.text "abc")
          (entry "name" (zolo.Security.text "Dana") no_entry)))
      no_element)

redact_secrets-IsClean_example :
    IsClean (redact_secrets shown) × (IsClean shown ↔ (redact_secrets shown ≡ shown))
redact_secrets-IsClean_example = redact_secrets-IsClean shown
