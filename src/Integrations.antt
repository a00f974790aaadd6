-- ===== src/Integrations.antt =====
-- src/application/runtime.ts: `deliverIntegration` and `recoverIntegrationQueue`, and of `event` in
-- src/infrastructure/store.ts the rows that it queues for the integrations.
-- The adapter of an integration is an argument: whether there is one, and what its call came to.
pub mod Order
pub mod Attempts
use zolo.Prelude.{
  ℕ, suc, ◌+◌, ◌-◌, ◌*◌, ◌^◌, String, Bool, true, false, not, ◌&&◌, ◌||◌, Option, none, some, List,
  [], ◌∷◌, ◌++◌, nat_eq, string_eq, ◌==◌, ltb, leb, if◌then◌else◌, any, find, filter, update,
  text_take, Result, ok, err, retryable,
}

pub data DeliveryState : Type 0 where
  pending active delivered dead_letter : DeliveryState

pub data ErrorClass : Type 0 where
  is_retryable retry_exhausted terminal is_ambiguous : ErrorClass

-- A row of integration_outbox, with the schema version of its event; instants in seconds.
pub record Delivery : Type 0 where
  pub id : ℕ
  pub integration : String
  pub event_id : ℕ
  pub schema_version : ℕ
  pub state : DeliveryState
  pub attempts : ℕ
  pub last_attempt_at : Option ℕ
  pub next_attempt_at : Option ℕ
  pub last_error : Option String
  pub error_class : Option ErrorClass

abbrev pub is_pending : DeliveryState → Bool
is_pending pending = true
is_pending _ = false

abbrev pub is_active : DeliveryState → Bool
is_active active = true
is_active _ = false

abbrev pub is_delivered : DeliveryState → Bool
is_delivered delivered = true
is_delivered _ = false

abbrev pub max_attempts : ℕ
max_attempts = 3

abbrev retry_delay : ℕ
retry_delay = 2

abbrev active_timeout : ℕ
active_timeout = 60

abbrev pub is_row : ℕ → Delivery → Bool
is_row id d = d.id == id

-- `next_attempt_at IS NULL OR next_attempt_at<=clock_timestamp()`
abbrev pub is_due : ℕ → Option ℕ → Bool
is_due now none = true
is_due now (some instant) = leb instant now

-- An earlier event of the integration that was not delivered.
abbrev pub stands_before : String → ℕ → Delivery → Bool
stands_before integration event_id d =
    d.integration == integration && ltb d.event_id event_id && not (is_delivered d.state)

abbrev pub is_blocked : String → ℕ → List Delivery → Bool
is_blocked integration event_id rows = any (stands_before integration event_id) rows

-- The row may be claimed now.
abbrev pub is_claimable : ℕ → List Delivery → Delivery → Bool
is_claimable now rows d =
    is_pending d.state
    && is_due now d.next_attempt_at
    && not (is_blocked d.integration d.event_id rows)

abbrev pub is_claimed : ℕ → ℕ → List Delivery → Delivery → Bool
is_claimed now id rows d = d.id == id && is_claimable now rows d

abbrev pub begin : ℕ → Delivery → Delivery
begin now d = record d { state = active; attempts = suc d.attempts; last_attempt_at = some now }

-- The claim: the row that is delivered, as the update returns it, and the table behind it.
unfoldable pub claim : ℕ → ℕ → List Delivery → Option Delivery × List Delivery
claim now id rows = elim (find (is_row id) rows) [
  | none ↦ (none, rows)
  | some d ↦
      if is_claimable now rows d
      then (some (begin now d), update (is_claimed now id rows) (begin now) rows)
      else (none, rows)
]

-- What the call of the adapter came to; an error says whether it may be tried again, and whether the
-- delivery may have happened.
pub data Answer : Type 0 where
  done : Answer
  failed : Bool → Bool → String → Answer

-- `WHERE id=$1 AND state='active'`
abbrev pub is_running : ℕ → Delivery → Bool
is_running id d = d.id == id && is_active d.state

abbrev pub bury : ErrorClass → String → Delivery → Delivery
bury why code d = record d { state = dead_letter; last_error = some code; error_class = some why }

abbrev finished : Delivery → Delivery
finished d = record d { state = delivered; last_error = none }

abbrev pub postponed : ℕ → ℕ → String → Delivery → Delivery
postponed now attempts code d = record d {
  state = pending;
  next_attempt_at = some (now + retry_delay * 2 ^ (attempts - 1));
  last_error = some code;
  error_class = some is_retryable;
}

abbrev failure_class : Bool → Bool → ErrorClass
failure_class may_retry true = is_ambiguous
failure_class true false = retry_exhausted
failure_class false false = terminal

-- What an answer to the attempt of that number does to its row, and how the job ends.
unfoldable pub after_answer : ℕ → ℕ → Answer → Delivery → Delivery
unfolding text_take
after_answer now attempts done d = finished d
after_answer now attempts (failed may_retry ambiguous code) d =
    if ambiguous || not may_retry || leb max_attempts attempts
    then bury (failure_class may_retry ambiguous) (text_take 160 code) d
    else postponed now attempts (text_take 160 code) d

abbrev outcome : ℕ → Answer → Result (Unit {0})
outcome attempts done = ok tt
outcome attempts (failed may_retry ambiguous code) =
    if ambiguous || not may_retry || leb max_attempts attempts
    then ok tt
    else err (retryable (text_take 160 code))

-- The adapters: none is registered, or the answer of the one that is.
abbrev pub Adapters : Type 0
Adapters = Delivery → Option Answer

-- The write behind a claim.
unfoldable pub settle : Adapters → ℕ → Delivery → List Delivery → List Delivery
unfolding after_answer
settle adapters now d rows = elim (adapters d) [
  | none ↦ update (is_running d.id) (bury terminal "adapter_not_registered") rows
  | some answer ↦
      if not (d.schema_version == 1)
      then update (is_running d.id) (bury terminal "unsupported_schema_version") rows
      else update (is_running d.id) (after_answer now d.attempts answer) rows
]

abbrev ending : Adapters → Delivery → Result (Unit {0})
ending adapters d = elim (adapters d) [
  | none ↦ ok tt
  | some answer ↦ if not (d.schema_version == 1) then ok tt else outcome d.attempts answer
]

after_claim : Adapters → ℕ → Option Delivery × List Delivery → Result (Unit {0}) × List Delivery
unfolding settle
after_claim adapters now (none, rows) = (ok tt, rows)
after_claim adapters now (some d, rows) = (ending adapters d, settle adapters now d rows)

-- `deliverIntegration(id)`; the claim also tests what the first read of the row tests.
unfoldable pub deliver_integration :
    Adapters → ℕ → ℕ → List Delivery → Result (Unit {0}) × List Delivery
unfolding claim after_claim
deliver_integration adapters now id rows = after_claim adapters now (claim now id rows)

abbrev is_stale : ℕ → Option ℕ → Bool
is_stale now none = true
is_stale now (some instant) = ltb (instant + active_timeout) now

abbrev pub is_stuck : ℕ → Delivery → Bool
is_stuck now d = is_active d.state && is_stale now d.last_attempt_at

abbrev pub released : Delivery → Delivery
released d = record d { state = pending }

-- The write of `recoverIntegrationQueue`, and the rows for which it sends jobs.
unfoldable pub recover : ℕ → List Delivery → List Delivery
recover now rows = update (is_stuck now) released rows

unfoldable pub due_rows : ℕ → List Delivery → List Delivery
due_rows now rows = filter (is_claimable now rows) rows

-- The rows of an event, one for each integration that is enabled.
abbrev pub queued : ℕ → ℕ → String → Delivery
queued id event_id integration = record {
  id = id;
  integration = integration;
  event_id = event_id;
  schema_version = 1;
  state = pending;
  attempts = 0;
  last_attempt_at = none;
  next_attempt_at = none;
  last_error = none;
  error_class = none;
}

unfoldable pub enqueue : ℕ → ℕ → List String → List Delivery → List Delivery
enqueue fresh event_id [] rows = rows
enqueue fresh event_id (name ∷ names) rows =
    enqueue (suc fresh) event_id names (rows ++ queued fresh event_id name ∷ [])
