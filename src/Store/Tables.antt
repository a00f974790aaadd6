-- ===== src/Store/Tables.antt =====
-- src/infrastructure/store.ts: the database as a value. A statement that finds a unique row is a
-- search of the table's list, and a list stands in the order in which its rows were inserted.
-- A transaction returns the new tables only with a result: what it wrote before a failure is
-- rolled back.
use zolo.Prelude.{
  ◌≡◌, inl, inr, Result-cases, ℕ, String, Bool, true, false, Option, List, [], ◌∷◌, ◌++◌, nat_eq,
  Failure, Result, ok, err, suc,
}
use zolo.Domain.{
  ItemKind, Role, RequestStatus, Mode, coordinated, closed, Request, Conversation, CandidateState,
}

-- Of `readConfig` what the store reads.
pub record Config : Type 0 where
  pub admin_phone : String
  pub transport_capacity : ℕ
  pub bot_mode : Mode
  pub live_allowlist : String

pub data SearchState : Type 0 where
  active matched search_closed : SearchState

pub record Search : Type 0 where
  pub phone : String
  pub kind : ItemKind
  pub state : SearchState

pub record MatchRow : Type 0 where
  pub id : ℕ
  pub request_id : ℕ
  pub phone : String
  pub state : CandidateState

pub record VerificationRow : Type 0 where
  pub request_id : ℕ
  pub role : Role
  pub state : String
  pub consented_at : Option ℕ
  pub last_error : Option String

pub record EventRow : Type 0 where
  pub request_id : Option ℕ
  pub actor : String
  pub event_type : String

pub record TransportRun : Type 0 where
  pub date : ℕ
  pub capacity : ℕ
  pub is_open : Bool

pub data ApprovalStatus : Type 0 where
  awaiting approved denied : ApprovalStatus

pub record CapacityApproval : Type 0 where
  pub id : ℕ
  pub run_date : ℕ
  pub requested_capacity : ℕ
  pub request_id : Option ℕ
  pub status : ApprovalStatus

pub data Decision : Type 0 where
  allowed outside review : Decision

pub record ServiceLocation : Type 0 where
  pub name : String
  pub aliases : List String
  pub decision : Decision

-- A street of the active data set.
pub record Street : Type 0 where
  pub name : String
  pub normalized : String
  pub aliases : List String

pub data SendState : Type 0 where
  unsent sending sent in_shadow in_simulation uncertain send_failed dismissed : SendState

pub data FormatState : Type 0 where
  formatted formatting format_failed : FormatState

pub record Outbound : Type 0 where
  pub id : ℕ
  pub dedupe_key : String
  pub request_id : Option ℕ
  pub phone : String
  pub chat_id : String
  pub text : String
  pub media_id : Option ℕ
  pub match_id : Option ℕ
  pub mode : Mode
  pub state : SendState
  pub format_state : FormatState
  pub has_job : Bool

-- `fresh` is the next identifier that nothing bears: `randomUUID()`.
pub record Db : Type 0 where
  pub fresh : ℕ
  pub counter : ℕ
  pub requests : List Request
  pub conversations : List Conversation
  pub searches : List Search
  pub matches : List MatchRow
  pub verifications : List VerificationRow
  pub events : List EventRow
  pub runs : List TransportRun
  pub approvals : List CapacityApproval
  pub locations : List ServiceLocation
  pub streets : List Street
  pub outbox : List Outbound

abbrev pub Tx {ℓ} : Type ℓ → Type ℓ
Tx A = Db → Result (A × Db)

module _ {ℓ} {A : Type ℓ} where
  abbrev pub pure : A → Tx A
  pure a db = ok (a, db)

  abbrev pub throw : Failure → Tx A
  throw e db = err e

  abbrev pub lift : Result A → Tx A
  lift (ok a) db = ok (a, db)
  lift (err e) db = err e

  abbrev pub gets : (Db → A) → Tx A
  gets f db = ok (f db, db)

abbrev pub modify : (Db → Db) → Tx (Unit {0})
modify f db = ok (tt, f db)

abbrev pub continue {ℓ κ} :
    {A : Type ℓ} {B : Type κ} → Result (A × Db) → (A → Tx B) → Result (B × Db)
continue (ok (a, db)) f = f a db
continue (err e) f = err e

infixl 5 ◌>>=◌ ◌>>◌
abbrev pub ◌>>=◌ {ℓ κ} : {A : Type ℓ} {B : Type κ} → Tx A → (A → Tx B) → Tx B
◌>>=◌ m f db = continue (m db) f

abbrev pub ◌>>◌ {ℓ κ} : {A : Type ℓ} {B : Type κ} → Tx A → Tx B → Tx B
m >> k = m >>= λ _. k

-- An identifier from `randomUUID()`.
abbrev pub random_id : Tx ℕ
random_id db = ok (db.fresh, record db { fresh = suc db.fresh })

-- `event(c, …, type, data, requestId)`: the row; the deliveries to integrations are not modelled.
abbrev pub event : String → String → Option ℕ → Tx (Unit {0})
event actor kind request_id = modify (λ db. record db {
  events = db.events ++ record { request_id = request_id; actor = actor; event_type = kind } ∷ [];
})

-- `status IN ('coordinated','closed')`
abbrev pub takes_capacity : RequestStatus → Bool
takes_capacity coordinated = true
takes_capacity closed = true
takes_capacity _ = false

-- What a sequence of two statements did, step by step.
pub bind-steps {ℓ κ} :
    {A : Type ℓ} {B : Type κ} (m : Tx A) (k : A → Tx B) (db db' : Db) (b : B)
    → (m >>= k) db ≡ ok (b, db')
    → (x : A × Db) × (m db ≡ ok x) × (k x.0 x.1 ≡ ok (b, db'))
bind-steps m k db db' b h = elim (Result-cases (m db)) [
  | inl (x, e) ↦ (x, e, rw e at h)
  | inr (f, e) ↦ absurd (let g = rw e at h in cc)
]
