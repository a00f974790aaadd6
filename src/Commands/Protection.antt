-- ===== src/Commands/Protection.antt =====
-- src/application/commands.ts: the guards on the commands that act on a request of the customer,
-- `mutable` and `ownParty`.
use zolo.Prelude.{
  ℕ, String, true, false, ◌&&◌, Option, none, ◌≡◌, ok, err, any, find-none, and_left, string_eq,
  ◌==◌, Bool, is_empty, ◌∙◌, refl,
}
use zolo.Domain.{
  DetailsCommand, FactsCommand, CounterpartyCommand, Command, details, item_facts, counterparty,
  approve_self, approve_schedule, select, cancel, escalate, contact_counterparty,
  counterparty_candidate, confirm_counterparty, next, CancelChoice, EscalateReason,
  CandidateCommand, Request, Context,
}
use zolo.Policies.Parties.{
  protected_status, request_protected, mutable, own_party, forbidden_party, is_own, is_incomplete,
}
use zolo.Store.Tables.{Db, Tx, lift, ◌>>=◌}
use zolo.Store.Requests.{request}
use zolo.Commands.{number_of, edit, on_request, on_target, apply}
use zolo.Commands.Base.{Env, target}
use zolo.Commands.Details.{reopened, is_rejected}

mutable-protected :
    (r : Request) → protected_status r.status ≡ true → mutable r ≡ err request_protected
unfolding mutable
mutable-protected r h = rw h

reopened-protected :
    (e : Env) (db : Db) (ctx : Context) (r : Request)
    → is_rejected r.status ≡ false
    → (c : DetailsCommand) → reopened e db ctx c r ≡ r
unfolding reopened
reopened-protected e db ctx r h c = rw h

-- The commands that edit a request.
pub data Editing : Command → Type 0 where
  of_details : {c : DetailsCommand} → Editing (details c)
  of_facts : {c : FactsCommand} → Editing (item_facts c)
  of_counterparty : {c : CounterpartyCommand} → Editing (counterparty c)
  of_approve_self : {n : Option ℕ} → Editing (approve_self n)
  of_approve_schedule : {n : Option ℕ} {date : Option ℕ} → Editing (approve_schedule n date)

stopped :
    {A : Type 0} (r : Request) (k : Unit {0} → Tx A) (db : Db)
    → protected_status r.status ≡ true
    → (lift (mutable r) >>= k) db ≡ err request_protected
stopped r k db h = rw (mutable-protected r h)

-- No details, item_facts, counterparty, approve_self or approve_schedule command edits a request
-- that is coordinated, in cancellation, closed or cancelled: it fails as protected. A rejected
-- request is left out, since details may open it again.
pub on_request-protected :
    (e : Env) (ctx : Context) (cmd : Command) (r : Request) (db : Db)
    → Editing cmd
    → protected_status r.status ≡ true
    → is_rejected r.status ≡ false
    → on_request e ctx cmd r db ≡ err request_protected
unfolding on_request edit
on_request-protected e ctx _ r db (of_details {c}) h open_one =
    stopped (reopened e db ctx c r) _ db (rw (reopened-protected e db ctx r open_one c) h)
on_request-protected e ctx _ r db of_facts h open_one = stopped r _ db h
on_request-protected e ctx _ r db of_counterparty h open_one = stopped r _ db h
on_request-protected e ctx _ r db of_approve_self h open_one = stopped r _ db h
on_request-protected e ctx _ r db of_approve_schedule h open_one = stopped r _ db h

none_own :
    (r : Request) (phone : String)
    → any (λ p. p.phone == phone) r.parties ≡ false
    → own_party r phone none ≡ err forbidden_party
unfolding own_party
none_own r phone h = rw (
  find-none (λ p. p.phone == phone) (λ p. is_own phone none p && is_incomplete p) r.parties
      (λ p own.
        and_left (p.phone == phone) true (and_left (is_own phone none p) (is_incomplete p) own))
      h,
  find-none (λ p. p.phone == phone) (is_own phone none) r.parties
      (λ p own. and_left (p.phone == phone) true own) h,
  own_party,
)

-- The commands that act on a request of the customer.
pub data Acting : Command → Type 0 where
  by_details : {c : DetailsCommand} → Acting (details c)
  by_facts : {c : FactsCommand} → Acting (item_facts c)
  by_counterparty : {c : CounterpartyCommand} → Acting (counterparty c)
  by_approve_self : {n : Option ℕ} → Acting (approve_self n)
  by_approve_schedule : {n : Option ℕ} {date : Option ℕ} → Acting (approve_schedule n date)
  by_select : {n : ℕ} → Acting (select n)
  by_cancel : {n : Option ℕ} {choice : CancelChoice} → Acting (cancel n choice)
  by_escalate : {n : Option ℕ} {reason : EscalateReason} → Acting (escalate n reason)
  by_contact : {n : Option ℕ} {contact : Bool} → Acting (contact_counterparty n contact)
  by_candidate : {c : CandidateCommand} → Acting (counterparty_candidate c)
  by_confirm : {n : Option ℕ} {accept : Bool} → Acting (confirm_counterparty n accept)
  by_next : Acting next

apply-on_target :
    (e : Env) (ctx : Context) (cmd : Command) (db : Db)
    → Acting cmd
    → is_empty ctx.requests ≡ false
    → apply e ctx cmd db ≡ on_target e ctx cmd db
unfolding apply
apply-on_target e ctx _ db by_details some_requests = refl
apply-on_target e ctx _ db by_facts some_requests = refl
apply-on_target e ctx _ db by_counterparty some_requests = refl
apply-on_target e ctx _ db by_approve_self some_requests = refl
apply-on_target e ctx _ db by_approve_schedule some_requests = refl
apply-on_target e ctx _ db by_select some_requests = refl
apply-on_target e ctx _ db by_cancel some_requests = refl
apply-on_target e ctx _ db by_escalate some_requests = rw (some_requests, apply) refl
apply-on_target e ctx _ db by_contact some_requests = refl
apply-on_target e ctx _ db by_candidate some_requests = refl
apply-on_target e ctx _ db by_confirm some_requests = refl
apply-on_target e ctx _ db by_next some_requests = rw (some_requests, apply) refl

on_target_lem :
    (e : Env) (ctx : Context) (cmd : Command) (db : Db) (known row : Request)
    → target ctx (number_of cmd) ≡ ok known
    → request known.id db ≡ ok (row, db)
    → any (λ p. p.phone == ctx.conversation.phone) row.parties ≡ false
    → on_target e ctx cmd db ≡ err forbidden_party
unfolding on_target
on_target_lem e ctx cmd db known row t found foreign =
    rw (t, found, none_own row ctx.conversation.phone foreign, on_target)

-- When the customer has requests, a command that acts on one of them (details, item_facts,
-- counterparty, approve_self, approve_schedule, select, cancel, escalate, contact_counterparty,
-- counterparty_candidate, confirm_counterparty or next) fails as forbidden when no party of its
-- stored row has the phone of the speaker.
pub apply-stranger :
    (e : Env) (ctx : Context) (cmd : Command) (db : Db) (known row : Request)
    → Acting cmd
    → is_empty ctx.requests ≡ false
    → target ctx (number_of cmd) ≡ ok known
    → request known.id db ≡ ok (row, db)
    → any (λ p. p.phone == ctx.conversation.phone) row.parties ≡ false
    → apply e ctx cmd db ≡ err forbidden_party
apply-stranger e ctx cmd db known row acts some_requests t found foreign =
    apply-on_target e ctx cmd db acts some_requests
    ∙ on_target_lem e ctx cmd db known row t found foreign
