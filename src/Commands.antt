-- ===== src/Commands.antt =====
-- src/application/commands.ts: `Commands.apply`.
pub mod Base
pub mod Opening
pub mod Searching
pub mod Linking
pub mod Cancelling
pub mod Details
pub mod Facts
pub mod Approving
pub mod Advancing
pub mod Protection
use zolo.Prelude.{ℕ, Bool, true, false, Option, none, some, is_empty, ◌⊎◌, inl, inr}
use zolo.Domain.{
  Command, donate, receive_from_donor, seek, interest, details, item_facts, counterparty,
  approve_self, approve_schedule, select, cancel, escalate, status, contact_counterparty,
  counterparty_candidate, confirm_counterparty, next, clarify_duplicate, Request, Context,
}
use zolo.Policies.Parties.{mutable, own_party}
use zolo.Policies.Questions.{next_question}
use zolo.Policies.Status.{status_text}
use zolo.Policies.Wording.{question_text}
use zolo.Store.Tables.{Tx, pure, lift, gets, ◌>>=◌, ◌>>◌}
use zolo.Store.Requests.{request}
use zolo.Commands.Base.{Env, Outcome, output, target, select_request}
use zolo.Commands.Opening.{of_donate, of_receive, open_command}
use zolo.Commands.Searching.{seek_command, interest_command}
use zolo.Commands.Linking.{candidate_command, confirm_command, contact_command, link_counterparty}
use zolo.Commands.Cancelling.{cancel_command, escalate_command}
use zolo.Commands.Details.{details_command, reopened}
use zolo.Commands.Facts.{facts_command}
use zolo.Commands.Approving.{approve_self_command, approve_schedule_command}
use zolo.Commands.Advancing.{
  conclude, next_command, next_without_request, escalate_without_request, clarify_command,
}

-- The number of the request in a command: `"request_number" in cmd ? cmd.request_number : null`.
abbrev pub number_of : Command → Option ℕ
number_of (interest n) = some n
number_of (details c) = c.request_number
number_of (item_facts c) = c.request_number
number_of (counterparty c) = c.request_number
number_of (approve_self n) = n
number_of (approve_schedule n _) = n
number_of (select n) = some n
number_of (cancel n _) = n
number_of (escalate n _) = n
number_of (contact_counterparty n _) = n
number_of (counterparty_candidate c) = c.request_number
number_of (confirm_counterparty n _) = n
number_of (clarify_duplicate n) = some n
number_of _ = none

-- The outcome, or the end of `apply` with the request.
unfoldable pub go_on : Env → Context → Bool → Outcome ⊎ Request → Tx Outcome
unfolding conclude
go_on e ctx tells (inl o) = pure o
go_on e ctx tells (inr r) = conclude e ctx tells r

-- The commands that edit a request: only one that is not protected.
unfoldable pub edit : Env → Context → Command → Request → Tx Outcome
unfolding mutable reopened details_command facts_command link_counterparty approve_self_command
    approve_schedule_command go_on conclude
edit e ctx (details c) r₀ = do
  r ← gets (λ db. reopened e db ctx c r₀)
  lift (mutable r)
  told ← details_command e ctx c r
  go_on e ctx true told
edit e ctx (item_facts c) r = do
  lift (mutable r)
  told ← lift (facts_command e ctx c r)
  go_on e ctx true told
edit e ctx (counterparty c) r = do
  lift (mutable r)
  linked ← link_counterparty e ctx c r
  go_on e ctx false linked
edit e ctx (approve_self _) r = do
  lift (mutable r)
  r' ← lift (approve_self_command e ctx r)
  conclude e ctx false r'
edit e ctx (approve_schedule _ date) r = do
  lift (mutable r)
  r' ← lift (approve_schedule_command e ctx date r)
  conclude e ctx false r'
edit e ctx _ r = do lift (mutable r); conclude e ctx false r

-- The commands on a request of the customer.
unfoldable pub on_request : Env → Context → Command → Request → Tx Outcome
unfolding edit next_question question_text candidate_command confirm_command contact_command
    cancel_command next_command
on_request e ctx (select _) r = do
  select_request ctx.conversation.id (some r.id)
  asked ← lift (next_question r ctx.conversation.phone)
  pure (output (question_text e.before asked.question) none)
on_request e ctx (counterparty_candidate c) r = candidate_command ctx c r
on_request e ctx (confirm_counterparty _ accept) r = confirm_command e ctx accept r
on_request e ctx (contact_counterparty _ contact) r = contact_command e ctx contact r
on_request e ctx (escalate _ reason) r = pure (escalate_command reason r)
on_request e ctx (cancel _ choice) r = lift (cancel_command e ctx choice r)
on_request e ctx next r = next_command e ctx r
on_request e ctx cmd r = edit e ctx cmd r

-- The request of the command, under its lock, which the speaker has a part in.
unfoldable pub on_target : Env → Context → Command → Tx Outcome
unfolding target request own_party on_request
on_target e ctx cmd = do
  initial ← lift (target ctx (number_of cmd))
  r ← request initial.id
  _ ← lift (own_party r ctx.conversation.phone none)
  on_request e ctx cmd r

-- `apply(c, ctx, cmd)`
unfoldable pub apply : Env → Context → Command → Tx Outcome
unfolding status_text seek_command open_command interest_command clarify_command on_target
    escalate_without_request next_without_request
apply e ctx status = pure (output (status_text e.before ctx.requests) none)
apply e ctx (seek kind) = seek_command e ctx kind
apply e ctx (donate c) = open_command e ctx (of_donate c)
apply e ctx (receive_from_donor c) = open_command e ctx (of_receive c)
apply e ctx (interest number) = interest_command e ctx number
apply e ctx (escalate n reason) = elim (is_empty ctx.requests) [
  | true ↦ escalate_without_request e ctx reason
  | false ↦ on_target e ctx (escalate n reason)
]
apply e ctx next = elim (is_empty ctx.requests) [
  | true ↦ next_without_request e ctx
  | false ↦ on_target e ctx next
]
apply e ctx (clarify_duplicate number) = clarify_command ctx number
apply e ctx cmd = on_target e ctx cmd
