-- ===== src/Engine/Ordering.antt =====
-- src/application/engine.ts: the order in which the commands of a plan run, and which of them do.
pub mod Dependency
pub mod Executed
use zolo.Prelude.{
  ℕ, zero, suc, String, Bool, true, false, not, ◌&&◌, ◌||◌, Option, none, some, List, [], ◌∷◌, ◌++◌,
  nat_eq, string_eq, option_eq, ◌==◌, if◌then◌else◌, find, any, filter, length,
}
use zolo.Domain.{
  Role, receiver, is_receiver, same_role, Command, details, counterparty, DetailsCommand,
  CounterpartyCommand, Request, Context,
}

-- `details` of the receiver, with the number of its request.
abbrev pub receiver_details : Command → Option (Option ℕ)
receiver_details (details c) = elim c.role [
  | none ↦ none
  | some role ↦ if is_receiver role then some c.request_number else none
]
receiver_details _ = none

-- The command is a `counterparty` of the request of that number.
abbrev pub links : Option ℕ → Command → Bool
links number (counterparty c) = c.request_number == number
links number _ = false

-- `findIndex` and `splice`: the first command that passes the test, and the list without it.
unfoldable pub take_out : (Command → Bool) → List Command → Option (Command × List Command)
take_out p [] = none
take_out p (c ∷ cs) =
    let later = take_out p cs in
    if p c
    then some (c, cs)
    else elim later [ none ↦ none | some found ↦ some (found.0, c ∷ found.1) ]

-- The loop over the commands. It steps over each command once, and a moved command along with the
-- details that it stands before, so the number of the commands is enough fuel.
unfoldable pub ordered_from : ℕ → List Command → List Command
unfolding take_out
ordered_from zero cs = cs
ordered_from (suc n) [] = []
ordered_from (suc n) (c ∷ cs) = elim (receiver_details c) [
  | none ↦ c ∷ ordered_from n cs
  | some number ↦ elim (take_out (links number) cs) [
    | none ↦ c ∷ ordered_from n cs
    | some found ↦ found.0 ∷ c ∷ ordered_from n found.1
  ]
]

unfoldable pub ordered : List Command → List Command
unfolding ordered_from
ordered cs = ordered_from (length cs) cs

abbrev pub actor_role : Context → Option ℕ → Option Role
actor_role ctx number = elim (find (λ r. some r.number == number) ctx.requests) [
  | none ↦ none
  | some r ↦ elim (find (λ p. p.phone == ctx.conversation.phone) r.parties) [
    | none ↦ none
    | some p ↦ some p.role
  ]
]

-- The details of another role are left out where the same plan links the second party.
abbrev pub is_executable : Context → List Command → Command → Bool
is_executable ctx cs (details c) = elim c.role [
  | none ↦ true
  | some role ↦
      not (any (links c.request_number) cs)
      || elim (actor_role ctx c.request_number) [ none ↦ true | some actor ↦ same_role actor role ]
]
is_executable ctx cs _ = true

unfoldable pub executable : Context → List Command → List Command
unfolding ordered
executable ctx cs = let os = ordered cs in filter (is_executable ctx os) os
