-- ===== src/Commands/Cancelling/Release.antt =====
-- src/application/commands.ts: what `cancel` leaves of a request's dates and approvals.
use zolo.Prelude.{
  ℕ, ◌+◌, ◌≤◌, String, Bool, true, false, none, some, List, [], ◌∷◌, ◌≡◌, refl, sym, ap, arith, ok,
  ok_injective, Bool-cases, inl, inr, nat_eq, string_eq, option_eq, map, All,
}
use zolo.Domain.{CancelChoice, ask, next_week, final, Party, Request, Context}
use zolo.Policies.Calendar.{Now}
use zolo.Policies.Readiness.{ready_to_coordinate}
use zolo.Store.Transport.{candidate_date}
use zolo.Store.Transport.Dates.{candidate_date-earliest}
use zolo.Commands.Base.{Env, Outcome, unschedule, message_text}
use zolo.Commands.Cancelling.{
  suspended, abandoned, resumed, says_cancel, says_final, says_next_week, is_cancel_pending,
  cancel_command,
}

-- No date stands, proposed or approved by any party.
pub record Released (r : Request) : Type 0 where
  pub no_proposal : r.proposed_run_date ≡ none
  pub no_approval :
      All (λ p. (p.schedule_approved ≡ false) × (p.schedule_approved_date ≡ none)) r.parties
  pub not_ready : ready_to_coordinate r ≡ false

unscheduled :
    (ps : List Party)
    → All
        (λ p. (p.schedule_approved ≡ false) × (p.schedule_approved_date ≡ none))
        (map unschedule ps)
unscheduled [] = tt
unscheduled (p ∷ ps) = ((refl, refl), unscheduled ps)

unproposed : (r : Request) → r.proposed_run_date ≡ none → ready_to_coordinate r ≡ false
unfolding ready_to_coordinate
unproposed r e = ground (arith, e)

suspended-Released : (e : Env) (r : Request) → Released (suspended e r)
unfolding suspended
suspended-Released e r = record {
  no_proposal = refl;
  no_approval = unscheduled r.parties;
  not_ready = unproposed (suspended e r) refl;
}

abandoned-Released : (e : Env) (r : Request) → Released (abandoned e r)
abandoned-Released e r = record {
  no_proposal = refl;
  no_approval = unscheduled r.parties;
  not_ready = unproposed (abandoned e r) refl;
}

resumed-Released : (r : Request) → Released (resumed r)
resumed-Released r = record {
  no_proposal = refl;
  no_approval = unscheduled r.parties;
  not_ready = unproposed (resumed r) refl;
}

-- The text in which the customer says it, by the choice.
abbrev pub said : CancelChoice → String → Bool
said ask = says_cancel
said final = says_final
said next_week = says_next_week

-- Each choice of cancel succeeds only on the explicit words that it asks for, and leaves a request
-- with no proposed date and no schedule approval of any party, which is not ready to be
-- coordinated.
pub cancel_command-Released :
    (e : Env) (ctx : Context) (choice : CancelChoice) (r : Request) (o : Outcome)
    → cancel_command e ctx choice r ≡ ok o
    → (said choice (message_text ctx) ≡ true) × (r' : Request) × (o.request ≡ some r') × Released r'
unfolding cancel_command
cancel_command-Released e ctx ask r o h = elim (Bool-cases (says_cancel (message_text ctx))) [
  | inr silent ↦ absurd (let k = rw (silent, cancel_command) at h in cc)
  | inl words ↦
      let k = ok_injective (rw (words, cancel_command) at h) in
      (words, suspended e r, sym (ap (λ x. x.request) k), suspended-Released e r)
]
cancel_command-Released e ctx final r o h = elim (Bool-cases (says_final (message_text ctx))) [
  | inr silent ↦ absurd (let k = rw (silent, cancel_command) at h in cc)
  | inl words ↦
      let k = ok_injective (rw (words, cancel_command) at h) in
      (words, abandoned e r, sym (ap (λ x. x.request) k), abandoned-Released e r)
]
cancel_command-Released e ctx next_week r o h = elim (Bool-cases (is_cancel_pending r.status)) [
  | inr early ↦ absurd (let k = rw (early, cancel_command) at h in cc)
  | inl pending ↦ elim (Bool-cases (says_next_week (message_text ctx))) [
    | inr silent ↦ absurd (let k = rw (pending, silent, cancel_command) at h in cc)
    | inl words ↦
        let k = ok_injective (rw (pending, words, cancel_command) at h) in
        (words, resumed r, sym (ap (λ x. x.request) k), resumed-Released r)
  ]
]

-- After a cancellation to think over, the next date that can be proposed is at least a week behind
-- the date that was given up.
pub suspended-candidate_date :
    (e : Env) (r : Request) (now : Now) (date : ℕ)
    → r.run_date ≡ some date
    → date + 7 ≤ candidate_date (suspended e r) now
unfolding suspended
suspended-candidate_date e r now date h =
    candidate_date-earliest (suspended e r) now (date + 7) (rw h)
