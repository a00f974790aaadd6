-- ===== src/Policies/Questions/Total.antt =====
-- src/domain/policies.ts: whom `nextQuestion` answers.
use zolo.Prelude.{
  String, true, ◌&&◌, none, ◌≡◌, ok, Bool-cases, Option-cases, inl, inr, any, find, any-find,
  string_eq,
}
use zolo.Domain.{Party, Request}
use zolo.Policies.Parties.{is_own, is_incomplete, own_party, closed_status}
use zolo.Policies.Questions.{
  Asked, the_status, closed_request, passed_to_human, plain, next_question, open_question,
  is_coordinated, is_human,
}

own_found :
    (r : Request) (phone : String)
    → any (is_own phone none) r.parties ≡ true
    → (p : Party) × (own_party r phone none ≡ ok p)
unfolding own_party
own_found r phone h =
    let (p, e) = any-find (is_own phone none) r.parties h in
    elim (Option-cases (find (λ x. is_own phone none x && is_incomplete x) r.parties)) [
      | inl lost ↦ (p, rw (lost, e, own_party))
      | inr (q, found) ↦ (q, rw (found, own_party))
    ]

-- nextQuestion has an answer for every phone that has a party in the request, in each status of
-- it.
pub next_question-total :
    (r : Request) (phone : String)
    → any (is_own phone none) r.parties ≡ true
    → (asked : Asked) × (next_question r phone ≡ ok asked)
unfolding next_question
next_question-total r phone h =
    let (p, e) = own_found r phone h in
    elim (Bool-cases (is_coordinated r.status)) [
      | inl done ↦ (plain (the_status r), rw (done, next_question))
      | inr pending ↦ elim (Bool-cases (closed_status r.status)) [
        | inl over ↦ (plain (closed_request r.number), rw (pending, over, next_question))
        | inr active ↦ elim (Bool-cases (is_human r.status)) [
          | inl staff ↦ (plain passed_to_human, rw (pending, active, staff, next_question))
          | inr bot ↦ (open_question r p, rw (pending, active, bot, e, next_question))
        ]
      ]
    ]
